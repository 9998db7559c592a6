-- ===== src/Elf.antt =====
-- kernel/elf.c: the loader of ELF programs and the argument block of a new program. The page that
-- `pmm_alloc` gives is filled through the identity map, so its bytes are those of the page.
pub mod Page
pub mod Load
pub mod Args
pub mod Strings
pub mod Words
pub mod Layout
mod Tests
use ali_os.Base.{
  ℕ, zero, suc, ◌+◌, ◌-◌, ◌*◌, ◌/◌, ◌%◌, u32, update, length, get_or, ℤ, pos, Bool, true, false,
  not, ◌&&◌, ◌||◌, Option, none, some, List, [], ◌∷◌, if◌then◌else◌, ◌==◌, ltb, leb,
}
use ali_os.Pmm.{page_size, pmm_alloc}
use ali_os.Vm.{Vm, frame_of, page_user, page_write, uvm_map}
use ali_os.Alfs.{Fs, alfs_find, word_at}
use ali_os.Alfs.Reading.{alfs_pread}

-- `Elf32_Phdr`, the fields that the loader reads; `kind` is `p_type`.
pub record Phdr : Type 0 where
  pub kind : ℕ
  pub offset : ℕ
  pub vaddr : ℕ
  pub filesz : ℕ
  pub memsz : ℕ
  pub flags : ℕ

-- The two static buffers, which keep what the last call left, with the memory and the disk. A read that
-- fails has overwritten a part of its buffer: what is in it then is unknown (`spoilt`).
pub record Loader : Type 0 where
  pub vm : Vm
  pub fs : Fs
  pub hdr_buf : ℕ → ℕ
  pub ph_buf : ℕ → ℕ
  pub spoilt : ℕ → ℕ

abbrev pub max_phdr : ℕ
max_phdr = 8

abbrev pub half_at : (ℕ → ℕ) → ℕ → ℕ
half_at f a = f a + 256 * f (a + 1)

abbrev pub phdr_at : (ℕ → ℕ) → ℕ → Phdr
phdr_at f i = record {
  kind = word_at f (i * 32);
  offset = word_at f (i * 32 + 4);
  vaddr = word_at f (i * 32 + 8);
  filesz = word_at f (i * 32 + 16);
  memsz = word_at f (i * 32 + 20);
  flags = word_at f (i * 32 + 24);
}

-- The bytes of a read, put into a buffer at index `start`.
abbrev pub place : List ℕ → ℕ → (ℕ → ℕ) → ℕ → ℕ
place bs start buf i =
    if leb start i && ltb i (start + length bs) then get_or bs (i - start) 0 else buf i

-- The tests of step 3 on the header.
unfoldable pub header_ok : (ℕ → ℕ) → Bool
header_ok h =
    (h 0 == 0x7F && (h 1 == b'E' && (h 2 == b'L' && h 3 == b'F')))
    && (h 4 == 1
        && (half_at h 16 == 2
            && (half_at h 18 == 3
                && (half_at h 42 == 32
                    && (not (half_at h 44 == 0) && leb (half_at h 44) max_phdr)))))

abbrev pub copy_lo : Phdr → ℕ → ℕ
copy_lo ph va = if ltb ph.vaddr va then va else ph.vaddr

abbrev pub copy_hi : Phdr → ℕ → ℕ
copy_hi ph va =
    let hi = u32 (ph.vaddr + ph.filesz) in
    if ltb (u32 (va + page_size)) hi then u32 (va + page_size) else hi

-- The bytes of the file that fall into the page at `va`, copied to page `p`.
unfoldable pub copy_page : ℤ → Phdr → ℕ → ℕ → Vm → Fs → Bool × Vm × Fs
copy_page idx ph va p vm fs =
    let lo = copy_lo ph va in
    let (got, fs') = alfs_pread idx (copy_hi ph va - lo) (u32 (ph.offset + (lo - ph.vaddr))) fs in
    if ltb lo (copy_hi ph va)
    then elim got [
      | none ↦ (false, vm, fs')
      | some bs ↦
          (true, record vm { bytes = update vm.bytes p (place bs (lo - va) (vm.bytes p)) }, fs')
    ]
    else (true, vm, fs)

abbrev pub pte_flags : Phdr → ℕ
pte_flags ph = if ph.flags / 2 % 2 == 1 then page_user + page_write else page_user

-- One round of the loop over the pages of a segment; `false` for -1.
unfoldable pub load_page : ℤ → ℕ → Phdr → ℕ → Vm → Fs → Bool × Vm × Fs
load_page idx pd ph va vm fs =
    let (phys, pages) = pmm_alloc vm.pages in
    let zeroed = record vm { pages = pages; bytes = update vm.bytes (frame_of phys) (λ k. 0) } in
    let (copied, vm', fs') = copy_page idx ph va (frame_of phys) zeroed fs in
    let (ok, vm'') = uvm_map pd va phys (pte_flags ph) vm' in
    if phys == 0
    then (false, record vm { pages = pages }, fs)
    else if copied
    then (ok, vm'', fs')
    else (false, vm', fs')

-- The loop from page `va` on, with `left` rounds left.
unfoldable pub load_pages : ℕ → ℤ → ℕ → Phdr → ℕ → Vm → Fs → Bool × Vm × Fs
load_pages zero idx pd ph va vm fs = (true, vm, fs)
load_pages (suc left) idx pd ph va vm fs =
    let (ok, vm', fs') = load_page idx pd ph va vm fs in
    let rest = load_pages left idx pd ph (va + page_size) vm' fs' in
    if ok then rest else (false, vm', fs')

-- One round of the loop over the program headers.
unfoldable pub load_segment : ℤ → ℕ → Phdr → Vm → Fs → Bool × Vm × Fs
load_segment idx pd ph vm fs =
    let va_page = frame_of ph.vaddr * page_size in
    let va_end = frame_of (u32 (u32 (ph.vaddr + ph.memsz) + (page_size - 1))) * page_size in
    if not (ph.kind == 1) || ph.memsz == 0
    then (true, vm, fs)
    else if ltb ph.vaddr 0x08000000 || leb 0xC0000000 ph.vaddr
    then (false, vm, fs)
    else load_pages ((va_end - va_page) / page_size) idx pd ph va_page vm fs

unfoldable pub load_segments : ℕ → ℕ → ℤ → ℕ → (ℕ → ℕ) → Vm → Fs → Bool × Vm × Fs
load_segments zero i idx pd buf vm fs = (true, vm, fs)
load_segments (suc left) i idx pd buf vm fs =
    let (ok, vm', fs') = load_segment idx pd (phdr_at buf i) vm fs in
    let rest = load_segments left (i + 1) idx pd buf vm' fs' in
    if ok then rest else (false, vm', fs')

-- Steps 4 and 5, after the header in `hdr_buf` passed.
unfoldable pub load_headers : ℤ → ℕ → Loader → Option ℕ × Loader
unfolding load_segments
load_headers idx pd s =
    let phnum = half_at s.hdr_buf 44 in
    let (got, fs) = alfs_pread idx (phnum * 32) (word_at s.hdr_buf 28) s.fs in
    elim got [
      | none ↦ (none, record s { fs = fs; ph_buf = s.spoilt })
      | some bs ↦
          let buf = place bs 0 s.ph_buf in
          let (ok, vm, fs') = load_segments phnum 0 idx pd buf s.vm fs in
          (
            if ok then some (word_at s.hdr_buf 24) else none,
            record s { vm = vm; fs = fs'; ph_buf = buf },
          )
    ]

-- `none` for -1, otherwise the entry point.
unfoldable pub elf_load : ℕ → List ℕ → Loader → Option ℕ × Loader
unfolding load_headers header_ok
elf_load pd filename s = elim (alfs_find filename s.fs) [
  | none ↦ (none, s)
  | some i ↦
      let (got, fs) = alfs_pread (pos i) 512 0 s.fs in
      elim got [
        | none ↦ (none, record s { fs = fs; hdr_buf = s.spoilt })
        | some bs ↦
            let s' = record s { fs = fs; hdr_buf = place bs 0 s.hdr_buf } in
            if header_ok s'.hdr_buf then load_headers (pos i) pd s' else (none, s')
      ]
]
