-- ===== src/Elf/Page.antt =====
-- kernel/elf.c: the bytes of one page of a segment.
use ali_os.Base.{
  ℕ, zero, suc, ◌+◌, ◌-◌, ◌*◌, ◌^◌, ◌≤◌, ◌<◌, ◌≡◌, ◌≢◌, ◌⊎◌, ◌∙◌, refl, ap, sym, u32, min,
  update_self, update_ne, get_or, ℤ, Bool, true, false, ◌&&◌, some, if◌then◌else◌, ltb, leb, inl,
  inr, Bool-cases, arith,
}
use ali_os.Pmm.{page_size}
use ali_os.Vm.{Vm}
use ali_os.Ata.{sector_size, slice}
use ali_os.Ata.Slices.{length-slice}
use ali_os.Ata.Sectors.{Failed}
use ali_os.Alfs.{Fs, Dirent, entry_at}
use ali_os.Alfs.Extent.{Fits}
use ali_os.Alfs.Read.{alfs_pread-FileRead}
use ali_os.Elf.{Phdr, place, copy_lo, copy_hi, copy_page}

-- What the program is to find at offset `k` of the page at `va`: the file's byte, or 0 outside the
-- segment's part of the file.
abbrev pub image : Dirent → Phdr → ℕ → Fs → ℕ → ℕ
image e ph va fs k =
    if leb ph.vaddr (va + k)
      && (ltb (va + k) (ph.vaddr + ph.filesz) && ltb (ph.offset + (va + k - ph.vaddr)) e.size)
    then fs.drive.bytes (e.start * sector_size + (ph.offset + (va + k - ph.vaddr)))
    else 0

-- The segment's addresses and its part of the file do not wrap.
pub record IsPlain (e : Dirent) (ph : Phdr) (va : ℕ) : Type 0 where
  pub addresses : ph.vaddr + ph.filesz < 2 ^ 32
  pub offsets : ph.offset + ph.filesz < 2 ^ 32
  pub page : va + page_size < 2 ^ 32
  pub extent : Fits e.start e.size

get_or-slice :
    (f : ℕ → ℕ) (a n i : ℕ) → get_or (slice f a n) i 0 ≡ (if ltb i n then f (a + i) else 0)
unfolding slice
get_or-slice f a zero i = ground arith
get_or-slice f a (suc n) zero = let e : a + 0 ≡ a = omega arith in ground (arith, e)
get_or-slice f a (suc n) (suc i) =
    let e : a + 1 + i ≡ a + suc i = omega arith in
    get_or-slice f (a + 1) n i ∙ (rw e (ground arith))

-- What the copy leaves, in a page of zeros.
pub record Copies (e : Dirent) (ph : Phdr) (va p : ℕ) (vm : Vm) (fs : Fs) (out : Bool × Vm × Fs)
    : Type 0 where
  pub same_pages : out.1.pages ≡ vm.pages
  pub same_tables : out.1.tables ≡ vm.tables
  pub others : (q : ℕ) → p ≢ q → out.1.bytes q ≡ vm.bytes q
  pub filled : out.0 ≡ true → (k : ℕ) → k < page_size → out.1.bytes p k ≡ image e ph va fs k
  pub failed : out.0 ≡ false → Failed fs.drive

-- The part of the page that is copied, `n` bytes from `lo` on, by its bounds.
placed_at :
    (f : ℕ → ℕ) (base offset vaddr filesz size va k lo n : ℕ)
    → va ≤ lo
    → vaddr ≤ lo
    → lo < vaddr + filesz
    → ((va + k < lo) ⊎ (vaddr + filesz ≤ va + k) ⊎ (size ≤ offset + (va + k - vaddr))
        → (k < lo - va) ⊎ (lo - va + n ≤ k))
    → ((lo ≤ va + k) × (va + k < vaddr + filesz) × (offset + (va + k - vaddr) < size)
        → k < lo - va + n)
    → (va + k < lo → va + k < vaddr)
    → place (slice f (base + (offset + (lo - vaddr))) n) (lo - va) (λ i. 0) k ≡ (
        if leb vaddr (va + k)
          && (ltb (va + k) (vaddr + filesz) && ltb (offset + (va + k - vaddr)) size)
        then f (base + (offset + (va + k - vaddr)))
        else 0)
placed_at f base offset vaddr filesz size va k lo n h1 h2 h3 outside inside before =
    rw
      (
        length-slice f (base + (offset + (lo - vaddr))) n,
        get_or-slice f (base + (offset + (lo - vaddr))) n (k - (lo - va)),
      )
      (elim (Bool-cases (
        leb vaddr (va + k)
        && (ltb (va + k) (vaddr + filesz) && ltb (offset + (va + k - vaddr)) size))) [
          | inl c ↦
              let low : lo ≤ va + k = ground (arith, before) in
              let top : k < lo - va + n = inside (low, ground arith, ground arith) in
              let e : base + (offset + (lo - vaddr)) + (k - (lo - va))
                  ≡ base + (offset + (va + k - vaddr)) =
                omega arith in
              rw (c, e) (ground arith)
          | inr c ↦
              let out : (k < lo - va) ⊎ (lo - va + n ≤ k) = outside (ground arith) in
              rw c (ground (arith, out))
        ])

placed :
    (e : Dirent) (ph : Phdr) (va k : ℕ) (fs : Fs)
    → IsPlain e ph va
    → k < page_size
    → ltb (copy_lo ph va) (copy_hi ph va) ≡ true
    → place
        (slice fs.drive.bytes
          (e.start * sector_size + u32 (ph.offset + (copy_lo ph va - ph.vaddr)))
          (min
            (copy_hi ph va - copy_lo ph va)
            (e.size - u32 (ph.offset + (copy_lo ph va - ph.vaddr)))))
        (copy_lo ph va - va)
        (λ i. 0)
        k
      ≡ image e ph va fs k
placed e ph va k fs pl lt some_bytes =
    let lo = copy_lo ph va in
    let a : (va ≤ lo) × (ph.vaddr ≤ lo) × ((lo ≡ va) ⊎ (lo ≡ ph.vaddr)) = ground arith in
    let b : (copy_hi ph va ≤ ph.vaddr + ph.filesz)
        × (copy_hi ph va ≤ va + page_size)
        × ((copy_hi ph va ≡ va + page_size) ⊎ (copy_hi ph va ≡ ph.vaddr + ph.filesz)) =
      ground (arith, pl.addresses, pl.page) in
    let c : lo < copy_hi ph va = ground arith in
    let off : u32 (ph.offset + (lo - ph.vaddr)) ≡ ph.offset + (lo - ph.vaddr) =
      omega (arith, pl.offsets) in
    rw off (
      placed_at fs.drive.bytes (e.start * sector_size) ph.offset ph.vaddr ph.filesz e.size va k lo
        (min (copy_hi ph va - lo) (e.size - (ph.offset + (lo - ph.vaddr)))) a.0 a.1 (omega arith)
        (λ h. omega arith) (λ h. omega arith) (λ h. omega arith))

no_image :
    (e : Dirent) (ph : Phdr) (va k : ℕ) (fs : Fs)
    → IsPlain e ph va
    → k < page_size
    → ltb (copy_lo ph va) (copy_hi ph va) ≡ false
    → image e ph va fs k ≡ 0
no_image e ph va k fs pl lt none_here =
    let off : (leb ph.vaddr (va + k)
          && (ltb (va + k) (ph.vaddr + ph.filesz) && ltb (ph.offset + (va + k - ph.vaddr)) e.size))
        ≡ false =
      ground (arith, pl.addresses, pl.page) in
    rw off refl

-- `elf_load` puts into a page of zeros what the program is to find there, or the drive fails.
pub copy_page-Copies :
    (idx : ℤ) (e : Dirent) (ph : Phdr) (va p : ℕ) (vm : Vm) (fs : Fs)
    → entry_at idx fs ≡ some e
    → IsPlain e ph va
    → vm.bytes p ≡ (λ i. 0)
    → Copies e ph va p vm fs (copy_page idx ph va p vm fs)
unfolding copy_page
copy_page-Copies idx e ph va p vm fs found pl zero_page =
    let lo = copy_lo ph va in
    let r =
      alfs_pread-FileRead idx (copy_hi ph va - lo) (u32 (ph.offset + (lo - ph.vaddr))) fs e found
        pl.extent in
    elim (Bool-cases (ltb lo (copy_hi ph va))) [
      | inr c ↦ rw c (record {
        same_pages = refl;
        same_tables = refl;
        others = λ q n. refl;
        filled = λ _ k lt. ap (λ (t : ℕ → ℕ). t k) zero_page ∙ sym (no_image e ph va k fs pl lt c);
        failed = λ h. absurd (cc h);
      })
      | inl c ↦ elim r.drive_read.result [
        | inr (n, f) ↦
            rw (c, n, copy_page)
              (record {
                same_pages = refl;
                same_tables = refl;
                others = λ q m. refl;
                filled = λ h. absurd (cc h);
                failed = λ _. f;
              })
        | inl s ↦
            rw (c, s, copy_page)
              (record {
                same_pages = refl;
                same_tables = refl;
                others = λ q n. update_ne vm.bytes p q _ n;
                filled = λ _ k lt.
                    ap (λ (t : ℕ → ℕ). t k) (update_self vm.bytes p _)
                    ∙ ap
                        (λ (t : ℕ → ℕ).
                          place
                            (slice fs.drive.bytes
                              (e.start * sector_size + u32 (ph.offset + (lo - ph.vaddr)))
                              (min (copy_hi ph va - lo)
                                (e.size - u32 (ph.offset + (lo - ph.vaddr)))))
                            (lo - va) t k)
                        zero_page
                    ∙ placed e ph va k fs pl lt c;
                failed = λ h. absurd (cc h);
              })
      ]
    ]
