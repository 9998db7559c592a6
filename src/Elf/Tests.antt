-- ===== src/Elf/Tests.antt =====
-- Runs of the model of kernel/elf.c, and its theorem at a segment that begins in the middle of a page.
use ali_os.Base.{
  ℕ, List, ◌+◌, ◌*◌, ◌%◌, ◌≡◌, ◌<◌, refl, update, pos, true, false, [], ◌∷◌, some, if◌then◌else◌,
  ◌==◌, arith,
}
use ali_os.Pmm.{Pmm, pmm_init, page_is_free}
use ali_os.Pmm.Init.{pmm_init_lem}
use ali_os.Vm.{Vm}
use ali_os.Vm.Map.{IsSpace}
use ali_os.Alfs.{Fs, Dirent, entry_at}
use ali_os.Elf.{Phdr, header_ok, load_page, load_segment}
use ali_os.Elf.Args.{elf_push_args, copy_strings, push_block, push_pointers, push_word}
use ali_os.Elf.Layout.{Lays, elf_push_args-Lays}
use ali_os.Elf.Page.{image}
use ali_os.Elf.Load.{Loads, load_page-Loads}

abbrev zeroed : Pmm
zeroed = record { bitmap = λ i. 0; free_count = 0; page_refs = λ p. 0 }

abbrev booted : Pmm
booted = pmm_init (record { base = 0; length = 0x8000000; kind = 1 } ∷ []) 0xC0104000 zeroed

booted_used : (p : ℕ) → p < 256 → page_is_free booted.bitmap p ≡ false
booted_used p h =
    (pmm_init_lem (record { base = 0; length = 0x8000000; kind = 1 } ∷ []) 0xC0104000 zeroed
        (λ i. refl) (λ i. refl)).1
      p h

-- An address space with nothing in the user's half.
abbrev empty : Vm
empty = record { pages = booted; tables = λ p i. 0; bytes = λ p k. 7; kernel_dir = λ i. 0 }

empty-IsSpace : IsSpace 1 empty
empty-IsSpace = record {
  pages = record {
    valid =
        (pmm_init_lem (record { base = 0; length = 0x8000000; kind = 1 } ∷ []) 0xC0104000 zeroed
          (λ i. refl) (λ i. refl)).0;
    zero_used = booted_used 0 (omega arith);
  };
  dir_used = booted_used 1 (omega arith);
  table_used = λ i u p. absurd (cc p);
  table_grants = λ i u p. absurd (cc p);
  table_ne = λ i u p. absurd (cc p);
  table_apart = λ i j ui uj n p q. absurd (cc p);
}

abbrev program : Dirent
program = record { name = λ i. 0; start = 10; size = 1000; flags = 1 }

abbrev disk : Fs
disk = record {
  ready = true;
  dir = λ i. program;
  drive = record {
    bytes = λ a. a % 251;
    polls = λ n. true;
    clock = 0;
    ready = true;
    stray = λ i. 9;
  };
}

abbrev text : Phdr
text = record { kind = 1; offset = 100; vaddr = 0x8000010; filesz = 600; memsz = 5000; flags = 5 }

found : entry_at (pos 3) disk ≡ some program
unfolding entry_at
found = refl

load_page-Loads_example :
    Loads 1 0x8000 program text 0x8000000 empty disk
      (load_page (pos 3) 0x1000 text 0x8000000 empty disk)
load_page-Loads_example =
    load_page-Loads (pos 3) 0x1000 program text 0x8000000 empty disk empty-IsSpace (omega arith)
      found
      (record {
        addresses = omega arith;
        offsets = omega arith;
        page = omega arith;
        extent = omega arith;
      })

-- The first byte of the segment, and one past its part of the file.
first_byte : image program text 0x8000000 disk 16 ≡ (10 * 512 + 100) % 251
first_byte = refl

bss_byte : image program text 0x8000000 disk 616 ≡ 0
bss_byte = refl

low_refused : (load_segment (pos 3) 0x1000 (record text { vaddr = 0x7FFFFFF }) empty disk).0 ≡ false
unfolding load_segment
low_refused = refl

abbrev magic : ℕ → ℕ
magic i =
    if i == 0
    then 0x7F
    else if i == 1
    then b'E'
    else if i == 2
    then b'L'
    else if i == 3
    then b'F'
    else if i == 4
    then 1
    else if i == 16
    then 2
    else if i == 18
    then 3
    else if i == 42
    then 32
    else if i == 44
    then 2
    else 0

good_header : header_ok magic ≡ true
unfolding header_ok
good_header = refl

too_many : header_ok (update magic 44 9) ≡ false
unfolding header_ok
too_many = refl

abbrev two_args : List (List ℕ)
two_args = (b'l' ∷ b's' ∷ []) ∷ (b'a' ∷ []) ∷ []

elf_push_args-Lays_example : Lays 0x5000 two_args (elf_push_args 0x5000 two_args (λ i. 9) (λ a. 7))
elf_push_args-Lays_example =
    elf_push_args-Lays 0x5000 two_args (λ i. 9) (λ a. 7) (omega arith) (omega arith)

pushed_esp : (elf_push_args 0x5000 two_args (λ i. 9) (λ a. 7)).0 ≡ 0xBFFFFFE0
unfolding elf_push_args copy_strings push_block push_pointers push_word
pushed_esp = refl

-- String 1 fits and string 0 does not: no argument is left.
cut_argc :
    (copy_strings 2 0x5000 two_args
      (record { mem = λ a. 7; top = 66; str_vaddrs = λ i. 9; argc = 2 })).argc
    ≡ 0
unfolding copy_strings
cut_argc = refl
