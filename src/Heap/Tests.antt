-- ===== src/Heap/Tests.antt =====
-- Tests of kernel/heap.c's model, and its theorems at concrete inputs.
use ali_os.Base.{ℕ, ◌+◌, ◌<◌, ◌≡◌, refl, true, false, some, List, [], ◌∷◌, arith, inl}
use ali_os.Pmm.{Pmm, E820Entry, page_is_free, pmm_init}
use ali_os.Pmm.Init.{pmm_init_lem}
use ali_os.Heap.{
  Block, Heap, add_page, take_fit, carve, merge_loop, merge_pass, merge_from, set_free, kmalloc,
  kfree,
}
use ali_os.Pmm.Fresh.{Pages}
use ali_os.Heap.Grow.{HeapValid}
use ali_os.Heap.Kmalloc.{Returned, Freed, kmalloc-Returned, kfree-Freed}

abbrev used_block : Block
used_block = record { addr = 0x5000; size = 100; free = false }

abbrev free_block : Block
free_block = record { addr = 0x5070; size = 3972; free = true }

-- A free block of 100 bytes is split for 40 bytes.
take_splits :
    take_fit 40 (used_block ∷ record used_block { free = true } ∷ [])
    ≡ some (
      0x500C,
      used_block
          ∷ record { addr = 0x5000; size = 40; free = false }
          ∷ record { addr = 0x5034; size = 48; free = true }
          ∷ [],
    )
unfolding take_fit carve
take_splits = refl

-- The next page extends the last block, if that one is free and ends where the page starts.
page_extends :
    add_page 0x6000 (used_block ∷ free_block ∷ [])
    ≡ used_block ∷ record free_block { size = 8068 } ∷ []
unfolding add_page
page_extends = refl

freed_merges :
    merge_loop 2 (set_free 0x5000 (used_block ∷ free_block ∷ []))
    ≡ some (record { addr = 0x5000; size = 4084; free = true } ∷ [])
unfolding merge_loop merge_pass merge_from set_free
freed_merges = refl

abbrev map : List E820Entry
map = record { base = 0x100000; length = 0x10000; kind = 1 } ∷ []

abbrev booted : Pmm
booted = pmm_init map 0xC0104000 (record { bitmap = λ i. 0; free_count = 0; page_refs = λ p. 0 })

booted_used : (p : ℕ) → p < 256 → page_is_free booted.bitmap p ≡ false
booted_used p h =
    (pmm_init_lem map 0xC0104000 (record { bitmap = λ i. 0; free_count = 0; page_refs = λ p. 0 })
        (λ i. refl) (λ i. refl)).1
      p h

booted-Pages : Pages booted
booted-Pages = record {
  valid =
      (pmm_init_lem map 0xC0104000 (record { bitmap = λ i. 0; free_count = 0; page_refs = λ p. 0 })
        (λ i. refl) (λ i. refl)).0;
  zero_used = booted_used 0 (omega arith);
}

-- The heap with one page, of which one block is in use.
abbrev one_page : Heap
one_page = record { blocks = used_block ∷ free_block ∷ []; pages = booted }

one_page-HeapValid : HeapValid one_page
one_page-HeapValid = record {
  pages = booted-Pages;
  low = (omega arith, (omega arith, tt));
  in_use =
      ((λ p lt gt. booted_used p (omega arith)), ((λ p lt gt. booted_used p (omega arith)), tt));
  apart = ((inl (omega arith), tt), (tt, tt));
}

kmalloc-Returned_example : Returned 8192 one_page (kmalloc (booted.free_count + 1) 8192 one_page)
kmalloc-Returned_example = kmalloc-Returned 8192 one_page one_page-HeapValid (omega arith)

kfree-Freed_example : Freed 0x500C one_page (kfree 2 0x500C one_page)
kfree-Freed_example = kfree-Freed 0x500C one_page one_page-HeapValid
