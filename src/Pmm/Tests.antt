-- ===== src/Pmm/Tests.antt =====
-- Tests of kernel/pmm.c's model, and its theorems at concrete inputs.
use ali_os.Base.{ℕ, ◌≤◌, ◌<◌, ◌≡◌, refl, true, false, List, [], ◌∷◌, arith, update}
use ali_os.Pmm.{
  Pmm, E820Entry, pages_max, page_set_used, page_is_free, pmm_init, pmm_alloc, pmm_free, pmm_addref,
}
use ali_os.Pmm.Init.{kernel_pages, pmm_init_lem}
use ali_os.Pmm.Alloc.{IsValid, Allocates, pmm_alloc-Allocates}
use ali_os.Pmm.Calls.{Call, run, run-IsValid}
use ali_os.Pmm.Refs.{times, shared_page_released, saturated_page_released_early}

set_used_then_free : page_is_free (page_set_used (λ i. 0) 11) 11 ≡ false
unfolding page_is_free page_set_used
set_used_then_free = refl

set_used_other : page_is_free (page_set_used (λ i. 0) 11) 12 ≡ true
unfolding page_is_free page_set_used
set_used_other = refl

-- The statics before `pmm_init`, and a map with 64 KB of usable memory at 1 MB.
abbrev zeroed : Pmm
zeroed = record { bitmap = λ i. 0; free_count = 0; page_refs = λ p. 0 }

abbrev small_map : List E820Entry
small_map = record { base = 0x100000; length = 0x10000; kind = 1 } ∷ []

abbrev kernel_end : ℕ
kernel_end = 0xC0104000

abbrev booted : Pmm
booted = pmm_init small_map kernel_end zeroed

pmm_init_lem_example :
    IsValid booted
    × ((p : ℕ) → p < 256 → page_is_free booted.bitmap p ≡ false)
    × ((p : ℕ)
        → 1 ≤ p
        → p < kernel_pages kernel_end
        → p < pages_max
        → page_is_free booted.bitmap p ≡ false)
pmm_init_lem_example = pmm_init_lem small_map kernel_end zeroed (λ i. refl) (λ i. refl)

booted-IsValid : IsValid booted
booted-IsValid = (pmm_init_lem small_map kernel_end zeroed (λ i. refl) (λ i. refl)).0

booted_used : (p : ℕ) → p < 256 → page_is_free booted.bitmap p ≡ false
booted_used p h = (pmm_init_lem small_map kernel_end zeroed (λ i. refl) (λ i. refl)).1 p h

-- The same state with one reference to page 5.
abbrev held : Pmm
held = record booted { page_refs = update booted.page_refs 5 1 }

held-IsValid : IsValid held
held-IsValid = record {
  bytes = booted-IsValid.bytes;
  counted = booted-IsValid.counted;
  refs_fit = λ p. ground (arith, booted-IsValid.refs_fit p);
}

pmm_alloc-Allocates_example : Allocates 0 pages_max booted (pmm_alloc booted)
pmm_alloc-Allocates_example = pmm_alloc-Allocates booted

shared_page_released_example :
    (page_is_free (times 1 (pmm_free 0x5000) (times 2 (pmm_addref 0x5000) held)).bitmap 5 ≡ false)
    × (page_is_free (times 3 (pmm_free 0x5000) (times 2 (pmm_addref 0x5000) held)).bitmap 5 ≡ true)
shared_page_released_example =
    shared_page_released 1 2 0x5000 held held-IsValid (omega arith) (booted_used 5 (omega arith))
      refl (omega arith) (omega arith)

saturated_page_released_early_example :
    page_is_free (times 255 (pmm_free 0x5000) (times 300 (pmm_addref 0x5000) held)).bitmap 5 ≡ true
saturated_page_released_early_example =
    saturated_page_released_early 300 0x5000 held held-IsValid (omega arith)
      (booted_used 5 (omega arith)) refl (omega arith)

run-IsValid_example : IsValid (
    run (Call.alloc ∷ Call.addref 0x100000 ∷ Call.free 0x100000 ∷ Call.free 0x7FFFFFFF ∷ []) booted)
run-IsValid_example =
    run-IsValid (Call.alloc ∷ Call.addref 0x100000 ∷ Call.free 0x100000 ∷ Call.free 0x7FFFFFFF ∷ [])
      booted booted-IsValid
