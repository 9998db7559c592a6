-- ===== src/Pmm/Small.antt =====
-- A state of kernel/pmm.c with four free pages, for the tests.
use ali_os.Base.{
  ℕ, ◌≡◌, bit_clear_full, ◌%◌, ◌==◌, if◌then◌else◌, ◌∙◌, refl, arith, true, false, ◌+◌,
}
use ali_os.Pmm.{Pmm, pages_max, page_is_free, page_set_free}
use ali_os.Pmm.Bitmap.{
  AreBytes, count_free, count_free-eq_zero, count_free-set_free, page_set_free-AreBytes,
  page_is_free-set_free,
}
use ali_os.Pmm.Alloc.{IsValid}

-- Pages 40 to 43 are free: they are given back one after another to a machine without a free page.
abbrev pub full : ℕ → ℕ
full i = 255

full_used : (p : ℕ) → page_is_free full p ≡ false
unfolding page_is_free
full_used p = bit_clear_full (p % 8) (omega arith)

abbrev pub four_free : Pmm
four_free = record {
  bitmap = page_set_free (page_set_free (page_set_free (page_set_free full 40) 41) 42) 43;
  free_count = 4;
  page_refs = λ p. 0;
}

bytes_1 : AreBytes (page_set_free full 40)
bytes_1 = page_set_free-AreBytes full 40 (λ i. omega arith)

bytes_2 : AreBytes (page_set_free (page_set_free full 40) 41)
bytes_2 = page_set_free-AreBytes (page_set_free full 40) 41 bytes_1

bytes_3 : AreBytes (page_set_free (page_set_free (page_set_free full 40) 41) 42)
bytes_3 = page_set_free-AreBytes (page_set_free (page_set_free full 40) 41) 42 bytes_2

-- Which pages are free then.
pub four_free_at :
    (q : ℕ)
    → page_is_free four_free.bitmap q ≡ (
        if 43 == q
        then true
        else if 42 == q
        then true
        else if 41 == q
        then true
        else if 40 == q
        then true
        else false)
four_free_at q = ground (
  arith,
  full_used q,
  page_is_free-set_free full 40 q (λ i. omega arith),
  page_is_free-set_free (page_set_free full 40) 41 q bytes_1,
  page_is_free-set_free (page_set_free (page_set_free full 40) 41) 42 q bytes_2,
  page_is_free-set_free (page_set_free (page_set_free (page_set_free full 40) 41) 42) 43 q bytes_3,
)

-- The pages that are given back are in use before.
free_at :
    (bm : ℕ → ℕ) (p q : ℕ)
    → AreBytes bm
    → (p == q) ≡ false
    → page_is_free bm q ≡ false
    → page_is_free (page_set_free bm p) q ≡ false
free_at bm p q v n u = page_is_free-set_free bm p q v ∙ (rw n u)

four_counted : 4 ≡ count_free pages_max four_free.bitmap
four_counted =
    let f0 : count_free pages_max full ≡ 0 =
      count_free-eq_zero pages_max full (λ p _. full_used p) in
    let u1 = free_at full 40 41 (λ i. omega arith) refl (full_used 41) in
    let u2 =
      free_at (page_set_free full 40) 41 42 bytes_1 refl
        (free_at full 40 42 (λ i. omega arith) refl (full_used 42)) in
    let u3 = free_at (page_set_free (page_set_free full 40) 41) 42 43 bytes_2 refl (
      free_at (page_set_free full 40) 41 43 bytes_1 refl
        (free_at full 40 43 (λ i. omega arith) refl (full_used 43))) in
    let c1 : count_free pages_max (page_set_free full 40) ≡ count_free pages_max full + 1 =
      count_free-set_free pages_max full 40 (λ i. omega arith) (full_used 40) in
    let c2 : count_free pages_max (page_set_free (page_set_free full 40) 41)
        ≡ count_free pages_max (page_set_free full 40) + 1 =
      count_free-set_free pages_max (page_set_free full 40) 41 bytes_1 u1 in
    let c3 : count_free pages_max (page_set_free (page_set_free (page_set_free full 40) 41) 42)
        ≡ count_free pages_max (page_set_free (page_set_free full 40) 41) + 1 =
      count_free-set_free pages_max (page_set_free (page_set_free full 40) 41) 42 bytes_2 u2 in
    let c4 : count_free pages_max four_free.bitmap
        ≡ count_free pages_max (page_set_free (page_set_free (page_set_free full 40) 41) 42) + 1 =
      count_free-set_free pages_max (page_set_free (page_set_free (page_set_free full 40) 41) 42) 43
        bytes_3 u3 in
    omega (arith, f0, c1, c2, c3, c4)

pub four_free-IsValid : IsValid four_free
four_free-IsValid = record {
  bytes =
      page_set_free-AreBytes (page_set_free (page_set_free (page_set_free full 40) 41) 42) 43
        bytes_3;
  counted = four_counted;
  refs_fit = λ p. omega arith;
}
