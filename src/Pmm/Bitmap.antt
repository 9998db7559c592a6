-- ===== src/Pmm/Bitmap.antt =====
-- The bitmap of kernel/pmm.c as a set of pages, and the number of free pages that `free_count`
-- stands for.
use ali_os.Base.{
  ℕ, zero, suc, ◌+◌, ◌/◌, ◌%◌, ◌≤◌, ◌<◌, ◌≡◌, refl, true, false, if◌then◌else◌, ◌==◌, ltb,
  bit_clear-with_bit, bit_clear-without_bit, arith,
}
use ali_os.Pmm.{page_set_used, page_set_free, page_is_free}

abbrev pub AreBytes : (ℕ → ℕ) → Type 0
AreBytes bm = (i : ℕ) → bm i < 256

pub page_set_used-AreBytes : (bm : ℕ → ℕ) (p : ℕ) → AreBytes bm → AreBytes (page_set_used bm p)
unfolding page_set_used
page_set_used-AreBytes bm p v i = ground (arith, v i)

pub page_set_free-AreBytes : (bm : ℕ → ℕ) (p : ℕ) → AreBytes bm → AreBytes (page_set_free bm p)
unfolding page_set_free
page_set_free-AreBytes bm p v i = ground (arith, v i)

pub page_is_free-set_used :
    (bm : ℕ → ℕ) (p q : ℕ)
    → AreBytes bm
    → page_is_free (page_set_used bm p) q ≡ (if p == q then false else page_is_free bm q)
unfolding page_is_free page_set_used
page_is_free-set_used bm p q v =
    ground (
      arith,
      bit_clear-with_bit (bm (p / 8)) (p % 8) (q % 8) (v (p / 8)) (omega arith) (omega arith),
    )

pub page_is_free-set_free :
    (bm : ℕ → ℕ) (p q : ℕ)
    → AreBytes bm
    → page_is_free (page_set_free bm p) q ≡ (if p == q then true else page_is_free bm q)
unfolding page_is_free page_set_free
page_is_free-set_free bm p q v = ground (
  arith,
  bit_clear-without_bit (bm (p / 8)) (p % 8) (q % 8) (v (p / 8)) (omega arith) (omega arith),
)

-- the number of free pages below `n`
pub count_free : ℕ → (ℕ → ℕ) → ℕ
count_free zero bm = 0
count_free (suc n) bm =
    let below = count_free n bm in if page_is_free bm n then suc below else below

pub count_free-le : (n : ℕ) (bm : ℕ → ℕ) → count_free n bm ≤ n
unfolding count_free
count_free-le zero bm = omega arith
count_free-le (suc n) bm = ground (arith, count_free-le n bm)

pub count_free-set_used :
    (n : ℕ) (bm : ℕ → ℕ) (p : ℕ)
    → AreBytes bm
    → page_is_free bm p ≡ true
    → count_free n bm ≡ count_free n (page_set_used bm p) + (if ltb p n then 1 else 0)
unfolding count_free
count_free-set_used zero bm p v f = ground arith
count_free-set_used (suc n) bm p v f =
    ground (arith, count_free-set_used n bm p v f, page_is_free-set_used bm p n v)

pub count_free-set_free :
    (n : ℕ) (bm : ℕ → ℕ) (p : ℕ)
    → AreBytes bm
    → page_is_free bm p ≡ false
    → count_free n (page_set_free bm p) ≡ count_free n bm + (if ltb p n then 1 else 0)
unfolding count_free
count_free-set_free zero bm p v f = ground arith
count_free-set_free (suc n) bm p v f =
    ground (arith, count_free-set_free n bm p v f, page_is_free-set_free bm p n v)

-- A free page is counted.
pub count_free_pos :
    (n : ℕ) (bm : ℕ → ℕ) (p : ℕ) → p < n → page_is_free bm p ≡ true → 0 < count_free n bm
unfolding count_free
count_free_pos zero bm p h f = absurd (omega arith)
count_free_pos (suc n) bm p h f = ground (arith, count_free_pos n bm p)

pub count_free-eq_zero :
    (n : ℕ) (bm : ℕ → ℕ) → ((p : ℕ) → p < n → page_is_free bm p ≡ false) → count_free n bm ≡ 0
unfolding count_free
count_free-eq_zero zero bm h = refl
count_free-eq_zero (suc n) bm h =
    ground (arith, h n, count_free-eq_zero n bm (λ p lt. h p (omega arith)))
