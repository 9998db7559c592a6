-- ===== src/Ata/Slices.antt =====
-- Slices of the bytes of a drive.
use ali_os.Base.{
  ℕ, zero, suc, ◌+◌, ◌-◌, ◌≤◌, ◌≡◌, ◌∙◌, refl, ap, [], ◌∷◌, ◌++◌, arith, length, take, drop,
  take-append, drop-append,
}
use ali_os.Ata.{slice}

pub length-slice : (f : ℕ → ℕ) (a n : ℕ) → length (slice f a n) ≡ n
unfolding slice
length-slice f a zero = refl
length-slice f a (suc n) = ap suc (length-slice f (a + 1) n)

pub slice-zero : (f : ℕ → ℕ) (a : ℕ) → slice f a 0 ≡ []
unfolding slice
slice-zero f a = refl

pub slice-append : (f : ℕ → ℕ) (a m n : ℕ) → slice f a (m + n) ≡ slice f a m ++ slice f (a + m) n
unfolding slice
slice-append f a zero n =
    let e : 0 + n ≡ n = omega arith in let e' : a + 0 ≡ a = omega arith in rw (e, e')
slice-append f a (suc m) n =
    let e : suc m + n ≡ suc (m + n) = omega arith in
    let e' : a + suc m ≡ a + 1 + m = omega arith in
    rw (e, e') (ap (λ l. f a ∷ l) (slice-append f (a + 1) m n))

take-slice : (f : ℕ → ℕ) (a c n : ℕ) → take c (slice f a (c + n)) ≡ slice f a c
take-slice f a c n =
    let e : c ≡ length (slice f a c) = omega (arith, length-slice f a c) in
    rw (slice-append f a c n) (
      ap (λ k. take k (slice f a c ++ slice f (a + c) n)) e
      ∙ take-append (slice f a c) (slice f (a + c) n))

drop-slice : (f : ℕ → ℕ) (a o n : ℕ) → drop o (slice f a (o + n)) ≡ slice f (a + o) n
drop-slice f a o n =
    let e : o ≡ length (slice f a o) = omega (arith, length-slice f a o) in
    rw (slice-append f a o n) (
      ap (λ k. drop k (slice f a o ++ slice f (a + o) n)) e
      ∙ drop-append (slice f a o) (slice f (a + o) n))

-- Part of a slice is a slice.
pub take-drop-slice :
    (f : ℕ → ℕ) (a o c n : ℕ) → o + c ≤ n → take c (drop o (slice f a n)) ≡ slice f (a + o) c
take-drop-slice f a o c n h =
    let e : n ≡ o + (c + (n - o - c)) = omega arith in
    rw e (rw (drop-slice f a o (c + (n - o - c))) (take-slice f (a + o) c (n - o - c)))
