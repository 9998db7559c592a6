-- ===== src/Base/Bits.antt =====
-- Single bits of a byte under `|`, `&` and `~`, by a table of all bytes and positions.
use Prim.Native.Nat.{ℕ, zero, suc, ◌+◌, ◌-◌, ◌*◌, ◌/◌, ◌%◌, ◌^◌, ◌<◌, bit_and, bit_or}
use mathlib.Core.Path.{◌≡◌, refl, subst}
use mathlib.Core.Bool.{Bool, true, false, not}
use native.Mathlib.Omega.{arith}
use ali_os.Base.Tests.{◌==◌, if◌then◌else◌}
use ali_os.Base.Words.{u8}

-- A test of every number below `n`, and what a table that passes it says.
passes : (ℕ → Bool) → ℕ → Bool
passes test zero = true
passes test (suc n) = if test n then passes test n else false

passes_at : (test : ℕ → Bool) (n i : ℕ) → i < n → passes test n ≡ true → test i ≡ true
unfolding passes
passes_at test zero i below done = absurd (omega arith)
passes_at test (suc n) i below done = ground (arith, passes_at test n i)

-- `(b & (1u << k)) == 0`
abbrev pub bit_clear : ℕ → ℕ → Bool
bit_clear b k = bit_and b (2 ^ k) == 0

-- `b |= 1u << k` on a `uint8_t`
abbrev pub with_bit : ℕ → ℕ → ℕ
with_bit b k = u8 (bit_or b (2 ^ k))

-- `b &= ~(1u << k)` on a `uint8_t`
abbrev pub without_bit : ℕ → ℕ → ℕ
without_bit b k = u8 (bit_and b (2 ^ 32 - 1 - 2 ^ k))

abbrev same : Bool → Bool → Bool
same a b = if a then b else not b

same→eq : (a b : Bool) → same a b ≡ true → a ≡ b
same→eq a b h = ground arith

-- A table of all bytes `b` and positions `k` and `j`, run through as `b * 64 + k * 8 + j`.
table3 :
    (p : ℕ → ℕ → ℕ → Bool)
    → passes (λ x. p (x / 64) (x / 8 % 8) (x % 8)) 16384 ≡ true
    → (b k j : ℕ) → b < 256
    → k < 8
    → j < 8
    → p b k j ≡ true
table3 p t b k j hb hk hj =
    let x : ℕ = b * 64 + k * 8 + j in
    let eb : x / 64 ≡ b = omega arith in
    let ek : x / 8 % 8 ≡ k = omega arith in
    let ej : x % 8 ≡ j = omega arith in
    let h : p (x / 64) (x / 8 % 8) (x % 8) ≡ true =
      passes_at (λ y. p (y / 64) (y / 8 % 8) (y % 8)) 16384 x (omega arith) t in
    subst (λ (c : ℕ). p c k j ≡ true) eb
      (subst (λ (c : ℕ). p (x / 64) c j ≡ true) ek
        (subst (λ (c : ℕ). p (x / 64) (x / 8 % 8) c ≡ true) ej h))

abbrev with_law : ℕ → ℕ → ℕ → Bool
with_law b k j = same (bit_clear (with_bit b k) j) (if k == j then false else bit_clear b j)

abbrev without_law : ℕ → ℕ → ℕ → Bool
without_law b k j = same (bit_clear (without_bit b k) j) (if k == j then true else bit_clear b j)

with_table : passes (λ x. with_law (x / 64) (x / 8 % 8) (x % 8)) 16384 ≡ true
unfolding passes
with_table = refl

without_table : passes (λ x. without_law (x / 64) (x / 8 % 8) (x % 8)) 16384 ≡ true
unfolding passes
without_table = refl

full_table : passes (λ k. same (bit_clear 255 k) false) 8 ≡ true
unfolding passes
full_table = refl

pub bit_clear-with_bit :
    (b k j : ℕ)
    → b < 256
    → k < 8
    → j < 8
    → bit_clear (with_bit b k) j ≡ (if k == j then false else bit_clear b j)
bit_clear-with_bit b k j hb hk hj = same→eq _ _ (table3 with_law with_table b k j hb hk hj)

pub bit_clear-without_bit :
    (b k j : ℕ)
    → b < 256
    → k < 8
    → j < 8
    → bit_clear (without_bit b k) j ≡ (if k == j then true else bit_clear b j)
bit_clear-without_bit b k j hb hk hj = same→eq _ _ (table3 without_law without_table b k j hb hk hj)

pub bit_clear_full : (k : ℕ) → k < 8 → bit_clear 255 k ≡ false
bit_clear_full k h = same→eq _ _ (passes_at _ 8 k h full_table)
