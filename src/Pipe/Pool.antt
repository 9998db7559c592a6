-- ===== src/Pipe/Pool.antt =====
-- kernel/pipe.c: the pool of `PIPE_MAX` pipes, `pipe_alloc`, and the four calls that count ends.
use ali_os.Base.{
  ℕ, zero, suc, ◌+◌, ◌≤◌, ◌<◌, ◌≡◌, refl, update, Bool, true, false, ◌&&◌, Option, none, some,
  if◌then◌else◌, ◌==◌, ltb, ℤ, pos, negsuc, arith, Bool-cases, inl, inr,
}
use ali_os.Pipe.{Pipe, pipe_max, open_read, open_write, close_read, close_write}

-- `pipes[PIPE_MAX]`, by index
abbrev pub Pool : Type 0
Pool = ℕ → Pipe

abbrev pub is_free : Pipe → Bool
is_free p = p.nreaders == 0 && p.nwriters == 0

-- The bytes of a new pipe are what the slot held before.
abbrev pub fresh : Pipe → Pipe
fresh p = record p { head = 0; tail = 0; nreaders = 1; nwriters = 1 }

-- the loop of `pipe_alloc` from slot `i` on, with `left` rounds left; `none` is -1
unfoldable pub alloc_from : ℕ → ℕ → Pool → Option ℕ × Pool
alloc_from zero i pool = (none, pool)
alloc_from (suc left) i pool =
    let rest = alloc_from left (i + 1) pool in
    if is_free (pool i) then (some i, update pool i (fresh (pool i))) else rest

unfoldable pub pipe_alloc : Pool → Option ℕ × Pool
unfolding alloc_from
pipe_alloc pool = alloc_from pipe_max 0 pool

-- `pi >= 0 && pi < PIPE_MAX` guards the four calls.
unfoldable pub at_slot : (Pipe → Pipe) → ℤ → Pool → Pool
at_slot f (pos i) pool = if ltb i pipe_max then update pool i (f (pool i)) else pool
at_slot f (negsuc n) pool = pool

unfoldable pub pipe_open_read : ℤ → Pool → Pool
unfolding at_slot open_read
pipe_open_read pi pool = at_slot open_read pi pool

unfoldable pub pipe_open_write : ℤ → Pool → Pool
unfolding at_slot open_write
pipe_open_write pi pool = at_slot open_write pi pool

unfoldable pub pipe_close_read : ℤ → Pool → Pool
unfolding at_slot close_read
pipe_close_read pi pool = at_slot close_read pi pool

unfoldable pub pipe_close_write : ℤ → Pool → Pool
unfolding at_slot close_write
pipe_close_write pi pool = at_slot close_write pi pool

-- What `pipe_alloc` does: it takes the first free slot and leaves the others alone, or finds none.
pub record Allocated (lo hi : ℕ) (pool : Pool) (out : Option ℕ × Pool) : Type 0 where
  pub none_free :
      out.0 ≡ none → (out.1 ≡ pool) × ((j : ℕ) → lo ≤ j → j < hi → is_free (pool j) ≡ false)
  pub first : (i : ℕ) → out.0 ≡ some i → (lo ≤ i) × (i < hi) × (is_free (pool i) ≡ true)
  pub lowest : (i j : ℕ) → out.0 ≡ some i → lo ≤ j → j < i → is_free (pool j) ≡ false
  pub result : (i : ℕ) → out.0 ≡ some i → out.1 ≡ update pool i (fresh (pool i))

alloc_from-Allocated :
    (left i hi : ℕ) (pool : Pool) → i + left ≡ hi → Allocated i hi pool (alloc_from left i pool)
unfolding alloc_from
alloc_from-Allocated zero i hi pool e = record {
  none_free = λ _. (refl, λ j l h. absurd (omega arith));
  first = λ k h. ground arith;
  lowest = λ k j h. ground arith;
  result = λ k h. ground arith;
}
alloc_from-Allocated (suc left) i hi pool e =
    let ih = alloc_from-Allocated left (i + 1) hi pool (omega arith) in
    elim (Bool-cases (is_free (pool i))) [
      | inl free ↦ rw free (record {
        none_free = λ h. ground arith;
        first = λ k h. ground arith;
        lowest = λ k j h l m. ground arith;
        result = λ k h. ground arith;
      })
      | inr used ↦ rw used (record {
        none_free = λ h. (
          (ih.none_free h).0,
          λ j l m. elim (Bool-cases (i == j)) [
            | inl here ↦ ground arith
            | inr there ↦ (ih.none_free h).1 j (ground arith) m
          ],
        );
        first = λ k h. ground (arith, ih.first k h);
        lowest = λ k j h l m. elim (Bool-cases (i == j)) [
          | inl here ↦ ground arith
          | inr there ↦ ih.lowest k j h (ground arith) m
        ];
        result = λ k h. ih.result k h;
      })
    ]

-- `pipe_alloc` returns the lowest slot that no end refers to, with empty positions and one end of
-- each kind, and changes no other slot. It returns -1 exactly when all eight slots are in use, and
-- then changes nothing.
pub pipe_alloc-Allocated : (pool : Pool) → Allocated 0 pipe_max pool (pipe_alloc pool)
unfolding pipe_alloc
pipe_alloc-Allocated pool = alloc_from-Allocated 8 0 8 pool (omega arith)
