-- ===== src/Heap/Held.antt =====
-- kernel/heap.c: the blocks that callers hold, in the order of the list, and what each step does to them.
use mathlib.Core.Option.{some-injective}
use ali_os.Base.{
  ℕ, zero, suc, ◌+◌, ◌≤◌, ◌≡◌, ◌∙◌, refl, ap, sym, u32, true, false, ◌&&◌, some, List, [], ◌∷◌,
  ◌++◌, if◌then◌else◌, ◌==◌, leb, inl, inr, Bool-cases, arith,
}
use ali_os.Heap.{
  Block, hdr_size, min_split, end_of, add_page, carve, merge_from, merge_pass, merge_loop, set_free,
}
use ali_os.Heap.Blocks.{Apart, AllOf, IsApart}

-- The blocks in use.
abbrev pub held : List Block → List Block
held [] = []
held (b ∷ bs) = if b.free then held bs else b ∷ held bs

-- The list without the blocks at this address.
abbrev pub without : ℕ → List Block → List Block
without addr [] = []
without addr (b ∷ bs) = if b.addr == addr then without addr bs else b ∷ without addr bs

-- One block more, with its payload at `p` and room for `size` bytes.
abbrev pub Adds : ℕ → ℕ → List Block → List Block → Type 0
Adds p size old new =
    (before : List Block) × (b : Block) × (after : List Block) × (old ≡ before ++ after)
    × (new ≡ before ++ (b ∷ after))
    × (p ≡ b.addr + hdr_size)
    × (b.free ≡ false)
    × (size ≤ b.size)

held-append : (bs cs : List Block) → held (bs ++ cs) ≡ held bs ++ held cs
held-append [] cs = refl
held-append (b ∷ bs) cs = elim (Bool-cases b.free) [
  | inl f ↦ rw f (held-append bs cs)
  | inr u ↦ simp (u) (ap (λ l. b ∷ l) (held-append bs cs))
]

held-carve :
    (size : ℕ) (b : Block) (after : List Block)
    → size ≤ b.size
    → (c : Block) × (held (carve size b ++ after) ≡ c ∷ held after)
      × (c.addr ≡ b.addr)
      × (c.free ≡ false)
      × (size ≤ c.size)
unfolding carve
held-carve size b after le = elim (Bool-cases (leb (u32 (size + min_split)) b.size)) [
  | inl splits ↦
      rw splits (record { addr = b.addr; size = size; free = false }, refl, refl, refl, omega arith)
  | inr whole ↦ rw whole (record b { free = false }, refl, refl, refl, le)
]

-- A free block that is carved adds one to those held.
pub carve-Adds :
    (size : ℕ) (before : List Block) (b : Block) (after : List Block)
    → b.free ≡ true
    → size ≤ b.size
    → Adds
        (b.addr + hdr_size)
        size
        (held (before ++ (b ∷ after)))
        (held (before ++ (carve size b ++ after)))
carve-Adds size before b after free le =
    let (c, l, a, f, le') = held-carve size b after le in
    (
      held before,
      c,
      held after,
      held-append before (b ∷ after) ∙ rw free refl,
      held-append before (carve size b ++ after) ∙ ap (λ k. held before ++ k) l,
      rw a refl,
      f,
      le',
    )

pub held-add_page : (page : ℕ) (bs : List Block) → held (add_page page bs) ≡ held bs
unfolding add_page
held-add_page page [] = refl
held-add_page page (b ∷ []) = elim (Bool-cases (b.free && (end_of b == page))) [
  | inl extends ↦ let free : b.free ≡ true = ground arith in rw (extends, free) refl
  | inr appends ↦ rw appends refl
]
held-add_page page (b ∷ c ∷ bs) = elim (Bool-cases b.free) [
  | inl f ↦ rw f (held-add_page page (c ∷ bs))
  | inr u ↦ simp (u) (ap (λ l. b ∷ l) (held-add_page page (c ∷ bs)))
]

held-merge_from : (b : Block) (bs : List Block) → held (merge_from b bs).1 ≡ held (b ∷ bs)
unfolding merge_from
held-merge_from b [] = refl
held-merge_from b (c ∷ bs) = elim (Bool-cases ((b.free && c.free) && (end_of b == c.addr))) [
  | inl merges ↦
      let fb : b.free ≡ true = ground arith in
      let fc : c.free ≡ true = ground arith in
      rw merges
        (held-merge_from (record b { size = b.size + (hdr_size + c.size) }) bs ∙ rw (fb, fc) refl)
  | inr stays ↦ rw stays (ap (λ l. if b.free then l else b ∷ l) (held-merge_from c bs))
]

held-merge_pass : (bs : List Block) → held (merge_pass bs).1 ≡ held bs
unfolding merge_pass
held-merge_pass [] = refl
held-merge_pass (b ∷ bs) = held-merge_from b bs

-- Merging leaves the blocks that are held as they are.
pub held-merge_loop :
    (fuel : ℕ) (bs cs : List Block) → merge_loop fuel bs ≡ some cs → held cs ≡ held bs
unfolding merge_loop
held-merge_loop zero bs cs e = absurd (cc e)
held-merge_loop (suc fuel) bs cs e = elim (Bool-cases (merge_pass bs).0) [
  | inl again ↦ held-merge_loop fuel (merge_pass bs).1 cs (rw again at e) ∙ held-merge_pass bs
  | inr ended ↦
      let same : some (merge_pass bs).1 ≡ some cs = rw ended at e in
      ap held (sym (some-injective (merge_pass bs).1 cs same)) ∙ held-merge_pass bs
]

no_other : (b : Block) (bs : List Block) → AllOf (Apart b) bs → held bs ≡ without b.addr (held bs)
no_other b [] a = refl
no_other b (c ∷ bs) a =
    let apart : (c.addr == b.addr) ≡ false = ground (arith, a.0) in
    elim (Bool-cases c.free) [
      | inl f ↦ rw f (no_other b bs a.1)
      | inr u ↦ simp (u, apart) (ap (λ l. c ∷ l) (no_other b bs a.1))
    ]

-- Freeing takes the block at this address away from them, and no other.
pub held-set_free :
    (addr : ℕ) (bs : List Block) → IsApart bs → held (set_free addr bs) ≡ without addr (held bs)
unfolding set_free
held-set_free addr [] ap' = refl
held-set_free addr (b ∷ bs) ap' = elim (Bool-cases (b.addr == addr)) [
  | inl here ↦
      let e : b.addr ≡ addr = ground arith in
      let rest : held bs ≡ without addr (held bs) = rw (← e) (no_other b bs ap'.0) in
      elim (Bool-cases b.free) [ inl f ↦ rw (here, f) rest | inr u ↦ simp (here, u) rest ]
  | inr there ↦ elim (Bool-cases b.free) [
    | inl f ↦ rw (there, f) (held-set_free addr bs ap'.1)
    | inr u ↦ simp (there, u) (ap (λ l. b ∷ l) (held-set_free addr bs ap'.1))
  ]
]
