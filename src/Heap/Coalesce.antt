-- ===== src/Heap/Coalesce.antt =====
-- The merging of free neighbours in `kfree` of kernel/heap.c.
use mathlib.Core.Path.{subst}
use ali_os.Base.{
  ℕ, zero, suc, ◌+◌, ◌≡◌, ◌∙◌, refl, ap, Bool, false, ◌&&◌, none, some, List, [], ◌∷◌, ◌==◌, inl,
  inr, Bool-cases, arith,
}
use ali_os.Heap.{Block, hdr_size, end_of, merge_from, merge_pass, merge_loop}
use ali_os.Heap.Blocks.{Apart, AllOf, IsApart, IsExtent, Apart-IsExtent}

-- Two blocks that a pass of `kfree` merges.
abbrev pub mergeable : Block → Block → Bool
mergeable b c = (b.free && c.free) && (end_of b == c.addr)

abbrev pub grown : Block → Block → Block
grown b c = record b { size = b.size + (hdr_size + c.size) }

merge_from-AllOf :
    (P : Block → Type 0) (x : IsExtent P) (b : Block) (bs : List Block)
    → P b
    → AllOf P bs
    → AllOf P (merge_from b bs).1
unfolding merge_from
merge_from-AllOf P x b [] p ps = (p, tt)
merge_from-AllOf P x b (c ∷ bs) p ps = elim (Bool-cases (mergeable b c)) [
  | inl merges ↦
      rw merges (merge_from-AllOf P x (grown b c) bs (x.union b c (ground arith) p ps.0) ps.1)
  | inr stays ↦ rw stays (p, merge_from-AllOf P x c bs ps.0 ps.1)
]

Apart-grown :
    (b c : Block) (bs : List Block)
    → end_of b ≡ c.addr
    → AllOf (Apart b) bs
    → AllOf (Apart c) bs
    → AllOf (Apart (grown b c)) bs
Apart-grown b c [] e h k = tt
Apart-grown b c (d ∷ bs) e h k = (omega (arith, h.0, k.0), Apart-grown b c bs e h.1 k.1)

merge_from-IsApart :
    (b : Block) (bs : List Block) → AllOf (Apart b) bs → IsApart bs → IsApart (merge_from b bs).1
unfolding merge_from
merge_from-IsApart b [] h k = (tt, tt)
merge_from-IsApart b (c ∷ bs) h k = elim (Bool-cases (mergeable b c)) [
  | inl merges ↦
      rw merges (merge_from-IsApart (grown b c) bs (Apart-grown b c bs (ground arith) h.1 k.0) k.1)
  | inr stays ↦
      rw stays (
        merge_from-AllOf (Apart b) (Apart-IsExtent b) c bs h.0 h.1,
        merge_from-IsApart c bs k.0 k.1,
      )
]

-- No two neighbours are left to merge, the first of them after `b`.
abbrev pub SettledAfter : Block → List Block → Type 0
SettledAfter b [] = Unit
SettledAfter b (c ∷ bs) = (mergeable b c ≡ false) × SettledAfter c bs

abbrev pub IsSettled : List Block → Type 0
IsSettled [] = Unit
IsSettled (b ∷ bs) = SettledAfter b bs

-- The first block of a pass starts where the block that it began with does.
abbrev pub StartsWith : Block → List Block → Type 0
StartsWith b [] = ⊥
StartsWith b (c ∷ cs) = (c.addr ≡ b.addr) × (c.free ≡ b.free) × SettledAfter c cs

settled_before :
    (b c : Block) (cs : List Block)
    → mergeable b c ≡ false
    → StartsWith c cs
    → StartsWith b (b ∷ cs)
settled_before b c [] e h = absurd h
settled_before b c (d ∷ cs) e h = (
  refl,
  refl,
  (
    ap (λ k. k && (end_of b == d.addr)) (ap (λ k. b.free && k) h.1)
        ∙ ap (λ k. (b.free && c.free) && (end_of b == k)) h.0
        ∙ e,
    h.2,
  ),
)

merge_from-StartsWith : (b : Block) (bs : List Block) → StartsWith b (merge_from b bs).1
unfolding merge_from
merge_from-StartsWith b [] = (refl, refl, tt)
merge_from-StartsWith b (c ∷ bs) = elim (Bool-cases (mergeable b c)) [
  | inl merges ↦ rw merges (merge_from-StartsWith (grown b c) bs)
  | inr stays ↦ rw stays (settled_before b c (merge_from c bs).1 stays (merge_from-StartsWith c bs))
]

StartsWith-IsSettled : (b : Block) (cs : List Block) → StartsWith b cs → IsSettled cs
StartsWith-IsSettled b [] h = tt
StartsWith-IsSettled b (c ∷ cs) h = h.2

pub merge_pass-IsSettled : (bs : List Block) → IsSettled (merge_pass bs).1
unfolding merge_pass
merge_pass-IsSettled [] = tt
merge_pass-IsSettled (b ∷ bs) =
    StartsWith-IsSettled b (merge_from b bs).1 (merge_from-StartsWith b bs)

settled_stays :
    (b : Block) (bs : List Block) → SettledAfter b bs → merge_from b bs ≡ (false, b ∷ bs)
unfolding merge_from
settled_stays b [] h = refl
settled_stays b (c ∷ bs) h = rw (h.0, settled_stays c bs h.1) refl

pass_stays : (bs : List Block) → IsSettled bs → merge_pass bs ≡ (false, bs)
unfolding merge_pass
pass_stays [] h = refl
pass_stays (b ∷ bs) h = settled_stays b bs h

-- The `do` loop of `kfree` ends after at most two passes, whatever the list, and then no two free
-- blocks that follow each other in the list and in memory are left unmerged.
pub merge_loop-IsSettled :
    (bs : List Block) → (cs : List Block) × (merge_loop 2 bs ≡ some cs) × IsSettled cs
unfolding merge_loop
merge_loop-IsSettled bs =
    let cs = (merge_pass bs).1 in
    let settled = merge_pass-IsSettled bs in
    (
      cs,
      (elim (Bool-cases (merge_pass bs).0) [
        | inl again ↦ rw (again, pass_stays cs settled) refl
        | inr ended ↦ rw ended refl
      ]),
      settled,
    )

merge_pass-AllOf :
    (P : Block → Type 0) (x : IsExtent P) (bs : List Block) → AllOf P bs → AllOf P (merge_pass bs).1
unfolding merge_pass
merge_pass-AllOf P x [] ps = tt
merge_pass-AllOf P x (b ∷ bs) ps = merge_from-AllOf P x b bs ps.0 ps.1

merge_pass-IsApart : (bs : List Block) → IsApart bs → IsApart (merge_pass bs).1
unfolding merge_pass
merge_pass-IsApart [] ap = tt
merge_pass-IsApart (b ∷ bs) ap = merge_from-IsApart b bs ap.0 ap.1

none_not_some : (cs : List Block) → none ≡ some cs → ⊥
none_not_some cs h = ground arith

some_same : (bs cs : List Block) → some bs ≡ some cs → bs ≡ cs
some_same bs cs h = cc h

pub merge_loop-AllOf :
    (P : Block → Type 0) (x : IsExtent P) (fuel : ℕ) (bs cs : List Block)
    → AllOf P bs
    → merge_loop fuel bs ≡ some cs
    → AllOf P cs
unfolding merge_loop
merge_loop-AllOf P x zero bs cs ps e = absurd (none_not_some cs e)
merge_loop-AllOf P x (suc fuel) bs cs ps e = elim (Bool-cases (merge_pass bs).0) [
  | inl again ↦
      merge_loop-AllOf P x fuel (merge_pass bs).1 cs (merge_pass-AllOf P x bs ps) (rw again at e)
  | inr ended ↦
      let same : (merge_pass bs).1 ≡ cs = some_same (merge_pass bs).1 cs (rw ended at e) in
      subst (λ (l : List Block). AllOf P l) same (merge_pass-AllOf P x bs ps)
]

pub merge_loop-IsApart :
    (fuel : ℕ) (bs cs : List Block) → IsApart bs → merge_loop fuel bs ≡ some cs → IsApart cs
unfolding merge_loop
merge_loop-IsApart zero bs cs ap e = absurd (none_not_some cs e)
merge_loop-IsApart (suc fuel) bs cs ap e = elim (Bool-cases (merge_pass bs).0) [
  | inl again ↦
      merge_loop-IsApart fuel (merge_pass bs).1 cs (merge_pass-IsApart bs ap) (rw again at e)
  | inr ended ↦
      let same : (merge_pass bs).1 ≡ cs = some_same (merge_pass bs).1 cs (rw ended at e) in
      subst (λ (l : List Block). IsApart l) same (merge_pass-IsApart bs ap)
]
