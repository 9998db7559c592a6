-- ===== src/Heap/Blocks.antt =====
-- The blocks of kernel/heap.c do not overlap: what splitting, merging and freeing do to a property of
-- the bytes that a block takes up.
use ali_os.Base.{
  ℕ, ◌+◌, ◌-◌, ◌^◌, ◌≤◌, ◌≡◌, ◌⊎◌, refl, ap, u32, true, false, ◌&&◌, Option, none, some, List, [],
  ◌∷◌, ◌++◌, leb, inl, inr, Bool-cases, arith,
}
use ali_os.Heap.{Block, hdr_size, min_split, end_of, carve, take_fit}

-- The bytes of a block, its header's included, lie below 256 MB.
abbrev pub IsLow : Block → Type 0
IsLow b = end_of b ≤ 2 ^ 28

-- Two blocks share no byte.
abbrev pub Apart : Block → Block → Type 0
Apart b c = (end_of b ≤ c.addr) ⊎ (end_of c ≤ b.addr)

abbrev pub AllOf : (Block → Type 0) → List Block → Type 0
AllOf P [] = Unit
AllOf P (b ∷ bs) = P b × AllOf P bs

-- No two blocks of the list share a byte.
abbrev pub IsApart : List Block → Type 0
IsApart [] = Unit
IsApart (b ∷ bs) = AllOf (Apart b) bs × IsApart bs

-- A property of the bytes of a block: parts inherit it, and neighbours share it.
pub record IsExtent (P : Block → Type 0) : Type 0 where
  pub part : (b c : Block) → b.addr ≤ c.addr → end_of c ≤ end_of b → P b → P c
  pub union :
      (b c : Block)
      → end_of b ≡ c.addr
      → P b
      → P c
      → P (record b { size = b.size + (hdr_size + c.size) })

pub IsLow-IsExtent : IsExtent IsLow
IsLow-IsExtent = record { part = λ b c l h p. omega arith; union = λ b c e p q. omega arith }

pub Apart-IsExtent : (x : Block) → IsExtent (Apart x)
Apart-IsExtent x = record { part = λ b c l h p. omega arith; union = λ b c e p q. omega arith }

carve-AllOf :
    (P : Block → Type 0) (x : IsExtent P) (size : ℕ) (b : Block) (bs : List Block)
    → IsLow b
    → size ≤ b.size
    → P b
    → AllOf P bs
    → AllOf P (carve size b ++ bs)
unfolding carve
carve-AllOf P x size b bs low le p ps = elim (Bool-cases (leb (u32 (size + min_split)) b.size)) [
  | inl splits ↦
      let fits : size + min_split ≤ b.size = ground arith in
      rw splits
        (x.part b _ (omega arith) (omega arith) p, (x.part b _ (omega arith) (omega arith) p, ps))
  | inr whole ↦ rw whole (x.part b _ (omega arith) (omega arith) p, ps)
]

carve-IsApart :
    (size : ℕ) (b : Block) (bs : List Block)
    → IsLow b
    → size ≤ b.size
    → AllOf (Apart b) bs
    → IsApart bs
    → IsApart (carve size b ++ bs)
unfolding carve
carve-IsApart size b bs low le ap aps = elim (Bool-cases (leb (u32 (size + min_split)) b.size)) [
  | inl splits ↦
      let fits : size + min_split ≤ b.size = ground arith in
      let first : Block = record { addr = b.addr; size = size; free = false } in
      let second : Block = record {
        addr = b.addr + hdr_size + size;
        size = b.size - size - hdr_size;
        free = true;
      } in
      rw splits (
        (inl (omega arith), inside b first bs (omega arith) (omega arith) ap),
        (inside b second bs (omega arith) (omega arith) ap, aps),
      )
  | inr whole ↦
      rw whole (inside b (record b { free = false }) bs (omega arith) (omega arith) ap, aps)
]
  where
    inside :
        (b c : Block) (bs : List Block)
        → b.addr ≤ c.addr
        → end_of c ≤ end_of b
        → AllOf (Apart b) bs
        → AllOf (Apart c) bs
    inside b c [] l h a = tt
    inside b c (d ∷ bs) l h a = (omega (arith, a.0), inside b c bs l h a.1)

-- What a search leaves has the property in all its blocks, or no overlap.
abbrev pub Kept : (Block → Type 0) → Option (ℕ × List Block) → Type 0
Kept P none = Unit
Kept P (some (p, bs)) = AllOf P bs

abbrev pub KeptApart : Option (ℕ × List Block) → Type 0
KeptApart none = Unit
KeptApart (some (p, bs)) = IsApart bs

Kept-later :
    (P : Block → Type 0) (b : Block) (o : Option (ℕ × List Block))
    → P b
    → Kept P o
    → Kept P (elim o [ none ↦ none | some (p, bs') ↦ some (p, b ∷ bs') ])
Kept-later P b none h k = tt
Kept-later P b (some (p, bs)) h k = (h, k)

pub take_fit-Kept :
    (P : Block → Type 0) (x : IsExtent P) (size : ℕ) (bs : List Block)
    → AllOf IsLow bs
    → AllOf P bs
    → Kept P (take_fit size bs)
unfolding take_fit
take_fit-Kept P x size [] low ps = tt
take_fit-Kept P x size (b ∷ bs) low ps = elim (Bool-cases (b.free && leb size b.size)) [
  | inl fits ↦ rw fits (carve-AllOf P x size b bs low.0 (ground arith) ps.0 ps.1)
  | inr not_here ↦
      rw not_here (Kept-later P b (take_fit size bs) ps.0 (take_fit-Kept P x size bs low.1 ps.1))
]

KeptApart-later :
    (b : Block) (o : Option (ℕ × List Block))
    → Kept (Apart b) o
    → KeptApart o
    → KeptApart (elim o [ none ↦ none | some (p, bs') ↦ some (p, b ∷ bs') ])
KeptApart-later b none h k = tt
KeptApart-later b (some (p, bs)) h k = (h, k)

pub take_fit-KeptApart :
    (size : ℕ) (bs : List Block) → AllOf IsLow bs → IsApart bs → KeptApart (take_fit size bs)
unfolding take_fit
take_fit-KeptApart size [] low ap = tt
take_fit-KeptApart size (b ∷ bs) low ap = elim (Bool-cases (b.free && leb size b.size)) [
  | inl fits ↦ rw fits (carve-IsApart size b bs low.0 (ground arith) ap.0 ap.1)
  | inr not_here ↦ rw not_here (
      KeptApart-later b (take_fit size bs)
        (take_fit-Kept (Apart b) (Apart-IsExtent b) size bs low.1 ap.0)
        (take_fit-KeptApart size bs low.1 ap.1))
]

-- What the search finds: the first free block that is large enough.
abbrev pub TookFit : ℕ → List Block → Option (ℕ × List Block) → Type 0
TookFit size bs none = AllOf (λ b. (b.free && leb size b.size) ≡ false) bs
TookFit size bs (some (p, bs')) =
    (before : List Block) × (b : Block) × (after : List Block) × (bs ≡ before ++ (b ∷ after))
    × (bs' ≡ before ++ (carve size b ++ after))
    × (p ≡ b.addr + hdr_size)
    × (b.free ≡ true)
    × (size ≤ b.size)
    × AllOf (λ c. (c.free && leb size c.size) ≡ false) before

TookFit-later :
    (size : ℕ) (b : Block) (bs : List Block) (o : Option (ℕ × List Block))
    → (b.free && leb size b.size) ≡ false
    → TookFit size bs o
    → TookFit size (b ∷ bs) (elim o [ none ↦ none | some (p, bs') ↦ some (p, b ∷ bs') ])
TookFit-later size b bs none e h = (e, h)
TookFit-later size b bs (some (p, bs')) e (before, c, after, l, l', a, f, le, first) =
    (b ∷ before, c, after, ap (λ k. b ∷ k) l, ap (λ k. b ∷ k) l', a, f, le, (e, first))

-- The search of `kmalloc` takes the first free block with at least `size` bytes: it returns its payload
-- and replaces it by what it is carved into, and finds nothing only if there is no such block.
pub take_fit-TookFit : (size : ℕ) (bs : List Block) → TookFit size bs (take_fit size bs)
unfolding take_fit
take_fit-TookFit size [] = tt
take_fit-TookFit size (b ∷ bs) = elim (Bool-cases (b.free && leb size b.size)) [
  | inl fits ↦ rw fits ([], b, bs, refl, refl, refl, ground arith, ground arith, tt)
  | inr not_here ↦
      rw not_here (TookFit-later size b bs (take_fit size bs) not_here (take_fit-TookFit size bs))
]
