-- ===== src/Heap/Grow.antt =====
-- `heap_grow`, `kmalloc` and `kfree` of kernel/heap.c over the pages of kernel/pmm.c: the loop of
-- `kmalloc` ends, and the blocks never overlap.
use ali_os.Base.{
  refl, ℕ, ◌+◌, ◌*◌, ◌<◌, ◌≡◌, ap, Bool, true, false, ◌&&◌, List, [], ◌∷◌, if◌then◌else◌, ◌==◌, leb,
  inl, inr, Bool-cases, arith,
}
use ali_os.Pmm.{Pmm, page_size, pages_max, page_is_free, pmm_alloc}
use ali_os.Pmm.Fresh.{Pages, Grown, pmm_alloc-Grown}
use ali_os.Heap.{Block, Heap, end_of, page_block, add_page, heap_grow}
use ali_os.Heap.Held.{held, held-add_page}
use ali_os.Heap.Blocks.{IsLow, Apart, AllOf, IsApart, IsExtent, IsLow-IsExtent, Apart-IsExtent}

-- Every page that the block touches is in use.
abbrev pub InUse : Pmm → Block → Type 0
InUse s b =
    (p : ℕ)
    → p * page_size < end_of b
    → b.addr < (p + 1) * page_size
    → page_is_free s.bitmap p ≡ false

pub InUse-IsExtent : (s : Pmm) → IsExtent (InUse s)
InUse-IsExtent s = record {
  part = λ b c l h u p lt gt. u p (omega arith) (omega arith);
  union = λ b c e u v p lt gt. elim (Bool-cases (leb c.addr (p * page_size))) [
    | inl later ↦ v p (omega arith) (ground arith)
    | inr here ↦ u p (ground arith) (omega arith)
  ];
}

-- The invariant of the heap: its blocks lie in pages that are in use, and no two share a byte.
pub record HeapValid (h : Heap) : Type 0 where
  pub pages : Pages h.pages
  pub low : AllOf IsLow h.blocks
  pub in_use : AllOf (InUse h.pages) h.blocks
  pub apart : IsApart h.blocks

AllOf-map :
    (P Q : Block → Type 0) → ((b : Block) → P b → Q b) → (bs : List Block) → AllOf P bs → AllOf Q bs
AllOf-map P Q f [] h = tt
AllOf-map P Q f (b ∷ bs) h = (f b h.0, AllOf-map P Q f bs h.1)

add_page-AllOf :
    (P : Block → Type 0) (x : IsExtent P) (page : ℕ) (bs : List Block)
    → P (page_block page)
    → AllOf P bs
    → AllOf P (add_page page bs)
unfolding add_page
add_page-AllOf P x page [] new ps = (new, tt)
add_page-AllOf P x page (b ∷ []) new ps = elim (Bool-cases (b.free && (end_of b == page))) [
  | inl extends ↦ rw extends (x.union b (page_block page) (ground arith) ps.0 new, tt)
  | inr appends ↦ rw appends (ps.0, (new, tt))
]
add_page-AllOf P x page (b ∷ c ∷ bs) new ps = (ps.0, add_page-AllOf P x page (c ∷ bs) new ps.1)

add_page-IsApart :
    (page : ℕ) (bs : List Block)
    → AllOf (λ b. Apart b (page_block page)) bs
    → IsApart bs
    → IsApart (add_page page bs)
unfolding add_page
add_page-IsApart page [] new ap = (tt, tt)
add_page-IsApart page (b ∷ []) new ap = elim (Bool-cases (b.free && (end_of b == page))) [
  | inl extends ↦ rw extends (tt, tt)
  | inr appends ↦ rw appends ((new.0, tt), (tt, tt))
]
add_page-IsApart page (b ∷ c ∷ bs) new ap = (
  add_page-AllOf (Apart b) (Apart-IsExtent b) page (c ∷ bs) new.0 ap.0,
  add_page-IsApart page (c ∷ bs) new.1 ap.1,
)

used_not_free :
    (s : Pmm) (p : ℕ) → page_is_free s.bitmap p ≡ false → page_is_free s.bitmap p ≡ true → ⊥
used_not_free s p u f = cc (u, f)

-- A block in pages that are in use shares no byte with a free page.
Apart-page :
    (s : Pmm) (p : ℕ)
    → page_is_free s.bitmap p ≡ true
    → (b : Block) → InUse s b
    → Apart b (page_block (p * page_size))
Apart-page s p free b u = elim (Bool-cases (leb (end_of b) (p * page_size))) [
  | inl before ↦ inl (ground arith)
  | inr later ↦ elim (Bool-cases (leb ((p + 1) * page_size) b.addr)) [
    | inl behind ↦ inr (ground arith)
    | inr meets ↦ absurd (used_not_free s p (u p (ground arith) (ground arith)) free)
  ]
]

InUse-page :
    (s : Pmm) (p : ℕ) → page_is_free s.bitmap p ≡ false → InUse s (page_block (p * page_size))
InUse-page s p used q lt gt = let e : p ≡ q = omega arith in rw (← e) used

page_added :
    (p : ℕ) (h : Heap) (out : ℕ × Pmm)
    → HeapValid h
    → Grown h.pages out
    → p < pages_max
    → page_is_free h.pages.bitmap p ≡ true
    → page_is_free out.1.bitmap p ≡ false
    → HeapValid (record { blocks = add_page (p * page_size) h.blocks; pages = out.1 })
page_added p h out v g lt free used = record {
  pages = g.pages;
  low = add_page-AllOf IsLow IsLow-IsExtent (p * page_size) h.blocks (omega arith) v.low;
  in_use =
      add_page-AllOf (InUse out.1) (InUse-IsExtent out.1) (p * page_size) h.blocks
        (InUse-page out.1 p used)
        (AllOf-map (InUse h.pages) (InUse out.1) (λ b u q l m. g.kept q (u q l m)) h.blocks
          v.in_use);
  apart =
      add_page-IsApart (p * page_size) h.blocks
        (AllOf-map (InUse h.pages) (λ b. Apart b (page_block (p * page_size)))
          (Apart-page h.pages p free) h.blocks v.in_use)
        v.apart;
}

-- What `heap_grow` does: no block that is held changes, and it fails without a change to the count of free pages, or takes one page.
pub record HeapGrown (h : Heap) (out : Bool × Heap) : Type 0 where
  pub valid : HeapValid out.1
  pub same_held : held out.1.blocks ≡ held h.blocks
  pub less : out.0 ≡ true → out.1.pages.free_count + 1 ≡ h.pages.free_count

Grown-HeapGrown :
    (h : Heap) (out : ℕ × Pmm)
    → HeapValid h
    → Grown h.pages out
    → HeapGrown h (
        if out.0 == 0
        then (false, record h { pages = out.1 })
        else (true, record { blocks = add_page out.0 h.blocks; pages = out.1 }))
Grown-HeapGrown h out v g = elim g.outcome [
  | inl (e, _) ↦
      let failed : (out.0 == 0) ≡ true = ground arith in
      rw failed (record {
        valid = record {
          pages = g.pages;
          low = v.low;
          apart = v.apart;
          in_use =
              AllOf-map (InUse h.pages) (InUse out.1) (λ b u q l m. g.kept q (u q l m)) h.blocks
                v.in_use;
        };
        same_held = refl;
        less = λ k. ground arith;
      })
  | inr (p, e, pos, lt, free, used, less) ↦
      let failed : (out.0 == 0) ≡ false = ground arith in
      rw (failed, e)
        (record {
          valid = page_added p h out v g lt free used;
          same_held = held-add_page (p * page_size) h.blocks;
          less = λ k. less;
        })
]

-- `heap_grow` keeps the heap valid and the blocks that are held as they are, and if it succeeds there is one free page less.
pub heap_grow-HeapGrown : (h : Heap) → HeapValid h → HeapGrown h (heap_grow h)
unfolding heap_grow
heap_grow-HeapGrown h v = Grown-HeapGrown h (pmm_alloc h.pages) v (pmm_alloc-Grown h.pages v.pages)
