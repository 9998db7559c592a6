-- ===== src/Heap/Kmalloc.antt =====
-- `kmalloc` and `kfree` of kernel/heap.c as a whole.
use ali_os.Base.{
  ℕ, zero, suc, ◌+◌, ◌-◌, ◌^◌, ◌≤◌, ◌<◌, ◌≡◌, ◌≢◌, ◌∙◌, ◌⊎◌, refl, ap, u32, Bool, true, false,
  Option, none, some, List, [], ◌∷◌, ◌++◌, if◌then◌else◌, ◌==◌, leb, inl, inr, Bool-cases, arith,
}
use ali_os.Heap.{
  Block, Heap, hdr_size, heap_grow, carve, take_fit, kmalloc_loop, kmalloc, aligned, set_free,
  kfree,
}
use ali_os.Heap.Blocks.{
  IsLow, Apart, AllOf, IsApart, IsExtent, IsLow-IsExtent, Apart-IsExtent, Kept, KeptApart,
  take_fit-Kept, take_fit-KeptApart, TookFit, take_fit-TookFit,
}
use ali_os.Heap.Held.{held, without, Adds, carve-Adds, held-merge_loop, held-set_free}
use ali_os.Heap.Coalesce.{IsSettled, merge_loop-IsSettled, merge_loop-AllOf, merge_loop-IsApart}
use ali_os.Heap.Grow.{InUse, InUse-IsExtent, HeapValid, heap_grow-HeapGrown}

-- The payload at `p` is that of a block in use with at least `size` bytes.
abbrev pub Holds : ℕ → ℕ → List Block → Type 0
Holds p size bs =
    (before : List Block) × (b : Block) × (after : List Block) × (bs ≡ before ++ (b ∷ after))
    × (p ≡ b.addr + hdr_size)
    × (b.free ≡ false)
    × (size ≤ b.size)

-- What the search of `kmalloc` leaves when it succeeds.
abbrev FoundIn : ℕ → Heap → Option (ℕ × List Block) → Type 0
FoundIn size h none = Unit
FoundIn size h (some (p, bs)) =
    HeapValid (record h { blocks = bs }) × Holds p size bs × Adds p size (held h.blocks) (held bs)

carve-Holds :
    (size : ℕ) (b : Block) (before after : List Block)
    → size ≤ b.size
    → Holds (b.addr + hdr_size) size (before ++ (carve size b ++ after))
unfolding carve
carve-Holds size b before after le = elim (Bool-cases (leb (u32 (size + 20)) b.size)) [
  | inl splits ↦
      let second : Block = record {
        addr = b.addr + hdr_size + size;
        size = b.size - size - hdr_size;
        free = true;
      } in
      rw splits (
        before,
        record { addr = b.addr; size = size; free = false },
        second ∷ after,
        refl,
        refl,
        refl,
        omega arith,
      )
  | inr whole ↦ rw whole (before, record b { free = false }, after, refl, refl, refl, le)
]

found_in :
    (size : ℕ) (h : Heap) (o : Option (ℕ × List Block))
    → HeapValid h
    → Kept IsLow o
    → Kept (InUse h.pages) o
    → KeptApart o
    → TookFit size h.blocks o
    → FoundIn size h o
found_in size h none v low in_use apart took = tt
found_in size h (some (p, bs)) v low in_use apart (before, b, after, o, l, a, free, le, _) = (
  record { pages = v.pages; low = low; in_use = in_use; apart = apart },
  rw (l, a) (carve-Holds size b before after le),
  rw (l, a, o) (carve-Adds size before b after free le),
)

take_fit-FoundIn : (size : ℕ) (h : Heap) → HeapValid h → FoundIn size h (take_fit size h.blocks)
take_fit-FoundIn size h v =
    found_in size h (take_fit size h.blocks) v
      (take_fit-Kept IsLow IsLow-IsExtent size h.blocks v.low v.low)
      (take_fit-Kept (InUse h.pages) (InUse-IsExtent h.pages) size h.blocks v.low v.in_use)
      (take_fit-KeptApart size h.blocks v.low v.apart) (take_fit-TookFit size h.blocks)

-- How `kmalloc` ends: with the heap valid, and NULL and the held blocks as before, or a payload of at
-- least `size` bytes, of a block that is added to those held.
pub record Returned (size : ℕ) (h : Heap) (r : Option (ℕ × Heap)) : Type 0 where
  pub out : ℕ × Heap
  pub returned : r ≡ some out
  pub valid : HeapValid out.1
  pub result :
      ((out.0 ≡ 0) × (held out.1.blocks ≡ held h.blocks))
      ⊎ (Holds out.0 size out.1.blocks × Adds out.0 size (held h.blocks) (held out.1.blocks))

Returned-grown :
    (size : ℕ) (h h' : Heap) (r : Option (ℕ × Heap))
    → held h'.blocks ≡ held h.blocks
    → Returned size h' r
    → Returned size h r
Returned-grown size h h' r same x = record {
  out = x.out;
  returned = x.returned;
  valid = x.valid;
  result = rw (← same) x.result;
}

kmalloc_round :
    (size : ℕ) (h : Heap) (o : Option (ℕ × List Block)) (g : Bool × Heap)
    (again : Option (ℕ × Heap))
    → FoundIn size h o
    → HeapValid g.1
    → held g.1.blocks ≡ held h.blocks
    → (g.0 ≡ true → Returned size g.1 again)
    → Returned size h (elim o [
      | some (p, bs) ↦ some (p, record h { blocks = bs })
      | none ↦ if g.0 then again else some (0, g.1)
    ])
kmalloc_round size h (some (p, bs)) g again f v same later = record {
  out = (p, record h { blocks = bs });
  returned = refl;
  valid = f.0;
  result = inr (f.1, f.2);
}
kmalloc_round size h none g again f v same later = elim (Bool-cases g.0) [
  | inl grown ↦ rw grown (Returned-grown size h g.1 again same (later grown))
  | inr failed ↦
      rw failed (record { out = (0, g.1); returned = refl; valid = v; result = inl (refl, same) })
]

kmalloc_loop-Returned :
    (fuel size : ℕ) (h : Heap)
    → HeapValid h
    → h.pages.free_count < fuel
    → Returned size h (kmalloc_loop fuel size h)
unfolding kmalloc_loop
kmalloc_loop-Returned zero size h v lt = absurd (omega arith)
kmalloc_loop-Returned (suc fuel) size h v lt =
    let g = heap_grow-HeapGrown h v in
    kmalloc_round size h (take_fit size h.blocks) (heap_grow h)
      (kmalloc_loop fuel size (heap_grow h).1) (take_fit-FoundIn size h v) g.valid g.same_held
      (λ e. kmalloc_loop-Returned fuel size (heap_grow h).1 g.valid (omega (arith, g.less e)))

-- `kmalloc` returns, after at most one search more than there are free pages, with the heap valid: no
-- two blocks share a byte, and all lie in pages that are in use. The result is NULL and the blocks in use
-- are those from before, or the result is the payload of a block in use that has room for `size` bytes,
-- and the blocks in use are those from before, unchanged, and this one. `size` is small enough to be
-- rounded up to a multiple of 4.
pub kmalloc-Returned :
    (size : ℕ) (h : Heap)
    → HeapValid h
    → size + 3 < 2 ^ 32
    → Returned size h (kmalloc (h.pages.free_count + 1) size h)
unfolding kmalloc
kmalloc-Returned size h v small = elim (Bool-cases (size == 0)) [
  | inl none_asked ↦
      rw none_asked (record { out = (0, h); returned = refl; valid = v; result = inl (refl, refl) })
  | inr some_asked ↦
      let r = kmalloc_loop-Returned (h.pages.free_count + 1) (aligned size) h v (omega arith) in
      rw some_asked (record {
        out = r.out;
        returned = r.returned;
        valid = r.valid;
        result = elim r.result [
          | inl null ↦ inl null
          | inr ((before, b, after, l, a, f, le), (before', b', after', l', m', a', f', le')) ↦
              inr (
                (before, b, after, l, a, f, omega arith),
                (before', b', after', l', m', a', f', omega arith),
              )
        ];
      })
]

set_free-AllOf :
    (P : Block → Type 0) (x : IsExtent P) (addr : ℕ) (bs : List Block)
    → AllOf P bs
    → AllOf P (set_free addr bs)
unfolding set_free
set_free-AllOf P x addr [] ps = tt
set_free-AllOf P x addr (b ∷ bs) ps = elim (Bool-cases (b.addr == addr)) [
  | inl here ↦ rw here (x.part b _ (omega arith) (omega arith) ps.0, ps.1)
  | inr there ↦ rw there (ps.0, set_free-AllOf P x addr bs ps.1)
]

set_free-IsApart : (addr : ℕ) (bs : List Block) → IsApart bs → IsApart (set_free addr bs)
unfolding set_free
set_free-IsApart addr [] ap = tt
set_free-IsApart addr (b ∷ bs) ap = elim (Bool-cases (b.addr == addr)) [
  | inl here ↦ rw here ap
  | inr there ↦
      rw there
        (set_free-AllOf (Apart b) (Apart-IsExtent b) addr bs ap.0, set_free-IsApart addr bs ap.1)
]

-- How `kfree` ends.
pub record Freed (ptr : ℕ) (h : Heap) (r : Option Heap) : Type 0 where
  pub out : Heap
  pub returned : r ≡ some out
  pub valid : HeapValid out
  pub null : ptr ≡ 0 → out ≡ h
  pub gives_back : ptr ≢ 0 → held out.blocks ≡ without (ptr - hdr_size) (held h.blocks)
  pub settled : ptr ≢ 0 → IsSettled out.blocks

-- `kfree` of NULL or of the payload of a block returns, after at most two passes over the list, and
-- keeps the heap valid. NULL changes nothing. After any other pointer the blocks in use are those from
-- before without the one whose payload it is, unchanged, and no two free blocks that follow each other
-- in the list and in memory are left unmerged. (A pointer that is no payload frees nothing here.)
pub kfree-Freed : (ptr : ℕ) (h : Heap) → HeapValid h → Freed ptr h (kfree 2 ptr h)
unfolding kfree
kfree-Freed ptr h v = elim (Bool-cases (ptr == 0)) [
  | inl null ↦ rw null (record {
    out = h;
    returned = refl;
    valid = v;
    null = λ e. refl;
    gives_back = λ n. absurd (n (ground arith));
    settled = λ n. absurd (n (ground arith));
  })
  | inr block ↦
      let bs = set_free (ptr - hdr_size) h.blocks in
      let (cs, e, settled) = merge_loop-IsSettled bs in
      rw (block, e)
        (record {
          out = record h { blocks = cs };
          returned = refl;
          null = λ z. absurd (ground arith);
          gives_back =
              λ n. held-merge_loop 2 bs cs e ∙ held-set_free (ptr - hdr_size) h.blocks v.apart;
          settled = λ n. settled;
          valid = record {
            pages = v.pages;
            low =
                merge_loop-AllOf IsLow IsLow-IsExtent 2 bs cs
                  (set_free-AllOf IsLow IsLow-IsExtent (ptr - hdr_size) h.blocks v.low) e;
            in_use =
                merge_loop-AllOf (InUse h.pages) (InUse-IsExtent h.pages) 2 bs cs
                  (set_free-AllOf (InUse h.pages) (InUse-IsExtent h.pages) (ptr - hdr_size) h.blocks
                    v.in_use)
                  e;
            apart =
                merge_loop-IsApart 2 bs cs (set_free-IsApart (ptr - hdr_size) h.blocks v.apart) e;
          };
        })
]
