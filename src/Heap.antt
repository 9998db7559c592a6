-- ===== src/Heap.antt =====
-- kernel/heap.c: the kernel heap, a list of blocks over pages from kernel/pmm.c. A block's header
-- stands at `addr`, its `size` payload bytes behind the 12 bytes of the header; the list is in the
-- order of the `next` links.
pub mod Blocks
pub mod Held
pub mod Coalesce
pub mod Grow
pub mod Kmalloc
mod Tests
use ali_os.Base.{
  ℕ, zero, suc, ◌+◌, ◌-◌, ◌*◌, ◌/◌, ◌%◌, ◌^◌, u32, Bool, true, false, not, ◌&&◌, ◌||◌, Option, none,
  some, List, [], ◌∷◌, ◌++◌, if◌then◌else◌, ◌==◌, ltb, leb,
}
use ali_os.Pmm.{Pmm, page_size, pmm_alloc}

-- `block_hdr_t`
pub record Block : Type 0 where
  pub addr : ℕ
  pub size : ℕ
  pub free : Bool

abbrev pub hdr_size : ℕ
hdr_size = 12

abbrev pub min_split : ℕ
min_split = 20

-- Where the payload of a block ends.
abbrev pub end_of : Block → ℕ
end_of b = b.addr + hdr_size + b.size

-- `heap_head` and its list, and the pages.
pub record Heap : Type 0 where
  pub blocks : List Block
  pub pages : Pmm

abbrev pub page_block : ℕ → Block
page_block page = record { addr = page; size = page_size - hdr_size; free = true }

-- The end of `heap_grow`: the page extends the last block, or is a block of its own.
unfoldable pub add_page : ℕ → List Block → List Block
add_page page [] = page_block page ∷ []
add_page page (b ∷ []) =
    if b.free && (end_of b == page)
    then record b { size = b.size + page_size } ∷ []
    else b ∷ page_block page ∷ []
add_page page (b ∷ c ∷ bs) = b ∷ add_page page (c ∷ bs)

-- `false` for 0.
unfoldable pub heap_grow : Heap → Bool × Heap
heap_grow h =
    let (page, pages) = pmm_alloc h.pages in
    if page == 0
    then (false, record h { pages = pages })
    else (true, record { blocks = add_page page h.blocks; pages = pages })

-- The block that `kmalloc` found, taken, with what it splits off.
unfoldable pub carve : ℕ → Block → List Block
carve size b =
    if leb (u32 (size + min_split)) b.size
    then record b { size = size; free = false }
      ∷ record { addr = b.addr + hdr_size + size; size = b.size - size - hdr_size; free = true }
      ∷ []
    else record b { free = false } ∷ []

-- The search of `kmalloc`: the first free block that is large enough.
unfoldable pub take_fit : ℕ → List Block → Option (ℕ × List Block)
unfolding carve
take_fit size [] = none
take_fit size (b ∷ bs) =
    let rest = take_fit size bs in
    if b.free && leb size b.size
    then some (b.addr + hdr_size, carve size b ++ bs)
    else elim rest [ none ↦ none | some (p, bs') ↦ some (p, b ∷ bs') ]

-- The loop of `kmalloc`; `none` means that it has not returned, and a result of 0 is NULL.
unfoldable pub kmalloc_loop : ℕ → ℕ → Heap → Option (ℕ × Heap)
kmalloc_loop zero size h = none
kmalloc_loop (suc fuel) size h =
    let (grown, h') = heap_grow h in
    let again = kmalloc_loop fuel size h' in
    elim (take_fit size h.blocks) [
      | some (p, bs) ↦ some (p, record h { blocks = bs })
      | none ↦ if grown then again else some (0, h')
    ]

-- `(size + 3u) & ~3u`
abbrev pub aligned : ℕ → ℕ
aligned size = u32 (size + 3) / 4 * 4

unfoldable pub kmalloc : ℕ → ℕ → Heap → Option (ℕ × Heap)
kmalloc fuel size h = if size == 0 then some (0, h) else kmalloc_loop fuel (aligned size) h

-- A pass of the loop of `kfree`, at block `b`, and whether it merged two blocks.
unfoldable pub merge_from : Block → List Block → Bool × List Block
merge_from b [] = (false, b ∷ [])
merge_from b (c ∷ bs) =
    let (merged, bs') = merge_from c bs in
    let (merged', bs'') = merge_from (record b { size = b.size + (hdr_size + c.size) }) bs in
    if (b.free && c.free) && (end_of b == c.addr) then (true, bs'') else (merged, b ∷ bs')

unfoldable pub merge_pass : List Block → Bool × List Block
merge_pass [] = (false, [])
merge_pass (b ∷ bs) = merge_from b bs

-- The `do` loop of `kfree`; `none` means that it has not ended.
unfoldable pub merge_loop : ℕ → List Block → Option (List Block)
merge_loop zero bs = none
merge_loop (suc fuel) bs =
    let (merged, bs') = merge_pass bs in
    let again = merge_loop fuel bs' in if merged then again else some bs'

-- `blk->free = 1`
unfoldable pub set_free : ℕ → List Block → List Block
set_free addr [] = []
set_free addr (b ∷ bs) =
    if b.addr == addr then record b { free = true } ∷ bs else b ∷ set_free addr bs

-- `ptr` is 0, or the payload of a block of the list.
unfoldable pub kfree : ℕ → ℕ → Heap → Option Heap
kfree fuel ptr h =
    if ptr == 0 then some h else elim (merge_loop fuel (set_free (ptr - hdr_size) h.blocks)) [
      | none ↦ none
      | some bs ↦ some (record h { blocks = bs })
    ]
