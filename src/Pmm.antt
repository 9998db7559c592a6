-- ===== src/Pmm.antt =====
-- kernel/pmm.c: the physical memory manager, a bitmap of 65536 pages with a counter of the free
-- ones and a reference count for each page.
pub mod Small
pub mod Bitmap
pub mod Init
pub mod Alloc
pub mod Refs
pub mod Fresh
pub mod Calls
mod Tests
use ali_os.Base.{
  ℕ, zero, suc, ◌+◌, ◌-◌, ◌*◌, ◌/◌, ◌%◌, ◌^◌, u8, u32, u64, sub32, update, Bool, true, false, ◌&&◌,
  ◌||◌, not, List, [], ◌∷◌, if◌then◌else◌, ◌==◌, ltb, leb, bit_clear, with_bit, without_bit,
}

abbrev pub page_size : ℕ
page_size = 4096

abbrev pub pages_max : ℕ
pages_max = 65536

-- `bitmap` (a set bit is a page in use), `free_count` and `page_refs`
pub record Pmm : Type 0 where
  pub bitmap : ℕ → ℕ
  pub free_count : ℕ
  pub page_refs : ℕ → ℕ

unfoldable pub page_set_used : (ℕ → ℕ) → ℕ → ℕ → ℕ
page_set_used bm p = update bm (p / 8) (with_bit (bm (p / 8)) (p % 8))

unfoldable pub page_set_free : (ℕ → ℕ) → ℕ → ℕ → ℕ
page_set_free bm p = update bm (p / 8) (without_bit (bm (p / 8)) (p % 8))

unfoldable pub page_is_free : (ℕ → ℕ) → ℕ → Bool
page_is_free bm p = bit_clear (bm (p / 8)) (p % 8)

-- `if (free_count) free_count--`
abbrev pub one_less : ℕ → ℕ
one_less n = if n == 0 then 0 else n - 1

-- one round of `range_free`, at page `p`
unfoldable pub free_page : ℕ → Pmm → Pmm
free_page p s =
    if ltb p pages_max && not (page_is_free s.bitmap p)
    then record s { bitmap = page_set_free s.bitmap p; free_count = u32 (s.free_count + 1) }
    else s

-- The loop of `range_free` from `addr` on, with `left` rounds left. Its step is a page, and both
-- ends are multiples of a page, so it makes `(end - start) / 4096` rounds.
unfoldable pub free_from : ℕ → ℕ → Pmm → Pmm
free_from zero addr s = s
free_from (suc left) addr s =
    free_from left (addr + page_size) (free_page (u32 (addr / page_size)) s)

unfoldable pub range_free : ℕ → ℕ → Pmm → Pmm
range_free base len s =
    let start = u64 (base + page_size - 1) / page_size * page_size in
    let end = u64 (base + len) / page_size * page_size in
    free_from ((end - start) / page_size) start s

-- one round of `range_used`, at page `p`
unfoldable pub use_page : ℕ → Pmm → Pmm
use_page p s =
    if page_is_free s.bitmap p
    then record s { bitmap = page_set_used s.bitmap p; free_count = one_less s.free_count }
    else s

-- the loop of `range_used` from page `p` on, with at most `left` rounds left
unfoldable pub use_from : ℕ → ℕ → Pmm → Pmm
use_from zero p s = s
use_from (suc left) p s =
    let rest = use_from left (p + 1) (use_page p s) in if ltb p pages_max then rest else s

unfoldable pub range_used : ℕ → ℕ → Pmm → Pmm
range_used base end s =
    let p = base / page_size in
    let e = u32 (end + page_size - 1) / page_size in use_from (e - p) p s

-- `struct e820_entry`, without `attrib`, which nothing reads
pub record E820Entry : Type 0 where
  pub base : ℕ
  pub length : ℕ
  pub kind : ℕ

-- E820_USABLE
abbrev pub usable : ℕ
usable = 1

unfoldable pub free_usable : List E820Entry → Pmm → Pmm
free_usable [] s = s
free_usable (e ∷ es) s =
    free_usable es (if e.kind == usable then range_free e.base e.length s else s)

-- The map is what the boot loader left at 0x500; `kernel_end` is the linker's symbol.
unfoldable pub pmm_init : List E820Entry → ℕ → Pmm → Pmm
pmm_init map kernel_end s =
    let all_used = record s {
      bitmap = λ i. if ltb i (pages_max / 8) then 255 else s.bitmap i;
      free_count = 0;
    } in
    range_used 0x1000 (sub32 kernel_end 0xC0000000)
      (range_used 0 0x100000 (free_usable map all_used))

-- the loop of `pmm_alloc` from page `p` on, with `left` rounds left
unfoldable pub alloc_from : ℕ → ℕ → Pmm → ℕ × Pmm
alloc_from zero p s = (0, s)
alloc_from (suc left) p s =
    let rest = alloc_from left (p + 1) s in
    if page_is_free s.bitmap p
    then (
      u32 (p * page_size),
      record s {
        bitmap = page_set_used s.bitmap p;
        free_count = one_less s.free_count;
        page_refs = update s.page_refs p 1;
      },
    )
    else rest

unfoldable pub pmm_alloc : Pmm → ℕ × Pmm
pmm_alloc s = alloc_from pages_max 0 s

unfoldable pub pmm_free : ℕ → Pmm → Pmm
pmm_free addr s =
    let p = addr / page_size in
    if leb pages_max p || page_is_free s.bitmap p
    then s
    else if ltb 1 (s.page_refs p)
    then record s { page_refs = update s.page_refs p (s.page_refs p - 1) }
    else record s {
      page_refs = update s.page_refs p 0;
      bitmap = page_set_free s.bitmap p;
      free_count = u32 (s.free_count + 1);
    }

unfoldable pub pmm_addref : ℕ → Pmm → Pmm
pmm_addref addr s =
    let p = addr / page_size in
    if ltb p pages_max && ltb (s.page_refs p) 255
    then record s { page_refs = update s.page_refs p (s.page_refs p + 1) }
    else s

unfoldable pub pmm_getref : ℕ → Pmm → ℕ
pmm_getref addr s = let p = addr / page_size in if ltb p pages_max then s.page_refs p else 0

unfoldable pub pmm_free_pages : Pmm → ℕ
pmm_free_pages s = s.free_count
