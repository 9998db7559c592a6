-- ===== src/Pmm/Init.antt =====
-- `pmm_init` of kernel/pmm.c: for every memory map the state is valid, and the first megabyte and
-- the kernel image are in use.
use ali_os.Base.{
  ℕ, zero, suc, ◌+◌, ◌-◌, ◌/◌, ◌%◌, ◌≤◌, ◌<◌, ◌≡◌, sym, u32, sub32, false, if◌then◌else◌, ◌==◌, ltb,
  arith, Bool-cases, inl, inr, ◌&&◌, not, bit_clear_full, List, [], ◌∷◌,
}
use ali_os.Pmm.{
  Pmm, page_size, pages_max, page_is_free, free_page, free_from, range_free, use_page, use_from,
  range_used, E820Entry, usable, free_usable, pmm_init,
}
use ali_os.Pmm.Bitmap.{
  page_set_used-AreBytes, page_set_free-AreBytes, page_is_free-set_used, count_free, count_free-le,
  count_free-set_used, count_free-set_free, count_free-eq_zero,
}
use ali_os.Pmm.Alloc.{IsValid}

free_page-IsValid : (p : ℕ) (s : Pmm) → IsValid s → IsValid (free_page p s)
unfolding free_page
free_page-IsValid p s v = elim (Bool-cases (ltb p pages_max && not (page_is_free s.bitmap p))) [
  | inl go_on ↦ rw go_on (record {
    bytes = page_set_free-AreBytes s.bitmap p v.bytes;
    counted = ground (
      arith,
      v.counted,
      count_free-le pages_max s.bitmap,
      count_free-set_free pages_max s.bitmap p v.bytes,
    );
    refs_fit = v.refs_fit;
  })
  | inr skip ↦ rw skip v
]

free_from-IsValid : (left addr : ℕ) (s : Pmm) → IsValid s → IsValid (free_from left addr s)
unfolding free_from
free_from-IsValid zero addr s v = v
free_from-IsValid (suc left) addr s v =
    free_from-IsValid left (addr + page_size) (free_page (u32 (addr / page_size)) s)
      (free_page-IsValid (u32 (addr / page_size)) s v)

free_usable-IsValid : (es : List E820Entry) (s : Pmm) → IsValid s → IsValid (free_usable es s)
unfolding free_usable range_free
free_usable-IsValid [] s v = v
free_usable-IsValid (e ∷ es) s v = elim (Bool-cases (e.kind == usable)) [
  | inl go_on ↦ rw go_on (free_usable-IsValid es _ (free_from-IsValid _ _ s v))
  | inr skip ↦ rw skip (free_usable-IsValid es s v)
]

use_page-IsValid : (p : ℕ) (s : Pmm) → IsValid s → p < pages_max → IsValid (use_page p s)
unfolding use_page
use_page-IsValid p s v h = elim (Bool-cases (page_is_free s.bitmap p)) [
  | inl free ↦ rw free (record {
    bytes = page_set_used-AreBytes s.bitmap p v.bytes;
    counted = ground (arith, v.counted, count_free-set_used pages_max s.bitmap p v.bytes free);
    refs_fit = v.refs_fit;
  })
  | inr used ↦ rw used v
]

page_is_free-use_page :
    (p q : ℕ) (s : Pmm)
    → IsValid s
    → page_is_free (use_page p s).bitmap q ≡ (if p == q then false else page_is_free s.bitmap q)
unfolding use_page
page_is_free-use_page p q s v = ground (arith, page_is_free-set_used s.bitmap p q v.bytes)

-- what the loop of `range_used` leaves, started at page `p` with `left` rounds
record Uses (p left : ℕ) (s t : Pmm) : Type 0 where
  valid : IsValid t
  used : (q : ℕ) → p ≤ q → q < p + left → q < pages_max → page_is_free t.bitmap q ≡ false
  kept : (q : ℕ) → page_is_free s.bitmap q ≡ false → page_is_free t.bitmap q ≡ false

use_from-Uses : (left p : ℕ) (s : Pmm) → IsValid s → Uses p left s (use_from left p s)
unfolding use_from
use_from-Uses zero p s v = record {
  valid = v;
  used = λ q a b c. absurd (omega arith);
  kept = λ q h. h;
}
use_from-Uses (suc left) p s v = elim (Bool-cases (ltb p pages_max)) [
  | inl in_range ↦
      let u = use_page-IsValid p s v (ground arith) in
      let ih = use_from-Uses left (p + 1) (use_page p s) u in
      let here = λ (q : ℕ). page_is_free-use_page p q s v in
      rw in_range (record {
        valid = ih.valid;
        used = λ q a b c. elim (Bool-cases (p == q)) [
          | inl e ↦ ih.kept q (rw (here q) (rw e))
          | inr ne ↦ ih.used q (ground arith) (omega arith) c
        ];
        kept = λ q h. ih.kept q (ground (arith, here q));
      })
  | inr past ↦
      rw past (record { valid = v; used = λ q a b c. absurd (ground arith); kept = λ q h. h })
]

all_used_free :
    (n : ℕ) (s : Pmm)
    → n ≤ pages_max
    → count_free n (λ i. if ltb i (pages_max / 8) then 255 else s.bitmap i) ≡ 0
unfolding page_is_free
all_used_free n s h =
    count_free-eq_zero n _ (λ p lt. ground (arith, bit_clear_full (p % 8) (omega arith)))

-- the first page past the kernel image
abbrev pub kernel_pages : ℕ → ℕ
kernel_pages kernel_end = u32 (sub32 kernel_end 0xC0000000 + page_size - 1) / page_size

-- Whatever map the boot loader left, `pmm_init` makes a valid state out of the zeroed statics, with
-- every page of the first megabyte, and every page from 0x1000 up to the end of the kernel image,
-- in use.
pub pmm_init_lem :
    (map : List E820Entry) (kernel_end : ℕ) (s : Pmm)
    → ((i : ℕ) → s.bitmap i ≡ 0)
    → ((i : ℕ) → s.page_refs i ≡ 0)
    → IsValid (pmm_init map kernel_end s)
      × ((p : ℕ) → p < 256 → page_is_free (pmm_init map kernel_end s).bitmap p ≡ false)
      × ((p : ℕ)
          → 1 ≤ p
          → p < kernel_pages kernel_end
          → p < pages_max
          → page_is_free (pmm_init map kernel_end s).bitmap p ≡ false)
unfolding pmm_init range_used
pmm_init_lem map kernel_end s zb zr =
    let start : Pmm = record s {
      bitmap = λ i. if ltb i (pages_max / 8) then 255 else s.bitmap i;
      free_count = 0;
    } in
    let v0 : IsValid start = record {
      bytes = λ i. ground (arith, zb i);
      counted = sym (all_used_free pages_max s (omega arith));
      refs_fit = λ i. omega (arith, zr i);
    } in
    let v1 = free_usable-IsValid map start v0 in
    let low = use_from-Uses 256 0 (free_usable map start) v1 in
    let high =
      use_from-Uses (kernel_pages kernel_end - 1) 1 (use_from 256 0 (free_usable map start))
        low.valid in
    (
      high.valid,
      (λ p h. high.kept p (low.used p (omega arith) (omega arith) (omega arith))),
      (λ p a b c. high.used p a (omega arith) c),
    )
