-- ===== src/Pmm/Refs.antt =====
-- The reference counts of kernel/pmm.c: a page shared by `pmm_addref` stays in use until
-- `pmm_free` was called once for each reference.
use ali_os.Base.{
  min, ℕ, zero, suc, ◌+◌, ◌/◌, ◌≤◌, ◌<◌, ◌≡◌, ◌≢◌, ◌∙◌, ◌⊎◌, refl, ap, true, false, ltb, leb, arith,
  Bool-cases, inl, inr, ◌&&◌, ◌||◌,
}
use ali_os.Pmm.{Pmm, page_size, pages_max, page_is_free, pmm_free, pmm_addref}
use ali_os.Pmm.Bitmap.{page_is_free-set_free, count_free-le}
use ali_os.Pmm.Alloc.{IsValid, pmm_free-IsValid, pmm_addref-IsValid}

-- What `pmm_free` does at page `addr / 4096`, when that page is in use.
pub record Frees (p : ℕ) (s t : Pmm) : Type 0 where
  pub shared :
      1 < s.page_refs p
      → (t.page_refs p + 1 ≡ s.page_refs p)
        × (page_is_free t.bitmap p ≡ false)
        × (t.free_count ≡ s.free_count)
  pub last :
      s.page_refs p ≤ 1
      → (t.page_refs p ≡ 0) × (page_is_free t.bitmap p ≡ true) × (t.free_count ≡ s.free_count + 1)
  pub others :
      (q : ℕ)
      → p ≢ q
      → (t.page_refs q ≡ s.page_refs q) × (page_is_free t.bitmap q ≡ page_is_free s.bitmap q)

-- Freeing a page in use drops one reference. The page is given back, and counted, exactly when it
-- had at most one, and no other page changes.
pub pmm_free-Frees :
    (addr : ℕ) (s : Pmm)
    → IsValid s
    → addr / page_size < pages_max
    → page_is_free s.bitmap (addr / page_size) ≡ false
    → Frees (addr / page_size) s (pmm_free addr s)
unfolding pmm_free
pmm_free-Frees addr s v h u =
    let p : ℕ = addr / page_size in
    let skip : (leb pages_max p || page_is_free s.bitmap p) ≡ false = ground arith in
    rw skip (elim (Bool-cases (ltb 1 (s.page_refs p))) [
      | inl shared ↦ rw shared (record {
        shared = λ m. ground arith;
        last = λ m. ground arith;
        others = λ q n. ground arith;
      })
      | inr last ↦ rw last (record {
        shared = λ m. ground arith;
        last = λ m. ground (
          arith,
          v.counted,
          count_free-le pages_max s.bitmap,
          page_is_free-set_free s.bitmap p p v.bytes,
        );
        others = λ q n. ground (arith, page_is_free-set_free s.bitmap p q v.bytes);
      })
    ])

-- `n` calls of an operation on one address
unfoldable pub times : ℕ → (Pmm → Pmm) → Pmm → Pmm
times zero f s = s
times (suc n) f s = times n f (f s)

-- Freeing a free page, or an address past the last page, changes nothing.
pub pmm_free_twice :
    (addr : ℕ) (s : Pmm)
    → (pages_max ≤ addr / page_size) ⊎ (page_is_free s.bitmap (addr / page_size) ≡ true)
    → pmm_free addr s ≡ s
unfolding pmm_free
pmm_free_twice addr s h = ground arith

-- What `pmm_addref` does at the page of its address: one more reference, up to 255.
pub record AddsRef (p : ℕ) (s t : Pmm) : Type 0 where
  pub count : t.page_refs p ≡ min 255 (s.page_refs p + 1)
  pub others : (q : ℕ) → p ≢ q → t.page_refs q ≡ s.page_refs q
  pub same_bitmap : t.bitmap ≡ s.bitmap
  pub same_count : t.free_count ≡ s.free_count

-- `pmm_addref` adds one reference to the page of its address, up to 255, and changes nothing else.
pub pmm_addref-AddsRef :
    (addr : ℕ) (s : Pmm)
    → IsValid s
    → addr / page_size < pages_max
    → AddsRef (addr / page_size) s (pmm_addref addr s)
unfolding pmm_addref
pmm_addref-AddsRef addr s v h =
    let p : ℕ = addr / page_size in
    elim (Bool-cases (ltb p pages_max && ltb (s.page_refs p) 255)) [
      | inl counts ↦ rw counts (record {
        count = ground arith;
        others = λ q n. ground arith;
        same_bitmap = refl;
        same_count = refl;
      })
      | inr full ↦ rw full (record {
        count = ground (arith, v.refs_fit p);
        others = λ q n. refl;
        same_bitmap = refl;
        same_count = refl;
      })
    ]

record AddsRefs (n p : ℕ) (s t : Pmm) : Type 0 where
  valid : IsValid t
  count : t.page_refs p ≡ min 255 (s.page_refs p + n)
  same_bitmap : t.bitmap ≡ s.bitmap

times-AddsRefs :
    (n addr : ℕ) (s : Pmm)
    → IsValid s
    → addr / page_size < pages_max
    → AddsRefs n (addr / page_size) s (times n (pmm_addref addr) s)
unfolding times
times-AddsRefs zero addr s v h = record {
  valid = v;
  count = omega (arith, v.refs_fit (addr / page_size));
  same_bitmap = refl;
}
times-AddsRefs (suc n) addr s v h =
    let one = pmm_addref-AddsRef addr s v h in
    let ih = times-AddsRefs n addr (pmm_addref addr s) (pmm_addref-IsValid addr s v) h in
    record {
      valid = ih.valid;
      count = omega (arith, ih.count, one.count);
      same_bitmap = ih.same_bitmap ∙ one.same_bitmap;
    }

free_times_kept :
    (n addr : ℕ) (s : Pmm)
    → IsValid s
    → addr / page_size < pages_max
    → page_is_free s.bitmap (addr / page_size) ≡ false
    → n < s.page_refs (addr / page_size)
    → page_is_free (times n (pmm_free addr) s).bitmap (addr / page_size) ≡ false
unfolding times
free_times_kept zero addr s v h u r = u
free_times_kept (suc n) addr s v h u r =
    let f = (pmm_free-Frees addr s v h u).shared (omega arith) in
    free_times_kept n addr (pmm_free addr s) (pmm_free-IsValid addr s v) h f.1 (omega (arith, f.0))

free_times_last :
    (n addr : ℕ) (s : Pmm)
    → IsValid s
    → addr / page_size < pages_max
    → page_is_free s.bitmap (addr / page_size) ≡ false
    → s.page_refs (addr / page_size) ≡ suc n
    → page_is_free (times (suc n) (pmm_free addr) s).bitmap (addr / page_size) ≡ true
unfolding times
free_times_last zero addr s v h u r = ((pmm_free-Frees addr s v h u).last (omega arith)).1
free_times_last (suc n) addr s v h u r =
    let f = (pmm_free-Frees addr s v h u).shared (omega arith) in
    free_times_last n addr (pmm_free addr s) (pmm_free-IsValid addr s v) h f.1 (omega (arith, f.0))

-- A page in use with one reference, shared `n` times more with `n` at most 254, stays in use through
-- `n` calls of `pmm_free`, and the next call gives it back.
pub shared_page_released :
    (k n addr : ℕ) (s : Pmm)
    → IsValid s
    → addr / page_size < pages_max
    → page_is_free s.bitmap (addr / page_size) ≡ false
    → s.page_refs (addr / page_size) ≡ 1
    → k ≤ n
    → n ≤ 254
    → (page_is_free
          (times k (pmm_free addr) (times n (pmm_addref addr) s)).bitmap
          (addr / page_size)
        ≡ false)
      × (page_is_free
            (times (suc n) (pmm_free addr) (times n (pmm_addref addr) s)).bitmap
            (addr / page_size)
          ≡ true)
shared_page_released k n addr s v h u one le small =
    let a = times-AddsRefs n addr s v h in
    let used = ap (λ bm. page_is_free bm (addr / page_size)) a.same_bitmap ∙ u in
    (
      free_times_kept k addr (times n (pmm_addref addr) s) a.valid h used (omega (arith, a.count)),
      free_times_last n addr (times n (pmm_addref addr) s) a.valid h used (omega (arith, a.count)),
    )

-- The count saturates: of a page shared 255 times or more, which has then 256 holders at least,
-- 255 calls of `pmm_free` give the page back although holders are left.
pub saturated_page_released_early :
    (n addr : ℕ) (s : Pmm)
    → IsValid s
    → addr / page_size < pages_max
    → page_is_free s.bitmap (addr / page_size) ≡ false
    → s.page_refs (addr / page_size) ≡ 1
    → 255 ≤ n
    → page_is_free
        (times 255 (pmm_free addr) (times n (pmm_addref addr) s)).bitmap
        (addr / page_size)
      ≡ true
saturated_page_released_early n addr s v h u one big =
    let a = times-AddsRefs n addr s v h in
    let used = ap (λ bm. page_is_free bm (addr / page_size)) a.same_bitmap ∙ u in
    free_times_last 254 addr (times n (pmm_addref addr) s) a.valid h used (omega (arith, a.count))
