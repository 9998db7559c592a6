-- ===== src/Pmm/Alloc.antt =====
-- `pmm_alloc` and `pmm_free` of kernel/pmm.c over a valid state.
use ali_os.Base.{
  ℕ, zero, suc, ◌+◌, ◌*◌, ◌/◌, ◌≤◌, ◌<◌, ◌≡◌, ◌∙◌, ◌↔◌, ◌⊎◌, refl, ap, update, true, false, ◌==◌,
  ltb, leb, arith, Bool-cases, inl, inr, ◌&&◌, ◌||◌,
}
use ali_os.Pmm.{
  Pmm, page_size, pages_max, page_set_used, page_is_free, one_less, alloc_from, pmm_alloc, pmm_free,
  pmm_addref,
}
use ali_os.Pmm.Bitmap.{
  AreBytes, page_set_used-AreBytes, page_set_free-AreBytes, count_free, count_free-le,
  count_free-set_used, count_free-set_free, count_free_pos, count_free-eq_zero,
}

-- The counter is the number of free pages, and a reference count fits its byte.
pub record IsValid (s : Pmm) : Type 0 where
  pub bytes : AreBytes s.bitmap
  pub counted : s.free_count ≡ count_free pages_max s.bitmap
  pub refs_fit : (p : ℕ) → s.page_refs p < 256

-- the state after page `p` was taken
abbrev pub taken : ℕ → Pmm → Pmm
taken p s = record s {
  bitmap = page_set_used s.bitmap p;
  free_count = one_less s.free_count;
  page_refs = update s.page_refs p 1;
}

pub taken-IsValid :
    (p : ℕ) (s : Pmm)
    → IsValid s
    → p < pages_max
    → page_is_free s.bitmap p ≡ true
    → IsValid (taken p s)
taken-IsValid p s v h f = record {
  bytes = page_set_used-AreBytes s.bitmap p v.bytes;
  counted = ground (arith, v.counted, count_free-set_used pages_max s.bitmap p v.bytes f);
  refs_fit = λ q. ground (arith, v.refs_fit q);
}

-- What a run of the loop over the pages from `lo` to `hi` does.
pub record Allocates (lo hi : ℕ) (s : Pmm) (out : ℕ × Pmm) : Type 0 where
  pub page : ℕ
  pub outcome :
      ((out ≡ (0, s)) × ((q : ℕ) → lo ≤ q → q < hi → page_is_free s.bitmap q ≡ false))
      ⊎ ((out ≡ (page * page_size, taken page s))
          × (lo ≤ page)
          × (page < hi)
          × (page_is_free s.bitmap page ≡ true)
          × ((q : ℕ) → lo ≤ q → q < page → page_is_free s.bitmap q ≡ false))

-- Page `lo` is in use, and so is page `q` if it comes later.
used_from :
    (bm : ℕ → ℕ) (lo q : ℕ)
    → page_is_free bm lo ≡ false
    → lo ≤ q
    → (lo + 1 ≤ q → page_is_free bm q ≡ false)
    → page_is_free bm q ≡ false
used_from bm lo q used l later = elim (Bool-cases (lo == q)) [
  | inl here ↦ let e : lo ≡ q = ground arith in rw (← e) used
  | inr there ↦ later (ground arith)
]

alloc_from-Allocates :
    (left lo hi : ℕ) (s : Pmm)
    → lo + left ≡ hi
    → hi ≤ pages_max
    → Allocates lo hi s (alloc_from left lo s)
unfolding alloc_from
alloc_from-Allocates zero lo hi s e h = record {
  page = 0;
  outcome = inl (refl, λ q l m. absurd (omega arith));
}
alloc_from-Allocates (suc left) lo hi s e h = elim (Bool-cases (page_is_free s.bitmap lo)) [
  | inl free ↦ rw free (record {
    page = lo;
    outcome = inr (ground arith, omega arith, omega arith, free, λ q l m. absurd (omega arith));
  })
  | inr used ↦
      let ih = alloc_from-Allocates left (lo + 1) hi s (omega arith) h in
      rw used (record {
        page = ih.page;
        outcome = elim ih.outcome [
          | inl (e', none_free) ↦
              inl (e', λ q l m. used_from s.bitmap lo q used l (λ l'. none_free q l' m))
          | inr (e', l, m, f, lowest) ↦
              inr (
                e',
                omega arith,
                m,
                f,
                λ q l m. used_from s.bitmap lo q used l (λ l'. lowest q l' m),
              )
        ];
      })
]

-- `pmm_alloc` returns the address of the lowest free page, and takes it: the page is in use with one
-- reference. If no page is free it returns 0 and changes nothing.
pub pmm_alloc-Allocates : (s : Pmm) → Allocates 0 pages_max s (pmm_alloc s)
unfolding pmm_alloc
pmm_alloc-Allocates s = alloc_from-Allocates pages_max 0 pages_max s (omega arith) (omega arith)

-- `pmm_alloc` keeps the state valid.
pub pmm_alloc-IsValid : (s : Pmm) → IsValid s → IsValid (pmm_alloc s).1
pmm_alloc-IsValid s v =
    let a = pmm_alloc-Allocates s in
    elim a.outcome [
      | inl (e, _) ↦ rw e v
      | inr (e, _, m, f, _) ↦ rw e (taken-IsValid a.page s v m f)
    ]

-- Page 0 is in use, so that address 0 can mean that no page was found.
abbrev pub ZeroUsed : Pmm → Type 0
ZeroUsed s = page_is_free s.bitmap 0 ≡ false

no_zero :
    {n : ℕ} (bm : ℕ → ℕ) (p : ℕ)
    → p * page_size ≡ 0
    → page_is_free bm 0 ≡ false
    → page_is_free bm p ≡ true
    → n ≡ 0
no_zero bm p h z f = let e : p ≡ 0 = omega arith in cc (ap (page_is_free bm) e)

-- Over a valid state with page 0 in use, `pmm_alloc` returns 0 exactly when the counter is 0, and
-- otherwise counts one page less.
pub pmm_alloc-count :
    (s : Pmm)
    → IsValid s
    → ZeroUsed s
    → (((pmm_alloc s).0 ≡ 0) ↔ (s.free_count ≡ 0))
      × ((pmm_alloc s).1.free_count ≡ one_less s.free_count)
pmm_alloc-count s v z =
    let a = pmm_alloc-Allocates s in
    elim a.outcome [
      | inl (e, none_free) ↦
          let none_left : s.free_count ≡ 0 =
            v.counted
            ∙ count_free-eq_zero pages_max s.bitmap (λ p h. none_free p (omega arith) h) in
          rw e (((λ _. none_left), (λ _. refl)), ground arith)
      | inr (e, l, m, f, lowest) ↦
          let some_left : 0 < s.free_count =
            omega (arith, v.counted, count_free_pos pages_max s.bitmap a.page m f) in
          rw e (((λ h. no_zero s.bitmap a.page h z f), (λ h. absurd (omega arith))), refl)
    ]

-- `pmm_free` keeps the state valid; its counter does not wrap.
pub pmm_free-IsValid : (addr : ℕ) (s : Pmm) → IsValid s → IsValid (pmm_free addr s)
unfolding pmm_free
pmm_free-IsValid addr s v =
    let p : ℕ = addr / page_size in
    elim (Bool-cases (leb pages_max p || page_is_free s.bitmap p)) [
      | inl skip ↦ rw skip v
      | inr go_on ↦ rw go_on (elim (Bool-cases (ltb 1 (s.page_refs p))) [
        | inl shared ↦ rw shared (record {
          bytes = v.bytes;
          counted = v.counted;
          refs_fit = λ q. ground (arith, v.refs_fit q, v.refs_fit p);
        })
        | inr last ↦ rw last (record {
          bytes = page_set_free-AreBytes s.bitmap p v.bytes;
          counted = ground (
            arith,
            v.counted,
            count_free-le pages_max s.bitmap,
            count_free-set_free pages_max s.bitmap p v.bytes,
          );
          refs_fit = λ q. ground (arith, v.refs_fit q);
        })
      ])
    ]

-- `pmm_addref` keeps the state valid; its count does not wrap.
pub pmm_addref-IsValid : (addr : ℕ) (s : Pmm) → IsValid s → IsValid (pmm_addref addr s)
unfolding pmm_addref
pmm_addref-IsValid addr s v =
    elim (Bool-cases
      (ltb (addr / page_size) pages_max && ltb (s.page_refs (addr / page_size)) 255)) [
        | inl counts ↦ rw counts (record {
          bytes = v.bytes;
          counted = v.counted;
          refs_fit = λ q. ground (arith, v.refs_fit q);
        })
        | inr full ↦ rw full v
      ]
