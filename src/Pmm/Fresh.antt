-- ===== src/Pmm/Fresh.antt =====
-- `pmm_alloc` of kernel/pmm.c as its callers see it: no page, or one that nothing uses.
use ali_os.Base.{
  ℕ, ◌+◌, ◌*◌, ◌<◌, ◌≡◌, ◌≢◌, ◌⊎◌, ◌∙◌, refl, ap, sym, true, false, ◌==◌, inl, inr, Bool-cases,
  arith,
}
use ali_os.Pmm.{Pmm, page_size, pages_max, page_is_free, one_less, pmm_alloc}
use ali_os.Pmm.Bitmap.{page_is_free-set_used}
use ali_os.Pmm.Alloc.{IsValid, ZeroUsed, taken, taken-IsValid, pmm_alloc-Allocates, pmm_alloc-count}

-- The pages are in a valid state, with page 0 in use.
pub record Pages (s : Pmm) : Type 0 where
  pub valid : IsValid s
  pub zero_used : ZeroUsed s

-- What a call leaves: nothing changed, as there was no page left, or one page that was free is taken.
pub record Grown (s : Pmm) (out : ℕ × Pmm) : Type 0 where
  pub pages : Pages out.1
  pub kept : (p : ℕ) → page_is_free s.bitmap p ≡ false → page_is_free out.1.bitmap p ≡ false
  pub outcome :
      ((out.0 ≡ 0) × (out.1.free_count ≡ s.free_count))
      ⊎ ((p : ℕ) × (out.0 ≡ p * page_size)
          × (0 < p)
          × (p < pages_max)
          × (page_is_free s.bitmap p ≡ true)
          × (page_is_free out.1.bitmap p ≡ false)
          × (out.1.free_count + 1 ≡ s.free_count))

taken_used :
    (s : Pmm) (p q : ℕ)
    → IsValid s
    → page_is_free s.bitmap q ≡ false
    → page_is_free (taken p s).bitmap q ≡ false
taken_used s p q v u = ground (arith, page_is_free-set_used s.bitmap p q v.bytes)

taken_self : (s : Pmm) (p : ℕ) → IsValid s → page_is_free (taken p s).bitmap p ≡ false
taken_self s p v = ground (arith, page_is_free-set_used s.bitmap p p v.bytes)

pub pmm_alloc-Grown : (s : Pmm) → Pages s → Grown s (pmm_alloc s)
pmm_alloc-Grown s v =
    let a = pmm_alloc-Allocates s in
    let c = pmm_alloc-count s v.valid v.zero_used in
    elim a.outcome [
      | inl (e, _) ↦ rw e (record { pages = v; kept = λ p u. u; outcome = inl (refl, refl) })
      | inr (e, _, lt, free, _) ↦
          let pos : 0 < a.page = elim (Bool-cases (a.page == 0)) [
            | inl zero_page ↦
                let z : a.page ≡ 0 = ground arith in
                absurd (cc (ap (page_is_free s.bitmap) z, free, v.zero_used))
            | inr more ↦ ground arith
          ] in
          let left : s.free_count ≢ 0 = λ n.
            let h : a.page * page_size ≡ 0 = sym (ap (λ (o : ℕ × Pmm). o.0) e) ∙ c.0.1 n in
            absurd (omega arith) in
          let less : one_less s.free_count + 1 ≡ s.free_count = ground (arith, left) in
          rw e (record {
            pages = record {
              valid = taken-IsValid a.page s v.valid lt free;
              zero_used = taken_used s a.page 0 v.valid v.zero_used;
            };
            kept = λ p u. taken_used s a.page p v.valid u;
            outcome = inr (a.page, refl, pos, lt, free, taken_self s a.page v.valid, less);
          })
    ]
