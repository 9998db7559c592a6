-- ===== src/Vm/Resolve.antt =====
-- kernel/fault.c: the three ways out of a write to a shared page.
use ali_os.Base.{
  ℕ, ◌+◌, ◌*◌, ◌/◌, ◌%◌, ◌≤◌, ◌<◌, ◌≡◌, ◌≢◌, ◌∙◌, refl, ap, sym, update, update_self, update_ne,
  true, false, some, ◌==◌, ltb, inl, inr, Bool-cases, arith,
}
use ali_os.Pmm.{Pmm, page_size, pages_max, page_is_free, pmm_alloc, pmm_free, pmm_getref}
use ali_os.Pmm.Alloc.{pmm_alloc-count, pmm_alloc-Allocates}
use ali_os.Vm.{
  Vm, is_user, is_present, is_writable, is_cow, frame_of, dir_index, table_index, set_word,
}
use ali_os.Vm.Map.{walk, walk_same, IsUserIndex, IsSpace, walk-written}
use ali_os.Vm.Refines.{set_word_elsewhere}
use ali_os.Vm.Fault.{
  pf_present, pf_write, pf_user, cow_flags, resolve_cow, page_fault, kernel_virt_base,
}
use ali_os.Vm.Cow.{Owned, Resolves, read_kept, replaced-Resolves}

-- What a successful walk says of the tables.
pub walk_inv :
    (dir v w : ℕ) (s : Vm)
    → walk dir v s ≡ some w
    → (is_present (s.tables dir (v / 1024)) ≡ true)
      × (is_present w ≡ true)
      × (s.tables (frame_of (s.tables dir (v / 1024))) (v % 1024) ≡ w)
unfolding walk
walk_inv dir v w s h = ground arith

indices :
    (virt : ℕ)
    → (dir_index virt ≡ virt / page_size / 1024) × (table_index virt ≡ virt / page_size % 1024)
indices virt = omega arith

module _ (pd cr2 pte : ℕ) (s : Vm) (h : walk (frame_of pd) (cr2 / page_size) s ≡ some pte)
    (cow : is_cow pte ≡ true) where
  abbrev table : ℕ
  table = frame_of (s.tables (frame_of pd) (cr2 / page_size / 1024))

  resolve_sole :
      pmm_getref (frame_of pte * page_size) s.pages ≡ 1
      → resolve_cow pd cr2 s ≡ (
        true,
        record s {
          tables =
              set_word table
                (cr2 / page_size % 1024)
                (frame_of pte * page_size + cow_flags pte)
                s.tables;
        },
      )
  unfolding resolve_cow
  resolve_sole one =
      let (a, b, c) = walk_inv (frame_of pd) (cr2 / page_size) pte s h in
      rw ((indices cr2).0, (indices cr2).1, a, c, b, cow, one)

  resolve_failed :
      pmm_getref (frame_of pte * page_size) s.pages ≢ 1
      → (pmm_alloc s.pages).0 ≡ 0
      → resolve_cow pd cr2 s ≡ (false, record s { pages = (pmm_alloc s.pages).1 })
  unfolding resolve_cow
  resolve_failed many z =
      let (a, b, c) = walk_inv (frame_of pd) (cr2 / page_size) pte s h in
      let no_one : (pmm_getref (frame_of pte * page_size) s.pages == 1) ≡ false =
        ground (arith, many) in
      rw ((indices cr2).0, (indices cr2).1, a, c, b, cow, no_one, z)

  resolve_copied :
      (p : ℕ)
      → pmm_getref (frame_of pte * page_size) s.pages ≢ 1
      → (pmm_alloc s.pages).0 ≡ p * page_size
      → 0 < p
      → resolve_cow pd cr2 s ≡ (
        true,
        record s {
          pages = pmm_free (frame_of pte * page_size) (pmm_alloc s.pages).1;
          bytes = update s.bytes p (s.bytes (frame_of pte));
          tables = set_word table (cr2 / page_size % 1024) (p * page_size + cow_flags pte) s.tables;
        },
      )
  unfolding resolve_cow
  resolve_copied p many e lt =
      let (a, b, c) = walk_inv (frame_of pd) (cr2 / page_size) pte s h in
      let no_one : (pmm_getref (frame_of pte * page_size) s.pages == 1) ≡ false =
        ground (arith, many) in
      let z : (p * page_size == 0) ≡ false = ground arith in
      let fr : frame_of (p * page_size) ≡ p = omega arith in
      let fo : frame_of (frame_of pte * page_size) ≡ frame_of pte = omega arith in
      rw ((indices cr2).0, (indices cr2).1, a, c, b, cow, no_one, e, z, fr, fo)

-- The bits of the new entry.
new_entry :
    (p pte : ℕ)
    → is_cow pte ≡ true
    → is_present pte ≡ true
    → is_user pte ≡ true
    → (is_present (p * page_size + cow_flags pte) ≡ true)
      × (is_writable (p * page_size + cow_flags pte) ≡ true)
      × (is_cow (p * page_size + cow_flags pte) ≡ false)
      × (frame_of (p * page_size + cow_flags pte) ≡ p)
      × (is_user (p * page_size + cow_flags pte) ≡ true)
new_entry p pte c pr us = ground arith

getref : (p : ℕ) (s : Pmm) → p < pages_max → pmm_getref (p * page_size) s ≡ s.page_refs p
unfolding pmm_getref
getref p s lt = let e : p * page_size / page_size ≡ p = omega arith in rw e (ground arith)

pmm_free_other :
    (p addr : ℕ) (s : Pmm) → addr / page_size ≢ p → (pmm_free addr s).page_refs p ≡ s.page_refs p
unfolding pmm_free
pmm_free_other p addr s n = ground (arith, n)

-- The state after the page was copied to page `p`.
abbrev copied : ℕ → ℕ → ℕ → ℕ → Vm → Vm
copied pd cr2 pte p s = record s {
  pages = pmm_free (frame_of pte * page_size) (pmm_alloc s.pages).1;
  bytes = update s.bytes p (s.bytes (frame_of pte));
  tables =
      set_word (frame_of (s.tables (frame_of pd) (cr2 / page_size / 1024))) (cr2 / page_size % 1024)
        (p * page_size + cow_flags pte) s.tables;
}

resolve_shared :
    (pd cr2 pte : ℕ) (s : Vm)
    → IsSpace (frame_of pd) s
    → Owned (frame_of pd) s
    → IsUserIndex (cr2 / page_size / 1024)
    → walk (frame_of pd) (cr2 / page_size) s ≡ some pte
    → is_cow pte ≡ true
    → pmm_getref (frame_of pte * page_size) s.pages ≢ 1
    → (frame_of pte < pages_max)
      × (1 ≤ s.pages.page_refs (frame_of pte))
      × (page_is_free s.pages.bitmap (frame_of pte) ≡ false)
      × (is_user pte ≡ true)
    → Resolves (frame_of pd) (cr2 / page_size) pte s (resolve_cow pd cr2 s)
resolve_shared pd cr2 pte s sp own uv h cow n (lt, ref, used, user) =
    let dir = frame_of pd in
    let v = cr2 / page_size in
    let table_elsewhere : (w q : ℕ)
        → q ≢ frame_of (s.tables dir (v / 1024))
        → set_word (frame_of (s.tables dir (v / 1024))) (v % 1024) w s.tables q ≡ s.tables q =
      λ w q d.
        set_word_elsewhere (frame_of (s.tables dir (v / 1024))) (v % 1024) w q s.tables
          (λ e. d (sym e)) in
    let (a, b, c) = walk_inv dir v pte s h in
    let o = pmm_alloc-Allocates s.pages in
    elim o.outcome [
      | inl (e, _) ↦
          let many : 1 < s.pages.page_refs (frame_of pte) =
            omega (arith, n, getref (frame_of pte) s.pages lt) in
          let z : (pmm_alloc s.pages).0 ≡ 0 = ap (λ (r : ℕ × Pmm). r.0) e in
          rw (resolve_failed pd cr2 pte s h cow n z) (record {
            failed = λ _. (many, (pmm_alloc-count s.pages sp.pages.valid sp.pages.zero_used).0.0 z);
            private_page = λ k. cc;
            others = λ q u k. walk_same dir q s _ refl refl;
            same_reads =
                λ q k u. read_kept dir q k s _ own u (walk_same dir q s _ refl refl) (λ p _. refl);
            same_bytes = λ p u. refl;
            elsewhere = λ p n. refl;
            copied = λ k. cc;
          })
      | inr (e, _, _, free, _) ↦
          let p = o.page in
          let w = p * page_size + cow_flags pte in
          let (w0, w1, w2, w3, w4) = new_entry p pte cow b user in
          let fresh : (q : ℕ) → page_is_free s.pages.bitmap q ≡ false → p ≢ q =
            λ q u k. cc (ap (page_is_free s.pages.bitmap) k, free, u) in
          let pos : 0 < p = omega (arith, fresh 0 sp.pages.zero_used) in
          let apart : frame_of pte * page_size / page_size ≢ p =
            omega (arith, fresh (frame_of pte) used) in
          let one : (pmm_free (frame_of pte * page_size) (pmm_alloc s.pages).1).page_refs p ≡ 1 =
            pmm_free_other p (frame_of pte * page_size) (pmm_alloc s.pages).1 apart
            ∙ (rw e (update_self s.pages.page_refs p 1)) in
          rw (resolve_copied pd cr2 pte s h cow p n (ap (λ (r : ℕ × Pmm). r.0) e) pos) (
            replaced-Resolves dir v pte w s (copied pd cr2 pte p s) own uv h
              (λ q u.
                walk_same dir q (record s { tables = (copied pd cr2 pte p s).tables })
                  (copied pd cr2 pte p s) refl refl
                ∙ walk-written dir v w s sp uv w0 a q u)
              (λ q u. update_ne s.bytes p q (s.bytes (frame_of pte)) (fresh q u))
              (rw w3 (update_self s.bytes p (s.bytes (frame_of pte)))) (w4, w1, w2, rw w3 one)
              (λ q d. table_elsewhere (p * page_size + cow_flags pte) q d) (λ _. rw w3 free))
    ]

resolve_cow-Resolves :
    (pd cr2 pte : ℕ) (s : Vm)
    → IsSpace (frame_of pd) s
    → Owned (frame_of pd) s
    → IsUserIndex (cr2 / page_size / 1024)
    → walk (frame_of pd) (cr2 / page_size) s ≡ some pte
    → is_cow pte ≡ true
    → Resolves (frame_of pd) (cr2 / page_size) pte s (resolve_cow pd cr2 s)
resolve_cow-Resolves pd cr2 pte s sp own uv h cow =
    let dir = frame_of pd in
    let v = cr2 / page_size in
    let table_elsewhere : (w q : ℕ)
        → q ≢ frame_of (s.tables dir (v / 1024))
        → set_word (frame_of (s.tables dir (v / 1024))) (v % 1024) w s.tables q ≡ s.tables q =
      λ w q d.
        set_word_elsewhere (frame_of (s.tables dir (v / 1024))) (v % 1024) w q s.tables
          (λ e. d (sym e)) in
    let (lt, ref, used, user) = own v pte uv h in
    let (a, b, c) = walk_inv dir v pte s h in
    elim (Bool-cases (pmm_getref (frame_of pte * page_size) s.pages == 1)) [
      | inl sole ↦
          let one : pmm_getref (frame_of pte * page_size) s.pages ≡ 1 = ground arith in
          let (w0, w1, w2, w3, w4) = new_entry (frame_of pte) pte cow b user in
          rw (resolve_sole pd cr2 pte s h cow one) (
            replaced-Resolves dir v pte (frame_of pte * page_size + cow_flags pte) s _ own uv h
              (walk-written dir v (frame_of pte * page_size + cow_flags pte) s sp uv w0 a)
              (λ p u. refl) (rw w3 refl)
              (w4, w1, w2, rw w3 (sym (getref (frame_of pte) s.pages lt) ∙ one))
              (λ q d. table_elsewhere (frame_of pte * page_size + cow_flags pte) q d)
              (λ many. absurd (omega (arith, many, one, getref (frame_of pte) s.pages lt))))
      | inr many ↦
          let n : pmm_getref (frame_of pte * page_size) s.pages ≢ 1 = λ e. ground arith in
          resolve_shared pd cr2 pte s sp own uv h cow n (lt, ref, used, user)
    ]

-- A write by user code at an address of the user's half, to a page that is present and marked
-- PAGE_COW in the current task's tables, over an address space whose pages are user pages, in use
-- with a reference each. The fault is fatal only if the page has more than one reference and the
-- counter of free pages is 0. Otherwise the page is afterwards a user page, writable, not PAGE_COW,
-- and on a page with one reference. Either way every other page of the user's half has the entry it
-- had, user code reads the same byte at every offset of every page of the user's half, no byte of
-- any page that was in use changes, and no page but the table of that page changes its words. If
-- the page had another reference, the new one was free.
pub page_fault-Resolves :
    (err pd cr2 pte : ℕ) (s : Vm)
    → pf_present err ≡ true
    → pf_write err ≡ true
    → pf_user err ≡ true
    → 0x08000000 ≤ cr2
    → cr2 < kernel_virt_base
    → IsSpace (frame_of pd) s
    → Owned (frame_of pd) s
    → walk (frame_of pd) (cr2 / page_size) s ≡ some pte
    → is_cow pte ≡ true
    → Resolves (frame_of pd) (cr2 / page_size) pte s (page_fault err cr2 (some pd) s)
unfolding page_fault
page_fault-Resolves err pd cr2 pte s pr wr us lo hi sp own h cow =
    let below : ltb cr2 kernel_virt_base ≡ true = ground arith in
    rw (pr, wr, us, below) (resolve_cow-Resolves pd cr2 pte s sp own (omega arith) h cow)
