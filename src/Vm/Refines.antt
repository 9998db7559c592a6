-- ===== src/Vm/Refines.antt =====
-- `uvm_map` of kernel/uvm.c against its contract: an address space as a map from virtual pages to
-- entries, of which one is set.
use ali_os.Base.{
  ℕ, ◌*◌, ◌/◌, ◌%◌, ◌≡◌, ◌≢◌, ◌+◌, ◌≤◌, ◌⊎◌, sym, update, update_ne, ◌∙◌, refl, ap, Bool, true,
  false, some, if◌then◌else◌, ◌==◌, inl, inr, Bool-cases, arith,
}
use mathlib.Core.Path.{subst}
use ali_os.Pmm.{Pmm, page_size, page_is_free, pmm_alloc}
use ali_os.Pmm.Alloc.{pmm_alloc-count, pmm_alloc-Allocates}
use ali_os.Pmm.Fresh.{Pages, pmm_alloc-Grown}
use ali_os.Vm.{Vm, is_present, frame_of, entry, set_word, uvm_map}
use ali_os.Vm.Map.{
  walk, IsUserIndex, IsSpace, mapped, walk_same, walk-written, written_dir, written-IsSpace,
}
use ali_os.Vm.Table.{
  with_table, frame_self, frame_cases, ne_of_free, entry_present, walk-with_table,
  with_table-IsSpace,
}
use ali_os.Vm.Ways.{set_in, uvm_map_found, uvm_map_failed, uvm_map_fresh}

-- Page `p` is no table of the user's half of the directory.
abbrev pub IsNoTable : ℕ → ℕ → Vm → Type 0
IsNoTable dir p s =
    (i : ℕ) → IsUserIndex i → is_present (s.tables dir i) ≡ true → frame_of (s.tables dir i) ≢ p

-- What `uvm_map` does to the address space.
pub record Maps (dir v w : ℕ) (s : Vm) (out : Bool × Vm) : Type 0 where
  pub space : IsSpace dir out.1
  pub done :
      out.0 ≡ true
      → (q : ℕ) → IsUserIndex (q / 1024)
      → walk dir q out.1 ≡ mapped (λ u. walk dir u s) v w q
  pub failed :
      out.0 ≡ false → (s.pages.free_count ≡ 0) × ((q : ℕ) → walk dir q out.1 ≡ walk dir q s)
  pub exhausted : out.0 ≡ false → out.1.pages.free_count ≡ 0
  pub same_bytes : out.1.bytes ≡ s.bytes
  pub count : s.pages.free_count ≤ out.1.pages.free_count + 1
  pub in_use :
      (p : ℕ) → page_is_free s.pages.bitmap p ≡ false → page_is_free out.1.pages.bitmap p ≡ false
  pub same_refs :
      (p : ℕ)
      → page_is_free s.pages.bitmap p ≡ false
      → out.1.pages.page_refs p ≡ s.pages.page_refs p
  -- Every other page in use that is not a table of this address space.
  pub elsewhere :
      (p : ℕ)
      → page_is_free s.pages.bitmap p ≡ false
      → p ≢ dir
      → IsNoTable dir p s
      → out.1.tables p ≡ s.tables p
  -- A table of the address space was one before, or was free.
  pub origin :
      (i : ℕ)
      → IsUserIndex i
      → is_present (out.1.tables dir i) ≡ true
      → ((is_present (s.tables dir i) ≡ true)
          × (frame_of (out.1.tables dir i) ≡ frame_of (s.tables dir i)))
        ⊎ (page_is_free s.pages.bitmap (frame_of (out.1.tables dir i)) ≡ true)

entry_present' : (phys flags : ℕ) → is_present (entry phys flags) ≡ true
entry_present' phys flags = ground arith

-- Pages that are in use still are.
pub with_pages :
    (dir : ℕ) (s : Vm) (after : Pmm)
    → IsSpace dir s
    → Pages after
    → ((q : ℕ) → page_is_free s.pages.bitmap q ≡ false → page_is_free after.bitmap q ≡ false)
    → IsSpace dir (record s { pages = after })
with_pages dir s after sp pages kept = record {
  pages = pages;
  dir_used = kept dir sp.dir_used;
  table_used = λ i u p. kept _ (sp.table_used i u p);
  table_grants = sp.table_grants;
  table_ne = sp.table_ne;
  table_apart = sp.table_apart;
}

pub set_word_elsewhere : (p i w q : ℕ) (t : ℕ → ℕ → ℕ) → p ≢ q → set_word p i w t q ≡ t q
set_word_elsewhere p i w q t n = update_ne t p q (update (t p) i w) n

-- An allocation counts one reference to the page that it takes, and leaves the pages in use alone.
pub alloc_refs :
    (s : Pmm) (q : ℕ)
    → page_is_free s.bitmap q ≡ false
    → (pmm_alloc s).1.page_refs q ≡ s.page_refs q
alloc_refs s q u =
    let a = pmm_alloc-Allocates s in
    elim a.outcome [
      | inl (e, _) ↦ rw e refl
      | inr (e, _, _, free, _) ↦
          rw e (update_ne s.page_refs a.page q 1 (ne_of_free s.bitmap a.page q free u))
    ]

origin_by :
    (dir v w p i : ℕ) (s : Vm) (after : Pmm)
    → IsSpace dir s
    → IsUserIndex (v / 1024)
    → IsUserIndex i
    → page_is_free s.pages.bitmap p ≡ true
    → page_is_free after.bitmap p ≡ false
    → ((q : ℕ) → page_is_free s.pages.bitmap q ≡ false → page_is_free after.bitmap q ≡ false)
    → Pages after
    → is_present (s.tables dir (v / 1024)) ≡ false
    → is_present ((with_table dir (v / 1024) p after s).tables dir i) ≡ true
    → ((is_present (s.tables dir i) ≡ true)
        × (frame_of ((with_table dir (v / 1024) p after s).tables dir i)
            ≡ frame_of (s.tables dir i)))
      ⊎ (page_is_free s.pages.bitmap (frame_of ((with_table dir (v / 1024) p after s).tables dir i))
          ≡ true)
origin_by dir v w p i s after sp uv ui free used kept pages a pr =
    elim (frame_cases dir (v / 1024) p s after sp uv free used kept pages a i ui pr) [
      | inl (_, f) ↦ inr (rw f free)
      | inr (_, pr', f) ↦ inl (pr', f)
    ]

fresh-Maps :
    (dir v w p : ℕ) (s : Vm) (after : Pmm)
    → IsSpace dir s
    → IsUserIndex (v / 1024)
    → page_is_free s.pages.bitmap p ≡ true
    → page_is_free after.bitmap p ≡ false
    → ((q : ℕ) → page_is_free s.pages.bitmap q ≡ false → page_is_free after.bitmap q ≡ false)
    → Pages after
    → is_present (s.tables dir (v / 1024)) ≡ false
    → is_present w ≡ true
    → s.pages.free_count ≤ after.free_count + 1
    → ((q : ℕ) → page_is_free s.pages.bitmap q ≡ false → after.page_refs q ≡ s.pages.page_refs q)
    → Maps dir v w s (true, set_in p v w (with_table dir (v / 1024) p after s))
fresh-Maps dir v w p s after sp uv free used kept pages a pw count refs =
    let t = with_table dir (v / 1024) p after s in
    let sp' : IsSpace dir t =
      with_table-IsSpace dir (v / 1024) p s after sp uv free used kept pages a in
    let pv : is_present (t.tables dir (v / 1024)) ≡ true =
      entry_present dir (v / 1024) p s after sp uv free used kept pages a in
    let fr : frame_of (t.tables dir (v / 1024)) ≡ p =
      frame_self dir (v / 1024) p s after sp uv free used kept pages a in
    subst (λ table. Maps dir v w s (true, set_in table v w t)) fr
      (record {
        space = written-IsSpace dir v w t sp' uv pw pv;
        done = λ _ q uq.
            walk-written dir v w t sp' uv pw pv q uq
            ∙ ap (λ o. if q == v then some w else o)
                (walk-with_table dir (v / 1024) p s after sp uv free used kept pages a q uq);
        failed = λ h. cc;
        exhausted = λ h. cc;
        same_bytes = refl;
        count = omega (arith, count);
        in_use = kept;
        same_refs = refs;
        elsewhere = λ q uq n no_table.
            set_word_elsewhere (frame_of (t.tables dir (v / 1024))) (v % 1024) w q t.tables
              (λ e. ne_of_free s.pages.bitmap p q free uq (sym fr ∙ e))
            ∙ set_word_elsewhere dir (v / 1024) (p * 4096 + 7) q (update s.tables p (λ j. 0))
                (λ e. n (sym e))
            ∙ update_ne s.tables p q (λ j. 0) (ne_of_free s.pages.bitmap p q free uq);
        origin = λ i ui pr. rw (written_dir dir v w t sp' uv pw pv i) (
            origin_by dir v w p i s after sp uv ui free used kept pages a
              (rw (← written_dir dir v w t sp' uv pw pv i) pr));
      })

-- Over an address space, mapping a page of the user's half either succeeds or finds no free page.
-- If it succeeds, the walk of the tables finds the new entry at that page and what it found before
-- at every other page of the user's half. It fails only if the counter of free pages is 0, and then
-- no walk changes and the counter stays at 0. Either way no byte of user data changes, at most one
-- page is taken, pages in use stay in use with the references they had, no page in use changes its
-- words unless it is the directory or a table of it, a table that the directory did not have was a
-- free page, and the directory and its tables are still pages in use of which none is shared,
-- behind entries that let user code read and write.
pub uvm_map-Maps :
    (pd virt phys flags : ℕ) (s : Vm)
    → IsSpace (frame_of pd) s
    → IsUserIndex (virt / page_size / 1024)
    → Maps (frame_of pd) (virt / page_size) (entry phys flags) s (uvm_map pd virt phys flags s)
uvm_map-Maps pd virt phys flags s sp uv =
    let dir = frame_of pd in
    let v = virt / page_size in
    let w = entry phys flags in
    elim (Bool-cases (is_present (s.tables dir (v / 1024)))) [
      | inl pv ↦ rw (uvm_map_found pd virt phys flags s pv) (record {
        space = written-IsSpace dir v w s sp uv (entry_present' phys flags) pv;
        done = λ _. walk-written dir v w s sp uv (entry_present' phys flags) pv;
        failed = λ h. cc;
        exhausted = λ h. cc;
        same_bytes = refl;
        count = omega arith;
        in_use = λ p u. u;
        same_refs = λ p u. refl;
        elsewhere = λ p u n no_table.
            set_word_elsewhere (frame_of (s.tables dir (v / 1024))) (v % 1024) w p s.tables
              (no_table (v / 1024) uv pv);
        origin = λ i ui pr. inl (
          rw (← written_dir dir v w s sp uv (entry_present' phys flags) pv i) pr,
          ap (λ x. frame_of x) (written_dir dir v w s sp uv (entry_present' phys flags) pv i),
        );
      })
      | inr a ↦
          let g = pmm_alloc-Grown s.pages sp.pages in
          elim g.outcome [
            | inl (z, same_count) ↦ rw (uvm_map_failed pd virt phys flags s a z) (record {
              space = with_pages dir s (pmm_alloc s.pages).1 sp g.pages g.kept;
              done = λ h. cc;
              failed = λ _. (
                (pmm_alloc-count s.pages sp.pages.valid sp.pages.zero_used).0.0 z,
                λ q. walk_same dir q s _ refl refl,
              );
              exhausted = λ _.
                  same_count ∙ (pmm_alloc-count s.pages sp.pages.valid sp.pages.zero_used).0.0 z;
              same_bytes = refl;
              count = omega (arith, same_count);
              in_use = g.kept;
              same_refs = alloc_refs s.pages;
              elsewhere = λ p u n t. refl;
              origin = λ i u pr. inl (pr, refl);
            })
            | inr (p, e, lt, _, free, used, less) ↦
                rw (uvm_map_fresh pd virt phys flags p s a e lt) (
                  fresh-Maps dir v w p s (pmm_alloc s.pages).1 sp uv free used g.kept g.pages a
                    (entry_present' phys flags) (omega (arith, less)) (alloc_refs s.pages))
          ]
    ]
