-- ===== src/Vm/Pair.antt =====
-- `uvm_clone` of kernel/uvm.c works on two address spaces at once, a parent's and a child's: they keep apart.
use ali_os.Base.{
  ℕ, ◌*◌, ◌/◌, ◌%◌, ◌≤◌, ◌<◌, arith, ◌≡◌, ◌≢◌, ◌∙◌, refl, ap, sym, Bool, true, false, ◌&&◌, ltb,
  inl, inr, Bool-cases,
}
use ali_os.Pmm.{Pmm, page_size, pages_max, page_is_free, pmm_addref}
use ali_os.Pmm.Alloc.{pmm_addref-IsValid}
use ali_os.Pmm.Fresh.{Pages}
use ali_os.Vm.{Vm, is_present, frame_of, set_word}
use ali_os.Vm.Map.{walk, IsUserIndex, IsSpace, walk_same, walk_absent, written-IsSpace}
use ali_os.Vm.Table.{ne_of_free}
use ali_os.Vm.Refines.{Maps, IsNoTable, set_word_elsewhere}

-- The address spaces in directories `p` and `c` have no page of their tables in common.
pub record Apart (p c : ℕ) (s : Vm) : Type 0 where
  pub parent : IsSpace p s
  pub child : IsSpace c s
  pub dirs_ne : p ≢ c
  pub child_dir : IsNoTable p c s
  pub parent_dir : IsNoTable c p s
  pub tables_apart :
      (i j : ℕ)
      → IsUserIndex i
      → IsUserIndex j
      → is_present (s.tables p i) ≡ true
      → is_present (s.tables c j) ≡ true
      → frame_of (s.tables p i) ≢ frame_of (s.tables c j)

-- A walk in an address space whose directory and tables are the same in both states.
pub walk_kept :
    (d q : ℕ) (s s' : Vm)
    → s'.tables d ≡ s.tables d
    → (is_present (s.tables d (q / 1024)) ≡ true
        → s'.tables (frame_of (s.tables d (q / 1024)))
          ≡ s.tables (frame_of (s.tables d (q / 1024))))
    → walk d q s' ≡ walk d q s
walk_kept d q s s' e f = elim (Bool-cases (is_present (s.tables d (q / 1024)))) [
  | inl pr ↦
      walk_same d q s s' (ap (λ (t : ℕ → ℕ). t (q / 1024)) e)
        (ap (λ (t : ℕ → ℕ). t (q % 1024)) (f pr))
  | inr a ↦ walk_absent d q s' (rw e a) ∙ sym (walk_absent d q s a)
]

-- A call of `uvm_map` for the child.
module _ (p c v w : ℕ) (s : Vm) (out : Bool × Vm) (a : Apart p c s) (m : Maps c v w s out) where
  pub parent_tables : out.1.tables p ≡ s.tables p
  parent_tables = m.elsewhere p a.parent.dir_used a.dirs_ne a.parent_dir

  parent_table :
      (i : ℕ)
      → IsUserIndex i
      → is_present (s.tables p i) ≡ true
      → out.1.tables (frame_of (s.tables p i)) ≡ s.tables (frame_of (s.tables p i))
  parent_table i ui pr =
      m.elsewhere (frame_of (s.tables p i)) (a.parent.table_used i ui pr) (a.child_dir i ui pr)
        (λ j uj pj e. a.tables_apart i j ui uj pr pj (sym e))

  pub parent_walk : (q : ℕ) → IsUserIndex (q / 1024) → walk p q out.1 ≡ walk p q s
  parent_walk q uq = walk_kept p q s out.1 parent_tables (parent_table (q / 1024) uq)

  parent-IsSpace : IsSpace p out.1
  parent-IsSpace = record {
    pages = m.space.pages;
    dir_used = m.in_use p a.parent.dir_used;
    table_used = λ i u. rw parent_tables (λ pr. m.in_use _ (a.parent.table_used i u pr));
    table_grants = rw parent_tables a.parent.table_grants;
    table_ne = rw parent_tables a.parent.table_ne;
    table_apart = rw parent_tables a.parent.table_apart;
  }

  -- A page in use that was none of the child's tables is none of them now.
  none_before :
      (x j : ℕ)
      → IsUserIndex j
      → page_is_free s.pages.bitmap x ≡ false
      → (is_present (s.tables c j) ≡ true → frame_of (s.tables c j) ≢ x)
      → is_present (out.1.tables c j) ≡ true
      → frame_of (out.1.tables c j) ≢ x
  none_before x j uj used before pr = elim (m.origin j uj pr) [
    | inl (pr', e) ↦ rw e (before pr')
    | inr free ↦ ne_of_free s.pages.bitmap _ x free used
  ]

  pub mapped-Apart : Apart p c out.1
  mapped-Apart = record {
    parent = parent-IsSpace;
    child = m.space;
    dirs_ne = a.dirs_ne;
    child_dir = λ i u. rw parent_tables (a.child_dir i u);
    parent_dir = λ j u pr. none_before p j u a.parent.dir_used (a.parent_dir j u) pr;
    tables_apart = λ i j ui uj. rw parent_tables (λ pi pj e.
        none_before (frame_of (s.tables p i)) j uj (a.parent.table_used i ui pi)
          (λ pj' e'. a.tables_apart i j ui uj pi pj' (sym e')) pj (sym e));
  }

-- A write to an entry of a table of the parent.
module _ (p c v w : ℕ) (s : Vm) (a : Apart p c s) (uv : IsUserIndex (v / 1024))
    (pw : is_present w ≡ true) (pv : is_present (s.tables p (v / 1024)) ≡ true) where
  abbrev pub after : Vm
  after = record s { tables = set_word (frame_of (s.tables p (v / 1024))) (v % 1024) w s.tables }

  child_same : after.tables c ≡ s.tables c
  child_same =
      set_word_elsewhere (frame_of (s.tables p (v / 1024))) (v % 1024) w c s.tables
        (a.child_dir (v / 1024) uv pv)

  pub parent_same : after.tables p ≡ s.tables p
  parent_same =
      set_word_elsewhere (frame_of (s.tables p (v / 1024))) (v % 1024) w p s.tables
        (λ e. a.parent.table_ne (v / 1024) uv pv (sym e))

  pub child_walk : (q : ℕ) → IsUserIndex (q / 1024) → walk c q after ≡ walk c q s
  child_walk q uq = walk_kept c q s after child_same (λ pr.
      set_word_elsewhere (frame_of (s.tables p (v / 1024))) (v % 1024) w
        (frame_of (s.tables c (q / 1024))) s.tables
        (a.tables_apart (v / 1024) (q / 1024) uv uq pv pr))

  pub written-Apart : Apart p c after
  written-Apart = record {
    parent = written-IsSpace p v w s a.parent uv pw pv;
    child = record {
      pages = a.child.pages;
      dir_used = a.child.dir_used;
      table_used = rw child_same a.child.table_used;
      table_grants = rw child_same a.child.table_grants;
      table_ne = rw child_same a.child.table_ne;
      table_apart = rw child_same a.child.table_apart;
    };
    dirs_ne = a.dirs_ne;
    child_dir = rw parent_same a.child_dir;
    parent_dir = rw child_same a.parent_dir;
    tables_apart = rw (parent_same, child_same) a.tables_apart;
  }

addref_same :
    (addr : ℕ) (s : Pmm)
    → ((pmm_addref addr s).bitmap ≡ s.bitmap) × ((pmm_addref addr s).free_count ≡ s.free_count)
unfolding pmm_addref
addref_same addr s =
    elim (Bool-cases
      (ltb (addr / page_size) pages_max && ltb (s.page_refs (addr / page_size)) 255)) [
        | inl e ↦ rw e (refl, refl)
        | inr e ↦ rw e (refl, refl)
      ]

-- `pmm_addref` touches no bit of the bitmap, and not the counter.
pub addref_pages :
    (addr : ℕ) (s : Pmm)
    → Pages s
    → (Pages (pmm_addref addr s))
      × ((pmm_addref addr s).bitmap ≡ s.bitmap)
      × ((pmm_addref addr s).free_count ≡ s.free_count)
addref_pages addr s v =
    let same : ((pmm_addref addr s).bitmap ≡ s.bitmap)
        × ((pmm_addref addr s).free_count ≡ s.free_count) =
      addref_same addr s in
    (
      record { valid = pmm_addref-IsValid addr s v.valid; zero_used = rw same.0 v.zero_used },
      same.0,
      same.1,
    )

abbrev pub noted : ℕ → Vm → Vm
noted phys s = record s { pages = pmm_addref phys s.pages }

noted-IsSpace : (phys d : ℕ) (s : Vm) → IsSpace d s → IsSpace d (noted phys s)
noted-IsSpace phys d s sp =
    let a = addref_pages phys s.pages sp.pages in
    record {
      pages = a.0;
      dir_used = rw a.1 sp.dir_used;
      table_used = λ i u pr. rw a.1 (sp.table_used i u pr);
      table_grants = sp.table_grants;
      table_ne = sp.table_ne;
      table_apart = sp.table_apart;
    }

pub noted-Apart : (phys p c : ℕ) (s : Vm) → Apart p c s → Apart p c (noted phys s)
noted-Apart phys p c s a = record {
  parent = noted-IsSpace phys p s a.parent;
  child = noted-IsSpace phys c s a.child;
  dirs_ne = a.dirs_ne;
  child_dir = a.child_dir;
  parent_dir = a.parent_dir;
  tables_apart = a.tables_apart;
}

pub walk-noted : (phys d q : ℕ) (s : Vm) → walk d q (noted phys s) ≡ walk d q s
walk-noted phys d q s = walk_same d q s (noted phys s) refl refl

-- `pmm_addref` takes no reference away, and counts one more to its page, up to 255.
pub more_refs : (addr x : ℕ) (s : Pmm) → s.page_refs x ≤ (pmm_addref addr s).page_refs x
unfolding pmm_addref
more_refs addr x s = ground arith

pub one_more :
    (x : ℕ) (s : Pmm)
    → x < pages_max
    → 1 ≤ s.page_refs x
    → 2 ≤ (pmm_addref (x * page_size) s).page_refs x
unfolding pmm_addref
one_more x s lt one = let e : x * page_size / page_size ≡ x = omega arith in rw e (ground arith)

pub Apart-swap : (p c : ℕ) (s : Vm) → Apart p c s → Apart c p s
Apart-swap p c s a = record {
  parent = a.child;
  child = a.parent;
  dirs_ne = λ e. a.dirs_ne (sym e);
  child_dir = a.parent_dir;
  parent_dir = a.child_dir;
  tables_apart = λ i j ui uj pi pj e. a.tables_apart j i uj ui pj pi (sym e);
}
