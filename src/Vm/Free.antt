-- ===== src/Vm/Free.antt =====
-- `uvm_free` of kernel/uvm.c: which pages it gives back.
use ali_os.Base.{
  ℕ, zero, suc, ◌+◌, ◌*◌, ◌/◌, ◌≤◌, ◌<◌, ◌≡◌, ◌∙◌, refl, true, ◌==◌, inl, inr, Bool-cases, arith,
}
use ali_os.Pmm.{Pmm, page_size, pages_max, page_is_free, pmm_alloc, pmm_free}
use ali_os.Pmm.Bitmap.{page_is_free-set_free}
use ali_os.Pmm.Alloc.{IsValid, pmm_free-IsValid, pmm_alloc-Allocates}
use ali_os.Vm.{
  Vm, is_present, frame_of, free_entry, free_entries, free_table, free_tables, uvm_free, uvm_create,
}

-- Page `p` is one that a single `pmm_free` gives back.
abbrev pub Light : ℕ → Pmm → Type 0
Light p s = IsValid s × (s.page_refs p ≤ 1)

abbrev pub Gone : ℕ → Pmm → Type 0
Gone p s = IsValid s × (page_is_free s.bitmap p ≡ true)

pmm_free-Light : (p addr : ℕ) (s : Pmm) → Light p s → Light p (pmm_free addr s)
unfolding pmm_free
pmm_free-Light p addr s (v, l) = (pmm_free-IsValid addr s v, ground arith)

pmm_free-Gone : (p addr : ℕ) (s : Pmm) → Gone p s → Gone p (pmm_free addr s)
unfolding pmm_free
pmm_free-Gone p addr s (v, g) = (
  pmm_free-IsValid addr s v,
  ground (arith, page_is_free-set_free s.bitmap (addr / page_size) p v.bytes),
)

pmm_free_last : (p : ℕ) (s : Pmm) → p < pages_max → Light p s → Gone p (pmm_free (p * page_size) s)
unfolding pmm_free
pmm_free_last p s lt (v, l) =
    let e : p * page_size / page_size ≡ p = omega arith in
    (
      pmm_free-IsValid (p * page_size) s v,
      rw e (ground (arith, page_is_free-set_free s.bitmap p p v.bytes)),
    )

-- What every `pmm_free` keeps, the loops keep.
module _ (K : Pmm → Type 0) (keep : (addr : ℕ) (s : Pmm) → K s → K (pmm_free addr s)) where
  free_entry_inv : (j q : ℕ) (s : Vm) → K s.pages → K (free_entry j q s).pages
  unfolding free_entry
  free_entry_inv j q s k = elim (Bool-cases (is_present (s.tables q j))) [
    | inl e ↦ rw e (keep _ s.pages k)
    | inr e ↦ rw e k
  ]

  free_entries_inv : (left j q : ℕ) (s : Vm) → K s.pages → K (free_entries left j q s).pages
  unfolding free_entries
  free_entries_inv zero j q s k = k
  free_entries_inv (suc left) j q s k =
      free_entries_inv left (j + 1) q (free_entry j q s) (free_entry_inv j q s k)

  free_table_inv : (dir i : ℕ) (s : Vm) → K s.pages → K (free_table dir i s).pages
  unfolding free_table
  free_table_inv dir i s k = elim (Bool-cases (is_present (s.tables dir i))) [
    | inl e ↦ rw e (keep _ _ (free_entries_inv 1024 0 (frame_of (s.tables dir i)) s k))
    | inr e ↦ rw e k
  ]

  free_tables_inv : (left i dir : ℕ) (s : Vm) → K s.pages → K (free_tables left i dir s).pages
  unfolding free_tables
  free_tables_inv zero i dir s k = k
  free_tables_inv (suc left) i dir s k =
      free_tables_inv left (i + 1) dir (free_table dir i s) (free_table_inv dir i s k)

free_entry_tables : (j q : ℕ) (s : Vm) → (free_entry j q s).tables ≡ s.tables
unfolding free_entry
free_entry_tables j q s = ground arith

free_entries_tables : (left j q : ℕ) (s : Vm) → (free_entries left j q s).tables ≡ s.tables
unfolding free_entries
free_entries_tables zero j q s = refl
free_entries_tables (suc left) j q s =
    free_entries_tables left (j + 1) q (free_entry j q s) ∙ free_entry_tables j q s

free_table_tables : (dir i : ℕ) (s : Vm) → (free_table dir i s).tables ≡ s.tables
unfolding free_table
free_table_tables dir i s = elim (Bool-cases (is_present (s.tables dir i))) [
  | inl e ↦ rw e (free_entries_tables 1024 0 (frame_of (s.tables dir i)) s)
  | inr e ↦ rw e refl
]

-- The entry that is reached gives its page back.
free_entry-Gone :
    (k q p : ℕ) (s : Vm)
    → is_present (s.tables q k) ≡ true
    → frame_of (s.tables q k) ≡ p
    → p < pages_max
    → Light p s.pages
    → Gone p (free_entry k q s).pages
unfolding free_entry
free_entry-Gone k q p s e f lt l = rw (e, f) (pmm_free_last p s.pages lt l)

free_entries-Gone :
    (left j k q p : ℕ) (s : Vm)
    → j ≤ k
    → k < j + left
    → is_present (s.tables q k) ≡ true
    → frame_of (s.tables q k) ≡ p
    → p < pages_max
    → Light p s.pages
    → Gone p (free_entries left j q s).pages
unfolding free_entries
free_entries-Gone zero j k q p s lo hi e f lt l = absurd (omega arith)
free_entries-Gone (suc left) j k q p s lo hi e f lt l = elim (Bool-cases (j == k)) [
  | inl at ↦
      let same : j ≡ k = ground arith in
      rw same (
        free_entries_inv (Gone p) (pmm_free-Gone p) left (k + 1) q (free_entry k q s)
          (free_entry-Gone k q p s e f lt l))
  | inr later ↦
      free_entries-Gone left (j + 1) k q p (free_entry j q s) (ground arith) (omega arith)
        (rw (free_entry_tables j q s) e) (rw (free_entry_tables j q s) f) lt
        (free_entry_inv (Light p) (pmm_free-Light p) j q s l)
]

-- Entry `k` of the table of entry `i` of the directory is a present one for page `p`.
pub record Reaches (dir i k p : ℕ) (s : Vm) : Type 0 where
  pub index : k < 1024
  pub table_there : is_present (s.tables dir i) ≡ true
  pub page_there : is_present (s.tables (frame_of (s.tables dir i)) k) ≡ true
  pub leads : frame_of (s.tables (frame_of (s.tables dir i)) k) ≡ p
  pub page_lt : p < pages_max

free_table-Gone :
    (dir i k p : ℕ) (s : Vm)
    → Reaches dir i k p s
    → Light p s.pages
    → Gone p (free_table dir i s).pages
unfolding free_table
free_table-Gone dir i k p s r l = rw r.table_there (
    pmm_free-Gone p _ _ (
      free_entries-Gone 1024 0 k (frame_of (s.tables dir i)) p s (omega arith) r.index r.page_there
        r.leads r.page_lt l))

Reaches-tables :
    (dir i k p : ℕ) (s s' : Vm) → s'.tables ≡ s.tables → Reaches dir i k p s → Reaches dir i k p s'
Reaches-tables dir i k p s s' e r = record {
  index = r.index;
  table_there = rw e r.table_there;
  page_there = rw e r.page_there;
  leads = rw e r.leads;
  page_lt = r.page_lt;
}

free_tables-Gone :
    (left i dir m k p : ℕ) (s : Vm)
    → i ≤ m
    → m < i + left
    → Reaches dir m k p s
    → Light p s.pages
    → Gone p (free_tables left i dir s).pages
unfolding free_tables
free_tables-Gone zero i dir m k p s lo hi r l = absurd (omega arith)
free_tables-Gone (suc left) i dir m k p s lo hi r l = elim (Bool-cases (i == m)) [
  | inl at ↦
      let same : i ≡ m = ground arith in
      rw same (
        free_tables_inv (Gone p) (pmm_free-Gone p) left (m + 1) dir (free_table dir m s)
          (free_table-Gone dir m k p s r l))
  | inr later ↦
      free_tables-Gone left (i + 1) dir m k p (free_table dir i s) (ground arith) (omega arith)
        (Reaches-tables dir m k p s (free_table dir i s) (free_table_tables dir i s) r)
        (free_table_inv (Light p) (pmm_free-Light p) dir i s l)
]

-- `uvm_free` gives back every page that a present entry below entry 768 of the directory leads to, if
-- the page had at most one reference: the pages of the identity map of entries 0 to 31 as well.
pub uvm_free-Gone :
    (pd i k p : ℕ) (s : Vm)
    → i < 768
    → Reaches (frame_of pd) i k p s
    → Light p s.pages
    → Gone p (uvm_free pd s).pages
unfolding uvm_free
uvm_free-Gone pd i k p s lt r l =
    pmm_free-Gone p pd _ (free_tables-Gone 768 0 (frame_of pd) i k p s (omega arith) lt r l)

-- With page 0 free, `pmm_alloc` hands out page 0, whose address is the 0 of its failure.
pmm_alloc_zero : (s : Pmm) → page_is_free s.bitmap 0 ≡ true → (pmm_alloc s).0 ≡ 0
pmm_alloc_zero s f =
    let a = pmm_alloc-Allocates s in
    elim a.outcome [
      | inl (e, none_free) ↦ absurd (cc (none_free 0 (omega arith) (omega arith), f))
      | inr (e, _, _, _, lowest) ↦ elim (Bool-cases (a.page == 0)) [
        | inl z ↦ let first : a.page ≡ 0 = ground arith in rw e (omega arith)
        | inr n ↦ absurd (cc (lowest 0 (omega arith) (ground arith), f))
      ]
    ]

-- The address space that `uvm_create` makes maps page 0 by its entry 0, like every one; so after
-- `uvm_free` of it, page 0 having at most one reference, page 0 is free, and the next `uvm_create`
-- fails however many pages are free.
pub uvm_free-uvm_create :
    (pd : ℕ) (s : Vm)
    → Reaches (frame_of pd) 0 0 0 s
    → Light 0 s.pages
    → (page_is_free (uvm_free pd s).pages.bitmap 0 ≡ true) × ((uvm_create (uvm_free pd s)).0 ≡ 0)
unfolding uvm_create
uvm_free-uvm_create pd s r l =
    let g = uvm_free-Gone pd 0 0 0 s (omega arith) r l in
    (g.1, ground (arith, pmm_alloc_zero (uvm_free pd s).pages g.1))
