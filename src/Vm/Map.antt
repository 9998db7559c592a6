-- ===== src/Vm/Map.antt =====
-- `uvm_map` of kernel/uvm.c against an address space as a map from virtual pages to entries.
use ali_os.Base.{
  ℕ, ◌/◌, ◌%◌, ◌≤◌, ◌<◌, ◌≡◌, ◌≢◌, ◌∙◌, refl, ap, sym, Bool, true, false, ◌&&◌, Option, none, some,
  if◌then◌else◌, ◌==◌, inl, inr, Bool-cases, arith,
}
use ali_os.Pmm.{page_is_free}
use ali_os.Pmm.Fresh.{Pages}
use ali_os.Vm.{Vm, is_present, is_user, is_writable, frame_of, set_word}

-- A directory entry under which user code may read and write: the processor asks for both rights in
-- the directory's entry as well as in the table's.
abbrev pub grants : ℕ → Bool
grants pde = is_present pde && (is_user pde && is_writable pde)

-- The entry that the processor goes by for virtual page `v` in user mode, under the directory in page
-- `dir`: a present entry behind a directory entry that leaves the rights to it.
unfoldable pub walk : ℕ → ℕ → Vm → Option ℕ
walk dir v s =
    let pde = s.tables dir (v / 1024) in
    let pte = s.tables (frame_of pde) (v % 1024) in
    if grants pde && is_present pte then some pte else none

-- Directory entries 32 to 767, which `uvm_map` is for.
abbrev pub IsUserIndex : ℕ → Type 0
IsUserIndex i = (32 ≤ i) × (i < 768)

-- The directory and the tables of an address space are in use, none of these pages is shared, and the
-- directory grants user code the rights that an entry of a table has.
pub record IsSpace (dir : ℕ) (s : Vm) : Type 0 where
  pub pages : Pages s.pages
  pub dir_used : page_is_free s.pages.bitmap dir ≡ false
  pub table_used :
      (i : ℕ)
      → IsUserIndex i
      → is_present (s.tables dir i) ≡ true
      → page_is_free s.pages.bitmap (frame_of (s.tables dir i)) ≡ false
  pub table_grants :
      (i : ℕ) → IsUserIndex i → is_present (s.tables dir i) ≡ true → grants (s.tables dir i) ≡ true
  pub table_ne :
      (i : ℕ) → IsUserIndex i → is_present (s.tables dir i) ≡ true → dir ≢ frame_of (s.tables dir i)
  pub table_apart :
      (i j : ℕ)
      → IsUserIndex i
      → IsUserIndex j
      → i ≢ j
      → is_present (s.tables dir i) ≡ true
      → is_present (s.tables dir j) ≡ true
      → frame_of (s.tables dir i) ≢ frame_of (s.tables dir j)

-- The map with virtual page `v` at `w`.
abbrev pub mapped : (ℕ → Option ℕ) → ℕ → ℕ → ℕ → Option ℕ
mapped m v w q = if q == v then some w else m q

pub set_word_self : (p i w : ℕ) (t : ℕ → ℕ → ℕ) → set_word p i w t p i ≡ w
set_word_self p i w t = ground arith

pub set_word_at :
    (p i w j : ℕ) (t : ℕ → ℕ → ℕ) → set_word p i w t p j ≡ (if i == j then w else t p j)
set_word_at p i w j t = ground arith

pub set_word_ne : (p i w q j : ℕ) (t : ℕ → ℕ → ℕ) → p ≢ q → set_word p i w t q j ≡ t q j
set_word_ne p i w q j t n = ground arith

-- What `walk` finds, from the two entries on its way.
abbrev pub found : ℕ → ℕ → Option ℕ
found pde pte = if grants pde && is_present pte then some pte else none

pub walk-found :
    (dir v pde pte : ℕ) (s : Vm)
    → s.tables dir (v / 1024) ≡ pde
    → s.tables (frame_of pde) (v % 1024) ≡ pte
    → walk dir v s ≡ found pde pte
unfolding walk
walk-found dir v pde pte s e f = rw (e, f)

pub walk_absent :
    (dir v : ℕ) (s : Vm) → is_present (s.tables dir (v / 1024)) ≡ false → walk dir v s ≡ none
unfolding walk
walk_absent dir v s e = rw e

pub walk_same :
    (dir v : ℕ) (s s' : Vm)
    → s'.tables dir (v / 1024) ≡ s.tables dir (v / 1024)
    → s'.tables (frame_of (s.tables dir (v / 1024))) (v % 1024)
      ≡ s.tables (frame_of (s.tables dir (v / 1024))) (v % 1024)
    → walk dir v s' ≡ walk dir v s
walk_same dir v s s' e f =
    walk-found dir v (s.tables dir (v / 1024))
      (s.tables (frame_of (s.tables dir (v / 1024))) (v % 1024)) s' e f
    ∙ sym (walk-found dir v _ _ s refl refl)

page_eq : (q v : ℕ) → q / 1024 ≡ v / 1024 → (v % 1024 == q % 1024) ≡ (q == v)
page_eq q v e = ground arith

page_ne : (q v : ℕ) → q / 1024 ≢ v / 1024 → (q == v) ≡ false
page_ne q v n = ground (arith, n)

if_found :
    (b : Bool) (pde w old : ℕ)
    → grants pde ≡ true
    → is_present w ≡ true
    → found pde (if b then w else old) ≡ (if b then some w else found pde old)
if_found true pde w old p q = rw (p, q)
if_found false pde w old p q = refl

-- A write to the table of entry `v / 1024` of the directory.
module _ (dir v w : ℕ) (s : Vm) (sp : IsSpace dir s) (uv : IsUserIndex (v / 1024))
    (pw : is_present w ≡ true) (pv : is_present (s.tables dir (v / 1024)) ≡ true) where
  abbrev pub written : Vm
  written = record s {
    tables = set_word (frame_of (s.tables dir (v / 1024))) (v % 1024) w s.tables;
  }

  pub written_dir : (j : ℕ) → written.tables dir j ≡ s.tables dir j
  written_dir j =
      set_word_ne (frame_of (s.tables dir (v / 1024))) (v % 1024) w dir j s.tables
        (λ e. sp.table_ne (v / 1024) uv pv (sym e))

  walk-written_in :
      (q : ℕ) → q / 1024 ≡ v / 1024 → walk dir q written ≡ mapped (λ u. walk dir u s) v w q
  walk-written_in q e =
      let pde = s.tables dir (v / 1024) in
      let at : written.tables (frame_of pde) (q % 1024)
          ≡ (if v % 1024 == q % 1024 then w else s.tables (frame_of pde) (q % 1024)) =
        set_word_at (frame_of pde) (v % 1024) w (q % 1024) s.tables in
      walk-found dir q pde (if v % 1024 == q % 1024 then w else s.tables (frame_of pde) (q % 1024))
        written (written_dir (q / 1024) ∙ ap (s.tables dir) e) at
      ∙ if_found (v % 1024 == q % 1024) pde w (s.tables (frame_of pde) (q % 1024))
          (sp.table_grants (v / 1024) uv pv) pw
      ∙ ap (λ b. if b then some w else found pde (s.tables (frame_of pde) (q % 1024)))
          (page_eq q v e)
      ∙ ap (λ o. if q == v then some w else o)
          (sym (
            walk-found dir q pde (s.tables (frame_of pde) (q % 1024)) s (ap (s.tables dir) e) refl))

  walk-written_out :
      (q : ℕ)
      → IsUserIndex (q / 1024)
      → q / 1024 ≢ v / 1024
      → walk dir q written ≡ mapped (λ u. walk dir u s) v w q
  walk-written_out q uq n =
      let pde = s.tables dir (q / 1024) in
      rw (page_ne q v n) (elim (Bool-cases (is_present pde)) [
        | inl p ↦ walk_same dir q s written (written_dir (q / 1024)) (
            set_word_ne (frame_of (s.tables dir (v / 1024))) (v % 1024) w (frame_of pde) (q % 1024)
              s.tables (λ e. sp.table_apart (q / 1024) (v / 1024) uq uv n p pv (sym e)))
        | inr a ↦
            walk_absent dir q written (rw (written_dir (q / 1024)) a) ∙ sym (walk_absent dir q s a)
      ])

  pub walk-written :
      (q : ℕ) → IsUserIndex (q / 1024) → walk dir q written ≡ mapped (λ u. walk dir u s) v w q
  walk-written q uq = elim (Bool-cases (q / 1024 == v / 1024)) [
    | inl e ↦ walk-written_in q (ground arith)
    | inr n ↦ walk-written_out q uq (λ e. ground arith)
  ]

  pub written-IsSpace : IsSpace dir written
  written-IsSpace = record {
    pages = sp.pages;
    dir_used = sp.dir_used;
    table_used = λ i u p. rw (written_dir i) (sp.table_used i u (rw (← written_dir i) p));
    table_grants = λ i u p. rw (written_dir i) (sp.table_grants i u (rw (← written_dir i) p));
    table_ne = λ i u p. rw (written_dir i) (sp.table_ne i u (rw (← written_dir i) p));
    table_apart = λ i j ui uj n p q.
        rw (written_dir i, written_dir j)
          (sp.table_apart i j ui uj n (rw (← written_dir i) p) (rw (← written_dir j) q));
  }
