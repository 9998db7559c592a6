-- ===== src/Vm/Table.antt =====
-- `uvm_map` of kernel/uvm.c where the directory has no table yet: a page that nothing uses becomes one.
use ali_os.Base.{
  ℕ, ◌+◌, ◌*◌, ◌/◌, ◌%◌, ◌≡◌, ◌≢◌, ◌⊎◌, ◌∙◌, ap, sym, update, update_self, update_ne, true, false,
  none, if◌then◌else◌, ◌==◌, inl, inr, Bool-cases, arith,
}
use ali_os.Pmm.{Pmm, page_is_free}
use ali_os.Pmm.Fresh.{Pages}
use ali_os.Vm.{Vm, is_present, frame_of, set_word}
use ali_os.Vm.Map.{
  walk, IsUserIndex, IsSpace, grants, found, walk_same, walk_absent, walk-found, set_word_ne,
  set_word_at,
}

entry_grants : (p : ℕ) → grants (p * 4096 + 7) ≡ true
entry_grants p = ground arith

found_zero : (pde : ℕ) → found pde 0 ≡ none
found_zero pde = ground arith

pub ne_of_free :
    (bm : ℕ → ℕ) (p q : ℕ) → page_is_free bm p ≡ true → page_is_free bm q ≡ false → p ≢ q
ne_of_free bm p q f u e = cc (ap (page_is_free bm) e)

-- Page `p` becomes the table of entry `i` of directory `dir`.
abbrev pub with_table : ℕ → ℕ → ℕ → Pmm → Vm → Vm
with_table dir i p after s = record s {
  pages = after;
  tables = set_word dir i (p * 4096 + 7) (update s.tables p (λ j. 0));
}

module _ (dir i p : ℕ) (s : Vm) (after : Pmm) (sp : IsSpace dir s) (ui : IsUserIndex i)
    (free : page_is_free s.pages.bitmap p ≡ true) (used : page_is_free after.bitmap p ≡ false)
    (kept : (q : ℕ) → page_is_free s.pages.bitmap q ≡ false → page_is_free after.bitmap q ≡ false)
    (pages : Pages after) (absent : is_present (s.tables dir i) ≡ false) where
  abbrev tabled : Vm
  tabled = with_table dir i p after s

  entry_at : (j : ℕ) → tabled.tables dir j ≡ (if i == j then p * 4096 + 7 else s.tables dir j)
  entry_at j =
      set_word_at dir i (p * 4096 + 7) j (update s.tables p (λ k. 0))
      ∙ ap (λ (t : ℕ → ℕ). if i == j then p * 4096 + 7 else t j)
          (update_ne s.tables p dir (λ k. 0) (ne_of_free s.pages.bitmap p dir free sp.dir_used))

  entry_self : tabled.tables dir i ≡ p * 4096 + 7
  entry_self = ground (arith, entry_at i)

  pub entry_present : is_present (tabled.tables dir i) ≡ true
  entry_present = rw entry_self (ground arith)

  entry_ne : (j : ℕ) → i ≢ j → tabled.tables dir j ≡ s.tables dir j
  entry_ne j n = ground (arith, n, entry_at j)

  pub frame_self : frame_of (tabled.tables dir i) ≡ p
  frame_self = rw entry_self (omega arith)

  old_table :
      (j : ℕ) → IsUserIndex j → is_present (s.tables dir j) ≡ true → p ≢ frame_of (s.tables dir j)
  old_table j uj pj = ne_of_free s.pages.bitmap p _ free (sp.table_used j uj pj)

  cleared : (j : ℕ) → tabled.tables (frame_of (p * 4096 + 7)) j ≡ 0
  cleared j =
      let f : frame_of (p * 4096 + 7) ≡ p = omega arith in
      rw f (
        set_word_ne dir i (p * 4096 + 7) p j (update s.tables p (λ k. 0))
          (λ e. ne_of_free s.pages.bitmap p dir free sp.dir_used (sym e))
        ∙ ap (λ (t : ℕ → ℕ). t j) (update_self s.tables p (λ k. 0)))

  -- The tables: the fresh page or an old one.
  pub frame_cases :
      (j : ℕ)
      → IsUserIndex j
      → is_present (tabled.tables dir j) ≡ true
      → ((i ≡ j) × (frame_of (tabled.tables dir j) ≡ p))
        ⊎ ((i ≢ j)
            × (is_present (s.tables dir j) ≡ true)
            × (frame_of (tabled.tables dir j) ≡ frame_of (s.tables dir j)))
  frame_cases j uj pr = elim (Bool-cases (i == j)) [
    | inl e ↦
        let same : i ≡ j = ground arith in
        inl (same, ap (λ k. frame_of (tabled.tables dir k)) (sym same) ∙ frame_self)
    | inr n ↦
        let other : i ≢ j = λ e. ground arith in
        inr (other, rw (← entry_ne j other) pr, ap (λ w. frame_of w) (entry_ne j other))
  ]

  pub walk-with_table : (q : ℕ) → IsUserIndex (q / 1024) → walk dir q tabled ≡ walk dir q s
  walk-with_table q uq = elim (Bool-cases (i == q / 1024)) [
    | inl e ↦
        let same : i ≡ q / 1024 = ground arith in
        walk-found dir q (p * 4096 + 7) 0 tabled (rw (← same) entry_self) (cleared (q % 1024))
        ∙ found_zero (p * 4096 + 7)
        ∙ sym (walk_absent dir q s (rw (← same) absent))
    | inr n ↦
        let other : i ≢ q / 1024 = λ e. ground arith in
        elim (Bool-cases (is_present (s.tables dir (q / 1024)))) [
          | inl pr ↦ walk_same dir q s tabled (entry_ne (q / 1024) other) (
              set_word_ne dir i (p * 4096 + 7) _ (q % 1024) (update s.tables p (λ k. 0))
                (sp.table_ne (q / 1024) uq pr)
              ∙ ap (λ (t : ℕ → ℕ). t (q % 1024))
                  (update_ne s.tables p _ (λ k. 0) (old_table (q / 1024) uq pr)))
          | inr a ↦
              walk_absent dir q tabled (rw (entry_ne (q / 1024) other) a)
              ∙ sym (walk_absent dir q s a)
        ]
  ]

  pub with_table-IsSpace : IsSpace dir tabled
  with_table-IsSpace = record {
    pages = pages;
    dir_used = kept dir sp.dir_used;
    table_used = λ j uj pr. elim (frame_cases j uj pr) [
      | inl (_, f) ↦ rw f used
      | inr (_, pr', f) ↦ rw f (kept _ (sp.table_used j uj pr'))
    ];
    table_grants = λ j uj pr. elim (Bool-cases (i == j)) [
      | inl e ↦ let same : i ≡ j = ground arith in rw (← same, entry_self) (entry_grants p)
      | inr n ↦
          let other : i ≢ j = λ e. ground arith in
          rw (entry_ne j other) (sp.table_grants j uj (rw (← entry_ne j other) pr))
    ];
    table_ne = λ j uj pr. elim (frame_cases j uj pr) [
      | inl (_, f) ↦ rw f (λ e. ne_of_free s.pages.bitmap p dir free sp.dir_used (sym e))
      | inr (_, pr', f) ↦ rw f (sp.table_ne j uj pr')
    ];
    table_apart = λ j k uj uk n pj pk. elim (frame_cases j uj pj) [
      | inl (e, f) ↦ elim (frame_cases k uk pk) [
        | inl (e', _) ↦ absurd (n (sym e ∙ e'))
        | inr (_, pk', g) ↦ rw (f, g) (old_table k uk pk')
      ]
      | inr (m, pj', f) ↦ elim (frame_cases k uk pk) [
        | inl (_, g) ↦ rw (f, g) (λ h. old_table j uj pj' (sym h))
        | inr (_, pk', g) ↦ rw (f, g) (sp.table_apart j k uj uk n pj' pk')
      ]
    ];
  }
