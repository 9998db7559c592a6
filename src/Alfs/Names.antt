-- ===== src/Alfs/Names.antt =====
-- Stored names: what `streq` compares, and what `strncpy_name` keeps.
use ali_os.Base.{
  ℕ, zero, suc, ◌+◌, ◌≤◌, ◌<◌, ◌≡◌, ◌≢◌, ◌∙◌, refl, ap, ap₂, sym, true, not, ◌&&◌, List, [], ◌∷◌,
  ◌==◌, ltb, inl, inr, Bool-cases, arith, length, get_or,
}
use ali_os.Alfs.{name_max, streq, strncpy_name}

-- A text as C sees it holds no null.
abbrev pub NonNull : List ℕ → Type 0
NonNull [] = Unit
NonNull (c ∷ cs) = (c ≢ 0) × NonNull cs

-- The array holds this text and a null, from position `i` on.
abbrev pub Holds : (ℕ → ℕ) → ℕ → List ℕ → Type 0
Holds a i [] = a i ≡ 0
Holds a i (c ∷ cs) = (a i ≡ c) × Holds a (i + 1) cs

pub streq-Holds : (a : ℕ → ℕ) (i : ℕ) (m : List ℕ) → NonNull m → streq a i m ≡ true → Holds a i m
unfolding streq
streq-Holds a i [] n h = ground arith
streq-Holds a i (c ∷ cs) n h = elim (Bool-cases (not (a i == 0) && (a i == c))) [
  | inl same ↦ (ground arith, streq-Holds a (i + 1) cs n.1 (ground arith))
  | inr differ ↦ absurd (n.0 (ground arith))
]

pub Holds-streq : (a : ℕ → ℕ) (i : ℕ) (m : List ℕ) → NonNull m → Holds a i m → streq a i m ≡ true
unfolding streq
Holds-streq a i [] n h = ground arith
Holds-streq a i (c ∷ cs) n h =
    let same : (not (a i == 0) && (a i == c)) ≡ true = ground (arith, n.0) in
    rw same (Holds-streq a (i + 1) cs n.1 h.1)

-- An array holds at most one text.
pub Holds-unique :
    (a : ℕ → ℕ) (i : ℕ) (m k : List ℕ) → NonNull m → NonNull k → Holds a i m → Holds a i k → m ≡ k
Holds-unique a i [] [] n o h g = refl
Holds-unique a i [] (c ∷ cs) n o h g = absurd (o.0 (sym g.0 ∙ h))
Holds-unique a i (c ∷ cs) [] n o h g = absurd (n.0 (sym h.0 ∙ g))
Holds-unique a i (c ∷ cs) (b ∷ bs) n o h g =
    ap₂ ◌∷◌ (sym h.0 ∙ g.0) (Holds-unique a (i + 1) cs bs n.1 o.1 h.1 g.1)

get_or_past : (m : List ℕ) (j : ℕ) → length m ≤ j → get_or m j 0 ≡ 0
get_or_past [] j h = refl
get_or_past (c ∷ cs) zero h = absurd (omega arith)
get_or_past (c ∷ cs) (suc j) h = get_or_past cs j (omega arith)

strncpy-Holds :
    (name rest : List ℕ) (i : ℕ)
    → ((j : ℕ) → get_or rest j 0 ≡ get_or name (i + j) 0)
    → i + length rest < name_max
    → Holds (strncpy_name name) i rest
unfolding strncpy_name
strncpy-Holds name [] i same h =
    let e : i + 0 ≡ i = omega arith in
    let end : get_or name i 0 ≡ 0 = sym (ap (λ k. get_or name k 0) e) ∙ sym (same 0) in ground arith
strncpy-Holds name (c ∷ cs) i same h =
    let e : i + 0 ≡ i = omega arith in
    let here : get_or name i 0 ≡ c = sym (ap (λ k. get_or name k 0) e) ∙ sym (same 0) in
    (
      ground arith,
      strncpy-Holds name cs (i + 1)
          (λ j.
            let e' : i + suc j ≡ i + 1 + j = omega arith in
            same (suc j) ∙ ap (λ k. get_or name k 0) e')
          (omega arith),
    )

Holds-get_or :
    (a : ℕ → ℕ) (i : ℕ) (m : List ℕ) (j : ℕ) → Holds a i m → j < length m → a (i + j) ≡ get_or m j 0
Holds-get_or a i [] j h lt = absurd (omega arith)
Holds-get_or a i (c ∷ cs) zero h lt = let e : i + 0 ≡ i = omega arith in rw e h.0
Holds-get_or a i (c ∷ cs) (suc j) h lt =
    let e : i + suc j ≡ i + 1 + j = omega arith in
    rw e (Holds-get_or a (i + 1) cs j h.1 (omega arith))

NonNull-get_or : (m : List ℕ) (j : ℕ) → NonNull m → j < length m → get_or m j 0 ≢ 0
NonNull-get_or [] j n lt = absurd (omega arith)
NonNull-get_or (c ∷ cs) zero n lt = n.0
NonNull-get_or (c ∷ cs) (suc j) n lt = NonNull-get_or cs j n.1 (omega arith)

too_long :
    (name : List ℕ) → NonNull name → name_max ≤ length name → ¬ (Holds (strncpy_name name) 0 name)
unfolding strncpy_name
too_long name n h held =
    NonNull-get_or name 51 n (omega arith)
      (sym (Holds-get_or (strncpy_name name) 0 name 51 held (omega arith)))

-- A stored name compares equal to the text that it was made from exactly when the text has at most
-- 51 bytes: a longer one is cut, and is then not found under its own name.
pub streq-strncpy_name :
    (name : List ℕ) → NonNull name → streq (strncpy_name name) 0 name ≡ ltb (length name) name_max
streq-strncpy_name name n = elim (Bool-cases (ltb (length name) name_max)) [
  | inl short ↦ rw short (
      Holds-streq (strncpy_name name) 0 name n
        (strncpy-Holds name name 0 (λ j. ap (λ k. get_or name k 0) (omega arith)) (ground arith)))
  | inr long ↦ elim (Bool-cases (streq (strncpy_name name) 0 name)) [
    | inl same ↦
        absurd (too_long name n (ground arith) (streq-Holds (strncpy_name name) 0 name n same))
    | inr differ ↦ rw long differ
  ]
]
