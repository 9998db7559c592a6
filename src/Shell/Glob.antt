-- ===== src/Shell/Glob.antt =====
-- `sh_glob` of kernel/shell.c against what a glob pattern means.
use ali_os.Base.{
  ℕ, ◌≡◌, ◌≢◌, ◌∙◌, ◌↔◌, ◌⊎◌, refl, sym, Bool, true, ◌||◌, List, [], ◌∷◌, ◌==◌, inl, inr,
  Bool-cases, arith,
}
use ali_os.Shell.{star, question, is_empty, only_stars, some_suffix, sh_glob}

-- What a pattern means: `*` stands for any sequence, `?` for any byte, and another byte for itself.
pub data Match : List ℕ → List ℕ → Type 0 where
  done : Match [] []
  one :
      {b c : ℕ} {p s : List ℕ}
      → b ≢ star
      → (b ≡ question) ⊎ (b ≡ c)
      → Match p s
      → Match (b ∷ p) (c ∷ s)
  skip : {b : ℕ} {p s : List ℕ} → b ≡ star → Match p s → Match (b ∷ p) s
  extend : {b c : ℕ} {p s : List ℕ} → b ≡ star → Match (b ∷ p) s → Match (b ∷ p) (c ∷ s)

only_stars-Match : (p : List ℕ) → only_stars p ≡ true → Match p []
unfolding only_stars
only_stars-Match [] h = Match.done
only_stars-Match (b ∷ p) h = Match.skip (ground arith) (only_stars-Match p (ground arith))

everything-Match : (b : ℕ) (s : List ℕ) → b ≡ star → Match (b ∷ []) s
everything-Match b [] e = Match.skip e Match.done
everything-Match b (c ∷ s) e = Match.extend e (everything-Match b s e)

some_suffix-Match :
    (b : ℕ) (p s : List ℕ)
    → b ≡ star
    → ((t : List ℕ) → sh_glob p t ≡ true → Match p t)
    → some_suffix (sh_glob p) s ≡ true
    → Match (b ∷ p) s
unfolding some_suffix
some_suffix-Match b p [] e f h = absurd (ground arith)
some_suffix-Match b p (c ∷ s) e f h = elim (Bool-cases (sh_glob p (c ∷ s))) [
  | inl here ↦ Match.skip e (f (c ∷ s) here)
  | inr later ↦ Match.extend e (some_suffix-Match b p s e f (ground arith))
]

star-Match :
    (b : ℕ) (p s : List ℕ)
    → b ≡ star
    → ((t : List ℕ) → sh_glob p t ≡ true → Match p t)
    → (is_empty p || some_suffix (sh_glob p) s) ≡ true
    → Match (b ∷ p) s
star-Match b [] s e f h = everything-Match b s e
star-Match b (d ∷ p) s e f h = some_suffix-Match b (d ∷ p) s e f h

sh_glob-Match : (p s : List ℕ) → sh_glob p s ≡ true → Match p s
unfolding sh_glob
sh_glob-Match [] [] h = Match.done
sh_glob-Match [] (c ∷ s) h = absurd (ground arith)
sh_glob-Match (b ∷ p) [] h = only_stars-Match (b ∷ p) h
sh_glob-Match (b ∷ p) (c ∷ s) h = elim (Bool-cases (b == star)) [
  | inl e ↦ star-Match b p (c ∷ s) (ground arith) (sh_glob-Match p) (rw e at h)
  | inr e ↦ elim (Bool-cases (b == question)) [
    | inl q ↦ Match.one (ground arith) (inl (ground arith)) (sh_glob-Match p s (rw (e, q) at h))
    | inr q ↦ Match.one (ground arith) (inr (ground arith)) (sh_glob-Match p s (ground arith))
  ]
]

sh_glob_empty : (p : List ℕ) → sh_glob p [] ≡ only_stars p
unfolding sh_glob only_stars
sh_glob_empty [] = refl
sh_glob_empty (b ∷ p) = refl

-- A pattern of stars, and not an empty one, matches every text.
only_stars_all :
    (b : ℕ) (p : List ℕ) (c : ℕ) (s : List ℕ)
    → b ≡ star
    → only_stars p ≡ true
    → sh_glob (b ∷ p) (c ∷ s) ≡ true
unfolding sh_glob only_stars some_suffix
only_stars_all b [] c s e h = let t : (b == star) ≡ true = ground arith in rw t refl
only_stars_all b (d ∷ p) c s e h =
    let t : (b == star) ≡ true = ground arith in
    rw (t, only_stars_all d p c s (ground arith) (ground arith)) refl

star_skips : (b : ℕ) (p s : List ℕ) → b ≡ star → sh_glob p s ≡ true → sh_glob (b ∷ p) s ≡ true
unfolding sh_glob only_stars some_suffix
star_skips b p [] e h =
    let t : (b == star) ≡ true = ground arith in
    let stars : only_stars p ≡ true = sym (sh_glob_empty p) ∙ h in rw (t, stars) refl
star_skips b [] (c ∷ s) e h = absurd (ground arith)
star_skips b (d ∷ p) (c ∷ s) e h = let t : (b == star) ≡ true = ground arith in rw (t, h) refl

star_takes :
    (b : ℕ) (p : List ℕ) (c : ℕ) (s : List ℕ)
    → b ≡ star
    → sh_glob (b ∷ p) s ≡ true
    → sh_glob (b ∷ p) (c ∷ s) ≡ true
unfolding sh_glob only_stars some_suffix
star_takes b p c [] e h = only_stars_all b p c [] e (ground arith)
star_takes b [] c (d ∷ s) e h = let t : (b == star) ≡ true = ground arith in rw t refl
star_takes b (a ∷ p) c (d ∷ s) e h =
    let t : (b == star) ≡ true = ground arith in
    let later : some_suffix (sh_glob (a ∷ p)) (d ∷ s) ≡ true = rw t at h in
    rw t (or_true (sh_glob (a ∷ p) (c ∷ d ∷ s)) _ later)
  where
    or_true : (x y : Bool) → y ≡ true → (x || y) ≡ true
    or_true x y k = ground arith

Match-sh_glob : {p s : List ℕ} → Match p s → sh_glob p s ≡ true
unfolding sh_glob
Match-sh_glob Match.done = refl
Match-sh_glob (Match.one n e m) = let ih = Match-sh_glob m in ground (arith, n, ih)
Match-sh_glob (Match.skip {b} {p} {s} e m) = star_skips b p s e (Match-sh_glob m)
Match-sh_glob (Match.extend {b} {c} {p} {s} e m) = star_takes b p c s e (Match-sh_glob m)

-- `sh_glob` answers 1 exactly for the texts that the pattern means, although it tries the rest of a
-- pattern behind a star only where the text goes on.
pub sh_glob_lem : (p s : List ℕ) → (sh_glob p s ≡ true) ↔ Match p s
sh_glob_lem p s = ((λ h. sh_glob-Match p s h), λ m. Match-sh_glob m)
