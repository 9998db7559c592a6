-- ===== src/Path/Canonical.antt =====
-- `path_resolve` of kernel/path.h: its results are canonical, and a stack of components is found again
-- in its rendering.
use ali_os.Base.{
  ℕ, zero, suc, ◌+◌, ◌≤◌, ◌<◌, ◌≡◌, ◌∙◌, ◌⊎◌, refl, ap, true, false, List, [], ◌∷◌, ◌++◌, take,
  length, length-take, length-append, append_assoc, append-nil, ◌==◌, ltb, inl, inr, Bool-cases,
  arith,
}
use ali_os.Path.{
  slash, comp_max, comp_len, is_dot, is_dot_dot, pop, push, component, walk, emit, render, in_order,
  is_absolute, resolve_stack,
}

abbrev pub NoSlash : List ℕ → Type 0
NoSlash [] = Unit
NoSlash (b ∷ bs) = ((b == slash) ≡ false) × NoSlash bs

-- A component as it is kept: of 1 to 31 bytes, without a slash, and neither `.` nor `..`.
pub record IsClean (c : List ℕ) : Type 0 where
  pub nonempty : 0 < length c
  pub short : length c ≤ comp_len
  pub no_slash : NoSlash c
  pub not_dot : is_dot c ≡ false
  pub not_dot_dot : is_dot_dot c ≡ false

abbrev pub AllClean : List (List ℕ) → Type 0
AllClean [] = Unit
AllClean (c ∷ st) = IsClean c × AllClean st

NoSlash-take : (n : ℕ) (bs : List ℕ) → NoSlash bs → NoSlash (take n bs)
NoSlash-take zero bs h = tt
NoSlash-take (suc n) [] h = tt
NoSlash-take (suc n) (b ∷ bs) h = (h.0, NoSlash-take n bs h.1)

NoSlash-append : (ds bs : List ℕ) → NoSlash ds → NoSlash bs → NoSlash (ds ++ bs)
NoSlash-append [] bs h k = k
NoSlash-append (a ∷ ds) bs h k = (h.0, NoSlash-append ds bs h.1 k)

take_not_dot : (bs : List ℕ) → is_dot bs ≡ false → is_dot (take comp_len bs) ≡ false
take_not_dot [] h = refl
take_not_dot (a ∷ []) h = h
take_not_dot (a ∷ b ∷ bs) h = refl

take_not_dot_dot : (bs : List ℕ) → is_dot_dot bs ≡ false → is_dot_dot (take comp_len bs) ≡ false
take_not_dot_dot [] h = refl
take_not_dot_dot (a ∷ []) h = refl
take_not_dot_dot (a ∷ b ∷ []) h = h
take_not_dot_dot (a ∷ b ∷ c ∷ bs) h = refl

-- What the stack of components always is.
pub record IsStack (st : List (List ℕ)) : Type 0 where
  pub clean : AllClean st
  pub few : length st ≤ comp_max

pop-IsStack : (st : List (List ℕ)) → IsStack st → IsStack (pop st)
pop-IsStack [] v = v
pop-IsStack (c ∷ st) v = record { clean = v.clean.1; few = omega (arith, v.few) }

component-IsStack :
    (c : List ℕ) (st : List (List ℕ)) → NoSlash c → IsStack st → IsStack (component c st)
unfolding component push
component-IsStack [] st n v = v
component-IsStack (b ∷ bs) st n v = elim (Bool-cases (is_dot (b ∷ bs))) [
  | inl e ↦ rw e v
  | inr not_dot ↦ elim (Bool-cases (is_dot_dot (b ∷ bs))) [
    | inl e ↦ rw (not_dot, e) (pop-IsStack st v)
    | inr not_dot_dot ↦ elim (Bool-cases (ltb (length st) comp_max)) [
      | inr full ↦ rw (not_dot, not_dot_dot, full) v
      | inl room ↦
          rw (not_dot, not_dot_dot, room)
            (record {
              clean = (
                record {
                  nonempty = omega (arith, length-take comp_len (b ∷ bs));
                  short = omega (arith, length-take comp_len (b ∷ bs));
                  no_slash = NoSlash-take comp_len (b ∷ bs) n;
                  not_dot = take_not_dot (b ∷ bs) not_dot;
                  not_dot_dot = take_not_dot_dot (b ∷ bs) not_dot_dot;
                },
                v.clean,
              );
              few = ground arith;
            })
    ]
  ]
]

walk-IsStack :
    (bs begun : List ℕ) (st : List (List ℕ))
    → NoSlash begun
    → IsStack st
    → IsStack (walk bs begun st)
unfolding walk
walk-IsStack [] begun st n v = component-IsStack begun st n v
walk-IsStack (b ∷ bs) begun st n v = elim (Bool-cases (b == slash)) [
  | inl e ↦ rw e (walk-IsStack bs [] (component begun st) tt (component-IsStack begun st n v))
  | inr e ↦
      rw e (walk-IsStack bs (begun ++ (b ∷ [])) st (NoSlash-append begun (b ∷ []) n (e, tt)) v)
]

-- Whatever the two texts are, `path_resolve` keeps at most 16 components, and each has 1 to 31 bytes,
-- no slash, and is neither `.` nor `..`.
pub resolve_stack-IsStack : (base input : List ℕ) → IsStack (resolve_stack base input)
unfolding resolve_stack
resolve_stack-IsStack base input =
    let empty : IsStack [] = record { clean = tt; few = omega arith } in
    elim (Bool-cases (is_absolute input)) [
      | inl e ↦ rw e (walk-IsStack input [] [] tt empty)
      | inr e ↦ rw e (walk-IsStack input [] (walk base [] []) tt (walk-IsStack base [] [] tt empty))
    ]

walk_component :
    (c rest begun : List ℕ) (st : List (List ℕ))
    → NoSlash c
    → walk (c ++ rest) begun st ≡ walk rest (begun ++ c) st
unfolding walk
walk_component [] rest begun st n = rw (append-nil begun) refl
walk_component (b ∷ bs) rest begun st n = rw n.0 (
    walk_component bs rest (begun ++ (b ∷ [])) st n.1
    ∙ ap (λ l. walk rest l st) (append_assoc begun (b ∷ []) bs))

-- A kept component goes on the stack as it is.
component_clean :
    (c : List ℕ) (st : List (List ℕ)) → IsClean c → length st < comp_max → component c st ≡ c ∷ st
unfolding component push
component_clean [] st v h = absurd (omega (arith, v.nonempty))
component_clean (b ∷ bs) st v h =
    let room : ltb (length st) comp_max ≡ true = ground arith in
    rw (v.not_dot, v.not_dot_dot, room)
      (ap (λ (l : List ℕ). l ∷ st) (take_all comp_len (b ∷ bs) v.short))
  where
    take_all : (n : ℕ) (ds : List ℕ) → length ds ≤ n → take n ds ≡ ds
    take_all zero [] le = refl
    take_all zero (a ∷ ds) le = absurd (omega arith)
    take_all (suc n) [] le = refl
    take_all (suc n) (a ∷ ds) le = ap (λ l. a ∷ l) (take_all n ds (omega arith))

-- Where a component ends, so does the text of the next one begin.
walk_rendered :
    (cs : List (List ℕ)) (oi : ℕ) (c : List ℕ) (st : List (List ℕ))
    → walk (render cs oi) c st ≡ walk (render cs oi) [] (component c st)
unfolding walk render component
walk_rendered [] oi c st = refl
walk_rendered (d ∷ cs) oi c st = refl

emit_whole : (c : List ℕ) (oi : ℕ) → (emit c oi ≡ c) ⊎ (63 ≤ oi + length (emit c oi))
unfolding emit
emit_whole [] oi = inl refl
emit_whole (b ∷ bs) oi = elim (Bool-cases (ltb oi 63)) [
  | inr full ↦ rw full (inr (ground arith))
  | inl room ↦ rw room (elim (emit_whole bs (oi + 1)) [
    | inl e ↦ inl (ap (λ l. b ∷ l) e)
    | inr h ↦ inr (omega arith)
  ])
]

-- `WALK` gets the components back from what was written of them, if less than 63 bytes were.
pub walk-render :
    (cs : List (List ℕ)) (oi : ℕ) (st : List (List ℕ))
    → AllClean cs
    → length cs + length st ≤ comp_max
    → oi + length (render cs oi) < 63
    → walk (render cs oi) [] st ≡ in_order cs st
unfolding render walk in_order
walk-render [] oi st clean few fits = refl
walk-render (c ∷ cs) oi st clean few fits = elim (emit_whole c (oi + 1)) [
  | inr long ↦ absurd (
      omega
        (arith, length-append (emit c (oi + 1)) (render cs (oi + 1 + length (emit c (oi + 1))))))
  | inl whole ↦ rw whole (
      let oi' = oi + 1 + length c in
      let fits' : oi' + length (render cs oi') < 63 =
        omega (arith, length-append c (render cs oi'), rw whole at fits) in
      walk_component c (render cs oi') [] st clean.0.no_slash
      ∙ walk_rendered cs oi' c st
      ∙ ap (λ (l : List (List ℕ)). walk (render cs oi') [] l)
          (component_clean c st clean.0 (omega arith))
      ∙ walk-render cs oi' (c ∷ st) clean.1 (omega arith) fits')
]
