-- ===== src/Path/Resolve.antt =====
-- `path_resolve` of kernel/path.h on its own results and on joined paths, and the two halves of a path.
use ali_os.Base.{
  append-nil, ℕ, ◌+◌, ◌≤◌, ◌<◌, ◌≡◌, ◌∙◌, ◌⊎◌, refl, ap, sym, true, false, List, [], ◌∷◌, ◌++◌,
  length, length-append, ◌==◌, ltb, inl, inr, Bool-cases, arith,
}
use ali_os.Path.{
  slash, component, walk, emit, render, in_order, is_absolute, resolve_stack, write_stack,
  path_resolve,
}
use ali_os.Path.Canonical.{AllClean, IsStack, resolve_stack-IsStack, walk-render}

AllClean-in_order :
    (st acc : List (List ℕ)) → AllClean st → AllClean acc → AllClean (in_order st acc)
unfolding in_order
AllClean-in_order [] acc h k = k
AllClean-in_order (c ∷ st) acc h k = AllClean-in_order st (c ∷ acc) h.1 (h.0, k)

length-in_order : (st acc : List (List ℕ)) → length (in_order st acc) ≡ length st + length acc
unfolding in_order
length-in_order [] acc = omega arith
length-in_order (c ∷ st) acc = omega (arith, length-in_order st (c ∷ acc))

in_order_back :
    (st acc bs : List (List ℕ)) → in_order (in_order st acc) bs ≡ in_order acc (st ++ bs)
unfolding in_order
in_order_back [] acc bs = refl
in_order_back (c ∷ st) acc bs = in_order_back st (c ∷ acc) bs

in_order_twice : (st : List (List ℕ)) → in_order (in_order st []) [] ≡ st
unfolding in_order
in_order_twice st = in_order_back st [] [] ∙ append-nil st

render_absolute : (cs : List (List ℕ)) → 0 < length cs → is_absolute (render cs 0) ≡ true
unfolding render
render_absolute [] h = absurd (omega arith)
render_absolute (c ∷ cs) h = refl

-- What is written of a stack starts with a slash.
write_stack-absolute : (st : List (List ℕ)) → is_absolute (write_stack st) ≡ true
unfolding write_stack
write_stack-absolute [] = refl
write_stack-absolute (c ∷ st) =
    render_absolute (in_order (c ∷ st) []) (omega (arith, length-in_order (c ∷ st) []))

walk_root : walk (slash ∷ []) [] [] ≡ []
unfolding walk component
walk_root = refl

walk-write_stack :
    (st : List (List ℕ))
    → IsStack st
    → length (write_stack st) < 63
    → walk (write_stack st) [] [] ≡ st
unfolding write_stack
walk-write_stack [] v h = walk_root
walk-write_stack (c ∷ st) v h =
    walk-render (in_order (c ∷ st) []) 0 [] (AllClean-in_order (c ∷ st) [] v.clean tt)
      (omega (arith, v.few, length-in_order (c ∷ st) [])) (omega arith)
    ∙ in_order_twice (c ∷ st)

resolve_stack-write_stack :
    (cwd : List ℕ) (st : List (List ℕ))
    → IsStack st
    → length (write_stack st) < 63
    → resolve_stack cwd (write_stack st) ≡ st
unfolding resolve_stack
resolve_stack-write_stack cwd st v h = rw (write_stack-absolute st) (walk-write_stack st v h)

-- Resolving a result of `path_resolve` again, against any directory, changes nothing, if the result
-- is shorter than 63 bytes. (A longer one may have been cut.)
pub path_resolve_again :
    (cwd base input : List ℕ)
    → length (path_resolve base input) < 63
    → path_resolve cwd (path_resolve base input) ≡ path_resolve base input
unfolding path_resolve
path_resolve_again cwd base input h =
    ap write_stack (
      resolve_stack-write_stack cwd (resolve_stack base input) (resolve_stack-IsStack base input) h)

walk-append :
    (xs ys begun : List ℕ) (st : List (List ℕ))
    → walk (xs ++ (slash ∷ ys)) begun st ≡ walk ys [] (walk xs begun st)
unfolding walk
walk-append [] ys begun st = refl
walk-append (x ∷ xs) ys begun st = elim (Bool-cases (x == slash)) [
  | inl e ↦ rw e (walk-append xs ys [] (component begun st))
  | inr e ↦ rw e (walk-append xs ys (begun ++ (x ∷ [])) st)
]

-- A relative path resolves against an absolute directory as the two joined by a slash resolve alone.
pub path_resolve_join :
    (cwd base input : List ℕ)
    → is_absolute base ≡ true
    → is_absolute input ≡ false
    → path_resolve base input ≡ path_resolve cwd (base ++ (slash ∷ input))
unfolding path_resolve resolve_stack
path_resolve_join cwd base input absolute relative =
    let joined : is_absolute (base ++ (slash ∷ input)) ≡ true = starts base absolute in
    rw (relative, joined) (ap write_stack (sym (walk-append base input [] [])))
  where
    starts : (bs : List ℕ) → is_absolute bs ≡ true → is_absolute (bs ++ (slash ∷ input)) ≡ true
    starts [] h = refl
    starts (b ∷ bs) h = h

length-emit : (c : List ℕ) (oi : ℕ) → (length (emit c oi) ≡ 0) ⊎ (oi + length (emit c oi) ≤ 63)
unfolding emit
length-emit [] oi = inl refl
length-emit (b ∷ bs) oi = elim (Bool-cases (ltb oi 63)) [
  | inr full ↦ rw full (inl refl)
  | inl room ↦
      rw room
        (elim (length-emit bs (oi + 1)) [ inl e ↦ inr (ground arith) | inr h ↦ inr (omega arith) ])
]

length-render :
    (cs : List (List ℕ)) (k oi : ℕ) → oi ≤ 63 + k → oi + length (render cs oi) ≤ 63 + k + length cs
unfolding render
length-render [] k oi h = omega arith
length-render (c ∷ cs) k oi h =
    let oi' = oi + 1 + length (emit c (oi + 1)) in
    let next : oi' ≤ 63 + (k + 1) = elim (length-emit c (oi + 1)) [
      | inl e ↦ omega arith
      | inr le ↦ omega arith
    ] in
    omega
      (arith, length-render cs (k + 1) oi' next, length-append (emit c (oi + 1)) (render cs oi'))

length-write_stack : (st : List (List ℕ)) → length (write_stack st) ≤ 63 + length st
unfolding write_stack
length-write_stack [] = omega arith
length-write_stack (c ∷ st) =
    omega
      (arith, length-render (in_order (c ∷ st) []) 0 0 (omega arith), length-in_order (c ∷ st) [])

-- A result of `path_resolve` has at most 79 bytes: 63, and a slash for each component, which is written
-- whatever room there is.
pub length-path_resolve : (base input : List ℕ) → length (path_resolve base input) ≤ 79
unfolding path_resolve
length-path_resolve base input =
    omega
      (arith, length-write_stack (resolve_stack base input), (resolve_stack-IsStack base input).few)
