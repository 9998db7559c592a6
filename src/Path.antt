-- ===== src/Path.antt =====
-- kernel/path.h: paths as lists of bytes up to the null.
pub mod Canonical
pub mod Resolve
pub mod Split
mod Tests
use ali_os.Base.{
  ℕ, zero, suc, ◌+◌, ◌-◌, ◌≤◌, ◌<◌, ◌≡◌, Bool, true, false, not, ◌&&◌, List, [], ◌∷◌, ◌++◌, take,
  length, if◌then◌else◌, ◌==◌, ltb,
}

abbrev pub slash : ℕ
slash = b'/'

abbrev pub dot : ℕ
dot = b'.'

-- `comp[16][32]`: the most components that are kept, and the most bytes of each.
abbrev pub comp_max : ℕ
comp_max = 16

abbrev pub comp_len : ℕ
comp_len = 31

abbrev pub is_dot : List ℕ → Bool
is_dot (c ∷ []) = c == dot
is_dot _ = false

abbrev pub is_dot_dot : List ℕ → Bool
is_dot_dot (c ∷ d ∷ []) = (c == dot) && (d == dot)
is_dot_dot _ = false

-- `nc--` for `nc > 0`; the stack of components has the last one first.
abbrev pub pop : List (List ℕ) → List (List ℕ)
pop [] = []
pop (c ∷ st) = st

-- `PUSH`
unfoldable pub push : List ℕ → List (List ℕ) → List (List ℕ)
push c st = if ltb (length st) comp_max then take comp_len c ∷ st else st

-- What `WALK` does with a component; the loop makes none of two slashes in a row.
unfoldable pub component : List ℕ → List (List ℕ) → List (List ℕ)
unfolding push
component [] st = st
component (b ∷ bs) st =
    if is_dot (b ∷ bs) then st else if is_dot_dot (b ∷ bs) then pop st else push (b ∷ bs) st

-- `WALK`, with the bytes of the component that was begun
unfoldable pub walk : List ℕ → List ℕ → List (List ℕ) → List (List ℕ)
unfolding component
walk [] begun st = component begun st
walk (b ∷ bs) begun st =
    if b == slash then walk bs [] (component begun st) else walk bs (begun ++ (b ∷ [])) st

-- The inner loop that writes one component to `out`, from position `oi` on.
unfoldable pub emit : List ℕ → ℕ → List ℕ
emit [] oi = []
emit (b ∷ bs) oi = let rest = emit bs (oi + 1) in if ltb oi 63 then b ∷ rest else []

-- The outer loop. The slashes are written without a test of `oi`.
unfoldable pub render : List (List ℕ) → ℕ → List ℕ
unfolding emit
render [] oi = []
render (c ∷ cs) oi = slash ∷ (emit c (oi + 1) ++ render cs (oi + 1 + length (emit c (oi + 1))))

-- The components, first one first.
unfoldable pub in_order : List (List ℕ) → List (List ℕ) → List (List ℕ)
in_order [] acc = acc
in_order (c ∷ st) acc = in_order st (c ∷ acc)

abbrev pub is_absolute : List ℕ → Bool
is_absolute [] = false
is_absolute (b ∷ bs) = b == slash

unfoldable pub resolve_stack : List ℕ → List ℕ → List (List ℕ)
unfolding walk
resolve_stack base input =
    if is_absolute input then walk input [] [] else walk input [] (walk base [] [])

unfoldable pub write_stack : List (List ℕ) → List ℕ
unfolding render in_order
write_stack [] = slash ∷ []
write_stack (c ∷ st) = render (in_order (c ∷ st) []) 0

-- What `path_resolve` writes to `out`, up to the null.
unfoldable pub path_resolve : List ℕ → List ℕ → List ℕ
unfolding write_stack resolve_stack
path_resolve base input = write_stack (resolve_stack base input)

-- The loop of `path_parent` that finds the last slash, at index `i`.
unfoldable pub last_slash : List ℕ → ℕ → ℕ → ℕ
last_slash [] i last = last
last_slash (b ∷ bs) i last = last_slash bs (i + 1) (if b == slash then i else last)

unfoldable pub path_parent : List ℕ → List ℕ
unfolding last_slash
path_parent path =
    let last = last_slash path 0 0 in if last == 0 then slash ∷ [] else take last path

-- The rest of the path behind its last slash: `last` is the text that the loop's pointer is at.
unfoldable pub basename_from : List ℕ → List ℕ → List ℕ
basename_from [] last = last
basename_from (b ∷ bs) last = basename_from bs (if b == slash then bs else last)

unfoldable pub path_basename : List ℕ → List ℕ
unfolding basename_from
path_basename path = basename_from path path
