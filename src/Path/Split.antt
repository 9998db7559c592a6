-- ===== src/Path/Split.antt =====
-- `path_parent` and `path_basename` of kernel/path.h: the two halves of a path at its last slash.
use ali_os.Base.{
  ℕ, ◌+◌, ◌≡◌, ◌∙◌, refl, List, [], ◌∷◌, ◌++◌, length, take-append, if◌then◌else◌, ◌==◌, arith,
}
use ali_os.Path.{slash, last_slash, path_parent, basename_from, path_basename}
use ali_os.Path.Canonical.{NoSlash}

last_slash_none : (bs : List ℕ) (i last : ℕ) → NoSlash bs → last_slash bs i last ≡ last
unfolding last_slash
last_slash_none [] i last n = refl
last_slash_none (b ∷ bs) i last n = rw n.0 (last_slash_none bs (i + 1) last n.1)

last_slash_at :
    (dir name : List ℕ) (i last : ℕ)
    → NoSlash name
    → last_slash (dir ++ (slash ∷ name)) i last ≡ i + length dir
unfolding last_slash
last_slash_at [] name i last n = last_slash_none name (i + 1) i n ∙ omega arith
last_slash_at (b ∷ bs) name i last n =
    last_slash_at bs name (i + 1) (if b == slash then i else last) n ∙ omega arith

basename_none : (bs last : List ℕ) → NoSlash bs → basename_from bs last ≡ last
unfolding basename_from
basename_none [] last n = refl
basename_none (b ∷ bs) last n = rw n.0 (basename_none bs last n.1)

basename_at :
    (dir name last : List ℕ) → NoSlash name → basename_from (dir ++ (slash ∷ name)) last ≡ name
unfolding basename_from
basename_at [] name last n = basename_none name name n
basename_at (b ∷ bs) name last n =
    basename_at bs name (if b == slash then bs ++ (slash ∷ name) else last) n

-- Of a path that is a directory, a slash and a name without a slash, `path_basename` is the name,
-- and `path_parent` the directory, or the root if the directory is empty.
pub path_parent-path_basename :
    (dir name : List ℕ)
    → NoSlash name
    → (path_basename (dir ++ (slash ∷ name)) ≡ name)
      × (path_parent (dir ++ (slash ∷ name)) ≡ (if length dir == 0 then slash ∷ [] else dir))
unfolding path_parent path_basename
path_parent-path_basename dir name n = (
  basename_at dir name (dir ++ (slash ∷ name)) n,
  rw (last_slash_at dir name 0 0 n) (
      let e : 0 + length dir ≡ length dir = omega arith in
      rw (e, take-append dir (slash ∷ name)) refl),
)
