-- ===== src/Alfs/Lookup.antt =====
-- `alfs_find` of kernel/alfs.c against the names as texts.
use ali_os.Base.{ℕ, ◌<◌, ◌≡◌, true, false, Option, none, some, List, arith}
use ali_os.Alfs.{Fs, Dirent, max_files, is_used, alfs_find}
use ali_os.Alfs.Names.{NonNull, Holds, streq-Holds, Holds-streq}
use ali_os.Alfs.Find.{FoundFirst, matches, alfs_find-FoundFirst}

-- The entry is in use, and its name is this text with a null behind it.
abbrev pub IsNamed : List ℕ → Dirent → Type 0
IsNamed name e = (is_used e ≡ true) × Holds e.name 0 name

-- The first entry of this name, or none of all.
abbrev pub FindsNamed : List ℕ → (ℕ → Dirent) → Option ℕ → Type 0
FindsNamed name dir none = (j : ℕ) → j < max_files → IsNamed name (dir j) → ⊥
FindsNamed name dir (some i) =
    (i < max_files) × IsNamed name (dir i) × ((j : ℕ) → j < i → IsNamed name (dir j) → ⊥)

matches-IsNamed :
    (name : List ℕ) (e : Dirent) → NonNull name → matches name e ≡ true → IsNamed name e
matches-IsNamed name e n h = (ground arith, streq-Holds e.name 0 name n (ground arith))

IsNamed-matches :
    (name : List ℕ) (e : Dirent) → NonNull name → matches name e ≡ false → IsNamed name e → ⊥
IsNamed-matches name e n h (u, t) = ground (arith, Holds-streq e.name 0 name n t)

finds :
    (name : List ℕ) (dir : ℕ → Dirent) (o : Option ℕ)
    → NonNull name
    → FoundFirst (matches name) 0 max_files dir o
    → FindsNamed name dir o
finds name dir none n h = λ j l. IsNamed-matches name (dir j) n (h j (omega arith) l)
finds name dir (some i) n (_, l, hit, first) = (
  l,
  matches-IsNamed name (dir i) n hit,
  λ j m. IsNamed-matches name (dir j) n (first j (omega arith) m),
)

-- On a file system that is ready, for a text without a null: `alfs_find` returns the first entry in use
-- whose name holds exactly this text, byte for byte up to the null, or -1 if no entry in use does.
pub alfs_find-FindsNamed :
    (name : List ℕ) (fs : Fs)
    → fs.ready ≡ true
    → NonNull name
    → FindsNamed name fs.dir (alfs_find name fs)
alfs_find-FindsNamed name fs r n =
    finds name fs.dir (alfs_find name fs) n (alfs_find-FoundFirst name fs r)
