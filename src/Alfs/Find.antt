-- ===== src/Alfs/Find.antt =====
-- The searches of kernel/alfs.c through the directory, and the high-water mark.
use ali_os.Base.{
  ℕ, zero, suc, ◌+◌, ◌≤◌, ◌<◌, ◌≡◌, ◌∙◌, ap, sym, Bool, true, false, not, ◌&&◌, Option, none, some,
  List, ◌==◌, inl, inr, Bool-cases, arith,
}
use ali_os.Alfs.{Fs, Dirent, max_files, data_start, is_used, streq, find_from, alfs_find}
use ali_os.Alfs.Writing.{free_slot_from, file_end, is_file, raise_mark, high_from, high_water}

abbrev pub matches : List ℕ → Dirent → Bool
matches name e = is_used e && streq e.name 0 name

-- A search from `lo` to `hi` for the first entry that passes a test.
abbrev pub FoundFirst : (Dirent → Bool) → ℕ → ℕ → (ℕ → Dirent) → Option ℕ → Type 0
FoundFirst test lo hi dir none = (j : ℕ) → lo ≤ j → j < hi → test (dir j) ≡ false
FoundFirst test lo hi dir (some i) =
    (lo ≤ i) × (i < hi) × (test (dir i) ≡ true) × ((j : ℕ) → lo ≤ j → j < i → test (dir j) ≡ false)

found_later :
    (test : Dirent → Bool) (lo hi : ℕ) (dir : ℕ → Dirent) (o : Option ℕ)
    → test (dir lo) ≡ false
    → FoundFirst test (lo + 1) hi dir o
    → FoundFirst test lo hi dir o
found_later test lo hi dir none miss h = λ j l m. elim (Bool-cases (lo == j)) [
  | inl here ↦ let e : lo ≡ j = ground arith in ap (λ k. test (dir k)) (sym e) ∙ miss
  | inr there ↦ h j (ground arith) m
]
found_later test lo hi dir (some i) miss (l, m, hit, first) = (
  omega arith,
  m,
  hit,
  λ j a b. elim (Bool-cases (lo == j)) [
    | inl here ↦ let e : lo ≡ j = ground arith in ap (λ k. test (dir k)) (sym e) ∙ miss
    | inr there ↦ first j (ground arith) b
  ],
)

find_from-FoundFirst :
    (left lo hi : ℕ) (name : List ℕ) (dir : ℕ → Dirent)
    → lo + left ≡ hi
    → FoundFirst (matches name) lo hi dir (find_from left lo name dir)
unfolding find_from
find_from-FoundFirst zero lo hi name dir e = λ j l m. absurd (omega arith)
find_from-FoundFirst (suc left) lo hi name dir e = elim (Bool-cases (matches name (dir lo))) [
  | inl hit ↦ rw hit (omega arith, omega arith, hit, λ j a b. absurd (omega arith))
  | inr miss ↦ rw miss (
      found_later (matches name) lo hi dir _ miss
        (find_from-FoundFirst left (lo + 1) hi name dir (omega arith)))
]

-- `alfs_find` returns the first entry in use with this name, or -1 if there is none.
pub alfs_find-FoundFirst :
    (name : List ℕ) (fs : Fs)
    → fs.ready ≡ true
    → FoundFirst (matches name) 0 max_files fs.dir (alfs_find name fs)
unfolding alfs_find
alfs_find-FoundFirst name fs r =
    rw r (find_from-FoundFirst max_files 0 max_files name fs.dir (omega arith))

pub find-FoundFirst :
    (name : List ℕ) (dir : ℕ → Dirent)
    → FoundFirst (matches name) 0 max_files dir (find_from max_files 0 name dir)
find-FoundFirst name dir = find_from-FoundFirst max_files 0 max_files name dir (omega arith)

abbrev pub unused : Dirent → Bool
unused e = not (is_used e)

free_slot_from-FoundFirst :
    (left lo hi : ℕ) (dir : ℕ → Dirent)
    → lo + left ≡ hi
    → FoundFirst unused lo hi dir (free_slot_from left lo dir)
unfolding free_slot_from
free_slot_from-FoundFirst zero lo hi dir e = λ j l m. absurd (omega arith)
free_slot_from-FoundFirst (suc left) lo hi dir e = elim (Bool-cases (is_used (dir lo))) [
  | inl used ↦ rw used (
      found_later unused lo hi dir _ (ap not used)
        (free_slot_from-FoundFirst left (lo + 1) hi dir (omega arith)))
  | inr free ↦ rw free (omega arith, omega arith, ap not free, λ j a b. absurd (omega arith))
]

pub free_slot-FoundFirst :
    (dir : ℕ → Dirent) → FoundFirst unused 0 max_files dir (free_slot_from max_files 0 dir)
free_slot-FoundFirst dir = free_slot_from-FoundFirst max_files 0 max_files dir (omega arith)

-- The mark is not below what it started from, nor below the end of a file that was passed.
high_from-le :
    (left i : ℕ) (dir : ℕ → Dirent) (hwm : ℕ)
    → (hwm ≤ high_from left i dir hwm)
      × ((j : ℕ)
          → i ≤ j
          → j < i + left
          → is_file (dir j) ≡ true
          → file_end (dir j) ≤ high_from left i dir hwm)
unfolding high_from raise_mark
high_from-le zero i dir hwm = (omega arith, λ j a b f. absurd (omega arith))
high_from-le (suc left) i dir hwm =
    let now = raise_mark (dir i) hwm in
    let ih = high_from-le left (i + 1) dir now in
    let up : hwm ≤ now = ground arith in
    (
      omega (arith, ih.0),
      λ j a b f. elim (Bool-cases (i == j)) [
        | inl here ↦
            let e : i ≡ j = ground arith in
            let f' : is_file (dir i) ≡ true = ap (λ k. is_file (dir k)) e ∙ f in
            let le : file_end (dir i) ≤ now = ground arith in
            let same : file_end (dir j) ≡ file_end (dir i) = ap (λ k. file_end (dir k)) (sym e) in
            omega (arith, ih.0)
        | inr there ↦ ih.1 j (ground arith) (omega arith) f
      ],
    )

-- No file ends past the high-water mark, and the mark is at or past the first data sector.
pub high_water-le :
    (dir : ℕ → Dirent)
    → (data_start ≤ high_water dir)
      × ((j : ℕ) → j < max_files → is_file (dir j) ≡ true → file_end (dir j) ≤ high_water dir)
unfolding high_water
high_water-le dir =
    let h = high_from-le max_files 0 dir data_start in
    (h.0, λ j b f. h.1 j (omega arith) (omega arith) f)
