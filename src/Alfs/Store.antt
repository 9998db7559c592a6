-- ===== src/Alfs/Store.antt =====
-- `alfs_write` as a whole: the slot it takes, what it stores there, and what it leaves alone.
use ali_os.Base.{
  ℕ, zero, suc, ◌+◌, ◌*◌, ◌≤◌, ◌<◌, ◌≡◌, ◌≢◌, ◌∙◌, ◌⊎◌, refl, ap, update, update_ne, true, false,
  Option, none, some, List, ◌==◌, inl, inr, Bool-cases, arith,
}
use ali_os.Ata.{sector_size}
use ali_os.Alfs.{Fs, Dirent, max_files, data_start, is_used, is_dir, find_from}
use ali_os.Alfs.Extent.{Fits}
use ali_os.Alfs.Writing.{
  write_slot, alfs_write, write_chosen, file_end, is_file, raise_mark, high_from, high_water,
  free_slot_from,
}
use ali_os.Alfs.Find.{
  matches, unused, FoundFirst, find-FoundFirst, free_slot-FoundFirst, high_water-le,
}
use ali_os.Alfs.Write.{sectors_for}
use ali_os.Alfs.Slot.{Written, write_slot-Written}

-- The mark does not grow when an entry goes out of use.
raise_mark_mono : (e : Dirent) (h h' : ℕ) → h ≤ h' → raise_mark e h ≤ raise_mark e h'
unfolding raise_mark
raise_mark_mono e h h' le = ground arith

raise_mark-cleared : (e : Dirent) (h : ℕ) → raise_mark (record e { flags = 0 }) h ≡ h
unfolding raise_mark
raise_mark-cleared e h = refl

le-raise_mark : (e : Dirent) (h : ℕ) → h ≤ raise_mark e h
unfolding raise_mark
le-raise_mark e h = ground arith

high_from_mono :
    (left i k : ℕ) (dir : ℕ → Dirent) (h h' : ℕ)
    → h ≤ h'
    → high_from left i (update dir k (record (dir k) { flags = 0 })) h ≤ high_from left i dir h'
unfolding high_from
high_from_mono zero i k dir h h' le = le
high_from_mono (suc left) i k dir h h' le =
    high_from_mono left (i + 1) k dir _ _ (elim (Bool-cases (k == i)) [
      | inl here ↦
          let e : k ≡ i = ground arith in
          rw (here, raise_mark-cleared (dir k) h) (omega (arith, le-raise_mark (dir i) h'))
      | inr there ↦ rw there (raise_mark_mono (dir i) h h' le)
    ])

cleared : ℕ → Fs → Fs
cleared i fs = record fs { dir = update fs.dir i (record (fs.dir i) { flags = 0 }) }

high_water-cleared : (i : ℕ) (fs : Fs) → high_water (cleared i fs).dir ≤ high_water fs.dir
unfolding high_water cleared
high_water-cleared i fs = high_from_mono max_files 0 i fs.dir data_start data_start (omega arith)

-- What `alfs_write` may do. It refuses, and then changes nothing: the name is that of a directory, or
-- the table is full and holds no such name. Or it writes to one entry: the first one with the name,
-- or else the first one out of use; no other file then ends past the sector where the data start.
pub record TakesSlot (name : List ℕ) (src : ℕ → ℕ) (size : ℕ) (fs : Fs) (out : Option ℕ × Fs)
    : Type 0 where
  pub slot : ℕ
  pub start : ℕ
  pub in_table : slot < max_files
  pub which :
      ((matches name (fs.dir slot) ≡ true) × (is_dir (fs.dir slot) ≡ false))
      ⊎ ((is_used (fs.dir slot) ≡ false)
          × ((j : ℕ) → j < max_files → matches name (fs.dir j) ≡ false))
  pub first : (j : ℕ) → j < slot → matches name (fs.dir j) ≡ false
  pub from_data : data_start ≤ start
  pub fits : Fits start (sectors_for size * sector_size)
  pub past :
      (j : ℕ) → j < max_files → slot ≢ j → is_file (fs.dir j) ≡ true → file_end (fs.dir j) ≤ start
  pub written : Written slot start name src size fs out

abbrev pub Refuses : List ℕ → Fs → Option ℕ × Fs → Type 0
Refuses name fs out =
    (out ≡ (none, fs))
    × (((i : ℕ) × (i < max_files) × (matches name (fs.dir i) ≡ true) × (is_dir (fs.dir i) ≡ true))
        ⊎ ((j : ℕ)
            → j < max_files
            → (matches name (fs.dir j) ≡ false) × (is_used (fs.dir j) ≡ true)))

overwrite :
    (name : List ℕ) (src : ℕ → ℕ) (size : ℕ) (fs : Fs) (i : ℕ)
    → FoundFirst (matches name) 0 max_files fs.dir (some i)
    → Fits (high_water fs.dir) (sectors_for size * sector_size)
    → is_dir (fs.dir i) ≡ false
    → TakesSlot name src size fs (write_slot i name src size (cleared i fs))
unfolding cleared
overwrite name src size fs i (_, lt, hit, first) fits file =
    let w =
      write_slot-Written i name src size (cleared i fs) lt
        (omega (arith, high_water-cleared i fs)) in
    record {
      slot = i;
      start = high_water (cleared i fs).dir;
      in_table = lt;
      which = inl (hit, file);
      first = λ j h. first j (omega arith) h;
      from_data = (high_water-le (cleared i fs).dir).0;
      fits = omega (arith, high_water-cleared i fs);
      past = λ j h n f.
          let e : (cleared i fs).dir j ≡ fs.dir j =
            update_ne fs.dir i j (record (fs.dir i) { flags = 0 }) n in
          let ends : file_end ((cleared i fs).dir j) ≡ file_end (fs.dir j) = ap file_end e in
          omega (arith, (high_water-le (cleared i fs).dir).1 j h (ap is_file e ∙ f));
      written = record {
        same_ready = w.same_ready;
        other_entries =
            λ j n. w.other_entries j n ∙ update_ne fs.dir i j (record (fs.dir i) { flags = 0 }) n;
        other_bytes = w.other_bytes;
        outcome = w.outcome;
      };
    }

create :
    (name : List ℕ) (src : ℕ → ℕ) (size : ℕ) (fs : Fs) (i : ℕ)
    → FoundFirst (matches name) 0 max_files fs.dir none
    → FoundFirst unused 0 max_files fs.dir (some i)
    → Fits (high_water fs.dir) (sectors_for size * sector_size)
    → TakesSlot name src size fs (write_slot i name src size fs)
create name src size fs i none_such (_, lt, free, _) fits = record {
  slot = i;
  start = high_water fs.dir;
  in_table = lt;
  which = inr (ground arith, λ j h. none_such j (omega arith) h);
  first = λ j h. none_such j (omega arith) (omega arith);
  from_data = (high_water-le fs.dir).0;
  fits = fits;
  past = λ j h n f. (high_water-le fs.dir).1 j h f;
  written = write_slot-Written i name src size fs lt fits;
}

write_cases :
    (name : List ℕ) (src : ℕ → ℕ) (size : ℕ) (fs : Fs) (o o' : Option ℕ)
    → FoundFirst (matches name) 0 max_files fs.dir o
    → FoundFirst unused 0 max_files fs.dir o'
    → Fits (high_water fs.dir) (sectors_for size * sector_size)
    → Refuses name fs (write_chosen o o' name src size fs)
      ⊎ TakesSlot name src size fs (write_chosen o o' name src size fs)
unfolding write_chosen cleared
write_cases name src size fs (some i) o' found free fits = elim (Bool-cases (is_dir (fs.dir i))) [
  | inl folder ↦ rw folder (inl (refl, inl (i, found.1, found.2, folder)))
  | inr file ↦ rw file (inr (overwrite name src size fs i found fits file))
]
write_cases name src size fs none none none_such full fits =
    inl (refl, inr (λ j h. (none_such j (omega arith) h, ground (arith, full j (omega arith) h))))
write_cases name src size fs none (some i) none_such free fits =
    inr (create name src size fs i none_such free fits)

alfs_write_ready :
    (name : List ℕ) (src : ℕ → ℕ) (size : ℕ) (fs : Fs)
    → fs.ready ≡ true
    → alfs_write name src size fs
      ≡ write_chosen
          (find_from max_files 0 name fs.dir)
          (free_slot_from max_files 0 fs.dir)
          name
          src
          size
          fs
unfolding alfs_write
alfs_write_ready name src size fs ready = simp ready

-- With the filesystem ready and sectors enough past the high-water mark, `alfs_write` refuses with
-- -1 and no change, or takes one entry and writes the file to it. If that succeeds, the entry has the
-- name, the size and the start sector, and the disk holds the data there; it fails only if the drive
-- does. No other entry changes, nor any data byte below the start, where all other files lie.
pub alfs_write-TakesSlot :
    (name : List ℕ) (src : ℕ → ℕ) (size : ℕ) (fs : Fs)
    → fs.ready ≡ true
    → Fits (high_water fs.dir) (sectors_for size * sector_size)
    → Refuses name fs (alfs_write name src size fs)
      ⊎ TakesSlot name src size fs (alfs_write name src size fs)
alfs_write-TakesSlot name src size fs ready fits = rw (alfs_write_ready name src size fs ready) (
    write_cases name src size fs _ _ (find-FoundFirst name fs.dir) (free_slot-FoundFirst fs.dir)
      fits)
