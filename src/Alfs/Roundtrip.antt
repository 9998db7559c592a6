-- ===== src/Alfs/Roundtrip.antt =====
-- What `alfs_write` of kernel/alfs.c stores, `alfs_pread` reads back, and the other files keep theirs.
use ali_os.Base.{
  ℕ, pos, zero, suc, ◌+◌, ◌-◌, ◌*◌, ◌/◌, ◌^◌, ◌≤◌, ◌<◌, ◌≡◌, ◌≢◌, ◌∙◌, ◌⊎◌, refl, ap, ap₂, sym, min,
  true, false, Option, none, some, List, ◌∷◌, ltb, inl, inr, arith,
}
use ali_os.Ata.{sector_size, slice}
use ali_os.Ata.Sectors.{Failed}
use ali_os.Alfs.{Fs, Dirent, max_files, data_start, is_used, entry_at}
use ali_os.Alfs.Reading.{alfs_pread}
use ali_os.Alfs.Find.{matches}
use ali_os.Alfs.Writing.{file_end, is_file, new_entry, alfs_write, high_water}
use ali_os.Alfs.Extent.{Fits}
use ali_os.Alfs.Read.{alfs_pread-FileRead}
use ali_os.Alfs.Write.{sectors_for}
use ali_os.Alfs.Store.{TakesSlot, alfs_write-TakesSlot}

slice_cong :
    (f g : ℕ → ℕ) (n a b : ℕ)
    → ((i : ℕ) → i < n → f (a + i) ≡ g (b + i))
    → slice f a n ≡ slice g b n
unfolding slice
slice_cong f g zero a b h = refl
slice_cong f g (suc n) a b h =
    let ea : a + 0 ≡ a = omega arith in
    let eb : b + 0 ≡ b = omega arith in
    ap₂ ◌∷◌ (sym (ap f ea) ∙ h 0 (omega arith) ∙ ap g eb) (
      slice_cong f g n (a + 1) (b + 1) (λ i lt.
        let e : a + 1 + i ≡ a + (i + 1) = omega arith in
        let e' : b + 1 + i ≡ b + (i + 1) = omega arith in
        ap f e ∙ h (i + 1) (omega arith) ∙ sym (ap g e')))

-- A file system in which entry `slot` is a file with this name, and the disk holds its bytes.
pub record Stored (slot : ℕ) (name : List ℕ) (src : ℕ → ℕ) (size : ℕ) (fs : Fs) : Type 0 where
  pub start : ℕ
  pub in_table : slot < max_files
  pub ready : fs.ready ≡ true
  pub entry : fs.dir slot ≡ new_entry name start size 1
  pub fits : Fits start size
  pub holds : (i : ℕ) → i < size → fs.drive.bytes (start * sector_size + i) ≡ src i

true_not_false : false ≡ true → ⊥
true_not_false h = ground arith

some_not_none : (slot : ℕ) → some slot ≡ none → ⊥
some_not_none slot h = ground arith

TakesSlot-Stored :
    (slot : ℕ) (name : List ℕ) (src : ℕ → ℕ) (size : ℕ) (fs : Fs) (out : Option ℕ × Fs)
    → fs.ready ≡ true
    → TakesSlot name src size fs out
    → out.0 ≡ some slot
    → Stored slot name src size out.1
TakesSlot-Stored slot name src size fs out ready t e = elim t.written.outcome [
  | inl (e', entry, held) ↦
      let same : t.slot ≡ slot = ground arith in
      record {
        start = t.start;
        in_table = omega (arith, t.in_table);
        ready = t.written.same_ready ∙ ready;
        entry = ap out.1.dir (sym same) ∙ entry;
        fits = ground (arith, t.fits);
        holds = held;
      }
  | inr (e', _) ↦ absurd (ground arith)
]

stored :
    (slot : ℕ) (name : List ℕ) (src : ℕ → ℕ) (size : ℕ) (fs : Fs)
    → fs.ready ≡ true
    → Fits (high_water fs.dir) (sectors_for size * sector_size)
    → (alfs_write name src size fs).0 ≡ some slot
    → Stored slot name src size (alfs_write name src size fs).1
stored slot name src size fs ready fits e =
    elim (alfs_write-TakesSlot name src size fs ready fits) [
      | inl (refused, _) ↦
          absurd (some_not_none slot (sym e ∙ ap (λ (o : Option ℕ × Fs). o.0) refused))
      | inr t ↦ TakesSlot-Stored slot name src size fs (alfs_write name src size fs) ready t e
    ]

entry_at-Stored :
    (slot : ℕ) (name : List ℕ) (src : ℕ → ℕ) (size : ℕ) (fs : Fs) (s : Stored slot name src size fs)
    → entry_at (pos slot) fs ≡ some (new_entry name s.start size 1)
unfolding entry_at
entry_at-Stored slot name src size fs s =
    let used : is_used (fs.dir slot) ≡ true = ap (λ (d : Dirent). is_used d) s.entry in
    let below : ltb slot max_files ≡ true = ground (arith, s.in_table) in
    rw (s.ready, below, used) (ap some s.entry)

-- What a successful `alfs_write` stored, `alfs_pread` gets back: from any offset on, the bytes
-- written, as many as asked for or as there are, or -1 if the drive fails. The filesystem is ready, and
-- there are sectors enough past the high-water mark.
pub alfs_write-alfs_pread :
    (slot : ℕ) (name : List ℕ) (src : ℕ → ℕ) (size : ℕ) (fs : Fs) (len off : ℕ)
    → fs.ready ≡ true
    → Fits (high_water fs.dir) (sectors_for size * sector_size)
    → (alfs_write name src size fs).0 ≡ some slot
    → ((alfs_pread (pos slot) len off (alfs_write name src size fs).1).0
        ≡ some (slice src off (min len (size - off))))
      ⊎ (((alfs_pread (pos slot) len off (alfs_write name src size fs).1).0 ≡ none)
          × Failed (alfs_write name src size fs).1.drive)
alfs_write-alfs_pread slot name src size fs len off ready fits e =
    let fs' : Fs = (alfs_write name src size fs).1 in
    let s = stored slot name src size fs ready fits e in
    let r =
      alfs_pread-FileRead (pos slot) len off fs' (new_entry name s.start size 1)
        (entry_at-Stored slot name src size fs' s) s.fits in
    elim r.drive_read.result [
      | inl got ↦ inl (
          got
          ∙ ap some (
              slice_cong fs'.drive.bytes src (min len (size - off)) (s.start * sector_size + off)
                off
                (λ i lt.
                  let e' : s.start * sector_size + off + i ≡ s.start * sector_size + (off + i) =
                    omega arith in
                  ap fs'.drive.bytes e' ∙ s.holds (off + i) (omega arith))))
      | inr bad ↦ inr bad
    ]

-- The file of entry `j` lies in the data sectors, and its last sector has a 32-bit number.
pub record InData (e : Dirent) : Type 0 where
  pub file : is_file e ≡ true
  pub starts : data_start ≤ e.start
  pub small : e.size + 511 < 2 ^ 32
  pub ends : e.start + (e.size + 511) / 512 < 2 ^ 32

abbrev pub Keeps : ℕ → Fs → Fs → Type 0
Keeps j fs fs' =
    (fs'.dir j ≡ fs.dir j)
    × ((i : ℕ)
        → i < (fs.dir j).size
        → fs'.drive.bytes ((fs.dir j).start * sector_size + i)
          ≡ fs.drive.bytes ((fs.dir j).start * sector_size + i))

not_taken :
    (name : List ℕ) (src : ℕ → ℕ) (size j : ℕ) (fs : Fs) (out : Option ℕ × Fs)
    (t : TakesSlot name src size fs out)
    → matches name (fs.dir j) ≡ false
    → is_used (fs.dir j) ≡ true
    → t.slot ≢ j
not_taken name src size j fs out t differs used e = elim t.which [
  | inl (hit, _) ↦ true_not_false (sym (ap (λ k. matches name (fs.dir k)) e ∙ differs) ∙ hit)
  | inr (free, _) ↦ true_not_false (sym free ∙ ap (λ k. is_used (fs.dir k)) e ∙ used)
]

TakesSlot-Keeps :
    (name : List ℕ) (src : ℕ → ℕ) (size j : ℕ) (fs : Fs) (out : Option ℕ × Fs)
    → TakesSlot name src size fs out
    → j < max_files
    → InData (fs.dir j)
    → matches name (fs.dir j) ≡ false
    → Keeps j fs out.1
TakesSlot-Keeps name src size j fs out t lt d differs =
    let used : is_used (fs.dir j) ≡ true = ground (arith, d.file) in
    let n = not_taken name src size j fs out t differs used in
    let past : file_end (fs.dir j) ≤ t.start = t.past j lt n d.file in
    (
      t.written.other_entries j n,
      λ i h.
          t.written.other_bytes ((fs.dir j).start * sector_size + i) (omega (arith, d.starts))
            (omega (arith, d.small, d.ends)),
    )

-- Whether it succeeds or not, `alfs_write` leaves every other file alone: a file with another name, in
-- the data sectors, keeps its entry and every byte. The filesystem is ready, and there are sectors
-- enough past the high-water mark.
pub alfs_write-Keeps :
    (name : List ℕ) (src : ℕ → ℕ) (size j : ℕ) (fs : Fs)
    → fs.ready ≡ true
    → Fits (high_water fs.dir) (sectors_for size * sector_size)
    → j < max_files
    → InData (fs.dir j)
    → matches name (fs.dir j) ≡ false
    → Keeps j fs (alfs_write name src size fs).1
alfs_write-Keeps name src size j fs ready fits lt d differs =
    elim (alfs_write-TakesSlot name src size fs ready fits) [
      | inl (refused, _) ↦ rw refused (refl, λ i h. refl)
      | inr t ↦ TakesSlot-Keeps name src size j fs (alfs_write name src size fs) t lt d differs
    ]
