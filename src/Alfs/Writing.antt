-- ===== src/Alfs/Writing.antt =====
-- kernel/alfs.c: `alfs_write`, `alfs_mkdir` and `alfs_delete`.
use ali_os.Base.{
  ℕ, zero, suc, ◌+◌, ◌-◌, ◌*◌, ◌/◌, ◌%◌, u32, update, Bool, true, false, not, ◌&&◌, Option, none,
  some, List, if◌then◌else◌, ◌==◌, ltb,
}
use ali_os.Ata.{Drive, sector_size, ata_write}
use ali_os.Alfs.{
  Fs, Dirent, max_files, dir_start, data_start, is_used, is_dir, strncpy_name, dir_byte, find_from,
  alfs_find,
}
use ali_os.Alfs.Reading.{at_most_255}

-- One past the last sector that a file uses.
abbrev pub file_end : Dirent → ℕ
file_end e = u32 (e.start + u32 (e.size + 511) / 512)

abbrev pub is_file : Dirent → Bool
is_file e = is_used e && not (is_dir e)

-- one round of the loop of `high_water`
unfoldable pub raise_mark : Dirent → ℕ → ℕ
raise_mark e hwm = if is_file e && ltb hwm (file_end e) then file_end e else hwm

-- the loop from entry `i` on
unfoldable pub high_from : ℕ → ℕ → (ℕ → Dirent) → ℕ → ℕ
high_from zero i dir hwm = hwm
high_from (suc left) i dir hwm = high_from left (i + 1) dir (raise_mark (dir i) hwm)

unfoldable pub high_water : (ℕ → Dirent) → ℕ
high_water dir = high_from max_files 0 dir data_start

-- `dir_flush_slot`: the sector of the table that holds entry `idx` goes to disk.
unfoldable pub dir_flush_slot : ℕ → Fs → Bool × Fs
dir_flush_slot idx fs =
    let (ok, d) =
      ata_write (dir_start + idx / 8) 1 (λ i. dir_byte fs.dir (idx / 8 * sector_size + i))
        fs.drive in
    (ok, record fs { drive = d })

-- the loop of `alfs_write` over the whole sectors
unfoldable pub write_full : ℕ → ℕ → ℕ → ℕ → (ℕ → ℕ) → Drive → Bool × Drive
write_full zero lba done full src d = (true, d)
write_full (suc fuel) lba done full src d =
    let batch = at_most_255 (full - done) in
    let (ok, d') = ata_write (u32 (lba + done)) batch (λ i. src (done * sector_size + i)) d in
    let rest = write_full fuel lba (done + batch) full src d' in
    if ltb done full then (if ok then rest else (false, d')) else (true, d)

-- The data part of `alfs_write`: the whole sectors, then the last one filled up with nulls (one
-- empty sector for an empty file).
unfoldable pub write_data : ℕ → (ℕ → ℕ) → ℕ → Drive → Bool × Drive
write_data start src size d =
    let full = size / sector_size in
    let partial = size % sector_size in
    let (ok, d') = write_full full start 0 full src d in
    let last =
      ata_write (u32 (start + full)) 1
        (λ i. if ltb i partial then src (full * sector_size + i) else 0) d' in
    if ok then (if (partial == 0) && not (size == 0) then (true, d') else last) else (false, d')

-- the first entry from `i` on that is not in use
unfoldable pub free_slot_from : ℕ → ℕ → (ℕ → Dirent) → Option ℕ
free_slot_from zero i dir = none
free_slot_from (suc left) i dir =
    let rest = free_slot_from left (i + 1) dir in if is_used (dir i) then rest else some i

-- An entry as `alfs_write` and `alfs_mkdir` fill it in.
abbrev pub new_entry : List ℕ → ℕ → ℕ → ℕ → Dirent
new_entry name start size flags = record {
  name = strncpy_name name;
  start = start;
  size = size;
  flags = flags;
}

-- `alfs_write` once the slot is known, over a table in which the old entry is out of use.
unfoldable pub write_slot : ℕ → List ℕ → (ℕ → ℕ) → ℕ → Fs → Option ℕ × Fs
write_slot slot name src size fs =
    let start = high_water fs.dir in
    let (ok, d) = write_data start src size fs.drive in
    let (flushed, fs') =
      dir_flush_slot slot
        (record fs { dir = update fs.dir slot (new_entry name start size 1); drive = d }) in
    if ok then (if flushed then some slot else none, fs') else (none, record fs { drive = d })

-- The part of `alfs_write` after the scan: over the entry that has the name, if one has, else in a
-- free one, if there is one.
unfoldable pub write_chosen : Option ℕ → Option ℕ → List ℕ → (ℕ → ℕ) → ℕ → Fs → Option ℕ × Fs
write_chosen (some i) free name src size fs =
    if is_dir (fs.dir i)
    then (none, fs)
    else write_slot i name src size
        (record fs { dir = update fs.dir i (record (fs.dir i) { flags = 0 }) })
write_chosen none (some i) name src size fs = write_slot i name src size fs
write_chosen none none name src size fs = (none, fs)

-- `none` for -1. The null pointers that the code refuses are not modelled.
unfoldable pub alfs_write : List ℕ → (ℕ → ℕ) → ℕ → Fs → Option ℕ × Fs
alfs_write name src size fs =
    if fs.ready
    then write_chosen (find_from max_files 0 name fs.dir) (free_slot_from max_files 0 fs.dir) name
        src size fs
    else (none, fs)

unfoldable pub alfs_mkdir : List ℕ → Fs → Option ℕ × Fs
alfs_mkdir path fs =
    if fs.ready
    then (elim (alfs_find path fs) [
      | some i ↦ (none, fs)
      | none ↦ elim (free_slot_from max_files 0 fs.dir) [
        | none ↦ (none, fs)
        | some slot ↦
            let (ok, fs') =
              dir_flush_slot slot (record fs { dir = update fs.dir slot (new_entry path 0 0 3) }) in
            (if ok then some slot else none, fs')
      ]
    ])
    else (none, fs)

-- `false` for -1.
unfoldable pub alfs_delete : List ℕ → Fs → Bool × Fs
alfs_delete name fs =
    if fs.ready
    then (elim (find_from max_files 0 name fs.dir) [
      | none ↦ (false, fs)
      | some i ↦
          dir_flush_slot i (record fs { dir = update fs.dir i (record (fs.dir i) { flags = 0 }) })
    ])
    else (false, fs)
