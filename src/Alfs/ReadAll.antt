-- ===== src/Alfs/ReadAll.antt =====
-- `alfs_read` of kernel/alfs.c delivers the first bytes of the file's extent.
use ali_os.Base.{
  ℕ, ℤ, zero, suc, ◌+◌, ◌-◌, ◌*◌, ◌/◌, ◌%◌, ◌^◌, ◌≤◌, ◌<◌, ◌≡◌, refl, u32, min, some, [],
  if◌then◌else◌, ◌==◌, ltb, inl, inr, Bool-cases, arith,
}
use ali_os.Ata.{Drive, sector_size}
use ali_os.Ata.Sectors.{Reads}
use ali_os.Alfs.{Fs, Dirent, entry_at}
use ali_os.Alfs.Reading.{bounce, at_most_255, read_full, read_entry, alfs_read}
use ali_os.Alfs.Extent.{
  nothing-Reads, chain-Reads, at_address, ata_read_at, bounce-Reads, Fits, FileRead,
}

read_full-Reads :
    (fuel lba done full : ℕ) (d : Drive)
    → full - done ≤ fuel
    → done ≤ full
    → Fits lba (full * sector_size)
    → Reads
        ((lba + done) * sector_size)
        ((full - done) * sector_size)
        d
        (read_full fuel lba done full d)
unfolding read_full
read_full-Reads zero lba done full d enough le fits =
    at_address refl (omega arith) (nothing-Reads ((lba + done) * sector_size) d)
read_full-Reads (suc fuel) lba done full d enough le fits =
    let batch = at_most_255 (full - done) in
    elim (Bool-cases (ltb done full)) [
      | inl more ↦
          let low : lba + done < 2 ^ 28 = ground arith in
          let e : u32 (lba + done) ≡ lba + done = omega arith in
          let part : batch ≤ full - done = ground arith in
          rw (more, e)
            (at_address refl (omega arith) (
              chain-Reads ((lba + done) * sector_size) (batch * sector_size)
                ((full - (done + batch)) * sector_size) d _ _ (ata_read_at (lba + done) batch d low)
                (at_address (omega arith) refl (
                  read_full-Reads fuel lba (done + batch) full _ (ground arith) (omega arith)
                    fits))))
      | inr finished ↦
          rw finished
            (at_address refl (ground arith) (nothing-Reads ((lba + done) * sector_size) d))
    ]

partial_read-Reads :
    (start full partial : ℕ) (d : Drive)
    → partial < sector_size
    → Fits start (full * sector_size + partial)
    → Reads
        (start * sector_size + full * sector_size)
        partial
        d
        (if partial == 0 then (some [], d) else bounce (u32 (start + full)) 0 partial d)
partial_read-Reads start full partial d h fits = elim (Bool-cases (partial == 0)) [
  | inl no_rest ↦
      rw no_rest (
        at_address refl (ground arith) (nothing-Reads (start * sector_size + full * sector_size) d))
  | inr more ↦
      let e : u32 (start + full) ≡ start + full = ground arith in
      let low : start + full < 2 ^ 28 = ground arith in
      rw (more, e)
        (at_address (omega arith) refl (bounce-Reads (start + full) 0 partial d low (omega arith)))
]

-- `alfs_read` changes neither the directory nor the disk. For an entry in use whose extent fits on
-- the disk it delivers the first `max` bytes of the file, or all of them, or -1 if the drive fails:
-- what `alfs_pread` delivers from offset 0.
pub alfs_read-FileRead :
    (idx : ℤ) (max : ℕ) (fs : Fs) (e : Dirent)
    → entry_at idx fs ≡ some e
    → Fits e.start e.size
    → FileRead e 0 (min max e.size) fs (alfs_read idx max fs)
unfolding alfs_read read_entry
alfs_read-FileRead idx max fs e found fits =
    rw (found, alfs_read)
      (elim (Bool-cases (bytes == 0)) [
        | inl no_bytes ↦ rw no_bytes (record {
          same_dir = refl;
          same_ready = refl;
          drive_read =
              at_address refl (ground arith) (nothing-Reads (e.start * sector_size + 0) fs.drive);
        })
        | inr more ↦ rw more (record {
          same_dir = refl;
          same_ready = refl;
          drive_read = at_address (omega arith) (ground arith) (
              chain-Reads (e.start * sector_size) (full * sector_size) partial fs.drive _ _
                (at_address (omega arith) (omega arith)
                  (read_full-Reads full e.start 0 full fs.drive (omega arith) (omega arith) whole))
                (partial_read-Reads e.start full partial _ (omega arith) both));
        })
      ])
  where
    bytes : ℕ
    bytes = if ltb e.size max then e.size else max

    full : ℕ
    full = bytes / sector_size

    partial : ℕ
    partial = bytes % sector_size

    whole : Fits e.start (full * sector_size)
    whole = ground arith

    both : Fits e.start (full * sector_size + partial)
    both = ground arith
