-- ===== src/Alfs/Read.antt =====
-- `alfs_pread` of kernel/alfs.c delivers the bytes of the file's extent.
use ali_os.Base.{
  ℕ, ℤ, zero, suc, ◌+◌, ◌-◌, ◌*◌, ◌/◌, ◌%◌, ◌≤◌, ◌<◌, ◌≡◌, refl, u32, min, ◌&&◌, ◌||◌, Option, some,
  List, if◌then◌else◌, ◌==◌, ltb, leb, inl, inr, Bool-cases, arith,
}
use ali_os.Ata.{Drive, sector_size, ata_read}
use ali_os.Ata.Sectors.{Reads}
use ali_os.Alfs.{Fs, Dirent, entry_at}
use ali_os.Alfs.Reading.{chain, bounce, at_most_255, pread_from, pread_entry, alfs_pread}
use ali_os.Alfs.Extent.{
  nothing-Reads, chain-Reads, at_address, ata_read_at, bounce-Reads, Fits, FileRead,
}

-- The reads that a round of `alfs_pread` makes, at byte `off` of the extent.
aligned-Reads :
    (start off full remaining : ℕ) (d : Drive)
    → off % sector_size ≡ 0
    → 0 < remaining
    → full * sector_size ≤ remaining
    → Fits start (off + remaining)
    → Reads
        (start * sector_size + off)
        (full * sector_size)
        d
        (ata_read (u32 (start + off / sector_size)) full d)
aligned-Reads start off full remaining d al p h fits =
    let lba : u32 (start + off / sector_size) ≡ start + off / sector_size = omega arith in
    rw lba
      (at_address (omega arith) refl (ata_read_at (start + off / sector_size) full d (omega arith)))

bounced-Reads :
    (start off chunk remaining : ℕ) (d : Drive)
    → off % sector_size + chunk ≤ sector_size
    → 0 < remaining
    → Fits start (off + remaining)
    → Reads
        (start * sector_size + off)
        chunk
        d
        (bounce (u32 (start + off / sector_size)) (off % sector_size) chunk d)
bounced-Reads start off chunk remaining d h p fits =
    let lba : u32 (start + off / sector_size) ≡ start + off / sector_size = omega arith in
    rw lba (
      at_address (omega arith) refl
        (bounce-Reads (start + off / sector_size) (off % sector_size) chunk d (omega arith) h))

round-Reads :
    (start off n remaining : ℕ) (d : Drive) (o : Option (List ℕ) × Drive)
    (next : Drive → Option (List ℕ) × Drive)
    → n ≤ remaining
    → Reads (start * sector_size + off) n d o
    → ((e : Drive) → Reads (start * sector_size + (off + n)) (remaining - n) e (next e))
    → Reads (start * sector_size + off) remaining d (chain o next)
round-Reads start off n remaining d o next h one later = at_address refl (omega arith) (
    chain-Reads (start * sector_size + off) n (remaining - n) d o next one
      (at_address (omega arith) refl (later o.1)))

pread_from-Reads :
    (fuel start off remaining : ℕ) (d : Drive)
    → remaining ≤ fuel
    → Fits start (off + remaining)
    → Reads (start * sector_size + off) remaining d (pread_from fuel start off remaining d)
unfolding pread_from
pread_from-Reads zero start off remaining d enough fits =
    let e : 0 ≡ remaining = omega arith in
    at_address refl e (nothing-Reads (start * sector_size + off) d)
pread_from-Reads (suc fuel) start off remaining d enough fits =
    let full = at_most_255 (remaining / sector_size) in
    let room = sector_size - off % sector_size in
    let chunk = if ltb remaining room then remaining else room in
    elim (Bool-cases (remaining == 0)) [
      | inl done ↦
          rw done (at_address refl (ground arith) (nothing-Reads (start * sector_size + off) d))
      | inr more ↦ elim (Bool-cases ((off % sector_size == 0) && leb sector_size remaining)) [
        | inl aligned ↦
            rw (more, aligned)
              (round-Reads start off (full * sector_size) remaining d _ _ (ground arith)
                (aligned-Reads start off full remaining d (ground arith) (ground arith)
                  (ground arith) fits)
                (λ e.
                  pread_from-Reads fuel start (off + full * sector_size)
                    (remaining - full * sector_size) e (ground arith) (ground arith)))
        | inr other ↦
            rw (more, other)
              (round-Reads start off chunk remaining d _ _ (ground arith)
                (bounced-Reads start off chunk remaining d (ground arith) (ground arith) fits)
                (λ e.
                  pread_from-Reads fuel start (off + chunk) (remaining - chunk) e (ground arith)
                    (ground arith)))
      ]
    ]

-- `alfs_pread` changes neither the directory nor the disk. For an entry in use whose extent fits on
-- the disk it delivers the bytes of the file from `off` on, `len` of them or as many as there are,
-- or -1 if the drive fails.
pub alfs_pread-FileRead :
    (idx : ℤ) (len off : ℕ) (fs : Fs) (e : Dirent)
    → entry_at idx fs ≡ some e
    → Fits e.start e.size
    → FileRead e off (min len (e.size - off)) fs (alfs_pread idx len off fs)
unfolding alfs_pread pread_entry
alfs_pread-FileRead idx len off fs e found fits =
    rw (found, alfs_pread)
      (elim (Bool-cases (leb e.size off || (bytes == 0))) [
        | inl none_left ↦ rw none_left (record {
          same_dir = refl;
          same_ready = refl;
          drive_read =
              at_address refl (ground arith) (nothing-Reads (e.start * sector_size + off) fs.drive);
        })
        | inr more ↦ rw more (record {
          same_dir = refl;
          same_ready = refl;
          drive_read =
              at_address refl (ground arith)
                (pread_from-Reads bytes e.start off bytes fs.drive (omega arith) (ground arith));
        })
      ])
  where
    bytes : ℕ
    bytes = if ltb len (e.size - off) then len else e.size - off
