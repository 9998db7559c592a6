-- ===== src/Alfs/Reading.antt =====
-- kernel/alfs.c: `alfs_read` and `alfs_pread`.
use ali_os.Base.{
  ℤ, ℕ, zero, suc, ◌+◌, ◌-◌, ◌*◌, ◌/◌, ◌%◌, u32, ◌&&◌, ◌||◌, Option, none, some, List, [], ◌++◌,
  take, drop, if◌then◌else◌, ◌==◌, ltb, leb,
}
use ali_os.Ata.{Drive, sector_size, ata_read}
use ali_os.Alfs.{Fs, Dirent, entry_at}

-- One read after another: the bytes of both, or -1 at the first failure.
unfoldable pub chain :
    Option (List ℕ) × Drive → (Drive → Option (List ℕ) × Drive) → Option (List ℕ) × Drive
chain (none, d) next = (none, d)
chain (some bs, d) next =
    let (rest, d') = next d in (elim rest [ none ↦ none | some cs ↦ some (bs ++ cs) ], d')

-- A read of one sector through `sbuf`, of which `chunk` bytes from `off` on are copied out.
unfoldable pub bounce : ℕ → ℕ → ℕ → Drive → Option (List ℕ) × Drive
bounce lba off chunk d =
    let (sbuf, d') = ata_read lba 1 d in
    (elim sbuf [ none ↦ none | some bs ↦ some (take chunk (drop off bs)) ], d')

abbrev pub at_most_255 : ℕ → ℕ
at_most_255 n = if ltb 255 n then 255 else n

-- the loop of `alfs_read` over the whole sectors; a round reads at least one, so `full` rounds do
unfoldable pub read_full : ℕ → ℕ → ℕ → ℕ → Drive → Option (List ℕ) × Drive
read_full zero lba done full d = (some [], d)
read_full (suc fuel) lba done full d =
    let batch = at_most_255 (full - done) in
    if ltb done full
    then chain (ata_read (u32 (lba + done)) batch d)
        (λ d'. read_full fuel lba (done + batch) full d')
    else (some [], d)

-- `none` for -1; the result is what `buf` receives.
unfoldable pub read_entry : Dirent → ℕ → Fs → Option (List ℕ) × Fs
read_entry e max fs =
    let bytes = if ltb e.size max then e.size else max in
    let full = bytes / sector_size in
    let partial = bytes % sector_size in
    let (got, d) =
      chain (read_full full e.start 0 full fs.drive) (λ d'.
        if partial == 0 then (some [], d') else bounce (u32 (e.start + full)) 0 partial d') in
    if bytes == 0 then (some [], fs) else (got, record fs { drive = d })

unfoldable pub alfs_read : ℤ → ℕ → Fs → Option (List ℕ) × Fs
alfs_read idx max fs = elim (entry_at idx fs) [ none ↦ (none, fs) | some e ↦ read_entry e max fs ]

-- the loop of `alfs_pread`; a round reads at least one byte, so `remaining` rounds do
unfoldable pub pread_from : ℕ → ℕ → ℕ → ℕ → Drive → Option (List ℕ) × Drive
pread_from zero start off remaining d = (some [], d)
pread_from (suc fuel) start off remaining d =
    let lba = u32 (start + off / sector_size) in
    let sect_off = off % sector_size in
    let full = at_most_255 (remaining / sector_size) in
    let room = sector_size - sect_off in
    let chunk = if ltb remaining room then remaining else room in
    if remaining == 0
    then (some [], d)
    else if (sect_off == 0) && leb sector_size remaining
    then chain (ata_read lba full d)
        (λ d'. pread_from fuel start (off + full * sector_size) (remaining - full * sector_size) d')
    else chain (bounce lba sect_off chunk d)
        (λ d'. pread_from fuel start (off + chunk) (remaining - chunk) d')

unfoldable pub pread_entry : Dirent → ℕ → ℕ → Fs → Option (List ℕ) × Fs
pread_entry e len off fs =
    let avail = e.size - off in
    let bytes = if ltb len avail then len else avail in
    let (got, d) = pread_from bytes e.start off bytes fs.drive in
    if leb e.size off || (bytes == 0) then (some [], fs) else (got, record fs { drive = d })

unfoldable pub alfs_pread : ℤ → ℕ → ℕ → Fs → Option (List ℕ) × Fs
alfs_pread idx len off fs = elim (entry_at idx fs) [
  | none ↦ (none, fs)
  | some e ↦ pread_entry e len off fs
]
