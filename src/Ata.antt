-- ===== src/Ata.antt =====
-- kernel/ata.c: reading and writing sectors of the slave drive by programmed I/O. The drive itself
-- is a parameter: its bytes, at `sector * 512 + offset`, and for each wait for its status register
-- whether the drive answers in time and without an error (`polls`, by the number of the wait). A drive
-- that has not answered is not ready: what is written to its data port is lost, and what is read from
-- it is unknown (`stray`).
pub mod Slices
pub mod Sectors
mod Tests
use ali_os.Base.{
  ℕ, zero, suc, ◌+◌, ◌-◌, ◌*◌, ◌%◌, ◌^◌, Bool, true, false, ◌&&◌, Option, none, some, List, [], ◌∷◌,
  ◌++◌, if◌then◌else◌, ◌==◌, ltb, leb,
}

pub record Drive : Type 0 where
  pub bytes : ℕ → ℕ
  pub polls : ℕ → Bool
  pub clock : ℕ
  pub ready : Bool
  pub stray : ℕ → ℕ

abbrev pub sector_size : ℕ
sector_size = 512

-- `n` bytes from address `a` on
unfoldable pub slice : (ℕ → ℕ) → ℕ → ℕ → List ℕ
slice f a zero = []
slice f a (suc n) = f a ∷ slice f (a + 1) n

-- `n` bytes of `src` laid over `f` at address `a`
abbrev pub overlay : (ℕ → ℕ) → ℕ → ℕ → (ℕ → ℕ) → ℕ → ℕ
overlay f a n src i = if leb a i && ltb i (a + n) then src (i - a) else f i

-- `ata_poll`, and the wait after FLUSH CACHE
unfoldable pub ata_poll : Drive → Bool × Drive
ata_poll d = (d.polls d.clock, record d { clock = d.clock + 1; ready = d.polls d.clock })

-- The 256 words of a sector that come through the data port, and those that go through it.
unfoldable pub data_in : ℕ → Drive → List ℕ
data_in s d =
    if d.ready
    then slice d.bytes (s * sector_size) sector_size
    else slice d.stray (s * sector_size) sector_size

unfoldable pub data_out : ℕ → (ℕ → ℕ) → Drive → Drive
data_out s src d =
    if d.ready then record d { bytes = overlay d.bytes (s * sector_size) sector_size src } else d

-- The bytes of a sector, and those of the sectors behind it unless one of these failed.
unfoldable pub and_then : List ℕ → Option (List ℕ) → Option (List ℕ)
and_then bs none = none
and_then bs (some cs) = some (bs ++ cs)

-- The loop of `ata_read`: the sectors from `s` on, `none` for -1.
unfoldable pub read_sectors : ℕ → ℕ → Drive → Option (List ℕ) × Drive
unfolding ata_poll data_in
read_sectors zero s d = (some [], d)
read_sectors (suc count) s d =
    let (ok, d') = ata_poll d in
    let (rest, d'') = read_sectors count (s + 1) d' in
    if ok then (and_then (data_in s d') rest, d'') else (none, d')

-- The registers of `ata_setup` hold 28 bits of the sector number.
abbrev pub lba28 : ℕ → ℕ
lba28 lba = lba % 2 ^ 28

-- `ata_read(drive, lba, count, buf)`, with `count` a byte; the result is what `buf` receives.
unfoldable pub ata_read : ℕ → ℕ → Drive → Option (List ℕ) × Drive
ata_read lba count d = read_sectors count (lba28 lba) d

-- the loop of `ata_write`
unfoldable pub write_sectors : ℕ → ℕ → (ℕ → ℕ) → Drive → Bool × Drive
unfolding ata_poll data_out
write_sectors zero s src d = (true, d)
write_sectors (suc count) s src d =
    let (ok, d') = ata_poll d in
    let rest = write_sectors count (s + 1) (λ i. src (sector_size + i)) (data_out s src d') in
    if ok then rest else (false, d')

-- `ata_write(drive, lba, count, buf)`: `false` for -1.
unfoldable pub ata_write : ℕ → ℕ → (ℕ → ℕ) → Drive → Bool × Drive
unfolding ata_poll
ata_write lba count src d =
    let (ok, d') = write_sectors count (lba28 lba) src d in
    if count == 0 then (true, d) else if ok then ata_poll d' else (false, d')
