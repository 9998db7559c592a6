-- ===== src/Alfs.antt =====
-- kernel/alfs.c: the flat filesystem. The directory is a table of 48 entries in memory; file data
-- lie on the drive of kernel/ata.c, one extent of whole sectors to a file.
pub mod Reading
pub mod Writing
pub mod Names
pub mod Find
pub mod Lookup
pub mod Extent
pub mod Read
pub mod ReadAll
pub mod Write
pub mod Slot
pub mod Store
pub mod Roundtrip
mod Tests
use ali_os.Base.{
  ℤ, pos, negsuc, ℕ, zero, suc, ◌+◌, ◌-◌, ◌*◌, ◌/◌, ◌%◌, ◌^◌, u32, update, get_or, Bool, true,
  false, not, ◌&&◌, ◌||◌, Option, none, some, List, [], ◌∷◌, ◌++◌, take, drop, if◌then◌else◌, ◌==◌,
  ltb, leb,
}
use ali_os.Ata.{Drive, sector_size, ata_read, ata_write}

abbrev pub max_files : ℕ
max_files = 48

-- ALFS_NAME_MAX
abbrev pub name_max : ℕ
name_max = 52

abbrev pub dir_start : ℕ
dir_start = 1

abbrev pub dir_sects : ℕ
dir_sects = 6

abbrev pub data_start : ℕ
data_start = 7

abbrev pub magic : ℕ
magic = 0x414C4653

-- `alfs_dirent_t`. The name is the 52-byte array; bits 0 and 1 of `flags` are "in use" and
-- "directory".
pub record Dirent : Type 0 where
  pub name : ℕ → ℕ
  pub start : ℕ
  pub size : ℕ
  pub flags : ℕ

abbrev pub is_used : Dirent → Bool
is_used e = e.flags % 2 == 1

abbrev pub is_dir : Dirent → Bool
is_dir e = e.flags / 2 % 2 == 1

-- `fs_ready`, `fs_dir` and the drive
pub record Fs : Type 0 where
  pub ready : Bool
  pub dir : ℕ → Dirent
  pub drive : Drive

-- `streq(a, b)` from position `i` on, where `a` is an array and `b` a text up to its null.
unfoldable pub streq : (ℕ → ℕ) → ℕ → List ℕ → Bool
streq a i [] = a i == 0
streq a i (c ∷ cs) = if not (a i == 0) && (a i == c) then streq a (i + 1) cs else a i == c

-- What `strncpy_name` stores: at most 51 bytes of the text, filled up with nulls.
unfoldable pub strncpy_name : List ℕ → ℕ → ℕ
strncpy_name src i = if ltb i (name_max - 1) then get_or src i 0 else 0

-- Byte `i` of a little-endian 32-bit word, and the word of four bytes.
abbrev pub word_byte : ℕ → ℕ → ℕ
word_byte w i = w / 256 ^ i % 256

abbrev pub word_at : (ℕ → ℕ) → ℕ → ℕ
word_at f a = f a + 256 * f (a + 1) + 65536 * f (a + 2) + 16777216 * f (a + 3)

-- The 64 bytes of an entry, and the bytes of the whole table, as they lie in memory and on disk.
unfoldable pub dirent_byte : Dirent → ℕ → ℕ
dirent_byte e o =
    if ltb o 52
    then e.name o
    else if ltb o 56
    then word_byte e.start (o - 52)
    else if ltb o 60
    then word_byte e.size (o - 56)
    else word_byte e.flags (o - 60)

unfoldable pub dir_byte : (ℕ → Dirent) → ℕ → ℕ
dir_byte dir a = dirent_byte (dir (a / 64)) (a % 64)

-- The entry that lies at byte `a`.
unfoldable pub dirent_at : (ℕ → ℕ) → ℕ → Dirent
dirent_at f a = record {
  name = λ i. if ltb i 52 then f (a + i) else 0;
  start = word_at f (a + 52);
  size = word_at f (a + 56);
  flags = word_at f (a + 60);
}

-- `false` for -1. What a failed read leaves in the buffers is not modelled: the filesystem is then
-- not ready, and nothing reads them.
unfoldable pub alfs_init : Fs → Bool × Fs
alfs_init fs =
    let (super, d) = ata_read 0 1 fs.drive in
    let (table, d') = ata_read dir_start dir_sects d in
    elim super [
      | none ↦ (false, record fs { drive = d })
      | some sb ↦
          if word_at (λ i. get_or sb i 0) 0 == magic
          then (elim table [
            | none ↦ (false, record fs { drive = d' })
            | some tb ↦ (
              true,
              record {
                ready = true;
                dir = λ k. dirent_at (λ i. get_or tb i 0) (k * 64);
                drive = d';
              },
            )
          ])
          else (false, record fs { drive = d })
    ]

-- the loop of `alfs_find` from entry `i` on, with `left` rounds left
unfoldable pub find_from : ℕ → ℕ → List ℕ → (ℕ → Dirent) → Option ℕ
find_from zero i name dir = none
find_from (suc left) i name dir =
    let rest = find_from left (i + 1) name dir in
    if is_used (dir i) && streq (dir i).name 0 name then some i else rest

unfoldable pub alfs_find : List ℕ → Fs → Option ℕ
alfs_find name fs = if fs.ready then find_from max_files 0 name fs.dir else none

-- The guard of the calls that take an `int` index: the entry, if it is in range and in use.
unfoldable pub entry_at : ℤ → Fs → Option Dirent
entry_at (pos i) fs =
    if fs.ready && (ltb i max_files && is_used (fs.dir i)) then some (fs.dir i) else none
entry_at (negsuc n) fs = none

unfoldable pub alfs_size : ℤ → Fs → ℕ
alfs_size idx fs = elim (entry_at idx fs) [ none ↦ 0 | some e ↦ e.size ]

-- This one does not look at the "in use" bit.
unfoldable pub alfs_is_dir : ℤ → Fs → Bool
alfs_is_dir (pos i) fs = fs.ready && (ltb i max_files && is_dir (fs.dir i))
alfs_is_dir (negsuc n) fs = false

unfoldable pub alfs_stat : ℤ → Fs → Option ((ℕ → ℕ) × ℕ)
alfs_stat idx fs = elim (entry_at idx fs) [ none ↦ none | some e ↦ some (e.name, e.size) ]
