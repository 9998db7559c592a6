-- ===== src/Alfs/Tests.antt =====
-- Tests of kernel/alfs.c's model, and its theorems at concrete inputs.
use ali_os.Base.{
  ℕ, pos, ◌-◌, ◌%◌, false, ◌≡◌, ◌⊎◌, refl, true, none, some, List, [], ◌∷◌, arith, min,
  if◌then◌else◌, ◌==◌,
}
use ali_os.Alfs.{Fs, Dirent, streq, strncpy_name, find_from, alfs_find, entry_at, alfs_size}
use ali_os.Alfs.Reading.{alfs_read, alfs_pread}
use ali_os.Alfs.Writing.{alfs_write, raise_mark, high_from, high_water}
use ali_os.Alfs.Names.{NonNull, streq-strncpy_name}
use ali_os.Alfs.Find.{matches}
use ali_os.Alfs.Lookup.{FindsNamed, alfs_find-FindsNamed}
use ali_os.Alfs.Extent.{FileRead}
use ali_os.Alfs.Read.{alfs_pread-FileRead}
use ali_os.Alfs.ReadAll.{alfs_read-FileRead}
use ali_os.Ata.{slice, ata_write, write_sectors}
use ali_os.Ata.Sectors.{Failed}
use ali_os.Alfs.Writing.{
  free_slot_from, write_chosen, write_slot, dir_flush_slot, write_data, write_full,
}
use ali_os.Alfs.Roundtrip.{Keeps, alfs_write-alfs_pread, alfs_write-Keeps}
use ali_os.Alfs.Store.{Refuses, TakesSlot, alfs_write-TakesSlot}

-- `"hi"`
abbrev hi : List ℕ
hi = 104 ∷ 105 ∷ []

abbrev unused_entry : Dirent
unused_entry = record { name = λ i. 0; start = 0; size = 0; flags = 0 }

-- Entry 2 is the file `hi`, of 1000 bytes in sectors 9 and 10.
abbrev hi_entry : Dirent
hi_entry = record { name = strncpy_name hi; start = 9; size = 1000; flags = 1 }

abbrev one_file : Fs
one_file = record {
  ready = true;
  dir = λ i. if i == 2 then hi_entry else unused_entry;
  drive = record {
    bytes = λ i. i % 256;
    polls = λ n. true;
    clock = 0;
    ready = true;
    stray = λ i. 9;
  };
}

find_hi : alfs_find hi one_file ≡ some 2
unfolding alfs_find find_from streq strncpy_name
find_hi = refl

find_ho : alfs_find (104 ∷ 111 ∷ []) one_file ≡ none
unfolding alfs_find find_from streq strncpy_name
find_ho = refl

size_of_hi : alfs_size (pos 2) one_file ≡ 1000
unfolding alfs_size entry_at
size_of_hi = refl

mark : high_water one_file.dir ≡ 11
unfolding high_water high_from raise_mark
mark = refl

hi_found : entry_at (pos 2) one_file ≡ some hi_entry
unfolding entry_at
hi_found = refl

alfs_pread-FileRead_example :
    FileRead hi_entry 990 (min 100 (1000 - 990)) one_file (alfs_pread (pos 2) 100 990 one_file)
alfs_pread-FileRead_example =
    alfs_pread-FileRead (pos 2) 100 990 one_file hi_entry hi_found (omega arith)

alfs_read-FileRead_example :
    FileRead hi_entry 0 (min 600 1000) one_file (alfs_read (pos 2) 600 one_file)
alfs_read-FileRead_example = alfs_read-FileRead (pos 2) 600 one_file hi_entry hi_found (omega arith)

hi-NonNull : NonNull hi
hi-NonNull = ((λ e. absurd (omega arith)), ((λ e. absurd (omega arith)), tt))

alfs_find-FindsNamed_example : FindsNamed hi one_file.dir (alfs_find hi one_file)
alfs_find-FindsNamed_example = alfs_find-FindsNamed hi one_file refl hi-NonNull

streq-strncpy_name_example : streq (strncpy_name hi) 0 hi ≡ true
streq-strncpy_name_example =
    streq-strncpy_name hi ((λ e. absurd (omega arith)), ((λ e. absurd (omega arith)), tt))

alfs_write-TakesSlot_example :
    Refuses hi one_file (alfs_write hi (λ i. 1) 700 one_file)
    ⊎ TakesSlot hi (λ i. 1) 700 one_file (alfs_write hi (λ i. 1) 700 one_file)
alfs_write-TakesSlot_example =
    alfs_write-TakesSlot hi (λ i. 1) 700 one_file refl (omega (arith, mark))

write_hi : (alfs_write hi (λ i. 1) 700 one_file).0 ≡ some 2
unfolding alfs_write find_from streq strncpy_name free_slot_from write_chosen write_slot
    dir_flush_slot write_data write_full high_water high_from raise_mark ata_write write_sectors
write_hi = refl

alfs_write-alfs_pread_example :
    ((alfs_pread (pos 2) 100 650 (alfs_write hi (λ i. 1) 700 one_file).1).0
      ≡ some (slice (λ i. 1) 650 50))
    ⊎ (((alfs_pread (pos 2) 100 650 (alfs_write hi (λ i. 1) 700 one_file).1).0 ≡ none)
        × Failed (alfs_write hi (λ i. 1) 700 one_file).1.drive)
alfs_write-alfs_pread_example =
    alfs_write-alfs_pread 2 hi (λ i. 1) 700 one_file 100 650 refl (omega (arith, mark)) write_hi

-- `"ho"`
abbrev ho : List ℕ
ho = 104 ∷ 111 ∷ []

ho_differs : matches ho hi_entry ≡ false
unfolding streq strncpy_name
ho_differs = refl

alfs_write-Keeps_example : Keeps 2 one_file (alfs_write ho (λ i. 1) 700 one_file).1
alfs_write-Keeps_example =
    alfs_write-Keeps ho (λ i. 1) 700 2 one_file refl (omega (arith, mark)) (omega arith)
      (record { file = refl; starts = omega arith; small = omega arith; ends = omega arith })
      ho_differs
