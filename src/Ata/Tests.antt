-- ===== src/Ata/Tests.antt =====
-- Tests of kernel/ata.c's model, and its theorems at concrete inputs.
use ali_os.Base.{true, ◌*◌, ◌%◌, ◌≡◌, refl, false, not, ◌==◌}
use ali_os.Ata.{Drive, sector_size, lba28, write_sectors, ata_write}
use ali_os.Ata.Sectors.{Writes, ata_write-Writes}

-- A drive that fails at its second wait.
abbrev failing : Drive
failing = record {
  bytes = λ i. i % 256;
  polls = λ n. not (n == 1);
  clock = 0;
  ready = true;
  stray = λ i. 9;
}

ata_write_fails : (ata_write 9 2 (λ i. 1) failing).0 ≡ false
unfolding ata_write write_sectors
ata_write_fails = refl

-- Only the first of the two sectors was written.
ata_write_half : (ata_write 9 2 (λ i. 1) failing).1.bytes (9 * 512) ≡ 1
unfolding ata_write write_sectors
ata_write_half = refl

ata_write-Writes_example :
    Writes
      (lba28 9 * sector_size)
      (2 * sector_size)
      (λ i. 1)
      failing
      (ata_write 9 2 (λ i. 1) failing)
ata_write-Writes_example = ata_write-Writes 9 2 (λ i. 1) failing
