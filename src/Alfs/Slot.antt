-- ===== src/Alfs/Slot.antt =====
-- What `alfs_write` of kernel/alfs.c leaves once it has chosen an entry.
use ali_os.Base.{
  ℕ, ◌+◌, ◌*◌, ◌/◌, ◌≤◌, ◌<◌, ◌≡◌, ◌≢◌, ◌∙◌, ◌⊎◌, refl, ap, sym, update, update_self, update_ne,
  Bool, Option, none, some, List, inl, inr, arith,
}
use ali_os.Ata.{sector_size}
use ali_os.Ata.Sectors.{Failed}
use ali_os.Alfs.{Fs, max_files, dir_start, dir_byte}
use ali_os.Alfs.Extent.{Fits}
use ali_os.Alfs.Writing.{dir_flush_slot, write_data, new_entry, write_slot, high_water}
use ali_os.Alfs.Find.{high_water-le}
use ali_os.Alfs.Write.{sectors_for, write_data-Writes, ata_write_at}

-- The first byte of the data sectors.
abbrev pub data_base : ℕ
data_base = 3584

-- A write of a file to entry `slot`, its data from sector `start` on.
pub record Written (slot start : ℕ) (name : List ℕ) (src : ℕ → ℕ) (size : ℕ) (fs : Fs)
    (out : Option ℕ × Fs) : Type 0 where
  pub same_ready : out.1.ready ≡ fs.ready
  pub other_entries : (j : ℕ) → slot ≢ j → out.1.dir j ≡ fs.dir j
  pub other_bytes :
      (a : ℕ) → data_base ≤ a → a < start * sector_size → out.1.drive.bytes a ≡ fs.drive.bytes a
  pub outcome :
      ((out.0 ≡ some slot)
        × (out.1.dir slot ≡ new_entry name start size 1)
        × ((i : ℕ) → i < size → out.1.drive.bytes (start * sector_size + i) ≡ src i))
      ⊎ ((out.0 ≡ none) × Failed fs.drive)

size-le-sectors : (size : ℕ) → size ≤ sectors_for size * sector_size
size-le-sectors size = ground arith

pub write_slot-Written :
    (slot : ℕ) (name : List ℕ) (src : ℕ → ℕ) (size : ℕ) (fs : Fs)
    → slot < max_files
    → Fits (high_water fs.dir) (sectors_for size * sector_size)
    → Written slot (high_water fs.dir) name src size fs (write_slot slot name src size fs)
unfolding write_slot dir_flush_slot
write_slot-Written slot name src size fs lt fits =
    let start = high_water fs.dir in
    let mark = (high_water-le fs.dir).0 in
    let o = write_data start src size fs.drive in
    let w = write_data-Writes start src size fs.drive fits in
    let dir' = update fs.dir slot (new_entry name start size 1) in
    let table = λ (i : ℕ). dir_byte dir' (slot / 8 * sector_size + i) in
    let f = ata_write_at (dir_start + slot / 8) 1 table o.1 (omega arith) in
    elim w.result [
      | inl (ok, inside) ↦ rw ok (record {
        same_ready = refl;
        other_entries = λ j n. update_ne fs.dir slot j (new_entry name start size 1) n;
        other_bytes = λ a l h. f.outside a (omega arith) ∙ w.outside a (omega arith);
        outcome = elim f.result [
          | inl (flushed, _) ↦ inl (
            rw flushed,
            update_self fs.dir slot (new_entry name start size 1),
            λ i h.
                f.outside (start * sector_size + i) (omega arith)
                ∙ inside i (omega (arith, size-le-sectors size))
                ∙ ground arith,
          )
          | inr (stuck, bad) ↦
              inr (rw stuck, (bad.0, ap (λ (p : ℕ → Bool). p bad.0) (sym w.same_polls) ∙ bad.1))
        ];
      })
      | inr (failed, bad) ↦ rw failed (record {
        same_ready = refl;
        other_entries = λ j n. refl;
        other_bytes = λ a l h. w.outside a (omega arith);
        outcome = inr (refl, bad);
      })
    ]
