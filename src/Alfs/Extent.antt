-- ===== src/Alfs/Extent.antt =====
-- The bytes of a file's extent in kernel/alfs.c, and reads of the drive one after another.
use ali_os.Base.{
  ℕ, ◌+◌, ◌*◌, ◌^◌, ◌≤◌, ◌<◌, ◌≡◌, ◌∙◌, refl, ap, sym, Bool, Option, none, some, List, [], ◌++◌,
  inl, inr, arith,
}
use mathlib.Core.Path.{subst}
use ali_os.Ata.{Drive, sector_size, slice, ata_read}
use ali_os.Ata.Slices.{slice-append, slice-zero, take-drop-slice}
use ali_os.Ata.Sectors.{Reads, Failed, ata_read-Reads}
use ali_os.Alfs.{Fs, Dirent}
use ali_os.Alfs.Reading.{chain, bounce}

-- A failure of a later state of the drive is one of this state: `polls` never changes.
pub Failed-before : (d e : Drive) → e.polls ≡ d.polls → Failed e → Failed d
Failed-before d e same bad = (bad.0, ap (λ (p : ℕ → Bool). p bad.0) (sym same) ∙ bad.1)

pub nothing-Reads : (a : ℕ) (d : Drive) → Reads a 0 d (some [], d)
nothing-Reads a d = record {
  same_bytes = refl;
  same_polls = refl;
  result = inl (ap some (sym (slice-zero d.bytes a)));
}

pub chain_done :
    (a m n : ℕ) (d d' : Drive) (o : Option (List ℕ) × Drive)
    → d'.bytes ≡ d.bytes
    → d'.polls ≡ d.polls
    → Reads (a + m) n d' o
    → Reads a (m + n) d (elim o.0 [ none ↦ none | some cs ↦ some (slice d.bytes a m ++ cs) ], o.1)
chain_done a m n d d' o eb ep r = record {
  same_bytes = r.same_bytes ∙ eb;
  same_polls = r.same_polls ∙ ep;
  result = elim r.result [
    | inl done ↦ inl (rw (done, eb) (ap some (sym (slice-append d.bytes a m n))))
    | inr (failed, bad) ↦ inr (rw failed, Failed-before d d' ep bad)
  ];
}

pub chain-Reads :
    (a m n : ℕ) (d : Drive) (o : Option (List ℕ) × Drive) (next : Drive → Option (List ℕ) × Drive)
    → Reads a m d o
    → Reads (a + m) n o.1 (next o.1)
    → Reads a (m + n) d (chain o next)
unfolding chain
chain-Reads a m n d (none, d') next r s = elim r.result [
  | inl done ↦ cc
  | inr bad ↦ record {
    same_bytes = r.same_bytes;
    same_polls = r.same_polls;
    result = inr (refl, bad.1);
  }
]
chain-Reads a m n d (some bs, d') next r s = elim r.result [
  | inl done ↦
      let e : bs ≡ slice d.bytes a m = cc in
      subst (λ (c : List ℕ). Reads a (m + n) d (chain (some c, d') next)) (sym e)
        (chain_done a m n d d' (next d') r.same_bytes r.same_polls s)
  | inr bad ↦ cc
]

pub at_address :
    {a a' n n' : ℕ} {d : Drive} {o : Option (List ℕ) × Drive}
    → a ≡ a'
    → n ≡ n'
    → Reads a n d o
    → Reads a' n' d o
at_address e e' r = rw (← e, ← e') r

pub ata_read_at :
    (lba count : ℕ) (d : Drive)
    → lba < 2 ^ 28
    → Reads (lba * sector_size) (count * sector_size) d (ata_read lba count d)
ata_read_at lba count d h = at_address (omega arith) refl (ata_read-Reads lba count d)

pub bounce-Reads :
    (lba off chunk : ℕ) (d : Drive)
    → lba < 2 ^ 28
    → off + chunk ≤ sector_size
    → Reads (lba * sector_size + off) chunk d (bounce lba off chunk d)
unfolding bounce
bounce-Reads lba off chunk d h fit =
    let r = ata_read_at lba 1 d h in
    record {
      same_bytes = r.same_bytes;
      same_polls = r.same_polls;
      result = elim r.result [
        | inl done ↦ inl (
            rw (done, bounce)
              (ap some
                (take-drop-slice d.bytes (lba * sector_size) off chunk (1 * sector_size) fit)))
        | inr (failed, bad) ↦ inr (rw (failed, bounce), bad)
      ];
    }

-- `n` bytes from byte `off` of an extent lie below the last sector that 28 bits can number.
abbrev pub Fits : ℕ → ℕ → Type 0
Fits start n = start * sector_size + n ≤ 2 ^ 28 * sector_size

-- What a call that reads `n` bytes from byte `off` of entry `e` leaves.
pub record FileRead (e : Dirent) (off n : ℕ) (fs : Fs) (out : Option (List ℕ) × Fs) : Type 0 where
  pub same_dir : out.1.dir ≡ fs.dir
  pub same_ready : out.1.ready ≡ fs.ready
  pub drive_read : Reads (e.start * sector_size + off) n fs.drive (out.0, out.1.drive)
