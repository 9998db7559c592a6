-- ===== src/Ata/Sectors.antt =====
-- What `ata_read` and `ata_write` transfer.
use ali_os.Base.{
  ℕ, zero, suc, ◌%◌, ◌^◌, ◌+◌, ◌-◌, ◌*◌, ◌≤◌, ◌<◌, ◌≡◌, ◌∙◌, ◌⊎◌, refl, ap, sym, Bool, true, false,
  ◌&&◌, Option, none, some, List, ◌++◌, ◌==◌, ltb, leb, inl, inr, Bool-cases, arith,
}
use ali_os.Ata.{
  Drive, and_then, sector_size, slice, overlay, ata_poll, read_sectors, lba28, ata_read,
  write_sectors, ata_write,
}
use ali_os.Ata.Slices.{slice-zero, slice-append}

-- Some wait of the drive failed.
abbrev pub Failed : Drive → Type 0
Failed d = (n : ℕ) × (d.polls n ≡ false)

-- What a read leaves: the drive's bytes are not touched, and the data are those of the disk, or an
-- error is reported because the drive failed.
pub record Reads (a n : ℕ) (d : Drive) (out : Option (List ℕ) × Drive) : Type 0 where
  pub same_bytes : out.1.bytes ≡ d.bytes
  pub same_polls : out.1.polls ≡ d.polls
  pub result : (out.0 ≡ some (slice d.bytes a n)) ⊎ ((out.0 ≡ none) × Failed d)

Reads-more :
    (s count : ℕ) (d e : Drive) (o : Option (List ℕ) × Drive)
    → e.bytes ≡ d.bytes
    → e.polls ≡ d.polls
    → Reads ((s + 1) * sector_size) (count * sector_size) e o
    → Reads
        (s * sector_size)
        (suc count * sector_size)
        d
        (and_then (slice d.bytes (s * sector_size) sector_size) o.0, o.1)
unfolding and_then
Reads-more s count d e o eb ep r = record {
  same_bytes = r.same_bytes ∙ eb;
  same_polls = r.same_polls ∙ ep;
  result = elim r.result [
    | inl done ↦ inl (rw done (ap some joined))
    | inr (failed, bad) ↦ inr (rw failed, (bad.0, ap (λ (p : ℕ → Bool). p bad.0) (sym ep) ∙ bad.1))
  ];
}
  where
    joined :
        slice d.bytes (s * sector_size) sector_size
          ++ slice e.bytes ((s + 1) * sector_size) (count * sector_size)
        ≡ slice d.bytes (s * sector_size) (suc count * sector_size)
    joined =
        let size : suc count * sector_size ≡ sector_size + count * sector_size = omega arith in
        let next : (s + 1) * sector_size ≡ s * sector_size + sector_size = omega arith in
        rw (size, next, eb)
          (sym (slice-append d.bytes (s * sector_size) sector_size (count * sector_size)))

pub read_sectors-Reads :
    (count s : ℕ) (d : Drive)
    → Reads (s * sector_size) (count * sector_size) d (read_sectors count s d)
unfolding read_sectors
read_sectors-Reads zero s d = record {
  same_bytes = refl;
  same_polls = refl;
  result = inl (ap some (sym (slice-zero d.bytes (s * sector_size))));
}
read_sectors-Reads (suc count) s d =
    let d' : Drive = record d { clock = d.clock + 1; ready = true } in
    elim (Bool-cases (d.polls d.clock)) [
      | inl ok ↦ rw ok (
          Reads-more s count d d' (read_sectors count (s + 1) d') refl refl
            (read_sectors-Reads count (s + 1) d'))
      | inr bad ↦
          rw bad
            (record { same_bytes = refl; same_polls = refl; result = inr (refl, (d.clock, bad)) })
    ]

-- `ata_read` leaves the disk alone, and delivers exactly `count` sectors from the 28-bit sector
-- number on, or -1 if the drive fails.
pub ata_read-Reads :
    (lba count : ℕ) (d : Drive)
    → Reads (lba % 2 ^ 28 * sector_size) (count * sector_size) d (ata_read lba count d)
unfolding ata_read
ata_read-Reads lba count d = read_sectors-Reads count (lba28 lba) d

-- What a write of `n` bytes at address `a` leaves: outside the range the disk is as it was, and
-- inside it holds the data, or an error is reported because the drive failed.
pub record Writes (a n : ℕ) (src : ℕ → ℕ) (d : Drive) (out : Bool × Drive) : Type 0 where
  pub outside : (i : ℕ) → (i < a) ⊎ (a + n ≤ i) → out.1.bytes i ≡ d.bytes i
  pub same_polls : out.1.polls ≡ d.polls
  pub result :
      ((out.0 ≡ true) × ((i : ℕ) → i < n → out.1.bytes (a + i) ≡ src i))
      ⊎ ((out.0 ≡ false) × Failed d)

overlay_inside :
    (f : ℕ → ℕ) (a n : ℕ) (src : ℕ → ℕ) (i : ℕ) → i < n → overlay f a n src (a + i) ≡ src i
overlay_inside f a n src i h =
    let t : (leb a (a + i) && ltb (a + i) (a + n)) ≡ true = ground arith in
    let e : a + i - a ≡ i = omega arith in rw (t, e)

Writes-more :
    (s count : ℕ) (src : ℕ → ℕ) (d : Drive) (o : Bool × Drive)
    → Writes
        ((s + 1) * sector_size)
        (count * sector_size)
        (λ i. src (sector_size + i))
        (record d {
          bytes = overlay d.bytes (s * sector_size) sector_size src;
          clock = d.clock + 1;
          ready = true;
        })
        o
    → Writes (s * sector_size) (suc count * sector_size) src d o
Writes-more s count src d o w = record {
  outside = λ i h. w.outside i (omega arith) ∙ ground arith;
  same_polls = w.same_polls;
  result = elim w.result [
    | inl (done, inside) ↦ inl (
      done,
      λ i h. elim (Bool-cases (ltb i sector_size)) [
        | inl first ↦
            w.outside (s * sector_size + i) (ground arith)
            ∙ overlay_inside d.bytes (s * sector_size) sector_size src i (ground arith)
        | inr later ↦
            let e : (s + 1) * sector_size + (i - sector_size) ≡ s * sector_size + i =
              ground arith in
            let e' : sector_size + (i - sector_size) ≡ i = ground arith in
            (let k = inside (i - sector_size) (ground arith) in rw (e, e') at k)
      ],
    )
    | inr bad ↦ inr bad
  ];
}

pub write_sectors-Writes :
    (count s : ℕ) (src : ℕ → ℕ) (d : Drive)
    → Writes (s * sector_size) (count * sector_size) src d (write_sectors count s src d)
unfolding write_sectors
write_sectors-Writes zero s src d = record {
  outside = λ i h. refl;
  same_polls = refl;
  result = inl (refl, λ i h. absurd (omega arith));
}
write_sectors-Writes (suc count) s src d =
    let d' : Drive = record d {
      bytes = overlay d.bytes (s * sector_size) sector_size src;
      clock = d.clock + 1;
      ready = true;
    } in
    elim (Bool-cases (d.polls d.clock)) [
      | inl ok ↦ rw ok (
          Writes-more s count src d _
            (write_sectors-Writes count (s + 1) (λ i. src (sector_size + i)) d'))
      | inr bad ↦
          rw bad (record {
            outside = λ i h. refl;
            same_polls = refl;
            result = inr (refl, (d.clock, bad));
          })
    ]

-- `ata_write` changes no byte outside the `count` sectors from the 28-bit sector number on; it
-- reports success only with all of them holding the data, though a drive that is not ready loses what
-- is written to it, and -1 only if a wait for the drive fails.
pub ata_write-Writes :
    (lba count : ℕ) (src : ℕ → ℕ) (d : Drive)
    → Writes (lba % 2 ^ 28 * sector_size) (count * sector_size) src d (ata_write lba count src d)
unfolding ata_write ata_poll
ata_write-Writes lba zero src d = record {
  outside = λ i h. refl;
  same_polls = refl;
  result = inl (refl, λ i h. absurd (omega arith));
}
ata_write-Writes lba (suc c) src d =
    let out = write_sectors (suc c) (lba28 lba) src d in
    let w = write_sectors-Writes (suc c) (lba28 lba) src d in
    let nonempty : (suc c == 0) ≡ false = ground arith in
    elim w.result [
      | inl (ok, inside) ↦
          rw (nonempty, ok)
            (record {
              outside = w.outside;
              same_polls = w.same_polls;
              result = elim (Bool-cases (out.1.polls out.1.clock)) [
                | inl flushed ↦ inl (flushed, inside)
                | inr stuck ↦ inr (
                  stuck,
                  (out.1.clock, ap (λ (p : ℕ → Bool). p out.1.clock) (sym w.same_polls) ∙ stuck),
                )
              ];
            })
      | inr (failed, bad) ↦
          rw (nonempty, failed)
            (record { outside = w.outside; same_polls = w.same_polls; result = inr (refl, bad) })
    ]
