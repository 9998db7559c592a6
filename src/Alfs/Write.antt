-- ===== src/Alfs/Write.antt =====
-- `alfs_write` over a drive that numbers enough sectors: what it stores, and what it leaves alone.
use ali_os.Base.{
  ℕ, zero, suc, ◌+◌, ◌-◌, ◌*◌, ◌/◌, ◌%◌, ◌^◌, ◌≤◌, ◌<◌, ◌≡◌, ◌∙◌, refl, ap, sym, u32, Bool, true,
  false, not, ◌&&◌, if◌then◌else◌, ◌==◌, ltb, inl, inr, Bool-cases, arith,
}
use ali_os.Ata.{Drive, sector_size, ata_write}
use ali_os.Ata.Sectors.{Writes, ata_write-Writes}
use ali_os.Alfs.Reading.{at_most_255}
use ali_os.Alfs.Extent.{Fits}
use ali_os.Alfs.Writing.{write_full, write_data}

write_at :
    {a a' n n' : ℕ} {src : ℕ → ℕ} {d : Drive} {o : Bool × Drive}
    → a ≡ a'
    → n ≡ n'
    → Writes a n src d o
    → Writes a' n' src d o
write_at e e' w = rw (← e, ← e') w

pub ata_write_at :
    (lba count : ℕ) (src : ℕ → ℕ) (d : Drive)
    → lba < 2 ^ 28
    → Writes (lba * sector_size) (count * sector_size) src d (ata_write lba count src d)
ata_write_at lba count src d h = write_at (omega arith) refl (ata_write-Writes lba count src d)

-- A write of `m` bytes, and if it succeeds a write of the `n` bytes behind them.
Writes-append :
    (a m n : ℕ) (src : ℕ → ℕ) (d : Drive) (o o' : Bool × Drive)
    → Writes a m src d o
    → Writes (a + m) n (λ i. src (m + i)) o.1 o'
    → Writes a (m + n) src d (if o.0 then o' else (false, o.1))
Writes-append a m n src d o o' w w' = elim w.result [
  | inl (ok, inside) ↦ rw ok (record {
    outside = λ i h. w'.outside i (omega arith) ∙ w.outside i (omega arith);
    same_polls = w'.same_polls ∙ w.same_polls;
    result = elim w'.result [
      | inl (ok', inside') ↦ inl (
        ok',
        λ i h. elim (Bool-cases (ltb i m)) [
          | inl first ↦ w'.outside (a + i) (ground arith) ∙ inside i (ground arith)
          | inr later ↦
              let e : a + m + (i - m) ≡ a + i = ground arith in
              let e' : m + (i - m) ≡ i = ground arith in
              (let k = inside' (i - m) (ground arith) in rw (e, e') at k)
        ],
      )
      | inr (bad, f) ↦ inr (bad, (f.0, ap (λ (p : ℕ → Bool). p f.0) (sym w.same_polls) ∙ f.1))
    ];
  })
  | inr (bad, f) ↦ rw bad (record {
    outside = λ i h. w.outside i (omega arith);
    same_polls = w.same_polls;
    result = inr (refl, f);
  })
]

nothing-Writes : (a : ℕ) (src : ℕ → ℕ) (d : Drive) → Writes a 0 src d (true, d)
nothing-Writes a src d = record {
  outside = λ i h. refl;
  same_polls = refl;
  result = inl (refl, λ i h. absurd (omega arith));
}

write_src :
    {a n : ℕ} {src src' : ℕ → ℕ} {d : Drive} {o : Bool × Drive}
    → ((i : ℕ) → i < n → src i ≡ src' i)
    → Writes a n src d o
    → Writes a n src' d o
write_src e w = record {
  outside = w.outside;
  same_polls = w.same_polls;
  result = elim w.result [
    | inl (ok, inside) ↦ inl (ok, λ i h. inside i h ∙ e i h)
    | inr bad ↦ inr bad
  ];
}

write_full-Writes :
    (fuel lba done full : ℕ) (src : ℕ → ℕ) (d : Drive)
    → full - done ≤ fuel
    → done ≤ full
    → Fits lba (full * sector_size)
    → Writes
        ((lba + done) * sector_size)
        ((full - done) * sector_size)
        (λ i. src (done * sector_size + i))
        d
        (write_full fuel lba done full src d)
unfolding write_full
write_full-Writes zero lba done full src d enough le fits =
    write_at refl (omega arith)
      (nothing-Writes ((lba + done) * sector_size) (λ i. src (done * sector_size + i)) d)
write_full-Writes (suc fuel) lba done full src d enough le fits =
    let batch = at_most_255 (full - done) in
    elim (Bool-cases (ltb done full)) [
      | inl more ↦
          let low : lba + done < 2 ^ 28 = ground arith in
          let e : u32 (lba + done) ≡ lba + done = omega arith in
          let part : batch ≤ full - done = ground arith in
          rw (more, e)
            (write_at refl (omega arith) (
              Writes-append ((lba + done) * sector_size) (batch * sector_size)
                ((full - (done + batch)) * sector_size) (λ i. src (done * sector_size + i)) d _ _
                (ata_write_at (lba + done) batch _ d low)
                (write_at (omega arith) refl (
                  write_src (λ i h. ap src (omega arith))
                    (write_full-Writes fuel lba (done + batch) full src _ (ground arith)
                      (omega arith) fits)))))
      | inr finished ↦ rw finished (
          write_at refl (ground arith)
            (nothing-Writes ((lba + done) * sector_size) (λ i. src (done * sector_size + i)) d))
    ]

-- The sectors that `alfs_write` writes for a file of `size` bytes, and what they then hold.
abbrev pub sectors_for : ℕ → ℕ
sectors_for size = if size == 0 then 1 else (size + 511) / 512

abbrev pub padded : (ℕ → ℕ) → ℕ → ℕ → ℕ
padded src size i = if ltb i size then src i else 0

settled-Writes :
    {a n : ℕ} {src : ℕ → ℕ} {d : Drive} (o : Bool × Drive)
    → Writes a n src d o
    → Writes a n src d (if o.0 then (true, o.1) else (false, o.1))
settled-Writes (true, d') w = w
settled-Writes (false, d') w = w

-- The last sector, which holds `partial` bytes of the file and nulls.
last-Writes :
    (start full partial : ℕ) (src : ℕ → ℕ) (d : Drive)
    → start + full < 2 ^ 28
    → Writes
        (start * sector_size + full * sector_size)
        sector_size
        (λ i. if ltb i partial then src (full * sector_size + i) else 0)
        d
        (ata_write
          (u32 (start + full))
          1
          (λ i. if ltb i partial then src (full * sector_size + i) else 0)
          d)
last-Writes start full partial src d h =
    let e : u32 (start + full) ≡ start + full = omega arith in
    rw e (write_at (omega arith) (omega arith) (ata_write_at (start + full) 1 _ d h))

whole_sectors :
    (size : ℕ)
    → ((size % sector_size == 0) && not (size == 0)) ≡ true
    → size / sector_size * sector_size ≡ sectors_for size * sector_size
whole_sectors size h = ground arith

part_sector :
    (size : ℕ)
    → ((size % sector_size == 0) && not (size == 0)) ≡ false
    → size / sector_size * sector_size + sector_size ≡ sectors_for size * sector_size
part_sector size h = ground arith

pub write_data-Writes :
    (start : ℕ) (src : ℕ → ℕ) (size : ℕ) (d : Drive)
    → Fits start (sectors_for size * sector_size)
    → Writes
        (start * sector_size)
        (sectors_for size * sector_size)
        (padded src size)
        d
        (write_data start src size d)
unfolding write_data
write_data-Writes start src size d fits =
    let full = size / sector_size in
    let data_full : Writes (start * sector_size) (full * sector_size) (padded src size) d
        (write_full full start 0 full src d) =
      write_src (λ i h. ground arith)
        (write_at (omega arith) (omega arith)
          (write_full-Writes full start 0 full src d (omega arith) (omega arith) (ground arith))) in
    elim (Bool-cases ((size % sector_size == 0) && not (size == 0))) [
      | inl whole ↦ rw whole (write_at refl (whole_sectors size whole) (settled-Writes _ data_full))
      | inr part ↦ rw part (
          write_at refl (part_sector size part) (
            Writes-append (start * sector_size) (full * sector_size) sector_size (padded src size) d
              _ _ data_full
              (write_src (λ i h. ground arith)
                (last-Writes start full (size % sector_size) src _ (ground arith)))))
    ]
