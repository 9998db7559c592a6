-- ===== src/Pipe/System.antt =====
-- Any number of tasks read from and write to one pipe, open and close its ends, in any order: the
-- passes of `pipe_read` and `pipe_write` and the calls of `pipe_open_*` and `pipe_close_*` are the
-- steps. `sent` and `received` are the bytes that all passes so far have put in and taken out.
use ali_os.Base.{
  ℕ, ◌+◌, ◌-◌, ◌≤◌, ◌<◌, ◌≡◌, ◌≢◌, refl, sym, ap, ◌∙◌, sub32, length, take, drop, length-take,
  length-drop, length-append, take-append-drop, List, [], ◌∷◌, ◌++◌, append-nil, append_assoc,
  drop-append, drop_self, arith, Bool-cases, inl, inr, ltb, ◌==◌, ◌⊎◌,
}
use ali_os.Pipe.{
  Pipe, Pass, pipe_buf, avail, drain, fill, read_pass, write_pass, open_read, open_write,
  close_read, close_write,
}
use ali_os.Pipe.Contents.{contents, IsValid}
use ali_os.Pipe.Fifo.{fill-Filled, drain-Drained}

append-drop : (xs ys : List ℕ) → xs ++ drop (length xs) (xs ++ ys) ≡ xs ++ ys
append-drop xs ys = rw (drop-append xs ys)

-- What a pass of `pipe_read` over a valid pipe may do.
pub record ReadPass (len : ℕ) (got : List ℕ) (p : Pipe) (out : Pass × List ℕ × Pipe) : Type 0 where
  pub valid : IsValid out.2
  pub moved : contents p ≡ drop (length got) out.1 ++ contents out.2
  pub kept : got ++ drop (length got) out.1 ≡ out.1
  pub bounded : length got ≤ len → length out.1 ≤ len
  pub progress : out.0 ≡ Pass.again → length got < length out.1
  pub unbroken : out.0 ≢ Pass.broken
  pub stuck : out.0 ≡ Pass.yield → (avail p ≡ 0) × (0 < p.nwriters) × (out.2 ≡ p)
  pub finished :
      out.0 ≡ Pass.leave → (len ≤ length out.1) ⊎ ((avail out.2 ≡ 0) × (out.2.nwriters ≡ 0))

ReadPass-again :
    (len : ℕ) (got : List ℕ) (p : Pipe) (k : ℕ)
    → IsValid p
    → k ≤ avail p
    → 0 < k
    → k ≤ len - length got
    → ReadPass len got p (Pass.again, got ++ (drain k p).0, (drain k p).1)
ReadPass-again len got p k v h pos fit =
    let d = drain-Drained k p v h in
    record {
      valid = d.valid;
      moved = d.split ∙ ap (λ l. l ++ contents (drain k p).1) (sym (drop-append got (drain k p).0));
      kept = append-drop got (drain k p).0;
      bounded = λ b. omega (arith, d.count, length-append got (drain k p).0);
      progress = λ e. omega (arith, d.count, length-append got (drain k p).0);
      unbroken = λ e. ground arith;
      stuck = λ e. ground arith;
      finished = λ e. ground arith;
    }

pub read_pass-ReadPass :
    (len : ℕ) (got : List ℕ) (p : Pipe) → IsValid p → ReadPass len got p (read_pass len got p)
unfolding read_pass
read_pass-ReadPass len got p v = elim (Bool-cases (ltb (length got) len)) [
  | inr no_more ↦ rw no_more (record {
    valid = v;
    moved = rw (drop_self got);
    kept = rw (drop_self got) (append-nil got);
    bounded = λ b. b;
    progress = λ e. ground arith;
    unbroken = λ e. ground arith;
    stuck = λ e. ground arith;
    finished = λ e. inl (ground arith);
  })
  | inl more ↦ elim (Bool-cases (avail p == 0)) [
    | inl empty ↦ ground (arith, drop_self got, append-nil got)
    | inr full ↦
        rw (more, full) (ReadPass-again len got p _ v (ground arith) (ground arith) (ground arith))
  ]
]

-- What a pass of `pipe_write` over a valid pipe may do.
pub record WritePass (rest : List ℕ) (p : Pipe) (out : Pass × List ℕ × Pipe) : Type 0 where
  pub valid : IsValid out.2
  pub moved : contents out.2 ≡ contents p ++ take (length rest - length out.1) rest
  pub left : take (length rest - length out.1) rest ++ out.1 ≡ rest
  pub progress : out.0 ≡ Pass.again → length out.1 < length rest
  pub stuck : out.0 ≡ Pass.yield → (avail p ≡ pipe_buf) × (0 < p.nreaders) × (out.2 ≡ p)
  pub broke : out.0 ≡ Pass.broken → (p.nreaders ≡ 0) × (out.2 ≡ p)
  pub finished : out.0 ≡ Pass.leave → out.1 ≡ []

take_none : (xs : List ℕ) → take (length xs - length xs) xs ≡ []
take_none xs = let e : length xs - length xs ≡ 0 = omega arith in rw e

WritePass-again :
    (rest : List ℕ) (p : Pipe) (k : ℕ)
    → IsValid p
    → avail p + k ≤ pipe_buf
    → 0 < k
    → k ≤ length rest
    → WritePass rest p (Pass.again, drop k rest, fill (take k rest) p)
WritePass-again rest p k v h pos fit =
    let room : avail p + length (take k rest) ≤ pipe_buf = omega (arith, length-take k rest) in
    let f = fill-Filled (take k rest) p v room in
    let back : length rest - length (drop k rest) ≡ k = omega (arith, length-drop k rest) in
    record {
      valid = f.valid;
      moved = rw back f.appended;
      left = rw back (take-append-drop k rest);
      progress = λ e. omega (arith, length-drop k rest);
      stuck = λ e. ground arith;
      broke = λ e. ground arith;
      finished = λ e. ground arith;
    }

pub write_pass-WritePass :
    (rest : List ℕ) (p : Pipe) → IsValid p → WritePass rest p (write_pass rest p)
unfolding write_pass
write_pass-WritePass [] p v = record {
  valid = v;
  moved = sym (append-nil (contents p));
  left = refl;
  progress = λ e. ground arith;
  stuck = λ e. ground arith;
  broke = λ e. ground arith;
  finished = λ e. refl;
}
write_pass-WritePass (b ∷ rest) p v = elim (Bool-cases (p.nreaders == 0)) [
  | inl none_left ↦ ground (arith, take_none (b ∷ rest), append-nil (contents p))
  | inr readers ↦ elim (Bool-cases (sub32 pipe_buf (avail p) == 0)) [
    | inl full ↦ ground (arith, take_none (b ∷ rest), append-nil (contents p))
    | inr space ↦
        rw (readers, space)
          (WritePass-again (b ∷ rest) p _ v (ground arith) (ground arith) (ground arith))
  ]
]

pub record Channel : Type 0 where
  pub pipe : Pipe
  pub sent : List ℕ
  pub received : List ℕ

abbrev pub after_read : Channel → List ℕ → Pass × List ℕ × Pipe → Channel
after_read c got out = record {
  pipe = out.2;
  sent = c.sent;
  received = c.received ++ drop (length got) out.1;
}

abbrev pub after_write : Channel → List ℕ → Pass × List ℕ × Pipe → Channel
after_write c rest out = record {
  pipe = out.2;
  sent = c.sent ++ take (length rest - length out.1) rest;
  received = c.received;
}

pub data Step (c : Channel) : Channel → Type 0 where
  read : (len : ℕ) (got : List ℕ) → Step c (after_read c got (read_pass len got c.pipe))
  write : (rest : List ℕ) → Step c (after_write c rest (write_pass rest c.pipe))
  open_read_end : Step c (record c { pipe = open_read c.pipe })
  open_write_end : Step c (record c { pipe = open_write c.pipe })
  close_read_end : Step c (record c { pipe = close_read c.pipe })
  close_write_end : Step c (record c { pipe = close_write c.pipe })

pub data Reach (s : Channel) : Channel → Type 0 where
  here : Reach s s
  next : {c d : Channel} → Reach s c → Step c d → Reach s d

pub record InOrder (c : Channel) : Type 0 where
  pub valid : IsValid c.pipe
  pub order : c.sent ≡ c.received ++ contents c.pipe

Step-InOrder : {c d : Channel} → Step c d → InOrder c → InOrder d
unfolding open_read open_write close_read close_write
Step-InOrder {c} (read len got) v =
    let r = read_pass-ReadPass len got c.pipe v.valid in
    let out = read_pass len got c.pipe in
    record {
      valid = r.valid;
      order =
          v.order
          ∙ ap (λ l. c.received ++ l) r.moved
          ∙ sym (append_assoc c.received (drop (length got) out.1) (contents out.2));
    }
Step-InOrder {c} (write rest) v =
    let w = write_pass-WritePass rest c.pipe v.valid in
    let out = write_pass rest c.pipe in
    let new = take (length rest - length out.1) rest in
    record {
      valid = w.valid;
      order =
          ap (λ l. l ++ new) v.order
          ∙ append_assoc c.received (contents c.pipe) new
          ∙ ap (λ l. c.received ++ l) (sym w.moved);
    }
Step-InOrder open_read_end v = ground arith
Step-InOrder open_write_end v = ground arith
Step-InOrder {c} close_read_end v = ground arith
Step-InOrder {c} close_write_end v = ground arith

Reach-InOrder : {s c : Channel} → InOrder s → Reach s c → InOrder c
Reach-InOrder v here = v
Reach-InOrder v (next r st) = Step-InOrder st (Reach-InOrder v r)

-- Whatever the tasks do, and in whatever order their passes are interleaved, the bytes taken out of
-- a pipe followed by those that it still holds are the bytes put into it, in order: none is lost,
-- repeated or changed. This starts from any pipe whose positions are valid.
pub fifo : {s c : Channel} → InOrder s → Reach s c → c.sent ≡ c.received ++ contents c.pipe
fifo v r = (Reach-InOrder v r).order
