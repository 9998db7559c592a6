-- ===== src/Pipe/Blocking.antt =====
-- When the blocking call `pipe_read` of kernel/pipe.c returns, and with what.
use ali_os.Base.{
  ℕ, zero, suc, ◌+◌, ◌-◌, ◌*◌, ◌≤◌, ◌<◌, ◌≡◌, ◌≢◌, refl, ap, ◌∙◌, length, drop, length-append, List,
  [], arith, inl, inr, ◌⊎◌, Option, some,
}
use ali_os.Pipe.{Pipe, Pass, settle_read, avail, read_pass, write_pass, pipe_read}
use ali_os.Pipe.Contents.{contents, IsValid}
use ali_os.Pipe.System.{ReadPass, read_pass-ReadPass, write_pass-WritePass}

-- At most one side of a pipe waits: a reader yields only at an empty pipe and a writer only at a
-- full one, so a pass of one that yields is not followed by a pass of the other that yields.
pub read_yield-write_yield :
    (len : ℕ) (got rest : List ℕ) (p : Pipe)
    → IsValid p
    → (read_pass len got p).0 ≡ Pass.yield
    → (write_pass rest p).0 ≢ Pass.yield
read_yield-write_yield len got rest p v r w =
    let empty = (read_pass-ReadPass len got p v).stuck r in
    let full = (write_pass-WritePass rest p v).stuck w in absurd (omega arith)

-- Other tasks that keep the pipe valid, and that at an empty pipe write a byte or close the last
-- write end.
pub record Feeds (others : ℕ → Pipe → Pipe) : Type 0 where
  pub keeps : (k : ℕ) (p : Pipe) → IsValid p → IsValid (others k p)
  pub feeds :
      (k : ℕ) (p : Pipe)
      → IsValid p
      → avail p ≡ 0
      → (0 < avail (others k p)) ⊎ ((others k p).nwriters ≡ 0)

-- A pass over a pipe that holds a byte, or has no writer, does not wait.
abbrev IsReady : Pipe → Type 0
IsReady p = (0 < avail p) ⊎ (p.nwriters ≡ 0)

pub record Returned (len : ℕ) (r : Option (List ℕ × Pipe)) : Type 0 where
  pub out : List ℕ × Pipe
  pub returned : r ≡ some out
  pub valid : IsValid out.1
  pub bounded : length out.0 ≤ len
  pub full_or_eof : (length out.0 ≡ len) ⊎ ((contents out.1 ≡ []) × (out.1.nwriters ≡ 0))

nil_of_avail : (p : Pipe) → avail p ≡ 0 → contents p ≡ []
nil_of_avail p e = rw e

short_of_len :
    (len : ℕ) (got : List ℕ) (p : Pipe) (o : Pass × List ℕ × Pipe)
    → ReadPass len got p o
    → length got ≤ len
    → o.0 ≡ Pass.leave
    → Returned len (some (o.1, o.2))
short_of_len len got p o r b e = record {
  out = (o.1, o.2);
  returned = refl;
  valid = r.valid;
  bounded = r.bounded b;
  full_or_eof = elim (r.finished e) [
    | inl all ↦ inl (omega (arith, r.bounded b))
    | inr eof ↦ inr (nil_of_avail o.2 eof.0, eof.1)
  ];
}

-- After a pass that did not wait the call needs two passes for each byte that it still wants; a
-- pass that waited hands over a pipe that is ready.
read_settles :
    (len : ℕ) (got : List ℕ) (p : Pipe) (o : Pass × List ℕ × Pipe)
    (go_on : List ℕ → Pipe → Option (List ℕ × Pipe))
    → ReadPass len got p o
    → length got ≤ len
    → (o.0 ≡ Pass.again → Returned len (go_on o.1 o.2))
    → (o.0 ≡ Pass.yield → Returned len (go_on o.1 o.2))
    → Returned len (settle_read o go_on)
unfolding settle_read
read_settles len got p (Pass.leave, got', p') go_on r b more wait =
    short_of_len len got p (Pass.leave, got', p') r b refl
read_settles len got p (Pass.yield, got', p') go_on r b more wait = wait refl
read_settles len got p (Pass.again, got', p') go_on r b more wait = more refl
read_settles len got p (Pass.broken, got', p') go_on r b more wait = absurd (r.unbroken refl)

pipe_read-Returned_from :
    (fuel : ℕ) (others : ℕ → Pipe → Pipe) (k len : ℕ) (got : List ℕ) (p : Pipe) (slack : ℕ)
    → Feeds others
    → IsValid p
    → length got ≤ len
    → 2 * (len - length got) + 1 + slack ≤ fuel
    → IsReady p ⊎ (0 < slack)
    → Returned len (pipe_read fuel others k len got p)
unfolding pipe_read
pipe_read-Returned_from zero others k len got p slack f v b enough ready = absurd (omega arith)
pipe_read-Returned_from (suc fuel) others k len got p slack f v b enough ready =
    let o = read_pass len got p in
    let r = read_pass-ReadPass len got p v in
    let v' = f.keeps k o.2 r.valid in
    read_settles len got p o _ r b
      (λ more.
        pipe_read-Returned_from fuel others (k + 1) len o.1 (others k o.2) 1 f v' (r.bounded b)
          (omega (arith, r.progress more, r.bounded b)) (inr (omega arith)))
      (λ wait.
        pipe_read-Returned_from fuel others (k + 1) len o.1 (others k o.2) 0 f v' (r.bounded b)
          (omega (
            arith,
            (r.stuck wait).0,
            (r.stuck wait).1,
            ap length r.kept,
            length-append got (drop (length got) o.1),
          ))
          (inl (f.feeds k o.2 r.valid (ap avail (r.stuck wait).2 ∙ (r.stuck wait).0))))

-- A `pipe_read` of `len` bytes returns after at most `2 * len + 2` passes, if the other tasks put a
-- byte into the pipe, or close its last write end, each time the reader finds it empty. It then
-- has exactly `len` bytes, or fewer with the pipe empty and no writer left.
pub pipe_read-Returned :
    (others : ℕ → Pipe → Pipe) (len : ℕ) (p : Pipe)
    → Feeds others
    → IsValid p
    → Returned len (pipe_read (2 * len + 2) others 0 len [] p)
pipe_read-Returned others len p f v =
    pipe_read-Returned_from (2 * len + 2) others 0 len [] p 1 f v (omega arith) (omega arith)
      (inr (omega arith))
