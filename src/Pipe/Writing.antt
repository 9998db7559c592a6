-- ===== src/Pipe/Writing.antt =====
-- When the blocking call `pipe_write` of kernel/pipe.c returns, and with what.
use ali_os.Base.{
  ℕ, zero, suc, ◌+◌, ◌-◌, ◌*◌, ◌≤◌, ◌<◌, ◌≡◌, refl, sym, ap, ◌∙◌, length, take, drop, length-append,
  List, [], ◌∷◌, ◌++◌, append-nil, drop_self, take_self, arith, inl, inr, Bool, true, false, ◌⊎◌,
  Option, some,
}
use ali_os.Pipe.{Pipe, Pass, settle_write, pipe_buf, avail, fill, write_pass, pipe_write}
use ali_os.Pipe.Contents.{contents, IsValid}
use ali_os.Pipe.Fifo.{fill-Filled}
use ali_os.Pipe.System.{WritePass, write_pass-WritePass}

abbrev pub alone : ℕ → Pipe → Pipe
alone k p = p

write_pass_leave : (p : Pipe) → write_pass [] p ≡ (Pass.leave, [], p)
unfolding write_pass
write_pass_leave p = refl

write_pass_room :
    (b : ℕ) (bs : List ℕ) (p : Pipe)
    → 0 < p.nreaders
    → avail p + length (b ∷ bs) ≤ pipe_buf
    → write_pass (b ∷ bs) p
      ≡ (Pass.again, drop (length (b ∷ bs)) (b ∷ bs), fill (take (length (b ∷ bs)) (b ∷ bs)) p)
unfolding write_pass
write_pass_room b bs p r h = ground arith

-- A `pipe_write` into a pipe that has a reader and room for all of its bytes returns their number
-- within two passes, appends exactly these bytes in order, and keeps the pipe valid.
pub pipe_write_room :
    (bs : List ℕ) (p : Pipe)
    → IsValid p
    → 0 < p.nreaders
    → avail p + length bs ≤ pipe_buf
    → (q : Pipe) × (pipe_write 2 alone 0 bs p ≡ some (true, q))
      × (contents q ≡ contents p ++ bs)
      × IsValid q
unfolding pipe_write
pipe_write_room [] p v r h =
    (p, rw (write_pass_leave p, settle_write), sym (append-nil (contents p)), v)
pipe_write_room (b ∷ bs) p v r h =
    let f = fill-Filled (b ∷ bs) p v h in
    (
      fill (b ∷ bs) p,
      rw (write_pass_room b bs p r h, settle_write)
          (rw (drop_self bs, take_self bs) (rw (write_pass_leave (fill (b ∷ bs) p), settle_write))),
      f.appended,
      f.valid,
    )

-- Other tasks that keep the pipe valid, and that at a full pipe take a byte or close the last read
-- end.
pub record Empties (others : ℕ → Pipe → Pipe) : Type 0 where
  pub keeps : (k : ℕ) (p : Pipe) → IsValid p → IsValid (others k p)
  pub empties :
      (k : ℕ) (p : Pipe)
      → IsValid p
      → avail p ≡ pipe_buf
      → (avail (others k p) < pipe_buf) ⊎ ((others k p).nreaders ≡ 0)

-- The call has returned: `true` for `len`, or `false` for -1 with no reader left at its last pass.
pub record Written (r : Option (Bool × Pipe)) : Type 0 where
  pub out : Bool × Pipe
  pub returned : r ≡ some out
  pub valid : IsValid out.1
  pub broken : out.0 ≡ false → out.1.nreaders ≡ 0

abbrev HasRoom : Pipe → Type 0
HasRoom p = (avail p < pipe_buf) ⊎ (p.nreaders ≡ 0)

write_settles :
    (left : List ℕ) (p : Pipe) (o : Pass × List ℕ × Pipe)
    (go_on : List ℕ → Pipe → Option (Bool × Pipe))
    → WritePass left p o
    → (o.0 ≡ Pass.again → Written (go_on o.1 o.2))
    → (o.0 ≡ Pass.yield → Written (go_on o.1 o.2))
    → Written (settle_write o go_on)
unfolding settle_write
write_settles left p (Pass.leave, left', p') go_on w more wait = record {
  out = (true, p');
  returned = refl;
  valid = w.valid;
  broken = λ e. ground arith;
}
write_settles left p (Pass.yield, left', p') go_on w more wait = wait refl
write_settles left p (Pass.again, left', p') go_on w more wait = more refl
write_settles left p (Pass.broken, left', p') go_on w more wait = record {
  out = (false, p');
  returned = refl;
  valid = w.valid;
  broken = λ e. ap (λ (q : Pipe). q.nreaders) (w.broke refl).1 ∙ (w.broke refl).0;
}

pipe_write-Written_from :
    (fuel : ℕ) (others : ℕ → Pipe → Pipe) (k : ℕ) (left : List ℕ) (p : Pipe) (slack : ℕ)
    → Empties others
    → IsValid p
    → 2 * length left + 1 + slack ≤ fuel
    → HasRoom p ⊎ (0 < slack)
    → Written (pipe_write fuel others k left p)
unfolding pipe_write
pipe_write-Written_from zero others k left p slack f v enough room = absurd (omega arith)
pipe_write-Written_from (suc fuel) others k left p slack f v enough room =
    let o = write_pass left p in
    let w = write_pass-WritePass left p v in
    let v' = f.keeps k o.2 w.valid in
    write_settles left p o _ w
      (λ more.
        pipe_write-Written_from fuel others (k + 1) o.1 (others k o.2) 1 f v'
          (omega (arith, w.progress more)) (inr (omega arith)))
      (λ wait.
        pipe_write-Written_from fuel others (k + 1) o.1 (others k o.2) 0 f v'
          (omega (
            arith,
            (w.stuck wait).0,
            (w.stuck wait).1,
            ap length w.left,
            length-append (take (length left - length o.1) left) o.1,
          ))
          (inl (f.empties k o.2 w.valid (ap avail (w.stuck wait).2 ∙ (w.stuck wait).0))))

-- A `pipe_write` returns after at most `2 * len + 2` passes, if the other tasks take a byte, or
-- close the last read end, each time the writer finds the pipe full. It returns -1 only with no
-- read end left.
pub pipe_write-Written :
    (others : ℕ → Pipe → Pipe) (bs : List ℕ) (p : Pipe)
    → Empties others
    → IsValid p
    → Written (pipe_write (2 * length bs + 2) others 0 bs p)
pipe_write-Written others bs p f v =
    pipe_write-Written_from (2 * length bs + 2) others 0 bs p 1 f v (omega arith)
      (inr (omega arith))
