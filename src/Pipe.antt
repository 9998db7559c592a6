-- ===== src/Pipe.antt =====
-- kernel/pipe.c: a pool of byte pipes, each a ring buffer of 512 bytes with free-running 32-bit
-- positions. A function that updates a pipe returns the new one. One pass of the `while` loop of
-- `pipe_read` or `pipe_write` runs with interrupts off, so it is one atomic step; between two
-- passes any other task may run (`System`).
pub mod Contents
pub mod Fifo
pub mod System
pub mod Blocking
pub mod Writing
pub mod Pool
mod Tests
use ali_os.Base.{
  ℕ, zero, suc, ◌+◌, ◌-◌, ◌%◌, min, u32, sub32, update, length, take, drop, List, [], ◌∷◌, ◌++◌,
  Bool, true, false, ◌&&◌, Option, none, some, if◌then◌else◌, ◌==◌, ltb, ℤ, pos, negsuc,
}

-- PIPE_BUF; the mask `& (PIPE_BUF - 1)` is `% pipe_buf`.
abbrev pub pipe_buf : ℕ
pipe_buf = 512

abbrev pub pipe_max : ℕ
pipe_max = 8

-- `pipe_t`. An end count is an `int` that the code only moves by one and tests against 0.
pub record Pipe : Type 0 where
  pub bytes : ℕ → ℕ
  pub head : ℕ
  pub tail : ℕ
  pub nreaders : ℕ
  pub nwriters : ℕ

abbrev pub avail : Pipe → ℕ
avail p = sub32 p.head p.tail

-- the inner loop of `pipe_read`: `k` rounds, and the bytes that it puts into `buf`
unfoldable pub drain : ℕ → Pipe → List ℕ × Pipe
drain zero p = ([], p)
drain (suc k) p =
    let (bs, p') = drain k (record p { tail = u32 (p.tail + 1) }) in
    (p.bytes (p.tail % pipe_buf) ∷ bs, p')

-- the inner loop of `pipe_write`
unfoldable pub fill : List ℕ → Pipe → Pipe
fill [] p = p
fill (b ∷ bs) p =
    fill bs (record p { bytes = update p.bytes (p.head % pipe_buf) b; head = u32 (p.head + 1) })

-- How a pass of an outer loop ends: it leaves the loop, yields and goes round again, goes round
-- again, or returns -1.
pub data Pass : Type 0 where
  leave yield again broken : Pass

-- one pass of the loop of `pipe_read`, with `len` and the bytes already put into `buf`
unfoldable pub read_pass : ℕ → List ℕ → Pipe → Pass × List ℕ × Pipe
read_pass len got p =
    let n = length got in
    if ltb n len
    then (if avail p == 0
        then (if p.nwriters == 0 then (Pass.leave, got, p) else (Pass.yield, got, p))
        else let (bs, p') = drain (if ltb (avail p) (len - n) then avail p else len - n) p in
          (Pass.again, got ++ bs, p'))
    else (Pass.leave, got, p)

-- one pass of the loop of `pipe_write`: `rest` is `buf[n..len)`, what is still to be written
unfoldable pub write_pass : List ℕ → Pipe → Pass × List ℕ × Pipe
write_pass [] p = (Pass.leave, [], p)
write_pass (b ∷ rest) p =
    let space = sub32 pipe_buf (avail p) in
    let left = length (b ∷ rest) in
    let put = if ltb space left then space else left in
    if p.nreaders == 0
    then (Pass.broken, b ∷ rest, p)
    else if space == 0
    then (Pass.yield, b ∷ rest, p)
    else (Pass.again, drop put (b ∷ rest), fill (take put (b ∷ rest)) p)

-- `pipe_open_read` and its three companions, on the pipe that the index names
unfoldable pub open_read : Pipe → Pipe
open_read p = record p { nreaders = p.nreaders + 1 }

unfoldable pub open_write : Pipe → Pipe
open_write p = record p { nwriters = p.nwriters + 1 }

unfoldable pub close_read : Pipe → Pipe
close_read p = if ltb 0 p.nreaders then record p { nreaders = p.nreaders - 1 } else p

unfoldable pub close_write : Pipe → Pipe
close_write p = if ltb 0 p.nwriters then record p { nwriters = p.nwriters - 1 } else p

-- The whole calls. `others k` is what the other tasks do to the pipe between pass `k` and the next
-- one; the fuel counts passes. Of `pipe_read` the result is what it put into `buf`, of `pipe_write`
-- `true` for `len` and `false` for -1; `none` means that it has not returned.
unfoldable pub settle_read :
    Pass × List ℕ × Pipe → (List ℕ → Pipe → Option (List ℕ × Pipe)) → Option (List ℕ × Pipe)
settle_read (Pass.leave, got, p) go_on = some (got, p)
settle_read (_, got, p) go_on = go_on got p

unfoldable pub pipe_read : ℕ → (ℕ → Pipe → Pipe) → ℕ → ℕ → List ℕ → Pipe → Option (List ℕ × Pipe)
unfolding settle_read
pipe_read zero others k len got p = none
pipe_read (suc fuel) others k len got p =
    settle_read (read_pass len got p)
      (λ got' p'. pipe_read fuel others (k + 1) len got' (others k p'))

unfoldable pub settle_write :
    Pass × List ℕ × Pipe → (List ℕ → Pipe → Option (Bool × Pipe)) → Option (Bool × Pipe)
settle_write (Pass.leave, left, p) go_on = some (true, p)
settle_write (Pass.broken, left, p) go_on = some (false, p)
settle_write (_, left, p) go_on = go_on left p

unfoldable pub pipe_write : ℕ → (ℕ → Pipe → Pipe) → ℕ → List ℕ → Pipe → Option (Bool × Pipe)
unfolding settle_write
pipe_write zero others k left p = none
pipe_write (suc fuel) others k left p =
    settle_write (write_pass left p)
      (λ left' p'. pipe_write fuel others (k + 1) left' (others k p'))
