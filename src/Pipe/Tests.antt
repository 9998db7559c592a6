-- ===== src/Pipe/Tests.antt =====
-- Tests of kernel/pipe.c's model, and its theorems at concrete inputs.
use ali_os.Base.{
  ℕ, ◌-◌, ◌^◌, ◌≡◌, refl, true, some, List, [], ◌∷◌, ◌++◌, if◌then◌else◌, ◌==◌, arith, inl, inr,
  Bool-cases,
}
use ali_os.Pipe.{Pipe, Pass, avail, fill, drain, read_pass, write_pass, pipe_read, pipe_write}
use ali_os.Pipe.Contents.{IsValid, contents}
use ali_os.Pipe.Fifo.{fill-Filled}
use ali_os.Pipe.System.{Channel, Step, Reach, after_read, after_write, fifo}
use ali_os.Pipe.Blocking.{Feeds, Returned, pipe_read-Returned}
use ali_os.Pipe.Writing.{Empties, Written, pipe_write-Written}
use ali_os.Pipe.Pool.{Pool, pipe_alloc}

-- An empty pipe whose positions are about to wrap, with one end of each kind.
abbrev empty_pipe : Pipe
empty_pipe = record {
  bytes = λ i. 0;
  head = 2 ^ 32 - 1;
  tail = 2 ^ 32 - 1;
  nreaders = 1;
  nwriters = 1;
}

empty_pipe-IsValid : IsValid empty_pipe
empty_pipe-IsValid = record {
  head_fits = omega arith;
  tail_fits = omega arith;
  holds = omega arith;
}

abbrev three : List ℕ
three = 10 ∷ 20 ∷ 30 ∷ []

written_then_read : (drain 2 (fill three empty_pipe)).0 ≡ 10 ∷ 20 ∷ []
unfolding drain fill
written_then_read = refl

write_pass_all : (write_pass three empty_pipe).0 ≡ Pass.again
unfolding write_pass fill
write_pass_all = refl

read_pass_empty : (read_pass 2 [] empty_pipe).0 ≡ Pass.yield
unfolding read_pass drain
read_pass_empty = refl

abbrev at_start : Channel
at_start = record { pipe = empty_pipe; sent = []; received = [] }

abbrev after_three : Channel
after_three = after_write at_start three (write_pass three empty_pipe)

abbrev after_one : Channel
after_one = after_read after_three [] (read_pass 1 [] after_three.pipe)

fifo_example : after_one.sent ≡ after_one.received ++ contents after_one.pipe
fifo_example =
    fifo {s = at_start} (record { valid = empty_pipe-IsValid; order = refl })
      (Reach.next (Reach.next Reach.here (Step.write three)) (Step.read 1 []))

-- Another task that puts one byte into an empty pipe.
abbrev feeder : ℕ → Pipe → Pipe
feeder k p = if avail p == 0 then fill (7 ∷ []) p else p

feeder-Feeds : Feeds feeder
feeder-Feeds = record {
  keeps = λ k p v. elim (Bool-cases (avail p == 0)) [
    | inl none_held ↦ rw none_held (fill-Filled (7 ∷ []) p v (ground arith)).valid
    | inr held ↦ rw held v
  ];
  feeds = λ k p v e.
      let t : (avail p == 0) ≡ true = ground arith in
      let f = fill-Filled (7 ∷ []) p v (omega arith) in rw t (inl (omega (arith, f.longer)));
}

pipe_read-Returned_example : Returned 3 (pipe_read 8 feeder 0 3 [] empty_pipe)
pipe_read-Returned_example = pipe_read-Returned feeder 3 empty_pipe feeder-Feeds empty_pipe-IsValid

-- Another task that closes the last read end.
abbrev closer : ℕ → Pipe → Pipe
closer k p = record p { nreaders = 0 }

closer-Empties : Empties closer
closer-Empties = record {
  keeps = λ k p v. record { head_fits = v.head_fits; tail_fits = v.tail_fits; holds = v.holds };
  empties = λ k p v e. inr refl;
}

pipe_write-Written_example : Written (pipe_write 8 closer 0 three empty_pipe)
pipe_write-Written_example =
    pipe_write-Written closer three empty_pipe closer-Empties empty_pipe-IsValid

-- A pool in which slots 0 and 1 are taken.
abbrev two_taken : Pool
two_taken i =
    if i == 0
    then empty_pipe
    else if i == 1
    then empty_pipe
    else record empty_pipe { nreaders = 0; nwriters = 0 }

pipe_alloc_test : (pipe_alloc two_taken).0 ≡ some 2
unfolding pipe_alloc
pipe_alloc_test = refl
