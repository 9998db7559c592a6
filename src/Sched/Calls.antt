-- ===== src/Sched/Calls.antt =====
-- The calls of kernel/sched.c that change the ring, as one type, and any sequence of them.
use ali_os.Base.{ℕ, List, [], ◌∷◌, Option}
use ali_os.Task.{Task}
use ali_os.Sched.{
  Sched, timer_handler, sched_set_foreground, sched_ctrlc, sched_add, sched_yield, sched_sleep,
  sched_block, sched_wake, sched_exit,
}
use ali_os.Sched.Waiting.{wait_pass}

pub data Call : Type 0 where
  tick yield block exit wait ctrlc : Call
  sleep : ℕ → Call
  wake : ℕ → Call
  add : Task → Call
  foreground : Option ℕ → Call

unfoldable pub call : Call → Sched → Sched
call Call.tick s = timer_handler s
call Call.yield s = sched_yield s
call Call.block s = sched_block s
call Call.exit s = sched_exit s
call Call.wait s = (wait_pass s).1
call Call.ctrlc s = sched_ctrlc s
call (Call.sleep ms) s = sched_sleep ms s
call (Call.wake pid) s = sched_wake pid s
call (Call.add t) s = sched_add t s
call (Call.foreground t) s = sched_set_foreground t s

unfoldable pub run : List Call → Sched → Sched
run [] s = s
run (c ∷ cs) s = run cs (call c s)
