-- ===== src/Sched/Tests.antt =====
-- Tests of kernel/sched.c's model, and its theorems at concrete inputs.
use ali_os.Base.{
  ℕ, pos, negsuc, ◌^◌, ◌≤◌, ◌<◌, ◌≡◌, refl, false, some, List, [], ◌∷◌, arith, ◌||◌, ◌==◌,
}
use ali_os.Task.{Task, TaskState, Fd, slash, task_fd_max}
use ali_os.Pipe.{pipe_max}
use ali_os.Pipe.Pool.{Pool}
use ali_os.Sched.{Sched, schedule, tick_ring, pick, release_pipe_fds}
use ali_os.Sched.Waiting.{WaitPass, wait_pass, take_zombie}
use ali_os.Sched.Calls.{Call, run}
use ali_os.Sched.Wait.{Waited, wait_pass-Waited}
use ali_os.Sched.Fds.{
  Closes, is_pipe_fd, is_write_end, is_read_end, count_fds, release_pipe_fds_lem,
}
use ali_os.Sched.Safety.{NoneRunning, run_safe}
use ali_os.Sched.Wakeup.{NoneLost, AllTicked, ring_of, tick_ring-NoneLost, tick_ring-AllTicked}
use ali_os.Sched.Fair.{schedules, schedule_reaches}

-- Descriptor 3 is the write end of pipe 1, and descriptor 4 its read end.
abbrev two_ends : ℕ → Fd
two_ends i = record {
  used = (i == 3) || (i == 4);
  kind = 2;
  alfs_idx = negsuc 0;
  offset = 0;
  pipe_idx = pos 1;
  pipe_write = i == 3;
}

abbrev task : ℕ → ℕ → TaskState → Task
task pid parent state = record {
  pid = pid;
  state = state;
  page_dir = 0;
  kstack_top = 0;
  user_eip = 0;
  user_esp = 0;
  fd_table = two_ends;
  wakeup_tick = 0;
  user_brk = 0;
  user_eax = 0;
  parent_pid = parent;
  exit_code = 7;
  pending_sigs = 0;
  waiting = false;
  name = [];
  cwd = slash ∷ [];
}

abbrev shared_pipe : Pool
shared_pipe i = record { bytes = λ j. 0; head = 0; tail = 0; nreaders = 2; nwriters = 2 }

-- Task 1 runs; its child 2 is a zombie, task 3 sleeps, task 4 has a kill pending, and task 5 is ready.
abbrev sleeper : Task
sleeper = record (task 3 1 TaskState.blocked) { wakeup_tick = 50 }

abbrev doomed : Task
doomed = record (task 4 1 TaskState.ready) { pending_sigs = 2 ^ 9 }

abbrev busy : Sched
busy = record {
  current = task 1 0 TaskState.running;
  others = task 2 1 TaskState.zombie ∷ sleeper ∷ task 5 1 TaskState.ready ∷ doomed ∷ [];
  pool = shared_pipe;
  ticks = 100;
  foreground = some 4;
  tss_esp0 = 0;
}

schedule_test : (schedule busy).current.pid ≡ 5
unfolding schedule pick
schedule_test = refl

wait_test : (wait_pass busy).0 ≡ WaitPass.reaped 2 7
unfolding wait_pass take_zombie
wait_test = refl

wait_pass-Waited_example : Waited busy (wait_pass busy)
wait_pass-Waited_example = wait_pass-Waited busy

abbrev calls : List Call
calls = Call.wait ∷ Call.ctrlc ∷ Call.tick ∷ Call.sleep 20 ∷ Call.wake 3 ∷ Call.exit ∷ []

run_safe_example : NoneRunning (run calls busy).others
run_safe_example = run_safe calls busy (refl, (refl, (refl, (refl, tt))))

tick_ring-NoneLost_example : NoneLost (ring_of (tick_ring busy)) (ring_of (tick_ring busy))
tick_ring-NoneLost_example = tick_ring-NoneLost busy

tick_ring-AllTicked_example : AllTicked 100 (ring_of busy) (ring_of (tick_ring busy))
tick_ring-AllTicked_example = tick_ring-AllTicked busy

schedule_reaches_example :
    (n : ℕ) × (n ≤ 4) × ((schedules n busy).current ≡ record doomed { state = TaskState.running })
schedule_reaches_example =
    schedule_reaches 3 busy (task 2 1 TaskState.zombie ∷ sleeper ∷ task 5 1 TaskState.ready ∷ [])
      doomed [] refl refl (omega arith)

release_pipe_fds_lem_example :
    ((i : ℕ)
      → i < task_fd_max
      → is_pipe_fd ((release_pipe_fds doomed shared_pipe).0.fd_table i) ≡ false)
    × ((i : ℕ)
        → is_pipe_fd (doomed.fd_table i) ≡ false
        → (release_pipe_fds doomed shared_pipe).0.fd_table i ≡ doomed.fd_table i)
    × ((p : ℕ)
        → p < pipe_max
        → Closes p shared_pipe
            (release_pipe_fds doomed shared_pipe).1
            (count_fds (is_write_end p) task_fd_max 0 doomed.fd_table)
            (count_fds (is_read_end p) task_fd_max 0 doomed.fd_table))
release_pipe_fds_lem_example = release_pipe_fds_lem doomed shared_pipe
