-- ===== src/Syscall/Tests.antt =====
-- Runs of the model of kernel/syscall.c, and its theorems from a state of one task with no pipe.
use ali_os.Base.{int32, ℕ, ◌+◌, ◌≡◌, ◌<◌, refl, negsuc, true, false, [], ◌∷◌, none, some, arith}
use ali_os.Base.{pos, ◌*◌, ◌<◌, ◌==◌, if◌then◌else◌, refl, arith, true, false, ◌+◌}
use ali_os.Pmm.{page_is_free}
use ali_os.Pmm.Small.{four_free, four_free_at, four_free-IsValid}
use ali_os.Vm.{Vm, is_present}
use ali_os.Vm.Map.{IsSpace, IsUserIndex}
use ali_os.Vm.Free.{Reaches}
use ali_os.Elf.{Loader}
use ali_os.Syscall.Memory.{sys_brk, sys_exec}
use ali_os.Syscall.Grow.{Grows, sys_brk-Grows}
use ali_os.Syscall.Exec.{sys_exec_exits}
use ali_os.Sched.{sched_exit}
use ali_os.Task.{Fd, Task, TaskState}
use ali_os.Pipe.{pipe_max}
use ali_os.Pipe.Pool.{Pool, is_free, pipe_alloc}
use ali_os.Sched.{Sched, timer_handler}
use ali_os.Sched.Fds.{count_fds, is_write_end, is_read_end}
use ali_os.Syscall.{fork_task, sys_close, sys_pipe, sys_kill}
use ali_os.Syscall.Ends.{total, IsBalanced}
use ali_os.Syscall.Fds.{Runs}
use ali_os.Syscall.Steps.{Step, Reach, Reach-IsBalanced, Reach-is_free}

abbrev no_fd : Fd
no_fd = record {
  used = false;
  kind = 0;
  alfs_idx = negsuc 0;
  offset = 0;
  pipe_idx = negsuc 0;
  pipe_write = false;
}

abbrev shell_task : Task
shell_task = record {
  pid = 1;
  state = TaskState.running;
  page_dir = 0x1000;
  kstack_top = 0x9000;
  user_eip = 0;
  user_esp = 0;
  fd_table = λ i. no_fd;
  wakeup_tick = 0;
  user_brk = 0x10000000;
  user_eax = 0;
  parent_pid = 0;
  exit_code = 0;
  pending_sigs = 0;
  waiting = false;
  name = [];
  cwd = b'/' ∷ [];
}

abbrev start : Sched
start = record {
  current = shell_task;
  others = [];
  pool = λ i. record { bytes = λ k. 0; head = 0; tail = 0; nreaders = 0; nwriters = 0 };
  ticks = 0;
  foreground = none;
  tss_esp0 = 0;
}

piped : Sched
unfolding sys_pipe pipe_alloc
piped = (sys_pipe start).1

forked : Sched
unfolding piped fork_task ali_os.Pipe.Pool.pipe_open_read ali_os.Pipe.Pool.pipe_open_write
    ali_os.Sched.sched_add
forked = (fork_task 2 0xA000 0 0 0x2000 (λ i. no_fd) piped).1

pipe_fds : (sys_pipe start).0 ≡ some (3, 4)
unfolding sys_pipe pipe_alloc
pipe_fds = refl

-- Parent and child hold one write end each.
two_writers : (forked.pool 0).nwriters ≡ 2
unfolding forked
two_writers = refl

two_counted : total (is_write_end 0) (forked.current ∷ forked.others) ≡ 2
unfolding forked total count_fds
two_counted = refl

closed_twice : (sys_close 4 (sys_close 4 forked).1).0 ≡ false
unfolding forked sys_close
closed_twice = refl

one_writer : ((sys_close 4 forked).1.pool 0).nwriters ≡ 1
unfolding forked sys_close ali_os.Pipe.Pool.pipe_close_write
one_writer = refl

-- A task does not find itself.
kill_self : (sys_kill 1 9 forked).0 ≡ false
unfolding forked sys_kill
kill_self = refl

kill_child : (sys_kill 2 9 forked).0 ≡ true
unfolding forked sys_kill
kill_child = refl

start-IsBalanced : (p : ℕ) → IsBalanced p start
unfolding total count_fds
start-IsBalanced p = record { writers = refl; readers = refl; clean = ((λ z. absurd (cc z)), tt) }

piped-Runs : Runs (sys_pipe start).1
unfolding sys_pipe pipe_alloc
piped-Runs = refl

-- `pipe`, then `fork`, then a tick.
three_steps :
    Reach start (timer_handler (fork_task 2 0xA000 0 0 0x2000 (λ i. no_fd) (sys_pipe start).1).1)
three_steps =
    Reach.next
      (Reach.next (Reach.next Reach.here (Step.piped start refl))
        (Step.forked 2 0xA000 0 0 0x2000 (λ i. no_fd) (sys_pipe start).1 piped-Runs))
      (Step.ticked _)

Reach-IsBalanced_example :
    IsBalanced 0 (timer_handler (fork_task 2 0xA000 0 0 0x2000 (λ i. no_fd) (sys_pipe start).1).1)
Reach-IsBalanced_example = Reach-IsBalanced 0 (omega arith) (start-IsBalanced 0) three_steps

abbrev after_three : Sched
after_three = timer_handler (fork_task 2 0xA000 0 0 0x2000 (λ i. no_fd) (sys_pipe start).1).1

Reach-is_free_example :
    (is_free (after_three.pool 0) ≡ true
      → (total (is_write_end 0) (after_three.current ∷ after_three.others) ≡ 0)
        × (total (is_read_end 0) (after_three.current ∷ after_three.others) ≡ 0))
    × (0
          < total (is_write_end 0) (after_three.current ∷ after_three.others)
            + total (is_read_end 0) (after_three.current ∷ after_three.others)
        → is_free (after_three.pool 0) ≡ false)
Reach-is_free_example = Reach-is_free 0 (omega arith) (start-IsBalanced 0) three_steps

zero_used : page_is_free four_free.bitmap 0 ≡ false
zero_used = four_free_at 0

dir_used : page_is_free four_free.bitmap 1 ≡ false
dir_used = four_free_at 1

-- Directory 1 has the identity table in page 3, and nothing in the user's half.
abbrev small : Vm
small = record {
  pages = four_free;
  tables =
      λ p i. if p == 1 then (if i == 0 then 0x3003 else 0) else if p == 3 then i * 4096 + 3 else 0;
  bytes = λ p k. 7;
  kernel_dir = λ i. if i == 0 then 0x3003 else 0;
}

abbrev loader : Loader
loader = record {
  vm = small;
  fs = record {
    ready = false;
    dir = λ i. record { name = λ k. 0; start = 0; size = 0; flags = 0 };
    drive = record { bytes = λ a. 0; polls = λ n. true; clock = 0; ready = true; stray = λ i. 9 };
  };
  hdr_buf = λ i. 0;
  ph_buf = λ i. 0;
  spoilt = λ i. 9;
}

none_present : (i : ℕ) → IsUserIndex i → is_present (small.tables 1 i) ≡ false
none_present i u = ground arith

small-IsSpace : IsSpace 1 small
small-IsSpace = record {
  pages = record { valid = four_free-IsValid; zero_used = zero_used };
  dir_used = dir_used;
  table_used = λ i u p. absurd (cc (none_present i u, p));
  table_grants = λ i u p. absurd (cc (none_present i u, p));
  table_ne = λ i u p. absurd (cc (none_present i u, p));
  table_apart = λ i j ui uj n p q. absurd (cc (none_present i ui, p));
}

identity_page : Reaches 1 0 0 0 small
identity_page = record {
  index = omega arith;
  table_there = refl;
  page_there = refl;
  leads = refl;
  page_lt = omega arith;
}

sys_brk-Grows_example :
    ((sys_brk 0x10001001 start small).0 ≡ int32 0x10001001)
    × ((sys_brk 0x10001001 start small).1.current.user_brk ≡ 0x10001001)
    × Grows 1 0x10000 2 small (true, (sys_brk 0x10001001 start small).2)
sys_brk-Grows_example =
    sys_brk-Grows 0x10001001 start small small-IsSpace (omega arith) (omega arith) (omega arith)
      (omega arith)

sys_exec_exits_example :
    ((sys_exec (b'l' ∷ b's' ∷ []) start loader).0 ≡ none)
    × ((sys_exec (b'l' ∷ b's' ∷ []) start loader).1 ≡ sched_exit start)
sys_exec_exits_example =
    sys_exec_exits (b'l' ∷ b's' ∷ []) start loader identity_page (four_free-IsValid, omega arith)

-- The query, and a break that is too high.
brk_query : (sys_brk 0 start small).0 ≡ pos 0x10000000
unfolding sys_brk
brk_query = refl

brk_too_high : (sys_brk 0xBFFF0000 start small).0 ≡ negsuc 0
unfolding sys_brk
brk_too_high = refl
