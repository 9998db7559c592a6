-- ===== src/Syscall/Steps.antt =====
-- kernel/syscall.c over kernel/sched.c: any sequence of system calls, ticks of the timer and Ctrl-C.
use mathlib.Core.Path.{subst}
use ali_os.Base.{ℕ, ◌+◌, ◌<◌, ◌≡◌, ℤ, Bool, true, false, List, ◌∷◌, arith}
use ali_os.Task.{Fd}
use ali_os.Pipe.{pipe_max}
use ali_os.Pipe.Pool.{is_free}
use ali_os.Sched.{Sched, sched_yield, sched_ctrlc, timer_handler}
use ali_os.Sched.Fds.{is_write_end, is_read_end}
use ali_os.Sched.Waiting.{wait_pass}
use ali_os.Alfs.{Fs}
use ali_os.Elf.{Loader}
use ali_os.Syscall.Memory.{sys_exec}
use ali_os.Syscall.{fork_task, sys_open, sys_close, sys_pipe, sys_exit, sys_sleep, sys_kill}
use ali_os.Syscall.Ends.{total, IsBalanced}
use ali_os.Syscall.Fds.{Runs}
use ali_os.Syscall.Pipes.{sys_pipe-IsBalanced}
use ali_os.Syscall.Tasks.{schedule-IsBalanced}
use ali_os.Syscall.Exits.{timer_handler-IsBalanced, sched_exit-IsBalanced}
use ali_os.Syscall.Balance.{fork_task-IsBalanced, sys_open-IsBalanced, sys_close-IsBalanced}
use ali_os.Syscall.Signals.{
  sys_kill-IsBalanced, sys_sleep-IsBalanced, sched_ctrlc-IsBalanced, wait_pass-IsBalanced,
}
use ali_os.Syscall.Files.{Access, sys_write, sys_read, sys_open_w}
use ali_os.Syscall.Access.{Leaves, sys_write-Leaves, sys_read-Leaves}
use ali_os.Syscall.Replace.{sys_open_w-IsBalanced, sys_exec-IsBalanced}

-- What changes the ring, its descriptors or its pipes: a system call of the current task, which runs; a
-- tick; Ctrl-C. A pass of the loop of `wait` is one step, and so is a yield inside a pipe's loop.
pub data Step : Sched → Sched → Type 0 where
  opened : (name : List ℕ) (fs : Fs) (s : Sched) → Runs s → Step s (sys_open name fs s).1
  opened_w :
      (name : List ℕ) (append : Bool) (fs : Fs) (s : Sched)
      → Runs s
      → Step s (sys_open_w name append fs s).2
  closed : (fd : ℕ) (s : Sched) → Runs s → Step s (sys_close fd s).1
  piped : (s : Sched) → Runs s → Step s (sys_pipe s).1
  wrote :
      (fd : ℕ) (buf : List ℕ) (old : ℕ → ℕ) (fs fs' : Fs) (value : ℤ) (got : List ℕ) (s s' : Sched)
      → Runs s
      → sys_write fd buf old fs s ≡ Access.result value got fs' s'
      → Step s s'
  did_read :
      (fd len : ℕ) (fs fs' : Fs) (value : ℤ) (got : List ℕ) (s s' : Sched)
      → Runs s
      → sys_read fd len fs s ≡ Access.result value got fs' s'
      → Step s s'
  forked :
      (pid kstack_top eip esp child_pd : ℕ) (held : ℕ → Fd) (s : Sched)
      → Runs s
      → Step s (fork_task pid kstack_top eip esp child_pd held s).1
  execed : (uname : List ℕ) (ld : Loader) (s : Sched) → Runs s → Step s (sys_exec uname s ld).1
  exited : (code : ℕ) (s : Sched) → Runs s → Step s (sys_exit code s)
  slept : (ms : ℕ) (s : Sched) → Runs s → Step s (sys_sleep ms s)
  killed : (pid sig : ℕ) (s : Sched) → Runs s → Step s (sys_kill pid sig s).1
  waited : (s : Sched) → Runs s → Step s (wait_pass s).1
  yielded : (s : Sched) → Step s (sched_yield s)
  ticked : (s : Sched) → Step s (timer_handler s)
  ctrlc : (s : Sched) → Step s (sched_ctrlc s)

pub data Reach (s : Sched) : Sched → Type 0 where
  here : Reach s s
  next : {t u : Sched} → Reach s t → Step t u → Reach s u

-- The result of an access, as the equation of its step gives it.
from_leaves :
    (P : Sched → Type 0) (a : Access) (value : ℤ) (got : List ℕ) (fs : Fs) (s : Sched)
    → a ≡ Access.result value got fs s
    → Leaves P a
    → P s
from_leaves P a value got fs s e l = subst (Leaves P) e l

sys_exit-IsBalanced :
    (p code : ℕ) (s : Sched) → p < pipe_max → IsBalanced p s → IsBalanced p (sys_exit code s)
unfolding sys_exit total
sys_exit-IsBalanced p code s lt b =
    sched_exit-IsBalanced p (record s { current = record s.current { exit_code = code } }) lt
      (record { writers = b.writers; readers = b.readers; clean = b.clean })

sched_yield-IsBalanced : (p : ℕ) (s : Sched) → IsBalanced p s → IsBalanced p (sched_yield s)
unfolding sched_yield
sched_yield-IsBalanced p s b = schedule-IsBalanced p s b

Step-IsBalanced : (p : ℕ) {s t : Sched} → p < pipe_max → Step s t → IsBalanced p s → IsBalanced p t
Step-IsBalanced p lt (opened name fs s r) b = sys_open-IsBalanced p name fs s b r
Step-IsBalanced p lt (opened_w name append fs s r) b = sys_open_w-IsBalanced p name append fs s b r
Step-IsBalanced p lt (closed fd s r) b = sys_close-IsBalanced p fd s lt b r
Step-IsBalanced p lt (piped s r) b = sys_pipe-IsBalanced p s lt b r
Step-IsBalanced p lt (wrote fd buf old fs fs' value got s s' r e) b =
    from_leaves (IsBalanced p) (sys_write fd buf old fs s) value got fs' s' e
      (sys_write-Leaves p fd buf old fs s b r)
Step-IsBalanced p lt (did_read fd len fs fs' value got s s' r e) b =
    from_leaves (IsBalanced p) (sys_read fd len fs s) value got fs' s' e
      (sys_read-Leaves p fd len fs s b r)
Step-IsBalanced p lt (forked pid k eip esp pd held s r) b =
    fork_task-IsBalanced p pid k eip esp pd held s lt b
Step-IsBalanced p lt (execed uname ld s r) b = sys_exec-IsBalanced p uname s ld lt b r
Step-IsBalanced p lt (exited code s r) b = sys_exit-IsBalanced p code s lt b
Step-IsBalanced p lt (slept ms s r) b = sys_sleep-IsBalanced p ms s b
Step-IsBalanced p lt (killed pid sig s r) b = sys_kill-IsBalanced p pid sig s b
Step-IsBalanced p lt (waited s r) b = wait_pass-IsBalanced p s b
Step-IsBalanced p lt (yielded s) b = sched_yield-IsBalanced p s b
Step-IsBalanced p lt (ticked s) b = timer_handler-IsBalanced p s lt b
Step-IsBalanced p lt (ctrlc s) b = sched_ctrlc-IsBalanced p s b

-- Whatever sequence of system calls, ticks and Ctrl-C follows, if the end counts of a pipe were the
-- numbers of open descriptors that referred to it, over all tasks, and tasks that have exited held
-- none, then this is still so.
pub Reach-IsBalanced :
    (p : ℕ) {s t : Sched} → p < pipe_max → IsBalanced p s → Reach s t → IsBalanced p t
Reach-IsBalanced p lt b here = b
Reach-IsBalanced p lt b (next r st) = Step-IsBalanced p lt st (Reach-IsBalanced p lt b r)

-- A slot that `pipe_alloc` may hand out, after any such sequence, is one to which no task has an open
-- descriptor; and a pipe to which a task has one is not handed out.
pub Reach-is_free :
    (p : ℕ) {s t : Sched}
    → p < pipe_max
    → IsBalanced p s
    → Reach s t
    → (is_free (t.pool p) ≡ true
        → (total (is_write_end p) (t.current ∷ t.others) ≡ 0)
          × (total (is_read_end p) (t.current ∷ t.others) ≡ 0))
      × (0
            < total (is_write_end p) (t.current ∷ t.others)
              + total (is_read_end p) (t.current ∷ t.others)
          → is_free (t.pool p) ≡ false)
Reach-is_free p lt b r =
    let c = Reach-IsBalanced p lt b r in
    ((λ f. ground (arith, c.writers, c.readers)), (λ h. ground (arith, c.writers, c.readers)))
