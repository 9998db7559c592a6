-- ===== src/Sched.antt =====
-- kernel/sched.c: the round-robin scheduler. The circular run queue is the current task and the list
-- of the others in the order of their `next` links, so `task_switch` turns the ring.
pub mod Ring
pub mod Waiting
pub mod Children
pub mod Calls
pub mod Wait
pub mod Fds
pub mod Safety
pub mod Tick
pub mod Wakeup
pub mod Fair
mod Tests
use ali_os.Base.{
  ℕ, zero, suc, ◌+◌, ◌-◌, ◌*◌, ◌/◌, ◌%◌, ◌^◌, u32, update, Bool, true, false, not, ◌&&◌, ◌||◌,
  Option, none, some, List, [], ◌∷◌, ◌++◌, map, if◌then◌else◌, ◌==◌, ltb, leb,
}
use ali_os.Task.{Task, TaskState, Fd, fd_pipe, task_fd_max, is_zombie, is_blocked, is_running}
use ali_os.Pipe.Pool.{Pool, pipe_close_read, pipe_close_write}

-- What the scheduler works on: the ring, the pipes, the tick counter of kernel/timer.c, the task
-- that Ctrl-C kills (by its process id), and the stack pointer that `tss_set_kernel_stack` sets.
pub record Sched : Type 0 where
  pub current : Task
  pub others : List Task
  pub pool : Pool
  pub ticks : ℕ
  pub foreground : Option ℕ
  pub tss_esp0 : ℕ

-- one round of the loop of `release_pipe_fds`, at descriptor `i`
unfoldable pub release_fd : ℕ → (ℕ → Fd) → Pool → (ℕ → Fd) × Pool
release_fd i fds pool =
    if (fds i).used && ((fds i).kind == fd_pipe)
    then (
      update fds i (record (fds i) { used = false }),
      if (fds i).pipe_write
          then pipe_close_write (fds i).pipe_idx pool
          else pipe_close_read (fds i).pipe_idx pool,
    )
    else (fds, pool)

-- the loop from descriptor `i` on, with `left` rounds left
unfoldable pub release_from : ℕ → ℕ → (ℕ → Fd) → Pool → (ℕ → Fd) × Pool
release_from zero i fds pool = (fds, pool)
release_from (suc left) i fds pool =
    let (fds', pool') = release_fd i fds pool in release_from left (i + 1) fds' pool'

unfoldable pub release_pipe_fds : Task → Pool → Task × Pool
unfolding release_from
release_pipe_fds t pool =
    let (fds, pool') = release_from task_fd_max 0 t.fd_table pool in
    (record t { fd_table = fds }, pool')

abbrev pub is_skipped : TaskState → Bool
is_skipped s = is_zombie s || is_blocked s

-- The walk of `schedule`: the first task that is neither a zombie nor blocked, with those before and
-- after it; `none` when the walk comes back to the current task.
unfoldable pub pick : List Task → Option (List Task × Task × List Task)
pick [] = none
pick (t ∷ ts) =
    let rest = pick ts in
    if is_skipped t.state
    then elim rest [ none ↦ none | some (before, next, after) ↦ some (t ∷ before, next, after) ]
    else some ([], t, ts)

abbrev pub preempted : Task → Task
preempted t = record t { state = if is_running t.state then TaskState.ready else t.state }

-- `task_switch(prev, next)`: the ring as seen from `next`.
abbrev pub switch_to : Sched → List Task → Task → List Task → Sched
switch_to s before next after = record s {
  current = record next { state = TaskState.running };
  others = after ++ (preempted s.current ∷ before);
  tss_esp0 = if next.kstack_top == 0 then s.tss_esp0 else next.kstack_top;
}

unfoldable pub schedule : Sched → Sched
schedule s = elim (pick s.others) [
  | none ↦ s
  | some (before, next, after) ↦ switch_to s before next after
]

-- Steps 1 and 2 of `sched_tick` for one task; signal 9 is bit 9.
abbrev pub sigkill : ℕ
sigkill = 2 ^ 9

abbrev pub has_sigkill : ℕ → Bool
has_sigkill sigs = sigs / sigkill % 2 == 1

-- `now >= wakeup_tick`
unfoldable pub wake_sleeper : ℕ → Task → Task
wake_sleeper now t =
    if is_blocked t.state && (not (t.wakeup_tick == 0) && leb t.wakeup_tick now)
    then record t { wakeup_tick = 0; state = TaskState.ready }
    else t

-- The exit code is the `int32_t` -9.
unfoldable pub deliver_kill : Task → Pool → Task × Pool
deliver_kill t pool =
    let t' = record t { pending_sigs = t.pending_sigs - sigkill } in
    let (t'', pool') = release_pipe_fds t' pool in
    if has_sigkill t.pending_sigs && not (is_zombie t.state)
    then (record t'' { exit_code = 2 ^ 32 - 9; state = TaskState.zombie }, pool')
    else (t, pool)

unfoldable pub tick_tasks : ℕ → List Task → Pool → List Task × Pool
tick_tasks now [] pool = ([], pool)
tick_tasks now (t ∷ ts) pool =
    let (t', pool') = deliver_kill (wake_sleeper now t) pool in
    let (ts', pool'') = tick_tasks now ts pool' in (t' ∷ ts', pool'')

-- Some task of the ring is a zombie child of the task `pid`.
unfoldable pub has_zombie_child : ℕ → List Task → Bool
has_zombie_child pid [] = false
has_zombie_child pid (c ∷ cs) =
    (is_zombie c.state && (c.parent_pid == pid)) || has_zombie_child pid cs

-- step 3 of `sched_tick` for one task
unfoldable pub wake_waiter : List Task → Task → Task
wake_waiter ring t =
    if is_blocked t.state && (t.waiting && has_zombie_child t.pid ring)
    then record t { waiting = false; state = TaskState.ready }
    else t

unfoldable pub wake_waiters : List Task → List Task → List Task
wake_waiters ring [] = []
wake_waiters ring (t ∷ ts) = wake_waiter ring t ∷ wake_waiters ring ts

-- The ring after the three passes of `sched_tick`, before it calls `schedule`.
unfoldable pub tick_ring : Sched → Sched
tick_ring s =
    let (t, pool) = deliver_kill (wake_sleeper s.ticks s.current) s.pool in
    let (ts, pool') = tick_tasks s.ticks s.others pool in
    record s { current = wake_waiter (t ∷ ts) t; others = wake_waiters (t ∷ ts) ts; pool = pool' }

unfoldable pub sched_tick : Sched → Sched
sched_tick s = schedule (tick_ring s)

-- `timer_handler` of kernel/timer.c with the hook that `sched_init` installs
unfoldable pub timer_handler : Sched → Sched
timer_handler s = sched_tick (record s { ticks = u32 (s.ticks + 1) })

unfoldable pub sched_set_foreground : Option ℕ → Sched → Sched
sched_set_foreground t s = record s { foreground = t }

-- The task with this process id, changed by `f`; the code holds a pointer to it. A task that has
-- left the ring is not changed.
unfoldable pub at_pid : (Task → Task) → ℕ → List Task → List Task
at_pid f pid [] = []
at_pid f pid (t ∷ ts) = if t.pid == pid then f t ∷ ts else t ∷ at_pid f pid ts

unfoldable pub in_ring : (Task → Task) → ℕ → Sched → Sched
unfolding at_pid
in_ring f pid s =
    if s.current.pid == pid
    then record s { current = f s.current }
    else record s { others = at_pid f pid s.others }

-- `pending_sigs |= 1u << 9`
abbrev pub with_sigkill : Task → Task
with_sigkill t = record t {
  pending_sigs = if has_sigkill t.pending_sigs then t.pending_sigs else t.pending_sigs + sigkill;
}

unfoldable pub sched_ctrlc : Sched → Sched
unfolding in_ring
sched_ctrlc s = elim s.foreground [
  | none ↦ s
  | some pid ↦ in_ring (λ t. if is_zombie t.state then t else with_sigkill t) pid s
]

unfoldable pub sched_add : Task → Sched → Sched
sched_add t s = record s { others = record t { state = TaskState.ready } ∷ s.others }

unfoldable pub sched_yield : Sched → Sched
sched_yield s = schedule s

-- The tick at which `sched_sleep(ms)` ends; 0 would mean that the task does not sleep.
abbrev pub wake_at : ℕ → ℕ → ℕ
wake_at now ms = let at = u32 (now + u32 (ms + 9) / 10) in if at == 0 then 1 else at

unfoldable pub sched_sleep : ℕ → Sched → Sched
unfolding sched_yield
sched_sleep ms s =
    if ms == 0
    then sched_yield s
    else schedule (record s {
      current = record s.current { wakeup_tick = wake_at s.ticks ms; state = TaskState.blocked };
    })

unfoldable pub sched_block : Sched → Sched
sched_block s = schedule (record s { current = record s.current { state = TaskState.blocked } })

abbrev pub woken : Task → Task
woken t = if is_blocked t.state then record t { wakeup_tick = 0; state = TaskState.ready } else t

unfoldable pub sched_wake : ℕ → Sched → Sched
unfolding in_ring
sched_wake pid s = in_ring woken pid s

-- The loop of `sched_exit`: the first other task that is the parent and waits is made ready.
unfoldable pub wake_parent : ℕ → List Task → List Task
wake_parent parent [] = []
wake_parent parent (p ∷ ps) =
    if (p.pid == parent) && p.waiting
    then record p { waiting = false; state = TaskState.ready } ∷ ps
    else p ∷ wake_parent parent ps

-- The ring before `sched_exit` calls `schedule`.
unfoldable pub exit_ring : Sched → Sched
unfolding wake_parent
exit_ring s =
    let (t, pool) = release_pipe_fds s.current s.pool in
    record s {
      current = record t { state = TaskState.zombie };
      pool = pool;
      others = if t.parent_pid == 0 then s.others else wake_parent t.parent_pid s.others;
    }

unfoldable pub sched_exit : Sched → Sched
sched_exit s = schedule (exit_ring s)
