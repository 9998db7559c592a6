-- ===== src/Sched/Safety.antt =====
-- At most one task is RUNNING: only the current one can be.
use ali_os.Base.{
  ℕ, ◌≡◌, refl, false, ◌&&◌, Option, none, some, List, [], ◌∷◌, ◌++◌, if◌then◌else◌, ◌==◌, arith,
  Bool-cases, inl, inr,
}
use ali_os.Task.{Task, is_zombie, is_running}
use ali_os.Pipe.Pool.{Pool}
use ali_os.Sched.{
  Sched, preempted, schedule, wake_sleeper, deliver_kill, release_pipe_fds, tick_tasks, wake_waiter,
  wake_waiters, tick_ring, sched_tick, timer_handler, at_pid, in_ring, sched_ctrlc, with_sigkill,
  sched_add, sched_yield, sched_sleep, sched_block, woken, sched_wake, wake_parent, exit_ring,
  sched_exit, sched_set_foreground,
}
use ali_os.Sched.Waiting.{wait_pass, WaitPass}
use ali_os.Sched.Ring.{schedule-Scheduled}
use ali_os.Sched.Wait.{Waited, wait_pass-Waited}
use ali_os.Sched.Calls.{Call, call, run}

abbrev pub Waits : Task → Type 0
Waits t = is_running t.state ≡ false

abbrev pub NoneRunning : List Task → Type 0
NoneRunning [] = Unit
NoneRunning (t ∷ ts) = Waits t × NoneRunning ts

NoneRunning-append : (xs ys : List Task) → NoneRunning xs → NoneRunning ys → NoneRunning (xs ++ ys)
NoneRunning-append [] ys h k = k
NoneRunning-append (x ∷ xs) ys h k = (h.0, NoneRunning-append xs ys h.1 k)

NoneRunning-parts : (xs ys : List Task) → NoneRunning (xs ++ ys) → NoneRunning xs × NoneRunning ys
NoneRunning-parts [] ys h = (tt, h)
NoneRunning-parts (x ∷ xs) ys h = let p = NoneRunning-parts xs ys h.1 in ((h.0, p.0), p.1)

preempted-Waits : (t : Task) → Waits (preempted t)
preempted-Waits t = ground arith

pub schedule_safe : (s : Sched) → NoneRunning s.others → NoneRunning (schedule s).others
schedule_safe s h = elim (schedule-Scheduled s) [
  | inl (_, e) ↦ rw e h
  | inr (before, next, after, e, _, _, r) ↦
      let p = NoneRunning-parts before (next ∷ after) (rw e at h) in
      rw r (NoneRunning-append after _ p.1.1 (preempted-Waits s.current, p.0))
]

wake_sleeper-Waits : (now : ℕ) (t : Task) → Waits t → Waits (wake_sleeper now t)
unfolding wake_sleeper
wake_sleeper-Waits now t h = ground arith

deliver_kill-Waits : (t : Task) (pool : Pool) → Waits t → Waits (deliver_kill t pool).0
unfolding deliver_kill
deliver_kill-Waits t pool h = ground arith

tick_tasks_safe :
    (now : ℕ) (ts : List Task) (pool : Pool)
    → NoneRunning ts
    → NoneRunning (tick_tasks now ts pool).0
unfolding tick_tasks
tick_tasks_safe now [] pool h = tt
tick_tasks_safe now (t ∷ ts) pool h = (
  deliver_kill-Waits (wake_sleeper now t) pool (wake_sleeper-Waits now t h.0),
  tick_tasks_safe now ts _ h.1,
)

wake_waiters_safe : (ring ts : List Task) → NoneRunning ts → NoneRunning (wake_waiters ring ts)
unfolding wake_waiters wake_waiter
wake_waiters_safe ring [] h = tt
wake_waiters_safe ring (t ∷ ts) h = (ground (arith, h.0), wake_waiters_safe ring ts h.1)

at_pid_safe :
    (f : Task → Task) (pid : ℕ) (ts : List Task)
    → ((t : Task) → Waits t → Waits (f t))
    → NoneRunning ts
    → NoneRunning (at_pid f pid ts)
unfolding at_pid
at_pid_safe f pid [] keep h = tt
at_pid_safe f pid (t ∷ ts) keep h = elim (Bool-cases (t.pid == pid)) [
  | inl here ↦ rw here (keep t h.0, h.1)
  | inr there ↦ rw there (h.0, at_pid_safe f pid ts keep h.1)
]

in_ring_safe :
    (f : Task → Task) (pid : ℕ) (s : Sched)
    → ((t : Task) → Waits t → Waits (f t))
    → NoneRunning s.others
    → NoneRunning (in_ring f pid s).others
unfolding in_ring
in_ring_safe f pid s keep h = elim (Bool-cases (s.current.pid == pid)) [
  | inl here ↦ rw here h
  | inr there ↦ rw there (at_pid_safe f pid s.others keep h)
]

wake_parent_safe :
    (parent : ℕ) (ts : List Task) → NoneRunning ts → NoneRunning (wake_parent parent ts)
unfolding wake_parent
wake_parent_safe parent [] h = tt
wake_parent_safe parent (t ∷ ts) h = elim (Bool-cases ((t.pid == parent) && t.waiting)) [
  | inl here ↦ rw here (refl, h.1)
  | inr there ↦ rw there (h.0, wake_parent_safe parent ts h.1)
]

wait_pass_safe :
    (s : Sched) (o : WaitPass × Sched) → Waited s o → NoneRunning s.others → NoneRunning o.1.others
wait_pass_safe s (WaitPass.reaped pid code, s') (before, z, after, l, _, _, _, _, e) h =
    let p = NoneRunning-parts before (z ∷ after) (rw l at h) in
    rw e (NoneRunning-append before after p.0 p.1.1)
wait_pass_safe s (WaitPass.no_child, s') (_, e) h = rw e h
wait_pass_safe s (WaitPass.again, s') (_, _, e) h = rw e (schedule_safe _ h)

exit_ring_safe : (s : Sched) → NoneRunning s.others → NoneRunning (exit_ring s).others
unfolding exit_ring release_pipe_fds
exit_ring_safe s h = elim (Bool-cases (s.current.parent_pid == 0)) [
  | inl orphan ↦ rw orphan h
  | inr child ↦ rw child (wake_parent_safe s.current.parent_pid s.others h)
]

ctrlc_safe :
    (fg : Option ℕ) (s : Sched)
    → NoneRunning s.others
    → NoneRunning (sched_ctrlc (record s { foreground = fg })).others
unfolding sched_ctrlc
ctrlc_safe none s h = h
ctrlc_safe (some pid) s h =
    in_ring_safe (λ t. if is_zombie t.state then t else with_sigkill t) pid
      (record s { foreground = some pid }) (λ t w. ground arith) h

call_safe : (c : Call) (s : Sched) → NoneRunning s.others → NoneRunning (call c s).others
unfolding call timer_handler sched_tick tick_ring sched_yield sched_block sched_exit sched_sleep
    sched_wake sched_add sched_set_foreground
call_safe Call.tick s h = schedule_safe _ (wake_waiters_safe _ _ (tick_tasks_safe _ s.others _ h))
call_safe Call.yield s h = schedule_safe s h
call_safe Call.block s h = schedule_safe _ h
call_safe Call.exit s h = schedule_safe _ (exit_ring_safe s h)
call_safe Call.wait s h = wait_pass_safe s (wait_pass s) (wait_pass-Waited s) h
call_safe Call.ctrlc s h = ctrlc_safe s.foreground s h
call_safe (Call.sleep ms) s h = elim (Bool-cases (ms == 0)) [
  | inl now ↦ rw now (schedule_safe s h)
  | inr later ↦ rw later (schedule_safe _ h)
]
call_safe (Call.wake pid) s h = in_ring_safe woken pid s (λ t w. ground arith) h
call_safe (Call.add t) s h = (refl, h)
call_safe (Call.foreground t) s h = h

-- Whatever calls of the scheduler are made, in whatever order, no task but the current one is ever
-- RUNNING, if that holds at the start.
pub run_safe : (cs : List Call) (s : Sched) → NoneRunning s.others → NoneRunning (run cs s).others
unfolding run
run_safe [] s h = h
run_safe (c ∷ cs) s h = run_safe cs (call c s) (call_safe c s h)
