-- ===== src/Sched/Tick.antt =====
-- What the three passes of `sched_tick` in kernel/sched.c make of one task.
use ali_os.Base.{
  ℕ, ◌-◌, ◌^◌, ◌≤◌, ◌<◌, ◌≡◌, ◌≢◌, ◌∙◌, ◌⊎◌, refl, ap, true, false, not, ◌&&◌, List, ◌==◌, arith,
  Bool-cases, inl, inr, leb,
}
use ali_os.Task.{Task, TaskState, is_zombie, is_blocked}
use ali_os.Pipe.Pool.{Pool}
use ali_os.Sched.{
  wake_sleeper, deliver_kill, release_pipe_fds, has_zombie_child, wake_waiter, has_sigkill, sigkill,
}

-- What a tick at time `now` makes of one task.
pub record Ticked (now : ℕ) (t t' : Task) : Type 0 where
  pub same_pid : t'.pid ≡ t.pid
  pub same_parent : t'.parent_pid ≡ t.parent_pid
  pub killed :
      has_sigkill t.pending_sigs ≡ true
      → is_zombie t.state ≡ false
      → (t'.state ≡ TaskState.zombie)
        × (t'.exit_code ≡ 2 ^ 32 - 9)
        × (t'.pending_sigs ≡ t.pending_sigs - sigkill)
  pub reposes : is_zombie t.state ≡ true → t' ≡ t
  pub wakes :
      has_sigkill t.pending_sigs ≡ false
      → is_blocked t.state ≡ true
      → t.wakeup_tick ≢ 0
      → t.wakeup_tick ≤ now
      → t'.state ≡ TaskState.ready
  pub sleeps :
      has_sigkill t.pending_sigs ≡ false
      → is_blocked t.state ≡ true
      → t.waiting ≡ false
      → (t.wakeup_tick ≡ 0) ⊎ (now < t.wakeup_tick)
      → t' ≡ t
  pub runs_on : has_sigkill t.pending_sigs ≡ false → is_blocked t.state ≡ false → t' ≡ t

abbrev pub ticked_by : ℕ → List Task → Task → Pool → Task
ticked_by now ring t pool = wake_waiter ring (deliver_kill (wake_sleeper now t) pool).0

zombie_not_blocked : (st : TaskState) → is_zombie st ≡ true → is_blocked st ≡ false
zombie_not_blocked st z = ground arith

-- The three passes of a tick, each by the cases that matter.
wake_sleeper_not_blocked :
    (now : ℕ) (t : Task) → is_blocked t.state ≡ false → wake_sleeper now t ≡ t
unfolding wake_sleeper
wake_sleeper_not_blocked now t b = rw b refl

wake_sleeper_early :
    (now : ℕ) (t : Task) → (t.wakeup_tick ≡ 0) ⊎ (now < t.wakeup_tick) → wake_sleeper now t ≡ t
unfolding wake_sleeper
wake_sleeper_early now t early =
    let due : (is_blocked t.state && (not (t.wakeup_tick == 0) && leb t.wakeup_tick now)) ≡ false =
      ground arith in
    rw due refl

wake_sleeper_due :
    (now : ℕ) (t : Task)
    → is_blocked t.state ≡ true
    → t.wakeup_tick ≢ 0
    → t.wakeup_tick ≤ now
    → wake_sleeper now t ≡ record t { wakeup_tick = 0; state = TaskState.ready }
unfolding wake_sleeper
wake_sleeper_due now t b n le =
    let due : (not (t.wakeup_tick == 0) && leb t.wakeup_tick now) ≡ true = ground arith in
    rw (b, due) refl

-- What no pass changes, or changes only as said: the ids, and the pending signals.
record SameIds (t t' : Task) : Type 0 where
  same_pid : t'.pid ≡ t.pid
  same_parent : t'.parent_pid ≡ t.parent_pid

wake_sleeper-SameIds : (now : ℕ) (t : Task) → SameIds t (wake_sleeper now t)
unfolding wake_sleeper
wake_sleeper-SameIds now t =
    elim (Bool-cases (is_blocked t.state && (not (t.wakeup_tick == 0) && leb t.wakeup_tick now))) [
      | inl due ↦ rw due (record { same_pid = refl; same_parent = refl })
      | inr early ↦ rw early (record { same_pid = refl; same_parent = refl })
    ]

wake_sleeper_signals : (now : ℕ) (t : Task) → (wake_sleeper now t).pending_sigs ≡ t.pending_sigs
unfolding wake_sleeper
wake_sleeper_signals now t =
    elim (Bool-cases (is_blocked t.state && (not (t.wakeup_tick == 0) && leb t.wakeup_tick now))) [
      | inl due ↦ rw due refl
      | inr early ↦ rw early refl
    ]

wake_sleeper_alive :
    (now : ℕ) (t : Task) → is_zombie t.state ≡ false → is_zombie (wake_sleeper now t).state ≡ false
unfolding wake_sleeper
wake_sleeper_alive now t z =
    elim (Bool-cases (is_blocked t.state && (not (t.wakeup_tick == 0) && leb t.wakeup_tick now))) [
      | inl due ↦ rw due refl
      | inr early ↦ rw early z
    ]

deliver_kill_spares :
    (t : Task) (pool : Pool)
    → (has_sigkill t.pending_sigs && not (is_zombie t.state)) ≡ false
    → deliver_kill t pool ≡ (t, pool)
unfolding deliver_kill
deliver_kill_spares t pool e = rw e refl

record Killed (t t' : Task) : Type 0 where
  state : t'.state ≡ TaskState.zombie
  code : t'.exit_code ≡ 2 ^ 32 - 9
  signals : t'.pending_sigs ≡ t.pending_sigs - sigkill
  same : SameIds t t'

deliver_kill-Killed :
    (t : Task) (pool : Pool)
    → (has_sigkill t.pending_sigs && not (is_zombie t.state)) ≡ true
    → Killed t (deliver_kill t pool).0
unfolding deliver_kill release_pipe_fds
deliver_kill-Killed t pool e = rw e (record {
  state = refl;
  code = refl;
  signals = refl;
  same = record { same_pid = refl; same_parent = refl };
})

deliver_kill-SameIds : (t : Task) (pool : Pool) → SameIds t (deliver_kill t pool).0
deliver_kill-SameIds t pool =
    elim (Bool-cases (has_sigkill t.pending_sigs && not (is_zombie t.state))) [
      | inl dies ↦ (deliver_kill-Killed t pool dies).same
      | inr lives ↦
          rw (deliver_kill_spares t pool lives) (record { same_pid = refl; same_parent = refl })
    ]

wake_waiter_stays :
    (ring : List Task) (t : Task)
    → (is_blocked t.state && t.waiting) ≡ false
    → wake_waiter ring t ≡ t
unfolding wake_waiter
wake_waiter_stays ring t e =
    let stays : (is_blocked t.state && (t.waiting && has_zombie_child t.pid ring)) ≡ false =
      ground arith in
    rw stays refl

wake_waiter-SameIds : (ring : List Task) (t : Task) → SameIds t (wake_waiter ring t)
unfolding wake_waiter
wake_waiter-SameIds ring t =
    elim (Bool-cases (is_blocked t.state && (t.waiting && has_zombie_child t.pid ring))) [
      | inl wakes ↦ rw wakes (record { same_pid = refl; same_parent = refl })
      | inr stays ↦ rw stays (record { same_pid = refl; same_parent = refl })
    ]

-- A task that no kill is pending for, and that the first pass leaves as `u`.
spared :
    (now : ℕ) (ring : List Task) (t u : Task) (pool : Pool)
    → wake_sleeper now t ≡ u
    → (has_sigkill u.pending_sigs && not (is_zombie u.state)) ≡ false
    → (is_blocked u.state && u.waiting) ≡ false
    → ticked_by now ring t pool ≡ u
spared now ring t u pool e lives stays =
    rw (e, deliver_kill_spares u pool lives) (wake_waiter_stays ring u stays)

task_killed :
    (now : ℕ) (ring : List Task) (t : Task) (pool : Pool)
    → has_sigkill t.pending_sigs ≡ true
    → is_zombie t.state ≡ false
    → ((ticked_by now ring t pool).state ≡ TaskState.zombie)
      × ((ticked_by now ring t pool).exit_code ≡ 2 ^ 32 - 9)
      × ((ticked_by now ring t pool).pending_sigs ≡ t.pending_sigs - sigkill)
task_killed now ring t pool k z =
    let u = wake_sleeper now t in
    let sigs = wake_sleeper_signals now t in
    let dies : (has_sigkill u.pending_sigs && not (is_zombie u.state)) ≡ true =
      rw (sigs, k, wake_sleeper_alive now t z) refl in
    let d = deliver_kill-Killed u pool dies in
    let stays : (is_blocked (deliver_kill u pool).0.state && (deliver_kill u pool).0.waiting)
        ≡ false =
      rw d.state refl in
    rw (wake_waiter_stays ring (deliver_kill u pool).0 stays)
      (d.state, d.code, d.signals ∙ ap (λ n. n - sigkill) sigs)

pub task-Ticked :
    (now : ℕ) (ring : List Task) (t : Task) (pool : Pool) → Ticked now t (ticked_by now ring t pool)
task-Ticked now ring t pool =
    let w = wake_sleeper-SameIds now t in
    let d = deliver_kill-SameIds (wake_sleeper now t) pool in
    let l = wake_waiter-SameIds ring (deliver_kill (wake_sleeper now t) pool).0 in
    record {
      same_pid = l.same_pid ∙ d.same_pid ∙ w.same_pid;
      same_parent = l.same_parent ∙ d.same_parent ∙ w.same_parent;
      killed = λ k z. task_killed now ring t pool k z;
      reposes = λ z.
          let b = zombie_not_blocked t.state z in
          spared now ring t t pool (wake_sleeper_not_blocked now t b) (ground arith) (rw b refl);
      wakes = λ k b n le.
          let u : Task = record t { wakeup_tick = 0; state = TaskState.ready } in
          ap (λ (v : Task). v.state)
            (spared now ring t u pool (wake_sleeper_due now t b n le) (rw k refl) refl);
      sleeps = λ k b w' e.
          spared now ring t t pool (wake_sleeper_early now t e) (rw k refl) (rw (b, w') refl);
      runs_on = λ k b.
          spared now ring t t pool (wake_sleeper_not_blocked now t b) (rw k refl) (rw b refl);
    }
