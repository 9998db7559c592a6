-- ===== src/Syscall/Exits.antt =====
-- kernel/sched.c: a task that exits, is killed at a tick or is reaped takes its pipe ends with it.
use ali_os.Base.{
  ℕ, zero, suc, ◌+◌, ◌-◌, ◌^◌, ◌≤◌, ◌<◌, ◌≡◌, ◌∙◌, refl, ap, u32, Bool, false, not, ◌&&◌, List, [],
  ◌∷◌, if◌then◌else◌, ◌==◌, leb, arith, Bool-cases, inl, inr,
}
use ali_os.Task.{Fd, Task, TaskState, task_fd_max, is_zombie, is_blocked}
use ali_os.Pipe.{pipe_max}
use ali_os.Pipe.Pool.{Pool}
use ali_os.Sched.{
  Sched, wake_sleeper, deliver_kill, tick_tasks, tick_ring, wake_waiter, wake_waiters,
  has_zombie_child, wake_parent, exit_ring, sched_exit, sched_tick, timer_handler, release_pipe_fds,
  has_sigkill, sigkill,
}
use ali_os.Sched.Fds.{count_fds, is_write_end, is_read_end, is_pipe_fd, release_pipe_fds_lem}
use ali_os.Syscall.Ends.{ends, total, IsClean, AllClean, IsBalanced}
use ali_os.Syscall.Tasks.{
  Keeps, AllKeep, Keeps-self, AllKeep-self, ends-Keeps, kept-IsBalanced, schedule-IsBalanced,
}

-- No descriptor passes where none is a pipe end.
none_count :
    (test : Fd → Bool) (left i : ℕ) (fds : ℕ → Fd)
    → ((j : ℕ) → i ≤ j → j < i + left → test (fds j) ≡ false)
    → count_fds test left i fds ≡ 0
unfolding count_fds
none_count test zero i fds h = refl
none_count test (suc left) i fds h =
    rw (h i (omega arith) (omega arith))
      (omega (arith, none_count test left (i + 1) fds (λ j a b. h j (omega arith) (omega arith))))

write_of_pipe : (p : ℕ) (f : Fd) → is_pipe_fd f ≡ false → is_write_end p f ≡ false
write_of_pipe p f h = rw h refl

read_of_pipe : (p : ℕ) (f : Fd) → is_pipe_fd f ≡ false → is_read_end p f ≡ false
read_of_pipe p f h = rw h refl

released_none :
    (p : ℕ) (t : Task) (pool : Pool)
    → (ends (is_write_end p) (release_pipe_fds t pool).0 ≡ 0)
      × (ends (is_read_end p) (release_pipe_fds t pool).0 ≡ 0)
released_none p t pool =
    let closed = (release_pipe_fds_lem t pool).0 in
    let fds = (release_pipe_fds t pool).0.fd_table in
    (
      none_count (is_write_end p) task_fd_max 0 fds
          (λ j _ lt. write_of_pipe p (fds j) (closed j (omega arith))),
      none_count (is_read_end p) task_fd_max 0 fds
          (λ j _ lt. read_of_pipe p (fds j) (closed j (omega arith))),
    )

-- A change of one task and of the pool with it: what is left to the other tasks stays the same.
pub record Moves (p : ℕ) (t : Task) (pool : Pool) (t' : Task) (pool' : Pool) : Type 0 where
  pub writers :
      ends (is_write_end p) t ≤ (pool p).nwriters
      → (pool' p).nwriters + ends (is_write_end p) t ≡ (pool p).nwriters + ends (is_write_end p) t'
  pub readers :
      ends (is_read_end p) t ≤ (pool p).nreaders
      → (pool' p).nreaders + ends (is_read_end p) t ≡ (pool p).nreaders + ends (is_read_end p) t'
  pub clean : IsClean p t → IsClean p t'

release-Moves :
    (p : ℕ) (t t' : Task) (pool : Pool)
    → p < pipe_max
    → t'.fd_table ≡ (release_pipe_fds t pool).0.fd_table
    → Moves p t pool t' (release_pipe_fds t pool).1
release-Moves p t t' pool lt e =
    let (_, _, closes) = release_pipe_fds_lem t pool in
    let (w, r) = released_none p t pool in
    let c = closes p lt in
    let w' : ends (is_write_end p) t' ≡ 0 = ap (count_fds (is_write_end p) task_fd_max 0) e ∙ w in
    let r' : ends (is_read_end p) t' ≡ 0 = ap (count_fds (is_read_end p) task_fd_max 0) e ∙ r in
    record {
      writers = λ le. omega (arith, c.writers_left, w');
      readers = λ le. omega (arith, c.readers_left, r');
      clean = λ _ _. (w', r');
    }

Keeps-Moves : (p : ℕ) (t t' : Task) (pool : Pool) → Keeps t t' → Moves p t pool t' pool
Keeps-Moves p t t' pool (e, z) = record {
  writers = λ _. omega (arith, ends-Keeps (is_write_end p) t t' (e, z));
  readers = λ _. omega (arith, ends-Keeps (is_read_end p) t t' (e, z));
  clean = λ c h.
      let (w, r) = c (z h) in
      (ends-Keeps (is_write_end p) t t' (e, z) ∙ w, ends-Keeps (is_read_end p) t t' (e, z) ∙ r);
}

wake_sleeper-Keeps : (now : ℕ) (t : Task) → Keeps t (wake_sleeper now t)
unfolding wake_sleeper
wake_sleeper-Keeps now t =
    elim (Bool-cases (is_blocked t.state && (not (t.wakeup_tick == 0) && leb t.wakeup_tick now))) [
      | inl h ↦ rw h (refl, λ z. absurd (cc z))
      | inr h ↦ rw h (refl, λ z. z)
    ]

wake_waiter-Keeps : (ring : List Task) (t : Task) → Keeps t (wake_waiter ring t)
unfolding wake_waiter
wake_waiter-Keeps ring t =
    elim (Bool-cases (is_blocked t.state && (t.waiting && has_zombie_child t.pid ring))) [
      | inl h ↦ rw h (refl, λ z. absurd (cc z))
      | inr h ↦ rw h (refl, λ z. z)
    ]

wake_waiters-AllKeep : (ring ts : List Task) → AllKeep ts (wake_waiters ring ts)
unfolding wake_waiters
wake_waiters-AllKeep ring [] = tt
wake_waiters-AllKeep ring (t ∷ ts) = (wake_waiter-Keeps ring t, wake_waiters-AllKeep ring ts)

deliver_kill-Moves :
    (p : ℕ) (t : Task) (pool : Pool)
    → p < pipe_max
    → Moves p t pool (deliver_kill t pool).0 (deliver_kill t pool).1
unfolding deliver_kill
deliver_kill-Moves p t pool lt =
    elim (Bool-cases (has_sigkill t.pending_sigs && not (is_zombie t.state))) [
      | inl h ↦
          let t0 = record t { pending_sigs = t.pending_sigs - sigkill } in
          let m =
            release-Moves p t0
              (record (release_pipe_fds t0 pool).0 {
                exit_code = 2 ^ 32 - 9;
                state = TaskState.zombie;
              })
              pool lt refl in
          rw h (record { writers = m.writers; readers = m.readers; clean = m.clean })
      | inr h ↦ rw h (Keeps-Moves p t t pool (Keeps-self t))
    ]

-- One task after another, with the pipes passed on.
tick_tasks-Moves :
    (p now : ℕ) (ts : List Task) (pool : Pool)
    → p < pipe_max
    → (total (is_write_end p) ts ≤ (pool p).nwriters
        → ((tick_tasks now ts pool).1 p).nwriters + total (is_write_end p) ts
          ≡ (pool p).nwriters + total (is_write_end p) (tick_tasks now ts pool).0)
      × (total (is_read_end p) ts ≤ (pool p).nreaders
          → ((tick_tasks now ts pool).1 p).nreaders + total (is_read_end p) ts
            ≡ (pool p).nreaders + total (is_read_end p) (tick_tasks now ts pool).0)
      × (AllClean p ts → AllClean p (tick_tasks now ts pool).0)
unfolding tick_tasks total
tick_tasks-Moves p now [] pool lt = ((λ _. refl), (λ _. refl), (λ c. c))
tick_tasks-Moves p now (t ∷ ts) pool lt =
    let k = Keeps-Moves p t (wake_sleeper now t) pool (wake_sleeper-Keeps now t) in
    let m = deliver_kill-Moves p (wake_sleeper now t) pool lt in
    let ih = tick_tasks-Moves p now ts (deliver_kill (wake_sleeper now t) pool).1 lt in
    (
      (λ le. omega (arith, k.writers, m.writers, ih.0)),
      (λ le. omega (arith, k.readers, m.readers, ih.1)),
      (λ (c, cs). (m.clean (k.clean c), ih.2 cs)),
    )

pub tick_ring-IsBalanced :
    (p : ℕ) (s : Sched) → p < pipe_max → IsBalanced p s → IsBalanced p (tick_ring s)
unfolding tick_ring total
tick_ring-IsBalanced p s lt b =
    let t0 = wake_sleeper s.ticks s.current in
    let k = Keeps-Moves p s.current t0 s.pool (wake_sleeper-Keeps s.ticks s.current) in
    let m = deliver_kill-Moves p t0 s.pool lt in
    let t1 = (deliver_kill t0 s.pool).0 in
    let rest = tick_tasks s.ticks s.others (deliver_kill t0 s.pool).1 in
    let ms = tick_tasks-Moves p s.ticks s.others (deliver_kill t0 s.pool).1 lt in
    let mid : IsBalanced p (record s { current = t1; others = rest.0; pool = rest.1 }) = record {
      writers = omega (arith, b.writers, k.writers, m.writers, ms.0);
      readers = omega (arith, b.readers, k.readers, m.readers, ms.1);
      clean = (m.clean (k.clean b.clean.0), ms.2 b.clean.1);
    } in
    kept-IsBalanced p (record s { current = t1; others = rest.0; pool = rest.1 }) (tick_ring s) refl
      (wake_waiter-Keeps (t1 ∷ rest.0) t1, wake_waiters-AllKeep (t1 ∷ rest.0) rest.0) mid

pub timer_handler-IsBalanced :
    (p : ℕ) (s : Sched) → p < pipe_max → IsBalanced p s → IsBalanced p (timer_handler s)
unfolding timer_handler sched_tick
timer_handler-IsBalanced p s lt b =
    let s' = record s { ticks = u32 (s.ticks + 1) } in
    let b' : IsBalanced p s' = record {
      writers = b.writers;
      readers = b.readers;
      clean = b.clean;
    } in
    schedule-IsBalanced p (tick_ring s') (tick_ring-IsBalanced p s' lt b')

wake_parent-AllKeep : (parent : ℕ) (ts : List Task) → AllKeep ts (wake_parent parent ts)
unfolding wake_parent
wake_parent-AllKeep parent [] = tt
wake_parent-AllKeep parent (t ∷ ts) = elim (Bool-cases ((t.pid == parent) && t.waiting)) [
  | inl h ↦ rw h ((refl, λ z. absurd (cc z)), AllKeep-self ts)
  | inr h ↦ rw h (Keeps-self t, wake_parent-AllKeep parent ts)
]

pub sched_exit-IsBalanced :
    (p : ℕ) (s : Sched) → p < pipe_max → IsBalanced p s → IsBalanced p (sched_exit s)
unfolding sched_exit exit_ring total
sched_exit-IsBalanced p s lt b =
    let t = (release_pipe_fds s.current s.pool).0 in
    let z : Task = record t { state = TaskState.zombie } in
    let m = release-Moves p s.current z s.pool lt refl in
    let mid : IsBalanced p
        (record s { current = z; pool = (release_pipe_fds s.current s.pool).1 }) =
      record {
        writers = omega (arith, b.writers, m.writers);
        readers = omega (arith, b.readers, m.readers);
        clean = (m.clean b.clean.0, b.clean.1);
      } in
    let others : AllKeep s.others
        (if t.parent_pid == 0 then s.others else wake_parent t.parent_pid s.others) =
      elim (Bool-cases (t.parent_pid == 0)) [
        | inl h ↦ rw h (AllKeep-self s.others)
        | inr h ↦ rw h (wake_parent-AllKeep t.parent_pid s.others)
      ] in
    schedule-IsBalanced p (exit_ring s) (
      kept-IsBalanced p (record s { current = z; pool = (release_pipe_fds s.current s.pool).1 })
        (exit_ring s) refl (Keeps-self z, others) mid)
