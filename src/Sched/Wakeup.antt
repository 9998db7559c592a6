-- ===== src/Sched/Wakeup.antt =====
-- A tick of kernel/sched.c loses no wakeup and no kill.
use ali_os.Base.{ℕ, ◌≡◌, refl, ap₂, Bool, true, false, ◌&&◌, ◌||◌, List, [], ◌∷◌, ◌==◌, arith}
use ali_os.Task.{Task, is_zombie, is_blocked}
use ali_os.Pipe.Pool.{Pool}
use ali_os.Sched.Children.{AllTasks, NoZombieChild, has_zombie_child-NoZombieChild}
use ali_os.Sched.Tick.{Ticked, task-Ticked}
use ali_os.Sched.{
  Sched, wake_sleeper, deliver_kill, tick_tasks, has_zombie_child, wake_waiter, wake_waiters,
  tick_ring,
}

-- A waiting task with a zombie child that is left blocked.
abbrev is_lost : List Task → Task → Bool
is_lost ring t = is_blocked t.state && (t.waiting && has_zombie_child t.pid ring)

-- Of a task that is left blocked in `sched_wait`, no task of the ring is a zombie child.
abbrev pub NoneLost : List Task → List Task → Type 0
NoneLost ring ts =
    AllTasks (λ t. is_blocked t.state ≡ true → t.waiting ≡ true → NoZombieChild t.pid ring) ts

wake_waiter-child :
    (ring : List Task) (t : Task) (pid : ℕ)
    → (is_zombie (wake_waiter ring t).state && ((wake_waiter ring t).parent_pid == pid))
      ≡ (is_zombie t.state && (t.parent_pid == pid))
unfolding wake_waiter
wake_waiter-child ring t pid = ground arith

has_zombie_child-wake_waiters :
    (pid : ℕ) (ring ts : List Task)
    → has_zombie_child pid (wake_waiters ring ts) ≡ has_zombie_child pid ts
unfolding has_zombie_child wake_waiters
has_zombie_child-wake_waiters pid ring [] = refl
has_zombie_child-wake_waiters pid ring (t ∷ ts) =
    ap₂ ◌||◌ (wake_waiter-child ring t pid) (has_zombie_child-wake_waiters pid ring ts)

not_lost_child :
    (ring : List Task) (t : Task)
    → is_lost ring t ≡ false
    → is_blocked t.state ≡ true
    → t.waiting ≡ true
    → NoZombieChild t.pid ring
not_lost_child ring t h b w = has_zombie_child-NoZombieChild t.pid ring (ground arith)

not_lost :
    (ring ring' : List Task) (t : Task)
    → ((pid : ℕ) → has_zombie_child pid ring' ≡ has_zombie_child pid ring)
    → is_lost ring' (wake_waiter ring t) ≡ false
unfolding wake_waiter
not_lost ring ring' t same = ground (arith, same t.pid)

wake_waiters-NoneLost :
    (ring ring' ts : List Task)
    → ((pid : ℕ) → has_zombie_child pid ring' ≡ has_zombie_child pid ring)
    → NoneLost ring' (wake_waiters ring ts)
unfolding wake_waiters
wake_waiters-NoneLost ring ring' [] same = tt
wake_waiters-NoneLost ring ring' (t ∷ ts) same = (
  not_lost_child ring' (wake_waiter ring t) (not_lost ring ring' t same),
  wake_waiters-NoneLost ring ring' ts same,
)

abbrev pub ring_of : Sched → List Task
ring_of s = s.current ∷ s.others

-- Before a tick preempts, no task of the ring is left blocked in `sched_wait` while a task of the ring
-- is a zombie whose parent it is, whatever the ring was.
pub tick_ring-NoneLost : (s : Sched) → NoneLost (ring_of (tick_ring s)) (ring_of (tick_ring s))
unfolding tick_ring wake_waiters
tick_ring-NoneLost s =
    let killed = deliver_kill (wake_sleeper s.ticks s.current) s.pool in
    let rest = tick_tasks s.ticks s.others killed.1 in
    let ring : List Task = killed.0 ∷ rest.0 in wake_waiters_of ring
  where
    wake_waiters_of :
        (ring : List Task) → NoneLost (wake_waiters ring ring) (wake_waiters ring ring)
    wake_waiters_of ring =
        wake_waiters-NoneLost ring (wake_waiters ring ring) ring
          (λ pid. has_zombie_child-wake_waiters pid ring ring)

abbrev pub AllTicked : ℕ → List Task → List Task → Type 0
AllTicked now [] [] = Unit
AllTicked now (t ∷ ts) (t' ∷ ts') = Ticked now t t' × AllTicked now ts ts'
AllTicked now _ _ = ⊥

tasks-AllTicked :
    (now : ℕ) (ring ts : List Task) (pool : Pool)
    → AllTicked now ts (wake_waiters ring (tick_tasks now ts pool).0)
unfolding wake_waiters tick_tasks
tasks-AllTicked now ring [] pool = tt
tasks-AllTicked now ring (t ∷ ts) pool =
    (task-Ticked now ring t pool, tasks-AllTicked now ring ts _)

-- In one tick every task of the ring with SIGKILL pending becomes a zombie with exit code -9, unless
-- it is one already; a sleeper whose time has come is made ready, and one whose time has not come
-- sleeps on; a task that is neither killed nor blocked, and a zombie, stay as they are.
pub tick_ring-AllTicked : (s : Sched) → AllTicked s.ticks (ring_of s) (ring_of (tick_ring s))
unfolding tick_ring
tick_ring-AllTicked s =
    (task-Ticked s.ticks _ s.current s.pool, tasks-AllTicked s.ticks _ s.others _)
