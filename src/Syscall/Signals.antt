-- ===== src/Syscall/Signals.antt =====
-- kernel/syscall.c and kernel/sched.c: `kill`, `sleep`, `wait` and Ctrl-C keep the pipes' end counts in step
-- with the descriptors.
use ali_os.Base.{
  ℕ, ◌≡◌, ◌∙◌, refl, sym, Bool, true, false, ◌&&◌, List, [], ◌∷◌, if◌then◌else◌, ◌==◌, Option, none,
  some, arith, Bool-cases, inl, inr,
}
use ali_os.Task.{Task, TaskState, is_zombie}
use ali_os.Sched.{
  Sched, schedule, sched_sleep, sched_yield, sched_ctrlc, in_ring, at_pid, with_sigkill, wake_at,
}
use ali_os.Sched.Fds.{is_write_end, is_read_end}
use ali_os.Sched.Waiting.{WaitPass, take_zombie, has_child, wait_pass}
use ali_os.Syscall.{sys_sleep, sys_kill, signal_in}
use ali_os.Syscall.Ends.{total, AllClean, IsBalanced}
use ali_os.Syscall.Tasks.{
  Keeps, AllKeep, Keeps-self, AllKeep-self, kept-IsBalanced, schedule-IsBalanced,
}

abbrev KeptBy : List Task → Option (List Task) → Type 0
KeptBy ts none = Unit
KeptBy ts (some ts') = AllKeep ts ts'

kept_cons :
    (t : Task) (ts : List Task) (o : Option (List Task))
    → KeptBy ts o
    → KeptBy (t ∷ ts) (elim o [ none ↦ none | some ts' ↦ some (t ∷ ts') ])
kept_cons t ts none k = tt
kept_cons t ts (some ts') k = (Keeps-self t, k)

signal_in-KeptBy : (pid sig : ℕ) (ts : List Task) → KeptBy ts (signal_in pid sig ts)
unfolding signal_in
signal_in-KeptBy pid sig [] = tt
signal_in-KeptBy pid sig (t ∷ ts) = elim (Bool-cases (t.pid == pid)) [
  | inl e ↦ rw e ((refl, λ z. z), AllKeep-self ts)
  | inr n ↦ rw n (kept_cons t ts (signal_in pid sig ts) (signal_in-KeptBy pid sig ts))
]

sys_kill_by :
    (p : ℕ) (s : Sched) (o : Option (List Task))
    → KeptBy s.others o
    → IsBalanced p s
    → IsBalanced p
        (elim o as (λ _. Bool × Sched) [
          | none ↦ (false, s)
          | some ts ↦ (true, record s { others = ts })
        ]).1
sys_kill_by p s none k b = b
sys_kill_by p s (some ts) k b =
    kept-IsBalanced p s (record s { others = ts }) refl (Keeps-self s.current, k) b

pub sys_kill-IsBalanced :
    (p pid sig : ℕ) (s : Sched) → IsBalanced p s → IsBalanced p (sys_kill pid sig s).1
unfolding sys_kill
sys_kill-IsBalanced p pid sig s b =
    sys_kill_by p s (signal_in pid sig s.others) (signal_in-KeptBy pid sig s.others) b

pub sys_sleep-IsBalanced : (p ms : ℕ) (s : Sched) → IsBalanced p s → IsBalanced p (sys_sleep ms s)
unfolding sys_sleep sched_sleep sched_yield
sys_sleep-IsBalanced p ms s b =
    let slept = record s {
      current = record s.current { wakeup_tick = wake_at s.ticks ms; state = TaskState.blocked };
    } in
    elim (Bool-cases (ms == 0)) [
      | inl z ↦ rw z (schedule-IsBalanced p s b)
      | inr n ↦ rw n (
          schedule-IsBalanced p slept
            (kept-IsBalanced p s slept refl ((refl, λ z. absurd (cc z)), AllKeep-self s.others) b))
    ]

at_pid-AllKeep :
    (f : Task → Task) (pid : ℕ) (ts : List Task)
    → ((t : Task) → Keeps t (f t))
    → AllKeep ts (at_pid f pid ts)
unfolding at_pid
at_pid-AllKeep f pid [] k = tt
at_pid-AllKeep f pid (t ∷ ts) k = elim (Bool-cases (t.pid == pid)) [
  | inl e ↦ rw e (k t, AllKeep-self ts)
  | inr n ↦ rw n (Keeps-self t, at_pid-AllKeep f pid ts k)
]

in_ring-IsBalanced :
    (p pid : ℕ) (f : Task → Task) (s : Sched)
    → ((t : Task) → Keeps t (f t))
    → IsBalanced p s
    → IsBalanced p (in_ring f pid s)
unfolding in_ring
in_ring-IsBalanced p pid f s k b = elim (Bool-cases (s.current.pid == pid)) [
  | inl e ↦ rw e (
      kept-IsBalanced p s (record s { current = f s.current }) refl
        (k s.current, AllKeep-self s.others) b)
  | inr n ↦ rw n (
      kept-IsBalanced p s (record s { others = at_pid f pid s.others }) refl
        (Keeps-self s.current, at_pid-AllKeep f pid s.others k) b)
]

killed-Keeps : (t : Task) → Keeps t (if is_zombie t.state then t else with_sigkill t)
killed-Keeps t = elim (Bool-cases (is_zombie t.state)) [
  | inl z ↦ rw z (refl, λ h. refl)
  | inr n ↦ rw n (refl, λ h. sym n ∙ h)
]

ctrlc_by :
    (p : ℕ) (s : Sched) (o : Option ℕ)
    → IsBalanced p s
    → IsBalanced p (elim o [
      | none ↦ s
      | some pid ↦ in_ring (λ t. if is_zombie t.state then t else with_sigkill t) pid s
    ])
ctrlc_by p s none b = b
ctrlc_by p s (some pid) b =
    in_ring-IsBalanced p pid (λ t. if is_zombie t.state then t else with_sigkill t) s killed-Keeps b

pub sched_ctrlc-IsBalanced : (p : ℕ) (s : Sched) → IsBalanced p s → IsBalanced p (sched_ctrlc s)
unfolding sched_ctrlc
sched_ctrlc-IsBalanced p s b = ctrlc_by p s s.foreground b

-- A reaped task refers to no pipe.
abbrev TakenBy : ℕ → List Task → Option (Task × List Task) → Type 0
TakenBy p ts none = Unit
TakenBy p ts (some (z, rest)) =
    AllClean p ts
    → (total (is_write_end p) ts ≡ total (is_write_end p) rest)
      × (total (is_read_end p) ts ≡ total (is_read_end p) rest)
      × AllClean p rest

taken_cons :
    (p : ℕ) (t : Task) (ts : List Task) (o : Option (Task × List Task))
    → TakenBy p ts o
    → TakenBy p (t ∷ ts) (elim o [ none ↦ none | some (z, ts') ↦ some (z, t ∷ ts') ])
unfolding total
taken_cons p t ts none k = tt
taken_cons p t ts (some (z, ts')) k =
    λ (c, cs). let (w, r, a) = k cs in (omega (arith, w), omega (arith, r), (c, a))

take_zombie-TakenBy : (p pid : ℕ) (ts : List Task) → TakenBy p ts (take_zombie pid ts)
unfolding take_zombie total
take_zombie-TakenBy p pid [] = tt
take_zombie-TakenBy p pid (t ∷ ts) =
    elim (Bool-cases (is_zombie t.state && (t.parent_pid == pid))) [
      | inl h ↦ rw h (λ (c, cs).
          let zombie : is_zombie t.state ≡ true = ground arith in
          let (w, r) = c zombie in (omega (arith, w), omega (arith, r), cs))
      | inr n ↦ rw n (taken_cons p t ts (take_zombie pid ts) (take_zombie-TakenBy p pid ts))
    ]

wait_by :
    (p : ℕ) (s : Sched) (o : Option (Task × List Task))
    → TakenBy p s.others o
    → IsBalanced p s
    → IsBalanced p
        (elim o as (λ _. WaitPass × Sched) [
          | some (z, rest) ↦ (WaitPass.reaped z.pid z.exit_code, record s { others = rest })
          | none ↦
              if has_child s.current.pid s.others
              then (
                WaitPass.again,
                schedule (record s {
                  current = record s.current { waiting = true; state = TaskState.blocked };
                }),
              )
              else (WaitPass.no_child, s)
        ]).1
unfolding total
wait_by p s (some (z, rest)) k b =
    let (w, r, a) = k b.clean.1 in
    record {
      writers = omega (arith, b.writers, w);
      readers = omega (arith, b.readers, r);
      clean = (b.clean.0, a);
    }
wait_by p s none k b =
    let blocked = record s {
      current = record s.current { waiting = true; state = TaskState.blocked };
    } in
    elim (Bool-cases (has_child s.current.pid s.others)) [
      | inl c ↦ rw c (
          schedule-IsBalanced p blocked (
            kept-IsBalanced p s blocked refl ((refl, λ z. absurd (cc z)), AllKeep-self s.others) b))
      | inr n ↦ rw n b
    ]

pub wait_pass-IsBalanced : (p : ℕ) (s : Sched) → IsBalanced p s → IsBalanced p (wait_pass s).1
unfolding wait_pass
wait_pass-IsBalanced p s b =
    wait_by p s (take_zombie s.current.pid s.others) (take_zombie-TakenBy p s.current.pid s.others)
      b
