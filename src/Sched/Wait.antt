-- ===== src/Sched/Wait.antt =====
-- `sched_wait` of kernel/sched.c: which child a pass reaps, and when it returns -1.
use ali_os.Base.{
  ℕ, ◌≡◌, refl, ap, true, false, ◌&&◌, Option, none, some, List, [], ◌∷◌, ◌++◌, if◌then◌else◌, ◌==◌,
  arith, Bool-cases, inl, inr,
}
use ali_os.Task.{Task, TaskState, is_zombie}
use ali_os.Sched.{Sched, schedule, has_zombie_child}
use ali_os.Sched.Children.{
  IsZombieChild, NoZombieChild, NoChild, SomeChild, has_zombie_child-NoZombieChild,
  has_child-NoChild, has_child-SomeChild,
}
use ali_os.Sched.Waiting.{take_zombie, has_child, wait_pass, WaitPass}

abbrev pub TookZombie : ℕ → List Task → Option (Task × List Task) → Type 0
TookZombie pid l none = has_zombie_child pid l ≡ false
TookZombie pid l (some (z, rest)) =
    (before : List Task) × (after : List Task) × (l ≡ before ++ (z ∷ after))
    × (rest ≡ before ++ after)
    × IsZombieChild pid z
    × (has_zombie_child pid before ≡ false)

took_later :
    (pid : ℕ) (t : Task) (ts : List Task) (o : Option (Task × List Task))
    → (is_zombie t.state && (t.parent_pid == pid)) ≡ false
    → TookZombie pid ts o
    → TookZombie pid (t ∷ ts) (elim o [ none ↦ none | some (z, rest) ↦ some (z, t ∷ rest) ])
unfolding has_zombie_child
took_later pid t ts none e h = rw (e, h)
took_later pid t ts (some (z, rest)) e (before, after, l, r, c, first) =
    (t ∷ before, after, ap (λ k. t ∷ k) l, ap (λ k. t ∷ k) r, c, rw (e, first))

pub take_zombie-TookZombie : (pid : ℕ) (l : List Task) → TookZombie pid l (take_zombie pid l)
unfolding take_zombie has_zombie_child
take_zombie-TookZombie pid [] = refl
take_zombie-TookZombie pid (t ∷ ts) =
    elim (Bool-cases (is_zombie t.state && (t.parent_pid == pid))) [
      | inl child ↦ rw child ([], ts, refl, refl, ground arith, refl)
      | inr other ↦
          rw other (took_later pid t ts (take_zombie pid ts) other (take_zombie-TookZombie pid ts))
    ]

-- What a pass of the loop of `sched_wait` does.
abbrev pub Waited : Sched → WaitPass × Sched → Type 0
Waited s (WaitPass.reaped pid code, s') =
    (before : List Task) × (z : Task) × (after : List Task) × (s.others ≡ before ++ (z ∷ after))
    × IsZombieChild s.current.pid z
    × NoZombieChild s.current.pid before
    × (pid ≡ z.pid)
    × (code ≡ z.exit_code)
    × (s' ≡ record s { others = before ++ after })
Waited s (WaitPass.no_child, s') = NoChild s.current.pid s.others × (s' ≡ s)
Waited s (WaitPass.again, s') =
    SomeChild s.current.pid s.others
    × NoZombieChild s.current.pid s.others
    × (s'
        ≡ schedule
            (record s { current = record s.current { waiting = true; state = TaskState.blocked } }))

Waited-by :
    (s : Sched) (o : Option (Task × List Task))
    → TookZombie s.current.pid s.others o
    → Waited s (elim o [
      | some (z, rest) ↦ (WaitPass.reaped z.pid z.exit_code, record s { others = rest })
      | none ↦
          if has_child s.current.pid s.others
          then (
            WaitPass.again,
            schedule (record s {
              current = record s.current { waiting = true; state = TaskState.blocked };
            }),
          )
          else (WaitPass.no_child, s)
    ])
Waited-by s none h = elim (Bool-cases (has_child s.current.pid s.others)) [
  | inl some_child ↦ rw some_child (
    has_child-SomeChild s.current.pid s.others some_child,
    has_zombie_child-NoZombieChild s.current.pid s.others h,
    refl,
  )
  | inr none_left ↦ rw none_left (has_child-NoChild s.current.pid s.others none_left, refl)
]
Waited-by s (some (z, rest)) (before, after, l, r, c, first) = (
  before,
  z,
  after,
  l,
  c,
  has_zombie_child-NoZombieChild s.current.pid before first,
  refl,
  refl,
  ap (λ k. record s { others = k }) r,
)

-- A pass of `sched_wait` reaps the first zombie child in ring order: it returns the child's process
-- id and exit code, and takes exactly that task out of the ring. If there is none it returns -1
-- when no task of the ring has the caller as its parent, and blocks as a waiting task when one has.
pub wait_pass-Waited : (s : Sched) → Waited s (wait_pass s)
unfolding wait_pass
wait_pass-Waited s =
    Waited-by s (take_zombie s.current.pid s.others) (take_zombie-TookZombie s.current.pid s.others)
