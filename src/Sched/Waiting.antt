-- ===== src/Sched/Waiting.antt =====
-- kernel/sched.c: `sched_wait`, pass by pass.
use ali_os.Base.{
  ℕ, Bool, true, false, ◌&&◌, ◌||◌, Option, none, some, List, [], ◌∷◌, if◌then◌else◌, ◌==◌,
}
use ali_os.Task.{Task, TaskState, is_zombie}
use ali_os.Sched.{Sched, schedule}

-- How a pass of the loop of `sched_wait` ends: it reaped a child, it returns -1, or it was blocked
-- and goes round again when it is scheduled next.
pub data WaitPass : Type 0 where
  reaped : (pid exit_code : ℕ) → WaitPass
  no_child : WaitPass
  again : WaitPass

-- the first zombie child of `pid`, and the ring without it
unfoldable pub take_zombie : ℕ → List Task → Option (Task × List Task)
take_zombie pid [] = none
take_zombie pid (t ∷ ts) =
    let rest = take_zombie pid ts in
    if is_zombie t.state && (t.parent_pid == pid)
    then some (t, ts)
    else elim rest [ none ↦ none | some (z, ts') ↦ some (z, t ∷ ts') ]

unfoldable pub has_child : ℕ → List Task → Bool
has_child pid [] = false
has_child pid (t ∷ ts) = (t.parent_pid == pid) || has_child pid ts

-- One pass of the loop of `sched_wait`. The memory of the reaped task is given back by `kfree`.
unfoldable pub wait_pass : Sched → WaitPass × Sched
wait_pass s = elim (take_zombie s.current.pid s.others) [
  | some (z, rest) ↦ (WaitPass.reaped z.pid z.exit_code, record s { others = rest })
  | none ↦
      if has_child s.current.pid s.others
      then (
        WaitPass.again,
        schedule
            (record s { current = record s.current { waiting = true; state = TaskState.blocked } }),
      )
      else (WaitPass.no_child, s)
]
