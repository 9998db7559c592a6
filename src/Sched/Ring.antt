-- ===== src/Sched/Ring.antt =====
-- What `schedule` of kernel/sched.c does to the ring.
use mathlib.Core.List.{map-append}
use ali_os.Base.{
  ℕ, ◌≡◌, ◌∙◌, ◌⊎◌, refl, ap, sym, true, false, Option, none, some, List, [], ◌∷◌, ◌++◌, map,
  append-nil, Bool-cases, inl, inr,
}
use ali_os.Task.{Task}
use ali_os.Sched.{Sched, is_skipped, pick, preempted, switch_to, schedule}

abbrev pub AllSkipped : List Task → Type 0
AllSkipped [] = Unit
AllSkipped (t ∷ ts) = (is_skipped t.state ≡ true) × AllSkipped ts

-- `pick` finds the first task that can run, or there is none.
abbrev pub Picked : List Task → Option (List Task × Task × List Task) → Type 0
Picked l none = AllSkipped l
Picked l (some (before, next, after)) =
    (l ≡ before ++ (next ∷ after)) × AllSkipped before × (is_skipped next.state ≡ false)

pick_step :
    (t : Task) (ts : List Task) (o : Option (List Task × Task × List Task))
    → is_skipped t.state ≡ true
    → Picked ts o
    → Picked
        (t ∷ ts)
        (elim o [ none ↦ none | some (before, next, after) ↦ some (t ∷ before, next, after) ])
pick_step t ts none e h = (e, h)
pick_step t ts (some (before, next, after)) e h = (ap (λ l. t ∷ l) h.0, (e, h.1), h.2)

pub pick-Picked : (l : List Task) → Picked l (pick l)
unfolding pick
pick-Picked [] = tt
pick-Picked (t ∷ ts) = elim (Bool-cases (is_skipped t.state)) [
  | inl skip ↦ rw skip (pick_step t ts (pick ts) skip (pick-Picked ts))
  | inr runs ↦ rw runs (refl, tt, runs)
]

-- What a call of `schedule` does: nothing, when every other task is blocked or a zombie; or the
-- switch to the first other task in ring order that is neither.
abbrev pub Scheduled : Sched → Sched → Type 0
Scheduled s s' =
    (AllSkipped s.others × (s' ≡ s))
    ⊎ ((before : List Task) × (next : Task) × (after : List Task) × (s.others
          ≡ before ++ (next ∷ after))
        × AllSkipped before
        × (is_skipped next.state ≡ false)
        × (s' ≡ switch_to s before next after))

Scheduled-by :
    (s : Sched) (o : Option (List Task × Task × List Task))
    → Picked s.others o
    → Scheduled s (elim o [ none ↦ s | some (before, next, after) ↦ switch_to s before next after ])
Scheduled-by s none h = inl (h, refl)
Scheduled-by s (some (before, next, after)) h = inr (before, next, after, h.0, h.1, h.2, refl)

-- `schedule` switches to the first other task in ring order that is neither blocked nor a zombie,
-- and does nothing if there is none.
pub schedule-Scheduled : (s : Sched) → Scheduled s (schedule s)
unfolding schedule
schedule-Scheduled s = Scheduled-by s (pick s.others) (pick-Picked s.others)

abbrev pub pid_of : Task → ℕ
pid_of t = t.pid

-- The process ids round the ring, from the current task on.
abbrev pub pids : Sched → List ℕ
pids s = s.current.pid ∷ map pid_of s.others

-- One list is the other one turned.
abbrev pub IsRotation : List ℕ → List ℕ → Type 0
IsRotation l l' = (xs : List ℕ) × (ys : List ℕ) × (l ≡ xs ++ ys) × (l' ≡ ys ++ xs)

switch_rotates :
    (s : Sched) (before : List Task) (next : Task) (after : List Task)
    → s.others ≡ before ++ (next ∷ after)
    → IsRotation (pids s) (pids (switch_to s before next after))
switch_rotates s before next after e = (
  s.current.pid ∷ map pid_of before,
  next.pid ∷ map pid_of after,
  ap (λ l. s.current.pid ∷ map pid_of l) e
      ∙ ap (λ l. s.current.pid ∷ l) (map-append pid_of before (next ∷ after)),
  ap (λ l. next.pid ∷ l) (map-append pid_of after (preempted s.current ∷ before)),
)

-- `schedule` only turns the ring: the process ids keep their circular order, and none comes or goes.
pub schedule_rotates : (s : Sched) → IsRotation (pids s) (pids (schedule s))
schedule_rotates s = elim (schedule-Scheduled s) [
  | inl (_, e) ↦ rw e ([], pids s, refl, sym (append-nil (pids s)))
  | inr (before, next, after, e, _, _, r) ↦ rw r (switch_rotates s before next after e)
]
