-- ===== src/Syscall/Tasks.antt =====
-- kernel/syscall.c and kernel/sched.c: the calls that make tasks, end them and choose the next one keep
-- the pipes' end counts in step with the descriptors.
use ali_os.Base.{
  ℕ, ◌≡◌, ◌∙◌, refl, ap, sym, Bool, true, List, [], ◌∷◌, ◌++◌, if◌then◌else◌, arith, inl, inr,
}
use ali_os.Task.{Fd, Task, TaskState, task_fd_max, is_zombie, is_running}
use ali_os.Pipe.Pool.{Pool}
use ali_os.Sched.{Sched, preempted, switch_to, schedule}
use ali_os.Sched.Fds.{count_fds, is_write_end, is_read_end}
use ali_os.Sched.Ring.{schedule-Scheduled}
use ali_os.Syscall.Ends.{
  ends, total, IsClean, AllClean, IsBalanced, total-append, AllClean-append, AllClean-split,
}

-- A task that keeps its descriptors and does not become a zombie.
abbrev pub Keeps : Task → Task → Type 0
Keeps t t' = (t'.fd_table ≡ t.fd_table) × (is_zombie t'.state ≡ true → is_zombie t.state ≡ true)

abbrev pub AllKeep : List Task → List Task → Type 0
AllKeep [] [] = Unit
AllKeep (t ∷ ts) (t' ∷ ts') = Keeps t t' × AllKeep ts ts'
AllKeep _ _ = ⊥

pub Keeps-self : (t : Task) → Keeps t t
Keeps-self t = (refl, λ z. z)

pub AllKeep-self : (ts : List Task) → AllKeep ts ts
AllKeep-self [] = tt
AllKeep-self (t ∷ ts) = (Keeps-self t, AllKeep-self ts)

pub ends-Keeps : (test : Fd → Bool) (t t' : Task) → Keeps t t' → ends test t' ≡ ends test t
ends-Keeps test t t' (e, _) = ap (count_fds test task_fd_max 0) e

pub total-AllKeep :
    (test : Fd → Bool) (ts ts' : List Task) → AllKeep ts ts' → total test ts' ≡ total test ts
unfolding total
total-AllKeep test [] [] k = refl
total-AllKeep test (t ∷ ts) (t' ∷ ts') (k, rest) =
    omega (arith, ends-Keeps test t t' k, total-AllKeep test ts ts' rest)
total-AllKeep test [] (t' ∷ ts') k = absurd k
total-AllKeep test (t ∷ ts) [] k = absurd k

IsClean-Keeps : (p : ℕ) (t t' : Task) → Keeps t t' → IsClean p t → IsClean p t'
IsClean-Keeps p t t' (e, z) c h =
    let (w, r) = c (z h) in
    (ends-Keeps (is_write_end p) t t' (e, z) ∙ w, ends-Keeps (is_read_end p) t t' (e, z) ∙ r)

pub AllClean-AllKeep :
    (p : ℕ) (ts ts' : List Task) → AllKeep ts ts' → AllClean p ts → AllClean p ts'
AllClean-AllKeep p [] [] k c = tt
AllClean-AllKeep p (t ∷ ts) (t' ∷ ts') (k, rest) (c, more) =
    (IsClean-Keeps p t t' k c, AllClean-AllKeep p ts ts' rest more)
AllClean-AllKeep p [] (t' ∷ ts') k c = absurd k
AllClean-AllKeep p (t ∷ ts) [] k c = absurd k

-- A ring whose tasks keep their descriptors, over the same pipes.
pub kept-IsBalanced :
    (p : ℕ) (s s' : Sched)
    → s'.pool ≡ s.pool
    → AllKeep (s.current ∷ s.others) (s'.current ∷ s'.others)
    → IsBalanced p s
    → IsBalanced p s'
kept-IsBalanced p s s' e k b = record {
  writers =
      ap (λ (q : Pool). (q p).nwriters) e
      ∙ b.writers
      ∙ sym (total-AllKeep (is_write_end p) (s.current ∷ s.others) (s'.current ∷ s'.others) k);
  readers =
      ap (λ (q : Pool). (q p).nreaders) e
      ∙ b.readers
      ∙ sym (total-AllKeep (is_read_end p) (s.current ∷ s.others) (s'.current ∷ s'.others) k);
  clean = AllClean-AllKeep p (s.current ∷ s.others) (s'.current ∷ s'.others) k b.clean;
}

preempted-Keeps : (t : Task) → Keeps t (preempted t)
preempted-Keeps t = (refl, λ z. preempted_zombie t.state z)
  where
    preempted_zombie :
        (st : TaskState)
        → is_zombie (if is_running st then TaskState.ready else st) ≡ true
        → is_zombie st ≡ true
    preempted_zombie TaskState.ready z = z
    preempted_zombie TaskState.running z = absurd (cc z)
    preempted_zombie TaskState.blocked z = z
    preempted_zombie TaskState.zombie z = z

total_turned :
    (test : Fd → Bool) (cur next : Task) (before after : List Task)
    → total test (next ∷ (after ++ (preempted cur ∷ before)))
      ≡ total test (cur ∷ (before ++ (next ∷ after)))
unfolding total
total_turned test cur next before after = omega (
  arith,
  total-append test after (preempted cur ∷ before),
  total-append test before (next ∷ after),
)

switch_to-IsBalanced :
    (p : ℕ) (s : Sched) (before : List Task) (next : Task) (after : List Task)
    → s.others ≡ before ++ (next ∷ after)
    → IsBalanced p s
    → IsBalanced p (switch_to s before next after)
unfolding total
switch_to-IsBalanced p s before next after e b =
    let (c, rest) = b.clean in
    let (cb, (cn, ca)) = AllClean-split p before (next ∷ after) (rw (← e) rest) in
    record {
      writers =
          b.writers
          ∙ ap (λ l. total (is_write_end p) (s.current ∷ l)) e
          ∙ sym (total_turned (is_write_end p) s.current next before after);
      readers =
          b.readers
          ∙ ap (λ l. total (is_read_end p) (s.current ∷ l)) e
          ∙ sym (total_turned (is_read_end p) s.current next before after);
      clean = (
        (λ z. absurd (cc z)),
        AllClean-append p after (preempted s.current ∷ before) ca
            (IsClean-Keeps p s.current (preempted s.current) (preempted-Keeps s.current) c, cb),
      );
    }

pub schedule-IsBalanced : (p : ℕ) (s : Sched) → IsBalanced p s → IsBalanced p (schedule s)
schedule-IsBalanced p s b = elim (schedule-Scheduled s) [
  | inl (_, e) ↦ rw e b
  | inr (before, next, after, e, _, _, e') ↦ rw e' (switch_to-IsBalanced p s before next after e b)
]
