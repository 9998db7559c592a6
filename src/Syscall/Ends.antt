-- ===== src/Syscall/Ends.antt =====
-- The pipe ends that the tasks hold: counts over the descriptors of the ring, against the counts that
-- kernel/pipe.c keeps.
use ali_os.Base.{
  ℕ, zero, suc, ◌+◌, ◌≤◌, ◌<◌, ◌≡◌, ◌≢◌, refl, update, update_ne, update_self, Bool, true, List, [],
  ◌∷◌, ◌++◌, if◌then◌else◌, ◌==◌, arith, Bool-cases, inl, inr,
}
use ali_os.Task.{Fd, Task, task_fd_max, is_zombie}
use ali_os.Sched.{Sched}
use ali_os.Sched.Fds.{count_fds, is_write_end, is_read_end}

-- How many of a task's descriptors pass a test, and how many of all tasks'.
abbrev pub ends : (Fd → Bool) → Task → ℕ
ends test t = count_fds test task_fd_max 0 t.fd_table

unfoldable pub total : (Fd → Bool) → List Task → ℕ
total test [] = 0
total test (t ∷ ts) = ends test t + total test ts

-- A task that has exited refers to pipe `p` by no descriptor.
abbrev pub IsClean : ℕ → Task → Type 0
IsClean p t =
    is_zombie t.state ≡ true → (ends (is_write_end p) t ≡ 0) × (ends (is_read_end p) t ≡ 0)

abbrev pub AllClean : ℕ → List Task → Type 0
AllClean p [] = Unit
AllClean p (t ∷ ts) = IsClean p t × AllClean p ts

-- The end counts of pipe `p` are the numbers of open descriptors that refer to it.
pub record IsBalanced (p : ℕ) (s : Sched) : Type 0 where
  pub writers : (s.pool p).nwriters ≡ total (is_write_end p) (s.current ∷ s.others)
  pub readers : (s.pool p).nreaders ≡ total (is_read_end p) (s.current ∷ s.others)
  pub clean : AllClean p (s.current ∷ s.others)

pub total-append :
    (test : Fd → Bool) (ts us : List Task) → total test (ts ++ us) ≡ total test ts + total test us
unfolding total
total-append test [] us = omega arith
total-append test (t ∷ ts) us = omega (arith, total-append test ts us)

pub total-cons :
    (test : Fd → Bool) (t : Task) (ts : List Task)
    → total test (t ∷ ts) ≡ ends test t + total test ts
unfolding total
total-cons test t ts = refl

pub AllClean-append :
    (p : ℕ) (ts us : List Task) → AllClean p ts → AllClean p us → AllClean p (ts ++ us)
AllClean-append p [] us a b = b
AllClean-append p (t ∷ ts) us (a, rest) b = (a, AllClean-append p ts us rest b)

pub AllClean-split :
    (p : ℕ) (ts us : List Task) → AllClean p (ts ++ us) → AllClean p ts × AllClean p us
AllClean-split p [] us a = (tt, a)
AllClean-split p (t ∷ ts) us (a, rest) = let (x, y) = AllClean-split p ts us rest in ((a, x), y)

abbrev pub one_if : Bool → ℕ
one_if b = if b then 1 else 0

-- A write to one descriptor.
count_fds_beyond :
    (test : Fd → Bool) (left i j : ℕ) (fds : ℕ → Fd) (f : Fd)
    → j < i
    → count_fds test left i (update fds j f) ≡ count_fds test left i fds
unfolding count_fds
count_fds_beyond test zero i j fds f lt = refl
count_fds_beyond test (suc left) i j fds f lt =
    ground (arith, count_fds_beyond test left (i + 1) j fds f, update_ne fds j i f)

pub count_fds-update :
    (test : Fd → Bool) (left i j : ℕ) (fds : ℕ → Fd) (f : Fd)
    → i ≤ j
    → j < i + left
    → count_fds test left i (update fds j f) + one_if (test (fds j))
      ≡ count_fds test left i fds + one_if (test f)
unfolding count_fds
count_fds-update test zero i j fds f lo hi = absurd (omega arith)
count_fds-update test (suc left) i j fds f lo hi = elim (Bool-cases (i == j)) [
  | inl here ↦
      let e : i ≡ j = ground arith in
      rw (e, update_self fds j f, count_fds_beyond test left (j + 1) j fds f (omega arith))
        (omega arith)
  | inr there ↦
      let n : j ≢ i = λ e. ground arith in
      rw (update_ne fds j i f n)
        (omega (arith, count_fds-update test left (i + 1) j fds f (ground arith) (omega arith)))
]
