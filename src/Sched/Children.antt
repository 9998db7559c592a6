-- ===== src/Sched/Children.antt =====
-- kernel/sched.c: the children of a task among the tasks of a ring, by their `parent_pid`.
use ali_os.Base.{
  ℕ, ◌≡◌, ◌≢◌, refl, ap, true, false, List, [], ◌∷◌, ◌++◌, ◌==◌, inl, inr, Bool-cases, arith,
}
use ali_os.Task.{Task, is_zombie}
use ali_os.Sched.{has_zombie_child}
use ali_os.Sched.Waiting.{has_child}

abbrev pub IsZombieChild : ℕ → Task → Type 0
IsZombieChild pid t = (is_zombie t.state ≡ true) × (t.parent_pid ≡ pid)

abbrev pub AllTasks : (Task → Type 0) → List Task → Type 0
AllTasks P [] = Unit
AllTasks P (t ∷ ts) = P t × AllTasks P ts

abbrev pub NoZombieChild : ℕ → List Task → Type 0
NoZombieChild pid ring = AllTasks (λ t. IsZombieChild pid t → ⊥) ring

abbrev pub NoChild : ℕ → List Task → Type 0
NoChild pid ring = AllTasks (λ t. t.parent_pid ≢ pid) ring

abbrev pub SomeChild : ℕ → List Task → Type 0
SomeChild pid ring =
    (before : List Task) × (c : Task) × (after : List Task) × (ring ≡ before ++ (c ∷ after))
    × (c.parent_pid ≡ pid)

pub has_zombie_child-NoZombieChild :
    (pid : ℕ) (ring : List Task) → has_zombie_child pid ring ≡ false → NoZombieChild pid ring
unfolding has_zombie_child
has_zombie_child-NoZombieChild pid [] h = tt
has_zombie_child-NoZombieChild pid (t ∷ ts) h =
    ((λ (z, p). ground arith), has_zombie_child-NoZombieChild pid ts (ground arith))

pub has_child-NoChild : (pid : ℕ) (ring : List Task) → has_child pid ring ≡ false → NoChild pid ring
unfolding has_child
has_child-NoChild pid [] h = tt
has_child-NoChild pid (t ∷ ts) h = ((λ p. ground arith), has_child-NoChild pid ts (ground arith))

pub has_child-SomeChild :
    (pid : ℕ) (ring : List Task) → has_child pid ring ≡ true → SomeChild pid ring
unfolding has_child
has_child-SomeChild pid [] h = absurd (cc h)
has_child-SomeChild pid (t ∷ ts) h = elim (Bool-cases (t.parent_pid == pid)) [
  | inl here ↦ ([], t, ts, refl, ground arith)
  | inr there ↦
      let (before, c, after, l, p) = has_child-SomeChild pid ts (ground arith) in
      (t ∷ before, c, after, ap (λ k. t ∷ k) l, p)
]
