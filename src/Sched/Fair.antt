-- ===== src/Sched/Fair.antt =====
-- Round robin: a task that can run is not passed over.
use ali_os.Base.{
  ℕ, zero, suc, ◌≤◌, ◌<◌, ◌≡◌, ◌∙◌, ◌⊎◌, refl, ap, sym, false, List, [], ◌∷◌, ◌++◌, append_assoc,
  length, length-append, arith, inl, inr,
}
use ali_os.Task.{Task, TaskState}
use ali_os.Sched.{Sched, is_skipped, preempted, schedule}
use ali_os.Sched.Ring.{AllSkipped, schedule-Scheduled}

-- `n` calls of `schedule`
unfoldable pub schedules : ℕ → Sched → Sched
schedules zero s = s
schedules (suc n) s = schedules n (schedule s)

-- Two ways to split one list: the task `t` that can run is the first such task `n`, or comes after it.
abbrev Later : List Task → Task → List Task → List Task → Task → List Task → Type 0
Later before n after xs t ys =
    ((n ≡ t) × (xs ≡ before))
    ⊎ ((zs : List Task) × (xs ≡ before ++ (n ∷ zs)) × (after ≡ zs ++ (t ∷ ys)))

not_skipped :
    (t : Task) (ys : List Task)
    → is_skipped t.state ≡ false
    → (xs : List Task) → AllSkipped (xs ++ (t ∷ ys))
    → ⊥
not_skipped t ys h [] a = cc (a.0)
not_skipped t ys h (x ∷ xs) a = not_skipped t ys h xs a.1

meets :
    (before : List Task) (n : Task) (after xs : List Task) (t : Task) (ys : List Task)
    → before ++ (n ∷ after) ≡ xs ++ (t ∷ ys)
    → AllSkipped before
    → is_skipped t.state ≡ false
    → Later before n after xs t ys
meets [] n after [] t ys e a h = inl (cc, refl)
meets [] n after (x ∷ xs) t ys e a h = inr (xs, cc, cc)
meets (b ∷ bs) n after [] t ys e a h =
    let same : b ≡ t = cc in absurd (cc (ap (λ (u : Task). is_skipped u.state) same, a.0))
meets (b ∷ bs) n after (x ∷ xs) t ys e a h =
    let same : b ≡ x = cc in
    elim (meets bs n after xs t ys (cc) a.1 h) [
      | inl (p, q) ↦ inl (p, cc)
      | inr (zs, p, q) ↦ inr (zs, cc, q)
    ]

-- One call of `schedule` runs the task `t`, or leaves it with fewer tasks before it.
abbrev Nearer : Sched → List Task → Task → Type 0
Nearer s' xs t =
    (s'.current ≡ record t { state = TaskState.running })
    ⊎ ((zs : List Task) × (ys : List Task) × (s'.others ≡ zs ++ (t ∷ ys)) × (length zs < length xs))

schedule-Nearer :
    (s : Sched) (xs : List Task) (t : Task) (ys : List Task)
    → s.others ≡ xs ++ (t ∷ ys)
    → is_skipped t.state ≡ false
    → Nearer (schedule s) xs t
schedule-Nearer s xs t ys e h = elim (schedule-Scheduled s) [
  | inl (stay, _) ↦ absurd (not_skipped t ys h xs (rw e at stay))
  | inr (before, next, after, l, a, _, r) ↦ elim (meets before next after xs t ys (sym l ∙ e) a h) [
    | inl (same, _) ↦ inl (
        ap (λ (u : Sched). u.current) r
        ∙ ap (λ (u : Task). record u { state = TaskState.running }) same)
    | inr (zs, p, q) ↦ inr (
      zs,
      ys ++ (preempted s.current ∷ before),
      ap (λ (u : Sched). u.others) r
          ∙ ap (λ k. k ++ (preempted s.current ∷ before)) q
          ∙ append_assoc zs (t ∷ ys) (preempted s.current ∷ before),
      omega (arith, ap length p, length-append before (next ∷ zs)),
    )
  ]
]

-- A task that is ready, with `d` tasks before it in ring order after the current one, is the running
-- task after at most `d + 1` calls of `schedule`, whatever the states of the other tasks are.
pub schedule_reaches :
    (d : ℕ) (s : Sched) (xs : List Task) (t : Task) (ys : List Task)
    → s.others ≡ xs ++ (t ∷ ys)
    → is_skipped t.state ≡ false
    → length xs ≤ d
    → (n : ℕ) × (n ≤ suc d) × ((schedules n s).current ≡ record t { state = TaskState.running })
unfolding schedules
schedule_reaches zero s xs t ys e h le = elim (schedule-Nearer s xs t ys e h) [
  | inl now ↦ (1, omega arith, now)
  | inr (zs, ys', _, lt) ↦ absurd (omega arith)
]
schedule_reaches (suc d) s xs t ys e h le = elim (schedule-Nearer s xs t ys e h) [
  | inl now ↦ (1, omega arith, now)
  | inr (zs, ys', e', lt) ↦
      let (n, m, r) = schedule_reaches d (schedule s) zs t ys' e' h (omega arith) in
      (suc n, omega arith, r)
]
