-- ===== src/Syscall/Pipes.antt =====
-- kernel/syscall.c: `sys_pipe` takes a free slot and two descriptors, or gives the slot back.
use ali_os.Base.{
  ℕ, ◌+◌, ◌-◌, ◌≤◌, ◌<◌, ◌≡◌, ◌⊎◌, refl, update, pos, true, false, Option, none, some, arith, inl,
  inr,
}
use ali_os.Task.{Fd, task_fd_max}
use ali_os.Pipe.{pipe_max}
use ali_os.Pipe.Pool.{
  Pool, fresh, is_free, pipe_alloc, pipe_close_read, pipe_close_write, pipe_alloc-Allocated,
}
use ali_os.Sched.{Sched}
use ali_os.Sched.Fds.{close_write-Closes, close_read-Closes}
use ali_os.Syscall.{with_fds, pipe_fd, unused, unused_from, two_unused, sys_pipe}
use ali_os.Syscall.Ends.{IsBalanced}
use ali_os.Syscall.Fds.{Runs, set_fd, unused_from_lem}

-- Two different unused descriptors, of those that a program can open.
abbrev pub TwoUnused : (ℕ → Fd) → ℕ × ℕ → Type 0
TwoUnused fds (r, w) =
    (3 ≤ r) × (r < w) × (w < task_fd_max) × ((fds r).used ≡ false) × ((fds w).used ≡ false)

second_by :
    (r : ℕ) (fds : ℕ → Fd) (o : Option ℕ) (x : ℕ × ℕ)
    → (3 ≤ r) × (r < 8) × ((fds r).used ≡ false)
    → unused_from (7 - r) (r + 1) fds ≡ o
    → (elim o as (λ _. Option (ℕ × ℕ)) [ none ↦ none | some w ↦ some (r, w) ]) ≡ some x
    → TwoUnused fds x
second_by r fds none x h e h' = ground arith
second_by r fds (some w) x (lo, hi, u) e h =
    let l = unused_from_lem (7 - r) (r + 1) w fds e in
    let same : (r, w) ≡ x = ground arith in
    rw (← same) (lo, omega (arith, l.0), omega (arith, l.1), u, l.2)

first_by :
    (fds : ℕ → Fd) (o : Option ℕ) (x : ℕ × ℕ)
    → unused fds ≡ o
    → (elim o as (λ _. Option (ℕ × ℕ)) [
      | none ↦ none
      | some r ↦ elim (unused_from (7 - r) (r + 1) fds) [ none ↦ none | some w ↦ some (r, w) ]
    ])
      ≡ some x
    → TwoUnused fds x
first_by fds none x e h = ground arith
first_by fds (some r) x e h =
    let l = unused_from_lem 5 3 r fds e in
    second_by r fds (unused_from (7 - r) (r + 1) fds) x (l.0, omega (arith, l.1), l.2) refl h

two_unused_lem : (x : ℕ × ℕ) (fds : ℕ → Fd) → two_unused fds ≡ some x → TwoUnused fds x
unfolding two_unused
two_unused_lem x fds h = first_by fds (unused fds) x refl h

module _ (p pi : ℕ) (s : Sched) (lt : p < pipe_max) (pl : pi < pipe_max)
    (free : is_free (s.pool pi) ≡ true) (b : IsBalanced p s) (runs : Runs s) where
  abbrev taken_pool : Pool
  taken_pool = update s.pool pi (fresh (s.pool pi))

  given_back :
      IsBalanced p
        (record s { pool = pipe_close_write (pos pi) (pipe_close_read (pos pi) taken_pool) })
  given_back =
      let r = close_read-Closes (pos pi) p taken_pool lt in
      let w = close_write-Closes (pos pi) p (pipe_close_read (pos pi) taken_pool) lt in
      record {
        writers = ground (arith, b.writers, r.writers_left, w.writers_left);
        readers = ground (arith, b.readers, r.readers_left, w.readers_left);
        clean = b.clean;
      }

  -- The pool with the reader of the new pipe alone.
  abbrev read_pool : Pool
  read_pool = update s.pool pi (record (fresh (s.pool pi)) { nwriters = 0 })

  installed :
      (r w : ℕ)
      → TwoUnused s.current.fd_table (r, w)
      → IsBalanced p (
          with_fds
            (update (update s.current.fd_table r (pipe_fd pi false (s.current.fd_table r))) w (
              pipe_fd pi true
                (update s.current.fd_table r (pipe_fd pi false (s.current.fd_table r)) w)))
            (record s { pool = taken_pool }))
  installed r w (lo, rw_lt, hi, ur, uw) =
      let fds = update s.current.fd_table r (pipe_fd pi false (s.current.fd_table r)) in
      let b' : IsBalanced p (with_fds fds (record s { pool = read_pool })) =
        set_fd p r s (pipe_fd pi false (s.current.fd_table r)) read_pool (omega arith) b runs
          (ground arith) (ground arith) in
      set_fd p w (with_fds fds (record s { pool = read_pool })) (pipe_fd pi true (fds w)) taken_pool
        hi b' runs (ground arith) (ground arith)

-- What `pipe_alloc` gave: nothing, or a free slot with one end of each kind.
abbrev Gave : Sched → Option ℕ × Pool → Type 0
Gave s out =
    ((out.0 ≡ none) × (out.1 ≡ s.pool))
    ⊎ ((pi : ℕ) × (out.0 ≡ some pi)
        × (pi < pipe_max)
        × (is_free (s.pool pi) ≡ true)
        × (out.1 ≡ update s.pool pi (fresh (s.pool pi))))

sys_pipe_by :
    (p : ℕ) (s : Sched) (t : Option (ℕ × ℕ))
    → p < pipe_max
    → IsBalanced p s
    → Runs s
    → Gave s (pipe_alloc s.pool)
    → two_unused s.current.fd_table ≡ t
    → IsBalanced p (sys_pipe s).1
unfolding sys_pipe
sys_pipe_by p s t lt b runs (inl (n, same)) f = rw (n, same, sys_pipe) b
sys_pipe_by p s none lt b runs (inr (pi, i, pl, free, same)) f =
    rw (i, f, same, sys_pipe) (given_back p pi s lt pl free b runs)
sys_pipe_by p s (some (r, w)) lt b runs (inr (pi, i, pl, free, same)) f =
    rw (i, f, same, sys_pipe)
      (installed p pi s lt pl free b runs r w (two_unused_lem (r, w) s.current.fd_table f))

Option-cases : (o : Option ℕ) → (o ≡ none) ⊎ ((i : ℕ) × (o ≡ some i))
Option-cases none = inl refl
Option-cases (some i) = inr (i, refl)

-- `sys_pipe` keeps the counts of every pipe in step with the descriptors, also where it finds no
-- slot or not two descriptors.
pub sys_pipe-IsBalanced :
    (p : ℕ) (s : Sched) → p < pipe_max → IsBalanced p s → Runs s → IsBalanced p (sys_pipe s).1
sys_pipe-IsBalanced p s lt b runs =
    let a = pipe_alloc-Allocated s.pool in
    let out : ((pipe_alloc s.pool).0 ≡ none) ⊎ ((i : ℕ) × ((pipe_alloc s.pool).0 ≡ some i)) =
      Option-cases (pipe_alloc s.pool).0 in
    sys_pipe_by p s (two_unused s.current.fd_table) lt b runs
      (elim out [
        | inl n ↦ inl (n, (a.none_free n).0)
        | inr (i, h) ↦ inr (i, h, (a.first i h).1, (a.first i h).2, a.result i h)
      ])
      refl
