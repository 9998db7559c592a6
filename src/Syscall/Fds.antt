-- ===== src/Syscall/Fds.antt =====
-- kernel/syscall.c: the calls that open and close descriptors of the current task keep the pipes' end
-- counts in step with the descriptors.
use ali_os.Base.{
  ℕ, zero, suc, ◌+◌, ◌≤◌, ◌<◌, ◌≡◌, refl, update, Bool, false, if◌then◌else◌, ◌==◌, some, arith,
  Bool-cases, inl, inr,
}
use ali_os.Task.{Fd, fd_pipe, task_fd_max, is_zombie}
use ali_os.Pipe.{pipe_max}
use ali_os.Pipe.Pool.{Pool, pipe_close_read, pipe_close_write}
use ali_os.Sched.{Sched}
use ali_os.Sched.Fds.{count_fds, is_write_end, is_read_end, close_write-Closes, close_read-Closes}
use ali_os.Syscall.{unused_from, fd_close_one, with_fds, install_file, file_fd}
use ali_os.Syscall.Ends.{total, IsBalanced, one_if, count_fds-update}

-- The current task runs, so it is no zombie.
abbrev pub Runs : Sched → Type 0
Runs s = is_zombie s.current.state ≡ false

-- Descriptor `i` of the current task becomes `g`, and the pool changes with it.
pub set_fd :
    (p i : ℕ) (s : Sched) (g : Fd) (pool : Pool)
    → i < task_fd_max
    → IsBalanced p s
    → Runs s
    → (pool p).nwriters + one_if (is_write_end p (s.current.fd_table i))
      ≡ (s.pool p).nwriters + one_if (is_write_end p g)
    → (pool p).nreaders + one_if (is_read_end p (s.current.fd_table i))
      ≡ (s.pool p).nreaders + one_if (is_read_end p g)
    → IsBalanced p (with_fds (update s.current.fd_table i g) (record s { pool = pool }))
unfolding total
set_fd p i s g pool lt b runs w r = record {
  writers = omega (
    arith,
    w,
    b.writers,
    count_fds-update (is_write_end p) task_fd_max 0 i s.current.fd_table g (omega arith) lt,
  );
  readers = omega (
    arith,
    r,
    b.readers,
    count_fds-update (is_read_end p) task_fd_max 0 i s.current.fd_table g (omega arith) lt,
  );
  clean = ((λ z. absurd (cc (z, runs))), b.clean.1);
}

-- A count is at least the one descriptor that passes the test.
held_one :
    (test : Fd → Bool) (i n : ℕ) (fds : ℕ → Fd) (g : Fd)
    → i < task_fd_max
    → test g ≡ false
    → count_fds test task_fd_max 0 fds ≤ n
    → one_if (test (fds i)) ≤ n
held_one test i n fds g lt e le =
    let none_here : one_if (test g) ≡ 0 = rw e refl in
    omega (arith, none_here, count_fds-update test task_fd_max 0 i fds g (omega arith) lt)

writers_held :
    (p : ℕ) (s : Sched)
    → IsBalanced p s
    → count_fds (is_write_end p) task_fd_max 0 s.current.fd_table ≤ (s.pool p).nwriters
unfolding total
writers_held p s b = omega (arith, b.writers)

readers_held :
    (p : ℕ) (s : Sched)
    → IsBalanced p s
    → count_fds (is_read_end p) task_fd_max 0 s.current.fd_table ≤ (s.pool p).nreaders
unfolding total
readers_held p s b = omega (arith, b.readers)

pub fd_close_one-IsBalanced :
    (p i : ℕ) (s : Sched)
    → p < pipe_max
    → i < task_fd_max
    → IsBalanced p s
    → Runs s
    → IsBalanced p (fd_close_one i s)
unfolding fd_close_one
fd_close_one-IsBalanced p i s lt il b runs =
    let f = s.current.fd_table i in
    let g : Fd = record f { used = false } in
    let hw =
      held_one (is_write_end p) i (s.pool p).nwriters s.current.fd_table g il refl
        (writers_held p s b) in
    let hr =
      held_one (is_read_end p) i (s.pool p).nreaders s.current.fd_table g il refl
        (readers_held p s b) in
    let cw = close_write-Closes f.pipe_idx p s.pool lt in
    let cr = close_read-Closes f.pipe_idx p s.pool lt in
    elim (Bool-cases f.used) [
      | inr n ↦ rw n b
      | inl u ↦ elim (Bool-cases (f.kind == fd_pipe)) [
        | inr file ↦ rw (u, file) (set_fd p i s g s.pool il b runs (ground arith) (ground arith))
        | inl pipe ↦
            rw (u, pipe)
              (set_fd p i s g
                (if f.pipe_write
                  then pipe_close_write f.pipe_idx s.pool
                  else pipe_close_read f.pipe_idx s.pool)
                il b runs (ground (arith, hw, cw.writers_left, cr.writers_left))
                (ground (arith, hr, cw.readers_left, cr.readers_left)))
      ]
    ]

pub install_file-IsBalanced :
    (p fd idx offset : ℕ) (s : Sched)
    → fd < task_fd_max
    → (s.current.fd_table fd).used ≡ false
    → IsBalanced p s
    → Runs s
    → IsBalanced p (install_file fd idx offset s)
unfolding install_file
install_file-IsBalanced p fd idx offset s lt u b runs =
    set_fd p fd s (file_fd idx offset (s.current.fd_table fd)) s.pool lt b runs (ground arith)
      (ground arith)

-- What the scan for an unused descriptor finds.
pub unused_from_lem :
    (left i fd : ℕ) (fds : ℕ → Fd)
    → unused_from left i fds ≡ some fd
    → (i ≤ fd) × (fd < i + left) × ((fds fd).used ≡ false)
unfolding unused_from
unused_from_lem zero i fd fds h = ground arith
unused_from_lem (suc left) i fd fds h = elim (Bool-cases (fds i).used) [
  | inl u ↦
      let ih = unused_from_lem left (i + 1) fd fds (rw u at h) in
      (omega (arith, ih.0), omega (arith, ih.1), ih.2)
  | inr n ↦ let e : i ≡ fd = ground arith in (omega arith, omega arith, rw (← e) n)
]
