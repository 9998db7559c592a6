-- ===== src/Syscall/Balance.antt =====
-- kernel/syscall.c: `fork`, `open`, `close`, `kill`, `exit`, `sleep` and `wait` keep the pipes' end counts in
-- step with the descriptors.
use ali_os.Base.{
  ℕ, zero, suc, ◌+◌, ◌<◌, ◌≡◌, ◌⊎◌, refl, ℤ, pos, negsuc, not, ◌&&◌, ◌||◌, List, if◌then◌else◌,
  ◌==◌, leb, Option, none, some, arith, Bool-cases, inl, inr,
}
use ali_os.Task.{Fd, fd_pipe, task_fd_max}
use ali_os.Pipe.{pipe_max}
use ali_os.Pipe.Pool.{Pool, pipe_open_read, pipe_open_write}
use ali_os.Sched.{Sched, sched_add}
use ali_os.Sched.Fds.{count_fds, names, is_write_end, is_read_end}
use ali_os.Alfs.{Fs, alfs_find, alfs_is_dir}
use ali_os.Path.{path_resolve}
use ali_os.Syscall.{
  minus_one, unused_from, install_file, inherit_from, fork_task, sys_open, sys_close,
}
use ali_os.Syscall.Ends.{total, IsBalanced, one_if}
use ali_os.Syscall.Fds.{Runs, fd_close_one-IsBalanced, install_file-IsBalanced, unused_from_lem}

open_write-Opens :
    (z : ℤ) (p : ℕ) (pool : Pool)
    → p < pipe_max
    → ((pipe_open_write z pool p).nwriters ≡ (pool p).nwriters + one_if (names z p))
      × ((pipe_open_write z pool p).nreaders ≡ (pool p).nreaders)
unfolding pipe_open_write
open_write-Opens (pos i) p pool lt = ground arith
open_write-Opens (negsuc n) p pool lt = ground arith

open_read-Opens :
    (z : ℤ) (p : ℕ) (pool : Pool)
    → p < pipe_max
    → ((pipe_open_read z pool p).nreaders ≡ (pool p).nreaders + one_if (names z p))
      × ((pipe_open_read z pool p).nwriters ≡ (pool p).nwriters)
unfolding pipe_open_read
open_read-Opens (pos i) p pool lt = ground arith
open_read-Opens (negsuc n) p pool lt = ground arith

-- The ends that the child's copies add.
inherit_from-Opens :
    (p left i : ℕ) (fds : ℕ → Fd) (pool : Pool)
    → p < pipe_max
    → ((inherit_from left i fds pool p).nwriters
        ≡ (pool p).nwriters + count_fds (is_write_end p) left i fds)
      × ((inherit_from left i fds pool p).nreaders
          ≡ (pool p).nreaders + count_fds (is_read_end p) left i fds)
unfolding inherit_from count_fds
inherit_from-Opens p zero i fds pool lt = (omega arith, omega arith)
inherit_from-Opens p (suc left) i fds pool lt =
    let f = fds i in
    let next =
      if f.used && (f.kind == fd_pipe)
      then (if f.pipe_write
          then pipe_open_write f.pipe_idx pool
          else pipe_open_read f.pipe_idx pool)
      else pool in
    let ih = inherit_from-Opens p left (i + 1) fds next lt in
    let w = open_write-Opens f.pipe_idx p pool lt in
    let r = open_read-Opens f.pipe_idx p pool lt in
    let nw : (next p).nwriters ≡ (pool p).nwriters + one_if (is_write_end p f) =
      ground (arith, w, r) in
    let nr : (next p).nreaders ≡ (pool p).nreaders + one_if (is_read_end p f) =
      ground (arith, w, r) in
    (omega (arith, ih.0, nw), omega (arith, ih.1, nr))

pub fork_task-IsBalanced :
    (p pid kstack_top eip esp child_pd : ℕ) (held : ℕ → Fd) (s : Sched)
    → p < pipe_max
    → IsBalanced p s
    → IsBalanced p (fork_task pid kstack_top eip esp child_pd held s).1
unfolding fork_task sched_add total
fork_task-IsBalanced p pid kstack_top eip esp child_pd held s lt b =
    let o = inherit_from-Opens p task_fd_max 0 s.current.fd_table s.pool lt in
    record {
      writers = omega (arith, o.0, b.writers);
      readers = omega (arith, o.1, b.readers);
      clean = (b.clean.0, ((λ z. absurd (cc z)), b.clean.1));
    }

sys_open_by :
    (p fd : ℕ) (s : Sched) (fs : Fs) (o : Option ℕ)
    → IsBalanced p s
    → Runs s
    → unused_from 5 3 s.current.fd_table ≡ some fd
    → IsBalanced p
        (elim o as (λ _. ℤ × Sched) [
          | none ↦ (minus_one, s)
          | some idx ↦
              if alfs_is_dir (pos idx) fs then (minus_one, s) else (pos fd, install_file fd idx 0 s)
        ]).1
sys_open_by p fd s fs none b runs e = b
sys_open_by p fd s fs (some idx) b runs e =
    let l = unused_from_lem 5 3 fd s.current.fd_table e in
    elim (Bool-cases (alfs_is_dir (pos idx) fs)) [
      | inl d ↦ rw d b
      | inr n ↦ rw n (install_file-IsBalanced p fd idx 0 s (omega (arith, l.1)) l.2 b runs)
    ]

Option-cases : (o : Option ℕ) → (o ≡ none) ⊎ ((i : ℕ) × (o ≡ some i))
Option-cases none = inl refl
Option-cases (some i) = inr (i, refl)

pub sys_open-IsBalanced :
    (p : ℕ) (name : List ℕ) (fs : Fs) (s : Sched)
    → IsBalanced p s
    → Runs s
    → IsBalanced p (sys_open name fs s).1
unfolding sys_open
sys_open-IsBalanced p name fs s b runs = elim (Option-cases (unused_from 5 3 s.current.fd_table)) [
  | inl n ↦ rw (n, sys_open) b
  | inr (fd, e) ↦
      rw (e, sys_open)
        (sys_open_by p fd s fs (alfs_find (path_resolve s.current.cwd name) fs) b runs e)
]

pub sys_close-IsBalanced :
    (p fd : ℕ) (s : Sched)
    → p < pipe_max
    → IsBalanced p s
    → Runs s
    → IsBalanced p (sys_close fd s).1
unfolding sys_close
sys_close-IsBalanced p fd s lt b runs =
    elim (Bool-cases (leb task_fd_max fd || not (s.current.fd_table fd).used)) [
      | inl h ↦ rw h b
      | inr h ↦ rw h (fd_close_one-IsBalanced p fd s lt (ground arith) b runs)
    ]
