-- ===== src/Syscall.antt =====
-- kernel/syscall.c: the calls of int 0x80. Arguments come from the saved registers, so a descriptor is
-- the unsigned number that the user passed; -1 is `negsuc 0`. Copies between the user's and the
-- kernel's memory are list arguments and results.
pub mod Ends
pub mod Fds
pub mod Pipes
pub mod Tasks
pub mod Exits
pub mod Balance
pub mod Signals
pub mod Access
pub mod Replace
pub mod Steps
pub mod Memory
pub mod Grow
pub mod Exec
mod Tests
pub mod Files
use ali_os.Base.{
  ℕ, zero, suc, ◌+◌, ◌-◌, ◌*◌, ◌/◌, ◌%◌, ◌^◌, u32, update, length, get_or, ℤ, pos, negsuc, Bool,
  true, false, not, ◌&&◌, ◌||◌, Option, none, some, List, [], ◌∷◌, ◌++◌, if◌then◌else◌, ◌==◌, ltb,
  leb,
}
use ali_os.Task.{Task, Fd, fd_file, fd_pipe, task_fd_max, new_user_task}
use ali_os.Pipe.Pool.{
  Pool, pipe_alloc, pipe_open_read, pipe_open_write, pipe_close_read, pipe_close_write,
}
use ali_os.Sched.{Sched, sched_add, sched_exit, sched_sleep}
use ali_os.Alfs.{Fs, alfs_find, alfs_size, alfs_is_dir}
use ali_os.Path.{path_resolve}

abbrev pub minus_one : ℤ
minus_one = negsuc 0

-- The current task with other descriptors.
abbrev pub with_fds : (ℕ → Fd) → Sched → Sched
with_fds fds s = record s { current = record s.current { fd_table = fds } }

unfoldable pub fd_close_one : ℕ → Sched → Sched
fd_close_one i s =
    let f = s.current.fd_table i in
    let s' = with_fds (update s.current.fd_table i (record f { used = false })) s in
    if f.used
    then (if f.kind == fd_pipe
        then record s' {
          pool =
              if f.pipe_write
              then pipe_close_write f.pipe_idx s.pool
              else pipe_close_read f.pipe_idx s.pool;
        }
        else s')
    else s

-- The scan of `sys_open`, `sys_open_w` and `sys_pipe` for an unused descriptor, from `i` on with
-- `left` rounds left.
unfoldable pub unused_from : ℕ → ℕ → (ℕ → Fd) → Option ℕ
unused_from zero i fds = none
unused_from (suc left) i fds =
    let rest = unused_from left (i + 1) fds in if (fds i).used then rest else some i

-- The descriptors that a program can open start at 3.
abbrev pub unused : (ℕ → Fd) → Option ℕ
unused fds = unused_from 5 3 fds

-- `pipe_idx` and `pipe_write` keep what they held.
abbrev pub file_fd : ℕ → ℕ → Fd → Fd
file_fd idx offset f = record f { used = true; kind = fd_file; alfs_idx = pos idx; offset = offset }

abbrev pub pipe_fd : ℕ → Bool → Fd → Fd
pipe_fd pi write f = record f { used = true; kind = fd_pipe; pipe_idx = pos pi; pipe_write = write }

-- `sys_open` and the end of `sys_open_w`, once the entry is known.
unfoldable pub install_file : ℕ → ℕ → ℕ → Sched → Sched
install_file fd idx offset s =
    with_fds (update s.current.fd_table fd (file_fd idx offset (s.current.fd_table fd))) s

unfoldable pub sys_open : List ℕ → Fs → Sched → ℤ × Sched
unfolding install_file
sys_open name fs s = elim (unused s.current.fd_table) [
  | none ↦ (minus_one, s)
  | some fd ↦ elim (alfs_find (path_resolve s.current.cwd name) fs) [
    | none ↦ (minus_one, s)
    | some idx ↦
        if alfs_is_dir (pos idx) fs then (minus_one, s) else (pos fd, install_file fd idx 0 s)
  ]
]

-- `true` for 0.
unfoldable pub sys_close : ℕ → Sched → Bool × Sched
unfolding fd_close_one
sys_close fd s =
    if leb task_fd_max fd || not (s.current.fd_table fd).used
    then (false, s)
    else (true, fd_close_one fd s)

-- The two descriptors that `sys_pipe` picks.
unfoldable pub two_unused : (ℕ → Fd) → Option (ℕ × ℕ)
unfolding unused_from
two_unused fds = elim (unused fds) [
  | none ↦ none
  | some rfd ↦ elim (unused_from (7 - rfd) (rfd + 1) fds) [
    | none ↦ none
    | some wfd ↦ some (rfd, wfd)
  ]
]

-- `none` for -1, otherwise what is written to the user's array.
unfoldable pub sys_pipe : Sched → Option (ℕ × ℕ) × Sched
unfolding two_unused
sys_pipe s =
    let (slot, pool) = pipe_alloc s.pool in
    elim slot [
      | none ↦ (none, record s { pool = pool })
      | some pi ↦ elim (two_unused s.current.fd_table) [
        | none ↦
            (none, record s { pool = pipe_close_write (pos pi) (pipe_close_read (pos pi) pool) })
        | some (rfd, wfd) ↦
            let fds = update s.current.fd_table rfd (pipe_fd pi false (s.current.fd_table rfd)) in
            (
              some (rfd, wfd),
              with_fds (update fds wfd (pipe_fd pi true (fds wfd))) (record s { pool = pool }),
            )
      ]
    ]

-- The loop of `sys_fork` over the descriptors from `i` on: the counts of the pipes that the child's
-- copies refer to. The copies themselves are the parent's table.
unfoldable pub inherit_from : ℕ → ℕ → (ℕ → Fd) → Pool → Pool
inherit_from zero i fds pool = pool
inherit_from (suc left) i fds pool =
    let f = fds i in
    inherit_from left (i + 1) fds (
      if f.used && (f.kind == fd_pipe)
      then (if f.pipe_write
          then pipe_open_write f.pipe_idx pool
          else pipe_open_read f.pipe_idx pool)
      else pool)

-- `sys_fork` after `uvm_clone` made `child_pd`: the child that `task_create_user` fills in, with the
-- process id, the top of the kernel stack and the memory of the descriptors that it got.
unfoldable pub fork_task : ℕ → ℕ → ℕ → ℕ → ℕ → (ℕ → Fd) → Sched → ℕ × Sched
unfolding inherit_from new_user_task
fork_task pid kstack_top user_eip user_esp child_pd held s =
    let child =
      record (new_user_task pid kstack_top user_eip user_esp child_pd s.current.pid held) {
        user_brk = s.current.user_brk;
        fd_table = s.current.fd_table;
      } in
    (
      pid,
      sched_add child (record s { pool = inherit_from task_fd_max 0 s.current.fd_table s.pool }),
    )

unfoldable pub sys_exit : ℕ → Sched → Sched
sys_exit code s = sched_exit (record s { current = record s.current { exit_code = code } })

unfoldable pub sys_sleep : ℕ → Sched → Sched
sys_sleep ms s = sched_sleep ms s

abbrev pub sys_getpid : Sched → ℕ
sys_getpid s = s.current.pid

abbrev pub sys_getppid : Sched → ℕ
sys_getppid s = s.current.parent_pid

-- `pending_sigs |= 1u << sig`; the processor takes the low five bits of the count.
abbrev pub with_sig : ℕ → Task → Task
with_sig sig t =
    let bit = 2 ^ (sig % 32) in
    record t {
      pending_sigs = if t.pending_sigs / bit % 2 == 1 then t.pending_sigs else t.pending_sigs + bit;
    }

-- The walk of `sys_kill` over the other tasks; `none` if none has the process id.
unfoldable pub signal_in : ℕ → ℕ → List Task → Option (List Task)
signal_in pid sig [] = none
signal_in pid sig (t ∷ ts) =
    let rest = signal_in pid sig ts in
    if t.pid == pid
    then some (with_sig sig t ∷ ts)
    else elim rest [ none ↦ none | some ts' ↦ some (t ∷ ts') ]

-- `true` for 0.
unfoldable pub sys_kill : ℕ → ℕ → Sched → Bool × Sched
unfolding signal_in
sys_kill pid sig s = elim (signal_in pid sig s.others) [
  | none ↦ (false, s)
  | some ts ↦ (true, record s { others = ts })
]
