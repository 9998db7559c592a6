-- ===== src/Task.antt =====
-- kernel/task.h and the part of kernel/task.c that fills in a task: the process control block and
-- its table of file descriptors.
use ali_os.Base.{ℕ, ℤ, Bool, true, false, List, [], ◌∷◌, negsuc}

-- `task_state_t`
pub data TaskState : Type 0 where
  ready running blocked zombie : TaskState

-- `task_fd_t`. `kind` is `type`: 1 for FD_FILE, 2 for FD_PIPE.
pub record Fd : Type 0 where
  pub used : Bool
  pub kind : ℕ
  pub alfs_idx : ℤ
  pub offset : ℕ
  pub pipe_idx : ℤ
  pub pipe_write : Bool

abbrev pub fd_file : ℕ
fd_file = 1

abbrev pub fd_pipe : ℕ
fd_pipe = 2

abbrev pub task_fd_max : ℕ
task_fd_max = 8

-- `task_t`, without `next` (the run queue is a list), `entry`, and the stack pointers `esp` and
-- `stack`, which only the context switch reads. Texts are lists of bytes up to the null.
pub record Task : Type 0 where
  pub pid : ℕ
  pub state : TaskState
  pub page_dir : ℕ
  pub kstack_top : ℕ
  pub user_eip : ℕ
  pub user_esp : ℕ
  pub fd_table : ℕ → Fd
  pub wakeup_tick : ℕ
  pub user_brk : ℕ
  pub user_eax : ℕ
  pub parent_pid : ℕ
  pub exit_code : ℕ
  pub pending_sigs : ℕ
  pub waiting : Bool
  pub name : List ℕ
  pub cwd : List ℕ

abbrev pub is_zombie : TaskState → Bool
is_zombie TaskState.zombie = true
is_zombie _ = false

abbrev pub is_blocked : TaskState → Bool
is_blocked TaskState.blocked = true
is_blocked _ = false

abbrev pub is_running : TaskState → Bool
is_running TaskState.running = true
is_running _ = false

-- What `task_create` and `task_create_user` write to each descriptor; the fields `alfs_idx` and
-- `offset` keep what the heap held.
abbrev pub closed_fd : Fd → Fd
closed_fd f = record f { used = false; kind = 0; pipe_idx = negsuc 0; pipe_write = false }

-- `'/'`
abbrev pub slash : ℕ
slash = b'/'

-- The task that `task_create_user` fills in, with the process id that `next_pid++` gave and the top
-- of its kernel stack. `held` is what the memory of its descriptors held.
unfoldable pub new_user_task : ℕ → ℕ → ℕ → ℕ → ℕ → ℕ → (ℕ → Fd) → Task
new_user_task pid kstack_top eip esp pd parent held = record {
  pid = pid;
  state = TaskState.ready;
  page_dir = pd;
  kstack_top = kstack_top;
  user_eip = eip;
  user_esp = esp;
  fd_table = λ i. closed_fd (held i);
  wakeup_tick = 0;
  user_brk = 0x10000000;
  user_eax = 0;
  parent_pid = parent;
  exit_code = 0;
  pending_sigs = 0;
  waiting = false;
  name = [];
  cwd = slash ∷ [];
}
