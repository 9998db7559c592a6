-- ===== src/Syscall/Files.antt =====
-- kernel/syscall.c: `sys_open_w`, and reads and writes through a descriptor.
use ali_os.Base.{
  ℕ, int32, zero, suc, ◌+◌, u32, update, length, ℤ, pos, negsuc, Bool, not, ◌||◌, Option, none,
  some, List, [], ◌∷◌, if◌then◌else◌, ◌==◌, ltb, leb,
}
use ali_os.Task.{Fd, fd_file, fd_pipe, task_fd_max}
use ali_os.Sched.{Sched}
use ali_os.Alfs.{Fs, alfs_find, alfs_size, alfs_stat, name_max}
use ali_os.Alfs.Reading.{alfs_pread}
use ali_os.Alfs.Writing.{alfs_write}
use ali_os.Path.{path_resolve}
use ali_os.Syscall.{minus_one, with_fds, unused, install_file}

-- `sizeof(write_buf)`
abbrev pub write_buf_size : ℕ
write_buf_size = 4096

-- The bytes of an array up to the null, `left` at most.
unfoldable pub text_from : ℕ → ℕ → (ℕ → ℕ) → List ℕ
text_from zero i a = []
text_from (suc left) i a =
    let rest = text_from left (i + 1) a in if a i == 0 then [] else a i ∷ rest

-- `buf[i + k] = bs[k]` for every byte of the list. The sum is a `uint32_t`.
unfoldable pub store : List ℕ → ℕ → (ℕ → ℕ) → ℕ → ℕ
store [] i buf = buf
store (b ∷ bs) i buf = store bs (u32 (i + 1)) (update buf i b)

-- The end of `file_write`: the result of `alfs_write` under the name `text`.
unfoldable pub stored : Fd → ℕ → List ℕ → Option ℕ × Fs → Option Fd × Fs
stored f len text (none, fs) = (none, fs)
stored f len text (some n, fs) = (
  some (record f {
    alfs_idx = elim (alfs_find text fs) [ none ↦ negsuc 0 | some i ↦ pos i ];
    offset = u32 (f.offset + len);
  }),
  fs,
)

-- `file_write` once the old bytes are in the buffer; `fs` and the buffer as they are then.
unfoldable pub write_back : Fd → List ℕ → (ℕ → ℕ) → Fs → Option Fd × Fs
unfolding text_from store stored
write_back f buf old fs =
    let write_buf = store buf f.offset old in
    elim (alfs_stat f.alfs_idx fs) [
      | none ↦ (none, fs)
      | some (name, old_size) ↦
          let text = text_from name_max 0 name in
          stored f (length buf) text (alfs_write text write_buf (u32 (f.offset + length buf)) fs)
    ]

-- The descriptor afterwards, or `none` for -1; `write_buf` is the staging buffer as it is before.
unfoldable pub file_write : Fd → List ℕ → (ℕ → ℕ) → Fs → Option Fd × Fs
unfolding write_back
file_write f buf write_buf fs =
    let (got, fs') = alfs_pread f.alfs_idx f.offset 0 fs in
    if ltb write_buf_size (u32 (f.offset + length buf))
    then (none, fs)
    else if f.offset == 0
    then write_back f buf write_buf fs
    else elim got [ none ↦ (none, fs') | some bs ↦ write_back f buf (store bs 0 write_buf) fs' ]

-- What a read or a write of a descriptor comes to: a call of kernel/pipe.c on a pipe, characters for
-- the screen, or a result with the new state.
pub data Access : Type 0 where
  on_pipe : (pi : ℤ) → Access
  on_screen : (chars : List ℕ) → Access
  result : (value : ℤ) (got : List ℕ) (fs : Fs) (s : Sched) → Access

unfoldable pub after_write : ℕ → ℕ → Option Fd → Fs → Sched → Access
after_write fd len none fs s = Access.result minus_one [] fs s
after_write fd len (some f) fs s =
    Access.result (int32 len) [] fs (with_fds (update s.current.fd_table fd f) s)

unfoldable pub sys_write : ℕ → List ℕ → (ℕ → ℕ) → Fs → Sched → Access
unfolding file_write after_write
sys_write fd buf write_buf fs s =
    let f = s.current.fd_table fd in
    let screen =
      if fd == 1 || fd == 2 then Access.on_screen buf else Access.result minus_one [] fs s in
    let (after, fs') = file_write f buf write_buf fs in
    if leb task_fd_max fd
    then Access.result minus_one [] fs s
    else if f.used
    then (if f.kind == fd_pipe
        then Access.on_pipe f.pipe_idx
        else if f.kind == fd_file
        then after_write fd (length buf) after fs' s
        else screen)
    else screen

unfoldable pub after_read : ℕ → Option (List ℕ) → Fs → Sched → Access
after_read fd none fs s = Access.result minus_one [] fs s
after_read fd (some bs) fs s =
    let f = s.current.fd_table fd in
    Access.result (pos (length bs)) bs fs
      (with_fds (update s.current.fd_table fd (record f { offset = u32 (f.offset + length bs) })) s)

-- `fd` is the `int` of the register: one above 2^31 is negative.
unfoldable pub sys_read : ℕ → ℕ → Fs → Sched → Access
unfolding after_read
sys_read fd len fs s =
    let f = s.current.fd_table fd in
    let (got, fs') = alfs_pread f.alfs_idx len f.offset fs in
    if leb task_fd_max fd || not f.used
    then Access.result minus_one [] fs s
    else if f.kind == fd_pipe
    then Access.on_pipe f.pipe_idx
    else if f.kind == fd_file
    then after_read fd got fs' s
    else Access.result minus_one [] fs s

-- The end of `sys_open_w`.
unfoldable pub open_entry : List ℕ → ℕ → ℕ → Fs → Sched → ℤ × Fs × Sched
unfolding install_file
open_entry resolved fd start_off fs s = elim (alfs_find resolved fs) [
  | none ↦ (minus_one, fs, s)
  | some idx ↦ (pos fd, fs, install_file fd idx start_off s)
]

-- The flag is `append`.
unfoldable pub sys_open_w : List ℕ → Bool → Fs → Sched → ℤ × Fs × Sched
unfolding open_entry
sys_open_w name append fs s =
    let resolved = path_resolve s.current.cwd name in
    let (emptied, fs') = alfs_write resolved (λ i. 0) 0 fs in
    let fresh = λ (fd : ℕ). elim emptied as (λ o. ℤ × Fs × Sched) [
      | none ↦ (minus_one, fs', s)
      | some n ↦ open_entry resolved fd 0 fs' s
    ] in
    elim (unused s.current.fd_table) [
      | none ↦ (minus_one, fs, s)
      | some fd ↦
          if append
          then elim (alfs_find resolved fs) [
            | none ↦ fresh fd
            | some i ↦ open_entry resolved fd (alfs_size (pos i) fs) fs s
          ]
          else fresh fd
    ]
