-- ===== src/Syscall/Access.antt =====
-- kernel/syscall.c: `read`, `write` and `open_w` keep the pipes' end counts in step with the descriptors.
use ali_os.Base.{
  ℕ, ◌+◌, ◌<◌, ◌≡◌, ◌⊎◌, refl, u32, update, length, Bool, true, false, not, ◌||◌, List, [],
  if◌then◌else◌, ◌==◌, ltb, leb, Option, none, some, arith, Bool-cases, inl, inr,
}
use ali_os.Task.{Fd, fd_file, fd_pipe, task_fd_max}
use ali_os.Sched.{Sched}
use ali_os.Alfs.{Fs, alfs_stat, name_max}
use ali_os.Alfs.Reading.{alfs_pread}
use ali_os.Syscall.{minus_one, with_fds}
use ali_os.Syscall.Ends.{IsBalanced}
use ali_os.Syscall.Fds.{Runs, set_fd}
use ali_os.Syscall.Files.{
  Access, store, stored, text_from, after_write, after_read, write_buf_size, file_write, write_back,
  sys_write, sys_read,
}

-- A descriptor with another entry and another offset, the rest as before.
abbrev pub SameFd : Fd → Fd → Type 0
SameFd f g =
    (g.used ≡ f.used)
    × (g.kind ≡ f.kind)
    × (g.pipe_idx ≡ f.pipe_idx)
    × (g.pipe_write ≡ f.pipe_write)

SameFd-IsBalanced :
    (p i : ℕ) (s : Sched) (g : Fd)
    → i < task_fd_max
    → SameFd (s.current.fd_table i) g
    → IsBalanced p s
    → Runs s
    → IsBalanced p (with_fds (update s.current.fd_table i g) s)
SameFd-IsBalanced p i s g lt (u, k, x, w) b runs =
    set_fd p i s g s.pool lt b runs (rw (u, k, x, w) refl) (rw (u, k, x, w) refl)

-- What an access leaves in the scheduler's state.
abbrev pub Leaves : (Sched → Type 0) → Access → Type 0
Leaves P (Access.on_pipe pi) = Unit
Leaves P (Access.on_screen chars) = Unit
Leaves P (Access.result value got fs s) = P s

abbrev FdBy : Fd → Option Fd → Type 0
FdBy f none = Unit
FdBy f (some g) = SameFd f g

stored-FdBy :
    (f : Fd) (len : ℕ) (text : List ℕ) (out : Option ℕ × Fs) → FdBy f (stored f len text out).0
unfolding stored
stored-FdBy f len text (none, fs) = tt
stored-FdBy f len text (some m, fs) = (refl, refl, refl, refl)

stat_cases : (o : Option ((ℕ → ℕ) × ℕ)) → (o ≡ none) ⊎ ((x : (ℕ → ℕ) × ℕ) × (o ≡ some x))
stat_cases none = inl refl
stat_cases (some x) = inr (x, refl)

write_back-FdBy :
    (f : Fd) (buf : List ℕ) (old : ℕ → ℕ) (fs : Fs) → FdBy f (write_back f buf old fs).0
unfolding write_back
write_back-FdBy f buf old fs = elim (stat_cases (alfs_stat f.alfs_idx fs)) [
  | inl n ↦ rw (n, write_back) tt
  | inr (x, e) ↦ rw (e, write_back) (stored-FdBy f (length buf) (text_from name_max 0 x.0) _)
]

read_cases : (o : Option (List ℕ)) → (o ≡ none) ⊎ ((x : List ℕ) × (o ≡ some x))
read_cases none = inl refl
read_cases (some x) = inr (x, refl)

file_write-FdBy :
    (f : Fd) (buf : List ℕ) (old : ℕ → ℕ) (fs : Fs) → FdBy f (file_write f buf old fs).0
unfolding file_write
file_write-FdBy f buf old fs =
    elim (Bool-cases (ltb write_buf_size (u32 (f.offset + length buf)))) [
      | inl big ↦ rw big tt
      | inr fits ↦ elim (Bool-cases (f.offset == 0)) [
        | inl start ↦ rw (fits, start) (write_back-FdBy f buf old fs)
        | inr later ↦ elim (read_cases (alfs_pread f.alfs_idx f.offset 0 fs).0) [
          | inl n ↦ rw (fits, later, n, file_write) tt
          | inr (bs, e) ↦ rw (fits, later, e, file_write) (write_back-FdBy f buf (store bs 0 old) _)
        ]
      ]
    ]

after_write-Leaves :
    (p fd len : ℕ) (o : Option Fd) (fs : Fs) (s : Sched)
    → fd < task_fd_max
    → FdBy (s.current.fd_table fd) o
    → IsBalanced p s
    → Runs s
    → Leaves (IsBalanced p) (after_write fd len o fs s)
unfolding after_write
after_write-Leaves p fd len none fs s lt k b runs = b
after_write-Leaves p fd len (some g) fs s lt k b runs = SameFd-IsBalanced p fd s g lt k b runs

Leaves-if :
    (P : Sched → Type 0) (t : Bool) (x y : Access)
    → (t ≡ true → Leaves P x)
    → (t ≡ false → Leaves P y)
    → Leaves P (if t then x else y)
Leaves-if P true x y f g = f refl
Leaves-if P false x y f g = g refl

screen-Leaves :
    (p fd : ℕ) (buf : List ℕ) (fs : Fs) (s : Sched)
    → IsBalanced p s
    → Leaves
        (IsBalanced p)
        (if fd == 1 || fd == 2 then Access.on_screen buf else Access.result minus_one [] fs s)
screen-Leaves p fd buf fs s b = Leaves-if (IsBalanced p) (fd == 1 || fd == 2) _ _ (λ _. tt) (λ _. b)

-- Whatever `write` comes to without the pipes, the counts of every pipe stay in step.
pub sys_write-Leaves :
    (p fd : ℕ) (buf : List ℕ) (old : ℕ → ℕ) (fs : Fs) (s : Sched)
    → IsBalanced p s
    → Runs s
    → Leaves (IsBalanced p) (sys_write fd buf old fs s)
unfolding sys_write
sys_write-Leaves p fd buf old fs s b runs =
    let f = s.current.fd_table fd in
    let screen = screen-Leaves p fd buf fs s b in
    let (after, fs') = file_write f buf old fs in
    Leaves-if (IsBalanced p) (leb task_fd_max fd) _ _ (λ _. b)
      (λ lt.
        Leaves-if (IsBalanced p) f.used _ _
          (λ _.
            Leaves-if (IsBalanced p) (f.kind == fd_pipe) _ _ (λ _. tt)
              (λ _.
                Leaves-if (IsBalanced p) (f.kind == fd_file) _ _
                  (λ _.
                    after_write-Leaves p fd (length buf) after fs' s (ground arith)
                      (file_write-FdBy f buf old fs) b runs)
                  (λ _. screen)))
          (λ _. screen))

after_read-Leaves :
    (p fd : ℕ) (o : Option (List ℕ)) (fs : Fs) (s : Sched)
    → fd < task_fd_max
    → IsBalanced p s
    → Runs s
    → Leaves (IsBalanced p) (after_read fd o fs s)
unfolding after_read
after_read-Leaves p fd none fs s lt b runs = b
after_read-Leaves p fd (some bs) fs s lt b runs =
    SameFd-IsBalanced p fd s
      (record (s.current.fd_table fd) { offset = u32 ((s.current.fd_table fd).offset + length bs) })
      lt (refl, refl, refl, refl) b runs

-- Whatever `read` comes to without the pipes, the counts of every pipe stay in step.
pub sys_read-Leaves :
    (p fd len : ℕ) (fs : Fs) (s : Sched)
    → IsBalanced p s
    → Runs s
    → Leaves (IsBalanced p) (sys_read fd len fs s)
unfolding sys_read
sys_read-Leaves p fd len fs s b runs =
    let f = s.current.fd_table fd in
    let (got, fs') = alfs_pread f.alfs_idx len f.offset fs in
    Leaves-if (IsBalanced p) (leb task_fd_max fd || not f.used) _ _ (λ _. b)
      (λ lt.
        Leaves-if (IsBalanced p) (f.kind == fd_pipe) _ _ (λ _. tt)
          (λ _.
            Leaves-if (IsBalanced p) (f.kind == fd_file) _ _
              (λ _. after_read-Leaves p fd got fs' s (ground arith) b runs) (λ _. b)))
