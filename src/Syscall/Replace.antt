-- ===== src/Syscall/Replace.antt =====
-- kernel/syscall.c: `open_w` and `exec` keep the pipes' end counts in step with the descriptors.
use ali_os.Base.{
  ℕ, ◌+◌, ◌<◌, ◌≡◌, refl, ℤ, pos, Bool, true, false, List, if◌then◌else◌, Option, none, some, arith,
}
use ali_os.Task.{task_fd_max}
use ali_os.Pipe.{pipe_max}
use ali_os.Sched.{Sched}
use ali_os.Alfs.{Fs, alfs_find, alfs_size}
use ali_os.Alfs.Writing.{alfs_write}
use ali_os.Pmm.{pmm_alloc}
use ali_os.Vm.{uvm_create, uvm_free}
use ali_os.Elf.{Loader, elf_load}
use ali_os.Syscall.Memory.{close_from, exec_load, exec_stack, sys_exec}
use ali_os.Syscall.{fd_close_one}
use ali_os.Syscall.Tasks.{kept-IsBalanced, AllKeep-self}
use ali_os.Syscall.Fds.{fd_close_one-IsBalanced}
use ali_os.Task.{Task, is_zombie, fd_pipe}
use ali_os.Base.{zero, suc, ◌≤◌, take, ◌∙◌, ap, sym, ◌==◌}
use ali_os.Path.{path_resolve}
use ali_os.Syscall.{minus_one, unused_from}
use ali_os.Syscall.Ends.{IsBalanced}
use ali_os.Syscall.Fds.{Runs, install_file-IsBalanced, unused_from_lem}
use ali_os.Syscall.Exits.{sched_exit-IsBalanced}
use ali_os.Syscall.Files.{sys_open_w, open_entry}
use ali_os.Base.{◌==◌, ◌∙◌, ap, sym}

-- A property of both ways on from an optional number.
by_option {ℓ} :
    {A : Type ℓ} (P : A → Type 0) (o : Option ℕ) (x : A) (f : ℕ → A)
    → (o ≡ none → P x)
    → ((i : ℕ) → o ≡ some i → P (f i))
    → P (elim o as (λ _. A) [ none ↦ x | some i ↦ f i ])
by_option P none x f a b = a refl
by_option P (some i) x f a b = b i refl

by_test {ℓ} :
    {A : Type ℓ} (P : A → Type 0) (t : Bool) (x y : A) → P x → P y → P (if t then x else y)
by_test P true x y a b = a
by_test P false x y a b = b

module _ (p fd : ℕ) (s : Sched) (lt : fd < task_fd_max) (u : (s.current.fd_table fd).used ≡ false)
    (b : IsBalanced p s) (runs : Runs s) where
  open_entry-IsBalanced :
      (resolved : List ℕ) (off : ℕ) (fs : Fs) → IsBalanced p (open_entry resolved fd off fs s).2
  unfolding open_entry
  open_entry-IsBalanced resolved off fs =
      by_option (λ (out : ℤ × Fs × Sched). IsBalanced p out.2) (alfs_find resolved fs) _ _ (λ _. b)
        (λ idx _. install_file-IsBalanced p fd idx off s lt u b runs)

pub sys_open_w-IsBalanced :
    (p : ℕ) (name : List ℕ) (append : Bool) (fs : Fs) (s : Sched)
    → IsBalanced p s
    → Runs s
    → IsBalanced p (sys_open_w name append fs s).2
unfolding sys_open_w
sys_open_w-IsBalanced p name append fs s b runs =
    let resolved = path_resolve s.current.cwd name in
    let P = λ (out : ℤ × Fs × Sched). IsBalanced p out.2 in
    let (emptied, fs') = alfs_write resolved (λ i. 0) 0 fs in
    by_option P (unused_from 5 3 s.current.fd_table) _ _ (λ _. b)
      (λ fd e.
        let l = unused_from_lem 5 3 fd s.current.fd_table e in
        let opened = open_entry-IsBalanced p fd s (omega (arith, l.1)) l.2 b runs resolved in
        let fresh =
          by_option P emptied (minus_one, fs', s) (λ n. open_entry resolved fd 0 fs' s) (λ _. b)
            (λ n _. opened 0 fs') in
        by_test P append _ _
          (by_option P (alfs_find resolved fs) _ _ (λ _. fresh)
            (λ i _. opened (alfs_size (pos i) fs) fs))
          fresh)

fd_close_one-Runs : (i : ℕ) (s : Sched) → Runs s → Runs (fd_close_one i s)
unfolding fd_close_one
fd_close_one-Runs i s r =
    by_test Runs (s.current.fd_table i).used _ _
      (by_test Runs ((s.current.fd_table i).kind == fd_pipe) _ _ r r) r

close_from-IsBalanced :
    (p left i : ℕ) (s : Sched)
    → p < pipe_max
    → i + left ≤ task_fd_max
    → IsBalanced p s
    → Runs s
    → IsBalanced p (close_from left i s)
unfolding close_from
close_from-IsBalanced p zero i s lt fits b r = b
close_from-IsBalanced p (suc left) i s lt fits b r =
    close_from-IsBalanced p left (i + 1) (fd_close_one i s) lt (omega arith)
      (fd_close_one-IsBalanced p i s lt (omega arith) b r) (fd_close_one-Runs i s r)

-- The current task with the same descriptors and the same state.
same_current :
    (p : ℕ) (s : Sched) (t : Task)
    → t.fd_table ≡ s.current.fd_table
    → t.state ≡ s.current.state
    → IsBalanced p s
    → IsBalanced p (record s { current = t })
same_current p s t e f b =
    kept-IsBalanced p s (record s { current = t }) refl
      ((e, λ z. ap is_zombie (sym f) ∙ z), AllKeep-self s.others) b

exec_load-IsBalanced :
    (p new_pd : ℕ) (kname : List ℕ) (s : Sched) (ld : Loader)
    → p < pipe_max
    → IsBalanced p s
    → Runs s
    → IsBalanced p (exec_load new_pd kname s ld).1
unfolding exec_load exec_stack
exec_load-IsBalanced p new_pd kname s ld lt b r =
    let ld' = (elf_load new_pd kname ld).1 in
    let s' = record s { current = record s.current { user_brk = 0x10000000 } } in
    let P = λ (out : Option ℕ × Sched × Loader). IsBalanced p out.1 in
    by_option P (elf_load new_pd kname ld).0 _ _ (λ _. sched_exit-IsBalanced p s lt b)
      (λ e _. by_test P ((pmm_alloc ld'.vm.pages).0 == 0) _ _ (sched_exit-IsBalanced p s lt b) (
        close_from-IsBalanced p 5 3 s' lt (omega arith) (same_current p s s'.current refl refl b)
          r))

pub sys_exec-IsBalanced :
    (p : ℕ) (uname : List ℕ) (s : Sched) (ld : Loader)
    → p < pipe_max
    → IsBalanced p s
    → Runs s
    → IsBalanced p (sys_exec uname s ld).1
unfolding sys_exec
sys_exec-IsBalanced p uname s ld lt b r =
    let out = uvm_create (uvm_free s.current.page_dir ld.vm) in
    let s' = record s { current = record s.current { page_dir = out.0 } } in
    by_test (λ (o : Option ℕ × Sched × Loader). IsBalanced p o.1) (out.0 == 0) _ _
      (sched_exit-IsBalanced p s lt b)
      (exec_load-IsBalanced p out.0 (path_resolve s.current.cwd (take 63 uname)) s'
        (record ld { vm = out.1 }) lt (same_current p s s'.current refl refl b) r)
