-- ===== src/Syscall/Exec.antt =====
-- kernel/syscall.c: `exec` frees the old address space before it makes the new one.
use ali_os.Base.{ℕ, ◌≡◌, refl, true, none, List, ◌==◌}
use ali_os.Vm.{frame_of, uvm_create, uvm_free}
use ali_os.Vm.Free.{Light, Reaches, uvm_free-uvm_create}
use ali_os.Sched.{Sched, sched_exit}
use ali_os.Elf.{Loader}
use ali_os.Syscall.Memory.{sys_exec}

-- If the address space of the caller maps page 0 by entry 0 of the table of its directory's entry 0, and
-- page 0 has one reference or none, then `exec` does not load the program, whatever its name and however
-- many pages are free: the task exits, as at `exit`.
pub sys_exec_exits :
    (uname : List ℕ) (s : Sched) (ld : Loader)
    → Reaches (frame_of s.current.page_dir) 0 0 0 ld.vm
    → Light 0 ld.vm.pages
    → ((sys_exec uname s ld).0 ≡ none) × ((sys_exec uname s ld).1 ≡ sched_exit s)
unfolding sys_exec
sys_exec_exits uname s ld r l =
    let z = (uvm_free-uvm_create s.current.page_dir ld.vm r l).1 in
    let zero : ((uvm_create (uvm_free s.current.page_dir ld.vm)).0 == 0) ≡ true = rw z refl in
    rw zero (refl, refl)
