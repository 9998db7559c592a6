-- ===== src/Syscall/Memory.antt =====
-- kernel/syscall.c: `brk` and `exec`, which change the address space of the current task.
use ali_os.Base.{
  ℕ, zero, suc, ◌+◌, ◌-◌, ◌*◌, ◌/◌, u32, update, take, ℤ, int32, Bool, true, false, ◌||◌, Option,
  none, some, List, if◌then◌else◌, ◌==◌, leb,
}
use ali_os.Pmm.{page_size, pmm_alloc}
use ali_os.Vm.{Vm, frame_of, page_user, page_write, uvm_create, uvm_map, uvm_free}
use ali_os.Sched.{Sched, sched_exit}
use ali_os.Elf.{Loader, elf_load}
use ali_os.Path.{path_resolve}
use ali_os.Syscall.{minus_one, fd_close_one}

-- One round of the loop of `sys_brk`, at address `va`; `false` for its -1. The result of `uvm_map` is
-- not looked at.
unfoldable pub brk_page : ℕ → ℕ → Vm → Bool × Vm
brk_page pd va vm =
    let (phys, pages) = pmm_alloc vm.pages in
    let zeroed = record vm { pages = pages; bytes = update vm.bytes (frame_of phys) (λ k. 0) } in
    if phys == 0
    then (false, record vm { pages = pages })
    else (true, (uvm_map pd va phys (page_user + page_write) zeroed).1)

unfoldable pub brk_pages : ℕ → ℕ → ℕ → Vm → Bool × Vm
brk_pages zero pd va vm = (true, vm)
brk_pages (suc left) pd va vm =
    let (ok, vm') = brk_page pd va vm in
    let rest = brk_pages left pd (va + page_size) vm' in if ok then rest else (false, vm')

-- `(brk + 0xFFF) & ~0xFFF`
abbrev pub page_up : ℕ → ℕ
page_up brk = frame_of (u32 (brk + (page_size - 1))) * page_size

-- The value that the caller gets, and the new state.
unfoldable pub sys_brk : ℕ → Sched → Vm → ℤ × Sched × Vm
sys_brk new_brk s vm =
    let brk = s.current.user_brk in
    let (ok, vm') =
      brk_pages ((page_up new_brk - page_up brk) / page_size) s.current.page_dir (page_up brk) vm in
    if new_brk == 0 || leb new_brk brk
    then (int32 brk, s, vm)
    else if leb 0xBFFF0000 new_brk
    then (minus_one, s, vm)
    else if ok
    then (int32 new_brk, record s { current = record s.current { user_brk = new_brk } }, vm')
    else (minus_one, s, vm')

-- The loop of `sys_exec` that closes descriptors, from `i` on.
unfoldable pub close_from : ℕ → ℕ → Sched → Sched
close_from zero i s = s
close_from (suc left) i s = close_from left (i + 1) (fd_close_one i s)

-- `sys_exec` once the program is loaded at `entry`: its stack, and what the task keeps.
unfoldable pub exec_stack : ℕ → ℕ → Sched → Loader → Option ℕ × Sched × Loader
unfolding close_from
exec_stack new_pd entry s ld =
    let (sp_phys, pages) = pmm_alloc ld.vm.pages in
    let zeroed = record ld.vm {
      pages = pages;
      bytes = update ld.vm.bytes (frame_of sp_phys) (λ k. 0);
    } in
    if sp_phys == 0
    then (none, sched_exit s, record ld { vm = record ld.vm { pages = pages } })
    else (
      some entry,
      close_from 5 3 (record s { current = record s.current { user_brk = 0x10000000 } }),
      record ld { vm = (uvm_map new_pd 0xBFFFF000 sp_phys (page_user + page_write) zeroed).1 },
    )

-- `sys_exec` in the new address space.
unfoldable pub exec_load : ℕ → List ℕ → Sched → Loader → Option ℕ × Sched × Loader
unfolding exec_stack
exec_load new_pd kname s ld =
    let (entry, ld') = elf_load new_pd kname ld in
    elim entry [ none ↦ (none, sched_exit s, ld') | some e ↦ exec_stack new_pd e s ld' ]

-- The entry at which the task goes on, or `none` if it exits. The name is cut off after 63 bytes.
unfoldable pub sys_exec : List ℕ → Sched → Loader → Option ℕ × Sched × Loader
unfolding exec_load
sys_exec uname s ld =
    let kname = path_resolve s.current.cwd (take 63 uname) in
    let (new_pd, vm) = uvm_create (uvm_free s.current.page_dir ld.vm) in
    if new_pd == 0
    then (none, sched_exit s, record ld { vm = vm })
    else exec_load new_pd kname (record s { current = record s.current { page_dir = new_pd } })
        (record ld { vm = vm })
