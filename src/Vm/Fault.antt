-- ===== src/Vm/Fault.antt =====
-- kernel/fault.c: what the page-fault handler does to the pages and tables. The diagnostic of a fatal
-- fault and the halt after it are the result `false`.
use ali_os.Base.{
  ℕ, ◌+◌, ◌-◌, ◌*◌, ◌/◌, ◌%◌, update, Bool, true, false, not, ◌&&◌, Option, none, some,
  if◌then◌else◌, ◌==◌, leb, ltb,
}
use ali_os.Pmm.{page_size, pmm_alloc, pmm_free, pmm_getref}
use ali_os.Vm.{
  Vm, is_present, is_writable, is_cow, page_write, page_cow, frame_of, dir_index, table_index,
  set_word, paging_map,
}

abbrev pub kernel_virt_base : ℕ
kernel_virt_base = 0xC0000000

-- Bits 0, 1, 2 and 3 of the error code: PF_PRESENT, PF_WRITE, PF_USER and PF_RESERVED.
abbrev pub pf_present : ℕ → Bool
pf_present err = err % 2 == 1

abbrev pub pf_write : ℕ → Bool
pf_write err = err / 2 % 2 == 1

abbrev pub pf_user : ℕ → Bool
pf_user err = err / 4 % 2 == 1

abbrev pub pf_reserved : ℕ → Bool
pf_reserved err = err / 8 % 2 == 1

-- `base_flags | PAGE_WRITE`, of an entry with PAGE_COW set
abbrev pub cow_flags : ℕ → ℕ
cow_flags pte = pte % page_size - page_cow + (if is_writable pte then 0 else page_write)

-- The part of the handler inside the test for a write by user code to a page that is present.
unfoldable pub resolve_cow : ℕ → ℕ → Vm → Bool × Vm
resolve_cow pd cr2 s =
    let pde = s.tables (frame_of pd) (dir_index cr2) in
    let table = frame_of pde in
    let pte = s.tables table (table_index cr2) in
    let old_phys = frame_of pte * page_size in
    let (new_phys, pages) = pmm_alloc s.pages in
    if is_present pde && (is_present pte && is_cow pte)
    then if pmm_getref old_phys s.pages == 1
      then (
        true,
        record s { tables = set_word table (table_index cr2) (old_phys + cow_flags pte) s.tables },
      )
      else if new_phys == 0
      then (false, record s { pages = pages })
      else (
        true,
        record s {
          pages = pmm_free old_phys pages;
          bytes = update s.bytes (frame_of new_phys) (s.bytes (frame_of old_phys));
          tables = set_word table (table_index cr2) (new_phys + cow_flags pte) s.tables;
        },
      )
    else (false, s)

-- `current` is the directory of `current_task`, if there is one.
unfoldable pub page_fault : ℕ → ℕ → Option ℕ → Vm → Bool × Vm
unfolding resolve_cow
page_fault err cr2 current s =
    let (phys, pages) = pmm_alloc s.pages in
    if not (pf_present err)
      && (not (pf_user err) && (not (pf_reserved err) && leb kernel_virt_base cr2))
    then if phys == 0
      then (false, record s { pages = pages })
      else (true, paging_map (frame_of cr2 * page_size) phys 3 (record s { pages = pages }))
    else if pf_present err && (pf_write err && (pf_user err && ltb cr2 kernel_virt_base))
    then elim current [ none ↦ (false, s) | some pd ↦ resolve_cow pd cr2 s ]
    else (false, s)
