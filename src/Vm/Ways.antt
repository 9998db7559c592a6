-- ===== src/Vm/Ways.antt =====
-- `uvm_map` of kernel/uvm.c: the three ways through it.
use ali_os.Base.{ℕ, ◌*◌, ◌/◌, ◌%◌, ◌<◌, ◌≡◌, true, false, ◌==◌, arith}
use ali_os.Pmm.{page_size, pmm_alloc}
use ali_os.Vm.{Vm, is_present, frame_of, entry, dir_index, table_index, set_word, uvm_map}
use ali_os.Vm.Table.{with_table}

-- The three ways through `uvm_map`, at virtual page `v`.
indices :
    (virt : ℕ)
    → (dir_index virt ≡ virt / page_size / 1024) × (table_index virt ≡ virt / page_size % 1024)
indices virt = omega arith

abbrev pub set_in : ℕ → ℕ → ℕ → Vm → Vm
set_in table v w s = record s { tables = set_word table (v % 1024) w s.tables }

pub uvm_map_found :
    (pd virt phys flags : ℕ) (s : Vm)
    → is_present (s.tables (frame_of pd) (virt / page_size / 1024)) ≡ true
    → uvm_map pd virt phys flags s ≡ (
      true,
      set_in
          (frame_of (s.tables (frame_of pd) (virt / page_size / 1024)))
          (virt / page_size)
          (entry phys flags)
          s,
    )
unfolding uvm_map
uvm_map_found pd virt phys flags s e = rw ((indices virt).0, (indices virt).1, e)

pub uvm_map_failed :
    (pd virt phys flags : ℕ) (s : Vm)
    → is_present (s.tables (frame_of pd) (virt / page_size / 1024)) ≡ false
    → (pmm_alloc s.pages).0 ≡ 0
    → uvm_map pd virt phys flags s ≡ (false, record s { pages = (pmm_alloc s.pages).1 })
unfolding uvm_map
uvm_map_failed pd virt phys flags s e f = rw ((indices virt).0, e, f)

pub uvm_map_fresh :
    (pd virt phys flags p : ℕ) (s : Vm)
    → is_present (s.tables (frame_of pd) (virt / page_size / 1024)) ≡ false
    → (pmm_alloc s.pages).0 ≡ p * page_size
    → 0 < p
    → uvm_map pd virt phys flags s ≡ (
      true,
      set_in p
          (virt / page_size)
          (entry phys flags)
          (with_table (frame_of pd) (virt / page_size / 1024) p (pmm_alloc s.pages).1 s),
    )
unfolding uvm_map
uvm_map_fresh pd virt phys flags p s e f lt =
    let z : (p * page_size == 0) ≡ false = ground arith in
    let fr : frame_of (p * page_size) ≡ p = omega arith in
    rw ((indices virt).0, (indices virt).1, e, f, z, fr)
