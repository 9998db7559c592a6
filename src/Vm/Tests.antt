-- ===== src/Vm/Tests.antt =====
-- Runs of the model of kernel/uvm.c, kernel/paging.c and kernel/fault.c, and the theorems at an
-- address space of one page, which another task shares.
use ali_os.Base.{
  ℕ, inl, ◌+◌, ◌*◌, ◌/◌, ◌<◌, ◌≡◌, ◌∙◌, refl, sym, true, false, some, [], ◌∷◌, if◌then◌else◌, ◌==◌,
  arith,
}
use ali_os.Pmm.{Pmm, E820Entry, page_size, page_is_free, pmm_init}
use ali_os.Pmm.Init.{pmm_init_lem}
use ali_os.Pmm.Alloc.{IsValid}
use ali_os.Pmm.Small.{four_free, four_free_at, four_free-IsValid}
use ali_os.Pmm.Fresh.{Pages}
use ali_os.Vm.{
  paging_copy_kernel_mappings, clone_tables, clone_entries, Vm, is_present, entry, uvm_map,
  uvm_create, uvm_free, uvm_clone, clone_entry,
}
use ali_os.Vm.Map.{walk, IsUserIndex, IsSpace}
use ali_os.Vm.Refines.{Maps, uvm_map-Maps}
use ali_os.Vm.Create.{Creates, uvm_create-Creates}
use ali_os.Vm.Clone.{Clones, uvm_clone-Clones}
use ali_os.Vm.Free.{Gone, Reaches, uvm_free-Gone, uvm_free-uvm_create}
use ali_os.Vm.Fault.{page_fault}
use ali_os.Vm.Isolation.{Isolates, uvm_clone-page_fault}
use ali_os.Vm.Cow.{Owned, read_byte, Resolves}
use ali_os.Vm.Resolve.{page_fault-Resolves}

abbrev zeroed : Pmm
zeroed = record { bitmap = λ i. 0; free_count = 0; page_refs = λ p. 0 }

abbrev booted : Pmm
booted = pmm_init (record { base = 0; length = 0x8000000; kind = 1 } ∷ []) 0xC0104000 zeroed

-- Page 5 has two references.
abbrev pages : Pmm
pages = record booted { page_refs = λ p. if p == 5 then 2 else 0 }

abbrev space : Vm
space = record {
  pages = pages;
  tables = λ p i.
      if p == 1
      then (if i == 32 then 0x2007 else if i == 0 then 0x3003 else 0)
      else if p == 2
      then (if i == 0 then 0x5205 else 0)
      else if p == 3
      then i * 4096 + 3
      else 0;
  bytes = λ p k. p;
  kernel_dir = λ i. if i == 0 then 0x3003 else 0;
}

booted_used : (p : ℕ) → p < 256 → page_is_free booted.bitmap p ≡ false
booted_used p h =
    (pmm_init_lem (record { base = 0; length = 0x8000000; kind = 1 } ∷ []) 0xC0104000 zeroed
        (λ i. refl) (λ i. refl)).1
      p h

pages-IsValid : IsValid pages
pages-IsValid =
    let v : IsValid booted =
      (pmm_init_lem (record { base = 0; length = 0x8000000; kind = 1 } ∷ []) 0xC0104000 zeroed
        (λ i. refl) (λ i. refl)).0 in
    record { bytes = v.bytes; counted = v.counted; refs_fit = λ p. ground arith }

pages-Pages : Pages pages
pages-Pages = record { valid = pages-IsValid; zero_used = booted_used 0 (omega arith) }

only_table : (i : ℕ) → IsUserIndex i → is_present (space.tables 1 i) ≡ true → i ≡ 32
only_table i u p = ground arith

space-IsSpace : IsSpace 1 space
space-IsSpace = record {
  pages = pages-Pages;
  dir_used = booted_used 1 (omega arith);
  table_used = λ i u p. rw (only_table i u p) (booted_used 2 (omega arith));
  table_grants = λ i u p. rw (only_table i u p) refl;
  table_ne = λ i u p. rw (only_table i u p) (omega arith);
  table_apart = λ i j ui uj n p q. absurd (n (only_table i ui p ∙ sym (only_table j uj q)));
}

the_page : walk 1 0x8000 space ≡ some 0x5205
unfolding walk
the_page = refl

only_page : (q w : ℕ) → IsUserIndex (q / 1024) → walk 1 q space ≡ some w → w ≡ 0x5205
unfolding walk
only_page q w u h = ground arith

space-Owned : Owned 1 space
space-Owned q w u h =
    rw (only_page q w u h) (omega arith, omega arith, booted_used 5 (omega arith), refl)

uvm_map-Maps_example :
    Maps 1 0x8001 (entry 0x6000 6) space (uvm_map 0x1000 0x8001000 0x6000 6 space)
uvm_map-Maps_example = uvm_map-Maps 0x1000 0x8001000 0x6000 6 space space-IsSpace (omega arith)

uvm_create-Creates_example : Creates space (uvm_create space)
uvm_create-Creates_example = uvm_create-Creates space pages-Pages

page_fault-Resolves_example :
    Resolves 1 0x8000 0x5205 space (page_fault 7 0x8000010 (some 0x1000) space)
page_fault-Resolves_example =
    page_fault-Resolves 7 0x1000 0x8000010 0x5205 space refl refl refl (omega arith) (omega arith)
      space-IsSpace space-Owned the_page refl

identity_page : Reaches 1 0 0 0 space
identity_page = record {
  index = omega arith;
  table_there = refl;
  page_there = refl;
  leads = refl;
  page_lt = omega arith;
}

uvm_free-Gone_example : Gone 7 (uvm_free 0x1000 space).pages
uvm_free-Gone_example =
    uvm_free-Gone 0x1000 0 7 7 space (omega arith)
      (record {
        index = omega arith;
        table_there = refl;
        page_there = refl;
        leads = refl;
        page_lt = omega arith;
      })
      (pages-IsValid, omega arith)

uvm_free-uvm_create_example :
    (page_is_free (uvm_free 0x1000 space).pages.bitmap 0 ≡ true)
    × ((uvm_create (uvm_free 0x1000 space)).0 ≡ 0)
uvm_free-uvm_create_example =
    uvm_free-uvm_create 0x1000 space identity_page (pages-IsValid, omega arith)

-- Directory 1 maps page 5 at 0x8000000, writable; pages 40 to 43 are free.
abbrev parent : Vm
parent = record {
  pages = record four_free { page_refs = λ p. if p == 5 then 1 else 0 };
  tables = λ p i.
      if p == 1
      then (if i == 32 then 0x2007 else 0)
      else if p == 2
      then (if i == 0 then 0x5007 else 0)
      else 0;
  bytes = λ p k. p;
  kernel_dir = λ i. 0;
}

clone_done : (uvm_clone 0x1000 parent).0 ≡ 0x28000
unfolding uvm_clone uvm_create clone_tables clone_entries clone_entry uvm_map ali_os.Pmm.pmm_alloc
    ali_os.Pmm.alloc_from ali_os.Pmm.page_is_free ali_os.Pmm.page_set_free ali_os.Pmm.page_set_used
    ali_os.Pmm.pmm_addref paging_copy_kernel_mappings
clone_done = refl

clone_entry_known : walk 40 0x8000 (uvm_clone 0x1000 parent).1 ≡ some 0x5205
unfolding uvm_clone uvm_create clone_tables clone_entries clone_entry uvm_map ali_os.Pmm.pmm_alloc
    ali_os.Pmm.alloc_from ali_os.Pmm.page_is_free ali_os.Pmm.page_set_free ali_os.Pmm.page_set_used
    ali_os.Pmm.pmm_addref paging_copy_kernel_mappings walk
clone_entry_known = refl

parent_table : (i : ℕ) → IsUserIndex i → is_present (parent.tables 1 i) ≡ true → i ≡ 32
parent_table i u p = ground arith

parent-IsSpace : IsSpace 1 parent
parent-IsSpace = record {
  pages = record {
    valid = record {
      bytes = four_free-IsValid.bytes;
      counted = four_free-IsValid.counted;
      refs_fit = λ p. ground arith;
    };
    zero_used = four_free_at 0;
  };
  dir_used = four_free_at 1;
  table_used = λ i u p. rw (parent_table i u p) (four_free_at 2);
  table_grants = λ i u p. rw (parent_table i u p) refl;
  table_ne = λ i u p. rw (parent_table i u p) (omega arith);
  table_apart = λ i j ui uj n p q. absurd (n (parent_table i ui p ∙ sym (parent_table j uj q)));
}

parent_page : (q w : ℕ) → IsUserIndex (q / 1024) → walk 1 q parent ≡ some w → w ≡ 0x5007
unfolding walk
parent_page q w u h = ground arith

parent-Owned : Owned 1 parent
parent-Owned q w u h = rw (parent_page q w u h) (omega arith, omega arith, four_free_at 5, refl)

uvm_clone-Clones_example : Clones 0x1000 parent (uvm_clone 0x1000 parent)
uvm_clone-Clones_example = uvm_clone-Clones 0x1000 parent parent-IsSpace

uvm_clone-page_fault_example :
    Isolates 40 1 0x8000
      (λ q k. read_byte 1 q k parent)
      (uvm_clone 0x1000 parent).1
      (page_fault 7 0x8000010 (some 0x28000) (uvm_clone 0x1000 parent).1)
uvm_clone-page_fault_example =
    uvm_clone-page_fault 7 0x1000 0x8000010 0x5205 0x28000 0x1000 parent refl refl refl
      (omega arith) (omega arith) parent-IsSpace parent-Owned
      (λ z. absurd (omega (arith, z, clone_done))) (inl (sym clone_done, refl)) clone_entry_known
      refl

map_known : (uvm_map 0x1000 0x8001000 0x6ABC 6 space).1.tables 2 1 ≡ 0x6007
unfolding uvm_map
map_known = refl

-- A writable page becomes PAGE_COW in both tables, with one reference more.
writable : Vm
writable = record space {
  tables =
      λ p i. if p == 1 then 0x2007 else if p == 2 then 0x5007 else if p == 3 then 0x4007 else 0;
}

forked : Vm
unfolding clone_entry uvm_map writable ali_os.Pmm.pmm_addref
forked = (clone_entry 0x3000 2 32 0 writable).1

parent_word : forked.tables 2 0 ≡ 0x5205
unfolding forked
parent_word = refl

child_word : forked.tables 4 0 ≡ 0x5205
unfolding forked
child_word = refl

sole_write :
    (page_fault 7 0x8000010
        (some 0x1000)
        (record space { pages = record zeroed { page_refs = λ p. 1 } })).1.tables
      2 0
    ≡ 0x5007
unfolding page_fault ali_os.Pmm.pmm_getref
sole_write = refl
