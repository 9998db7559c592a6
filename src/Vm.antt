-- ===== src/Vm.antt =====
-- kernel/uvm.c and kernel/paging.c: page directories and page tables. A pointer to a table is the
-- address of its page, as the code's identity map has it. A page holds either the 1024 words of a
-- table (`tables`, by page and index) or the 4096 bytes of user data (`bytes`, by page and offset);
-- the code clears or fills every page before it uses it as the one or the other. These are two
-- memories: what the handler or the loader would do to a table through a page of user data, or the other
-- way round, is not modelled. Every page below 65536 can be reached by its address, where the code's
-- identity map ends at 128 MB, page 32768.
pub mod Map
pub mod Table
pub mod Ways
pub mod Refines
pub mod Pair
pub mod Forks
pub mod Share
pub mod Loops
pub mod Image
pub mod Start
pub mod Clone
pub mod Free
pub mod Create
pub mod Fault
pub mod Cow
pub mod Resolve
pub mod Isolation
mod Tests
use ali_os.Base.{
  ℕ, zero, suc, ◌+◌, ◌-◌, ◌*◌, ◌/◌, ◌%◌, ◌^◌, update, Bool, true, false, not, ◌&&◌, ◌||◌, Option,
  none, some, if◌then◌else◌, ◌==◌, ltb, leb,
}
use ali_os.Pmm.{Pmm, page_size, pmm_alloc, pmm_free, pmm_addref}

-- The pages of kernel/pmm.c, what lies in them, and the kernel's own `page_dir`.
pub record Vm : Type 0 where
  pub pages : Pmm
  pub tables : ℕ → ℕ → ℕ
  pub bytes : ℕ → ℕ → ℕ
  pub kernel_dir : ℕ → ℕ

-- PAGE_PRESENT is bit 0, PAGE_WRITE bit 1, PAGE_USER bit 2 and PAGE_COW bit 9.
abbrev pub is_present : ℕ → Bool
is_present w = w % 2 == 1

abbrev pub is_writable : ℕ → Bool
is_writable w = w / 2 % 2 == 1

abbrev pub is_user : ℕ → Bool
is_user w = w / 4 % 2 == 1

abbrev pub is_cow : ℕ → Bool
is_cow w = w / 512 % 2 == 1

abbrev pub page_write : ℕ
page_write = 2

abbrev pub page_user : ℕ
page_user = 4

abbrev pub page_cow : ℕ
page_cow = 512

-- The page that an entry, or an address, points to: `w & ~0xFFF` is `frame_of w * page_size`.
abbrev pub frame_of : ℕ → ℕ
frame_of w = w / page_size

-- `(phys & ~0xFFF) | (flags | PAGE_PRESENT)`, for flags below bit 12
abbrev pub entry : ℕ → ℕ → ℕ
entry phys flags = frame_of phys * page_size + (if is_present flags then flags else flags + 1)

-- `virt >> 22` and `(virt >> 12) & 0x3FF`
abbrev pub dir_index : ℕ → ℕ
dir_index virt = virt / 2 ^ 22

abbrev pub table_index : ℕ → ℕ
table_index virt = virt / 2 ^ 12 % 1024

-- `table[i] = w` in page `p`
abbrev pub set_word : ℕ → ℕ → ℕ → (ℕ → ℕ → ℕ) → ℕ → ℕ → ℕ
set_word p i w tables = update tables p (update (tables p) i w)

-- The entries that `paging_copy_kernel_mappings` copies.
abbrev pub is_kernel_index : ℕ → Bool
is_kernel_index i = ltb i 32 || (leb 768 i && ltb i 800)

unfoldable pub paging_copy_kernel_mappings : ℕ → Vm → Vm
paging_copy_kernel_mappings dst s = record s {
  tables =
      update s.tables (frame_of dst)
        (λ i. if is_kernel_index i then s.kernel_dir i else s.tables (frame_of dst) i);
}

-- `pt[i] = 0` for all entries
abbrev pub clear_table : ℕ → Vm → Vm
clear_table p s = record s { tables = update s.tables p (λ i. 0) }

-- 0 for NULL.
unfoldable pub uvm_create : Vm → ℕ × Vm
unfolding paging_copy_kernel_mappings
uvm_create s =
    let (phys, pages) = pmm_alloc s.pages in
    let s' = record s { pages = pages } in
    if phys == 0
    then (0, s')
    else (phys, paging_copy_kernel_mappings phys (clear_table (frame_of phys) s'))

-- The end of `uvm_map`, once the page of the table is known.
abbrev pub set_entry : ℕ → ℕ → ℕ → ℕ → Vm → Vm
set_entry table virt phys flags s = record s {
  tables = set_word table (table_index virt) (entry phys flags) s.tables;
}

-- `false` for -1.
unfoldable pub uvm_map : ℕ → ℕ → ℕ → ℕ → Vm → Bool × Vm
uvm_map pd virt phys flags s =
    let pde = s.tables (frame_of pd) (dir_index virt) in
    let (pt_phys, pages) = pmm_alloc s.pages in
    let s' = clear_table (frame_of pt_phys) (record s { pages = pages }) in
    if is_present pde
    then (true, set_entry (frame_of pde) virt phys flags s)
    else if pt_phys == 0
    then (false, record s { pages = pages })
    else (
      true,
      set_entry (frame_of pt_phys) virt phys flags
          (record s' { tables = set_word (frame_of pd) (dir_index virt) (pt_phys + 7) s'.tables }),
    )

-- `paging_map`, the same over the kernel's directory; it does nothing if there is no page.
unfoldable pub paging_map : ℕ → ℕ → ℕ → Vm → Vm
paging_map virt phys flags s =
    let pde = s.kernel_dir (dir_index virt) in
    let (pt_phys, pages) = pmm_alloc s.pages in
    let s' = clear_table (frame_of pt_phys) (record s { pages = pages }) in
    if is_present pde
    then set_entry (frame_of pde) virt phys flags s
    else if pt_phys == 0
    then record s { pages = pages }
    else set_entry (frame_of pt_phys) virt phys flags
        (record s' { kernel_dir = update s'.kernel_dir (dir_index virt) (pt_phys + 3) })

-- The loops of `paging_init` from directory entry `i` on: the tables of the identity map (`base` 0) or
-- of the kernel's half (`base` 768), and whether there were pages enough.
unfoldable pub map_region : ℕ → ℕ → ℕ → Vm → Bool × Vm
map_region zero i base s = (true, s)
map_region (suc left) i base s =
    let (pt_phys, pages) = pmm_alloc s.pages in
    let rest = map_region left (i + 1) base (record s {
      pages = pages;
      tables = update s.tables (frame_of pt_phys) (λ j. i * 2 ^ 22 + j * 2 ^ 12 + 3);
      kernel_dir = update s.kernel_dir (base + i) (pt_phys + 3);
    }) in
    if pt_phys == 0 then (false, record s { pages = pages }) else rest

unfoldable pub paging_init : Vm → Vm
unfolding map_region
paging_init s =
    let (ok, s') = map_region 32 0 0 (record s { kernel_dir = λ i. 0 }) in
    if ok then (map_region 32 0 768 s').1 else s'

-- One round of the inner loop of `uvm_free`, at entry `j` of table `p`.
unfoldable pub free_entry : ℕ → ℕ → Vm → Vm
free_entry j p s =
    let pte = s.tables p j in
    if is_present pte then record s { pages = pmm_free (frame_of pte * page_size) s.pages } else s

-- The inner loop from entry `j` on, with `left` rounds left.
unfoldable pub free_entries : ℕ → ℕ → ℕ → Vm → Vm
free_entries zero j p s = s
free_entries (suc left) j p s = free_entries left (j + 1) p (free_entry j p s)

-- One round of the outer loop, at entry `i` of directory `dir`.
unfoldable pub free_table : ℕ → ℕ → Vm → Vm
unfolding free_entries
free_table dir i s =
    let pde = s.tables dir i in
    let s' = free_entries 1024 0 (frame_of pde) s in
    if is_present pde then record s' { pages = pmm_free (frame_of pde * page_size) s'.pages } else s

unfoldable pub free_tables : ℕ → ℕ → ℕ → Vm → Vm
free_tables zero i dir s = s
free_tables (suc left) i dir s = free_tables left (i + 1) dir (free_table dir i s)

unfoldable pub uvm_free : ℕ → Vm → Vm
uvm_free pd s =
    let s' = free_tables 768 0 (frame_of pd) s in record s' { pages = pmm_free pd s'.pages }

-- One round of the inner loop of `uvm_clone`: entry `j` of the table in page `src`, which is entry `i`
-- of the parent's directory.
unfoldable pub clone_entry : ℕ → ℕ → ℕ → ℕ → Vm → Bool × Vm
clone_entry dst src i j s =
    let pte = s.tables src j in
    let phys = frame_of pte * page_size in
    let user = if is_user pte then page_user else 0 in
    let cow = if is_cow pte then page_cow else 0 in
    let virt = i * 2 ^ 22 + j * 2 ^ 12 in
    let s' =
      if is_writable pte
      then record s { tables = set_word src j (phys + (1 + page_user + page_cow)) s.tables }
      else s in
    let flags = if is_writable pte then page_user + page_cow else user + cow in
    if is_present pte
    then uvm_map dst virt phys flags (record s' { pages = pmm_addref phys s'.pages })
    else (true, s)

-- The loops; the flag is `false` as soon as a round fails.
unfoldable pub clone_entries : ℕ → ℕ → ℕ → ℕ → ℕ → Vm → Bool × Vm
clone_entries zero j dst src i s = (true, s)
clone_entries (suc left) j dst src i s =
    let (ok, s') = clone_entry dst src i j s in
    let rest = clone_entries left (j + 1) dst src i s' in if ok then rest else (false, s')

unfoldable pub clone_tables : ℕ → ℕ → ℕ → ℕ → Vm → Bool × Vm
clone_tables zero i dst src_dir s = (true, s)
clone_tables (suc left) i dst src_dir s =
    let pde = s.tables src_dir i in
    let (ok, s') =
      if is_present pde then clone_entries 1024 0 dst (frame_of pde) i s else (true, s) in
    let rest = clone_tables left (i + 1) dst src_dir s' in if ok then rest else (false, s')

-- 0 for NULL. The flush of the processor's table cache is not modelled.
unfoldable pub uvm_clone : ℕ → Vm → ℕ × Vm
uvm_clone src_pd s =
    let (dst_pd, s') = uvm_create s in
    let (ok, s'') = clone_tables 736 32 dst_pd (frame_of src_pd) s' in
    if dst_pd == 0 then (0, s') else if ok then (dst_pd, s'') else (0, uvm_free dst_pd s'')
