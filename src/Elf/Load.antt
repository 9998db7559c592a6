-- ===== src/Elf/Load.antt =====
-- kernel/elf.c: one page of a segment in the new program's address space.
use ali_os.Base.{
  ℕ, ◌+◌, ◌*◌, ◌/◌, ◌%◌, ◌≤◌, ◌<◌, ◌≡◌, ◌≢◌, ◌⊎◌, ◌∙◌, refl, ap, update, update_self, update_ne, ℤ,
  Bool, true, false, Option, some, if◌then◌else◌, ◌==◌, inl, inr, Bool-cases, arith,
}
use ali_os.Pmm.{Pmm, page_size, page_is_free, pmm_alloc}
use ali_os.Pmm.Alloc.{pmm_alloc-count}
use ali_os.Pmm.Fresh.{Pages, pmm_alloc-Grown}
use ali_os.Vm.{Vm, is_user, is_writable, is_cow, frame_of, entry, uvm_map}
use ali_os.Vm.Map.{walk, IsUserIndex, IsSpace, mapped}
use ali_os.Vm.Refines.{IsNoTable, with_pages, uvm_map-Maps}
use ali_os.Ata.Sectors.{Failed}
use ali_os.Alfs.{Fs, Dirent, entry_at}
use ali_os.Elf.{Phdr, pte_flags, copy_page, load_page}
use ali_os.Elf.Page.{image, IsPlain, Copies, copy_page-Copies}

-- What `elf_load` does for the page at virtual page `v`.
pub record Loads (dir v : ℕ) (e : Dirent) (ph : Phdr) (va : ℕ) (vm : Vm) (fs : Fs)
    (out : Bool × Vm × Fs) : Type 0 where
  pub space : IsSpace dir out.1
  pub loaded :
      out.0 ≡ true
      → (w : ℕ) × (walk dir v out.1 ≡ some w)
        × (is_user w ≡ true)
        × (is_writable w ≡ (ph.flags / 2 % 2 == 1))
        × (is_cow w ≡ false)
        × (page_is_free vm.pages.bitmap (frame_of w) ≡ true)
        × ((k : ℕ) → k < page_size → out.1.bytes (frame_of w) k ≡ image e ph va fs k)
  pub others : (q : ℕ) → IsUserIndex (q / 1024) → q ≢ v → walk dir q out.1 ≡ walk dir q vm
  pub kept : (q : ℕ) → page_is_free vm.pages.bitmap q ≡ false → out.1.bytes q ≡ vm.bytes q
  -- Nor do the words of a page in use, unless it is the directory or a table of it.
  pub kept_words :
      (q : ℕ)
      → page_is_free vm.pages.bitmap q ≡ false
      → q ≢ dir
      → IsNoTable dir q vm
      → out.1.tables q ≡ vm.tables q
  pub failed : out.0 ≡ false → (vm.pages.free_count ≤ 1) ⊎ Failed fs.drive

abbrev pub zeroed : ℕ → Vm → Vm
zeroed p vm = record vm { pages = (pmm_alloc vm.pages).1; bytes = update vm.bytes p (λ k. 0) }

abbrev finish : ℕ → Phdr → ℕ → ℕ → Bool × Vm × Fs → Bool × Vm × Fs
finish pd ph va p c =
    if c.0
    then (
      (uvm_map pd va (p * page_size) (pte_flags ph) c.1).0,
      (uvm_map pd va (p * page_size) (pte_flags ph) c.1).1,
      c.2,
    )
    else (false, c.1, c.2)

load_page_fresh :
    (idx : ℤ) (pd : ℕ) (ph : Phdr) (va p : ℕ) (vm : Vm) (fs : Fs)
    → (pmm_alloc vm.pages).0 ≡ p * page_size
    → 0 < p
    → load_page idx pd ph va vm fs ≡ finish pd ph va p (copy_page idx ph va p (zeroed p vm) fs)
unfolding load_page
load_page_fresh idx pd ph va p vm fs e lt =
    let z : (p * page_size == 0) ≡ false = ground arith in
    let fr : frame_of (p * page_size) ≡ p = omega arith in rw (e, z, fr)

load_page_failed :
    (idx : ℤ) (pd : ℕ) (ph : Phdr) (va : ℕ) (vm : Vm) (fs : Fs)
    → (pmm_alloc vm.pages).0 ≡ 0
    → load_page idx pd ph va vm fs ≡ (false, record vm { pages = (pmm_alloc vm.pages).1 }, fs)
unfolding load_page
load_page_failed idx pd ph va vm fs e = rw e

entry_bits :
    (p : ℕ) (ph : Phdr)
    → (is_user (entry (p * page_size) (pte_flags ph)) ≡ true)
      × (is_writable (entry (p * page_size) (pte_flags ph)) ≡ (ph.flags / 2 % 2 == 1))
      × (is_cow (entry (p * page_size) (pte_flags ph)) ≡ false)
      × (frame_of (entry (p * page_size) (pte_flags ph)) ≡ p)
entry_bits p ph = ground arith

pub mapped_self : (m : ℕ → Option ℕ) (v w : ℕ) → mapped m v w v ≡ some w
mapped_self m v w = ground arith

pub mapped_ne : (m : ℕ → Option ℕ) (v w q : ℕ) → q ≢ v → mapped m v w q ≡ m q
mapped_ne m v w q n = ground (arith, n)

-- The walk sees the tables alone.
pub walk_tables : (dir q : ℕ) (s s' : Vm) → s'.tables ≡ s.tables → walk dir q s' ≡ walk dir q s
unfolding walk
walk_tables dir q s s' e = rw e

pub IsSpace-tables :
    (dir : ℕ) (s s' : Vm)
    → s'.tables ≡ s.tables
    → s'.pages ≡ s.pages
    → IsSpace dir s
    → IsSpace dir s'
IsSpace-tables dir s s' e f sp = record {
  pages = rw f sp.pages;
  dir_used = rw f sp.dir_used;
  table_used = λ i u. rw (e, f) (sp.table_used i u);
  table_grants = λ i u. rw e (sp.table_grants i u);
  table_ne = λ i u. rw e (sp.table_ne i u);
  table_apart = λ i j ui uj n. rw e (sp.table_apart i j ui uj n);
}

module _ (pd p : ℕ) (e : Dirent) (ph : Phdr) (va : ℕ) (vm : Vm) (fs : Fs)
    (sp : IsSpace (frame_of pd) vm) (uv : IsUserIndex (va / page_size / 1024))
    (free : page_is_free vm.pages.bitmap p ≡ true)
    (kept_pages : (q : ℕ)
      → page_is_free vm.pages.bitmap q ≡ false
      → page_is_free (pmm_alloc vm.pages).1.bitmap q ≡ false)
    (pages : Pages (pmm_alloc vm.pages).1)
    (count : (pmm_alloc vm.pages).1.free_count + 1 ≡ vm.pages.free_count) where
  zeroed-IsSpace : IsSpace (frame_of pd) (zeroed p vm)
  zeroed-IsSpace =
      IsSpace-tables (frame_of pd) (record vm { pages = (pmm_alloc vm.pages).1 }) (zeroed p vm) refl
        refl (with_pages (frame_of pd) vm (pmm_alloc vm.pages).1 sp pages kept_pages)

  -- The rest of the round, after the copy.
  finish-Loads :
      (c : Bool × Vm × Fs)
      → Copies e ph va p (zeroed p vm) fs c
      → Loads (frame_of pd) (va / page_size) e ph va vm fs (finish pd ph va p c)
  finish-Loads (false, vm', fs') c = record {
    space =
        IsSpace-tables (frame_of pd) (zeroed p vm) vm' c.same_tables c.same_pages zeroed-IsSpace;
    loaded = λ h. absurd (cc h);
    others = λ q u n. walk_tables (frame_of pd) q vm vm' c.same_tables;
    kept = λ q u.
        let n : p ≢ q = λ h. cc (ap (page_is_free vm.pages.bitmap) h, free, u) in
        c.others q n ∙ update_ne vm.bytes p q (λ k. 0) n;
    kept_words = λ q u n t. ap (λ (t : ℕ → ℕ → ℕ). t q) c.same_tables;
    failed = λ h. inr (c.failed h);
  }
  finish-Loads (true, vm', fs') c =
      let w = entry (p * page_size) (pte_flags ph) in
      let (b0, b1, b2, b3) = entry_bits p ph in
      let sp' : IsSpace (frame_of pd) vm' =
        IsSpace-tables (frame_of pd) (zeroed p vm) vm' c.same_tables c.same_pages zeroed-IsSpace in
      let m = uvm_map-Maps pd va (p * page_size) (pte_flags ph) vm' sp' uv in
      let out = uvm_map pd va (p * page_size) (pte_flags ph) vm' in
      let same : (q : ℕ) → walk (frame_of pd) q vm' ≡ walk (frame_of pd) q vm =
        λ q. walk_tables (frame_of pd) q vm vm' c.same_tables in
      record {
        space = m.space;
        loaded = λ h. (
          w,
          m.done h (va / page_size) uv
              ∙ mapped_self (λ u. walk (frame_of pd) u vm') (va / page_size) w,
          b0,
          b1,
          b2,
          rw b3 free,
          λ k lt. rw b3 (ap (λ (t : ℕ → ℕ → ℕ). t p k) m.same_bytes ∙ c.filled refl k lt),
        );
        others = λ q u n. elim (Bool-cases out.0) [
          | inl ok ↦
              m.done ok q u
              ∙ mapped_ne (λ t. walk (frame_of pd) t vm') (va / page_size) w q n
              ∙ same q
          | inr no_page ↦ (m.failed no_page).1 q ∙ same q
        ];
        kept = λ q u.
            let n : p ≢ q = λ h. cc (ap (page_is_free vm.pages.bitmap) h, free, u) in
            ap (λ (t : ℕ → ℕ → ℕ). t q) m.same_bytes
            ∙ c.others q n
            ∙ update_ne vm.bytes p q (λ k. 0) n;
        kept_words = λ q u n t.
            m.elsewhere q (rw (ap (λ (s : Pmm). s.bitmap) c.same_pages) (kept_pages q u)) n
              (rw c.same_tables t)
            ∙ ap (λ (t : ℕ → ℕ → ℕ). t q) c.same_tables;
        failed = λ h.
            let same_count : vm'.pages.free_count ≡ (pmm_alloc vm.pages).1.free_count =
              ap (λ (s : Pmm). s.free_count) c.same_pages in
            inl (omega (arith, (m.failed h).0, same_count, count));
      }

-- One round of `elf_load` for a page of the user's half, of a segment whose addresses and offsets
-- do not wrap, of a file in use whose extent fits on the disk. On success the page is mapped for
-- the user, writable exactly if the segment is, to a page that was free, and holds the file's bytes
-- where the segment has them and 0 elsewhere. It fails only if at most one page was free or the
-- drive failed. Either way the other pages of the user's half keep their entries, no byte of user
-- data on a page that was in use changes, no word of such a page either unless it is the directory
-- or one of its tables, and the tables stay an address space, whose directory leaves the rights to
-- the entries of its tables.
pub load_page-Loads :
    (idx : ℤ) (pd : ℕ) (e : Dirent) (ph : Phdr) (va : ℕ) (vm : Vm) (fs : Fs)
    → IsSpace (frame_of pd) vm
    → IsUserIndex (va / page_size / 1024)
    → entry_at idx fs ≡ some e
    → IsPlain e ph va
    → Loads (frame_of pd) (va / page_size) e ph va vm fs (load_page idx pd ph va vm fs)
load_page-Loads idx pd e ph va vm fs sp uv found pl =
    let g = pmm_alloc-Grown vm.pages sp.pages in
    elim g.outcome [
      | inl (z, _) ↦ rw (load_page_failed idx pd ph va vm fs z) (record {
        space = with_pages (frame_of pd) vm (pmm_alloc vm.pages).1 sp g.pages g.kept;
        loaded = λ h. absurd (cc h);
        others = λ q u n. walk_tables (frame_of pd) q vm _ refl;
        kept = λ q u. refl;
        kept_words = λ q u n t. refl;
        failed = λ _.
            inl (omega (arith, (pmm_alloc-count vm.pages sp.pages.valid sp.pages.zero_used).0.0 z));
      })
      | inr (p, h, lt, _, free, _, count) ↦ rw (load_page_fresh idx pd ph va p vm fs h lt) (
          finish-Loads pd p e ph va vm fs sp uv free g.kept g.pages count
            (copy_page idx ph va p (zeroed p vm) fs)
            (copy_page-Copies idx e ph va p (zeroed p vm) fs found pl
              (update_self vm.bytes p (λ k. 0))))
    ]
