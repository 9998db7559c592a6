-- ===== src/Vm/Create.antt =====
-- `uvm_create` of kernel/uvm.c: the address space it makes.
use ali_os.Base.{
  ℕ, ◌⊎◌, ◌≤◌, ◌∙◌, ◌*◌, ◌/◌, ◌<◌, ◌≡◌, ◌≢◌, refl, ap, update, true, false, none, if◌then◌else◌,
  ◌==◌, inl, inr, arith,
}
use ali_os.Pmm.{page_size, page_is_free, pmm_alloc}
use ali_os.Pmm.Alloc.{pmm_alloc-count}
use ali_os.Pmm.Fresh.{Pages, pmm_alloc-Grown}
use ali_os.Vm.{Vm, is_present, frame_of, is_kernel_index, uvm_create}
use ali_os.Vm.Refines.{alloc_refs}
use ali_os.Vm.Map.{walk, walk_absent, IsUserIndex, IsSpace}

-- What a call of `uvm_create` gives: no page, or a directory with nothing in the user's half.
pub record Creates (s : Vm) (out : ℕ × Vm) : Type 0 where
  pub failed : out.0 ≡ 0 → s.pages.free_count ≡ 0
  pub space : out.0 ≢ 0 → IsSpace (frame_of out.0) out.1
  pub empty : out.0 ≢ 0 → (v : ℕ) → IsUserIndex (v / 1024) → walk (frame_of out.0) v out.1 ≡ none
  pub shares_kernel :
      out.0 ≢ 0
      → (i : ℕ) → (i < 32) ⊎ ((768 ≤ i) × (i < 800))
      → out.1.tables (frame_of out.0) i ≡ s.kernel_dir i
  pub others : (p : ℕ) → page_is_free s.pages.bitmap p ≡ false → out.1.tables p ≡ s.tables p
  pub same_bytes : out.1.bytes ≡ s.bytes
  pub in_use :
      (p : ℕ) → page_is_free s.pages.bitmap p ≡ false → page_is_free out.1.pages.bitmap p ≡ false
  pub same_refs :
      (p : ℕ)
      → page_is_free s.pages.bitmap p ≡ false
      → out.1.pages.page_refs p ≡ s.pages.page_refs p
  pub was_free : out.0 ≢ 0 → page_is_free s.pages.bitmap (frame_of out.0) ≡ true
  pub no_tables :
      out.0 ≢ 0 → (i : ℕ) → IsUserIndex i → is_present (out.1.tables (frame_of out.0) i) ≡ false

-- The state after page `p` became the directory.
abbrev created : ℕ → Vm → Vm
created p s = record s {
  pages = (pmm_alloc s.pages).1;
  tables =
      update (update s.tables p (λ i. 0)) p
        (λ i. if is_kernel_index i then s.kernel_dir i else update s.tables p (λ i. 0) p i);
}

uvm_create_fresh :
    (p : ℕ) (s : Vm)
    → (pmm_alloc s.pages).0 ≡ p * page_size
    → 0 < p
    → uvm_create s ≡ (p * page_size, created p s)
unfolding uvm_create
uvm_create_fresh p s e lt =
    let z : (p * page_size == 0) ≡ false = ground arith in
    let fr : frame_of (p * page_size) ≡ p = omega arith in rw (e, z, fr)

uvm_create_failed :
    (s : Vm)
    → (pmm_alloc s.pages).0 ≡ 0
    → uvm_create s ≡ (0, record s { pages = (pmm_alloc s.pages).1 })
unfolding uvm_create
uvm_create_failed s e = rw e

created_at :
    (p i : ℕ) (s : Vm)
    → (created p s).tables p i ≡ (if is_kernel_index i then s.kernel_dir i else 0)
created_at p i s = ground arith

kernel_index : (i : ℕ) → (i < 32) ⊎ ((768 ≤ i) × (i < 800)) → is_kernel_index i ≡ true
kernel_index i (inl l) = ground arith
kernel_index i (inr (l, h)) = ground arith

created_user : (p i : ℕ) (s : Vm) → IsUserIndex i → is_present ((created p s).tables p i) ≡ false
created_user p i s u = ground (arith, created_at p i s)

created_ne : (p q : ℕ) (s : Vm) → p ≢ q → (created p s).tables q ≡ s.tables q
created_ne p q s n = ground (arith, n)

-- Over valid pages, `uvm_create` fails only if the counter of free pages is 0. Otherwise the
-- directory it makes is an address space that maps nothing in the user's half and whose entries 0 to
-- 31 and 768 to 799 are the kernel's. No page that was in use changes,
-- becomes free or loses a reference, no user data changes, and the directory is a page that was free.
pub uvm_create-Creates : (s : Vm) → Pages s.pages → Creates s (uvm_create s)
uvm_create-Creates s v =
    let g = pmm_alloc-Grown s.pages v in
    elim g.outcome [
      | inl (z, _) ↦ rw (uvm_create_failed s z) (record {
        failed = λ _. (pmm_alloc-count s.pages v.valid v.zero_used).0.0 z;
        space = λ n. absurd (n refl);
        empty = λ n. absurd (n refl);
        shares_kernel = λ n. absurd (n refl);
        others = λ p u. refl;
        same_bytes = refl;
        in_use = g.kept;
        same_refs = alloc_refs s.pages;
        was_free = λ n. absurd (n refl);
        no_tables = λ n. absurd (n refl);
      })
      | inr (p, e, lt, _, free, used, _) ↦
          let fr : frame_of (p * page_size) ≡ p = omega arith in
          rw (uvm_create_fresh p s e lt) (record {
            failed = λ z. absurd (omega arith);
            space = λ _. rw fr (record {
              pages = g.pages;
              dir_used = used;
              table_used = λ i u pr. absurd (cc (created_user p i s u, pr));
              table_grants = λ i u pr. absurd (cc (created_user p i s u, pr));
              table_ne = λ i u pr. absurd (cc (created_user p i s u, pr));
              table_apart = λ i j ui uj n pr _. absurd (cc (created_user p i s ui, pr));
            });
            empty = λ _ q u. rw fr (walk_absent p q (created p s) (created_user p (q / 1024) s u));
            shares_kernel = λ _ i k. rw fr (created_at p i s ∙ rw (kernel_index i k) refl);
            others =
                λ q u. created_ne p q s (λ h. cc (ap (page_is_free s.pages.bitmap) h, free, u));
            same_bytes = refl;
            in_use = g.kept;
            same_refs = alloc_refs s.pages;
            was_free = λ _. rw fr free;
            no_tables = λ _ i u. rw fr (created_user p i s u);
          })
    ]
