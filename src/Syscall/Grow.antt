-- ===== src/Syscall/Grow.antt =====
-- kernel/syscall.c: `brk` gives the program zeroed pages.
use ali_os.Base.{
  ℕ, zero, suc, ◌+◌, ◌-◌, ◌*◌, ◌/◌, ◌≤◌, ◌<◌, ◌≡◌, ◌≢◌, ◌⊎◌, ◌∙◌, refl, ap, update_self, update_ne,
  int32, Bool, true, false, ◌||◌, some, ◌==◌, leb, inl, inr, Bool-cases, arith,
}
use ali_os.Pmm.{page_size, page_is_free, pmm_alloc}
use ali_os.Pmm.Alloc.{pmm_alloc-count}
use ali_os.Pmm.Fresh.{pmm_alloc-Grown}
use ali_os.Vm.{Vm, is_user, is_writable, frame_of, entry, uvm_map}
use ali_os.Vm.Map.{walk, IsUserIndex, IsSpace}
use ali_os.Vm.Refines.{IsNoTable, with_pages, uvm_map-Maps}
use ali_os.Vm.Table.{ne_of_free}
use ali_os.Elf.Load.{zeroed, mapped_self, mapped_ne, walk_tables, IsSpace-tables}
use mathlib.Core.Path.{subst}
use ali_os.Sched.{Sched}
use ali_os.Syscall.Memory.{brk_page, brk_pages, page_up, sys_brk}

-- What the loop does for the `n` pages from virtual page `v` on.
pub record Grows (dir v n : ℕ) (vm : Vm) (out : Bool × Vm) : Type 0 where
  pub returns : out.0 ≡ true
  pub space : IsSpace dir out.1
  pub fresh :
      (q : ℕ)
      → v ≤ q
      → q < v + n
      → (w : ℕ) × (walk dir q out.1 ≡ some w)
        × (is_user w ≡ true)
        × (is_writable w ≡ true)
        × (page_is_free vm.pages.bitmap (frame_of w) ≡ true)
        × (page_is_free out.1.pages.bitmap (frame_of w) ≡ false)
        × ((k : ℕ) → out.1.bytes (frame_of w) k ≡ 0)
  pub others :
      (q : ℕ) → IsUserIndex (q / 1024) → (q < v) ⊎ (v + n ≤ q) → walk dir q out.1 ≡ walk dir q vm
  pub kept :
      (p : ℕ)
      → page_is_free vm.pages.bitmap p ≡ false
      → (out.1.bytes p ≡ vm.bytes p) × (page_is_free out.1.pages.bitmap p ≡ false)
  -- Nor do the words of a page in use, unless it is the directory or a table of it; and it becomes none.
  pub kept_words :
      (p : ℕ)
      → page_is_free vm.pages.bitmap p ≡ false
      → p ≢ dir
      → IsNoTable dir p vm
      → (out.1.tables p ≡ vm.tables p) × IsNoTable dir p out.1
  pub count : vm.pages.free_count ≤ out.1.pages.free_count + 2 * n

user_entry :
    (p : ℕ)
    → (is_user (entry (p * page_size) 6) ≡ true)
      × (is_writable (entry (p * page_size) 6) ≡ true)
      × (frame_of (entry (p * page_size) 6) ≡ p)
user_entry p = ground arith

brk_page_fresh :
    (pd va p : ℕ) (vm : Vm)
    → (pmm_alloc vm.pages).0 ≡ p * page_size
    → 0 < p
    → brk_page pd va vm ≡ (true, (uvm_map pd va (p * page_size) 6 (zeroed p vm)).1)
unfolding brk_page
brk_page_fresh pd va p vm e lt =
    let z : (p * page_size == 0) ≡ false = ground arith in
    let fr : frame_of (p * page_size) ≡ p = omega arith in rw (e, z, fr)

-- One round, where two pages are free: one may become a table.
brk_page-Grows :
    (pd va : ℕ) (vm : Vm)
    → IsSpace (frame_of pd) vm
    → IsUserIndex (va / page_size / 1024)
    → 2 ≤ vm.pages.free_count
    → Grows (frame_of pd) (va / page_size) 1 vm (brk_page pd va vm)
brk_page-Grows pd va vm sp uv enough =
    let dir = frame_of pd in
    let v = va / page_size in
    let g = pmm_alloc-Grown vm.pages sp.pages in
    elim g.outcome [
      | inl (z, _) ↦
          absurd (omega (arith, (pmm_alloc-count vm.pages sp.pages.valid sp.pages.zero_used).0.0 z))
      | inr (p, e, lt, _, free, used, less) ↦
          let w = entry (p * page_size) 6 in
          let (b0, b1, b2) = user_entry p in
          let z = zeroed p vm in
          let sp' : IsSpace dir z =
            IsSpace-tables dir (record vm { pages = (pmm_alloc vm.pages).1 }) z refl refl
              (with_pages dir vm (pmm_alloc vm.pages).1 sp g.pages g.kept) in
          let m = uvm_map-Maps pd va (p * page_size) 6 z sp' uv in
          let out = uvm_map pd va (p * page_size) 6 z in
          let ok : out.0 ≡ true = elim (Bool-cases out.0) [
            | inl h ↦ h
            | inr h ↦ absurd (omega (arith, (m.failed h).0, less))
          ] in
          let same : (q : ℕ) → walk dir q z ≡ walk dir q vm = λ q. walk_tables dir q vm z refl in
          rw (brk_page_fresh pd va p vm e lt) (record {
            returns = refl;
            space = m.space;
            fresh = λ q lo hi.
                let at : q ≡ v = omega arith in
                (
                  w,
                  ap (λ x. walk dir x out.1) at
                      ∙ m.done ok v uv
                      ∙ mapped_self (λ u. walk dir u z) v w,
                  b0,
                  b1,
                  rw b2 free,
                  rw b2 (m.in_use p used),
                  λ k. rw b2 (
                      ap (λ (t : ℕ → ℕ → ℕ). t p k) m.same_bytes
                      ∙ ap (λ (t : ℕ → ℕ). t k) (update_self vm.bytes p (λ i. 0))),
                );
            others = λ q u away.
                m.done ok q u ∙ mapped_ne (λ t. walk dir t z) v w q (λ h. omega arith) ∙ same q;
            kept = λ q u.
                let n : p ≢ q = λ h. cc (ap (page_is_free vm.pages.bitmap) h, free, u) in
                (
                  ap (λ (t : ℕ → ℕ → ℕ). t q) m.same_bytes ∙ update_ne vm.bytes p q (λ i. 0) n,
                  m.in_use q (g.kept q u),
                );
            kept_words = λ q u n t. (
              m.elsewhere q (g.kept q u) n t,
              λ i ui pr. elim (m.origin i ui pr) [
                | inl (pr', h) ↦ rw h (t i ui pr')
                | inr was_free ↦ ne_of_free (pmm_alloc vm.pages).1.bitmap _ q was_free (g.kept q u)
              ],
            );
            count = omega (arith, m.count, less);
          })
    ]

brk_pages_zero : (pd va : ℕ) (vm : Vm) → brk_pages 0 pd va vm ≡ (true, vm)
unfolding brk_pages
brk_pages_zero pd va vm = refl

brk_pages_step :
    (n pd va : ℕ) (vm : Vm)
    → (brk_page pd va vm).0 ≡ true
    → brk_pages (suc n) pd va vm ≡ brk_pages n pd (va + page_size) (brk_page pd va vm).1
unfolding brk_pages
brk_pages_step n pd va vm e = rw (e, brk_pages)

free_before :
    (bm bm' : ℕ → ℕ) (p : ℕ)
    → (page_is_free bm p ≡ false → page_is_free bm' p ≡ false)
    → page_is_free bm' p ≡ true
    → page_is_free bm p ≡ true
free_before bm bm' p h f = elim (Bool-cases (page_is_free bm p)) [
  | inl t ↦ t
  | inr u ↦ absurd (cc (h u, f))
]

grow_more :
    (dir v n : ℕ) (vm : Vm) (one out : Bool × Vm)
    → 0x8000 ≤ v
    → v + suc n ≤ 0xC0000
    → Grows dir v 1 vm one
    → Grows dir (v + 1) n one.1 out
    → Grows dir v (suc n) vm out
grow_more dir v n vm one out lo hi a b = record {
  returns = b.returns;
  space = b.space;
  fresh = λ q l h. elim (Bool-cases (q == v)) [
    | inl e ↦
        let (w, at, u, wr, free, taken, zeros) = a.fresh q l (ground arith) in
        (
          w,
          b.others q (omega arith) (inl (ground arith)) ∙ at,
          u,
          wr,
          free,
          (b.kept (frame_of w) taken).1,
          λ k. ap (λ (t : ℕ → ℕ). t k) (b.kept (frame_of w) taken).0 ∙ zeros k,
        )
    | inr n' ↦
        let (w, at, u, wr, free, taken, zeros) = b.fresh q (ground arith) (omega arith) in
        (
          w,
          at,
          u,
          wr,
          free_before vm.pages.bitmap one.1.pages.bitmap (frame_of w)
              (λ used. (a.kept (frame_of w) used).1) free,
          taken,
          zeros,
        )
  ];
  others = λ q u away. b.others q u (ground arith) ∙ a.others q u (ground arith);
  kept = λ p u. let (x, y) = a.kept p u in let (x', y') = b.kept p y in (x' ∙ x, y');
  kept_words = λ p u nd t.
      let (x, t') = a.kept_words p u nd t in
      let (x', t'') = b.kept_words p (a.kept p u).1 nd t' in (x' ∙ x, t'');
  count = omega (arith, a.count, b.count);
}

nothing-Grows : (dir v : ℕ) (vm : Vm) → IsSpace dir vm → Grows dir v 0 vm (true, vm)
nothing-Grows dir v vm sp = record {
  returns = refl;
  space = sp;
  fresh = λ q l h. absurd (omega arith);
  others = λ q u away. refl;
  kept = λ p u. (refl, u);
  kept_words = λ p u n t. (refl, t);
  count = omega arith;
}

brk_pages-Grows :
    (n pd va : ℕ) (vm : Vm)
    → IsSpace (frame_of pd) vm
    → 0x8000 ≤ va / page_size
    → va / page_size + n ≤ 0xC0000
    → 2 * n ≤ vm.pages.free_count
    → Grows (frame_of pd) (va / page_size) n vm (brk_pages n pd va vm)
brk_pages-Grows zero pd va vm sp lo hi enough =
    rw (brk_pages_zero pd va vm) (nothing-Grows (frame_of pd) (va / page_size) vm sp)
brk_pages-Grows (suc n) pd va vm sp lo hi enough =
    let one = brk_page-Grows pd va vm sp (omega arith) (omega arith) in
    let e : (va + page_size) / page_size ≡ va / page_size + 1 = omega arith in
    let rest =
      brk_pages-Grows n pd (va + page_size) (brk_page pd va vm).1 one.space (omega arith)
        (omega arith) (omega (arith, one.count)) in
    rw (brk_pages_step n pd va vm one.returns) (
      grow_more (frame_of pd) (va / page_size) n vm (brk_page pd va vm)
        (brk_pages n pd (va + page_size) (brk_page pd va vm).1) lo hi one
        (subst
          (λ x.
            Grows (frame_of pd) x n (brk_page pd va vm).1
              (brk_pages n pd (va + page_size) (brk_page pd va vm).1))
          e rest))

-- Growing the heap of a program whose break lies in the user's half, to a new break below
-- 0xBFFF0000, with two pages free for each page that is added: `brk` returns the new break as a
-- signed number and records it, and every page from the old break's page boundary up to the new
-- one's is mapped for the user, writable, to a page that was free and is now in use, and holds
-- zeros. Every other page of the user's half keeps its entry, no byte of user data on a page that
-- was in use changes, no word of such a page either unless it is the directory or one of its
-- tables, and the tables stay an address space, whose directory leaves the rights to the entries of
-- its tables.
pub sys_brk-Grows :
    (new_brk : ℕ) (s : Sched) (vm : Vm)
    → IsSpace (frame_of s.current.page_dir) vm
    → 0x8000000 ≤ s.current.user_brk
    → s.current.user_brk < new_brk
    → new_brk < 0xBFFF0000
    → 2 * ((page_up new_brk - page_up s.current.user_brk) / page_size) ≤ vm.pages.free_count
    → ((sys_brk new_brk s vm).0 ≡ int32 new_brk)
      × ((sys_brk new_brk s vm).1.current.user_brk ≡ new_brk)
      × Grows
          (frame_of s.current.page_dir)
          (page_up s.current.user_brk / page_size)
          ((page_up new_brk - page_up s.current.user_brk) / page_size)
          vm
          (true, (sys_brk new_brk s vm).2)
unfolding sys_brk
sys_brk-Grows new_brk s vm sp lo more top enough =
    let brk = s.current.user_brk in
    let n = (page_up new_brk - page_up brk) / page_size in
    let g =
      brk_pages-Grows n s.current.page_dir (page_up brk) vm sp (omega arith) (omega arith) enough in
    let go : (new_brk == 0 || leb new_brk brk) ≡ false = ground arith in
    let fits : leb 0xBFFF0000 new_brk ≡ false = ground arith in
    rw (go, fits, g.returns, sys_brk)
      (
        refl,
        refl,
        record {
          returns = refl;
          space = g.space;
          fresh = g.fresh;
          others = g.others;
          kept = g.kept;
          kept_words = g.kept_words;
          count = g.count;
        },
      )
