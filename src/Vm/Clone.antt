-- ===== src/Vm/Clone.antt =====
-- `uvm_clone` of kernel/uvm.c: the two address spaces that it leaves.
use mathlib.Core.Option
use ali_os.Base.{
  ℕ, ◌≤◌, ◌<◌, ◌*◌, ◌/◌, ◌≡◌, ◌≢◌, ◌⊎◌, ◌∙◌, refl, ap, sym, Bool, true, false, some, ◌==◌, inl, inr,
  Bool-cases, arith,
}
use ali_os.Vm.{Vm, is_user, is_writable, frame_of, clone_tables, uvm_create, uvm_free, uvm_clone}
use ali_os.Vm.Map.{walk, IsUserIndex, IsSpace}
use ali_os.Vm.Pair.{Apart}
use mathlib.Core.Option.{some-injective}
use ali_os.Vm.Create.{uvm_create-Creates}
use ali_os.Pmm.{page_is_free}
use ali_os.Vm.Cow.{Owned, read_byte}
use ali_os.Vm.Image.{mapped_from, read_image, image-Owned}
use ali_os.Vm.Forks.{shared_entry, child_entry, Forks, Rounds}
use ali_os.Vm.Start.{start_walk, below_end, start-Forks}
use ali_os.Vm.Loops.{clone_tables-Rounds}

-- The loops of `uvm_clone pd` in state `s`.
abbrev loops : ℕ → Vm → Bool × Vm
loops pd s = clone_tables 736 32 (uvm_create s).0 (frame_of pd) (uvm_create s).1

-- What a call of `uvm_clone` gives: no page, or a second address space over the same pages.
pub record Clones (pd : ℕ) (s : Vm) (out : ℕ × Vm) : Type 0 where
  pub failed : out.0 ≡ 0 → (s.pages.free_count ≡ 0) ⊎ ((loops pd s).1.pages.free_count ≡ 0)
  pub apart : out.0 ≢ 0 → Apart (frame_of pd) (frame_of out.0) out.1
  pub parent :
      out.0 ≢ 0
      → (q : ℕ) → IsUserIndex (q / 1024)
      → walk (frame_of pd) q out.1 ≡ Option.map shared_entry (walk (frame_of pd) q s)
  pub child :
      out.0 ≢ 0
      → (q : ℕ) → IsUserIndex (q / 1024)
      → walk (frame_of out.0) q out.1 ≡ Option.map child_entry (walk (frame_of pd) q s)
  -- Neither task writes to a page without a fault.
  pub read_only :
      out.0 ≢ 0
      → (q w : ℕ) → IsUserIndex (q / 1024)
      → (walk (frame_of pd) q out.1 ≡ some w) ⊎ (walk (frame_of out.0) q out.1 ≡ some w)
      → is_writable w ≡ false
  pub same_reads :
      out.0 ≢ 0
      → Owned (frame_of pd) s
      → (q k : ℕ) → IsUserIndex (q / 1024)
      → (read_byte (frame_of pd) q k out.1 ≡ read_byte (frame_of pd) q k s)
        × (read_byte (frame_of out.0) q k out.1 ≡ read_byte (frame_of pd) q k s)
  pub owned :
      out.0 ≢ 0 → Owned (frame_of pd) s → Owned (frame_of pd) out.1 × Owned (frame_of out.0) out.1
  pub second :
      out.0 ≢ 0
      → Owned (frame_of pd) s
      → (q w : ℕ) → IsUserIndex (q / 1024)
      → (walk (frame_of pd) q out.1 ≡ some w) ⊎ (walk (frame_of out.0) q out.1 ≡ some w)
      → 1 < out.1.pages.page_refs (frame_of w)

shared_read_only : (w : ℕ) → is_writable (shared_entry w) ≡ false
shared_read_only w = ground arith

child_read_only : (w : ℕ) → is_writable (child_entry w) ≡ false
child_read_only w = ground arith

shared_user : (w : ℕ) → is_user w ≡ true → is_user (shared_entry w) ≡ true
shared_user w u = ground arith

child_user : (w : ℕ) → is_user w ≡ true → is_user (child_entry w) ≡ true
child_user w u = ground arith

shared_page : (w : ℕ) → frame_of (shared_entry w) ≡ frame_of w
shared_page w = ground arith

child_page : (w : ℕ) → frame_of (child_entry w) ≡ frame_of w
child_page w = ground arith

-- A call that succeeds.
success-Clones :
    (pd : ℕ) (s t : Vm)
    → IsSpace (frame_of pd) s
    → (uvm_create s).0 ≢ 0
    → Forks (frame_of pd) (frame_of (uvm_create s).0) (768 * 1024) (uvm_create s).1 t
    → Clones pd s ((uvm_create s).0, t)
success-Clones pd s t sp n f =
    let p = frame_of pd in
    let k = uvm_create-Creates s sp.pages in
    let before : (q : ℕ) → IsUserIndex (q / 1024) → walk p q (uvm_create s).1 ≡ walk p q s =
      λ q u. start_walk p q s (uvm_create s) sp k u in
    let parent : (q : ℕ)
        → IsUserIndex (q / 1024)
        → walk p q t ≡ Option.map shared_entry (walk p q s) =
      λ q u. f.parent q u ∙ below_end q _ _ u ∙ ap (Option.map shared_entry) (before q u) in
    let child : (q : ℕ)
        → IsUserIndex (q / 1024)
        → walk (frame_of (uvm_create s).0) q t ≡ Option.map child_entry (walk p q s) =
      λ q u. f.child q u ∙ below_end q _ _ u ∙ ap (Option.map child_entry) (before q u) in
    let c = frame_of (uvm_create s).0 in
    let bytes : t.bytes ≡ s.bytes = f.same_bytes ∙ k.same_bytes in
    let kept : (x : ℕ)
        → page_is_free s.pages.bitmap x ≡ false
        → page_is_free t.pages.bitmap x ≡ false =
      λ x u. f.in_use x (k.in_use x u) in
    let more : (x : ℕ)
        → page_is_free s.pages.bitmap x ≡ false
        → s.pages.page_refs x ≤ t.pages.page_refs x =
      λ x u. omega (arith, f.more x (k.in_use x u), k.same_refs x u) in
    let two : Owned p s
        → (q x : ℕ) → IsUserIndex (q / 1024)
        → walk p q s ≡ some x
        → 1 < t.pages.page_refs (frame_of x) =
      λ own q x u is_x.
        let (lt, one, used, _) = own q x u is_x in
        f.counted q x u (omega (arith, u.1)) (before q u ∙ is_x)
          (lt, rw (k.same_refs (frame_of x) used) one, k.in_use (frame_of x) used) in
    record {
      failed = λ z. absurd (n z);
      apart = λ _. f.apart;
      parent = λ _. parent;
      child = λ _. child;
      read_only = λ _ q w u m. elim m [
        | inl e ↦
            let (x, _, at) = mapped_from shared_entry (walk p q s) w (sym (parent q u) ∙ e) in
            rw (← at) (shared_read_only x)
        | inr e ↦
            let (x, _, at) = mapped_from child_entry (walk p q s) w (sym (child q u) ∙ e) in
            rw (← at) (child_read_only x)
      ];
      same_reads = λ _ own q k u. (
        read_image p p shared_entry s t parent shared_page shared_user own q k u bytes,
        read_image p c child_entry s t child child_page child_user own q k u bytes,
      );
      owned = λ _ own. (
        image-Owned p p shared_entry s t parent shared_page shared_user own kept more,
        image-Owned p c child_entry s t child child_page child_user own kept more,
      );
      second = λ _ own q w u m. elim m [
        | inl e ↦
            let (x, is_x, at) = mapped_from shared_entry (walk p q s) w (sym (parent q u) ∙ e) in
            rw (← at, shared_page x) (two own q x u is_x)
        | inr e ↦
            let (x, is_x, at) = mapped_from child_entry (walk p q s) w (sym (child q u) ∙ e) in
            rw (← at, child_page x) (two own q x u is_x)
      ];
    }

failure-Clones :
    (pd : ℕ) (s t : Vm)
    → (s.pages.free_count ≡ 0) ⊎ ((loops pd s).1.pages.free_count ≡ 0)
    → Clones pd s (0, t)
failure-Clones pd s t e = record {
  failed = λ _. e;
  apart = λ n. absurd (n refl);
  parent = λ n. absurd (n refl);
  child = λ n. absurd (n refl);
  read_only = λ n. absurd (n refl);
  same_reads = λ n. absurd (n refl);
  owned = λ n. absurd (n refl);
  second = λ n. absurd (n refl);
}

-- Over an address space, `uvm_clone` returns 0 only if the counter of free pages was 0 before it or is
-- 0 when its loops stop. Otherwise it makes a second address space that shares no table with the first.
-- At every page of the user's half, both find an entry where the first had one and none elsewhere: a
-- writable entry became read-only and PAGE_COW in the first, the second has an entry for the same
-- physical page, user and PAGE_COW as the first's is, and no entry of either is writable. If the pages
-- of the first were user pages, in use below 65536 with a reference each, this holds of both afterwards,
-- each of these pages has two references or more, and through both address spaces user code reads at
-- every offset what it read before through the first.
pub uvm_clone-Clones : (pd : ℕ) (s : Vm) → IsSpace (frame_of pd) s → Clones pd s (uvm_clone pd s)
unfolding uvm_clone
uvm_clone-Clones pd s sp =
    let k = uvm_create-Creates s sp.pages in
    elim (Bool-cases ((uvm_create s).0 == 0)) [
      | inl z ↦ rw z (failure-Clones pd s (uvm_create s).1 (inl (k.failed (ground arith))))
      | inr n ↦
          let dst = (uvm_create s).0 in
          let nz : dst ≢ 0 = λ e. ground arith in
          let r : Rounds (frame_of pd) (frame_of dst) (768 * 1024) (uvm_create s).1 (loops pd s) =
            clone_tables-Rounds 736 (frame_of pd) dst 32 (32 * 1024) (768 * 1024) (uvm_create s).1
              (uvm_create s).1 refl refl (omega arith) refl
              (start-Forks (frame_of pd) s (uvm_create s) sp k nz) in
          elim (Bool-cases (loops pd s).0) [
            | inl ok ↦ rw (n, ok) (success-Clones pd s (loops pd s).1 sp nz (r.ok ok))
            | inr stopped ↦
                rw (n, stopped)
                  (failure-Clones pd s (uvm_free dst (loops pd s).1) (inr (r.exhausted stopped)))
          ]
    ]
