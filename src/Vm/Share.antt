-- ===== src/Vm/Share.antt =====
-- `uvm_clone` of kernel/uvm.c: one round of its loops, against the entries of the parent and of the child.
use mathlib.Core.Option
use mathlib.Core.Option.{some-injective}
use ali_os.Base.{
  ℕ, ◌≤◌, ◌<◌, ◌+◌, ◌*◌, ◌/◌, ◌%◌, ◌^◌, ◌≡◌, ◌∙◌, refl, ap, sym, Bool, true, none, some,
  if◌then◌else◌, ◌==◌, inl, inr, Bool-cases, arith,
}
use ali_os.Pmm.{page_size, pages_max}
use ali_os.Vm.{
  Vm, is_present, is_writable, page_user, page_cow, frame_of, set_word, uvm_map, clone_entry,
}
use ali_os.Vm.Map.{walk, walk-found, found, grants, IsUserIndex, mapped, walk-written}
use ali_os.Vm.Refines.{Maps, uvm_map-Maps}
use ali_os.Vm.Pair.{
  Apart, parent_tables, parent_walk, mapped-Apart, child_walk, parent_same, written-Apart, noted,
  noted-Apart, walk-noted, addref_pages, more_refs, one_more,
}
use ali_os.Vm.Forks.{
  shared_entry, child_flags, child_entry, Forks, Rounds, advance, at_end, skip-Forks,
}

-- The state after the parent's part of a round, which found entry `w` for page `n`.
record Shares (p c n w : ℕ) (s t : Vm) : Type 0 where
  apart : Apart p c t
  dir_kept : t.tables p ≡ s.tables p
  parent :
      (q : ℕ) → IsUserIndex (q / 1024) → walk p q t ≡ mapped (λ u. walk p u s) n (shared_entry w) q
  child : (q : ℕ) → IsUserIndex (q / 1024) → walk c q t ≡ walk c q s
  same_bytes : t.bytes ≡ s.bytes
  same_bitmap : t.pages.bitmap ≡ s.pages.bitmap
  more : (x : ℕ) → s.pages.page_refs x ≤ t.pages.page_refs x
  second :
      frame_of w < pages_max
      → 1 ≤ s.pages.page_refs (frame_of w)
      → 2 ≤ t.pages.page_refs (frame_of w)

-- The child's part.
copy-Forks :
    (p dst n w virt : ℕ) (s0 s t : Vm)
    → Forks p (frame_of dst) n s0 s
    → IsUserIndex (n / 1024)
    → virt / page_size ≡ n
    → walk p n s ≡ some w
    → Shares p (frame_of dst) n w s t
    → (uvm_map dst virt (frame_of w * page_size) (child_flags w) t).0 ≡ true
    → Forks p
        (frame_of dst)
        (n + 1)
        s0
        (uvm_map dst virt (frame_of w * page_size) (child_flags w) t).1
copy-Forks p dst n w virt s0 s t f u e pw sh ok =
    let c = frame_of dst in
    let out = uvm_map dst virt (frame_of w * page_size) (child_flags w) t in
    let found_at : walk p n s0 ≡ some w = sym (at_end n _ _) ∙ sym (f.parent n u) ∙ pw in
    let m : Maps c n (child_entry w) t out =
      rw (← e) (
        uvm_map-Maps dst virt (frame_of w * page_size) (child_flags w) t sh.apart.child (rw e u)) in
    record {
      apart = mapped-Apart p c n (child_entry w) t out sh.apart m;
      dir_kept = parent_tables p c n (child_entry w) t out sh.apart m ∙ sh.dir_kept ∙ f.dir_kept;
      parent = λ q uq.
          advance (λ q. walk p q s) (λ q. walk p q out.1) (λ q. walk p q s0)
            (λ q. Option.map shared_entry (walk p q s0)) (some (shared_entry w)) n q
            (parent_walk p c n (child_entry w) t out sh.apart m q uq ∙ sh.parent q uq)
            (rw found_at refl) (f.parent q uq);
      child = λ q uq.
          advance (λ q. walk c q s) (λ q. walk c q out.1) (λ q. none)
            (λ q. Option.map child_entry (walk p q s0)) (some (child_entry w)) n q
            (m.done ok q uq ∙ ap (λ o. if q == n then some (child_entry w) else o) (sh.child q uq))
            (rw found_at refl) (f.child q uq);
      same_bytes = m.same_bytes ∙ sh.same_bytes ∙ f.same_bytes;
      in_use = λ x ux. m.in_use x (rw sh.same_bitmap (f.in_use x ux));
      more = λ x ux.
          omega (arith, f.more x ux, sh.more x, m.same_refs x (rw sh.same_bitmap (f.in_use x ux)));
      counted = λ q w' uq lt h own.
          let same = m.same_refs (frame_of w') (rw sh.same_bitmap (f.in_use (frame_of w') own.2)) in
          elim (Bool-cases (q == n)) [
            | inl b ↦
                let at : q ≡ n = ground arith in
                let is : w' ≡ w =
                  some-injective w' w (sym h ∙ ap (λ v. walk p v s0) at ∙ found_at) in
                rw (same, is)
                  (sh.second (rw (← is) own.0)
                    (rw (← is) (omega (arith, own.1, f.more (frame_of w') own.2))))
            | inr b ↦
                omega (arith, same, sh.more (frame_of w'), f.counted q w' uq (ground arith) h own)
          ];
    }

copy-Forks_at :
    (p dst n w virt flags : ℕ) (s0 s t : Vm)
    → child_flags w ≡ flags
    → Forks p (frame_of dst) n s0 s
    → IsUserIndex (n / 1024)
    → virt / page_size ≡ n
    → walk p n s ≡ some w
    → Shares p (frame_of dst) n w s t
    → Rounds p (frame_of dst) (n + 1) s0 (uvm_map dst virt (frame_of w * page_size) flags t)
copy-Forks_at p dst n w virt flags s0 s t e f u v pw sh = rw (← e) (record {
  ok = copy-Forks p dst n w virt s0 s t f u v pw sh;
  exhausted =
      (uvm_map-Maps dst virt (frame_of w * page_size) (child_flags w) t sh.apart.child
        (rw v u)).exhausted;
})

-- The parent's part: a writable entry is written back, another stays as it is.
share_written :
    (p c n w w' : ℕ) (s : Vm)
    → Apart p c s
    → IsUserIndex (n / 1024)
    → is_present (s.tables p (n / 1024)) ≡ true
    → is_present w' ≡ true
    → shared_entry w ≡ w'
    → Shares p c n w s (
        noted (frame_of w * page_size) (record s {
          tables = set_word (frame_of (s.tables p (n / 1024))) (n % 1024) w' s.tables;
        }))
share_written p c n w w' s a u pd pw e =
    let t : Vm = record s {
      tables = set_word (frame_of (s.tables p (n / 1024))) (n % 1024) w' s.tables;
    } in
    record {
      apart = noted-Apart (frame_of w * page_size) p c t (written-Apart p c n w' s a u pw pd);
      dir_kept = parent_same p c n w' s a u pw pd;
      parent = λ q uq.
          rw e (
            walk-noted (frame_of w * page_size) p q t
            ∙ walk-written p n w' s a.parent u pw pd q uq);
      child =
          λ q uq. walk-noted (frame_of w * page_size) c q t ∙ child_walk p c n w' s a u pw pd q uq;
      same_bytes = refl;
      same_bitmap = (addref_pages (frame_of w * page_size) s.pages a.parent.pages).1;
      more = λ x. more_refs (frame_of w * page_size) x s.pages;
      second = one_more (frame_of w) s.pages;
    }

share_kept :
    (p c n w : ℕ) (s : Vm)
    → Apart p c s
    → walk p n s ≡ some w
    → shared_entry w ≡ w
    → Shares p c n w s (noted (frame_of w * page_size) s)
share_kept p c n w s a e sh = record {
  apart = noted-Apart (frame_of w * page_size) p c s a;
  dir_kept = refl;
  parent = λ q uq.
      walk-noted (frame_of w * page_size) p q s
      ∙ rw sh (elim (Bool-cases (q == n)) [
        | inl t ↦ let at : q ≡ n = ground arith in rw t (ap (λ v. walk p v s) at ∙ e)
        | inr t ↦ rw t refl
      ]);
  child = λ q uq. walk-noted (frame_of w * page_size) c q s;
  same_bytes = refl;
  same_bitmap = (addref_pages (frame_of w * page_size) s.pages a.parent.pages).1;
  more = λ x. more_refs (frame_of w * page_size) x s.pages;
  second = one_more (frame_of w) s.pages;
}

abbrev pub round_at : ℕ → ℕ → ℕ → Vm → Bool × Vm
round_at p dst n s = clone_entry dst (frame_of (s.tables p (n / 1024))) (n / 1024) (n % 1024) s

-- One round of the inner loop.
pub clone_entry-Rounds :
    (p dst n : ℕ) (s0 s : Vm)
    → Forks p (frame_of dst) n s0 s
    → IsUserIndex (n / 1024)
    → is_present (s.tables p (n / 1024)) ≡ true
    → Rounds p (frame_of dst) (n + 1) s0 (round_at p dst n s)
unfolding clone_entry
clone_entry-Rounds p dst n s0 s f u pd =
    let pde = s.tables p (n / 1024) in
    let pte = s.tables (frame_of pde) (n % 1024) in
    let gr : grants pde ≡ true = f.apart.parent.table_grants (n / 1024) u pd in
    let at : walk p n s ≡ found pde pte = walk-found p n pde pte s refl refl in
    let virt = n / 1024 * 2 ^ 22 + n % 1024 * 2 ^ 12 in
    let page : virt / page_size ≡ n = omega arith in
    let phys = frame_of pte * page_size in
    elim (Bool-cases (is_present pte)) [
      | inl pr ↦
          let at' : walk p n s ≡ some pte = at ∙ rw (gr, pr) refl in
          elim (Bool-cases (is_writable pte)) [
            | inl wr ↦
                rw (pr, wr)
                  (copy-Forks_at p dst n pte virt (page_user + page_cow) s0 s _ (rw wr refl) f u
                    page at'
                    (share_written p (frame_of dst) n pte (phys + (1 + page_user + page_cow)) s
                      f.apart u pd (ground arith) (rw wr refl)))
            | inr wr ↦
                rw (pr, wr)
                  (copy-Forks_at p dst n pte virt _ s0 s _ (rw wr refl) f u page at'
                    (share_kept p (frame_of dst) n pte s f.apart at' (rw wr refl)))
          ]
      | inr ab ↦ rw ab (record {
        ok = λ _. skip-Forks p (frame_of dst) n s0 s f u (at ∙ rw (gr, ab) refl);
        exhausted = λ h. cc;
      })
    ]
