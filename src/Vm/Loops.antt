-- ===== src/Vm/Loops.antt =====
-- `uvm_clone` of kernel/uvm.c: its two loops.
use ali_os.Base.{
  ℕ, zero, suc, ◌+◌, ◌-◌, ◌*◌, ◌/◌, ◌%◌, ◌≤◌, ◌≡◌, ◌⊎◌, refl, Bool, true, false, if◌then◌else◌, inl,
  inr, Bool-cases, arith,
}
use ali_os.Vm.{Vm, is_present, frame_of, clone_entry, clone_entries, clone_tables}
use ali_os.Vm.Map.{walk_absent, IsUserIndex}
use ali_os.Vm.Forks.{Forks, Rounds, skip-Forks}
use ali_os.Vm.Share.{round_at, clone_entry-Rounds}

-- A round that fails ends the loop.
chain :
    (p c n m : ℕ) (s0 : Vm) (rest : Vm → Bool × Vm) (out : Bool × Vm)
    → Rounds p c n s0 out
    → (Forks p c n s0 out.1 → Rounds p c m s0 (rest out.1))
    → Rounds p c m s0 (if out.0 then rest out.1 else (false, out.1))
chain p c n m s0 rest (true, s) r next = next (r.ok refl)
chain p c n m s0 rest (false, s) r next = record { ok = λ h. cc; exhausted = λ _. r.exhausted refl }

done_at : (p c n m : ℕ) (s0 s : Vm) → n ≡ m → Forks p c n s0 s → Rounds p c m s0 (true, s)
done_at p c n m s0 s e f = record { ok = λ _. rw (← e) f; exhausted = λ h. cc }

clone_entries-Rounds :
    (left p dst i j n m : ℕ) (s0 s : Vm)
    → n ≡ i * 1024 + j
    → j + left ≡ 1024
    → n + left ≡ m
    → IsUserIndex i
    → is_present (s0.tables p i) ≡ true
    → Forks p (frame_of dst) n s0 s
    → Rounds p (frame_of dst) m s0 (clone_entries left j dst (frame_of (s0.tables p i)) i s)
unfolding clone_entries
clone_entries-Rounds zero p dst i j n m s0 s e le em u pd f =
    done_at p (frame_of dst) n m s0 s (omega arith) f
clone_entries-Rounds (suc left) p dst i j n m s0 s e le em u pd f =
    let row : n / 1024 ≡ i = omega arith in
    let col : n % 1024 ≡ j = omega arith in
    let at : s.tables p (n / 1024) ≡ s0.tables p i = rw (row, f.dir_kept) refl in
    let same : round_at p dst n s ≡ clone_entry dst (frame_of (s0.tables p i)) i j s =
      rw (at, row, col) refl in
    let first : Rounds p (frame_of dst) (n + 1) s0
        (clone_entry dst (frame_of (s0.tables p i)) i j s) =
      rw (← same) (clone_entry-Rounds p dst n s0 s f (rw row u) (rw at pd)) in
    chain p (frame_of dst) (n + 1) m s0
      (clone_entries left (j + 1) dst (frame_of (s0.tables p i)) i) _ first
      (clone_entries-Rounds left p dst i (j + 1) (n + 1) m s0 _ (omega arith) (omega arith)
        (omega arith) u pd)

-- The pages of a table that is not there.
skip_table :
    (left p c n m : ℕ) (s0 s : Vm)
    → n + left ≡ m
    → IsUserIndex (n / 1024)
    → (left ≡ 0) ⊎ ((n + (left - 1)) / 1024 ≡ n / 1024)
    → is_present (s.tables p (n / 1024)) ≡ false
    → Forks p c n s0 s
    → Forks p c m s0 s
skip_table zero p c n m s0 s em u le ab f = let at : n ≡ m = omega arith in rw (← at) f
skip_table (suc zero) p c n m s0 s em u le ab f =
    let at : n + 1 ≡ m = omega arith in rw (← at) (skip-Forks p c n s0 s f u (walk_absent p n s ab))
skip_table (suc (suc left)) p c n m s0 s em u le ab f =
    let row : (n + 1) / 1024 ≡ n / 1024 = omega arith in
    skip_table (suc left) p c (n + 1) m s0 s (omega arith) (rw row u) (inr (omega arith))
      (rw row ab) (skip-Forks p c n s0 s f u (walk_absent p n s ab))

pub clone_tables-Rounds :
    (left p dst i n m : ℕ) (s0 s : Vm)
    → n ≡ i * 1024
    → i + left ≡ 768
    → 32 ≤ i
    → m ≡ 768 * 1024
    → Forks p (frame_of dst) n s0 s
    → Rounds p (frame_of dst) m s0 (clone_tables left i dst p s)
unfolding clone_tables
clone_tables-Rounds zero p dst i n m s0 s e le ge em f =
    done_at p (frame_of dst) n m s0 s (omega arith) f
clone_tables-Rounds (suc left) p dst i n m s0 s e le ge em f =
    let u : IsUserIndex i = (ge, omega arith) in
    let row : n / 1024 ≡ i = omega arith in
    let at : s.tables p i ≡ s0.tables p i = rw f.dir_kept refl in
    let next : Vm → Bool × Vm = clone_tables left (i + 1) dst p in
    let go : (out : Bool × Vm)
        → Rounds p (frame_of dst) (n + 1024) s0 out
        → Rounds p (frame_of dst) m s0 (if out.0 then next out.1 else (false, out.1)) =
      λ out r. chain p (frame_of dst) (n + 1024) m s0 next out r (
        clone_tables-Rounds left p dst (i + 1) (n + 1024) m s0 out.1 (omega arith) (omega arith)
          (omega arith) em) in
    elim (Bool-cases (is_present (s.tables p i))) [
      | inl pr ↦ rw pr (
          go _ (
            rw at (
              clone_entries-Rounds 1024 p dst i 0 n (n + 1024) s0 s (omega arith) refl refl u
                (rw (← at) pr) f)))
      | inr ab ↦ rw ab (
          go _ (
            done_at p (frame_of dst) (n + 1024) (n + 1024) s0 s refl (
              skip_table 1024 p (frame_of dst) n (n + 1024) s0 s refl (rw row u) (inr (omega arith))
                (rw row ab) f)))
    ]
