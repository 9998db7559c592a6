-- ===== src/Vm/Start.antt =====
-- `uvm_clone` of kernel/uvm.c: the state that its loops start from.
use ali_os.Base.{ℕ, ◌*◌, ◌/◌, ◌≡◌, ◌≢◌, ◌∙◌, refl, sym, true, false, if◌then◌else◌, ltb, arith}
use ali_os.Vm.{Vm, frame_of}
use ali_os.Vm.Map.{walk, IsUserIndex, IsSpace}
use ali_os.Vm.Pair.{Apart, walk_kept}
use ali_os.Vm.Table.{ne_of_free}
use ali_os.Vm.Create.{Creates}
use ali_os.Vm.Forks.{Forks}

-- The state before the loops.
start-Apart :
    (p : ℕ) (s : Vm) (out : ℕ × Vm)
    → IsSpace p s
    → Creates s out
    → out.0 ≢ 0
    → Apart p (frame_of out.0) out.1
start-Apart p s out sp k n =
    let kept = k.others p sp.dir_used in
    record {
      parent = record {
        pages = (k.space n).pages;
        dir_used = k.in_use p sp.dir_used;
        table_used = λ i u. rw kept (λ pr. k.in_use _ (sp.table_used i u pr));
        table_grants = rw kept sp.table_grants;
        table_ne = rw kept sp.table_ne;
        table_apart = rw kept sp.table_apart;
      };
      child = k.space n;
      dirs_ne = λ e. ne_of_free s.pages.bitmap _ p (k.was_free n) sp.dir_used (sym e);
      child_dir = λ i u.
          rw kept
            (λ pr e. ne_of_free s.pages.bitmap _ _ (k.was_free n) (sp.table_used i u pr) (sym e));
      parent_dir = λ i u pr. absurd (cc (k.no_tables n i u, pr));
      tables_apart = λ i j ui uj pi pj. absurd (cc (k.no_tables n j uj, pj));
    }

pub start_walk :
    (p q : ℕ) (s : Vm) (out : ℕ × Vm)
    → IsSpace p s
    → Creates s out
    → IsUserIndex (q / 1024)
    → walk p q out.1 ≡ walk p q s
start_walk p q s out sp k u =
    walk_kept p q s out.1 (k.others p sp.dir_used)
      (λ pr. k.others _ (sp.table_used (q / 1024) u pr))

below_start {ℓ} :
    {A : Type ℓ}
    → (q : ℕ) (a b : A) → IsUserIndex (q / 1024)
    → (if ltb q (32 * 1024) then a else b) ≡ b
below_start q a b u = let e : ltb q (32 * 1024) ≡ false = ground arith in rw e refl

pub below_end {ℓ} :
    {A : Type ℓ}
    → (q : ℕ) (a b : A) → IsUserIndex (q / 1024)
    → (if ltb q (768 * 1024) then a else b) ≡ a
below_end q a b u = let e : ltb q (768 * 1024) ≡ true = ground arith in rw e refl

pub start-Forks :
    (p : ℕ) (s : Vm) (out : ℕ × Vm)
    → IsSpace p s
    → Creates s out
    → out.0 ≢ 0
    → Forks p (frame_of out.0) (32 * 1024) out.1 out.1
start-Forks p s out sp k n = record {
  apart = start-Apart p s out sp k n;
  dir_kept = refl;
  parent = λ q u. sym (below_start q _ _ u);
  child = λ q u. k.empty n q u ∙ sym (below_start q _ _ u);
  same_bytes = refl;
  in_use = λ x u. u;
  more = λ x u. omega arith;
  counted = λ q w u lt. absurd (omega (arith, u.0));
}
