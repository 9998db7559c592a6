-- ===== src/Vm/Isolation.antt =====
-- `uvm_clone` of kernel/uvm.c and the handler of kernel/fault.c together: after a `fork`, what one task
-- writes the other does not read.
use mathlib.Core.Option.{some-injective}
use ali_os.Base.{
  ℕ, ◌/◌, ◌≤◌, ◌<◌, ◌≡◌, ◌≢◌, ◌⊎◌, ◌∙◌, refl, ap, sym, Option, Bool, true, false, some, update,
  update_ne, inl, inr, arith,
}
use ali_os.Pmm.{page_size}
use ali_os.Vm.{Vm, is_user, is_writable, is_cow, frame_of, uvm_clone}
use ali_os.Vm.Map.{walk, walk_same, IsUserIndex, IsSpace}
use ali_os.Vm.Pair.{Apart, Apart-swap, walk_kept}
use ali_os.Vm.Table.{ne_of_free}
use ali_os.Vm.Cow.{Owned, read_byte, Resolves, read_kept}
use ali_os.Vm.Fault.{pf_present, pf_write, pf_user, kernel_virt_base, page_fault}
use ali_os.Vm.Resolve.{walk_inv, page_fault-Resolves}
use ali_os.Vm.Clone.{uvm_clone-Clones}

-- The byte `b` is written at offset `k` of physical page `p`.
abbrev pub store : ℕ → ℕ → ℕ → Vm → Vm
store p k b s = record s { bytes = update s.bytes p (update (s.bytes p) k b) }

-- The handler's outcome `out` in state `s`, for a write to page `v` by the task of directory `writer`,
-- when it and the task of directory `other` read `reads` at a page and an offset.
pub record Isolates (writer other v : ℕ) (reads : ℕ → ℕ → Option ℕ) (s : Vm) (out : Bool × Vm)
    : Type 0 where
  pub failed : out.0 ≡ false → s.pages.free_count ≡ 0
  pub same_reads :
      (q k : ℕ)
      → IsUserIndex (q / 1024)
      → (read_byte writer q k out.1 ≡ reads q k) × (read_byte other q k out.1 ≡ reads q k)
  pub unseen :
      out.0 ≡ true
      → (w : ℕ) × (walk writer v out.1 ≡ some w)
        × (is_user w ≡ true)
        × (is_writable w ≡ true)
        × ((q j k b : ℕ)
            → IsUserIndex (q / 1024)
            → read_byte other q j (store (frame_of w) k b out.1) ≡ reads q j)

module _ (d o v pte : ℕ) (s : Vm) (out : Bool × Vm) (a : Apart o d s) (own : Owned o s)
    (uv : IsUserIndex (v / 1024)) (h : walk d v s ≡ some pte)
    (second : 1 < s.pages.page_refs (frame_of pte)) (r : Resolves d v pte s out)
    (reads : ℕ → ℕ → Option ℕ)
    (both : (q k : ℕ)
      → IsUserIndex (q / 1024)
      → (read_byte d q k s ≡ reads q k) × (read_byte o q k s ≡ reads q k)) where
  other_walk : (q : ℕ) → IsUserIndex (q / 1024) → walk o q out.1 ≡ walk o q s
  other_walk q u =
      let (pr, _, _) = walk_inv d v pte s h in
      walk_kept o q s out.1 (r.elsewhere o (λ e. a.parent_dir (v / 1024) uv pr (sym e)))
        (λ pq. r.elsewhere _ (a.tables_apart (q / 1024) (v / 1024) u uv pq pr))

  Resolves-Isolates : Isolates d o v reads s out
  Resolves-Isolates = record {
    failed = λ f. (r.failed f).1;
    same_reads = λ q k u. (
      r.same_reads q k u ∙ (both q k u).0,
      read_kept o q k s out.1 own u (other_walk q u) r.same_bytes ∙ (both q k u).1,
    );
    unseen = λ done.
        let (w, at, free) = r.copied done second in
        let (w', at', us, wr, _, _) = r.private_page done in
        let same : w' ≡ w = some-injective w' w (sym at' ∙ at) in
        (
          w,
          at,
          rw (← same) us,
          rw (← same) wr,
          λ q j k b u.
              read_kept o q j s (store (frame_of w) k b out.1) own u
                (walk_same o q out.1 (store (frame_of w) k b out.1) refl refl ∙ other_walk q u)
                (λ p used.
                  update_ne out.1.bytes (frame_of w) p (update (out.1.bytes (frame_of w)) k b)
                    (ne_of_free s.pages.bitmap (frame_of w) p free used)
                  ∙ r.same_bytes p used)
              ∙ (both q j u).1,
        );
  }

-- After a call of `uvm_clone` that succeeds, over an address space whose pages are user pages, in
-- use below 65536 with a reference each: when one of the two tasks writes by user code to a page of
-- the user's half that is marked PAGE_COW in its tables, the fault is fatal only if the counter of
-- free pages is 0. After the handler user code of both tasks reads at every page and offset of the
-- user's half what was read before the `fork`. If the fault was not fatal, the page of the writer
-- is a writable user page, and no byte that it stores there changes what the other task reads.
pub uvm_clone-page_fault :
    (err pd cr2 pte writer other : ℕ) (s : Vm)
    → pf_present err ≡ true
    → pf_write err ≡ true
    → pf_user err ≡ true
    → 0x08000000 ≤ cr2
    → cr2 < kernel_virt_base
    → IsSpace (frame_of pd) s
    → Owned (frame_of pd) s
    → (uvm_clone pd s).0 ≢ 0
    → ((writer ≡ (uvm_clone pd s).0) × (other ≡ pd))
      ⊎ ((writer ≡ pd) × (other ≡ (uvm_clone pd s).0))
    → walk (frame_of writer) (cr2 / page_size) (uvm_clone pd s).1 ≡ some pte
    → is_cow pte ≡ true
    → Isolates
        (frame_of writer)
        (frame_of other)
        (cr2 / page_size)
        (λ q k. read_byte (frame_of pd) q k s)
        (uvm_clone pd s).1
        (page_fault err cr2 (some writer) (uvm_clone pd s).1)
uvm_clone-page_fault err pd cr2 pte writer other s pr wr us lo hi sp own nz (inl (e, e')) h cow =
    let k = uvm_clone-Clones pd s sp in
    let uv : IsUserIndex (cr2 / page_size / 1024) = omega (arith, lo, hi) in
    let (own_p, own_c) = k.owned nz own in
    let c = (uvm_clone pd s).0 in
    rw e' (
      Resolves-Isolates (frame_of writer) (frame_of pd) (cr2 / page_size) pte (uvm_clone pd s).1 _
        (rw e (k.apart nz)) own_p uv h
        (k.second nz own (cr2 / page_size) pte uv
          (inr (ap (λ d. walk (frame_of d) (cr2 / page_size) (uvm_clone pd s).1) (sym e) ∙ h)))
        (page_fault-Resolves err writer cr2 pte (uvm_clone pd s).1 pr wr us lo hi
          (rw e (k.apart nz).child) (rw e own_c) h cow)
        (λ q k. read_byte (frame_of pd) q k s)
        (rw e (λ q j u. ((k.same_reads nz own q j u).1, (k.same_reads nz own q j u).0))))
uvm_clone-page_fault err pd cr2 pte writer other s pr wr us lo hi sp own nz (inr (e, e')) h cow =
    let k = uvm_clone-Clones pd s sp in
    let uv : IsUserIndex (cr2 / page_size / 1024) = omega (arith, lo, hi) in
    let (own_p, own_c) = k.owned nz own in
    let c = (uvm_clone pd s).0 in
    rw e' (
      Resolves-Isolates (frame_of writer) (frame_of c) (cr2 / page_size) pte (uvm_clone pd s).1 _
        (rw e (Apart-swap (frame_of pd) (frame_of c) (uvm_clone pd s).1 (k.apart nz))) own_c uv h
        (k.second nz own (cr2 / page_size) pte uv
          (inl (ap (λ d. walk (frame_of d) (cr2 / page_size) (uvm_clone pd s).1) (sym e) ∙ h)))
        (page_fault-Resolves err writer cr2 pte (uvm_clone pd s).1 pr wr us lo hi
          (rw e (k.apart nz).parent) (rw e own_p) h cow)
        (λ q k. read_byte (frame_of pd) q k s) (rw e (λ q j u. k.same_reads nz own q j u)))
