-- ===== src/Vm/Forks.antt =====
-- `uvm_clone` of kernel/uvm.c: what its loops have done when they come to a virtual page.
use mathlib.Core.Option
use ali_os.Base.{
  ℕ, some, ◌≤◌, ◌<◌, ◌+◌, ◌*◌, ◌/◌, ◌≡◌, ◌∙◌, refl, ap, sym, Bool, true, false, none, if◌then◌else◌,
  ◌==◌, ltb, inl, inr, Bool-cases, arith,
}
use ali_os.Pmm.{page_size, page_is_free, pages_max}
use ali_os.Vm.{Vm, is_writable, is_user, is_cow, page_user, page_cow, frame_of, entry}
use ali_os.Vm.Map.{walk, IsUserIndex}
use ali_os.Vm.Pair.{Apart}

-- The parent's entry after the fork: a writable page becomes read-only and PAGE_COW.
abbrev pub shared_entry : ℕ → ℕ
shared_entry w = if is_writable w then frame_of w * page_size + (1 + page_user + page_cow) else w

-- The child's entry for the parent's.
abbrev pub child_flags : ℕ → ℕ
child_flags w =
    if is_writable w
    then page_user + page_cow
    else (if is_user w then page_user else 0) + (if is_cow w then page_cow else 0)

abbrev pub child_entry : ℕ → ℕ
child_entry w = entry (frame_of w * page_size) (child_flags w)

-- The page of entry `w` is in use, with a reference.
abbrev pub IsOwned : ℕ → Vm → Type 0
IsOwned w s =
    (frame_of w < pages_max)
    × (1 ≤ s.pages.page_refs (frame_of w))
    × (page_is_free s.pages.bitmap (frame_of w) ≡ false)

-- The state when the virtual pages below `n` are done: `p` is the parent's directory, `c` the child's.
pub record Forks (p c n : ℕ) (s0 s : Vm) : Type 0 where
  pub apart : Apart p c s
  pub dir_kept : s.tables p ≡ s0.tables p
  pub parent :
      (q : ℕ)
      → IsUserIndex (q / 1024)
      → walk p q s ≡ (if ltb q n then Option.map shared_entry (walk p q s0) else walk p q s0)
  pub child :
      (q : ℕ)
      → IsUserIndex (q / 1024)
      → walk c q s ≡ (if ltb q n then Option.map child_entry (walk p q s0) else none)
  pub same_bytes : s.bytes ≡ s0.bytes
  pub in_use :
      (x : ℕ) → page_is_free s0.pages.bitmap x ≡ false → page_is_free s.pages.bitmap x ≡ false
  pub more :
      (x : ℕ) → page_is_free s0.pages.bitmap x ≡ false → s0.pages.page_refs x ≤ s.pages.page_refs x
  -- A page that is mapped below `n` has a second reference.
  pub counted :
      (q w : ℕ)
      → IsUserIndex (q / 1024)
      → q < n
      → walk p q s0 ≡ some w
      → IsOwned w s0
      → 2 ≤ s.pages.page_refs (frame_of w)

-- What the rounds up to page `n` come to.
pub record Rounds (p c n : ℕ) (s0 : Vm) (out : Bool × Vm) : Type 0 where
  pub ok : out.0 ≡ true → Forks p c n s0 out.1
  pub exhausted : out.0 ≡ false → out.1.pages.free_count ≡ 0

-- One more page is done: `m` and `m'` are the map before and after.
pub advance {ℓ} :
    {A : Type ℓ}
    → (m m' old new : ℕ → A) (x : A) (n q : ℕ) → m' q ≡ (if q == n then x else m q)
    → new n ≡ x
    → m q ≡ (if ltb q n then new q else old q)
    → m' q ≡ (if ltb q (n + 1) then new q else old q)
advance m m' old new x n q e f g = elim (Bool-cases (q == n)) [
  | inl t ↦
      let below : ltb q (n + 1) ≡ true = ground arith in
      let at : q ≡ n = ground arith in rw (e, t, below) (sym f ∙ ap new (sym at))
  | inr t ↦ let same : ltb q (n + 1) ≡ ltb q n = ground arith in rw (e, t, same) g
]

-- The same if the page maps nothing and the map stays.
pass {ℓ} :
    {A : Type ℓ}
    → (m old new : ℕ → A) (x : A) (n q : ℕ) → m n ≡ x
    → new n ≡ x
    → m q ≡ (if ltb q n then new q else old q)
    → m q ≡ (if ltb q (n + 1) then new q else old q)
pass m old new x n q e f g =
    advance m m old new x n q
      (elim (Bool-cases (q == n)) [
        | inl t ↦ let at : q ≡ n = ground arith in rw t (ap m at ∙ e)
        | inr t ↦ rw t refl
      ])
      f g

pub at_end {ℓ} : {A : Type ℓ} → (n : ℕ) (a b : A) → (if ltb n n then a else b) ≡ b
at_end n a b = let e : ltb n n ≡ false = ground arith in rw e refl

-- A page that maps nothing is passed over.
pub skip-Forks :
    (p c n : ℕ) (s0 s : Vm)
    → Forks p c n s0 s
    → IsUserIndex (n / 1024)
    → walk p n s ≡ none
    → Forks p c (n + 1) s0 s
skip-Forks p c n s0 s f u e =
    let none_at : walk p n s0 ≡ none = sym (at_end n _ _) ∙ sym (f.parent n u) ∙ e in
    record {
      apart = f.apart;
      dir_kept = f.dir_kept;
      parent = λ q uq.
          pass (λ q. walk p q s) (λ q. walk p q s0) (λ q. Option.map shared_entry (walk p q s0))
            none n q e (rw none_at refl) (f.parent q uq);
      child = λ q uq.
          pass (λ q. walk c q s) (λ q. none) (λ q. Option.map child_entry (walk p q s0)) none n q
            (f.child n u ∙ at_end n _ _) (rw none_at refl) (f.child q uq);
      same_bytes = f.same_bytes;
      in_use = f.in_use;
      more = f.more;
      counted = λ q w uq lt h own. elim (Bool-cases (q == n)) [
        | inl t ↦
            let at : q ≡ n = ground arith in absurd (cc (ap (λ v. walk p v s0) at, h, none_at))
        | inr t ↦ f.counted q w uq (ground arith) h own
      ];
    }
