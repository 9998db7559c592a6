-- ===== src/Vm/Cow.antt =====
-- kernel/fault.c: the write of a user program to a page that it shares since a `fork`.
use ali_os.Base.{
  ℕ, ◌/◌, ◌≤◌, ◌<◌, ◌≡◌, ◌≢◌, ◌⊎◌, ◌∙◌, refl, ap, sym, Bool, true, false, Option, none, some,
  if◌then◌else◌, ◌==◌, inl, inr, Bool-cases, arith,
}
use ali_os.Pmm.{pages_max, page_is_free}
use ali_os.Vm.{Vm, is_user, is_writable, is_cow, frame_of}
use ali_os.Vm.Map.{walk, IsUserIndex, mapped}

-- The byte that a program reads at offset `k` of its page `v`, if its tables let user code read there.
unfoldable pub read_byte : ℕ → ℕ → ℕ → Vm → Option ℕ
read_byte dir v k s = elim (walk dir v s) [
  | none ↦ none
  | some w ↦ if is_user w then some (s.bytes (frame_of w) k) else none
]

-- The pages that are mapped are the program's to read, and in use, with a reference each.
abbrev pub Owned : ℕ → Vm → Type 0
Owned dir s =
    (q w : ℕ)
    → IsUserIndex (q / 1024)
    → walk dir q s ≡ some w
    → (frame_of w < pages_max)
      × (1 ≤ s.pages.page_refs (frame_of w))
      × (page_is_free s.pages.bitmap (frame_of w) ≡ false)
      × (is_user w ≡ true)

-- What the handler does at page `v`, whose entry is `pte`.
pub record Resolves (dir v pte : ℕ) (s : Vm) (out : Bool × Vm) : Type 0 where
  pub failed : out.0 ≡ false → (1 < s.pages.page_refs (frame_of pte)) × (s.pages.free_count ≡ 0)
  pub private_page :
      out.0 ≡ true
      → (w : ℕ) × (walk dir v out.1 ≡ some w)
        × (is_user w ≡ true)
        × (is_writable w ≡ true)
        × (is_cow w ≡ false)
        × (out.1.pages.page_refs (frame_of w) ≡ 1)
  pub others : (q : ℕ) → IsUserIndex (q / 1024) → q ≢ v → walk dir q out.1 ≡ walk dir q s
  pub same_reads :
      (q k : ℕ) → IsUserIndex (q / 1024) → read_byte dir q k out.1 ≡ read_byte dir q k s
  pub same_bytes : (p : ℕ) → page_is_free s.pages.bitmap p ≡ false → out.1.bytes p ≡ s.bytes p
  -- Only the table of page `v` is written, and a page with other references is left to them.
  pub elsewhere : (p : ℕ) → p ≢ frame_of (s.tables dir (v / 1024)) → out.1.tables p ≡ s.tables p
  pub copied :
      out.0 ≡ true
      → 1 < s.pages.page_refs (frame_of pte)
      → (w : ℕ) × (walk dir v out.1 ≡ some w) × (page_is_free s.pages.bitmap (frame_of w) ≡ true)

pub read_some :
    (dir v k w : ℕ) (s : Vm)
    → walk dir v s ≡ some w
    → is_user w ≡ true
    → read_byte dir v k s ≡ some (s.bytes (frame_of w) k)
unfolding read_byte
read_some dir v k w s e us = rw (e, read_byte, us)

pub read_none : (dir v k : ℕ) (s : Vm) → walk dir v s ≡ none → read_byte dir v k s ≡ none
unfolding read_byte
read_none dir v k s e = rw (e, read_byte)

pub Option-cases : (o : Option ℕ) → ((w : ℕ) × (o ≡ some w)) ⊎ (o ≡ none)
Option-cases (some w) = inl (w, refl)
Option-cases none = inr refl

pub read_kept :
    (dir q k : ℕ) (s s' : Vm)
    → Owned dir s
    → IsUserIndex (q / 1024)
    → walk dir q s' ≡ walk dir q s
    → ((p : ℕ) → page_is_free s.pages.bitmap p ≡ false → s'.bytes p ≡ s.bytes p)
    → read_byte dir q k s' ≡ read_byte dir q k s
read_kept dir q k s s' own u e b = elim (Option-cases (walk dir q s)) [
  | inl (w, h) ↦
      read_some dir q k w s' (e ∙ h) (own q w u h).3
      ∙ ap (λ (t : ℕ → ℕ). some (t k)) (b (frame_of w) (own q w u h).2)
      ∙ sym (read_some dir q k w s h (own q w u h).3)
  | inr h ↦ read_none dir q k s' (e ∙ h) ∙ sym (read_none dir q k s h)
]

mapped_self : (m : ℕ → Option ℕ) (v w : ℕ) → mapped m v w v ≡ some w
mapped_self m v w = ground arith

mapped_ne : (m : ℕ → Option ℕ) (v w q : ℕ) → q ≢ v → mapped m v w q ≡ m q
mapped_ne m v w q n = ground (arith, n)

-- A new entry for the same bytes.
pub replaced-Resolves :
    (dir v pte w : ℕ) (s s' : Vm)
    → Owned dir s
    → IsUserIndex (v / 1024)
    → walk dir v s ≡ some pte
    → ((q : ℕ) → IsUserIndex (q / 1024) → walk dir q s' ≡ mapped (λ u. walk dir u s) v w q)
    → ((p : ℕ) → page_is_free s.pages.bitmap p ≡ false → s'.bytes p ≡ s.bytes p)
    → s'.bytes (frame_of w) ≡ s.bytes (frame_of pte)
    → (is_user w ≡ true)
      × (is_writable w ≡ true)
      × (is_cow w ≡ false)
      × (s'.pages.page_refs (frame_of w) ≡ 1)
    → ((p : ℕ) → p ≢ frame_of (s.tables dir (v / 1024)) → s'.tables p ≡ s.tables p)
    → (1 < s.pages.page_refs (frame_of pte) → page_is_free s.pages.bitmap (frame_of w) ≡ true)
    → Resolves dir v pte s (true, s')
replaced-Resolves dir v pte w s s' own uv h m b c (us, wr, nc, one) el fresh =
    let at : walk dir v s' ≡ some w = m v uv ∙ mapped_self (λ u. walk dir u s) v w in
    let away : (q : ℕ) → IsUserIndex (q / 1024) → q ≢ v → walk dir q s' ≡ walk dir q s =
      λ q u n. m q u ∙ mapped_ne (λ u. walk dir u s) v w q n in
    record {
      failed = λ h. cc;
      private_page = λ _. (w, at, us, wr, nc, one);
      others = away;
      same_reads = λ q k u. elim (Bool-cases (q == v)) [
        | inl e ↦
            let same : q ≡ v = ground arith in
            rw same (
              read_some dir v k w s' at us
              ∙ ap (λ (t : ℕ → ℕ). some (t k)) c
              ∙ sym (read_some dir v k pte s h (own v pte uv h).3))
        | inr n ↦ read_kept dir q k s s' own u (away q u (λ e. ground arith)) b
      ];
      same_bytes = b;
      elsewhere = el;
      copied = λ _ lt. (w, at, fresh lt);
    }
