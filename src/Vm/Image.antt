-- ===== src/Vm/Image.antt =====
-- `uvm_clone` of kernel/uvm.c: an address space whose entries point to the pages of another's.
use mathlib.Core.Option
use mathlib.Core.Option.{some-injective}
use ali_os.Base.{
  ℕ, ◌/◌, ◌≡◌, ◌∙◌, ◌≤◌, refl, ap, sym, false, Option, none, some, inl, inr, arith, true,
}
use ali_os.Pmm.{page_is_free}
use ali_os.Vm.{Vm, is_user, frame_of}
use ali_os.Vm.Map.{walk, IsUserIndex}
use ali_os.Vm.Cow.{Owned, read_byte, read_some, read_none, Option-cases}

-- What was mapped, if the result is.
pub mapped_from {ℓ ℓ'} :
    {A : Type ℓ} {B : Type ℓ'}
    → (f : A → B) (o : Option A) (y : B) → Option.map f o ≡ some y
    → (x : A) × (o ≡ some x) × (f x ≡ y)
mapped_from f none y e = absurd (cc e)
mapped_from f (some x) y e = (x, refl, some-injective (f x) y e)

-- Directory `d` in state `s'` has entry `f w` where directory `p` in state `s` has `w`.
module _ (p d : ℕ) (f : ℕ → ℕ) (s s' : Vm)
    (m : (q : ℕ) → IsUserIndex (q / 1024) → walk d q s' ≡ Option.map f (walk p q s))
    (same_page : (w : ℕ) → frame_of (f w) ≡ frame_of w)
    (user : (w : ℕ) → is_user w ≡ true → is_user (f w) ≡ true) (own : Owned p s) where
  pub read_image :
      (q k : ℕ)
      → IsUserIndex (q / 1024)
      → s'.bytes ≡ s.bytes
      → read_byte d q k s' ≡ read_byte p q k s
  read_image q k u b = elim (Option-cases (walk p q s)) [
    | inl (w, e) ↦
        read_some d q k (f w) s' (m q u ∙ ap (Option.map f) e) (user w (own q w u e).3)
        ∙ rw (b, same_page w) (sym (read_some p q k w s e (own q w u e).3))
    | inr e ↦ read_none d q k s' (m q u ∙ ap (Option.map f) e) ∙ sym (read_none p q k s e)
  ]

  pub image-Owned :
      ((x : ℕ) → page_is_free s.pages.bitmap x ≡ false → page_is_free s'.pages.bitmap x ≡ false)
      → ((x : ℕ)
          → page_is_free s.pages.bitmap x ≡ false
          → s.pages.page_refs x ≤ s'.pages.page_refs x)
      → Owned d s'
  image-Owned kept more q w u e =
      let (x, is_x, at) = mapped_from f (walk p q s) w (sym (m q u) ∙ e) in
      let (lt, one, used, us) = own q x u is_x in
      rw (← at, same_page x)
        (lt, omega (arith, one, more (frame_of x) used), kept (frame_of x) used, user x us)
