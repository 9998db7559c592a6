-- ===== src/Elf/Strings.antt =====
-- `elf_push_args` of kernel/elf.c: the strings that it copies.
use ali_os.Base.{
  ℕ, zero, suc, ◌+◌, ◌-◌, ◌≤◌, ◌<◌, ◌≡◌, ◌∙◌, refl, false, ◌==◌, ltb, inl, inr, Bool-cases, arith,
  List, [], ◌∷◌, ◌++◌, length, length-append, get_or, update_self, update_ne,
}
use ali_os.Elf.{place}
use ali_os.Elf.Args.{Args, user_stack_vbase, string_copied, copy_strings}

-- String `i` with the zero that ends it.
abbrev pub text_of : List (List ℕ) → ℕ → List ℕ
text_of argv i = get_or argv i [] ++ 0 ∷ []

-- The bytes that the first `n` strings take.
abbrev pub texts_len : ℕ → List (List ℕ) → ℕ
texts_len zero argv = 0
texts_len (suc n) argv = texts_len n argv + (length (get_or argv n []) + 1)

place_in :
    (bs : List ℕ) (a j : ℕ) (m : ℕ → ℕ) → j < length bs → place bs a m (a + j) ≡ get_or bs j 0
place_in bs a j m l = let e : a + j - a ≡ j = omega arith in rw e (ground arith)

place_above : (bs : List ℕ) (a x : ℕ) (m : ℕ → ℕ) → a + length bs ≤ x → place bs a m x ≡ m x
place_above bs a x m l = ground arith

-- The first `n` strings are copied.
pub record CopiesTexts (n page : ℕ) (argv : List (List ℕ)) (a r : Args) : Type 0 where
  pub same_argc : r.argc ≡ a.argc
  pub top : r.top + texts_len n argv ≡ a.top
  pub keeps : (x : ℕ) → page + a.top ≤ x → r.mem x ≡ a.mem x
  pub others : (k : ℕ) → n ≤ k → r.str_vaddrs k ≡ a.str_vaddrs k
  pub strings :
      (k : ℕ)
      → k < n
      → (t : ℕ) × (r.top ≤ t)
        × (t + (length (get_or argv k []) + 1) ≤ a.top)
        × (r.str_vaddrs k ≡ user_stack_vbase + t)
        × ((j : ℕ)
            → j ≤ length (get_or argv k [])
            → r.mem (page + t + j) ≡ get_or (text_of argv k) j 0)

pub copy_strings-CopiesTexts :
    (n page : ℕ) (argv : List (List ℕ)) (a : Args)
    → texts_len n argv + 64 ≤ a.top
    → CopiesTexts n page argv a (copy_strings n page argv a)
unfolding copy_strings
copy_strings-CopiesTexts zero page argv a h = record {
  same_argc = refl;
  top = omega arith;
  keeps = λ x l. refl;
  others = λ k l. refl;
  strings = λ k l. absurd (omega arith);
}
copy_strings-CopiesTexts (suc n) page argv a h =
    let s = get_or argv n [] in
    let t = a.top - (length s + 1) in
    let b = string_copied page n s t a in
    let fits : ltb a.top (length s + 1 + 64) ≡ false = ground arith in
    let ih = copy_strings-CopiesTexts n page argv b (omega arith) in
    let len : length (text_of argv n) ≡ length s + 1 = length-append s (0 ∷ []) in
    rw fits (record {
      same_argc = ih.same_argc;
      top = omega (arith, ih.top);
      keeps = λ x l.
          ih.keeps x (omega arith)
          ∙ place_above (text_of argv n) (page + t) x a.mem (omega (arith, len));
      others = λ k l.
          ih.others k (omega arith)
          ∙ update_ne a.str_vaddrs n k (user_stack_vbase + t) (λ e. absurd (omega arith));
      strings = λ k l. elim (Bool-cases (k == n)) [
        | inl e ↦
            let same : k ≡ n = ground arith in
            rw same (
              t,
              omega (arith, ih.top),
              omega arith,
              ih.others n (omega arith) ∙ update_self a.str_vaddrs n (user_stack_vbase + t),
              λ j g.
                  ih.keeps (page + t + j) (omega arith)
                  ∙ place_in (text_of argv n) (page + t) j a.mem (omega (arith, len, g)),
            )
        | inr e ↦
            let (u, lo, hi, v, bytes) = ih.strings k (ground arith) in
            (u, lo, omega arith, v, bytes)
      ];
    })
