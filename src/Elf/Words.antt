-- ===== src/Elf/Words.antt =====
-- `elf_push_args` of kernel/elf.c: the words that it pushes.
use ali_os.Base.{
  ℕ, zero, suc, ◌+◌, ◌-◌, ◌*◌, ◌/◌, ◌^◌, ◌≤◌, ◌<◌, ◌≡◌, ◌∙◌, refl, ◌==◌, inl, inr, Bool-cases,
  arith,
}
use ali_os.Alfs.{word_at}
use ali_os.Elf.Args.{push_word, push_pointers, push_block, stack_vaddr, Args}

-- What a push leaves alone, and what it stores.
pub push_word_addr : (w : ℕ) (st : ℕ × (ℕ → ℕ)) → (push_word w st).0 ≡ st.0 - 4
unfolding push_word
push_word_addr w st = refl

pub push_word_keeps :
    (w x : ℕ) (st : ℕ × (ℕ → ℕ)) → 4 ≤ st.0 → st.0 ≤ x → (push_word w st).1 x ≡ st.1 x
unfolding push_word
push_word_keeps w x st h le = ground arith

pub word_at-push_word :
    (w : ℕ) (st : ℕ × (ℕ → ℕ)) → w < 2 ^ 32 → word_at (push_word w st).1 (st.0 - 4) ≡ w
unfolding push_word
word_at-push_word w st h = ground arith

pub word_at_kept :
    (m m' : ℕ → ℕ) (p : ℕ) → ((x : ℕ) → p ≤ x → m' x ≡ m x) → word_at m' p ≡ word_at m p
word_at_kept m m' p k =
    rw
      (k p (omega arith), k (p + 1) (omega arith), k (p + 2) (omega arith), k (p + 3) (omega arith))
      refl

-- `n` words, of which the first lies lowest.
pub record Pushes (n : ℕ) (v : ℕ → ℕ) (st out : ℕ × (ℕ → ℕ)) : Type 0 where
  pub addr : out.0 + 4 * n ≡ st.0
  pub keeps : (x : ℕ) → st.0 ≤ x → out.1 x ≡ st.1 x
  pub words : (k : ℕ) → k < n → word_at out.1 (out.0 + 4 * k) ≡ v k

pub push_pointers-Pushes :
    (n : ℕ) (v : ℕ → ℕ) (st : ℕ × (ℕ → ℕ))
    → 4 * n ≤ st.0
    → ((k : ℕ) → k < n → v k < 2 ^ 32)
    → Pushes n v st (push_pointers n v st)
unfolding push_pointers
push_pointers-Pushes zero v st le h = record {
  addr = omega arith;
  keeps = λ x l. refl;
  words = λ k l. absurd (omega arith);
}
push_pointers-Pushes (suc n) v st le h =
    let t = push_word (v n) st in
    let at : t.0 ≡ st.0 - 4 = push_word_addr (v n) st in
    let ih = push_pointers-Pushes n v t (omega arith) (λ k l. h k (omega arith)) in
    record {
      addr = omega (arith, ih.addr);
      keeps = λ x l. ih.keeps x (omega arith) ∙ push_word_keeps (v n) x st (omega arith) l;
      words = λ k l. elim (Bool-cases (k == n)) [
        | inl e ↦
            let same : k ≡ n = ground arith in
            let last : (push_pointers n v t).0 + 4 * n ≡ st.0 - 4 = ih.addr ∙ at in
            rw (same, last)
              (word_at_kept t.1 (push_pointers n v t).1 (st.0 - 4) (λ x b. ih.keeps x (omega arith))
                ∙ word_at-push_word (v n) st (h n (omega arith)))
        | inr e ↦ ih.words k (ground arith)
      ];
    }

-- The block below address `a0`: a return address of 0, `argc`, `argv` and the pointers with their end.
pub record PushedBlock (page a0 argc : ℕ) (v : ℕ → ℕ) (m : ℕ → ℕ) (out : ℕ × (ℕ → ℕ)) : Type 0 where
  pub addr : out.0 + 4 * (argc + 4) ≡ a0
  pub ret : word_at out.1 out.0 ≡ 0
  pub count : word_at out.1 (out.0 + 4) ≡ argc
  pub array : word_at out.1 (out.0 + 8) ≡ stack_vaddr page (out.0 + 12)
  pub pointers : (k : ℕ) → k < argc → word_at out.1 (out.0 + 12 + 4 * k) ≡ v k
  pub end : word_at out.1 (out.0 + 12 + 4 * argc) ≡ 0
  pub keeps : (x : ℕ) → a0 ≤ x → out.1 x ≡ m x

pub push_block-PushedBlock :
    (page : ℕ) (a : Args)
    → 4 * (a.argc + 4) ≤ page + a.top / 4 * 4
    → a.argc < 2 ^ 32
    → ((k : ℕ) → k < a.argc → a.str_vaddrs k < 2 ^ 32)
    → PushedBlock page (page + a.top / 4 * 4) a.argc a.str_vaddrs a.mem (push_block page a)
unfolding push_block
push_block-PushedBlock page a le small h =
    let a0 = page + a.top / 4 * 4 in
    let s0 : ℕ × (ℕ → ℕ) = (a0, a.mem) in
    let s1 = push_word 0 s0 in
    let e1 : s1.0 ≡ a0 - 4 = push_word_addr 0 s0 in
    let s2 = push_pointers a.argc a.str_vaddrs s1 in
    let p = push_pointers-Pushes a.argc a.str_vaddrs s1 (omega arith) h in
    let e2 : s2.0 + 4 * a.argc ≡ a0 - 4 = p.addr ∙ e1 in
    let s3 = push_word (stack_vaddr page s2.0) s2 in
    let e3 : s3.0 ≡ s2.0 - 4 = push_word_addr (stack_vaddr page s2.0) s2 in
    let s4 = push_word a.argc s3 in
    let e4 : s4.0 ≡ s3.0 - 4 = push_word_addr a.argc s3 in
    let s5 = push_word 0 s4 in
    let e5 : s5.0 ≡ s4.0 - 4 = push_word_addr 0 s4 in
    let k5 : (x : ℕ) → s4.0 ≤ x → s5.1 x ≡ s4.1 x = λ x l. push_word_keeps 0 x s4 (omega arith) l in
    let k4 : (x : ℕ) → s3.0 ≤ x → s5.1 x ≡ s3.1 x =
      λ x l. k5 x (omega arith) ∙ push_word_keeps a.argc x s3 (omega arith) l in
    let k3 : (x : ℕ) → s2.0 ≤ x → s5.1 x ≡ s2.1 x =
      λ x l. k4 x (omega arith) ∙ push_word_keeps (stack_vaddr page s2.0) x s2 (omega arith) l in
    let k2 : (x : ℕ) → s1.0 ≤ x → s5.1 x ≡ s1.1 x = λ x l. k3 x (omega arith) ∙ p.keeps x l in
    let b : s5.0 + 12 ≡ s2.0 = omega arith in
    let b8 : s5.0 + 8 ≡ s2.0 - 4 = omega arith in
    let b4 : s5.0 + 4 ≡ s3.0 - 4 = omega arith in
    let bn : s5.0 + 12 + 4 * a.argc ≡ a0 - 4 = omega arith in
    record {
      addr = omega arith;
      ret = rw e5 (word_at-push_word 0 s4 (omega arith));
      count = rw b4 (
          word_at_kept s4.1 s5.1 (s3.0 - 4) (λ x l. k5 x (omega arith))
          ∙ word_at-push_word a.argc s3 small);
      array =
          rw (b8, b)
            (word_at_kept s3.1 s5.1 (s2.0 - 4) (λ x l. k4 x (omega arith))
              ∙ word_at-push_word (stack_vaddr page s2.0) s2 (omega arith));
      pointers = λ k l.
          rw b (word_at_kept s2.1 s5.1 (s2.0 + 4 * k) (λ x g. k3 x (omega arith)) ∙ p.words k l);
      end = rw bn (
          word_at_kept s1.1 s5.1 (a0 - 4) (λ x l. k2 x (omega arith))
          ∙ word_at-push_word 0 s0 (omega arith));
      keeps = λ x l. k2 x (omega arith) ∙ push_word_keeps 0 x s0 (omega arith) l;
    }
