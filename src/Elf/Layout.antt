-- ===== src/Elf/Layout.antt =====
-- `elf_push_args` of kernel/elf.c: what a new program finds on its stack.
use ali_os.Base.{
  ℕ, ◌+◌, ◌-◌, ◌*◌, ◌/◌, ◌%◌, ◌≤◌, ◌<◌, ◌≡◌, ◌∙◌, refl, ap, ltb, if◌then◌else◌, arith, List, [],
  length, get_or,
}
use ali_os.Alfs.{word_at}
use ali_os.Elf.Args.{
  Args, user_stack_vbase, args_max, stack_vaddr, copy_strings, push_block, elf_push_args,
}
use ali_os.Elf.Strings.{text_of, texts_len, CopiesTexts, copy_strings-CopiesTexts}
use ali_os.Elf.Words.{PushedBlock, push_block-PushedBlock}

-- The memory as the program sees it: its stack's page is the one at address `page`.
abbrev pub seen : ℕ → (ℕ → ℕ) → ℕ → ℕ
seen page m x = m (page + (x - user_stack_vbase))

-- The stack at pointer `out.0`: a return address, `argc`, `argv` and behind them the pointers and texts.
pub record Lays (page : ℕ) (argv : List (List ℕ)) (out : ℕ × (ℕ → ℕ)) : Type 0 where
  pub in_page : (user_stack_vbase ≤ out.0) × (out.0 < user_stack_vbase + 4096) × (out.0 % 4 ≡ 0)
  pub ret : word_at (seen page out.1) out.0 ≡ 0
  pub count : word_at (seen page out.1) (out.0 + 4) ≡ length argv
  pub array : word_at (seen page out.1) (out.0 + 8) ≡ out.0 + 12
  pub end : word_at (seen page out.1) (out.0 + 12 + 4 * length argv) ≡ 0
  pub strings :
      (k : ℕ)
      → k < length argv
      → (p : ℕ) × (word_at (seen page out.1) (out.0 + 12 + 4 * k) ≡ p)
        × (out.0 + 16 + 4 * length argv ≤ p)
        × ((j : ℕ)
            → j ≤ length (get_or argv k [])
            → seen page out.1 (p + j) ≡ get_or (text_of argv k) j 0)

seen_word :
    (page d o : ℕ) (m : ℕ → ℕ)
    → word_at (seen page m) (user_stack_vbase + d + o) ≡ word_at m (page + d + o)
seen_word page d o m =
    let e : (i : ℕ) → page + (user_stack_vbase + d + o + i - user_stack_vbase) ≡ page + d + o + i =
      λ i. omega arith in
    let e0 : page + (user_stack_vbase + d + o - user_stack_vbase) ≡ page + d + o = omega arith in
    rw (e0, e 1, e 2, e 3) refl

stack_vaddr_in : (page d : ℕ) → d < 4096 → stack_vaddr page (page + d) ≡ user_stack_vbase + d
stack_vaddr_in page d h = omega arith

-- From the two parts: the strings, then the words below index `r.top / 4 * 4`.
block-Lays :
    (page : ℕ) (argv : List (List ℕ)) (a r : Args)
    → length argv ≤ 12
    → a.top ≡ 4095
    → a.argc ≡ length argv
    → texts_len (length argv) argv + 64 ≤ 4095
    → CopiesTexts (length argv) page argv a r
    → Lays page argv (stack_vaddr page (push_block page r).0, (push_block page r).1)
block-Lays page argv a r few at4095 argc room c =
    let n = length argv in
    let an : r.argc ≡ n = c.same_argc ∙ argc in
    let high : 64 ≤ r.top = omega (arith, c.top) in
    let low : r.top ≤ 4095 = omega (arith, c.top) in
    let b : PushedBlock page (page + r.top / 4 * 4) r.argc r.str_vaddrs r.mem (push_block page r) =
      push_block-PushedBlock page r (omega arith) (omega arith)
        (λ k l. let (t, lo, hi, v, _) = c.strings k (omega arith) in omega (arith, v)) in
    let out = push_block page r in
    let d = r.top / 4 * 4 - 4 * (n + 4) in
    let at : out.0 ≡ page + d = omega (arith, b.addr) in
    let esp : stack_vaddr page out.0 ≡ user_stack_vbase + d =
      rw at (stack_vaddr_in page d (omega arith)) in
    let word : (o x y : ℕ)
        → x ≡ user_stack_vbase + d + o
        → y ≡ out.0 + o
        → word_at (seen page out.1) x ≡ word_at out.1 y =
      λ o x y e f. rw (e, f, at) (seen_word page d o out.1) in
    let next : out.0 + 12 ≡ page + (d + 12) = omega arith in
    let arr : stack_vaddr page (out.0 + 12) ≡ user_stack_vbase + (d + 12) =
      rw next (stack_vaddr_in page (d + 12) (omega arith)) in
    let assoc : user_stack_vbase + (d + 12) ≡ user_stack_vbase + d + 12 = omega arith in
    rw esp (record {
      in_page = (omega arith, omega arith, omega arith);
      ret = word 0 (user_stack_vbase + d) out.0 (omega arith) (omega arith) ∙ b.ret;
      count = word 4 (user_stack_vbase + d + 4) (out.0 + 4) refl refl ∙ b.count ∙ an;
      array = word 8 (user_stack_vbase + d + 8) (out.0 + 8) refl refl ∙ b.array ∙ arr ∙ assoc;
      end =
          word (12 + 4 * n) (user_stack_vbase + d + 12 + 4 * n) (out.0 + 12 + 4 * r.argc)
            (omega arith) (omega arith)
          ∙ b.end;
      strings = λ k l.
          let (t, lo, hi, v, bytes) = c.strings k l in
          (
            user_stack_vbase + t,
            word (12 + 4 * k) (user_stack_vbase + d + 12 + 4 * k) (out.0 + 12 + 4 * k) (omega arith)
                  (omega arith)
                ∙ b.pointers k (omega arith)
                ∙ v,
            omega arith,
            λ j g.
                let e : page + (user_stack_vbase + t + j - user_stack_vbase) ≡ page + t + j =
                  omega arith in
                ap out.1 e ∙ b.keeps (page + t + j) (omega arith) ∙ bytes j g,
          );
    })

-- For at most 12 arguments whose texts, with the zero of each, leave the lowest 64 of the page's first 4095
-- bytes free, the new stack pointer lies in the stack's page and is a multiple of 4. At it, the program
-- finds a return address of 0, then the number of arguments, then the address of the array behind it,
-- which is a pointer for each argument and a 0. Pointer `k` leads, above the array, to the bytes of
-- argument `k` and the zero that ends it. What the pointers' slots held before does not matter.
pub elf_push_args-Lays :
    (page : ℕ) (argv : List (List ℕ)) (junk m : ℕ → ℕ)
    → length argv ≤ 12
    → texts_len (length argv) argv + 64 ≤ 4095
    → Lays page argv (elf_push_args page argv junk m)
unfolding elf_push_args
elf_push_args-Lays page argv junk m few room =
    let cap : (if ltb args_max (length argv) then args_max else length argv) ≡ length argv =
      ground arith in
    let a : Args = record { mem = m; top = 4095; str_vaddrs = junk; argc = length argv } in
    rw cap (
      block-Lays page argv a (copy_strings (length argv) page argv a) few refl refl room
        (copy_strings-CopiesTexts (length argv) page argv a room))
