-- ===== src/Elf/Args.antt =====
-- `elf_push_args` of kernel/elf.c: the argument block of a new program. The memory is a function of the
-- address, and `page` the address of the stack's page.
use ali_os.Base.{
  ℕ, zero, suc, ◌+◌, ◌-◌, ◌*◌, ◌/◌, ◌%◌, u32, update, length, get_or, ◌++◌, List, [], ◌∷◌,
  if◌then◌else◌, ltb,
}
use ali_os.Elf.{place}

abbrev pub user_stack_vbase : ℕ
user_stack_vbase = 0xBFFFF000

abbrev pub args_max : ℕ
args_max = 15

-- `top` is the index in the page of the last byte taken. `str_vaddrs` begins with what its stack slots
-- hold.
pub record Args : Type 0 where
  pub mem : ℕ → ℕ
  pub top : ℕ
  pub str_vaddrs : ℕ → ℕ
  pub argc : ℕ

-- One string is copied to index `top`.
abbrev pub string_copied : ℕ → ℕ → List ℕ → ℕ → Args → Args
string_copied page i s top a = record a {
  mem = place (s ++ 0 ∷ []) (page + top) a.mem;
  top = top;
  str_vaddrs = update a.str_vaddrs i (user_stack_vbase + top);
}

-- Step 1, from string `i - 1` down to string 0. The index `top - len` is below 64 exactly if
-- `top` is below `len + 64`.
unfoldable pub copy_strings : ℕ → ℕ → List (List ℕ) → Args → Args
copy_strings zero page argv a = a
copy_strings (suc i) page argv a =
    let s = get_or argv i [] in
    let len = length s + 1 in
    let rest = copy_strings i page argv (string_copied page i s (a.top - len) a) in
    if ltb a.top (len + 64) then record a { argc = i } else rest

-- `top -= 4; *(uint32_t *)(stack_page + top) = w`, for the address `a` of index `top`.
abbrev pub put_word : ℕ → ℕ → (ℕ → ℕ) → ℕ → ℕ
put_word a w m =
    update
      (update (update (update m a (w % 256)) (a + 1) (w / 256 % 256)) (a + 2) (w / 65536 % 256))
      (a + 3) (w / 16777216 % 256)

unfoldable pub push_word : ℕ → (ℕ × (ℕ → ℕ)) → ℕ × (ℕ → ℕ)
push_word w (a, m) = (a - 4, put_word (a - 4) w m)

-- The loop of step 3, from pointer `i - 1` down to pointer 0.
unfoldable pub push_pointers : ℕ → (ℕ → ℕ) → (ℕ × (ℕ → ℕ)) → ℕ × (ℕ → ℕ)
push_pointers zero v st = st
push_pointers (suc i) v st = push_pointers i v (push_word (v i) st)

-- The page's virtual address of address `a`.
abbrev pub stack_vaddr : ℕ → ℕ → ℕ
stack_vaddr page a = u32 (user_stack_vbase + a - page)

-- Steps 2 to 4.
unfoldable pub push_block : ℕ → Args → ℕ × (ℕ → ℕ)
push_block page a =
    let table = push_pointers a.argc a.str_vaddrs (push_word 0 (page + a.top / 4 * 4, a.mem)) in
    push_word 0 (push_word a.argc (push_word (stack_vaddr page table.0) table))

-- The new stack pointer and the memory.
unfoldable pub elf_push_args : ℕ → List (List ℕ) → (ℕ → ℕ) → (ℕ → ℕ) → ℕ × (ℕ → ℕ)
elf_push_args page argv junk m =
    let argc = if ltb args_max (length argv) then args_max else length argv in
    let (a, m') = push_block page (
      copy_strings argc page argv
        (record { mem = m; top = 4095; str_vaddrs = junk; argc = argc })) in
    (stack_vaddr page a, m')
