-- ===== src/Keyboard/Queue.antt =====
-- The ring of kernel/keyboard.c as a queue of at most 63 characters.
use ali_os.Base.{
  ℕ, zero, suc, ◌+◌, ◌-◌, ◌%◌, ◌≤◌, ◌<◌, ◌≡◌, ◌⊎◌, refl, ap, ap₂, update, update_self, update_ne,
  List, [], ◌∷◌, ◌++◌, length, ◌==◌, inl, inr, Bool-cases, arith,
}
use ali_os.Keyboard.{Keyboard, buf_size, buf_push, keyboard_getchar}

abbrev pub held : Keyboard → ℕ
held k = (k.buf_head + buf_size - k.buf_tail) % buf_size

-- `n` characters from position `t` on
abbrev pub ring_window : (ℕ → ℕ) → ℕ → ℕ → List ℕ
ring_window f t zero = []
ring_window f t (suc n) = f t ∷ ring_window f ((t + 1) % buf_size) n

-- The characters that wait to be read, oldest first.
abbrev pub waiting : Keyboard → List ℕ
waiting k = ring_window k.buf k.buf_tail (held k)

pub record IsValid (k : Keyboard) : Type 0 where
  pub head_fits : k.buf_head < buf_size
  pub tail_fits : k.buf_tail < buf_size

length-ring_window : (f : ℕ → ℕ) (t n : ℕ) → length (ring_window f t n) ≡ n
length-ring_window f t zero = refl
length-ring_window f t (suc n) = ap suc (length-ring_window f ((t + 1) % buf_size) n)

ring_window-update :
    (f : ℕ → ℕ) (c n t i : ℕ)
    → n + 1 < buf_size
    → t < buf_size
    → i ≡ (t + n) % buf_size
    → ring_window (update f i c) t (suc n) ≡ ring_window f t n ++ (c ∷ [])
ring_window-update f c zero t i h b e =
    let e' : i ≡ t = omega arith in rw e' (rw (update_self f t c) refl)
ring_window-update f c (suc n) t i h b e =
    ap₂ ◌∷◌ (update_ne f i t c (omega arith))
      (ring_window-update f c n ((t + 1) % buf_size) i (omega arith) (omega arith) (omega arith))

-- What `buf_push` does to the queue: the character goes to its end, or is dropped when 63 wait.
pub record Pushed (c : ℕ) (k k' : Keyboard) : Type 0 where
  pub valid : IsValid k'
  pub room : length (waiting k) < 63 → waiting k' ≡ waiting k ++ (c ∷ [])
  pub full : 63 ≤ length (waiting k) → k' ≡ k
  pub same_shift : k'.shift ≡ k.shift
  pub same_ctrl : k'.ctrl ≡ k.ctrl
  pub same_extended : k'.extended ≡ k.extended

-- `buf_push` puts the character at the end of the queue of a valid keyboard when fewer than 63 wait,
-- and otherwise changes nothing.
pub buf_push-Pushed : (c : ℕ) (k : Keyboard) → IsValid k → Pushed c k (buf_push c k)
unfolding buf_push
buf_push-Pushed c k v = elim (Bool-cases ((k.buf_head + 1) % buf_size == k.buf_tail)) [
  | inl full ↦ rw full (record {
    valid = v;
    room = λ h.
        absurd
          (ground (arith, length-ring_window k.buf k.buf_tail (held k), v.head_fits, v.tail_fits));
    full = λ h. refl;
    same_shift = refl;
    same_ctrl = refl;
    same_extended = refl;
  })
  | inr space ↦ rw space (record {
    valid = record { head_fits = omega arith; tail_fits = v.tail_fits };
    room = λ h.
        let e : ((k.buf_head + 1) % buf_size + buf_size - k.buf_tail) % buf_size ≡ suc (held k) =
          ground (arith, v.head_fits, v.tail_fits) in
        rw e (
          ring_window-update k.buf c (held k) k.buf_tail k.buf_head
            (ground (arith, v.head_fits, v.tail_fits)) v.tail_fits
            (ground (arith, v.head_fits, v.tail_fits)));
    full = λ h.
        absurd
          (ground (arith, length-ring_window k.buf k.buf_tail (held k), v.head_fits, v.tail_fits));
    same_shift = refl;
    same_ctrl = refl;
    same_extended = refl;
  })
]

-- What `keyboard_getchar` does: it takes the oldest character, or returns 0 when none waits.
abbrev pub Got : Keyboard → ℕ × Keyboard → Type 0
Got k (c, k') =
    ((waiting k ≡ []) × (c ≡ 0) × (k' ≡ k)) ⊎ ((waiting k ≡ c ∷ waiting k') × IsValid k')

-- `keyboard_getchar` takes the oldest waiting character of a valid keyboard, or returns 0 and
-- changes nothing when none waits.
pub keyboard_getchar-Got : (k : Keyboard) → IsValid k → Got k (keyboard_getchar k)
unfolding keyboard_getchar
keyboard_getchar-Got k v = elim (Bool-cases (k.buf_tail == k.buf_head)) [
  | inl empty ↦
      let e : held k ≡ 0 = ground (arith, v.head_fits) in rw empty (inl (rw e refl, refl, refl))
  | inr some_wait ↦
      let e : held k ≡ suc ((k.buf_head + buf_size - (k.buf_tail + 1) % buf_size) % buf_size) =
        ground (arith, v.head_fits, v.tail_fits) in
      rw some_wait (inr (rw e refl, record { head_fits = v.head_fits; tail_fits = omega arith }))
]
