-- ===== src/Keyboard/Tests.antt =====
-- Tests of kernel/keyboard.c's model, and its theorems at concrete inputs.
use ali_os.Base.{ℕ, ◌≡◌, refl, false, List, [], ◌∷◌, map, arith}
use ali_os.Keyboard.{
  Keyboard, kbd_handler, keyboard_getchar, buf_push, on_key, on_release, on_extended, key_char,
}
use ali_os.Keyboard.Queue.{IsValid, Got, Pushed, waiting, buf_push-Pushed, keyboard_getchar-Got}
use ali_os.Keyboard.Keys.{IsPlain, char_of, stroke, strokes, read_chars, typed_read}

-- An empty ring whose positions are about to wrap.
abbrev idle : Keyboard
idle = record {
  buf = λ i. 0;
  buf_head = 63;
  buf_tail = 63;
  shift = false;
  ctrl = false;
  extended = false;
}

idle-IsValid : IsValid idle
idle-IsValid = record { head_fits = omega arith; tail_fits = omega arith }

-- The keys `h` and `i`.
abbrev hi_keys : List ℕ
hi_keys = 0x23 ∷ 0x17 ∷ []

typed_hi : waiting (strokes hi_keys idle) ≡ b'h' ∷ b'i' ∷ []
unfolding strokes kbd_handler buf_push on_key on_release key_char
typed_hi = refl

-- Shift is pressed, `h` is typed, and shift is released.
shifted_h : waiting (kbd_handler 0xAA (stroke 0x23 (kbd_handler 0x2A idle).1)).1 ≡ b'H' ∷ []
unfolding kbd_handler buf_push on_key on_release key_char
shifted_h = refl

-- Control and `a` give the same character as the up arrow.
ctrl_a_is_up :
    waiting (kbd_handler 0x1E (kbd_handler 0x1D idle).1).1
    ≡ waiting (kbd_handler 0x48 (kbd_handler 0xE0 idle).1).1
unfolding kbd_handler buf_push on_key on_release key_char on_extended
ctrl_a_is_up = refl

IsPlain-h : IsPlain false 0x23
IsPlain-h = record {
  in_table = omega arith;
  no_shift = refl;
  no_ctrl = refl;
  has_char = λ e. absurd (omega arith);
}

IsPlain-i : IsPlain false 0x17
IsPlain-i = record {
  in_table = omega arith;
  no_shift = refl;
  no_ctrl = refl;
  has_char = λ e. absurd (omega arith);
}

typed_read_example : read_chars 2 (strokes hi_keys idle) ≡ map (char_of false) hi_keys
typed_read_example =
    typed_read hi_keys idle idle-IsValid (IsPlain-h, (IsPlain-i, tt)) (refl, refl) refl
      (omega arith)

-- The make code of `c`.
abbrev c_key : ℕ
c_key = 0x2E

buf_push-Pushed_example : Pushed b'x' idle (buf_push b'x' idle)
buf_push-Pushed_example = buf_push-Pushed b'x' idle idle-IsValid

keyboard_getchar-Got_example : Got (buf_push b'x' idle) (keyboard_getchar (buf_push b'x' idle))
keyboard_getchar-Got_example =
    keyboard_getchar-Got (buf_push b'x' idle) (buf_push-Pushed b'x' idle idle-IsValid).valid
