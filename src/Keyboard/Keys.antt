-- ===== src/Keyboard/Keys.antt =====
-- What `kbd_handler` of kernel/keyboard.c makes of keys pressed and released.
use mathlib.Core.Path.{subst}
use ali_os.Base.{
  ap₂, ℕ, zero, suc, ◌+◌, ◌%◌, ◌≤◌, ◌<◌, ◌≡◌, ◌≢◌, ◌∙◌, ◌↔◌, refl, ap, sym, Bool, true, false, not,
  ◌&&◌, List, [], ◌∷◌, ◌++◌, append_assoc, append-nil, length, length-append, get_or, map,
  if◌then◌else◌, ◌==◌, ltb, leb, inl, inr, Bool-cases, arith,
}
use ali_os.Keyboard.{
  Keyboard, sc_shifted, sc_unshifted, table_size, buf_push, is_shift, is_ctrl, key_char, on_release,
  on_key, kbd_handler, keyboard_getchar,
}
use ali_os.Keyboard.Queue.{IsValid, waiting, buf_push-Pushed, keyboard_getchar-Got}

-- The character of a key while shift is up or down.
abbrev pub char_of : Bool → ℕ → ℕ
char_of shift sc = get_or (if shift then sc_shifted else sc_unshifted) sc 0

-- A key that has a character, and is neither shift nor control.
pub record IsPlain (shift : Bool) (sc : ℕ) : Type 0 where
  pub in_table : sc < table_size
  pub no_shift : is_shift sc ≡ false
  pub no_ctrl : is_ctrl sc ≡ false
  pub has_char : char_of shift sc ≢ 0

abbrev pub AllPlain : Bool → List ℕ → Type 0
AllPlain shift [] = Unit
AllPlain shift (sc ∷ scs) = IsPlain shift sc × AllPlain shift scs

-- Neither control nor the prefix of an extended key is in force.
abbrev pub Typing : Keyboard → Type 0
Typing k = (k.extended ≡ false) × (k.ctrl ≡ false)

-- A key is pressed and released.
abbrev pub stroke : ℕ → Keyboard → Keyboard
stroke sc k = (kbd_handler (sc + 0x80) (kbd_handler sc k).1).1

pressed :
    (sc : ℕ) (k : Keyboard)
    → IsPlain k.shift sc
    → Typing k
    → kbd_handler sc k ≡ (false, buf_push (char_of k.shift sc) k)
unfolding kbd_handler on_key key_char
pressed sc k p t =
    let prefix : (sc == 0xE0) ≡ false = ground (arith, p.in_table) in
    let make : leb 0x80 sc ≡ false = ground (arith, p.in_table) in
    let lives : (ltb sc table_size && not (char_of k.shift sc == 0)) ≡ true =
      ground (arith, p.in_table, p.has_char) in
    rw (prefix, t.0, make, p.no_shift, p.no_ctrl, t.1, lives) refl

released :
    (sc : ℕ) (k : Keyboard)
    → IsPlain k.shift sc
    → k.extended ≡ false
    → kbd_handler (sc + 0x80) k ≡ (false, k)
unfolding kbd_handler on_release
released sc k p e =
    let prefix : (sc + 0x80 == 0xE0) ≡ false = ground (arith, p.in_table) in
    let break_code : leb 0x80 (sc + 0x80) ≡ true = ground arith in
    let same : (sc + 0x80) % 0x80 ≡ sc = omega (arith, p.in_table) in
    rw (prefix, e, break_code, same, p.no_shift, p.no_ctrl) refl

stroke-buf_push :
    (sc : ℕ) (k : Keyboard)
    → IsValid k
    → IsPlain k.shift sc
    → Typing k
    → stroke sc k ≡ buf_push (char_of k.shift sc) k
stroke-buf_push sc k v p t =
    let q = buf_push-Pushed (char_of k.shift sc) k v in
    let p' : IsPlain (buf_push (char_of k.shift sc) k).shift sc = rw q.same_shift p in
    ap (λ (o : Bool × Keyboard). (kbd_handler (sc + 0x80) o.1).1) (pressed sc k p t)
    ∙ ap (λ (o : Bool × Keyboard). o.1)
        (released sc (buf_push (char_of k.shift sc) k) p' (q.same_extended ∙ t.0))

-- Keys pressed and released one after another.
unfoldable pub strokes : List ℕ → Keyboard → Keyboard
strokes [] k = k
strokes (sc ∷ scs) k = strokes scs (stroke sc k)

-- Text typed with plain keys, with shift up or down throughout, waits to be read in order, behind what
-- waits already, as long as at most 63 characters wait in all.
pub strokes-waiting :
    (scs : List ℕ) (k : Keyboard)
    → IsValid k
    → AllPlain k.shift scs
    → Typing k
    → length (waiting k) + length scs ≤ 63
    → waiting (strokes scs k) ≡ waiting k ++ map (char_of k.shift) scs
unfolding strokes
strokes-waiting [] k v p t h = sym (append-nil (waiting k))
strokes-waiting (sc ∷ scs) k v p t h =
    let c = char_of k.shift sc in
    let q = buf_push-Pushed c k v in
    let k' = buf_push c k in
    let longer = q.room (omega arith) in
    let behind : waiting k' ++ map (char_of k'.shift) scs
        ≡ waiting k ++ (c ∷ map (char_of k.shift) scs) =
      rw (longer, q.same_shift) (append_assoc (waiting k) (c ∷ []) (map (char_of k.shift) scs)) in
    ap (λ (j : Keyboard). waiting (strokes scs j)) (stroke-buf_push sc k v p.0 t)
    ∙ strokes-waiting scs k' q.valid (rw q.same_shift p.1)
        (q.same_extended ∙ t.0, q.same_ctrl ∙ t.1)
        (omega (arith, ap length longer, length-append (waiting k) (c ∷ [])))
    ∙ behind

-- The first `n` characters that `keyboard_getchar` returns.
unfoldable pub read_chars : ℕ → Keyboard → List ℕ
read_chars zero k = []
read_chars (suc n) k = let (c, k') = keyboard_getchar k in c ∷ read_chars n k'

read_waiting :
    (cs : List ℕ) (k : Keyboard) → IsValid k → waiting k ≡ cs → read_chars (length cs) k ≡ cs
unfolding read_chars
read_waiting [] k v e = refl
read_waiting (c ∷ cs) k v e = elim (keyboard_getchar-Got k v) [
  | inl (none_wait, _, _) ↦ absurd (cc (none_wait, e))
  | inr (w, v') ↦
      let k' = (keyboard_getchar k).1 in
      let first : (keyboard_getchar k).0 ≡ c = cc (w, e) in
      let later : waiting k' ≡ cs = cc (w, e) in ap₂ ◌∷◌ first (read_waiting cs k' v' later)
]

strokes-IsValid :
    (scs : List ℕ) (k : Keyboard)
    → IsValid k
    → AllPlain k.shift scs
    → Typing k
    → IsValid (strokes scs k)
unfolding strokes
strokes-IsValid [] k v p t = v
strokes-IsValid (sc ∷ scs) k v p t =
    let q = buf_push-Pushed (char_of k.shift sc) k v in
    let later : IsValid (strokes scs (buf_push (char_of k.shift sc) k)) =
      strokes-IsValid scs (buf_push (char_of k.shift sc) k) q.valid (rw q.same_shift p.1)
        (q.same_extended ∙ t.0, q.same_ctrl ∙ t.1) in
    subst (λ (j : Keyboard). IsValid (strokes scs j)) (sym (stroke-buf_push sc k v p.0 t)) later

-- What is typed is read: after at most 63 plain keys, with shift up or down throughout and nothing
-- waiting before, `keyboard_getchar` returns their characters in order.
pub typed_read :
    (scs : List ℕ) (k : Keyboard)
    → IsValid k
    → AllPlain k.shift scs
    → Typing k
    → waiting k ≡ []
    → length scs ≤ 63
    → read_chars (length (map (char_of k.shift) scs)) (strokes scs k) ≡ map (char_of k.shift) scs
typed_read scs k v p t none_wait few =
    let text : waiting (strokes scs k) ≡ map (char_of k.shift) scs =
      strokes-waiting scs k v p t (omega (arith, ap length none_wait))
      ∙ ap (λ l. l ++ map (char_of k.shift) scs) none_wait in
    read_waiting (map (char_of k.shift) scs) (strokes scs k) (strokes-IsValid scs k v p t) text

-- `kbd_handler` calls the Ctrl-C function exactly on the make code of the key `c` with control held
-- down and no extended prefix before, and then leaves the keyboard as it is.
pub kbd_handler_ctrlc :
    (sc : ℕ) (k : Keyboard)
    → ((kbd_handler sc k).0 ≡ true)
      ↔ ((k.extended ≡ false) × (k.ctrl ≡ true) × (sc ≡ 0x2E) × (kbd_handler sc k ≡ (true, k)))
unfolding kbd_handler
kbd_handler_ctrlc sc k = elim (Bool-cases (sc == 0xE0)) [
  | inl prefix ↦ rw prefix ((λ h. ground arith), λ h. ground arith)
  | inr e0 ↦ elim (Bool-cases k.extended) [
    | inl ext ↦ rw (e0, ext) ((λ h. ground arith), λ h. ground arith)
    | inr e1 ↦ rw (e0, e1) ((λ h. ground arith), λ h. ground arith)
  ]
]
