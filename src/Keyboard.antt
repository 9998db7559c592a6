-- ===== src/Keyboard.antt =====
-- kernel/keyboard.c: the handler of IRQ 1 and the ring of characters that it fills.
pub mod Queue
pub mod Keys
mod Tests
use ali_os.Base.{
  ℕ, ◌+◌, ◌-◌, ◌%◌, ◌^◌, ◌≤◌, ◌<◌, update, get_or, Bool, true, false, not, ◌&&◌, ◌||◌, List, [],
  ◌∷◌, if◌then◌else◌, ◌==◌, ltb, leb,
}

-- BUF_SIZE
abbrev pub buf_size : ℕ
buf_size = 64

-- `buf`, its two positions, and what the handler knows of the keys that are held down.
pub record Keyboard : Type 0 where
  pub buf : ℕ → ℕ
  pub buf_head : ℕ
  pub buf_tail : ℕ
  pub shift : Bool
  pub ctrl : Bool
  pub extended : Bool

-- A character is a byte; 0 stands for no character.
abbrev pub sc_unshifted : List ℕ
sc_unshifted =
    0 ∷ 0 ∷ b'1' ∷ b'2' ∷ b'3' ∷ b'4' ∷ b'5' ∷ b'6' ∷ b'7' ∷ b'8' ∷ b'9' ∷ b'0' ∷ b'-' ∷ b'=' ∷ 8
    ∷ 9 ∷ b'q' ∷ b'w' ∷ b'e' ∷ b'r' ∷ b't' ∷ b'y' ∷ b'u' ∷ b'i' ∷ b'o' ∷ b'p' ∷ b'[' ∷ b']' ∷ 10 ∷ 0
    ∷ b'a' ∷ b's' ∷ b'd' ∷ b'f' ∷ b'g' ∷ b'h' ∷ b'j' ∷ b'k' ∷ b'l' ∷ b';' ∷ 39 ∷ b'`' ∷ 0 ∷ 92
    ∷ b'z' ∷ b'x' ∷ b'c' ∷ b'v' ∷ b'b' ∷ b'n' ∷ b'm' ∷ b',' ∷ b'.' ∷ b'/' ∷ 0 ∷ b'*' ∷ 0 ∷ b' ' ∷ []

abbrev pub sc_shifted : List ℕ
sc_shifted =
    0 ∷ 0 ∷ b'!' ∷ b'@' ∷ b'#' ∷ b'$' ∷ b'%' ∷ b'^' ∷ b'&' ∷ b'*' ∷ b'(' ∷ b')' ∷ b'_' ∷ b'+' ∷ 8
    ∷ 9 ∷ b'Q' ∷ b'W' ∷ b'E' ∷ b'R' ∷ b'T' ∷ b'Y' ∷ b'U' ∷ b'I' ∷ b'O' ∷ b'P' ∷ b'{' ∷ b'}' ∷ 10 ∷ 0
    ∷ b'A' ∷ b'S' ∷ b'D' ∷ b'F' ∷ b'G' ∷ b'H' ∷ b'J' ∷ b'K' ∷ b'L' ∷ b':' ∷ 34 ∷ b'~' ∷ 0 ∷ b'|'
    ∷ b'Z' ∷ b'X' ∷ b'C' ∷ b'V' ∷ b'B' ∷ b'N' ∷ b'M' ∷ b'<' ∷ b'>' ∷ b'?' ∷ 0 ∷ b'*' ∷ 0 ∷ b' ' ∷ []

-- sizeof(sc_unshifted)
abbrev pub table_size : ℕ
table_size = 58

-- The character is dropped when the ring is full.
unfoldable pub buf_push : ℕ → Keyboard → Keyboard
buf_push c k =
    let next = (k.buf_head + 1) % buf_size in
    if next == k.buf_tail then k else record k { buf = update k.buf k.buf_head c; buf_head = next }

unfoldable pub keyboard_getchar : Keyboard → ℕ × Keyboard
keyboard_getchar k =
    if k.buf_tail == k.buf_head
    then (0, k)
    else (k.buf k.buf_tail, record k { buf_tail = (k.buf_tail + 1) % buf_size })

-- The `switch` over extended make codes: KEY_UP to KEY_END and KEY_DEL, or none (0).
abbrev pub extended_key : ℕ → ℕ
extended_key sc =
    if sc == 0x48
    then 1
    else if sc == 0x50
    then 2
    else if sc == 0x4B
    then 3
    else if sc == 0x4D
    then 4
    else if sc == 0x53
    then 0x7F
    else if sc == 0x47
    then 5
    else if sc == 0x4F
    then 6
    else 0

abbrev pub is_shift : ℕ → Bool
is_shift sc = (sc == 0x2A) || (sc == 0x36)

abbrev pub is_ctrl : ℕ → Bool
is_ctrl sc = sc == 0x1D

abbrev pub lower : ℕ → ℕ
lower c = if leb b'A' c && leb c b'Z' then c + 32 else c

-- The character that the handler pushes for a table entry: `lc & 0x1F` is `lc % 32`.
unfoldable pub key_char : Bool → ℕ → ℕ
key_char ctrl c = if ctrl && (leb b'a' (lower c) && leb (lower c) b'z') then lower c % 32 else c

unfoldable pub on_extended : ℕ → Keyboard → Keyboard
unfolding buf_push
on_extended sc k =
    let k' = record k { extended = false } in
    if leb 0x80 sc || (extended_key sc == 0) then k' else buf_push (extended_key sc) k'

unfoldable pub on_release : ℕ → Keyboard → Keyboard
on_release sc k = record k {
  shift = if is_shift (sc % 0x80) then false else k.shift;
  ctrl = if is_ctrl (sc % 0x80) then false else k.ctrl;
}

-- The end of the handler, for a key with a table entry.
unfoldable pub on_key : ℕ → Keyboard → Keyboard
unfolding buf_push key_char
on_key sc k =
    let c = get_or (if k.shift then sc_shifted else sc_unshifted) sc 0 in
    if ltb sc table_size && not (c == 0) then buf_push (key_char k.ctrl c) k else k

-- `kbd_handler` with the byte that it reads from the port. The flag says that it called the function
-- installed by `keyboard_on_ctrlc`.
unfoldable pub kbd_handler : ℕ → Keyboard → Bool × Keyboard
kbd_handler sc k =
    if sc == 0xE0
    then (false, record k { extended = true })
    else if k.extended
    then (false, on_extended sc k)
    else if leb 0x80 sc
    then (false, on_release sc k)
    else if is_shift sc
    then (false, record k { shift = true })
    else if is_ctrl sc
    then (false, record k { ctrl = true })
    else if k.ctrl && (sc == 0x2E)
    then (true, k)
    else (false, on_key sc k)
