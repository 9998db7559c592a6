-- ===== src/Pipe/Contents.antt =====
-- The bytes that a pipe holds, oldest first, and the invariant of its two positions.
use ali_os.Base.{
  ℕ, zero, suc, ◌+◌, ◌%◌, ◌^◌, ◌≤◌, ◌<◌, ◌≡◌, refl, ap, ap₂, u32, update, update_self, update_ne,
  length, List, [], ◌∷◌, ◌++◌, arith,
}
use ali_os.Pipe.{Pipe, pipe_buf, avail}

-- `n` bytes from position `t` on
abbrev pub window : (ℕ → ℕ) → ℕ → ℕ → List ℕ
window f t zero = []
window f t (suc n) = f (t % pipe_buf) ∷ window f (u32 (t + 1)) n

abbrev pub contents : Pipe → List ℕ
contents p = window p.bytes p.tail (avail p)

pub record IsValid (p : Pipe) : Type 0 where
  pub head_fits : p.head < 2 ^ 32
  pub tail_fits : p.tail < 2 ^ 32
  pub holds : avail p ≤ pipe_buf

pub length-window : (f : ℕ → ℕ) (t n : ℕ) → length (window f t n) ≡ n
length-window f t zero = refl
length-window f t (suc n) = ap suc (length-window f (u32 (t + 1)) n)

-- Writing just past a window of fewer than 512 bytes makes it longer by that byte.
pub window-update :
    (f : ℕ → ℕ) (b n t i : ℕ)
    → n < pipe_buf
    → i ≡ (t + n) % pipe_buf
    → window (update f i b) t (suc n) ≡ window f t n ++ (b ∷ [])
window-update f b zero t i h e =
    let e' : i ≡ t % pipe_buf = omega arith in rw e' (rw (update_self f (t % pipe_buf) b))
window-update f b (suc n) t i h e =
    ap₂ ◌∷◌ (update_ne f i (t % pipe_buf) b (omega arith))
      (window-update f b n (u32 (t + 1)) i (omega arith) (omega arith))
