-- ===== src/Pipe/Fifo.antt =====
-- The inner loops of `pipe_read` and `pipe_write` move bytes in order, whatever the positions are
-- modulo 2^32.
use ali_os.Base.{
  ℕ, zero, suc, ◌+◌, ◌%◌, ◌≤◌, ◌<◌, ◌≡◌, refl, sym, ap, ◌∙◌, u32, update, length, List, [], ◌∷◌,
  ◌++◌, append-nil, append_assoc, arith,
}
use ali_os.Pipe.{Pipe, pipe_buf, avail, drain, fill}
use ali_os.Pipe.Contents.{window, contents, IsValid, window-update}

-- one round of the loop of `pipe_write`
abbrev pub put_byte : ℕ → Pipe → Pipe
put_byte b p = record p { bytes = update p.bytes (p.head % pipe_buf) b; head = u32 (p.head + 1) }

-- one round of the loop of `pipe_read`
abbrev pub take_byte : Pipe → Pipe
take_byte p = record p { tail = u32 (p.tail + 1) }

put_byte-avail :
    (b : ℕ) (p : Pipe) → IsValid p → avail p < pipe_buf → avail (put_byte b p) ≡ suc (avail p)
put_byte-avail b p v h = omega arith

put_byte-IsValid : (b : ℕ) (p : Pipe) → IsValid p → avail p < pipe_buf → IsValid (put_byte b p)
put_byte-IsValid b p v h = omega arith

put_byte-contents :
    (b : ℕ) (p : Pipe)
    → IsValid p
    → avail p < pipe_buf
    → contents (put_byte b p) ≡ contents p ++ (b ∷ [])
put_byte-contents b p v h =
    rw (put_byte-avail b p v h)
      (window-update p.bytes b (avail p) p.tail (p.head % pipe_buf) h (omega arith))

take_byte-avail : (p : Pipe) → IsValid p → 0 < avail p → avail p ≡ suc (avail (take_byte p))
take_byte-avail p v h = omega arith

take_byte-IsValid : (p : Pipe) → IsValid p → 0 < avail p → IsValid (take_byte p)
take_byte-IsValid p v h = omega arith

take_byte-contents :
    (p : Pipe)
    → IsValid p
    → 0 < avail p
    → contents p ≡ p.bytes (p.tail % pipe_buf) ∷ contents (take_byte p)
take_byte-contents p v h = ap (window p.bytes p.tail) (take_byte-avail p v h)

-- what `fill` does to a valid pipe with room for all of `bs`
pub record Filled (bs : List ℕ) (p q : Pipe) : Type 0 where
  pub valid : IsValid q
  pub appended : contents q ≡ contents p ++ bs
  pub longer : avail q ≡ avail p + length bs

pub fill-Filled :
    (bs : List ℕ) (p : Pipe) → IsValid p → avail p + length bs ≤ pipe_buf → Filled bs p (fill bs p)
unfolding fill
fill-Filled [] p v h = record {
  valid = v;
  appended = sym (append-nil (contents p));
  longer = omega arith;
}
fill-Filled (b ∷ bs) p v h =
    let ih =
      fill-Filled bs (put_byte b p) (put_byte-IsValid b p v (omega arith))
        (omega (arith, put_byte-avail b p v (omega arith))) in
    record {
      valid = ih.valid;
      appended =
          ih.appended
          ∙ rw (put_byte-contents b p v (omega arith)) (append_assoc (contents p) (b ∷ []) bs);
      longer = omega (arith, ih.longer, put_byte-avail b p v (omega arith));
    }

-- what `drain k` does to a valid pipe that holds `k` bytes or more
pub record Drained (k : ℕ) (p : Pipe) (out : List ℕ × Pipe) : Type 0 where
  pub valid : IsValid out.1
  pub split : contents p ≡ out.0 ++ contents out.1
  pub count : length out.0 ≡ k
  pub shorter : avail out.1 + k ≡ avail p

pub drain-Drained : (k : ℕ) (p : Pipe) → IsValid p → k ≤ avail p → Drained k p (drain k p)
unfolding drain
drain-Drained zero p v h = record { valid = v; split = refl; count = refl; shorter = omega arith }
drain-Drained (suc k) p v h =
    let ih =
      drain-Drained k (take_byte p) (take_byte-IsValid p v (omega arith))
        (omega (arith, take_byte-avail p v (omega arith))) in
    record {
      valid = ih.valid;
      split =
          take_byte-contents p v (omega arith) ∙ ap (λ l. p.bytes (p.tail % pipe_buf) ∷ l) ih.split;
      count = ap suc ih.count;
      shorter = omega (arith, ih.shorter, take_byte-avail p v (omega arith));
    }

-- The end counts are not touched.
pub fill-nreaders : (bs : List ℕ) (p : Pipe) → (fill bs p).nreaders ≡ p.nreaders
unfolding fill
fill-nreaders [] p = refl
fill-nreaders (b ∷ bs) p = fill-nreaders bs (put_byte b p)

pub fill-nwriters : (bs : List ℕ) (p : Pipe) → (fill bs p).nwriters ≡ p.nwriters
unfolding fill
fill-nwriters [] p = refl
fill-nwriters (b ∷ bs) p = fill-nwriters bs (put_byte b p)

pub drain-nwriters : (k : ℕ) (p : Pipe) → (drain k p).1.nwriters ≡ p.nwriters
unfolding drain
drain-nwriters zero p = refl
drain-nwriters (suc k) p = drain-nwriters k (take_byte p)
