-- ===== src/Buffer.antt =====
-- Memory that is read and written in pieces: `memcpy` into a buffer and out of one. Both are
-- `none` where they leave the buffer.
use zeroskip.Prelude.{
  ℕ, zero, suc, ◌+◌, ◌-◌, drop-append_le, ◌≤◌, ◌≡◌, ap, Option, none, some, List, ◌++◌, arith, ltb,
  le→ltb, false, length, take, drop, replicate, if◌then◌else◌, length-append, length-take,
  length-drop, length-replicate, append_assoc, drop-append, drop-append_add, take-append,
}

abbrev pub overwrite : List ℕ → ℕ → List ℕ → List ℕ
overwrite buf pos bytes = take pos buf ++ (bytes ++ drop (pos + length bytes) buf)

-- `memcpy (buf + pos, bytes, length bytes)`.
unfoldable pub blit : List ℕ → ℕ → List ℕ → Option (List ℕ)
blit buf pos bytes =
    if ltb (length buf) (pos + length bytes) then none else some (overwrite buf pos bytes)

-- The `n` bytes at `pos`.
unfoldable pub slice : List ℕ → ℕ → ℕ → Option (List ℕ)
slice buf pos n = if ltb (length buf) (pos + n) then none else some (take n (drop pos buf))

pub slice-append :
    (before bytes after : List ℕ)
    → slice (before ++ (bytes ++ after)) (length before) (length bytes) ≡ some bytes
unfolding slice
slice-append before bytes after =
    let fits : ltb (length (before ++ (bytes ++ after))) (length before + length bytes) ≡ false =
      le→ltb _ _
        (omega (arith, length-append before (bytes ++ after), length-append bytes after)) in
    rw (fits, drop-append before (bytes ++ after), take-append bytes after)

pub blit-fits :
    (buf : List ℕ) (pos : ℕ) (bytes : List ℕ)
    → pos + length bytes ≤ length buf
    → blit buf pos bytes ≡ some (overwrite buf pos bytes)
unfolding blit
blit-fits buf pos bytes h = rw (le→ltb (length buf) (pos + length bytes) h)

pub length-overwrite :
    (buf : List ℕ) (pos : ℕ) (bytes : List ℕ)
    → pos + length bytes ≤ length buf
    → length (overwrite buf pos bytes) ≡ length buf
length-overwrite buf pos bytes h = omega (
  arith,
  length-append (take pos buf) (bytes ++ drop (pos + length bytes) buf),
  length-append bytes (drop (pos + length bytes) buf),
  length-take pos buf,
  length-drop (pos + length bytes) buf,
)

drop-replicate : (n m : ℕ) (a : ℕ) → drop n (replicate (n + m) a) ≡ replicate m a
drop-replicate zero m a = ap (λ (k : ℕ). replicate k a) (omega arith)
drop-replicate (suc n) m a =
    let e : suc n + m ≡ suc (n + m) = omega arith in rw e (drop-replicate n m a)

-- Filling a buffer that `calloc` gave, from its start on: `done` is there, and `m` more bytes
-- are left after the next piece.
pub blit-next :
    (done bytes : List ℕ) (pos n m : ℕ)
    → length done ≡ pos
    → length bytes ≡ n
    → blit (done ++ replicate (n + m) 0) pos bytes ≡ some ((done ++ bytes) ++ replicate m 0)
unfolding blit
blit-next done bytes pos n m p q =
    let room = replicate (length bytes + m) 0 in
    let fits : ltb (length (done ++ room)) (length done + length bytes) ≡ false =
      le→ltb _ _
        (omega (arith, length-append done room, length-replicate {A = ℕ} (length bytes + m) 0)) in
    rw (
      ← p,
      ← q,
      fits,
      take-append done room,
      drop-append_add done room (length bytes),
      drop-replicate (length bytes) m 0,
      append_assoc done bytes (replicate m 0),
    )

-- The last `n` bytes of what stands before a position.
pub slice-suffix :
    (before after : List ℕ) (n : ℕ)
    → n ≤ length before
    → slice (before ++ after) (length before - n) n ≡ some (drop (length before - n) before)
unfolding slice
slice-suffix before after n h =
    let at = length before - n in
    let part = drop at before in
    let size : length part ≡ n = omega (arith, length-drop at before) in
    let fits : ltb (length (before ++ after)) (at + n) ≡ false =
      le→ltb _ _ (omega (arith, length-append before after)) in
    let cut : take n (part ++ after) ≡ part = rw size at (take-append part after) in
    rw (fits, drop-append_le at before after (omega arith), cut)
