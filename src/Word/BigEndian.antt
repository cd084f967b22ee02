-- ===== src/Word/BigEndian.antt =====
-- `write_be64` stores the most significant byte first on either machine, and `read_be64` gives
-- the word back.
use zeroskip.Prelude.{
  ℕ, ◌/◌, ◌^◌, ◌<◌, ◌≡◌, refl, ap, some, List, [], ◌∷◌, ◌++◌, length, arith, append_assoc,
  drop-append, drop-append_add, ◌+◌,
}
use zeroskip.Word.{
  Host, little, big, u8, join64, store64, load64, bswap64, hton64, write_be64, read_be64,
}
use zeroskip.Word.Order.{bswap64_bytes}

-- Swapping the bytes of a word twice gives it back.
pub bswap64-bswap64 : (v : ℕ) → v < 2 ^ 64 → bswap64 (bswap64 v) ≡ v
bswap64-bswap64 v h = rw (bswap64_bytes (bswap64 v), bswap64_bytes v) (omega arith)

module _ (a b c d e f g h : ℕ) (ha : a < 256) (hb : b < 256) (hc : c < 256) (hd : d < 256)
    (he : e < 256) (hf : f < 256) (hg : g < 256) (hh : h < 256) where
  store64-join64 : store64 little (join64 a b c d e f g h) ≡ h ∷ g ∷ f ∷ e ∷ d ∷ c ∷ b ∷ a ∷ []
  unfolding store64
  store64-join64 =
      let v = join64 a b c d e f g h in
      let e0 : u8 v ≡ h = omega arith in
      let e1 : u8 (v / 2 ^ 8) ≡ g = omega arith in
      let e2 : u8 (v / 2 ^ 16) ≡ f = omega arith in
      let e3 : u8 (v / 2 ^ 24) ≡ e = omega arith in
      let e4 : u8 (v / 2 ^ 32) ≡ d = omega arith in
      let e5 : u8 (v / 2 ^ 40) ≡ c = omega arith in
      let e6 : u8 (v / 2 ^ 48) ≡ b = omega arith in
      let e7 : u8 (v / 2 ^ 56) ≡ a = omega arith in rw (e0, e1, e2, e3, e4, e5, e6, e7)

store64_little : (v : ℕ) → store64 little (bswap64 v) ≡ store64 big v
unfolding store64
store64_little v = rw bswap64_bytes (
    store64-join64 (u8 v) (u8 (v / 2 ^ 8)) (u8 (v / 2 ^ 16)) (u8 (v / 2 ^ 24)) (u8 (v / 2 ^ 32))
      (u8 (v / 2 ^ 40)) (u8 (v / 2 ^ 48)) (u8 (v / 2 ^ 56)) (omega arith) (omega arith)
      (omega arith) (omega arith) (omega arith) (omega arith) (omega arith) (omega arith))

-- The bytes that `write_be64` leaves do not depend on the machine.
pub write_be64-big_endian : (host : Host) (v : ℕ) → write_be64 host v ≡ store64 big v
unfolding write_be64 hton64
write_be64-big_endian big v = refl
write_be64-big_endian little v = store64_little v

pub length-write_be64 : (host : Host) (v : ℕ) → length (write_be64 host v) ≡ 8
unfolding write_be64 store64
length-write_be64 big v = refl
length-write_be64 little v = refl

pub length-store64 : (host : Host) (v : ℕ) → length (store64 host v) ≡ 8
unfolding store64
length-store64 big v = refl
length-store64 little v = refl

pub load64-store64 :
    (host : Host) (v : ℕ) (rest : List ℕ)
    → v < 2 ^ 64
    → load64 host (store64 host v ++ rest) ≡ some v
unfolding load64 store64
load64-store64 big v rest h = ap some (omega arith)
load64-store64 little v rest h = ap some (omega arith)

bswap64-lt : (v : ℕ) → bswap64 v < 2 ^ 64
bswap64-lt v = rw (bswap64_bytes v) (omega arith)

-- A word that was written in a buffer is read back from its place.
pub read_be64-write_be64 :
    (host : Host) (v : ℕ) (before after : List ℕ)
    → v < 2 ^ 64
    → read_be64 host (before ++ write_be64 host v ++ after) (length before) ≡ some v
unfolding read_be64 write_be64 hton64
read_be64-write_be64 big v before after h = rw (
  append_assoc before (store64 big v) after,
  drop-append before (store64 big v ++ after),
  load64-store64 big v after h,
)
read_be64-write_be64 little v before after h =
    rw
      (
        append_assoc before (store64 little (bswap64 v)) after,
        drop-append before (store64 little (bswap64 v) ++ after),
        load64-store64 little (bswap64 v) after (bswap64-lt v),
      )
      (ap some (bswap64-bswap64 v h))

-- The words of a buffer, one after the other.
module _ (host : Host) where
  pub read_be64-head :
      (v : ℕ) (rest : List ℕ) → v < 2 ^ 64 → read_be64 host (write_be64 host v ++ rest) 0 ≡ some v
  read_be64-head v rest h = read_be64-write_be64 host v [] rest h

  pub read_be64-skip :
      (before rest : List ℕ) (n : ℕ)
      → read_be64 host (before ++ rest) (length before + n) ≡ read_be64 host rest n
  unfolding read_be64
  read_be64-skip before rest n = rw (drop-append_add before rest n)

  pub read_be64-next :
      (v : ℕ) (rest : List ℕ) (n : ℕ)
      → read_be64 host (write_be64 host v ++ rest) (8 + n) ≡ read_be64 host rest n
  read_be64-next v rest n =
      rw (length-write_be64 host v) at (read_be64-skip (write_be64 host v) rest n)
