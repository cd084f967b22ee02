-- ===== src/Word/Order.antt =====
-- The byte swap in arithmetic.
use zeroskip.Prelude.{ℕ, ◌+◌, ◌*◌, ◌/◌, ◌^◌, ◌<◌, bit_and, bit_or, ◌≡◌, arith}
use zeroskip.Word.{u8, join64, bswap64, ◌<<<◌, ◌>>>◌}
use zeroskip.Word.Bits.{bit_or-disjoint, bit_and-field}

-- `|` with a word that fits below all that is there.
or_below : (k x q y : ℕ) → x ≡ q * 2 ^ k → y < 2 ^ k → bit_or x y ≡ x + y
or_below k x q y e fits = rw e (bit_or-disjoint k q y fits)

module _ (a b c d e f g h : ℕ) (ha : a < 256) (hb : b < 256) (hc : c < 256) (hd : d < 256)
    (he : e < 256) (hf : f < 256) (hg : g < 256) (hh : h < 256) where
  or_bytes :
      bit_or
        (bit_or
          (bit_or
            (bit_or
              (bit_or (bit_or (bit_or (a * 2 ^ 56) (b * 2 ^ 48)) (c * 2 ^ 40)) (d * 2 ^ 32))
              (e * 2 ^ 24))
            (f * 2 ^ 16))
          (g * 2 ^ 8))
        h
      ≡ join64 a b c d e f g h
  or_bytes =
      let ab = a * 2 ^ 56 + b * 2 ^ 48 in
      let abc = ab + c * 2 ^ 40 in
      let abcd = abc + d * 2 ^ 32 in
      let abcde = abcd + e * 2 ^ 24 in
      let abcdef = abcde + f * 2 ^ 16 in
      let abcdefg = abcdef + g * 2 ^ 8 in
      rw
        (
          or_below 56 (a * 2 ^ 56) a (b * 2 ^ 48) (omega arith) (omega arith),
          or_below 48 ab (a * 2 ^ 8 + b) (c * 2 ^ 40) (omega arith) (omega arith),
          or_below 40 abc (a * 2 ^ 16 + b * 2 ^ 8 + c) (d * 2 ^ 32) (omega arith) (omega arith),
          or_below 32 abcd (a * 2 ^ 24 + b * 2 ^ 16 + c * 2 ^ 8 + d) (e * 2 ^ 24) (omega arith)
              (omega arith),
          or_below 24 abcde (a * 2 ^ 32 + b * 2 ^ 24 + c * 2 ^ 16 + d * 2 ^ 8 + e) (f * 2 ^ 16)
              (omega arith) (omega arith),
          or_below 16 abcdef (a * 2 ^ 40 + b * 2 ^ 32 + c * 2 ^ 24 + d * 2 ^ 16 + e * 2 ^ 8 + f)
              (g * 2 ^ 8) (omega arith) (omega arith),
          or_below 8 abcdefg
              (a * 2 ^ 48 + b * 2 ^ 40 + c * 2 ^ 32 + d * 2 ^ 24 + e * 2 ^ 16 + f * 2 ^ 8 + g) h
              (omega arith) (omega arith),
        )
        (omega arith)

pub bswap64_bytes :
    (v : ℕ)
    → bswap64 v
      ≡ join64
          (u8 v)
          (u8 (v / 2 ^ 8))
          (u8 (v / 2 ^ 16))
          (u8 (v / 2 ^ 24))
          (u8 (v / 2 ^ 32))
          (u8 (v / 2 ^ 40))
          (u8 (v / 2 ^ 48))
          (u8 (v / 2 ^ 56))
unfolding bswap64
bswap64_bytes v =
    let p0 : bit_and v 0xff <<< 56 ≡ u8 v * 2 ^ 56 = omega (arith, bit_and-field 0 8 v) in
    let p1 : bit_and v 0xff00 <<< 40 ≡ u8 (v / 2 ^ 8) * 2 ^ 48 =
      omega (arith, bit_and-field 8 8 v) in
    let p2 : bit_and v 0xff0000 <<< 24 ≡ u8 (v / 2 ^ 16) * 2 ^ 40 =
      omega (arith, bit_and-field 16 8 v) in
    let p3 : bit_and v 0xff000000 <<< 8 ≡ u8 (v / 2 ^ 24) * 2 ^ 32 =
      omega (arith, bit_and-field 24 8 v) in
    let p4 : bit_and v 0xff00000000 >>> 8 ≡ u8 (v / 2 ^ 32) * 2 ^ 24 =
      omega (arith, bit_and-field 32 8 v) in
    let p5 : bit_and v 0xff0000000000 >>> 24 ≡ u8 (v / 2 ^ 40) * 2 ^ 16 =
      omega (arith, bit_and-field 40 8 v) in
    let p6 : bit_and v 0xff000000000000 >>> 40 ≡ u8 (v / 2 ^ 48) * 2 ^ 8 =
      omega (arith, bit_and-field 48 8 v) in
    let p7 : bit_and v 0xff00000000000000 >>> 56 ≡ u8 (v / 2 ^ 56) =
      omega (arith, bit_and-field 56 8 v) in
    rw (p0, p1, p2, p3, p4, p5, p6, p7)
      (or_bytes (u8 v) (u8 (v / 2 ^ 8)) (u8 (v / 2 ^ 16)) (u8 (v / 2 ^ 24)) (u8 (v / 2 ^ 32))
        (u8 (v / 2 ^ 40)) (u8 (v / 2 ^ 48)) (u8 (v / 2 ^ 56)) (omega arith) (omega arith)
        (omega arith) (omega arith) (omega arith) (omega arith) (omega arith) (omega arith))
