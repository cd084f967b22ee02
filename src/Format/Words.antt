-- ===== src/Format/Words.antt =====
-- Arithmetic of the fields: how they are packed into the first word of a record and found there.
use zeroskip.Prelude.{ℕ, ◌+◌, ◌-◌, ◌*◌, ◌/◌, ◌^◌, ◌<◌, ◌≡◌, bit_or, arith}
use zeroskip.Word.{◌<<<◌, ◌>>>◌}
use zeroskip.Word.Bits.{bit_or-disjoint}
use zeroskip.Format.{roundup64bits}

-- Zeros behind a key or value of `n` bytes, up to a multiple of 8.
abbrev pub padding : ℕ → ℕ
padding n = (n + 7) / 8 * 8 - n

pub roundup64bits_lem : (n : ℕ) → n < 2 ^ 60 → roundup64bits n ≡ n + padding n
unfolding roundup64bits
roundup64bits_lem n h = omega arith

-- `type << 56 | len << 40 | low`.
pub pack_type_len40 :
    (t n low : ℕ)
    → t < 256
    → n < 2 ^ 16
    → low < 2 ^ 40
    → bit_or (bit_or (t <<< 56) (n <<< 40)) low ≡ t * 2 ^ 56 + n * 2 ^ 40 + low
pack_type_len40 t n low ht hn hl =
    let et : t <<< 56 ≡ t * 2 ^ 56 = omega arith in
    let en : n <<< 40 ≡ n * 2 ^ 40 = omega arith in
    let inner = bit_or-disjoint 56 t (n * 2 ^ 40) (omega arith) in
    let whole : t * 2 ^ 56 + n * 2 ^ 40 ≡ (t * 2 ^ 16 + n) * 2 ^ 40 = omega arith in
    let outer = bit_or-disjoint 40 (t * 2 ^ 16 + n) low hl in
    rw (et, en, inner, whole, outer) (omega arith)

-- `type << 56 | len << k`, at the two places of a length.
pub pack_type_len :
    (t k n : ℕ)
    → t < 256
    → n * 2 ^ k < 2 ^ 56
    → bit_or (t <<< 56) (n <<< k) ≡ t * 2 ^ 56 + n * 2 ^ k
pack_type_len t k n ht hn =
    let et : t <<< 56 ≡ t * 2 ^ 56 = omega arith in
    let en : n <<< k ≡ n * 2 ^ k = omega arith in
    let inner = bit_or-disjoint 56 t (n * 2 ^ k) hn in rw (et, en, inner)

pub type_of_word : (t low : ℕ) → low < 2 ^ 56 → (t * 2 ^ 56 + low) >>> 56 ≡ t
type_of_word t low h = omega arith
