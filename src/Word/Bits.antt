-- ===== src/Word/Bits.antt =====
-- The `|`, `&` and shifts of C on unsigned words, as arithmetic: `|` of disjoint fields is a sum,
-- `&` with a mask of ones is a remainder.
use Prim.Native.Nat.{min, max, digits, bitwise, bit_and-bitwise, bit_or-bitwise}
use native.Mathlib.Nat.{pow-suc, one-le-pow}
use zeroskip.Prelude.{
  ℕ, zero, suc, ◌+◌, ◌-◌, ◌*◌, ◌/◌, ◌%◌, ◌^◌, ◌≤◌, ◌<◌, bit_and, bit_or, ◌≡◌, refl, ap, arith,
}

module _ (ended : ℕ → ℕ) (digit : ℕ → ℕ → ℕ) where
  -- Any count of digits that covers the first number serves.
  digits_count : (n m a b : ℕ) → a ≤ n → a ≤ m → digits ended digit n a b ≡ digits ended digit m a b
  digits_count zero zero a b p q = refl
  digits_count zero (suc m) zero b p q = refl
  digits_count (suc n) zero zero b p q = refl
  digits_count (suc n) (suc m) zero b p q = refl
  digits_count zero (suc m) (suc a) b p q = elim p [ ]
  digits_count (suc n) zero (suc a) b p q = elim q [ ]
  digits_count (suc n) (suc m) (suc a) b p q =
      let halved = digits_count n m (suc a / 2) (b / 2) (omega arith) (omega arith) in
      ap (λ (t : ℕ). t * 2 + digit (suc a % 2) (b % 2)) halved

  bitwise_peel :
      (a b : ℕ)
      → bitwise ended digit (suc a) b
        ≡ bitwise ended digit (suc a / 2) (b / 2) * 2 + digit (suc a % 2) (b % 2)
  bitwise_peel a b =
      let halved = digits_count a (suc a / 2) (suc a / 2) (b / 2) (omega arith) (omega arith) in
      ap (λ (t : ℕ). t * 2 + digit (suc a % 2) (b % 2)) halved

bit_or_peel : (a b : ℕ) → bit_or a b ≡ bit_or (a / 2) (b / 2) * 2 + max (a % 2) (b % 2)
bit_or_peel zero b = omega (arith, bit_or-bitwise 0 b, bit_or-bitwise 0 (b / 2))
bit_or_peel (suc a) b = simp bit_or-bitwise (bitwise_peel (λ y. y) max a b)

bit_and_peel : (a b : ℕ) → bit_and a b ≡ bit_and (a / 2) (b / 2) * 2 + min (a % 2) (b % 2)
bit_and_peel zero b = omega (arith, bit_and-bitwise 0 b, bit_and-bitwise 0 (b / 2))
bit_and_peel (suc a) b = simp bit_and-bitwise (bitwise_peel (λ y. 0) min a b)

-- With a second number of no digits, by the number of digits of the first.
or_zero_upto : (n a : ℕ) → a ≤ n → bit_or a 0 ≡ a
or_zero_upto n zero h = omega (arith, bit_or-bitwise 0 0)
or_zero_upto zero (suc a) h = elim h [ ]
or_zero_upto (suc n) (suc a) h =
    omega (arith, bit_or_peel (suc a) 0, or_zero_upto n (suc a / 2) (omega arith))

and_zero_upto : (n a : ℕ) → a ≤ n → bit_and a 0 ≡ 0
and_zero_upto n zero h = omega (arith, bit_and-bitwise 0 0)
and_zero_upto zero (suc a) h = elim h [ ]
and_zero_upto (suc n) (suc a) h =
    omega (arith, bit_and_peel (suc a) 0, and_zero_upto n (suc a / 2) (omega arith))

double_field : (k q : ℕ) → q * 2 ^ suc k ≡ q * 2 ^ k * 2
double_field k q = omega (arith, ap (λ (t : ℕ). q * t) (pow-suc 2 k))

-- A field above the low `k` bits, joined with what fits them.
pub bit_or-disjoint : (k q r : ℕ) → r < 2 ^ k → bit_or (q * 2 ^ k) r ≡ q * 2 ^ k + r
bit_or-disjoint zero q r h =
    let e : r ≡ 0 = omega arith in
    let f : q * 2 ^ 0 ≡ q = omega arith in rw (e, f) (omega (arith, or_zero_upto q q (omega arith)))
bit_or-disjoint (suc k) q r h =
    let halved = bit_or-disjoint k q (r / 2) (omega (arith, pow-suc 2 k)) in
    let twice = double_field k q in
    let half : q * 2 ^ suc k / 2 ≡ q * 2 ^ k = omega arith in
    let peeled = rw half at (bit_or_peel (q * 2 ^ suc k) r) in omega (arith, peeled, halved, twice)

-- A mask of `w` ones keeps the low `w` bits.
mask_keeps : (w q r : ℕ) → r < 2 ^ w → bit_and (q * 2 ^ w + r) (2 ^ w - 1) ≡ r
mask_keeps zero q r h =
    let e : bit_and (q * 1 + r) 0 ≡ 0 = and_zero_upto (q * 1 + r) (q * 1 + r) (omega arith) in
    omega (arith, e)
mask_keeps (suc w) q r h =
    let size = pow-suc 2 w in
    let some_ones = one-le-pow w 2 in
    let halved = mask_keeps w q (r / 2) (omega arith) in
    let twice = double_field w q in
    let half : (q * 2 ^ suc w + r) / 2 ≡ q * 2 ^ w + r / 2 = omega arith in
    let half_mask : (2 ^ suc w - 1) / 2 ≡ 2 ^ w - 1 = omega arith in
    let peeled = rw (half, half_mask) at (bit_and_peel (q * 2 ^ suc w + r) (2 ^ suc w - 1)) in
    omega (arith, peeled, halved, twice)

pub bit_and-low : (w a : ℕ) → bit_and a (2 ^ w - 1) ≡ a % 2 ^ w
bit_and-low w a = ground (arith, one-le-pow w 2, mask_keeps w (a / 2 ^ w) (a % 2 ^ w))

-- A mask whose ones start at bit `k` sees only what stands from bit `k` on.
mask_above : (k q r m : ℕ) → r < 2 ^ k → bit_and (q * 2 ^ k + r) (m * 2 ^ k) ≡ bit_and q m * 2 ^ k
mask_above zero q r m h =
    let e : q * 2 ^ 0 + r ≡ q = omega arith in
    let f : m * 2 ^ 0 ≡ m = omega arith in rw (e, f) (omega arith)
mask_above (suc k) q r m h =
    let size = pow-suc 2 k in
    let halved = mask_above k q (r / 2) m (omega arith) in
    let twice = double_field k q in
    let twice_mask = double_field k m in
    let twice_kept = double_field k (bit_and q m) in
    let half : (q * 2 ^ suc k + r) / 2 ≡ q * 2 ^ k + r / 2 = omega arith in
    let half_mask : m * 2 ^ suc k / 2 ≡ m * 2 ^ k = omega arith in
    let peeled = rw (half, half_mask) at (bit_and_peel (q * 2 ^ suc k + r) (m * 2 ^ suc k)) in
    omega (arith, peeled, halved, twice_mask, twice_kept)

pub bit_and-field : (k w a : ℕ) → bit_and a ((2 ^ w - 1) * 2 ^ k) ≡ a / 2 ^ k % 2 ^ w * 2 ^ k
bit_and-field k w a = ground (
  arith,
  one-le-pow k 2,
  mask_above k (a / 2 ^ k) (a % 2 ^ k) (2 ^ w - 1),
  bit_and-low w (a / 2 ^ k),
)
