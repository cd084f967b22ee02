-- ===== src/Word.antt =====
-- Unsigned words of C (include/libzeroskip/util.h): shifts that wrap at 64 bits, byte order, and
-- the macros `read_be64` and `write_be64`. A word is a number below 2 ^ 64 and a buffer a list of
-- bytes; a read that leaves the buffer is `none`.
pub mod Bits
mod Order
pub mod BigEndian
pub mod Half
use zeroskip.Prelude.{
  ℕ, zero, suc, ◌+◌, ◌*◌, ◌/◌, ◌%◌, ◌^◌, bit_and, bit_or, Option, none, some, List, [], ◌∷◌, drop,
  ◌>>=◌,
}

abbrev pub u64 : ℕ → ℕ
u64 n = n % 2 ^ 64

abbrev pub u32 : ℕ → ℕ
u32 n = n % 2 ^ 32

abbrev pub u16 : ℕ → ℕ
u16 n = n % 2 ^ 16

abbrev pub u8 : ℕ → ℕ
u8 n = n % 2 ^ 8

-- `x << k` and `x >> k` at type `uint64_t`.
infixl 75 ◌<<<◌ ◌>>>◌
abbrev pub ◌<<<◌ : ℕ → ℕ → ℕ
x <<< k = u64 (x * 2 ^ k)

abbrev pub ◌>>>◌ : ℕ → ℕ → ℕ
x >>> k = x / 2 ^ k

-- The byte order of the machine.
pub data Host : Type 0 where
  little big : Host

-- How a `uint64_t` lies in memory, and how one is loaded from there.
unfoldable pub store64 : Host → ℕ → List ℕ
store64 big v =
    u8 (v / 2 ^ 56)
    ∷ u8 (v / 2 ^ 48)
    ∷ u8 (v / 2 ^ 40)
    ∷ u8 (v / 2 ^ 32)
    ∷ u8 (v / 2 ^ 24)
    ∷ u8 (v / 2 ^ 16)
    ∷ u8 (v / 2 ^ 8)
    ∷ u8 v
    ∷ []
store64 little v =
    u8 v
    ∷ u8 (v / 2 ^ 8)
    ∷ u8 (v / 2 ^ 16)
    ∷ u8 (v / 2 ^ 24)
    ∷ u8 (v / 2 ^ 32)
    ∷ u8 (v / 2 ^ 40)
    ∷ u8 (v / 2 ^ 48)
    ∷ u8 (v / 2 ^ 56)
    ∷ []

-- Eight bytes, the most significant first, as a number.
abbrev pub join64 : ℕ → ℕ → ℕ → ℕ → ℕ → ℕ → ℕ → ℕ → ℕ
join64 a b c d e f g h =
    a * 2 ^ 56 + b * 2 ^ 48 + c * 2 ^ 40 + d * 2 ^ 32 + e * 2 ^ 24 + f * 2 ^ 16 + g * 2 ^ 8 + h

unfoldable pub load64 : Host → List ℕ → Option ℕ
load64 big (a ∷ b ∷ c ∷ d ∷ e ∷ f ∷ g ∷ h ∷ rest) = some (join64 a b c d e f g h)
load64 little (a ∷ b ∷ c ∷ d ∷ e ∷ f ∷ g ∷ h ∷ rest) = some (join64 h g f e d c b a)
load64 host short = none

unfoldable pub bswap64 : ℕ → ℕ
bswap64 v =
    bit_or
      (bit_or
        (bit_or
          (bit_or
            (bit_or
              (bit_or
                (bit_or (bit_and v 0x00000000000000ff <<< 56) (bit_and v 0x000000000000ff00 <<< 40))
                (bit_and v 0x0000000000ff0000 <<< 24))
              (bit_and v 0x00000000ff000000 <<< 8))
            (bit_and v 0x000000ff00000000 >>> 8))
          (bit_and v 0x0000ff0000000000 >>> 24))
        (bit_and v 0x00ff000000000000 >>> 40))
      (bit_and v 0xff00000000000000 >>> 56)

-- `hton64`, and `ntoh64`, which is the same macro.
unfoldable pub hton64 : Host → ℕ → ℕ
hton64 little v = bswap64 v
hton64 big v = v

unfoldable pub write_be64 : Host → ℕ → List ℕ
write_be64 host v = store64 host (hton64 host v)

-- `read_be64 (base + off)`.
unfoldable pub read_be64 : Host → List ℕ → ℕ → Option ℕ
read_be64 host base off = load64 host (drop off base) >>= λ v. some (hton64 host v)
