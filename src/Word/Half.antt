-- ===== src/Word/Half.antt =====
-- 32-bit words in memory (`hton32`, `ntoh32`, `write_be32` and `read_be32` of
-- include/libzeroskip/util.h, which call `htonl` and `ntohl`).
use zeroskip.Prelude.{
  ℕ, ◌+◌, ◌*◌, ◌/◌, ◌^◌, ◌<◌, ◌≡◌, refl, ap, Option, none, some, List, [], ◌∷◌, ◌++◌, arith, length,
  drop, drop-append, ◌>>=◌,
}
use zeroskip.Word.{Host, little, big, u8}

unfoldable pub store32 : Host → ℕ → List ℕ
store32 big v = u8 (v / 2 ^ 24) ∷ u8 (v / 2 ^ 16) ∷ u8 (v / 2 ^ 8) ∷ u8 v ∷ []
store32 little v = u8 v ∷ u8 (v / 2 ^ 8) ∷ u8 (v / 2 ^ 16) ∷ u8 (v / 2 ^ 24) ∷ []

abbrev pub join32 : ℕ → ℕ → ℕ → ℕ → ℕ
join32 a b c d = a * 2 ^ 24 + b * 2 ^ 16 + c * 2 ^ 8 + d

unfoldable pub load32 : Host → List ℕ → Option ℕ
load32 big (a ∷ b ∷ c ∷ d ∷ rest) = some (join32 a b c d)
load32 little (a ∷ b ∷ c ∷ d ∷ rest) = some (join32 d c b a)
load32 host short = none

-- `htonl`, and `ntohl`.
unfoldable pub hton32 : Host → ℕ → ℕ
hton32 big v = v
hton32 little v = join32 (u8 v) (u8 (v / 2 ^ 8)) (u8 (v / 2 ^ 16)) (u8 (v / 2 ^ 24))

unfoldable pub write_be32 : Host → ℕ → List ℕ
write_be32 host v = store32 host (hton32 host v)

unfoldable pub read_be32 : Host → List ℕ → ℕ → Option ℕ
read_be32 host base off = load32 host (drop off base) >>= λ v. some (hton32 host v)

pub length-write_be32 : (host : Host) (v : ℕ) → length (write_be32 host v) ≡ 4
unfolding write_be32 store32
length-write_be32 big v = refl
length-write_be32 little v = refl

read_head :
    (host : Host) (v : ℕ) (rest : List ℕ)
    → v < 2 ^ 32
    → read_be32 host (write_be32 host v ++ rest) 0 ≡ some v
unfolding read_be32 write_be32 hton32 load32 store32
read_head big v rest h = ap some (omega arith)
read_head little v rest h = ap some (omega arith)

-- A word that was written behind `before` is read back from there.
pub read_be32-write_be32 :
    (host : Host) (v : ℕ) (before after : List ℕ) (n : ℕ)
    → v < 2 ^ 32
    → n ≡ length before
    → read_be32 host (before ++ (write_be32 host v ++ after)) n ≡ some v
unfolding read_be32
read_be32-write_be32 host v before after n h e =
    rw (e, drop-append before (write_be32 host v ++ after)) (read_head host v after h)
