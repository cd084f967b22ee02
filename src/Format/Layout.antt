-- ===== src/Format/Layout.antt =====
-- Where the bytes of a record stand in its buffer, and how long the buffer is.
use zeroskip.Prelude.{
  ℕ, ◌+◌, ◌≡◌, some, List, ◌++◌, arith, length, append_assoc, length-append, length-replicate,
  replicate,
}
use zeroskip.Word.{Host, write_be64}
use zeroskip.Word.BigEndian.{length-write_be64}
use zeroskip.Buffer.{slice, slice-append}
use zeroskip.Format.Words.{padding}
use zeroskip.Format.Images.{padded, key_image, val_image}

module _ (host : Host) where
  pub length-key_image :
      (a b c : ℕ) (key : List ℕ)
      → length (key_image host a b c key) ≡ 24 + (length key + padding (length key))
  length-key_image a b c key =
      let wa = write_be64 host a in
      let wb = write_be64 host b in
      let wc = write_be64 host c in
      omega (
        arith,
        length-write_be64 host a,
        length-write_be64 host b,
        length-write_be64 host c,
        length-append wa (wb ++ (wc ++ padded key)),
        length-append wb (wc ++ padded key),
        length-append wc (padded key),
        length-append key (replicate (padding (length key)) 0),
        length-replicate {A = ℕ} (padding (length key)) 0,
      )

  pub length-val_image :
      (a b : ℕ) (val : List ℕ)
      → length (val_image host a b val) ≡ 16 + (length val + padding (length val))
  length-val_image a b val =
      let wa = write_be64 host a in
      let wb = write_be64 host b in
      omega (
        arith,
        length-write_be64 host a,
        length-write_be64 host b,
        length-append wa (wb ++ padded val),
        length-append wb (padded val),
        length-append val (replicate (padding (length val)) 0),
        length-replicate {A = ℕ} (padding (length val)) 0,
      )

  pub slice-key_image :
      (before rest : List ℕ) (a b c : ℕ) (key : List ℕ)
      → slice (before ++ (key_image host a b c key ++ rest)) (length before + 24) (length key)
        ≡ some key
  slice-key_image before rest a b c key =
      let wa = write_be64 host a in
      let wb = write_be64 host b in
      let wc = write_be64 host c in
      let zeros : List ℕ = replicate (padding (length key)) 0 in
      let front = before ++ (wa ++ (wb ++ wc)) in
      let flat : before ++ (key_image host a b c key ++ rest) ≡ front ++ (key ++ (zeros ++ rest)) =
        simp append_assoc in
      let place : length before + 24 ≡ length front = omega (
        arith,
        length-append before (wa ++ (wb ++ wc)),
        length-append wa (wb ++ wc),
        length-append wb wc,
        length-write_be64 host a,
        length-write_be64 host b,
        length-write_be64 host c,
      ) in
      rw (flat, place) (slice-append front key (zeros ++ rest))

  pub slice-val_image :
      (before rest : List ℕ) (a b : ℕ) (val : List ℕ)
      → slice (before ++ (val_image host a b val ++ rest)) (length before + 16) (length val)
        ≡ some val
  slice-val_image before rest a b val =
      let wa = write_be64 host a in
      let wb = write_be64 host b in
      let zeros : List ℕ = replicate (padding (length val)) 0 in
      let front = before ++ (wa ++ wb) in
      let flat : before ++ (val_image host a b val ++ rest) ≡ front ++ (val ++ (zeros ++ rest)) =
        simp append_assoc in
      let place : length before + 16 ≡ length front = omega (
        arith,
        length-append before (wa ++ wb),
        length-append wa wb,
        length-write_be64 host a,
        length-write_be64 host b,
      ) in
      rw (flat, place) (slice-append front val (zeros ++ rest))
