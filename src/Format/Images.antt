-- ===== src/Format/Images.antt =====
-- What the buffers of `zs_prepare_key_buf`, `zs_prepare_val_buf` and `zs_prepare_delete_key_buf`
-- hold: some words, the bytes and the zeros behind them. No write leaves its buffer.
use zeroskip.Prelude.{
  ℕ, ◌+◌, ◌*◌, ◌^◌, ◌≤◌, ◌<◌, ◌≡◌, refl, some, List, [], ◌++◌, arith, length, replicate,
  append_assoc, ◌>>=◌, length-append, replicate-add, leb, le→ltb, lt→ltb, true, false,
}
use zeroskip.Word.{Host, u64, store64, write_be64}
use zeroskip.Word.BigEndian.{length-write_be64, write_be64-big_endian}
use zeroskip.Buffer.{blit, blit-next}
use zeroskip.Format.{max_short_key_len, max_short_val_len, roundup64bits}
use zeroskip.Format.Words.{padding, roundup64bits_lem, pack_type_len40, pack_type_len}
use zeroskip.Format.Encode.{zs_prepare_key_buf, zs_prepare_val_buf, zs_prepare_delete_key_buf}

-- The bytes and their padding.
abbrev pub padded : List ℕ → List ℕ
padded bytes = bytes ++ replicate (padding (length bytes)) 0

module _ (host : Host) where
  -- Three words and a key; two words and a value.
  abbrev pub key_image : ℕ → ℕ → ℕ → List ℕ → List ℕ
  key_image a b c key =
      write_be64 host a ++ (write_be64 host b ++ (write_be64 host c ++ padded key))

  abbrev pub val_image : ℕ → ℕ → List ℕ → List ℕ
  val_image a b val = write_be64 host a ++ (write_be64 host b ++ padded val)

  filled_three :
      (a b c : ℕ) (key : List ℕ) (size : ℕ)
      → size ≡ 8 + (8 + (8 + (length key + padding (length key))))
      → (blit (replicate size 0) 0 (write_be64 host a) >>= λ k.
          blit k 8 (write_be64 host b) >>= λ k.
          blit k 16 (write_be64 host c) >>= λ k. blit k 24 key)
        ≡ some (key_image a b c key)
  filled_three a b c key size e =
      let wa = write_be64 host a in
      let wb = write_be64 host b in
      let wc = write_be64 host c in
      let la = length-write_be64 host a in
      let lb = length-write_be64 host b in
      let lc = length-write_be64 host c in
      let n = length key in
      let m = padding n in
      rw
        (
          e,
          blit-next [] wa 0 8 (8 + (8 + (n + m))) refl la,
          blit-next wa wb 8 8 (8 + (n + m)) la lb,
          blit-next (wa ++ wb) wc 16 8 (n + m) (omega (arith, la, lb, length-append wa wb)) lc,
          blit-next ((wa ++ wb) ++ wc) key 24 n m
              (omega (arith, la, lb, lc, length-append wa wb, length-append (wa ++ wb) wc)) refl,
        )
        (simp append_assoc)

  filled_two :
      (a b : ℕ) (val : List ℕ) (size : ℕ)
      → size ≡ 8 + (8 + (length val + padding (length val)))
      → (blit (replicate size 0) 0 (write_be64 host a) >>= λ v.
          blit v 8 (write_be64 host b) >>= λ v. blit v 16 val)
        ≡ some (val_image a b val)
  filled_two a b val size e =
      let wa = write_be64 host a in
      let wb = write_be64 host b in
      let la = length-write_be64 host a in
      let lb = length-write_be64 host b in
      let n = length val in
      let m = padding n in
      rw
        (
          e,
          blit-next [] wa 0 8 (8 + (n + m)) refl la,
          blit-next wa wb 8 8 (n + m) la lb,
          blit-next (wa ++ wb) val 16 n m (omega (arith, la, lb, length-append wa wb)) refl,
        )
        (simp append_assoc)

  write_be64-zero : write_be64 host 0 ≡ replicate 8 0
  unfolding store64
  write_be64-zero = write_be64-big_endian host 0

  -- The length of a record's buffer, as the code computes it.
  record_size :
      (base n : ℕ)
      → base < 2 ^ 32
      → n < 2 ^ 60
      → u64 (base + roundup64bits n) ≡ base + (n + padding n)
  record_size base n hb h = omega (arith, roundup64bits_lem n h)

  pub prepare_key-short :
      (key : List ℕ)
      → length key ≤ max_short_key_len
      → zs_prepare_key_buf host key
        ≡ some (
            key_image
              (2 ^ 56 + length key * 2 ^ 40 + (24 + (length key + padding (length key))))
              0
              0
              key)
  unfolding zs_prepare_key_buf
  prepare_key-short key h =
      let n = length key in
      let size = record_size 24 n (omega arith) (omega arith) in
      rw
        (
          le→ltb max_short_key_len n h,
          size,
          pack_type_len40 1 n (24 + (n + padding n)) (omega arith) (omega arith) (omega arith),
        )
        (filled_three (1 * 2 ^ 56 + n * 2 ^ 40 + (24 + (n + padding n))) 0 0 key
          (24 + (n + padding n)) (omega arith))

  pub prepare_key-long :
      (key : List ℕ)
      → max_short_key_len < length key
      → length key < 2 ^ 60
      → zs_prepare_key_buf host key
        ≡ some (key_image (33 * 2 ^ 56) (length key) (24 + (length key + padding (length key))) key)
  unfolding zs_prepare_key_buf
  prepare_key-long key h hi =
      let n = length key in
      let size = record_size 24 n (omega arith) hi in
      rw (lt→ltb max_short_key_len n h, size)
        (filled_three (33 * 2 ^ 56) n (24 + (n + padding n)) key (24 + (n + padding n))
          (omega arith))

  pub prepare_val-short :
      (val : List ℕ)
      → length val ≤ max_short_val_len
      → zs_prepare_val_buf host val ≡ some (val_image (2 * 2 ^ 56 + length val * 2 ^ 32) 0 val)
  unfolding zs_prepare_val_buf
  prepare_val-short val h =
      let n = length val in
      let size = record_size 16 n (omega arith) (omega arith) in
      rw (le→ltb max_short_val_len n h, size, pack_type_len 2 32 n (omega arith) (omega arith))
        (filled_two (2 * 2 ^ 56 + n * 2 ^ 32) 0 val (16 + (n + padding n)) (omega arith))

  pub prepare_val-long :
      (val : List ℕ)
      → max_short_val_len < length val
      → length val < 2 ^ 60
      → zs_prepare_val_buf host val ≡ some (val_image (34 * 2 ^ 56) (length val) val)
  unfolding zs_prepare_val_buf
  prepare_val-long val h hi =
      let n = length val in
      let size = record_size 16 n (omega arith) hi in
      rw (lt→ltb max_short_val_len n h, size)
        (filled_two (34 * 2 ^ 56) n val (16 + (n + padding n)) (omega arith))

  pub prepare_delete-short :
      (key : List ℕ)
      → length key ≤ max_short_key_len
      → zs_prepare_delete_key_buf host key
        ≡ some (key_image (64 * 2 ^ 56 + length key * 2 ^ 40) 0 0 key)
  unfolding zs_prepare_delete_key_buf
  prepare_delete-short key h =
      let n = length key in
      let fits : leb n max_short_key_len ≡ true = ground arith in
      let size = record_size 24 n (omega arith) (omega arith) in
      rw (fits, size, pack_type_len 64 40 n (omega arith) (omega arith))
        (filled_three (64 * 2 ^ 56 + n * 2 ^ 40) 0 0 key (24 + (n + padding n)) (omega arith))

  -- The first word of the buffer for a long key stays as `xcalloc` left it.
  pub prepare_delete-long :
      (key : List ℕ)
      → max_short_key_len < length key
      → length key < 2 ^ 60
      → zs_prepare_delete_key_buf host key ≡ some (key_image 0 (length key) 0 key)
  unfolding zs_prepare_delete_key_buf
  prepare_delete-long key h hi =
      let n = length key in
      let wa = write_be64 host 0 in
      let wb = write_be64 host n in
      let wc = write_be64 host 0 in
      let la = length-write_be64 host 0 in
      let lb = length-write_be64 host n in
      let m = padding n in
      let over : leb n max_short_key_len ≡ false = ground arith in
      let size : u64 (24 + roundup64bits n) ≡ 8 + (8 + (8 + (n + m))) =
        omega (arith, record_size 24 n (omega arith) hi) in
      let zeros : replicate (8 + (8 + (8 + (n + m)))) 0 ≡ wa ++ replicate (8 + (8 + (n + m))) 0 =
        rw write_be64-zero (replicate-add {A = ℕ} 8 (8 + (8 + (n + m))) 0) in
      rw
        (
          over,
          size,
          zeros,
          blit-next wa wb 8 8 (8 + (n + m)) la lb,
          blit-next (wa ++ wb) wc 16 8 (n + m) (omega (arith, la, lb, length-append wa wb)) la,
          blit-next ((wa ++ wb) ++ wc) key 24 n m
              (omega (arith, la, lb, length-append wa wb, length-append (wa ++ wb) wc)) refl,
        )
        (simp append_assoc)
