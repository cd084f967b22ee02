-- ===== src/Format/Reads.antt =====
-- What the readers of src/zeroskip-record.c find in a buffer of the shape that
-- src/zeroskip-file.c prepares, wherever it lies in a file.
use zeroskip.Prelude.{
  ℕ, ◌+◌, ◌*◌, ◌^◌, ◌<◌, ◌≡◌, bit_and, some, List, ◌++◌, arith, length, true, append_assoc,
}
use zeroskip.Word.{Host, u8, u16, write_be64, read_be64, ◌>>>◌}
use zeroskip.Word.Bits.{bit_and-low}
use zeroskip.Word.BigEndian.{read_be64-head, read_be64-next, read_be64-skip}
use zeroskip.Format.Images.{padded, key_image, val_image}
use zeroskip.Format.Decode.{
  ZsKey, ZsVal, is_short_key, zs_record_read_key, zs_record_read_val, zs_read_key_rec,
  zs_read_val_rec,
}

module _ (host : Host) where
  read_at :
      (before xs : List ℕ) → read_be64 host (before ++ xs) (length before) ≡ read_be64 host xs 0
  read_at before xs =
      let e : length before + 0 ≡ length before = omega arith in
      rw e at (read_be64-skip host before xs 0)

  module _ (before rest : List ℕ) (a b c : ℕ) (ha : a < 2 ^ 64) (hb : b < 2 ^ 64)
      (hc : c < 2 ^ 64) where
    pub key_words :
        (key : List ℕ)
        → let file = before ++ (key_image host a b c key ++ rest) in
          (read_be64 host file (length before) ≡ some a)
          × (read_be64 host file (length before + 8) ≡ some b)
          × (read_be64 host file (length before + 16) ≡ some c)
    key_words key =
        let tail = padded key ++ rest in
        let wc = write_be64 host c ++ tail in
        let wb = write_be64 host b ++ wc in
        let flat : key_image host a b c key ++ rest ≡ write_be64 host a ++ wb = simp append_assoc in
        rw flat (
          rw (read_at before (write_be64 host a ++ wb)) (read_be64-head host a wb ha),
          rw (read_be64-skip host before (write_be64 host a ++ wb) 8, read_be64-next host a wb 0)
              (read_be64-head host b wc hb),
          rw
              (
                read_be64-skip host before (write_be64 host a ++ wb) 16,
                read_be64-next host a wb 8,
                read_be64-next host b wc 0,
              )
              (read_be64-head host c tail hc),
        )

    val_words :
        (val : List ℕ)
        → let file = before ++ (val_image host a b val ++ rest) in
          (read_be64 host file (length before) ≡ some a)
          × (read_be64 host file (length before + 8) ≡ some b)
    val_words val =
        let tail = padded val ++ rest in
        let wb = write_be64 host b ++ tail in
        let flat : val_image host a b val ++ rest ≡ write_be64 host a ++ wb = simp append_assoc in
        rw flat (
          rw (read_at before (write_be64 host a ++ wb)) (read_be64-head host a wb ha),
          rw (read_be64-skip host before (write_be64 host a ++ wb) 8, read_be64-next host a wb 0)
              (read_be64-head host b tail hb),
        )

  -- A first word `type << 56 | len << 40 | low`, as the readers take it apart.
  short_fields :
      (t n low : ℕ)
      → t < 256
      → n < 2 ^ 16
      → low < 2 ^ 32
      → let w = t * 2 ^ 56 + n * 2 ^ 40 + low in
        (u8 (w >>> 56) ≡ t) × (u16 (bit_and (w >>> 40) 0xFFFFFF) ≡ n) × (bit_and w 0xFFFFFFFF ≡ low)
  short_fields t n low ht hn hl =
      let w = t * 2 ^ 56 + n * 2 ^ 40 + low in
      (omega arith, omega (arith, bit_and-low 24 (w >>> 40)), omega (arith, bit_and-low 32 w))

  module _ (before rest key : List ℕ) where
    abbrev file : ℕ → ℕ → ℕ → List ℕ
    file a b c = before ++ (key_image host a b c key ++ rest)

    pub read_key-short :
        (t n low k0 : ℕ)
        → t < 256
        → n < 2 ^ 16
        → low < 2 ^ 32
        → is_short_key t ≡ true
        → zs_record_read_key host (file (t * 2 ^ 56 + n * 2 ^ 40 + low) 0 0) (length before) k0
          ≡ some (low, length before + 24, n)
    unfolding zs_record_read_key
    read_key-short t n low k0 ht hn hl short =
        let w = t * 2 ^ 56 + n * 2 ^ 40 + low in
        let words = key_words before rest w 0 0 (omega arith) (omega arith) (omega arith) key in
        let fields = short_fields t n low ht hn hl in
        rw (words.0, fields.0, short, fields.1, fields.2)

    pub read_key-long :
        (n offset k0 : ℕ)
        → n < 2 ^ 64
        → offset < 2 ^ 64
        → zs_record_read_key host (file (33 * 2 ^ 56) n offset) (length before) k0
          ≡ some (offset, length before + 24, n)
    unfolding zs_record_read_key
    read_key-long n offset k0 hn ho =
        let words = key_words before rest (33 * 2 ^ 56) n offset (omega arith) hn ho key in
        rw (words.0, words.1, words.2)

    pub read_key_rec-short :
        (t n low : ℕ) (k : ZsKey)
        → t < 256
        → n < 2 ^ 16
        → low < 2 ^ 32
        → is_short_key t ≡ true
        → zs_read_key_rec host (file (t * 2 ^ 56 + n * 2 ^ 40 + low) 0 0) (length before) k
          ≡ some (record {
            type = t;
            slen = n;
            sval_offset = low;
            llen = 0;
            lval_offset = 0;
            data_at = length before + 24;
          })
    unfolding zs_read_key_rec
    read_key_rec-short t n low k ht hn hl short =
        let w = t * 2 ^ 56 + n * 2 ^ 40 + low in
        let words = key_words before rest w 0 0 (omega arith) (omega arith) (omega arith) key in
        let fields = short_fields t n low ht hn hl in
        rw (words.0, fields.0, short, fields.1, fields.2)

    pub read_key_rec-long :
        (n offset : ℕ) (k : ZsKey)
        → n < 2 ^ 64
        → offset < 2 ^ 64
        → zs_read_key_rec host (file (33 * 2 ^ 56) n offset) (length before) k
          ≡ some (record {
            type = 33;
            slen = 0;
            sval_offset = 0;
            llen = n;
            lval_offset = offset;
            data_at = length before + 24;
          })
    unfolding zs_read_key_rec
    read_key_rec-long n offset k hn ho =
        let words = key_words before rest (33 * 2 ^ 56) n offset (omega arith) hn ho key in
        rw (words.0, words.1, words.2)

  val_fields :
      (n : ℕ)
      → n < 2 ^ 24
      → let w = 2 * 2 ^ 56 + n * 2 ^ 32 in (u8 (w >>> 56) ≡ 2) × (bit_and (w >>> 32) 0xFFFFFF ≡ n)
  val_fields n hn =
      let w = 2 * 2 ^ 56 + n * 2 ^ 32 in (omega arith, omega (arith, bit_and-low 24 (w >>> 32)))

  module _ (before rest val : List ℕ) (n : ℕ) where
    pub read_val-short :
        (v0 : ℕ)
        → n < 2 ^ 24
        → zs_record_read_val host
            (before ++ (val_image host (2 * 2 ^ 56 + n * 2 ^ 32) 0 val ++ rest))
            (length before)
            v0
          ≡ some (length before + 16, n)
    unfolding zs_record_read_val
    read_val-short v0 hn =
        let words =
          val_words before rest (2 * 2 ^ 56 + n * 2 ^ 32) 0 0 (omega arith) (omega arith)
            (omega arith) val in
        let fields = val_fields n hn in rw (words.0, fields.0, fields.1)

    pub read_val-long :
        (v0 : ℕ)
        → n < 2 ^ 64
        → zs_record_read_val host
            (before ++ (val_image host (34 * 2 ^ 56) n val ++ rest))
            (length before)
            v0
          ≡ some (length before + 16, n)
    unfolding zs_record_read_val
    read_val-long v0 hn =
        let words = val_words before rest (34 * 2 ^ 56) n 0 (omega arith) hn (omega arith) val in
        rw (words.0, words.1)

    pub read_val_rec-short :
        (v : ZsVal)
        → n < 2 ^ 24
        → zs_read_val_rec host
            (before ++ (val_image host (2 * 2 ^ 56 + n * 2 ^ 32) 0 val ++ rest))
            (length before)
            v
          ≡ some
              (record { type = 2; slen = n; nullpad = 0; llen = 0; data_at = length before + 16 })
    unfolding zs_read_val_rec
    read_val_rec-short v hn =
        let words =
          val_words before rest (2 * 2 ^ 56 + n * 2 ^ 32) 0 0 (omega arith) (omega arith)
            (omega arith) val in
        let fields = val_fields n hn in rw (words.0, fields.0, fields.1)

    pub read_val_rec-long :
        (v : ZsVal)
        → n < 2 ^ 64
        → zs_read_val_rec host
            (before ++ (val_image host (34 * 2 ^ 56) n val ++ rest))
            (length before)
            v
          ≡ some
              (record { type = 34; slen = 0; nullpad = 0; llen = n; data_at = length before + 16 })
    unfolding zs_read_val_rec
    read_val_rec-long v hn =
        let words = val_words before rest (34 * 2 ^ 56) n 0 (omega arith) hn (omega arith) val in
        rw (words.0, words.1)
