-- ===== src/Format/Encode.antt =====
-- The buffers that src/zeroskip-file.c prepares for a record: `xcalloc`, then one write after the
-- other. `none` would be a write outside the buffer.
use zeroskip.Prelude.{
  ℕ, ◌+◌, bit_or, Option, List, ltb, leb, ◌==◌, length, replicate, if◌then◌else◌, ◌>>=◌,
}
use zeroskip.Word.{Host, u64, write_be64, ◌<<<◌}
use zeroskip.Buffer.{blit}
use zeroskip.Format.{
  rec_type_key, rec_type_value, rec_type_long, rec_type_deleted, rec_type_long_deleted,
  zs_key_base_rec_size, zs_val_base_rec_size, max_short_key_len, max_short_val_len, roundup64bits,
}

module _ (host : Host) where
  -- The branch of a short key and that of a long one.
  pub fill_short_key : ℕ → List ℕ → ℕ → Option (List ℕ)
  fill_short_key type key kbuflen = do
    let val = bit_or (bit_or (type <<< 56) (length key <<< 40)) kbuflen
    kbuf ← blit (replicate kbuflen 0) 0 (write_be64 host val)
    kbuf ← blit kbuf 8 (write_be64 host 0)
    kbuf ← blit kbuf 16 (write_be64 host 0)
    blit kbuf 24 key

  pub fill_long_key : ℕ → List ℕ → ℕ → Option (List ℕ)
  fill_long_key type key kbuflen = do
    kbuf ← blit (replicate kbuflen 0) 0 (write_be64 host (type <<< 56))
    kbuf ← blit kbuf 8 (write_be64 host (length key))
    kbuf ← blit kbuf 16 (write_be64 host kbuflen)
    blit kbuf 24 key

  unfoldable pub zs_prepare_key_buf : List ℕ → Option (List ℕ)
  unfolding fill_short_key fill_long_key
  zs_prepare_key_buf key =
      let keylen = length key in
      let type =
        if ltb max_short_key_len keylen then bit_or rec_type_key rec_type_long else rec_type_key in
      let kbuflen = u64 (zs_key_base_rec_size + roundup64bits keylen) in
      if type == rec_type_key
      then fill_short_key type key kbuflen
      else fill_long_key type key kbuflen

  pub fill_short_val : ℕ → List ℕ → ℕ → Option (List ℕ)
  fill_short_val type val vbuflen = do
    let value = bit_or (type <<< 56) (length val <<< 32)
    vbuf ← blit (replicate vbuflen 0) 0 (write_be64 host value)
    vbuf ← blit vbuf 8 (write_be64 host 0)
    blit vbuf 16 val

  pub fill_long_val : ℕ → List ℕ → ℕ → Option (List ℕ)
  fill_long_val type val vbuflen = do
    vbuf ← blit (replicate vbuflen 0) 0 (write_be64 host (type <<< 56))
    vbuf ← blit vbuf 8 (write_be64 host (length val))
    blit vbuf 16 val

  unfoldable pub zs_prepare_val_buf : List ℕ → Option (List ℕ)
  unfolding fill_short_val fill_long_val
  zs_prepare_val_buf val =
      let vallen = length val in
      let type =
        if ltb max_short_val_len vallen
        then bit_or rec_type_value rec_type_long
        else rec_type_value in
      let vbuflen = u64 (zs_val_base_rec_size + roundup64bits vallen) in
      if type == rec_type_value
      then fill_short_val type val vbuflen
      else fill_long_val type val vbuflen

  pub fill_short_delete : List ℕ → ℕ → Option (List ℕ)
  fill_short_delete key kbuflen = do
    let val = bit_or (rec_type_deleted <<< 56) (length key <<< 40)
    kbuf ← blit (replicate kbuflen 0) 0 (write_be64 host val)
    kbuf ← blit kbuf 8 (write_be64 host 0)
    kbuf ← blit kbuf 16 (write_be64 host 0)
    blit kbuf 24 key

  -- The word with the type is computed, and the position moves past it, but it is not written.
  pub fill_long_delete : List ℕ → ℕ → Option (List ℕ)
  fill_long_delete key kbuflen = do
    let val = rec_type_long_deleted <<< 56
    kbuf ← blit (replicate kbuflen 0) 8 (write_be64 host (length key))
    kbuf ← blit kbuf 16 (write_be64 host 0)
    blit kbuf 24 key

  unfoldable pub zs_prepare_delete_key_buf : List ℕ → Option (List ℕ)
  unfolding fill_short_delete fill_long_delete
  zs_prepare_delete_key_buf key =
      let kbuflen = u64 (zs_key_base_rec_size + roundup64bits (length key)) in
      if leb (length key) max_short_key_len
      then fill_short_delete key kbuflen
      else fill_long_delete key kbuflen
