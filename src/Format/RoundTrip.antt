-- ===== src/Format/RoundTrip.antt =====
-- A pair of records that src/zeroskip-file.c prepared, read back by src/zeroskip-record.c.
use zeroskip.Prelude.{
  ℕ, ◌+◌, ◌^◌, ◌<◌, ◌≡◌, some, List, ◌++◌, arith, length, true, append_assoc, length-append,
}
use zeroskip.Word.{Host, u64}
use zeroskip.Buffer.{slice}
use zeroskip.Format.KeyRecord.{IsKeyRecord, prepare_key-IsKeyRecord}
use zeroskip.Format.ValRecord.{IsValRecord, prepare_val-IsValRecord}
use zeroskip.Format.Encode.{zs_prepare_key_buf, zs_prepare_val_buf}
use zeroskip.Format.Decode.{zs_record_read_key_val_from_offset}

module _ (host : Host) where
  -- A key record and the value record behind it, at any place of a file: the reader gives the
  -- places and the lengths of the key and the value, and those bytes are the key and the value.
  pub record IsReadBack (key val file : List ℕ) (offset : ℕ) : Type 0 where
    pub key_at : ℕ
    pub val_at : ℕ
    pub reads :
        (k0 v0 : ℕ)
        → zs_record_read_key_val_from_offset host file true offset k0 v0
          ≡ some ((key_at, length key), (val_at, length val))
    pub key_bytes : slice file key_at (length key) ≡ some key
    pub val_bytes : slice file val_at (length val) ≡ some val

  pub read_back :
      (key val kb vb before after : List ℕ)
      → IsKeyRecord host key kb
      → IsValRecord host val vb
      → length before + length kb < 2 ^ 64
      → IsReadBack key val (before ++ (kb ++ (vb ++ after))) (length before)
  unfolding zs_record_read_key_val_from_offset
  read_back key val kb vb before after k v room =
      let flat : before ++ (kb ++ (vb ++ after)) ≡ (before ++ kb) ++ (vb ++ after) =
        simp append_assoc in
      let place : u64 (length before + length kb) ≡ length (before ++ kb) =
        omega (arith, length-append before kb) in
      record {
        key_at = length before + 24;
        val_at = length (before ++ kb) + 16;
        reads = λ k0 v0.
            rw (k.reads before (vb ++ after) k0, place, flat, v.reads (before ++ kb) after v0);
        key_bytes = k.bytes before (vb ++ after);
        val_bytes = rw flat (v.bytes (before ++ kb) after);
      }

  pub write-read_key_val :
      (key val before after : List ℕ)
      → length key < 2 ^ 60
      → length val < 2 ^ 60
      → length before < 2 ^ 60
      → (kb : List ℕ) × (vb : List ℕ) × (zs_prepare_key_buf host key ≡ some kb)
        × (zs_prepare_val_buf host val ≡ some vb)
        × IsReadBack key val (before ++ (kb ++ (vb ++ after))) (length before)
  write-read_key_val key val before after hk hv hb =
      let (kb, ek, k) = prepare_key-IsKeyRecord host key hk in
      let (vb, ev, v) = prepare_val-IsValRecord host val hv in
      (kb, vb, ek, ev, read_back key val kb vb before after k v (omega (arith, k.size)))
