-- ===== src/Format/KeyRecord.antt =====
-- A key record that `zs_prepare_key_buf` made, as every reader of src/zeroskip-record.c finds it.
use zeroskip.Prelude.{
  ℕ, ◌+◌, ◌*◌, ◌^◌, ◌≤◌, ◌<◌, ◌≡◌, refl, sym, ◌⊎◌, inl, inr, some, List, ◌++◌, arith, length, ltb,
  ltb→lt, ltb→le, Bool-cases,
}
use zeroskip.Word.{Host, read_be64, ◌>>>◌}
use zeroskip.Buffer.{slice}
use zeroskip.Format.{rec_type_key, rec_type_long_key, max_short_key_len}
use zeroskip.Format.Words.{padding}
use zeroskip.Format.Images.{key_image, prepare_key-short, prepare_key-long}
use zeroskip.Format.Layout.{length-key_image, slice-key_image}
use zeroskip.Format.Reads.{
  key_words, read_key-short, read_key-long, read_key_rec-short, read_key_rec-long,
}
use zeroskip.Format.Encode.{zs_prepare_key_buf}
use zeroskip.Format.Decode.{ZsKey, val_offset_of, keylen_of, zs_record_read_key, zs_read_key_rec}

module _ (host : Host) where
  -- What the readers find in the buffer `buf` of a key, at whatever place of a file it stands.
  pub record IsKeyRecord (key buf : List ℕ) : Type 0 where
    pub size : length buf ≡ 24 + (length key + padding (length key))
    pub type :
        (before rest : List ℕ)
        → (w : ℕ) × (read_be64 host (before ++ (buf ++ rest)) (length before) ≡ some w)
          × ((w >>> 56 ≡ rec_type_key) ⊎ (w >>> 56 ≡ rec_type_long_key))
    pub reads :
        (before rest : List ℕ) (k0 : ℕ)
        → zs_record_read_key host (before ++ (buf ++ rest)) (length before) k0
          ≡ some (length buf, length before + 24, length key)
    pub fields :
        (before rest : List ℕ) (k0 : ZsKey)
        → (k : ZsKey) × (zs_read_key_rec host (before ++ (buf ++ rest)) (length before) k0 ≡ some k)
          × (val_offset_of k ≡ length buf)
          × (keylen_of k ≡ length key)
          × (k.data_at ≡ length before + 24)
    pub bytes :
        (before rest : List ℕ)
        → slice (before ++ (buf ++ rest)) (length before + 24) (length key) ≡ some key

  pub prepare_key-IsKeyRecord :
      (key : List ℕ)
      → length key < 2 ^ 60
      → (buf : List ℕ) × (zs_prepare_key_buf host key ≡ some buf) × IsKeyRecord key buf
  prepare_key-IsKeyRecord key h = elim (Bool-cases (ltb max_short_key_len (length key))) [
    | inl long ↦
        let n = length key in
        let size = 24 + (n + padding n) in
        let a = 33 * 2 ^ 56 in
        (
          key_image host a n size key,
          prepare_key-long host key (ltb→lt _ _ long) h,
          record {
            size = length-key_image host a n size key;
            type = λ before rest. (
              a,
              (key_words host before rest a n size (omega arith) (omega arith) (omega arith) key).0,
              inr refl,
            );
            reads = λ before rest k0.
                rw (length-key_image host a n size key)
                  (read_key-long host before rest key n size k0 (omega arith) (omega arith));
            fields = λ before rest k0. (
              _,
              read_key_rec-long host before rest key n size k0 (omega arith) (omega arith),
              sym (length-key_image host a n size key),
              refl,
              refl,
            );
            bytes = λ before rest. slice-key_image host before rest a n size key;
          },
        )
    | inr short ↦
        let n = length key in
        let size = 24 + (n + padding n) in
        let a = 1 * 2 ^ 56 + n * 2 ^ 40 + size in
        let small : n ≤ max_short_key_len = ltb→le _ _ short in
        (
          key_image host a 0 0 key,
          prepare_key-short host key small,
          record {
            size = length-key_image host a 0 0 key;
            type = λ before rest. (
              a,
              (key_words host before rest a 0 0 (omega arith) (omega arith) (omega arith) key).0,
              inl (omega arith),
            );
            reads = λ before rest k0. rw (length-key_image host a 0 0 key) (
                read_key-short host before rest key 1 n size k0 (omega arith) (omega arith)
                  (omega arith) refl);
            fields = λ before rest k0. (
              _,
              read_key_rec-short host before rest key 1 n size k0 (omega arith) (omega arith)
                  (omega arith) refl,
              sym (length-key_image host a 0 0 key),
              refl,
              refl,
            );
            bytes = λ before rest. slice-key_image host before rest a 0 0 key;
          },
        )
  ]
