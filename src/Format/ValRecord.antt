-- ===== src/Format/ValRecord.antt =====
-- A value record that `zs_prepare_val_buf` made, as every reader of src/zeroskip-record.c finds it.
use zeroskip.Prelude.{
  ℕ, ◌+◌, ◌*◌, ◌^◌, ◌≤◌, ◌<◌, ◌≡◌, refl, inl, inr, some, List, ◌++◌, arith, length, ltb, ltb→lt,
  ltb→le, Bool-cases,
}
use zeroskip.Word.{Host}
use zeroskip.Buffer.{slice}
use zeroskip.Format.{max_short_val_len}
use zeroskip.Format.Words.{padding}
use zeroskip.Format.Images.{val_image, prepare_val-short, prepare_val-long}
use zeroskip.Format.Layout.{length-val_image, slice-val_image}
use zeroskip.Format.Reads.{read_val-short, read_val-long, read_val_rec-short, read_val_rec-long}
use zeroskip.Format.Encode.{zs_prepare_val_buf}
use zeroskip.Format.Decode.{ZsVal, vallen_of, zs_record_read_val, zs_read_val_rec}

module _ (host : Host) where
  -- What the readers find in the buffer `buf` of a value, at whatever place of a file it stands.
  pub record IsValRecord (val buf : List ℕ) : Type 0 where
    pub size : length buf ≡ 16 + (length val + padding (length val))
    pub reads :
        (before rest : List ℕ) (v0 : ℕ)
        → zs_record_read_val host (before ++ (buf ++ rest)) (length before) v0
          ≡ some (length before + 16, length val)
    pub fields :
        (before rest : List ℕ) (v0 : ZsVal)
        → (v : ZsVal) × (zs_read_val_rec host (before ++ (buf ++ rest)) (length before) v0 ≡ some v)
          × (vallen_of v ≡ length val)
          × (v.data_at ≡ length before + 16)
    pub bytes :
        (before rest : List ℕ)
        → slice (before ++ (buf ++ rest)) (length before + 16) (length val) ≡ some val

  pub prepare_val-IsValRecord :
      (val : List ℕ)
      → length val < 2 ^ 60
      → (buf : List ℕ) × (zs_prepare_val_buf host val ≡ some buf) × IsValRecord val buf
  prepare_val-IsValRecord val h = elim (Bool-cases (ltb max_short_val_len (length val))) [
    | inl long ↦
        let n = length val in
        let a = 34 * 2 ^ 56 in
        (
          val_image host a n val,
          prepare_val-long host val (ltb→lt _ _ long) h,
          record {
            size = length-val_image host a n val;
            reads = λ before rest v0. read_val-long host before rest val n v0 (omega arith);
            fields = λ before rest v0.
                (_, read_val_rec-long host before rest val n v0 (omega arith), refl, refl);
            bytes = λ before rest. slice-val_image host before rest a n val;
          },
        )
    | inr short ↦
        let n = length val in
        let a = 2 * 2 ^ 56 + n * 2 ^ 32 in
        let small : n ≤ max_short_val_len = ltb→le _ _ short in
        (
          val_image host a 0 val,
          prepare_val-short host val small,
          record {
            size = length-val_image host a 0 val;
            reads = λ before rest v0. read_val-short host before rest val n v0 (omega arith);
            fields = λ before rest v0.
                (_, read_val_rec-short host before rest val n v0 (omega arith), refl, refl);
            bytes = λ before rest. slice-val_image host before rest a 0 val;
          },
        )
  ]
