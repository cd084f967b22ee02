-- ===== src/Fetch/Ends.antt =====
-- A short key that src/zeroskip-file.c wrote, as the search of the packed files reads it.
use zeroskip.Prelude.{ℕ, ◌+◌, ◌*◌, ◌^◌, ◌≤◌, ◌≡◌, refl, true, some, List, ◌++◌, arith, length}
use zeroskip.Word.{Host, ◌>>>◌}
use zeroskip.Buffer.{slice}
use zeroskip.Format.{max_short_key_len}
use zeroskip.Format.Words.{padding}
use zeroskip.Format.Images.{key_image, prepare_key-short}
use zeroskip.Format.Layout.{slice-key_image}
use zeroskip.Format.Reads.{key_words, read_key_rec-short}
use zeroskip.Format.Encode.{zs_prepare_key_buf}
use zeroskip.Format.Decode.{ZsKey}
use zeroskip.File.{zs_ok}
use zeroskip.Fetch.{zs_record_read_key_from_file_offset}

-- The key record of a short key, anywhere in an open file.
pub prepared-read_key :
    (host : Host) (key kb before rest : List ℕ) (index : List ℕ) (k0 : ZsKey)
    → length key ≤ max_short_key_len
    → zs_prepare_key_buf host key ≡ some kb
    → (k : ZsKey) × (zs_record_read_key_from_file_offset host
          (record { is_open = true; base = before ++ (kb ++ rest); index = index })
          (length before)
          k0
        ≡ some (zs_ok, k))
      × (slice (before ++ (kb ++ rest)) k.data_at k.slen ≡ some key)
unfolding zs_record_read_key_from_file_offset
prepared-read_key host key kb before rest index k0 short prepared =
    let n = length key in
    let size = 24 + (n + padding n) in
    let a = 1 * 2 ^ 56 + n * 2 ^ 40 + size in
    let image = prepare_key-short host key short in
    let same : kb ≡ key_image host a 0 0 key = cc (image, prepared) in
    let first =
      (key_words host before rest a 0 0 (omega arith) (omega arith) (omega arith) key).0 in
    let type : a >>> 56 ≡ 1 = omega (arith, short) in
    let read =
      read_key_rec-short host before rest key 1 n size k0 (omega arith) (omega arith) (omega arith)
        refl in
    let k : ZsKey = record {
      type = 1;
      slen = n;
      sval_offset = size;
      llen = 0;
      lval_offset = 0;
      data_at = length before + 24;
    } in
    (k, rw (same, first, type, read), rw same (slice-key_image host before rest a 0 0 key))
