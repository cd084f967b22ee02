-- ===== src/Record/Stuck.antt =====
-- The loop over a data file does not get past the record of a removed key that is longer than
-- 65535 bytes, whose first word src/zeroskip-file.c leaves 0.
use zeroskip.Prelude.{
  ℕ, zero, suc, ◌^◌, ◌<◌, ◌≡◌, refl, true, some, List, ◌++◌, arith, length, lt→ltb,
}
use zeroskip.Word.{Host}
use zeroskip.MFile.{Checksum}
use zeroskip.Format.{max_short_key_len}
use zeroskip.Format.Images.{key_image, prepare_delete-long}
use zeroskip.Format.Reads.{key_words}
use zeroskip.Format.Encode.{zs_prepare_delete_key_buf}
use zeroskip.Format.Decode.{ZsKey, ZsVal}
use zeroskip.File.{zs_ok}
use zeroskip.Record.{Callback, out_of_fuel, zs_record_read_from_file, foreach_loop}

module _ (host : Host) (crc : Checksum) (key0 : ZsKey) (val0 : ZsVal) {S : Type 0}
    (cb deleted_cb : Callback S) where
  -- The first word is 0, so that no branch of the switch moves the offset.
  unmoved :
      (before rest : List ℕ) (b c : ℕ) (key : List ℕ) (s : S)
      → b < 2 ^ 64
      → c < 2 ^ 64
      → zs_record_read_from_file host crc key0 val0
          (before ++ (key_image host 0 b c key ++ rest))
          cb
          deleted_cb
          true
          (length before)
          s
        ≡ some (zs_ok, length before, s)
  unfolding zs_record_read_from_file
  unmoved before rest b c key s hb hc =
      rw ((key_words host before rest 0 b c (omega arith) hb hc key).0)

  stuck_loop :
      (fuel dbsize offset : ℕ) (base : List ℕ) (s : S)
      → offset < dbsize
      → zs_record_read_from_file host crc key0 val0 base cb deleted_cb true offset s
        ≡ some (zs_ok, offset, s)
      → foreach_loop host crc key0 val0 cb deleted_cb fuel base true dbsize offset s ≡ out_of_fuel
  unfolding foreach_loop
  stuck_loop zero dbsize offset base s more same = refl
  stuck_loop (suc fuel) dbsize offset base s more same =
      rw (lt→ltb offset dbsize more, same) (stuck_loop fuel dbsize offset base s more same)

  -- A file that holds, after `before`, the record that zs_prepare_delete_key_buf builds for a key
  -- of more than 65535 bytes: a loop that reaches this record takes every number of rounds.
  pub long_delete-foreach_loop :
      (before rest key buf : List ℕ) (fuel dbsize : ℕ) (s : S)
      → max_short_key_len < length key
      → length key < 2 ^ 60
      → zs_prepare_delete_key_buf host key ≡ some buf
      → length before < dbsize
      → foreach_loop host crc key0 val0 cb deleted_cb fuel
          (before ++ (buf ++ rest))
          true
          dbsize
          (length before)
          s
        ≡ out_of_fuel
  long_delete-foreach_loop before rest key buf fuel dbsize s long bounded made more =
      let image = key_image host 0 (length key) 0 key in
      let both = prepare_delete-long host key long bounded in
      let e : buf ≡ image = cc (both, made) in
      rw e (
        stuck_loop fuel dbsize (length before) (before ++ (image ++ rest)) s more
          (unmoved before rest (length key) 0 key s (omega arith) (omega arith)))
