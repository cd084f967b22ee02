-- ===== src/Record/Replay.antt =====
-- The loop over a data file calls the callbacks once for each entry of the log, in order.
use mathlib.Core.List.{foldl}
use zeroskip.Prelude.{
  ℕ, zero, suc, ◌+◌, ◌*◌, ◌^◌, ◌<◌, ◌≡◌, refl, sym, ap, ◌∙◌, List, [], ◌∷◌, ◌++◌, arith, length,
  true, false, ltb, ◌==◌, ==_iff, if_same, le→ltb, lt→ltb, append_assoc, append-nil, length-append,
  if◌then◌else◌,
}
use zeroskip.Word.{Host}
use zeroskip.MFile.{Os, mapped, Checksum, stat_found, mfile_size, is_unusable}
use zeroskip.Format.{zs_hdr_size}
use zeroskip.Format.Layout.{length-key_image}
use zeroskip.Word.BigEndian.{length-write_be64}
use zeroskip.Format.Decode.{ZsKey, ZsVal}
use zeroskip.File.{Code, zs_ok, ZsdbFile}
use zeroskip.Record.{Callback, Run, returned, foreach_loop, record_foreach}
use zeroskip.Record.Log.{
  Entry, entry_bytes, log_bytes, IsLog, IsEntry, effect, stored, removed, committed, commit_word,
  commit_sum,
}
use zeroskip.Record.Steps.{entry_read}

module _ (host : Host) (crc : Checksum) (key0 : ZsKey) (val0 : ZsVal) {S : Type 0}
    (cb deleted_cb : Callback S) where
  entry_pos : (before : List ℕ) (e : Entry) → IsEntry host crc before e → 0 < length (entry_bytes e)
  entry_pos before (stored key val kb vb) (k, v) = omega (arith, length-append kb vb, k.size)
  entry_pos before (removed key buf) d =
      rw d.image (omega (arith, length-key_image host (64 * 2 ^ 56 + length key * 2 ^ 40) 0 0 key))
  entry_pos before (committed buf) c =
      rw c.image (
        omega
          (arith, length-write_be64 host (commit_word c.len + commit_sum host crc before c.len)))

  -- `base` is the whole file, and the loop stands behind `before`.
  replay_loop :
      (es : List Entry) (before base : List ℕ) (fuel : ℕ) (s : S)
      → base ≡ before ++ log_bytes es
      → IsLog host crc before es
      → length es < fuel
      → length base < 2 ^ 60
      → foreach_loop host crc key0 val0 cb deleted_cb fuel base true (length base) (length before) s
        ≡ returned (zs_ok, foldl (effect cb deleted_cb) s es)
  unfolding foreach_loop
  replay_loop es before base zero s whole h enough room = elim enough [ ]
  replay_loop [] before base (suc fuel) s whole h enough room =
      let size : length base ≡ length before = ap (length {A = ℕ}) (whole ∙ append-nil before) in
      let stop : ltb (length before) (length base) ≡ false = le→ltb _ _ (omega (arith, size)) in
      rw stop
  replay_loop (e ∷ es) before base (suc fuel) s whole (here, later) enough room =
      let rest = log_bytes es in
      let whole' : base ≡ (before ++ entry_bytes e) ++ rest =
        whole ∙ sym (append_assoc before (entry_bytes e) rest) in
      let size = ap (length {A = ℕ}) whole' in
      let sizes = length-append before (entry_bytes e) in
      let sizes' = length-append (before ++ entry_bytes e) rest in
      let pos = entry_pos before e here in
      let more : ltb (length before) (length base) ≡ true =
        lt→ltb _ _ (omega (arith, size, sizes, sizes', pos)) in
      let fits : length before + length (entry_bytes e) < 2 ^ 60 =
        omega (arith, size, sizes, sizes', room) in
      let read =
        rw (← whole) at (entry_read host crc key0 val0 cb deleted_cb before rest e s here fits) in
      let next : length before + length (entry_bytes e) ≡ length (before ++ entry_bytes e) =
        sym sizes in
      rw (more, read, next)
        (replay_loop es (before ++ entry_bytes e) base fuel (effect cb deleted_cb s e) whole' later
          (omega arith) room)

  -- The test for a file with a header alone agrees with the loop.
  size_test :
      (es : List Entry) (header : List ℕ) (s : S)
      → length header ≡ 40
      → IsLog host crc header es
      → if◌then◌else◌ {A = Run (Code × S)}
          (length (header ++ log_bytes es) == 40)
          (returned (zs_ok, s))
          (returned (zs_ok, foldl (effect cb deleted_cb) s es))
        ≡ returned (zs_ok, foldl (effect cb deleted_cb) s es)
  size_test [] header s sized h = if_same (length (header ++ []) == 40) (returned (zs_ok, s))
  size_test (e ∷ es) header s sized (here, later) =
      let sizes = length-append header (entry_bytes e ++ log_bytes es) in
      let sizes' = length-append (entry_bytes e) (log_bytes es) in
      let longer : (length (header ++ (entry_bytes e ++ log_bytes es)) == 40) ≡ false =
        ground (arith, sizes, sizes', entry_pos header e here) in
      rw longer

  -- Reading back a data file that holds a header and a well-written log, which no other process has
  -- changed: with more rounds of fuel than entries, the loop returns ZS_OK, reads nothing outside
  -- the mapping, and has called the callbacks once for each stored pair and each removal, in the
  -- order of the log.
  pub record_foreach-replays :
      (es : List Entry) (header : List ℕ) (fuel : ℕ) (os : Os) (f : ZsdbFile) (s : S)
      → length header ≡ zs_hdr_size
      → IsLog host crc header es
      → f.is_open ≡ true
      → f.mf.ptr ≡ mapped (header ++ log_bytes es)
      → f.mf.size ≡ length (header ++ log_bytes es)
      → length (header ++ log_bytes es) < 2 ^ 60
      → length es < fuel
      → record_foreach host crc key0 val0 cb deleted_cb fuel os
          (stat_found (header ++ log_bytes es))
          f
          s
        ≡ returned (zs_ok, foldl (effect cb deleted_cb) s es)
  unfolding record_foreach mfile_size
  record_foreach-replays es header fuel os f s sized h opened there size room enough =
      let base = header ++ log_bytes es in
      let same : (f.mf.size == length base) ≡ true = (==_iff _ _).1 size in
      let usable : is_unusable f.mf.ptr ≡ false = rw there in
      let big : ltb (length base) 40 ≡ false =
        le→ltb _ _ (omega (arith, sized, length-append header (log_bytes es))) in
      let loop = rw sized at (replay_loop es header base fuel s refl h enough room) in
      rw (usable, same, big, opened, there, loop) (size_test es header s sized h)
