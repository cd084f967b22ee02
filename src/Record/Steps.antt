-- ===== src/Record/Steps.antt =====
-- One round of the loop over a log reads one entry, calls its callback and stands behind it.
use zeroskip.Prelude.{
  ℕ, ◌+◌, ◌-◌, ◌*◌, ◌^◌, ◌<◌, ◌≡◌, refl, inl, inr, bit_and, none, some, List, [], ◌++◌, arith,
  length, true, false, drop, ltb, ==_refl, ◌==◌, append_assoc, length-append, le→ltb,
}
use zeroskip.Word.{Host, u64, write_be64, read_be64, store64, ◌>>>◌}
use zeroskip.Word.Bits.{bit_and-low, bit_and-field}
use zeroskip.Word.BigEndian.{read_be64-write_be64, length-write_be64}
use zeroskip.Buffer.{slice-suffix}
use zeroskip.MFile.{Checksum}
use zeroskip.Format.{roundup64bits}
use zeroskip.Format.Words.{roundup64bits_lem}
use zeroskip.Format.Images.{key_image}
use zeroskip.Format.Layout.{length-key_image, slice-key_image}
use zeroskip.Format.Reads.{key_words, read_key_rec-short}
use zeroskip.Format.KeyRecord.{IsKeyRecord}
use zeroskip.Format.ValRecord.{IsValRecord}
use zeroskip.Format.Decode.{ZsKey, ZsVal, val_offset_of}
use zeroskip.File.{zs_ok}
use zeroskip.Record.{
  Callback, call, zs_record_read_from_file, zs_read_and_verify_commit_record,
  zs_read_key_val_record_cb, zs_read_deleted_record,
}
use zeroskip.Record.Log.{
  Entry, stored, removed, committed, entry_bytes, commit_word, commit_sum, IsCommitRecord,
  IsDeleteRecord, IsEntry, effect,
}

-- The callbacks are called with the bytes of the entry.
call_stored :
    {S : Type 0} (cb deleted_cb : Callback S) (s : S) (key val kb vb : List ℕ)
    → call cb s (some key) (some val) ≡ some (effect cb deleted_cb s (stored key val kb vb))
call_stored none deleted_cb s key val kb vb = refl
call_stored (some f) deleted_cb s key val kb vb = refl

call_removed :
    {S : Type 0} (cb deleted_cb : Callback S) (s : S) (key buf : List ℕ)
    → call deleted_cb s (some key) (some []) ≡ some (effect cb deleted_cb s (removed key buf))
call_removed cb none s key buf = refl
call_removed cb (some f) s key buf = refl

module _ (host : Host) (crc : Checksum) (key0 : ZsKey) (val0 : ZsVal) {S : Type 0}
    (cb deleted_cb : Callback S) where
  pair_read :
      (before rest key val kb vb : List ℕ) (s : S)
      → IsKeyRecord host key kb
      → IsValRecord host val vb
      → length before + length (kb ++ vb) < 2 ^ 60
      → zs_read_key_val_record_cb host crc key0 val0
          (before ++ (kb ++ (vb ++ rest)))
          cb
          deleted_cb
          (length before)
          s
        ≡ some (
          zs_ok,
          length before + length (kb ++ vb),
          effect cb deleted_cb s (stored key val kb vb),
        )
  unfolding zs_read_key_val_record_cb
  pair_read before rest key val kb vb s k v room =
      let (kr, k_read, k_offset, k_len, k_at) = k.fields before (vb ++ rest) key0 in
      let (vr, v_read, v_len, v_at) = v.fields (before ++ kb) rest val0 in
      let sizes = length-append kb vb in
      let place : u64 (length before + val_offset_of kr) ≡ length (before ++ kb) =
        omega (arith, length-append before kb, k_offset) in
      let flat : before ++ (kb ++ (vb ++ rest)) ≡ (before ++ kb) ++ (vb ++ rest) =
        simp append_assoc in
      let v_read' = rw (← flat) at v_read in
      let key_bytes = k.bytes before (vb ++ rest) in
      let val_bytes = rw (← flat) at (v.bytes (before ++ kb) rest) in
      let called = call_stored cb deleted_cb s key val kb vb in
      let after : u64 (length (before ++ kb) + (16 + roundup64bits (length val)))
          ≡ length before + length (kb ++ vb) =
        omega (
          arith,
          sizes,
          v.size,
          length-append before kb,
          roundup64bits_lem (length val) (omega (arith, sizes, v.size)),
        ) in
      rw (k_read, place, v_read', k_at, k_len, key_bytes, v_at, v_len, val_bytes, called, after)

  delete_read :
      (before rest key buf : List ℕ) (s : S)
      → IsDeleteRecord host key buf
      → length before + length buf < 2 ^ 60
      → zs_read_deleted_record host crc key0 val0
          (before ++ (buf ++ rest))
          cb
          deleted_cb
          (length before)
          s
        ≡ some (zs_ok, length before + length buf, effect cb deleted_cb s (removed key buf))
  unfolding zs_read_deleted_record
  delete_read before rest key buf s d room =
      let n = length key in
      let w = 64 * 2 ^ 56 + n * 2 ^ 40 in
      let w0 : w + 0 ≡ w = omega arith in
      let read = rw w0 at (
        read_key_rec-short host before rest key 64 n 0 key0 (omega arith) (omega (arith, d.short))
          (omega arith) refl) in
      let key_bytes = slice-key_image host before rest w 0 0 key in
      let size = length-key_image host w 0 0 key in
      let called = call_removed cb deleted_cb s key (key_image host w 0 0 key) in
      let sized = rw d.image at room in
      let after : u64 (length before + (24 + roundup64bits n))
          ≡ length before + length (key_image host w 0 0 key) =
        omega (arith, size, sized, roundup64bits_lem n (omega (arith, size, sized))) in
      rw d.image (rw (read, key_bytes, called, after))

  commit_fields :
      (len sum : ℕ)
      → len < 2 ^ 24
      → sum < 2 ^ 32
      → let w = commit_word len + sum in
        (w >>> 56 ≡ 4)
        × (bit_and (w >>> 32) 0xFFFFFF ≡ len)
        × (bit_and w 0xFFFFFFFF00000000 ≡ commit_word len)
        × (bit_and w 0xFFFFFFFF ≡ sum)
  commit_fields len sum hl hs =
      let w = commit_word len + sum in
      (
        omega arith,
        omega (arith, bit_and-low 24 (w >>> 32)),
        omega (arith, bit_and-field 32 32 w),
        omega (arith, bit_and-low 32 w),
      )

  module _ (before rest buf : List ℕ) (c : IsCommitRecord host crc before buf) where
    commit_first :
        read_be64 host (before ++ (buf ++ rest)) (length before)
        ≡ some (commit_word c.len + commit_sum host crc before c.len)
    commit_first =
        let w = commit_word c.len + commit_sum host crc before c.len in
        let bounded =
          crc.run_lt (crc.run (crc.run 0 []) (drop (length before - c.len) before))
            (store64 host (commit_word c.len)) in
        let small : w < 2 ^ 64 = omega (arith, c.short, bounded) in
        let flat : before ++ (write_be64 host w ++ rest) ≡ before ++ write_be64 host w ++ rest =
          simp append_assoc in
        rw c.image (rw flat (read_be64-write_be64 host w before rest small))

    commit_read :
        length before < 2 ^ 60
        → zs_read_and_verify_commit_record host crc key0 val0
            (before ++ (buf ++ rest))
            (length before)
          ≡ some (zs_ok, length before + length buf)
    unfolding zs_read_and_verify_commit_record
    commit_read room =
        let sum = commit_sum host crc before c.len in
        let w = commit_word c.len + sum in
        let fields = commit_fields c.len sum c.short (crc.run_lt _ _) in
        let covered = slice-suffix before (buf ++ rest) c.len c.inside in
        let inside : ltb (length before) c.len ≡ false = le→ltb _ _ c.inside in
        let same : (sum == sum) ≡ true = ==_refl sum in
        let size : length buf ≡ 8 = rw c.image (length-write_be64 host w) in
        let after : u64 (length before + 8) ≡ length before + length buf = omega (arith, size) in
        rw (commit_first, fields.0, fields.1, inside, covered, fields.2, fields.3, same, after)

  -- The switch takes the branch of the entry's type.
  pub entry_read :
      (before rest : List ℕ) (e : Entry) (s : S)
      → IsEntry host crc before e
      → length before + length (entry_bytes e) < 2 ^ 60
      → zs_record_read_from_file host crc key0 val0
          (before ++ (entry_bytes e ++ rest))
          cb
          deleted_cb
          true
          (length before)
          s
        ≡ some (zs_ok, length before + length (entry_bytes e), effect cb deleted_cb s e)
  unfolding zs_record_read_from_file
  entry_read before rest (stored key val kb vb) s (k, v) room =
      let flat : before ++ ((kb ++ vb) ++ rest) ≡ before ++ (kb ++ (vb ++ rest)) =
        simp append_assoc in
      let (w, first, type) = k.type before (vb ++ rest) in
      let read = pair_read before rest key val kb vb s k v room in
      elim type [
        | inl short ↦ rw flat (rw (first, short) read)
        | inr long ↦ rw flat (rw (first, long) read)
      ]
  entry_read before rest (removed key buf) s d room =
      let w = 64 * 2 ^ 56 + length key * 2 ^ 40 in
      let small : w < 2 ^ 64 = omega (arith, d.short) in
      let first = (key_words host before rest w 0 0 small (omega arith) (omega arith) key).0 in
      let first' = rw (← d.image) at first in
      let type : w >>> 56 ≡ 64 = omega (arith, d.short) in
      rw (first', type, delete_read before rest key buf s d room)
  entry_read before rest (committed buf) s c room =
      let fields =
        commit_fields (c.len) (commit_sum host crc before c.len) c.short (crc.run_lt _ _) in
      rw (commit_first before rest buf c, fields.0, commit_read before rest buf c (omega arith))
