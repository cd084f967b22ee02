-- ===== src/Record.antt =====
-- Reading records one after the other (src/zeroskip-record.c), and the loops over a data file
-- (`zs_active_file_record_foreach` in src/zeroskip-active.c, `zs_finalised_file_record_foreach`
-- in src/zeroskip-finalised.c). A callback is a function on the caller's data.
pub mod Log
pub mod Steps
pub mod Replay
pub mod Stuck
use zeroskip.Prelude.{
  ℕ, zero, suc, ◌+◌, ◌-◌, ◌^◌, Bool, true, false, ◌||◌, bit_and, Option, none, some, List, [], ◌==◌,
  ltb, length, if◌then◌else◌, ◌>>=◌,
}
use zeroskip.Word.{Host, u64, store64, read_be64, ◌>>>◌}
use zeroskip.Buffer.{slice}
use zeroskip.MFile.{MFile, Os, Stat, Outcome, done, failed, Checksum, bytes_of, mfile_size}
use zeroskip.Format.{
  rec_type_unused, rec_type_key, rec_type_value, rec_type_commit, rec_type_2nd_half_commit,
  rec_type_final, rec_type_deleted, rec_type_long_key, rec_type_long_value, rec_type_long_commit,
  rec_type_long_final, rec_type_long_deleted, zs_hdr_size, zs_key_base_rec_size,
  zs_val_base_rec_size, zs_short_commit_rec_size, zs_long_commit_rec_size, roundup64bits,
}
use zeroskip.Format.Decode.{
  ZsKey, ZsVal, is_short_key, val_offset_of, keylen_of, vallen_of, zs_read_key_rec, zs_read_val_rec,
}
use zeroskip.File.{Code, zs_ok, zs_ioerror, zs_error, zs_invalid_db, ZsdbFile}

-- A callback's function, or NULL. What it returns is not looked at.
abbrev pub Callback : Type 0 → Type 0
Callback S = Option (S → List ℕ → List ℕ → S)

-- The bytes are read only if there is a function to call.
abbrev pub call : {S : Type 0} → Callback S → S → Option (List ℕ) → Option (List ℕ) → Option S
call none s key val = some s
call (some f) s key val = key >>= λ k. val >>= λ v. some (f s k v)

-- `key0` and `val0` are what the uninitialised structures on the stack hold.
module _ (host : Host) (crc : Checksum) (key0 : ZsKey) (val0 : ZsVal) (base : List ℕ) where
  unfoldable pub zs_read_and_verify_commit_record : ℕ → Option (Code × ℕ)
  zs_read_and_verify_commit_record offset = do
    first ← read_be64 host base offset
    let rectype = first >>> 56
    let len = bit_and (first >>> 32) 0xFFFFFF
    let verify : Option (Code × ℕ) = do
      covered ← slice base (offset - len) len
      let kept = bit_and first 0xFFFFFFFF00000000
      let sum = crc.run (crc.run (crc.run 0 []) covered) (store64 host kept)
      let ret = if bit_and first 0xFFFFFFFF == sum then zs_ok else zs_invalid_db
      some (ret, u64 (offset + zs_short_commit_rec_size))
    if rectype == rec_type_commit
        then (if ltb offset len then none else verify)
        else if rectype == rec_type_long_commit
        -- The length is handed to the checksum as an address.
        then none
        else some (zs_invalid_db, offset)

  module _ {S : Type 0} (cb deleted_cb : Callback S) where
    unfoldable pub zs_read_key_val_record_cb : ℕ → S → Option (Code × ℕ × S)
    zs_read_key_val_record_cb offset s = do
      key ← zs_read_key_rec host base offset key0
      let at_val = u64 (offset + val_offset_of key)
      val ← zs_read_val_rec host base at_val val0
      let vallen = vallen_of val
      let after = u64 (at_val + (zs_val_base_rec_size + roundup64bits vallen))
      s' ← call cb s (slice base key.data_at (keylen_of key)) (slice base val.data_at vallen)
      some (zs_ok, after, s')

    unfoldable pub zs_read_deleted_record : ℕ → S → Option (Code × ℕ × S)
    zs_read_deleted_record offset s = do
      key ← zs_read_key_rec host base offset key0
      let keylen = if key.type == rec_type_deleted then key.slen else key.llen
      s' ← call deleted_cb s (slice base key.data_at keylen) (some [])
      some (zs_ok, u64 (offset + (zs_key_base_rec_size + roundup64bits keylen)), s')

    -- The switch, on an open file.
    dispatch : ℕ → ℕ → S → Option (Code × ℕ × S)
    dispatch rectype offset s =
        if rectype == rec_type_key || rectype == rec_type_long_key
        then zs_read_key_val_record_cb offset s
        else if rectype == rec_type_commit || rectype == rec_type_long_commit
        then (zs_read_and_verify_commit_record offset >>= λ r. some (r.0, r.1, s))
        else if rectype == rec_type_deleted || rectype == rec_type_long_deleted
        then (zs_read_deleted_record offset s >>= λ r. some (zs_ok, r.1, r.2))
        else some (zs_ok, offset, s)

    unfoldable pub zs_record_read_from_file : Bool → ℕ → S → Option (Code × ℕ × S)
    unfolding dispatch
    zs_record_read_from_file is_open offset s =
        let read : Option (Code × ℕ × S) = do
          first ← read_be64 host base offset
          dispatch (first >>> 56) offset s
        in if is_open then read else some (zs_ioerror, offset, s)

-- How a loop ends: a return, an access outside the mapping, or more rounds than the fuel.
pub data Run (A : Type 0) : Type 0 where
  returned : A → Run A
  fault : Run A
  out_of_fuel : Run A

abbrev pub is_ok : Code → Bool
is_ok zs_ok = true
is_ok _ = false

-- `dbsize` is 0 unless `mfile_size` sets it.
known_size : Option ℕ → ℕ
known_size none = 0
known_size (some n) = n

abbrev pub handle_of : Outcome → MFile
handle_of (done mf) = mf
handle_of (failed err mf) = mf

module _ (host : Host) (crc : Checksum) (key0 : ZsKey) (val0 : ZsVal) {S : Type 0}
    (cb deleted_cb : Callback S) where
  -- `while (offset < dbsize)`.
  pub foreach_loop : ℕ → List ℕ → Bool → ℕ → ℕ → S → Run (Code × S)
  foreach_loop zero base is_open dbsize offset s = out_of_fuel
  foreach_loop (suc fuel) base is_open dbsize offset s =
      if ltb offset dbsize
      then elim (zs_record_read_from_file host crc key0 val0 base cb deleted_cb is_open offset s) [
        | none ↦ fault
        | some (ret, offset', s') ↦ elim (is_ok ret) [
          | true ↦ foreach_loop fuel base is_open dbsize offset' s'
          | false ↦ returned (ret, s')
        ]
      ]
      else returned (zs_ok, s)

  unfoldable pub record_foreach : ℕ → Os → Stat → ZsdbFile → S → Run (Code × S)
  unfolding foreach_loop known_size
  record_foreach fuel os stat f s =
      let (outcome, size) = mfile_size os stat f.mf in
      let dbsize = known_size size in
      let loop =
        foreach_loop fuel (bytes_of (handle_of outcome).ptr) f.is_open dbsize zs_hdr_size s in
      if ltb dbsize zs_hdr_size
      then returned (zs_invalid_db, s)
      else if dbsize == zs_hdr_size
      then returned (zs_ok, s)
      else loop
