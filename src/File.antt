-- ===== src/File.antt =====
-- Writing records to a data file (src/zeroskip-file.c). `none` is an access outside a buffer.
pub mod Commit
pub mod Writes
use zeroskip.Prelude.{
  ℕ, ◌+◌, Bool, true, bit_or, Option, some, List, [], ◌++◌, take, ltb, length, replicate,
  if◌then◌else◌, ◌>>=◌,
}
use zeroskip.Word.{Host, u32, store64, write_be64, ◌<<<◌}
use zeroskip.Buffer.{blit}
use zeroskip.MFile.{MFile, Os, Outcome, done, failed, Checksum, mfile_write, mfile_flush, crc32_end}
use zeroskip.Format.{
  rec_type_commit, rec_type_long_commit, rec_type_final, rec_type_long_final,
  rec_type_2nd_half_commit, max_short_val_len, zs_short_commit_rec_size, zs_long_commit_rec_size,
}
use zeroskip.Format.Encode.{zs_prepare_key_buf, zs_prepare_val_buf, zs_prepare_delete_key_buf}

-- The return codes of include/libzeroskip/zeroskip.h that the modelled code uses.
pub data Code : Type 0 where
  zs_ok zs_ioerror zs_internal zs_notfound zs_error zs_invalid_db zs_not_open : Code

-- The part of struct zsdb_file that reads and writes use.
pub record ZsdbFile : Type 0 where
  pub is_open : Bool
  pub mf : MFile

-- An `mfile` call whose failure is an I/O error, and what follows its success.
after_write : ZsdbFile → Outcome → (ZsdbFile → Option (Code × ZsdbFile)) → Option (Code × ZsdbFile)
after_write f (failed err mf) next = some (zs_ioerror, record f { mf = mf })
after_write f (done mf) next = next (record f { mf = mf })

module _ (host : Host) where
  unfoldable pub zs_file_write_keyval_record :
      Os → Os → ZsdbFile → List ℕ → List ℕ → Option (Code × ZsdbFile)
  unfolding after_write
  zs_file_write_keyval_record os_key os_val f key val =
      let write : Option (Code × ZsdbFile) = do
        keybuf ← zs_prepare_key_buf host key
        valbuf ← zs_prepare_val_buf host val
        wrote_key ← mfile_write os_key f.mf keybuf
        after_write f wrote_key λ f'. do
          wrote_val ← mfile_write os_val f'.mf valbuf
          after_write f' wrote_val λ f''. some (zs_ok, f'')
      in if f.is_open then write else some (zs_not_open, f)

  unfoldable pub zs_file_write_delete_record : Os → ZsdbFile → List ℕ → Option (Code × ZsdbFile)
  unfolding after_write
  zs_file_write_delete_record os f key =
      let write : Option (Code × ZsdbFile) = do
        dbuf ← zs_prepare_delete_key_buf host key
        wrote ← mfile_write os f.mf dbuf
        after_write f wrote λ f'. some (zs_ok, f')
      in if f.is_open then write else some (zs_not_open, f)

  module _ (crc : Checksum) where
    -- The three words of a long commit, in a buffer of 24 bytes.
    long_commit : Bool → ℕ → ℕ → Option (List ℕ)
    long_commit final len sum = do
      let type1 = if final then rec_type_long_final else rec_type_long_commit
      let val1 = type1 <<< 56
      buf ← blit (replicate 24 0) 0 (write_be64 host val1)
      buf ← blit buf 8 (write_be64 host len)
      let val3 = rec_type_2nd_half_commit <<< 56
      let lccrc =
          crc.run (crc.run (crc.run sum (store64 host val1)) (store64 host len)) (store64 host val3)
      buf ← blit buf 16 (write_be64 host (bit_or val3 lccrc))
      some (take zs_long_commit_rec_size buf)

    short_commit : Bool → ℕ → ℕ → Option (List ℕ)
    short_commit final len sum = do
      let type = if final then rec_type_final else rec_type_commit
      let val = bit_or (type <<< 56) (len <<< 32)
      let sccrc = crc.run sum (store64 host val)
      buf ← blit (replicate 24 0) 0 (write_be64 host (bit_or val sccrc))
      some (take zs_short_commit_rec_size buf)

    -- The length that the record states is read before `crc32_end` resets it.
    unfoldable pub zs_file_write_commit_record :
        Os → Os → ZsdbFile → Bool → Option (Code × ZsdbFile)
    unfolding long_commit short_commit after_write
    zs_file_write_commit_record os_write os_flush f final =
        let len = f.mf.crc32_data_len in
        let write : Option (Code × ZsdbFile) = do
          (sum, mf) ← crc32_end crc f.mf
          buf ←
              if ltb max_short_val_len len
              then long_commit final len sum
              else short_commit final len sum
          wrote ← mfile_write os_write mf buf
          after_write (record f { mf = mf }) wrote
              λ f'. after_write f' (mfile_flush os_flush f'.mf) λ f''. some (zs_ok, f'')
        in if f.is_open then write else some (zs_internal, f)
