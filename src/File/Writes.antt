-- ===== src/File/Writes.antt =====
-- The writers append exactly the records of Format to the file, where no system call fails.
use zeroskip.Prelude.{
  ℕ, ◌+◌, ◌*◌, ◌^◌, ◌≤◌, ◌<◌, ◌≡◌, ap, ◌∙◌, true, some, List, ◌++◌, arith, length, append_assoc,
  length-append,
}
use zeroskip.Word.{Host}
use zeroskip.MFile.{calm, bytes_of, Checksum}
use zeroskip.MFile.Append.{IsAppending, IsCovering, mfile_write-appends}
use zeroskip.Format.{max_short_key_len}
use zeroskip.Format.Images.{key_image, prepare_delete-short}
use zeroskip.Format.Layout.{length-key_image}
use zeroskip.Format.KeyRecord.{IsKeyRecord, prepare_key-IsKeyRecord}
use zeroskip.Format.ValRecord.{IsValRecord, prepare_val-IsValRecord}
use zeroskip.Format.Encode.{zs_prepare_key_buf}
use zeroskip.File.{zs_ok, ZsdbFile, zs_file_write_keyval_record, zs_file_write_delete_record}

-- An open file at whose end one writes.
pub record IsWritable (f : ZsdbFile) : Type 0 where
  pub opened : f.is_open ≡ true
  pub appending : IsAppending f.mf

abbrev pub contents : ZsdbFile → List ℕ
contents f = bytes_of f.mf.ptr

-- The file is longer by `bytes`, and a checksum in progress covers them too.
pub record Extended (f : ZsdbFile) (bytes : List ℕ) (f' : ZsdbFile) : Type 0 where
  pub writable : IsWritable f'
  pub holds : contents f' ≡ contents f ++ bytes
  pub covering : (crc : Checksum) → IsCovering crc f.mf → IsCovering crc f'.mf
  pub still : f.mf.compute_crc ≡ f'.mf.compute_crc

module _ (host : Host) where
  -- What is written, with the buffer of the key.
  pub write_keyval_lem :
      (f : ZsdbFile) (key val : List ℕ)
      → IsWritable f
      → length (contents f) < 2 ^ 58
      → length key < 2 ^ 58
      → length val < 2 ^ 58
      → (kb : List ℕ) × (vb : List ℕ) × (f' : ZsdbFile) × (zs_file_write_keyval_record host calm
            calm f key val
          ≡ some (zs_ok, f'))
        × IsKeyRecord host key kb
        × IsValRecord host val vb
        × Extended f (kb ++ vb) f'
        × (length (kb ++ vb) < length key + length val + 2 ^ 6)
        × (zs_prepare_key_buf host key ≡ some kb)
        × (length kb < 2 ^ 60)
        × (f'.mf.crc32_begin_offset ≡ f.mf.crc32_begin_offset)
  unfolding zs_file_write_keyval_record
  write_keyval_lem f key val w room hk hv =
      let (kb, ek, k) = prepare_key-IsKeyRecord host key (omega arith) in
      let (vb, ev, v) = prepare_val-IsValRecord host val (omega arith) in
      let (mf1, wrote1, a1) = mfile_write-appends f.mf kb w.appending (omega (arith, k.size)) in
      let size1 = ap (length {A = ℕ}) a1.bytes in
      let sizes = length-append (contents f) kb in
      let (mf2, wrote2, a2) =
        mfile_write-appends mf1 vb a1.appending (omega (arith, size1, sizes, k.size, v.size)) in
      (
        kb,
        vb,
        record f { mf = mf2 },
        rw (w.opened, ek, ev, wrote1, wrote2),
        k,
        v,
        record {
          writable = record { opened = w.opened; appending = a2.appending };
          holds =
              a2.bytes ∙ ap (λ (xs : List ℕ). xs ++ vb) a1.bytes ∙ append_assoc (contents f) kb vb;
          covering = λ crc c. a2.covering crc (a1.covering crc c);
          still = a1.still ∙ a2.still;
        },
        omega (arith, length-append kb vb, k.size, v.size),
        ek,
        omega (arith, k.size),
        a2.same_begin ∙ a1.same_begin,
      )

  -- Writing a pair to a file below 2 ^ 58 bytes that is open for writing, with the position at its
  -- end, where no system call fails: the call returns ZS_OK, and the file is longer by the key
  -- record and the value record of the pair and stays as it was otherwise.
  pub write_keyval-extends :
      (f : ZsdbFile) (key val : List ℕ)
      → IsWritable f
      → length (contents f) < 2 ^ 58
      → length key < 2 ^ 58
      → length val < 2 ^ 58
      → (kb : List ℕ) × (vb : List ℕ) × (f' : ZsdbFile) × (zs_file_write_keyval_record host calm
            calm f key val
          ≡ some (zs_ok, f'))
        × IsKeyRecord host key kb
        × IsValRecord host val vb
        × Extended f (kb ++ vb) f'
        × (length (kb ++ vb) < length key + length val + 2 ^ 6)
  write_keyval-extends f key val w room hk hv =
      let (kb, vb, f', wrote, k, v, extended, size, prepared, small, begun) =
        write_keyval_lem f key val w room hk hv in
      (kb, vb, f', wrote, k, v, extended, size)

  -- Writing the removal of a key of at most 65535 bytes to such a file: the call returns ZS_OK, and
  -- the file is longer by one delete record.
  pub write_delete-extends :
      (f : ZsdbFile) (key : List ℕ)
      → IsWritable f
      → length (contents f) < 2 ^ 58
      → length key ≤ max_short_key_len
      → let image = key_image host (64 * 2 ^ 56 + length key * 2 ^ 40) 0 0 key in
        (f' : ZsdbFile) × (zs_file_write_delete_record host calm f key ≡ some (zs_ok, f'))
        × Extended f image f'
        × (length image < length key + 2 ^ 6)
  unfolding zs_file_write_delete_record
  write_delete-extends f key w room hk =
      let image = key_image host (64 * 2 ^ 56 + length key * 2 ^ 40) 0 0 key in
      let size = length-key_image host (64 * 2 ^ 56 + length key * 2 ^ 40) 0 0 key in
      let (mf1, wrote1, a1) = mfile_write-appends f.mf image w.appending (omega (arith, size)) in
      (
        record f { mf = mf1 },
        rw (w.opened, prepare_delete-short host key hk, wrote1),
        record {
          writable = record { opened = w.opened; appending = a1.appending };
          holds = a1.bytes;
          covering = a1.covering;
          still = a1.still;
        },
        omega (arith, size),
      )
