-- ===== src/Tests/Files.antt =====
-- Mapped files, records and headers.
use zeroskip.Prelude.{
  ℕ, ◌+◌, ◌*◌, ◌^◌, ◌<◌, ◌≤◌, ◌≡◌, ◌≢◌, ◌⊎◌, refl, List, [], ◌++◌, none, some, true, false, length,
  replicate, arith,
}
use zeroskip.Word.{little}
use zeroskip.MFile.{
  Os, calm, Outcome, done, failed, mapped, einval, espipe, stat_found, mfile_write, mfile_seek,
}
use zeroskip.MFile.WellFormed.{IsWellFormed, Ends, Wrote}
use zeroskip.MFile.Write.{mfile_write_lem, mfile_seek-IsWellFormed}
use zeroskip.MFile.Append.{IsCovering}
use zeroskip.Format.Encode.{zs_prepare_key_buf, zs_prepare_val_buf}
use zeroskip.Format.Images.{key_image}
use zeroskip.Format.KeyRecord.{IsKeyRecord}
use zeroskip.Format.ValRecord.{IsValRecord}
use zeroskip.Format.RoundTrip.{IsReadBack, write-read_key_val}
use zeroskip.File.{
  zs_ok, ZsdbFile, zs_file_write_keyval_record, zs_file_write_delete_record,
  zs_file_write_commit_record,
}
use zeroskip.File.Writes.{
  IsWritable, contents, Extended, write_keyval-extends, write_delete-extends,
}
use zeroskip.File.Commit.{write_commit-appends}
use zeroskip.Record.Log.{IsCommitRecord}
use zeroskip.Header.{ZsHeader, code, zs_signature, header_crc, zs_header_write, zs_header_validate}
use zeroskip.Header.RoundTrip.{IsHeader, zs_header_write-validate}
use zeroskip.Tests.{a_key, a_val, some_bytes, a_sum, empty_file, three_mf, three_file}

three_mf-IsWellFormed : IsWellFormed three_mf
three_mf-IsWellFormed = record { sized = refl; placed = omega arith }

empty_file-IsWritable : IsWritable empty_file
empty_file-IsWritable = record {
  opened = refl;
  appending = record {
    well = record { sized = refl; placed = omega arith };
    usable = λ e. cc e;
    writable = refl;
    at_end = refl;
  };
}

pub three_file-IsWritable : IsWritable three_file
three_file-IsWritable = record {
  opened = refl;
  appending = record {
    well = three_mf-IsWellFormed;
    usable = λ e. cc e;
    writable = refl;
    at_end = refl;
  };
}

-- An unlucky system.
abbrev pub full_disk : Os
full_disk = record {
  munmap_fails = none;
  ftruncate_fails = some 28;
  mmap_fails = none;
  msync_fails = none;
}

mfile_write_lem_example :
    (r : Outcome) × (mfile_write full_disk three_mf a_val ≡ some r) × Ends (Wrote three_mf a_val) r
mfile_write_lem_example =
    mfile_write_lem full_disk three_mf a_val three_mf-IsWellFormed (omega arith) (omega arith)

mfile_seek-IsWellFormed_example :
    ((bytes : List ℕ) × (three_mf.ptr ≡ mapped bytes)
      × (1 ≤ length bytes)
      × (mfile_seek three_mf 1 ≡ done (record three_mf { offset = 1 }))
      × IsWellFormed (record three_mf { offset = 1 }))
    ⊎ (((bytes : List ℕ) × (three_mf.ptr ≡ mapped bytes)
          × (length bytes < 1)
          × (mfile_seek three_mf 1 ≡ failed espipe three_mf))
        ⊎ (((bytes : List ℕ) → three_mf.ptr ≢ mapped bytes)
            × (mfile_seek three_mf 1 ≡ failed einval three_mf)))
mfile_seek-IsWellFormed_example = mfile_seek-IsWellFormed three_mf 1 three_mf-IsWellFormed

write-read_key_val_example :
    (kb : List ℕ) × (vb : List ℕ) × (zs_prepare_key_buf little a_key ≡ some kb)
    × (zs_prepare_val_buf little a_val ≡ some vb)
    × IsReadBack little a_key a_val (some_bytes ++ (kb ++ (vb ++ some_bytes))) 3
write-read_key_val_example =
    write-read_key_val little a_key a_val some_bytes some_bytes (omega arith) (omega arith)
      (omega arith)

write_keyval-extends_example :
    (kb : List ℕ) × (vb : List ℕ) × (f' : ZsdbFile) × (zs_file_write_keyval_record little calm calm
        three_file a_key a_val
      ≡ some (zs_ok, f'))
    × IsKeyRecord little a_key kb
    × IsValRecord little a_val vb
    × Extended three_file (kb ++ vb) f'
    × (length (kb ++ vb) < length a_key + length a_val + 2 ^ 6)
write_keyval-extends_example =
    write_keyval-extends little three_file a_key a_val three_file-IsWritable (omega arith)
      (omega arith) (omega arith)

write_delete-extends_example :
    let image = key_image little (64 * 2 ^ 56 + length a_key * 2 ^ 40) 0 0 a_key in
    (f' : ZsdbFile) × (zs_file_write_delete_record little calm three_file a_key ≡ some (zs_ok, f'))
    × Extended three_file image f'
    × (length image < length a_key + 2 ^ 6)
write_delete-extends_example =
    write_delete-extends little three_file a_key three_file-IsWritable (omega arith) (omega arith)

-- Its last two bytes were written since the checksum was started.
abbrev pub summed_file : ZsdbFile
summed_file = record {
  is_open = true;
  mf = record three_mf {
    compute_crc = true;
    crc32 = a_sum.run 0 [];
    crc32_begin_offset = 1;
    crc32_data_len = 2;
  };
}

pub summed_file-IsWritable : IsWritable summed_file
summed_file-IsWritable = record {
  opened = refl;
  appending = record {
    well = record { sized = refl; placed = omega arith };
    usable = λ e. cc e;
    writable = refl;
    at_end = refl;
  };
}

pub summed_file-IsCovering : IsCovering a_sum summed_file.mf
summed_file-IsCovering = record { on = refl; fresh = refl; covers = refl }

write_commit-appends_example :
    (buf : List ℕ) × (f' : ZsdbFile) × (zs_file_write_commit_record little a_sum calm calm
        summed_file false
      ≡ some (zs_ok, f'))
    × (c : IsCommitRecord little a_sum (contents summed_file) buf)
    × (summed_file.mf.crc32_begin_offset + c.len ≡ length (contents summed_file))
    × IsWritable f'
    × (contents f' ≡ contents summed_file ++ buf)
    × (f'.mf.compute_crc ≡ false)
    × (f'.mf.crc32_data_len ≡ 0)
write_commit-appends_example =
    write_commit-appends little a_sum summed_file summed_file-IsWritable summed_file-IsCovering
      (omega arith) (omega arith)

abbrev pub a_header : ZsHeader
a_header = record {
  signature = zs_signature;
  version = 1;
  uuid = replicate 16 9;
  startidx = 0;
  endidx = 3;
  crc32 = 0;
}

a_header-IsHeader : IsHeader a_header
a_header-IsHeader = record {
  signed = refl;
  version = omega arith;
  uuid = refl;
  startidx = omega arith;
  endidx = omega arith;
}

zs_header_write-validate_example :
    (f' f'' : ZsdbFile) × (zs_header_write little a_sum calm calm empty_file a_header
      ≡ some (code zs_ok, f'))
    × (length (contents f') ≡ 40)
    × (zs_header_validate little a_sum 7 calm (stat_found (contents f')) f' a_header
        ≡ some (zs_ok, record a_header { crc32 = header_crc little a_sum a_header }, f''))
zs_header_write-validate_example =
    zs_header_write-validate little a_sum 7 calm empty_file a_header a_header a_header-IsHeader
      empty_file-IsWritable refl refl
