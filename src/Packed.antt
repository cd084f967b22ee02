-- ===== src/Packed.antt =====
-- Packed files (src/zeroskip-packed.c): the records of the finalised files in the order of their
-- keys, with an index behind them, which is read when the file is opened.

pub mod Write
pub mod Open
pub mod Packs
pub mod Pack
pub mod Whole
pub mod Kept
use mathlib.Core.List.{foldl}
use zeroskip.Prelude.{
  ℕ, zero, suc, ◌+◌, ◌-◌, ◌*◌, ◌^◌, Bool, true, false, not, Option, none, some, List, [], ◌∷◌,
  length, bit_and, ◌==◌, ltb, if◌then◌else◌, ◌>>=◌,
}
use zeroskip.Word.{Host, u32, u64, store64, read_be64, write_be64, ◌>>>◌}
use zeroskip.Buffer.{slice}
use zeroskip.MFile.{
  MFile, Os, Outcome, done, failed, Checksum, mfile_write, mfile_flush, crc32_begin,
}
use zeroskip.Format.{
  rec_type_final, rec_type_long_final, rec_type_2nd_half_commit, zs_short_commit_rec_size,
  zs_long_commit_rec_size,
}
use zeroskip.File.{
  Code, zs_ok, zs_ioerror, zs_error, zs_invalid_db, ZsdbFile, zs_file_write_keyval_record,
  zs_file_write_delete_record, zs_file_write_commit_record,
}
use zeroskip.Record.{Run, returned, fault, out_of_fuel, is_ok}
use zeroskip.Vecu64.{Vecu64, vecu64_new, vecu64_append, vecu64_foreach}
use zeroskip.Memtree.{Entry, Memtree}
use zeroskip.Memtree.Find.{memtree_walk_forward}

-- A packed file that is written, with `f->index`.
pub record PackFile : Type 0 where
  pub file : ZsdbFile
  pub index : Vecu64

-- The codes of zs_packed_file_new_from_memtree.
pub data PackCode : Type 0 where
  pack_ok pack_ioerror exit_failure : PackCode

-- The state of the loop that reads the index: `*offset`, `*checksum`, `*crc_offset` and `*rtype`.
pub record Pointers : Type 0 where
  pub offset : ℕ
  pub checksum : ℕ
  pub crc_offset : ℕ
  pub rtype : ℕ

module _ (host : Host) where
  abbrev pub write_word : Os → ZsdbFile → ℕ → Option (Code × ZsdbFile)
  write_word os f n = mfile_write os f.mf (write_be64 host n) >>= λ outcome. elim outcome [
    | failed err mf ↦ some (zs_ioerror, record f { mf = mf })
    | done mf ↦ some (zs_ok, record f { mf = mf })
  ]

  unfoldable pub zs_packed_file_write_index_count : Os → ZsdbFile → ℕ → Option (Code × ZsdbFile)
  zs_packed_file_write_index_count os f count = write_word os f count

  unfoldable pub zs_packed_file_write_index : Os → ZsdbFile → ℕ → Option (Code × ZsdbFile)
  zs_packed_file_write_index os f offset = write_word os f offset

  -- The callback for the offsets of the index; what it returns is not looked at.
  abbrev pub index_step : Os → Option ZsdbFile → ℕ → Option ZsdbFile
  index_step os s offset = do f ← s; (ret, f') ← zs_packed_file_write_index os f offset; some f'

  module _ (junk : ℕ) where
    -- The place of the record goes to the index, whether or not the record is written.
    unfoldable pub zs_packed_file_write_memtree_record :
        Os → Entry → PackFile → Option (ℕ × PackFile)
    zs_packed_file_write_memtree_record os rec f = do
      (pos, index) ← vecu64_append junk f.index f.file.mf.offset
      (ret, file) ←
          if rec.deleted
          then zs_file_write_delete_record host os f.file rec.key
          else zs_file_write_keyval_record host os os f.file rec.key rec.val
      some (if is_ok ret then 1 else 0, record { file = file; index = index })

    -- As the action of a walk, which does not look at what it returns.
    abbrev pub record_step : Os → Entry → Option PackFile → Option PackFile
    record_step os rec s = do
      f ← s
      (ret, f') ← zs_packed_file_write_memtree_record os rec f
      some f'

    unfoldable pub zs_packed_file_write_record :
        Os → PackFile → List ℕ → List ℕ → Option (ℕ × PackFile)
    zs_packed_file_write_record os f key val = do
      (pos, index) ← vecu64_append junk f.index f.file.mf.offset
      (ret, file) ← zs_file_write_keyval_record host os os f.file key val
      some (if is_ok ret then 1 else 0, record { file = file; index = index })

    unfoldable pub zs_packed_file_write_delete_record :
        Os → PackFile → List ℕ → Option (ℕ × PackFile)
    zs_packed_file_write_delete_record os f key = do
      (pos, index) ← vecu64_append junk f.index f.file.mf.offset
      (ret, file) ← zs_file_write_delete_record host os f.file key
      some (if is_ok ret then 1 else 0, record { file = file; index = index })

  module _ (crc : Checksum) where
    -- The pointer section: the count, the index, and its own commit record. The result of writing
    -- the count is not looked at.
    unfoldable pub write_pointers : Os → ZsdbFile → Vecu64 → Option (Code × ZsdbFile)
    unfolding zs_packed_file_write_index_count zs_packed_file_write_index
    write_pointers os f index = do
      let begun = record f { mf = crc32_begin crc f.mf }
      (ret, f1) ← zs_packed_file_write_index_count os begun index.count
      (called, f2) ← vecu64_foreach (index_step os) index (some f1)
      f2 ← f2
      zs_file_write_commit_record host crc os os f2 true

    -- Behind the commit record of the records.
    abbrev pub after_commit : Os → PackFile → Code × ZsdbFile → Option (PackCode × PackFile)
    after_commit os f (ret, f2) =
        if is_ok ret
        then (do
          (ret', f3) ← write_pointers os f2 f.index
          some (if is_ok ret' then pack_ok else exit_failure, record f { file = f3 }))
        else some (exit_failure, record f { file = f2 })

    -- Behind the flush of the records.
    abbrev pub after_flush : Os → PackFile → Outcome → Option (PackCode × PackFile)
    after_flush os f (failed err mf) =
        some (pack_ioerror, record f { file = record f.file { mf = mf } })
    after_flush os f (done mf) = do
      committed ← zs_file_write_commit_record host crc os os (record f.file { mf = mf }) false
      after_commit os f committed

    -- From the records on: the file is open, its header is written and the checksum begun.
    unfoldable pub zs_packed_file_new_from_memtree :
        ℕ → Os → Memtree → ZsdbFile → Option (PackCode × PackFile)
    unfolding zs_packed_file_write_memtree_record write_pointers
    zs_packed_file_new_from_memtree junk os fmemtree f = do
      f1 ←
          memtree_walk_forward (record_step junk os) fmemtree
            (some (record { file = f; index = vecu64_new }))
      f1 ← f1
      after_flush os f1 (mfile_flush os f1.file.mf)

  module _ (base : List ℕ) where
    -- A second half leads to the record's first word; what that call returns is not looked at.
    unfoldable pub get_offset_to_pointers : ℕ → Pointers → Run (Code × Pointers)
    get_offset_to_pointers zero p = out_of_fuel
    get_offset_to_pointers (suc fuel) p = elim (read_be64 host base p.offset) [
      | none ↦ fault
      | some first ↦
          let rectype = first >>> 56 in
          let offset = p.offset in
          elim (rectype == rec_type_final) [
            | true ↦ returned (
              zs_ok,
              record {
                offset = u64 (offset + 2 ^ 64 - bit_and (first >>> 32) 0xFFFFFF);
                checksum = bit_and first 0xFFFFFFFF;
                crc_offset = offset;
                rtype = rec_type_final;
              },
            )
            | false ↦ elim (rectype == rec_type_2nd_half_commit) [
              | true ↦
                  elim (get_offset_to_pointers fuel (record p {
                    offset =
                        u64
                          (offset + 2 ^ 64 - (zs_long_commit_rec_size - zs_short_commit_rec_size));
                    checksum = bit_and first 0xFFFFFFFF;
                    crc_offset = u64 (offset + 4);
                  })) [
                    | returned (ret, p') ↦ returned (zs_ok, p')
                    | fault ↦ fault
                    | out_of_fuel ↦ out_of_fuel
                  ]
              | false ↦ elim (rectype == rec_type_long_final) [
                | true ↦ elim (read_be64 host base (offset + 8)) [
                  | none ↦ fault
                  | some len ↦ returned (
                    zs_ok,
                    record p {
                      offset = u64 (offset + 2 ^ 64 - len);
                      crc_offset = offset;
                      rtype = rec_type_long_final;
                    },
                  )
                ]
                | false ↦ returned (zs_error, p)
              ]
            ]
          ]
    ]

    -- `for (i = 0; i < count; i++)`, with the number of rounds left.
    unfoldable pub pointers_loop : ℕ → ℕ → ℕ → Vecu64 → Option Vecu64
    pointers_loop junk zero at index = some index
    pointers_loop junk (suc left) at index = do
      n ← read_be64 host base at
      (pos, index') ← vecu64_append junk index n
      pointers_loop junk left (at + 8) index'

    unfoldable pub read_pointers : ℕ → ℕ → Vecu64 → Option Vecu64
    unfolding pointers_loop
    read_pointers junk offset index = do
      count ← read_be64 host base offset
      pointers_loop junk count (offset + 8) index

    module _ (crc : Checksum) where
      -- The checksum of the pointer section, its data and the words of its commit record.
      unfoldable pub pointers_crc : ℕ → Pointers → Option ℕ
      pointers_crc mf_size p =
          if p.rtype == rec_type_long_final
          then (do
            section ←
                slice base p.offset
                  (u64 (mf_size + 2 ^ 64 - zs_long_commit_rec_size + 2 ^ 64 - p.offset))
            type1 ← read_be64 host base p.crc_offset
            len ← read_be64 host base (p.crc_offset + 8)
            type2 ← read_be64 host base (p.crc_offset + 16)
            some (
                crc.run
                  (crc.run (crc.run (crc.run 0 section) (store64 host type1)) (store64 host len))
                  (store64 host (bit_and type2 0xFF00000000000000))))
          else if p.rtype == rec_type_final
          then (do
            section ←
                slice base p.offset
                  (u64 (mf_size + 2 ^ 64 - zs_short_commit_rec_size + 2 ^ 64 - p.offset))
            type1 ← read_be64 host base p.crc_offset
            some (crc.run (crc.run 0 section) (store64 host (bit_and type1 0xFFFFFFFF00000000))))
          else none

      -- zs_packed_file_open behind the check of the header: the index, if its checksum is right.
      unfoldable pub zs_packed_file_open : ℕ → ℕ → Run (Code × Vecu64)
      unfolding get_offset_to_pointers read_pointers pointers_crc
      zs_packed_file_open junk fuel =
          let mf_size = length base in
          let start : Pointers = record {
            offset = u64 (mf_size + 2 ^ 64 - zs_short_commit_rec_size);
            checksum = 0;
            crc_offset = 0;
            rtype = 0;
          } in
          elim (get_offset_to_pointers fuel start) [
            | fault ↦ fault
            | out_of_fuel ↦ out_of_fuel
            | returned (ret, p) ↦ elim (is_ok ret) [
              | false ↦ returned (ret, vecu64_new)
              | true ↦ elim (pointers_crc mf_size p) [
                | none ↦ fault
                | some sum ↦ elim (sum == p.checksum) [
                  | false ↦ returned (zs_invalid_db, vecu64_new)
                  | true ↦ elim (read_pointers junk p.offset vecu64_new) [
                    | none ↦ fault
                    | some index ↦ returned (zs_ok, index)
                  ]
                ]
              ]
            ]
          ]
