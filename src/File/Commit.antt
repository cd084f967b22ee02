-- ===== src/File/Commit.antt =====
-- A commit appends a record whose checksum covers the bytes since `crc32_begin`, where no system
-- call fails.
use zeroskip.Prelude.{
  ◌∙◌, ℕ, ◌+◌, ◌-◌, ◌*◌, ◌^◌, ◌<◌, ◌≤◌, ◌≡◌, refl, sym, ap, false, bit_or, some, List, [], ◌++◌,
  arith, length, take, drop, replicate, ltb, if◌then◌else◌, Bool, length-append, take-append,
  append-nil, le→ltb,
}
use zeroskip.Word.{Host, u64, store64, write_be64}
use zeroskip.Word.Bits.{bit_or-disjoint}
use zeroskip.Word.BigEndian.{length-write_be64}
use zeroskip.Buffer.{slice-suffix, blit-next}
use zeroskip.MFile.{
  MFile, Mapping, mapped, null, stale, map_failed, is_unusable, is_null, calm, bytes_of, Checksum,
  crc32_end,
}
use zeroskip.MFile.Append.{IsAppending, IsCovering, mfile_write-appends, mfile_flush-calm}
use zeroskip.Format.{rec_type_final, rec_type_commit}
use zeroskip.Format.Words.{pack_type_len}
use zeroskip.File.{zs_ok, ZsdbFile, short_commit, zs_file_write_commit_record}
use zeroskip.File.Writes.{IsWritable, contents}
use zeroskip.Record.Log.{IsCommitRecord}

pub nonempty_usable : (m : Mapping) → 0 < length (bytes_of m) → is_unusable m ≡ false
nonempty_usable map_failed h = elim h [ ]
nonempty_usable null h = refl
nonempty_usable stale h = refl
nonempty_usable (mapped bytes) h = refl

pub nonempty_not_null : (m : Mapping) → 0 < length (bytes_of m) → is_null m ≡ false
nonempty_not_null map_failed h = refl
nonempty_not_null null h = elim h [ ]
nonempty_not_null stale h = refl
nonempty_not_null (mapped bytes) h = refl

-- The word of a short commit of this type, without its checksum.
abbrev pub typed_word : ℕ → ℕ → ℕ
typed_word t len = t * 2 ^ 56 + len * 2 ^ 32

module _ (host : Host) (crc : Checksum) where
  -- The record that a checksum `sum` of the data gives.
  short_commit_lem :
      (final : Bool) (t len sum : ℕ)
      → (if final then rec_type_final else rec_type_commit) ≡ t
      → t < 256
      → len < 2 ^ 24
      → short_commit host crc final len sum
        ≡ some (write_be64 host (typed_word t len + crc.run sum (store64 host (typed_word t len))))
  unfolding short_commit
  short_commit_lem final t len sum is_type small short =
      let total = crc.run sum (store64 host (typed_word t len)) in
      let word = write_be64 host (typed_word t len + total) in
      let size = length-write_be64 host (typed_word t len + total) in
      let upper : typed_word t len ≡ (t * 2 ^ 24 + len) * 2 ^ 32 = omega arith in
      let joined : bit_or (typed_word t len) total ≡ typed_word t len + total = rw (← upper) at (
        bit_or-disjoint 32 (t * 2 ^ 24 + len) total
          (crc.run_lt sum (store64 host (typed_word t len)))) in
      let cut : take 8 (word ++ replicate 16 0) ≡ word =
        rw size at (take-append word (replicate 16 0)) in
      rw (
        is_type,
        pack_type_len t 32 len small (omega arith),
        joined,
        blit-next [] word 0 8 16 refl size,
        cut,
      )

  -- What `crc32_end` finds, and the handle it leaves.
  end_covering :
      (mf : MFile)
      → IsAppending mf
      → IsCovering crc mf
      → length (bytes_of mf.ptr) < 2 ^ 60
      → let sum =
          crc.run
            (crc.run 0 [])
            (drop (length (bytes_of mf.ptr) - mf.crc32_data_len) (bytes_of mf.ptr)) in
        crc32_end crc mf
        ≡ some (sum, record mf { crc32 = sum; compute_crc = false; crc32_data_len = 0 })
  unfolding crc32_end
  end_covering mf a c room =
      let n = mf.crc32_data_len in
      let bytes = bytes_of mf.ptr in
      let len : u64 (mf.offset + 2 ^ 64 - mf.crc32_begin_offset) ≡ n =
        omega (arith, c.covers, a.at_end) in
      let start : mf.crc32_begin_offset ≡ length bytes - n = omega (arith, c.covers, a.at_end) in
      let part =
        rw (append-nil bytes) at (slice-suffix bytes [] n (omega (arith, c.covers, a.at_end))) in
      rw (c.on, len, start, part, c.fresh)

  -- A commit of the type `t`.
  pub write_commit_lem :
      (final : Bool) (t : ℕ) (f : ZsdbFile)
      → (if final then rec_type_final else rec_type_commit) ≡ t
      → t < 256
      → IsWritable f
      → IsCovering crc f.mf
      → f.mf.crc32_data_len < 2 ^ 24
      → length (contents f) < 2 ^ 58
      → let n = f.mf.crc32_data_len in
        let w = typed_word t n in
        let covered = drop (length (contents f) - n) (contents f) in
        let buf = write_be64 host (w + crc.run (crc.run (crc.run 0 []) covered) (store64 host w)) in
        (f' : ZsdbFile) × (zs_file_write_commit_record host crc calm calm f final
          ≡ some (zs_ok, f'))
        × IsWritable f'
        × (contents f' ≡ contents f ++ buf)
        × (f'.mf.compute_crc ≡ false)
        × (f'.mf.crc32_data_len ≡ 0)
        × (n ≤ length (contents f))
  unfolding zs_file_write_commit_record
  write_commit_lem final t f is_type small w c short room =
      let n = f.mf.crc32_data_len in
      let bytes = contents f in
      let sum = crc.run (crc.run 0 []) (drop (length bytes - n) bytes) in
      let mf0 = record f.mf { crc32 = sum; compute_crc = false; crc32_data_len = 0 } in
      let a = w.appending in
      let a0 : IsAppending mf0 = record {
        well = record { sized = a.well.sized; placed = a.well.placed };
        usable = a.usable;
        writable = a.writable;
        at_end = a.at_end;
      } in
      let word = typed_word t n in
      let total = crc.run sum (store64 host word) in
      let buf = write_be64 host (word + total) in
      let size = length-write_be64 host (word + total) in
      let (mf1, wrote, a1) = mfile_write-appends mf0 buf a0 (omega (arith, size)) in
      let longer = ap (length {A = ℕ}) a1.bytes in
      let some_bytes : 0 < length (bytes_of mf1.ptr) =
        omega (arith, longer, length-append bytes buf, size) in
      let flushed =
        mfile_flush-calm mf1 (nonempty_usable mf1.ptr some_bytes)
          (nonempty_not_null mf1.ptr some_bytes) in
      let ended = end_covering f.mf a c (omega arith) in
      let shortness : ltb 0xFFFFFF n ≡ false = le→ltb _ _ (omega arith) in
      (
        record f { mf = mf1 },
        rw (
          w.opened,
          ended,
          shortness,
          short_commit_lem final t n sum is_type small short,
          wrote,
          flushed,
        ),
        record { opened = w.opened; appending = a1.appending },
        a1.bytes,
        sym a1.still,
        a1.uncounted refl,
        omega (arith, c.covers, a.at_end),
      )

  -- Committing a file that is open for writing, whose checksum has been started, with at most
  -- 2 ^ 24 - 1 bytes since then, where no system call fails: the call returns ZS_OK, and the file
  -- is longer by one commit record, whose length and checksum are those of the bytes from the
  -- position at which the checksum was started to the end of the file.
  pub write_commit-appends :
      (f : ZsdbFile)
      → IsWritable f
      → IsCovering crc f.mf
      → f.mf.crc32_data_len < 2 ^ 24
      → length (contents f) < 2 ^ 58
      → (buf : List ℕ) × (f' : ZsdbFile) × (zs_file_write_commit_record host crc calm calm f false
          ≡ some (zs_ok, f'))
        × (c : IsCommitRecord host crc (contents f) buf) × (f.mf.crc32_begin_offset + c.len
            ≡ length (contents f))
        × IsWritable f'
        × (contents f' ≡ contents f ++ buf)
        × (f'.mf.compute_crc ≡ false)
        × (f'.mf.crc32_data_len ≡ 0)
  write_commit-appends f w c short room =
      let (f', ran, w', holds, still, none_left, inside) =
        write_commit_lem false 4 f refl (omega arith) w c short room in
      (
        _,
        f',
        ran,
        record { len = f.mf.crc32_data_len; short = short; inside = inside; image = refl },
        c.covers ∙ w.appending.at_end,
        w',
        holds,
        still,
        none_left,
      )
