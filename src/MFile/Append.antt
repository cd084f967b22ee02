-- ===== src/MFile/Append.antt =====
-- Writing at the end of a file that is open for writing, where no system call fails.
use zeroskip.Prelude.{
  ℕ, ◌+◌, ◌^◌, ◌<◌, ◌≡◌, ◌≢◌, ◌∙◌, sym, ap, true, false, some, List, [], ◌++◌, arith, length,
  append-nil, take_ge, drop_ge, length-append, if_same, bit_and, ◌==◌,
}
use zeroskip.Buffer.{overwrite}
use zeroskip.MFile.{
  map_failed, MFile, calm, done, bytes_of, is_unusable, is_null, prot_write, lacks_write_flags,
  Checksum, mfile_write, mfile_flush,
}
use zeroskip.MFile.WellFormed.{IsWellFormed}
use zeroskip.MFile.Write.{length-bytes_of, mfile_write-calm}

-- The position is the end of the file.
pub record IsAppending (mf : MFile) : Type 0 where
  pub well : IsWellFormed mf
  pub usable : mf.ptr ≢ map_failed
  pub writable : lacks_write_flags mf.flags ≡ false
  pub at_end : mf.offset ≡ length (bytes_of mf.ptr)

-- The checksum to come covers what was written since `crc32_begin_offset`.
pub record IsCovering (crc : Checksum) (mf : MFile) : Type 0 where
  pub on : mf.compute_crc ≡ true
  pub fresh : mf.crc32 ≡ crc.run 0 []
  pub covers : mf.crc32_begin_offset + mf.crc32_data_len ≡ mf.offset

overwrite_end : (bytes ibuf : List ℕ) → overwrite bytes (length bytes) ibuf ≡ bytes ++ ibuf
overwrite_end bytes ibuf = rw (
  take_ge (length bytes) bytes (omega arith),
  drop_ge (length bytes + length ibuf) bytes (omega arith),
  append-nil ibuf,
)

-- The file is longer by `ibuf`.
pub record Appended (mf : MFile) (ibuf : List ℕ) (mf' : MFile) : Type 0 where
  pub appending : IsAppending mf'
  pub bytes : bytes_of mf'.ptr ≡ bytes_of mf.ptr ++ ibuf
  pub moved : mf'.offset ≡ mf.offset + length ibuf
  pub covering : (crc : Checksum) → IsCovering crc mf → IsCovering crc mf'
  pub still : mf.compute_crc ≡ mf'.compute_crc
  pub same_fd : mf'.fd_open ≡ mf.fd_open
  pub same_begin : mf'.crc32_begin_offset ≡ mf.crc32_begin_offset
  pub uncounted : mf.compute_crc ≡ false → mf'.crc32_data_len ≡ mf.crc32_data_len

pub mfile_write-appends :
    (mf : MFile) (ibuf : List ℕ)
    → IsAppending mf
    → length (bytes_of mf.ptr) + length ibuf < 2 ^ 60
    → (mf' : MFile) × (mfile_write calm mf ibuf ≡ some (done mf')) × Appended mf ibuf mf'
mfile_write-appends mf ibuf a room =
    let size = length-bytes_of mf.ptr mf.size a.well.sized a.usable in
    let (mf', written, w', wrote) =
      mfile_write-calm mf ibuf a.well a.usable a.writable (omega (arith, size))
        (omega (arith, a.at_end)) in
    let bytes : bytes_of mf'.ptr ≡ bytes_of mf.ptr ++ ibuf =
      wrote.bytes
      ∙ ap (λ (n : ℕ). overwrite (bytes_of mf.ptr) n ibuf) a.at_end
      ∙ overwrite_end (bytes_of mf.ptr) ibuf in
    let longer = ap (length {A = ℕ}) bytes in
    (
      mf',
      written,
      record {
        appending = record {
          well = w';
          usable = wrote.usable;
          writable = rw wrote.same_flags a.writable;
          at_end =
              omega (arith, longer, length-append (bytes_of mf.ptr) ibuf, wrote.moved, a.at_end);
        };
        bytes = bytes;
        moved = wrote.moved;
        covering = λ crc c. record {
          on = wrote.same_compute ∙ c.on;
          fresh = wrote.same_crc ∙ c.fresh;
          covers =
              let counted = rw c.on at wrote.counted in
              omega (arith, counted, wrote.same_begin, wrote.moved, c.covers, a.at_end);
        };
        still = sym wrote.same_compute;
        same_fd = wrote.same_fd;
        same_begin = wrote.same_begin;
        uncounted = λ off. rw off at wrote.counted;
      },
    )

-- Flushing a file that has bytes.
pub mfile_flush-calm :
    (mf : MFile)
    → is_unusable mf.ptr ≡ false
    → is_null mf.ptr ≡ false
    → mfile_flush calm mf ≡ done mf
unfolding mfile_flush
mfile_flush-calm mf usable some_bytes =
    rw (usable, some_bytes) (if_same (bit_and mf.flags prot_write == 0) (done mf))
