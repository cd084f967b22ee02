-- ===== src/Header.antt =====
-- The header of a data file (src/zeroskip-header.c, struct zs_header in src/zeroskip-priv.h).
pub mod RoundTrip
use zeroskip.Prelude.{
  ℕ, ◌+◌, Bool, true, false, not, ◌&&◌, ◌||◌, Option, none, some, List, [], ◌++◌, ◌==◌, ltb, length,
  replicate, drop, if◌then◌else◌, ◌>>=◌,
}
use zeroskip.Word.{Host, store64, load64}
use zeroskip.Word.Half.{store32, write_be32, read_be32}
use zeroskip.Buffer.{blit, slice}
use zeroskip.MFile.{
  MFile, Os, Stat, Outcome, done, failed, Checksum, bytes_of, mfile_write, mfile_flush, mfile_seek,
  mfile_size,
}
use zeroskip.Format.{zs_hdr_size}
use zeroskip.File.{Code, zs_ok, zs_error, zs_invalid_db, ZsdbFile}
use zeroskip.Record.{handle_of}

abbrev pub zs_signature : ℕ
zs_signature = 0x5a45524f534b4950

-- The uuid is its 16 bytes.
pub record ZsHeader : Type 0 where
  pub signature : ℕ
  pub version : ℕ
  pub uuid : List ℕ
  pub startidx : ℕ
  pub endidx : ℕ
  pub crc32 : ℕ

-- An `int` that is a code of zeroskip, or the error number of an `mfile` call.
pub data Ret : Type 0 where
  code : Code → Ret
  errno : ℕ → Ret

module _ (host : Host) (crc : Checksum) where
  -- The checksum of the fields as they lie in memory, without `crc32`.
  unfoldable pub header_crc : ZsHeader → ℕ
  header_crc h =
      let c0 = crc.run 0 [] in
      let c1 = crc.run c0 (store64 host h.signature) in
      let c2 = crc.run c1 (store32 host h.version) in
      let c3 = crc.run c2 h.uuid in
      let c4 = crc.run c3 (store32 host h.startidx) in crc.run c4 (store32 host h.endidx)

  -- The 40 bytes on the stack; the signature is copied as it lies in memory.
  pub header_buf : ZsHeader → Option (List ℕ)
  header_buf h = do
    buf ← blit (replicate zs_hdr_size 0) 0 (store64 host h.signature)
    buf ← blit buf 8 (write_be32 host h.version)
    buf ← blit buf 12 h.uuid
    buf ← blit buf 28 (write_be32 host h.startidx)
    buf ← blit buf 32 (write_be32 host h.endidx)
    blit buf 36 (write_be32 host (header_crc h))

  flush_after : Os → ZsdbFile → Outcome → Ret × ZsdbFile
  flush_after os f (failed err mf) = (errno err, record f { mf = mf })
  flush_after os f (done mf) = elim (mfile_flush os mf) [
    | failed err mf' ↦ (errno err, record f { mf = mf' })
    | done mf' ↦ (code zs_ok, record f { mf = mf' })
  ]

  unfoldable pub zs_header_write : Os → Os → ZsdbFile → ZsHeader → Option (Ret × ZsdbFile)
  unfolding flush_after
  zs_header_write os_write os_flush f h =
      let write : Option (Ret × ZsdbFile) = do
        buf ← header_buf h
        wrote ← mfile_write os_write f.mf buf
        some (flush_after os_flush f wrote)
      in if f.is_open then write else some (code zs_error, f)

  -- The fields of the header in the mapping, and the checksum test.
  pub check_fields : List ℕ → ZsHeader → Option (Code × ZsHeader)
  check_fields base h = do
    signature ← load64 host base
    let found : Option (Code × ZsHeader) = do
      version ← read_be32 host base 8
      uuid ← slice base 12 16
      startidx ← read_be32 host base 28
      endidx ← read_be32 host base 32
      sum ← read_be32 host base 36
      let h' : ZsHeader = record {
        signature = signature;
        version = version;
        uuid = uuid;
        startidx = startidx;
        endidx = endidx;
        crc32 = sum;
      }
      some (if header_crc h' == sum then zs_ok else zs_invalid_db, h')
    if signature == zs_signature then found else some (zs_invalid_db, h)

  -- `stack` is what the uninitialised `mfsize` holds where `mfile_size` does not set it.
  unfoldable pub zs_header_validate :
      ℕ → Os → Stat → ZsdbFile → ZsHeader → Option (Code × ZsHeader × ZsdbFile)
  zs_header_validate stack os stat f h =
      let at_start = handle_of (mfile_seek f.mf 0) in
      let sized = mfile_size os stat at_start in
      let f' = record f { mf = handle_of sized.0 } in
      let mfsize : ℕ = elim sized.1 [ none ↦ stack | some n ↦ n ] in
      if not f.is_open || not f.mf.fd_open
      then some (zs_error, h, f)
      else if ltb mfsize zs_hdr_size
      then some (zs_invalid_db, h, f')
      else (check_fields (bytes_of f'.mf.ptr) h >>= λ r. some (r.0, r.1, f'))
