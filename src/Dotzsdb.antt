-- ===== src/Dotzsdb.antt =====
-- The .zsdb file, by which processes agree on the active file (src/zeroskip-dotzsdb.c, struct
-- dotzsdb in src/zeroskip-priv.h). The bytes of the file, as `mfile_open` maps them, are an
-- argument: none where it fails. `uuid_unparse_lower` gives 37 bytes.
pub mod RoundTrip
use zeroskip.Prelude.{
  ℕ, ◌+◌, Bool, true, false, not, ◌&&◌, Option, none, some, List, [], ◌∷◌, take, ◌++◌, ◌==◌, ltb,
  length, replicate, if◌then◌else◌, ◌>>=◌,
}
use zeroskip.Word.{Host, store64, load64, write_be64, read_be64}
use zeroskip.Word.Half.{store32, write_be32, read_be32}
use zeroskip.Buffer.{blit, slice}
use zeroskip.MFile.{Checksum}
use zeroskip.Format.{zs_hdr_size}
use zeroskip.Header.{zs_signature}
use zeroskip.Record.{Run, returned, fault, out_of_fuel}

abbrev pub dotzsdb_size : ℕ
dotzsdb_size = 61

pub record DotZsdb : Type 0 where
  pub signature : ℕ
  pub offset : ℕ
  pub uuidstr : List ℕ
  pub curidx : ℕ
  pub crc : ℕ

-- What one call of `write` answers: EINTR, or how many bytes have been written, 0 for an error.
pub data WriteAnswer : Type 0 where
  interrupted : WriteAnswer
  wrote : ℕ → WriteAnswer

-- `write` until it is not interrupted; what it returns is not looked at otherwise. With the bytes
-- that are in the lock file then, which is new. The answers run out where every call is
-- interrupted.
unfoldable pub write_loop : List WriteAnswer → List ℕ → Run (List ℕ)
write_loop [] buf = out_of_fuel
write_loop (interrupted ∷ answers) buf = write_loop answers buf
write_loop (wrote n ∷ answers) buf = returned (take n buf)

-- Behind the loop: the lock file takes the place of the file, unless the renaming fails.
abbrev pub renamed : Bool → DotZsdb → Run (List ℕ) → Run (ℕ × DotZsdb × Option (List ℕ))
renamed fails d fault = fault
renamed fails d out_of_fuel = out_of_fuel
renamed fails d (returned bytes) =
    returned (if fails then 0 else 1, d, if fails then none else some bytes)

abbrev pub written_dot :
    Bool → List WriteAnswer → DotZsdb → Option (List ℕ) → Run (ℕ × DotZsdb × Option (List ℕ))
written_dot fails answers d none = fault
written_dot fails answers d (some buf) = renamed fails d (write_loop answers buf)

module _ (host : Host) (crc : Checksum) where
  -- The checksum of the fields as they lie in memory, without `crc`.
  unfoldable pub dotzsdb_crc : DotZsdb → ℕ
  dotzsdb_crc d =
      let c0 = crc.run 0 [] in
      let c1 = crc.run c0 (store64 host d.signature) in
      let c2 = crc.run c1 (store64 host d.offset) in
      let c3 = crc.run c2 d.uuidstr in crc.run c3 (store32 host d.curidx)

  -- The bytes on the stack, with the checksum that `priv->dotzsdb.crc` has by then.
  pub dotzsdb_buf : DotZsdb → Option (List ℕ)
  dotzsdb_buf d = do
    buf ← blit (replicate dotzsdb_size 0) 0 (store64 host d.signature)
    buf ← blit buf 8 (write_be64 host d.offset)
    buf ← blit buf 16 d.uuidstr
    buf ← blit buf 53 (write_be32 host d.curidx)
    blit buf 57 (write_be32 host (dotzsdb_crc d))

  -- The fields of a new database; what is written to the file, and whether that succeeds, is
  -- `written` of those bytes.
  unfoldable pub zs_dotzsdb_create : (List ℕ → Bool) → List ℕ → Option (ℕ × DotZsdb × List ℕ)
  zs_dotzsdb_create written uuidstr = do
    let d : DotZsdb = record {
      signature = zs_signature;
      offset = zs_hdr_size;
      uuidstr = uuidstr;
      curidx = 0;
      crc = 0;
    }
    buf ← dotzsdb_buf d
    some (if written buf then 1 else 0, record d { crc = dotzsdb_crc d }, buf)

  -- Reading the structure in the mapping: 1, or 0 where the signature or the checksum is wrong.
  -- The fields that were read before a failure stay.
  pub read_dothdr : List ℕ → DotZsdb → Option (ℕ × DotZsdb)
  read_dothdr base d = do
    signature ← load64 host base
    let found : Option (ℕ × DotZsdb) = do
      offset ← read_be64 host base 8
      uuidstr ← slice base 16 37
      curidx ← read_be32 host base 53
      sum ← read_be32 host base 57
      let d' : DotZsdb = record d {
        signature = signature;
        offset = offset;
        uuidstr = uuidstr;
        curidx = curidx;
      }
      if dotzsdb_crc d' == sum then some (1, record d' { crc = sum }) else some (0, d')
    if signature == zs_signature then found else some (0, d)

  unfoldable pub zs_dotzsdb_validate : Option (List ℕ) → DotZsdb → Option (ℕ × DotZsdb)
  zs_dotzsdb_validate none d = some (0, d)
  zs_dotzsdb_validate (some base) d =
      let read = read_dothdr base d in if ltb (length base) dotzsdb_size then some (0, d) else read

  -- With whether the lock is held afterwards; `acquires` is whether it can be taken, which is not
  -- looked at.
  unfoldable pub zs_dotzsdb_update_begin :
      Bool → Bool → Bool → Option (List ℕ) → DotZsdb → Option (ℕ × DotZsdb × Bool)
  zs_dotzsdb_update_begin is_open active acquires none d =
      if not is_open
      then some (0, d, active)
      else if active
      then some (1, d, true)
      else some (0, d, false)
  zs_dotzsdb_update_begin is_open active acquires (some base) d =
      let read : Option (ℕ × DotZsdb × Bool) =
        read_dothdr base d >>= λ r. some (r.0, r.1, r.0 == 1 && acquires) in
      if not is_open
      then some (0, d, active)
      else if active
      then some (1, d, true)
      else if ltb (length base) dotzsdb_size
      then some (0, d, false)
      else read

  -- With the bytes of the new file, where there is one.
  unfoldable pub zs_dotzsdb_update_end :
      Bool → Bool → Bool → List WriteAnswer → DotZsdb → Run (ℕ × DotZsdb × Option (List ℕ))
  unfolding write_loop
  zs_dotzsdb_update_end is_open active rename_fails answers d =
      let d' : DotZsdb = record d { crc = dotzsdb_crc d } in
      if not is_open
      then returned (0, d, none)
      else if not active
      then returned (0, d, none)
      else written_dot rename_fails answers d' (dotzsdb_buf d)
