-- ===== src/Tests/Updates.antt =====
-- A .zsdb file (src/zeroskip-dotzsdb.c).
use zeroskip.Prelude.{ℕ, ◌≡◌, refl, true, false, List, [], ◌∷◌, some, replicate, arith}
use zeroskip.Word.{little}
use zeroskip.Format.{zs_hdr_size}
use zeroskip.Header.{zs_signature}
use zeroskip.Record.{returned}
use zeroskip.Dotzsdb.{
  interrupted, wrote, DotZsdb, dotzsdb_crc, zs_dotzsdb_create, zs_dotzsdb_validate,
  zs_dotzsdb_update_end,
}
use zeroskip.Dotzsdb.RoundTrip.{IsDotZsdb, Reads, update_end-validate, create-validate}
use zeroskip.Tests.{a_sum}

abbrev pub a_dot : DotZsdb
a_dot = record {
  signature = zs_signature;
  offset = 4096;
  uuidstr = replicate 37 97;
  curidx = 3;
  crc = 0;
}

abbrev pub other_dot : DotZsdb
other_dot = record { signature = 0; offset = 40; uuidstr = replicate 37 98; curidx = 0; crc = 5 }

a_dot-IsDotZsdb : IsDotZsdb a_dot
a_dot-IsDotZsdb = record { signed = refl; offset = omega arith; uuid = refl; curidx = omega arith }

update_end-validate_example :
    (file : List ℕ) × (zs_dotzsdb_update_end little a_sum true true false
        (interrupted ∷ wrote 61 ∷ [])
        a_dot
      ≡ returned (1, record a_dot { crc = dotzsdb_crc little a_sum a_dot }, some file))
    × Reads little a_sum a_dot a_dot-IsDotZsdb other_dot true 61 (some file)
update_end-validate_example =
    update_end-validate little a_sum a_dot a_dot-IsDotZsdb other_dot true 1 61 []

create-validate_example :
    (d : DotZsdb) × (buf : List ℕ) × (zs_dotzsdb_create little a_sum
        (λ bytes. true)
        (replicate 37 97)
      ≡ some (1, d, buf))
    × (zs_dotzsdb_validate little a_sum (some buf) other_dot ≡ some (1, d))
    × (d.curidx ≡ 0)
    × (d.offset ≡ zs_hdr_size)
    × (d.uuidstr ≡ replicate 37 97)
create-validate_example = create-validate little a_sum (replicate 37 97) other_dot refl
