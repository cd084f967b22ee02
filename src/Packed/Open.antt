-- ===== src/Packed/Open.antt =====
-- Opening a packed file whose pointer section was written (zs_packed_file_open).
use zeroskip.Prelude.{
  ℕ, ◌+◌, ◌-◌, ◌^◌, ◌<◌, ◌≡◌, refl, sym, ap, ◌∙◌, true, some, List, [], ◌∷◌, ◌++◌, append_assoc,
  append-nil, arith, length, length-append, bit_and, ◌==◌, ==_refl,
}
use zeroskip.Word.{Host, u64, store64, read_be64, write_be64, ◌>>>◌}
use zeroskip.Word.Bits.{bit_and-low, bit_and-field}
use zeroskip.Word.BigEndian.{length-write_be64, read_be64-write_be64}
use zeroskip.Buffer.{slice-append}
use zeroskip.MFile.{calm, Checksum}
use zeroskip.File.{zs_ok, ZsdbFile}
use zeroskip.File.Writes.{IsWritable, contents}
use zeroskip.File.Commit.{typed_word}
use zeroskip.Record.{returned}
use zeroskip.Vecu64.{Vecu64, vecu64_new}
use zeroskip.Vecu64.Holds.{Holds}
use zeroskip.Vecu64.Inserts.{vecu64_append-Holds}
use zeroskip.Packed.{
  Pointers, pointers_loop, read_pointers, get_offset_to_pointers, pointers_crc, zs_packed_file_open,
  write_pointers,
}
use zeroskip.Packed.Write.{
  words, length-words, section_of, final_word, final_sum, final_commit, write_pointers-appends,
}

pub new-Holds : Holds vecu64_new []
unfolding vecu64_new
new-Holds = record {
  stores = record { spare = []; cells = refl; sized = refl; bounded = omega arith };
  counted = refl;
}

abbrev pub AreWords : List ℕ → Type 0
AreWords [] = Unit
AreWords (n ∷ ns) = (n < 2 ^ 64) × AreWords ns

final_fields :
    (len sum : ℕ)
    → len < 2 ^ 24
    → sum < 2 ^ 32
    → let w = typed_word 16 len + sum in
      (w >>> 56 ≡ 16)
      × (bit_and (w >>> 32) 0xFFFFFF ≡ len)
      × (bit_and w 0xFFFFFFFF00000000 ≡ typed_word 16 len)
      × (bit_and w 0xFFFFFFFF ≡ sum)
      × (w < 2 ^ 64)
final_fields len sum hl hs =
    let w = typed_word 16 len + sum in
    (
      omega arith,
      omega (arith, bit_and-low 24 (w >>> 32)),
      omega (arith, bit_and-field 32 32 w),
      omega (arith, bit_and-low 32 w),
      omega arith,
    )

-- A word in the middle of a file.
read_at :
    (host : Host) (n : ℕ) (before after : List ℕ) (at : ℕ)
    → n < 2 ^ 64
    → at ≡ length before
    → read_be64 host (before ++ (write_be64 host n ++ after)) at ≡ some n
read_at host n before after at h e =
    rw (e, ← append_assoc before (write_be64 host n) after)
      (read_be64-write_be64 host n before after h)

module _ (host : Host) (junk : ℕ) where
  loop_reads :
      (ns base before after old : List ℕ) (at : ℕ) (index : Vecu64)
      → AreWords ns
      → base ≡ before ++ (words host ns ++ after)
      → at ≡ length before
      → Holds index old
      → length old + length ns < 2 ^ 58
      → (index' : Vecu64) × (pointers_loop host base junk (length ns) at index ≡ some index')
        × Holds index' (old ++ ns)
  unfolding pointers_loop
  loop_reads [] base before after old at index fit whole e h room =
      (index, refl, rw (append-nil old) h)
  loop_reads (n ∷ ns) base before after old at index (fit, fits) whole e h room =
      let w = write_be64 host n in
      let whole1 : base ≡ before ++ (w ++ (words host ns ++ after)) =
        whole ∙ ap (◌++◌ before) (append_assoc w (words host ns) after) in
      let whole2 : base ≡ (before ++ w) ++ (words host ns ++ after) =
        whole1 ∙ sym (append_assoc before w (words host ns ++ after)) in
      let read : read_be64 host base at ≡ some n =
        rw whole1 (read_at host n before (words host ns ++ after) at fit e) in
      let (index1, appended, h1) = vecu64_append-Holds junk index old n h (omega (arith, room)) in
      let next : at + 8 ≡ length (before ++ w) =
        omega (arith, e, length-append before w, length-write_be64 host n) in
      let (index2, rest, h2) =
        loop_reads ns base (before ++ w) after (old ++ (n ∷ [])) (at + 8) index1 fits whole2 next h1
          (omega (arith, room, length-append old (n ∷ []))) in
      (index2, rw (read, appended) rest, rw (append_assoc old (n ∷ []) ns) at h2)

  module _ (crc : Checksum) where
    -- The three steps, one after another.
    chain :
        (base : List ℕ) (fuel : ℕ) (p : Pointers) (sum : ℕ) (index : Vecu64)
        → get_offset_to_pointers host base fuel (record {
          offset = u64 (length base + 2 ^ 64 - 8);
          checksum = 0;
          crc_offset = 0;
          rtype = 0;
        })
          ≡ returned (zs_ok, p)
        → pointers_crc host base crc (length base) p ≡ some sum
        → (sum == p.checksum) ≡ true
        → read_pointers host base junk p.offset vecu64_new ≡ some index
        → zs_packed_file_open host base crc junk fuel ≡ returned (zs_ok, index)
    unfolding zs_packed_file_open
    chain base fuel p sum index located summed same loaded =
        rw (zs_packed_file_open, located, summed, same, loaded)

    -- A file whose last parts are a pointer section and its final record.
    open_reads :
        (before ns : List ℕ)
        → crc.run 0 [] ≡ 0
        → AreWords ns
        → length ns < 2 ^ 20
        → length before < 2 ^ 56
        → (index : Vecu64) × (zs_packed_file_open host
              (before ++ (section_of host ns ++ final_commit host crc ns))
              crc
              junk
              1
            ≡ returned (zs_ok, index))
          × Holds index ns
    unfolding get_offset_to_pointers pointers_crc read_pointers
    open_reads before ns nothing fits few room =
        let section = section_of host ns in
        let sum = final_sum host crc ns in
        let len = length section in
        let w = final_word host crc ns + sum in
        let commit = write_be64 host w in
        let base = before ++ (section ++ commit) in
        let size = length-append (write_be64 host (length ns)) (words host ns) in
        let size' = length-write_be64 host (length ns) in
        let size'' = length-words host ns in
        let total = length-append before (section ++ commit) in
        let total' = length-append section commit in
        let commits = length-write_be64 host w in
        let fields =
          final_fields len sum (omega (arith, size, size', size'', few)) (crc.run_lt _ _) in
        let flat : (before ++ section) ++ (commit ++ []) ≡ base =
          rw (append-nil commit) (append_assoc before section commit) in
        let start : u64 (length base + 2 ^ 64 - 8) ≡ length before + len =
          omega (arith, total, total', commits, size, size', size'', few, room) in
        let at : length before + len ≡ length (before ++ section) =
          omega (arith, length-append before section) in
        let first =
          rw flat at (read_at host w (before ++ section) [] (length before + len) fields.4 at) in
        let back : u64 (length before + len + 2 ^ 64 - len) ≡ length before =
          omega (arith, size, size', size'', few, room) in
        let width : u64 (length base + 2 ^ 64 - 8 + 2 ^ 64 - length before) ≡ len =
          omega (arith, total, total', commits, size, size', size'', few, room) in
        let part = slice-append before section commit in
        let counted_flat : before ++ (write_be64 host (length ns) ++ (words host ns ++ commit))
            ≡ base =
          simp (append_assoc) in
        let count = rw counted_flat at (
          read_at host (length ns) before (words host ns ++ commit) (length before)
            (omega (arith, few)) refl) in
        let (index, read, h) =
          loop_reads ns base (before ++ write_be64 host (length ns)) commit [] (length before + 8)
            vecu64_new fits (simp (append_assoc))
            (omega (arith, length-append before (write_be64 host (length ns)), size')) new-Holds
            (omega (arith, few)) in
        let same = ==_refl sum in
        let p : Pointers = record {
          offset = length before;
          checksum = sum;
          crc_offset = length before + len;
          rtype = 16;
        } in
        let located : get_offset_to_pointers host base 1
              (record { offset = length before + len; checksum = 0; crc_offset = 0; rtype = 0 })
            ≡ returned (zs_ok, p) =
          rw (get_offset_to_pointers, first, fields.0, fields.1, back, fields.3) in
        let summed : pointers_crc host base crc (length base) p ≡ some sum =
          rw (width, part, first, fields.2)
            (ap
              (λ (z : ℕ).
                some (crc.run (crc.run z section) (store64 host (final_word host crc ns))))
              (sym nothing)) in
        let loaded : read_pointers host base junk (length before) vecu64_new ≡ some index =
          rw (count, read) in
        (index, chain base 1 p sum index (rw start located) summed same loaded, h)

-- Writing the pointer section at the end of a file that is open for writing and below 2 ^ 56 bytes,
-- for an index of fewer than 2 ^ 20 offsets, where no system call fails: the call returns ZS_OK and
-- the bytes are added to the file. Opening the file, with one round of fuel, then returns ZS_OK,
-- reads nothing outside the mapping, finds the checksum right and gives an index with the same
-- offsets. The checksum of no bytes is 0.
pub write_pointers-open :
    (host : Host) (junk : ℕ) (crc : Checksum) (f : ZsdbFile) (index : Vecu64) (ns : List ℕ)
    → crc.run 0 [] ≡ 0
    → IsWritable f
    → Holds index ns
    → AreWords ns
    → length ns < 2 ^ 20
    → length (contents f) < 2 ^ 56
    → (f' : ZsdbFile) × (index' : Vecu64) × (write_pointers host crc calm f index
        ≡ some (zs_ok, f'))
      × (contents f' ≡ contents f ++ (section_of host ns ++ final_commit host crc ns))
      × (zs_packed_file_open host (contents f') crc junk 1 ≡ returned (zs_ok, index'))
      × Holds index' ns
write_pointers-open host junk crc f index ns nothing w h fit few room =
    let (f', ran, w', holds) = write_pointers-appends host crc f index ns w h few room in
    let (index', read, h') = open_reads host junk crc (contents f) ns nothing fit few room in
    (f', index', ran, holds, rw holds read, h')
