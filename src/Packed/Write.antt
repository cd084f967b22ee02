-- ===== src/Packed/Write.antt =====
-- Writing the pointer section of a packed file (write_pointers).
use mathlib.Core.List.{foldl}
use zeroskip.Prelude.{
  ℕ, ◌+◌, ◌-◌, ◌*◌, ◌^◌, ◌<◌, ◌≡◌, refl, sym, ap, ◌∙◌, true, Option, some, List, [], ◌∷◌, ◌++◌,
  append_assoc, append-nil, arith, length, length-append, drop, drop-append, ◌==◌, if◌then◌else◌,
}
use zeroskip.Word.{Host, store64, write_be64}
use zeroskip.Word.BigEndian.{length-write_be64}
use zeroskip.MFile.{calm, Checksum, crc32_begin}
use zeroskip.MFile.Append.{IsCovering, mfile_write-appends}
use zeroskip.File.{Code, zs_ok, ZsdbFile, zs_file_write_commit_record}
use zeroskip.File.Writes.{IsWritable, contents}
use zeroskip.File.Commit.{typed_word, write_commit_lem}
use zeroskip.Vecu64.{Vecu64, vecu64_foreach}
use zeroskip.Vecu64.Holds.{Holds}
use zeroskip.Vecu64.Queries.{vecu64_foreach-foldl}
use zeroskip.Packed.{
  write_word, index_step, zs_packed_file_write_index, zs_packed_file_write_index_count,
  write_pointers,
}

-- The bytes of the words of the index.
abbrev pub words : Host → List ℕ → List ℕ
words host [] = []
words host (n ∷ ns) = write_be64 host n ++ words host ns

pub length-words : (host : Host) (ns : List ℕ) → length (words host ns) ≡ 8 * length ns
length-words host [] = refl
length-words host (n ∷ ns) = omega (
  arith,
  length-append (write_be64 host n) (words host ns),
  length-write_be64 host n,
  length-words host ns,
)

-- The pointer section, and the record behind it.
abbrev pub section_of : Host → List ℕ → List ℕ
section_of host ns = write_be64 host (length ns) ++ words host ns

module _ (host : Host) (crc : Checksum) where
  abbrev pub final_word : List ℕ → ℕ
  final_word ns = typed_word 16 (length (section_of host ns))

  abbrev pub final_sum : List ℕ → ℕ
  final_sum ns =
      crc.run (crc.run (crc.run 0 []) (section_of host ns)) (store64 host (final_word ns))

  abbrev pub final_commit : List ℕ → List ℕ
  final_commit ns = write_be64 host (final_word ns + final_sum ns)

  -- The final record for so many bytes.
  abbrev commit_of : ℕ → List ℕ → List ℕ
  commit_of n covered =
      let w = typed_word 16 n in
      write_be64 host (w + crc.run (crc.run (crc.run 0 []) covered) (store64 host w))

  -- Longer by words, with the checksum running over them.
  record Longer (f : ZsdbFile) (bytes : List ℕ) (f' : ZsdbFile) : Type 0 where
    writable : IsWritable f'
    holds : contents f' ≡ contents f ++ bytes
    covering : IsCovering crc f'.mf
    same_begin : f'.mf.crc32_begin_offset ≡ f.mf.crc32_begin_offset

  write_word-Longer :
      (f : ZsdbFile) (n : ℕ)
      → IsWritable f
      → IsCovering crc f.mf
      → length (contents f) < 2 ^ 58
      → (f' : ZsdbFile) × (write_word host calm f n ≡ some (zs_ok, f'))
        × Longer f (write_be64 host n) f'
  write_word-Longer f n w c room =
      let size = length-write_be64 host n in
      let (mf, wrote, a) =
        mfile_write-appends f.mf (write_be64 host n) w.appending (omega (arith, size)) in
      (
        record f { mf = mf },
        rw wrote,
        record {
          writable = record { opened = w.opened; appending = a.appending };
          holds = a.bytes;
          covering = a.covering crc c;
          same_begin = a.same_begin;
        },
      )

  write_all :
      (ns : List ℕ) (f : ZsdbFile)
      → IsWritable f
      → IsCovering crc f.mf
      → length (contents f) + 8 * length ns < 2 ^ 58
      → (f' : ZsdbFile) × (foldl (index_step host calm) (some f) ns ≡ some f')
        × Longer f (words host ns) f'
  unfolding zs_packed_file_write_index
  write_all [] f w c room = (
    f,
    refl,
    record { writable = w; holds = sym (append-nil (contents f)); covering = c; same_begin = refl },
  )
  write_all (n ∷ ns) f w c room =
      let (f1, wrote, l) = write_word-Longer f n w c (omega (arith, room)) in
      let size = length-write_be64 host n in
      let (f2, all, l') = write_all ns f1 l.writable l.covering (
        omega (
          arith,
          room,
          ap (length {A = ℕ}) l.holds,
          length-append (contents f) (write_be64 host n),
          size,
        )) in
      let stepped : index_step host calm (some f) n ≡ some f1 = rw wrote in
      (
        f2,
        rw stepped all,
        record {
          writable = l'.writable;
          holds =
              l'.holds
              ∙ ap (λ (xs : List ℕ). xs ++ words host ns) l.holds
              ∙ append_assoc (contents f) (write_be64 host n) (words host ns);
          covering = l'.covering;
          same_begin = l'.same_begin ∙ l.same_begin;
        },
      )

  -- The three steps, one after another.
  chain :
      (f f1 f2 : ZsdbFile) (index : Vecu64) (k : ℕ) (r : Option (Code × ZsdbFile))
      → write_word host calm (record f { mf = crc32_begin crc f.mf }) index.count ≡ some (zs_ok, f1)
      → vecu64_foreach (index_step host calm) index (some f1) ≡ some (k, some f2)
      → zs_file_write_commit_record host crc calm calm f2 true ≡ r
      → write_pointers host crc calm f index ≡ r
  unfolding write_pointers zs_packed_file_write_index_count
  chain f f1 f2 index k r counted called ran = rw (counted, called) ran

  -- The final record behind a section.
  commit_section :
      (f2 : ZsdbFile) (before ns : List ℕ)
      → IsWritable f2
      → IsCovering crc f2.mf
      → length ns < 2 ^ 20
      → length before < 2 ^ 56
      → contents f2 ≡ before ++ section_of host ns
      → f2.mf.crc32_data_len ≡ length (section_of host ns)
      → (f3 : ZsdbFile) × (zs_file_write_commit_record host crc calm calm f2 true
          ≡ some (zs_ok, f3))
        × IsWritable f3
        × (contents f3 ≡ before ++ (section_of host ns ++ final_commit ns))
  commit_section f2 before ns w c few room whole n =
      let section = section_of host ns in
      let size = length-write_be64 host (length ns) in
      let size' = length-words host ns in
      let sections = length-append (write_be64 host (length ns)) (words host ns) in
      let sizes = ap (length {A = ℕ}) whole in
      let sizes' = length-append before section in
      let (f3, ran, w3, holds, off, none_left, inside) =
        write_commit_lem host crc true 16 f2 refl (omega arith) w c
          (omega (arith, n, sections, size, size', few))
          (omega (arith, sizes, sizes', sections, size, size', few, room)) in
      let back : length (before ++ section) - length section ≡ length before =
        omega (arith, sizes') in
      let cut : drop (length (before ++ section) - length section) (before ++ section) ≡ section =
        rw back (drop-append before section) in
      (
        f3,
        ran,
        w3,
        holds
            ∙ ap
                (λ (xs : List ℕ).
                  xs ++ commit_of f2.mf.crc32_data_len (drop (length xs - f2.mf.crc32_data_len) xs))
                whole
            ∙ ap
                (λ (k : ℕ).
                  (before ++ section)
                  ++ commit_of k (drop (length (before ++ section) - k) (before ++ section)))
                n
            ∙ ap (λ (xs : List ℕ). (before ++ section) ++ commit_of (length section) xs) cut
            ∙ append_assoc before section (final_commit ns),
      )

  -- Writing the pointer section: the count and the offsets of the index, and a final commit record.
  pub write_pointers-appends :
      (f : ZsdbFile) (index : Vecu64) (ns : List ℕ)
      → IsWritable f
      → Holds index ns
      → length ns < 2 ^ 20
      → length (contents f) < 2 ^ 56
      → (f' : ZsdbFile) × (write_pointers host crc calm f index ≡ some (zs_ok, f'))
        × IsWritable f'
        × (contents f' ≡ contents f ++ (section_of host ns ++ final_commit ns))
  unfolding crc32_begin
  write_pointers-appends f index ns w h few room =
      let a = w.appending in
      let begun : ZsdbFile = record f { mf = crc32_begin crc f.mf } in
      let w0 : IsWritable begun = record {
        opened = w.opened;
        appending = record {
          well = record { sized = a.well.sized; placed = a.well.placed };
          usable = a.usable;
          writable = a.writable;
          at_end = a.at_end;
        };
      } in
      let c0 : IsCovering crc begun.mf = record { on = refl; fresh = refl; covers = omega arith } in
      let size = length-write_be64 host (length ns) in
      let size' = length-words host ns in
      let (f1, counted, l) = write_word-Longer begun (length ns) w0 c0 (omega (arith, room)) in
      let longer = ap (length {A = ℕ}) l.holds in
      let longer' = length-append (contents f) (write_be64 host (length ns)) in
      let (f2, all, l') =
        write_all ns f1 l.writable l.covering (omega (arith, room, longer, longer', size, few)) in
      let k : ℕ = if index.count == 0 then 0 else 1 in
      let called : vecu64_foreach (index_step host calm) index (some f1) ≡ some (k, some f2) =
        vecu64_foreach-foldl (index_step host calm) index ns (some f1) h
        ∙ ap (λ (g : Option ZsdbFile). some (k, g)) all in
      let counted' : write_word host calm begun index.count ≡ some (zs_ok, f1) =
        rw h.counted counted in
      let before = contents f in
      let section = section_of host ns in
      let whole : contents f2 ≡ before ++ section =
        l'.holds
        ∙ ap (λ (xs : List ℕ). xs ++ words host ns) l.holds
        ∙ append_assoc before (write_be64 host (length ns)) (words host ns) in
      let sizes = ap (length {A = ℕ}) whole in
      let sizes' = length-append before section in
      let n : f2.mf.crc32_data_len ≡ length section = omega (
        arith, l'.covering.covers, l'.same_begin, l.same_begin, l'.writable.appending.at_end,
        a.at_end, sizes, sizes',
      ) in
      let (f3, ran, w3, holds) =
        commit_section f2 before ns l'.writable l'.covering few room whole n in
      (f3, chain f f1 f2 index k (some (zs_ok, f3)) counted' called ran, w3, holds)
