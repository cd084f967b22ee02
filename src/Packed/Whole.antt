-- ===== src/Packed/Whole.antt =====
-- A packed file from the tree of the finalised files, as it is opened and searched.
use zeroskip.Prelude.{
  ℕ, zero, suc, ◌+◌, ◌-◌, ◌*◌, ◌^◌, ◌<◌, ◌≤◌, ◌≡◌, refl, ap, ◌∙◌, true, false, Option, some, List,
  [], ◌∷◌, ◌++◌, append_assoc, arith, length, length-append, get_elem?, drop,
}
use zeroskip.Word.{Host, store64, write_be64}
use zeroskip.Word.BigEndian.{length-write_be64}
use zeroskip.MFile.{calm, done, bytes_of, mfile_flush, Checksum}
use zeroskip.MFile.Append.{IsCovering, mfile_flush-calm}
use zeroskip.File.{zs_ok, ZsdbFile, zs_file_write_commit_record}
use zeroskip.File.Writes.{IsWritable, contents}
use zeroskip.File.Commit.{nonempty_usable, nonempty_not_null, write_commit_lem, typed_word}
use zeroskip.Record.{returned}
use zeroskip.Vecu64.{Vecu64, vecu64_new}
use zeroskip.Vecu64.Holds.{Holds}
use zeroskip.Memtree.{Entry, Memtree}
use zeroskip.Memtree.Find.{keys, memtree_walk_forward}
use zeroskip.Memtree.Sorted.{Sorted, Sorted-IsAscending}
use zeroskip.Memtree.Lookup
use zeroskip.Memtree.Lookup.{IsTree}
use zeroskip.Memtree.Walk.{memtree_walk_forward-foreach}
use zeroskip.Packed.{
  PackFile, PackCode, pack_ok, record_step, write_pointers, zs_packed_file_open,
  zs_packed_file_new_from_memtree,
}
use zeroskip.Packed.Write.{section_of, final_commit}
use zeroskip.Packed.Open.{new-Holds, write_pointers-open}
use zeroskip.Packed.Packs.{values, weight, ArePlain, IsKeyAt, AreKeysAt, Packs}
use zeroskip.Packed.Pack.{all_records}
use zeroskip.Fetch.Files.{IsPacked}

key_of :
    (host : Host) (base offsets : List ℕ) (ks : List (List ℕ)) (i offset : ℕ) (k : List ℕ)
    → AreKeysAt host base offsets ks
    → get_elem? offsets i ≡ some offset
    → get_elem? ks i ≡ some k
    → IsKeyAt host base offset k
key_of host base [] ks i offset k h at key_at = cc at
key_of host base (o ∷ offsets) [] i offset k h at key_at = cc key_at
key_of host base (o ∷ offsets) (l ∷ ks) zero offset k h at key_at =
    let e : o ≡ offset = cc at in let f : l ≡ k = cc key_at in rw (← e, ← f) h.0
key_of host base (o ∷ offsets) (l ∷ ks) (suc i) offset k h at key_at =
    key_of host base offsets ks i offset k h.1 at key_at

three_parts :
    (a b c d ab abc abcd : List ℕ)
    → ab ≡ a ++ b
    → abc ≡ ab ++ c
    → abcd ≡ abc ++ d
    → abcd ≡ a ++ (b ++ (c ++ d))
three_parts a b c d ab abc abcd e f g =
    let inner : ab ++ (c ++ d) ≡ a ++ (b ++ (c ++ d)) =
      ap (λ (xs : List ℕ). xs ++ (c ++ d)) e ∙ append_assoc a b (c ++ d) in
    g ∙ ap (λ (xs : List ℕ). xs ++ d) f ∙ append_assoc ab c d ∙ inner

-- The packed records, when the file is opened with the offsets of their places.
packs_IsPacked :
    (host : Host) (es : List Entry) (g g' : PackFile) (base after : List ℕ)
    (p : Packs host es [] g g')
    → Sorted es
    → 0 < length es
    → base ≡ contents g.file ++ (p.bytes ++ after)
    → IsPacked host
        (record { is_open = true; base = base; index = p.offsets })
        (keys es)
        (values es)
packs_IsPacked host es g g' base after p sorted filled whole = record {
  opened = refl;
  pairs = rw whole (p.pairs after);
  ascending = Sorted-IsAscending es sorted;
  filled = omega (arith, p.count, filled);
  ends = λ i offset k k0 side at key_at.
      key_of host base p.offsets (keys es) i offset k (rw whole (p.short after)) at key_at p.offsets
        k0;
}

few_records : (es : List Entry) → 64 * length es ≤ weight es
few_records [] = omega arith
few_records (e ∷ es) = omega (arith, few_records es)

-- The word of the commit record behind the records.
abbrev commit_word : Host → Checksum → ZsdbFile → ℕ
commit_word host crc f =
    let n = f.mf.crc32_data_len in
    let w = typed_word 4 n in
    let covered = drop (length (contents f) - n) (contents f) in
    w + crc.run (crc.run (crc.run 0 []) covered) (store64 host w)

module _ (host : Host) (crc : Checksum) (junk : ℕ) where
  chain :
      (tree : Memtree) (f f2 f3 : ZsdbFile) (f1 : PackFile)
      → memtree_walk_forward
          (record_step host junk calm)
          tree
          (some (record { file = f; index = vecu64_new }))
        ≡ some (some f1)
      → mfile_flush calm f1.file.mf ≡ done f1.file.mf
      → zs_file_write_commit_record host crc calm calm f1.file false ≡ some (zs_ok, f2)
      → write_pointers host crc calm f2 f1.index ≡ some (zs_ok, f3)
      → zs_packed_file_new_from_memtree host crc junk calm tree f
        ≡ some (pack_ok, record f1 { file = f3 })
  unfolding zs_packed_file_new_from_memtree
  chain tree f f2 f3 f1 walked flushed committed pointed = rw (walked, flushed, committed, pointed)

  -- What a packed file is opened with.
  abbrev pub IsPackedFrom : Memtree → Option (PackCode × PackFile) → Type 0
  IsPackedFrom tree result =
      (g : PackFile) × (index : Vecu64) × (offsets : List ℕ) × (result ≡ some (pack_ok, g))
      × (zs_packed_file_open host (contents g.file) crc junk 1 ≡ returned (zs_ok, index))
      × Holds index offsets
      × IsPacked host (record { is_open = true; base = contents g.file; index = offsets })
          (keys (Lookup.contents tree)) (values (Lookup.contents tree))

  -- Packing a tree in order that has records, none of them deleted, whose keys have at most 65535
  -- bytes, into a file below 16 MB that has its header and is open for writing, with its checksum
  -- begun, where no system call fails: the call succeeds. Opening the file finds its checksum right
  -- and returns an index; by this index the file has the keys and the values of the tree, the keys
  -- ascend, and the search of the packed files reads those at the ends. The checksum of no bytes is 0.
  pub new_from_memtree-IsPackedFrom :
      (tree : Memtree) (f : ZsdbFile)
      → crc.run 0 [] ≡ 0
      → IsTree tree
      → ArePlain (Lookup.contents tree)
      → 0 < length (Lookup.contents tree)
      → IsWritable f
      → IsCovering crc f.mf
      → 0 < length (contents f)
      → length (contents f) + weight (Lookup.contents tree) < 2 ^ 24
      → IsPackedFrom tree (zs_packed_file_new_from_memtree host crc junk calm tree f)
  new_from_memtree-IsPackedFrom tree f nothing t plain filled w c headed room =
      let es = Lookup.contents tree in
      let few = few_records es in
      let g0 : PackFile = record { file = f; index = vecu64_new } in
      let (g1, stepped, p) =
        all_records host junk es [] g0 plain w new-Holds (omega (arith, few, room))
          (omega (arith, room)) in
      let walked =
        memtree_walk_forward-foreach (record_step host junk calm) tree (some g0) t
        ∙ ap some stepped in
      let longer = ap (length {A = ℕ}) p.holds in
      let longer' = length-append (contents f) p.bytes in
      let some_bytes : 0 < length (bytes_of g1.file.mf.ptr) =
        omega (arith, longer, longer', headed) in
      let flushed =
        mfile_flush-calm g1.file.mf (nonempty_usable g1.file.mf.ptr some_bytes)
          (nonempty_not_null g1.file.mf.ptr some_bytes) in
      let c1 = p.covering crc c in
      let size : length (contents g1.file) < 2 ^ 24 =
        omega (arith, longer, longer', p.size, room) in
      let (f2, committed, w2, holds2, off, none_left, inside) =
        write_commit_lem host crc false 4 g1.file refl (omega arith) p.writable c1
          (omega (arith, c1.covers, p.writable.appending.at_end, size)) (omega (arith, size)) in
      let buf = write_be64 host (commit_word host crc g1.file) in
      let short_commit = length-write_be64 host (commit_word host crc g1.file) in
      let grown = ap (length {A = ℕ}) holds2 in
      let grown' = length-append (contents g1.file) buf in
      let (f3, index, pointed, holds3, opened, h) =
        write_pointers-open host junk crc f2 g1.index p.offsets nothing w2 p.index p.words
          (omega (arith, p.count, few, room)) (omega (arith, grown, grown', size, short_commit)) in
      let last = section_of host p.offsets ++ final_commit host crc p.offsets in
      let whole : contents f3 ≡ contents f ++ (p.bytes ++ (buf ++ last)) =
        three_parts (contents f) p.bytes buf last (contents g1.file) (contents f2) (contents f3)
          p.holds holds2 holds3 in
      (
        record g1 { file = f3 },
        index,
        p.offsets,
        chain tree f f2 f3 g1 walked flushed committed pointed,
        opened,
        h,
        packs_IsPacked host es g0 g1 (contents f3) (buf ++ last) p t.sorted filled whole,
      )
