-- ===== src/Tests/Packs.antt =====
-- The pointer section of three offsets, behind three bytes, and a packed file of ten records.
use zeroskip.Prelude.{ℕ, ◌≡◌, refl, true, none, some, List, [], ◌∷◌, ◌++◌, arith}
use zeroskip.Word.{little}
use zeroskip.MFile.{calm}
use zeroskip.File.{zs_ok, ZsdbFile}
use zeroskip.File.Writes.{contents}
use zeroskip.Record.{returned}
use zeroskip.Vecu64.{Vecu64}
use zeroskip.Vecu64.Holds.{Holds}
use zeroskip.Packed.Kept.{new-IsTree, packed_priv, new_from_memtree-fetch}
use zeroskip.Memtree.Find.{memtree_new}
use zeroskip.Fetch.{FetchPriv, zsdb_fetch}
use zeroskip.Packed.{
  PackFile, pack_ok, write_pointers, zs_packed_file_open, zs_packed_file_new_from_memtree,
}
use zeroskip.Packed.Write.{section_of, final_commit}
use zeroskip.Packed.Open.{write_pointers-open}
use zeroskip.Memtree.Lookup
use zeroskip.Packed.Packs.{IsPlain, ArePlain}
use zeroskip.Packed.Whole.{IsPackedFrom, new_from_memtree-IsPackedFrom}
use zeroskip.Tests.Trees.{a_slack, a_slack-IsReadable, an_entry, full_leaf, full_leaf-IsTree}
use zeroskip.Tests.{add_up, a_sum, no_key, some_bytes, three_file}
use zeroskip.Tests.Files.{
  three_file-IsWritable, summed_file, summed_file-IsWritable, summed_file-IsCovering,
}
use zeroskip.Tests.Vectors.{a_vec, a_vec-Holds}

no_bytes : add_up 0 [] ≡ 0
unfolding add_up
no_bytes = refl

write_pointers-open_example :
    (f' : ZsdbFile) × (index' : Vecu64) × (write_pointers little a_sum calm three_file a_vec
      ≡ some (zs_ok, f'))
    × (contents f'
        ≡ some_bytes
          ++ (section_of little (5 ∷ 6 ∷ 7 ∷ []) ++ final_commit little a_sum (5 ∷ 6 ∷ 7 ∷ [])))
    × (zs_packed_file_open little (contents f') a_sum 0 1 ≡ returned (zs_ok, index'))
    × Holds index' (5 ∷ 6 ∷ 7 ∷ [])
write_pointers-open_example =
    write_pointers-open little 0 a_sum three_file a_vec (5 ∷ 6 ∷ 7 ∷ []) no_bytes
      three_file-IsWritable a_vec-Holds (omega arith, (omega arith, (omega arith, tt)))
      (omega arith) (omega arith)

plain : (n : ℕ) → IsPlain (an_entry n)
plain n = (refl, omega arith)

ten-ArePlain : ArePlain (Lookup.contents full_leaf)
ten-ArePlain = (
  plain 0,
  (
    plain 1,
    (plain 2, (plain 3, (plain 4, (plain 5, (plain 6, (plain 7, (plain 8, (plain 9, tt)))))))),
  ),
)

new_from_memtree-IsPackedFrom_example :
    IsPackedFrom little a_sum 0 full_leaf
      (zs_packed_file_new_from_memtree little a_sum 0 calm full_leaf summed_file)
new_from_memtree-IsPackedFrom_example =
    new_from_memtree-IsPackedFrom little a_sum 0 full_leaf summed_file no_bytes full_leaf-IsTree
      ten-ArePlain (omega arith) summed_file-IsWritable summed_file-IsCovering (omega arith)
      (omega arith)

-- The active tree is new.
abbrev to_pack : FetchPriv
to_pack = record {
  is_open = true;
  factive_is_open = true;
  memtree = memtree_new;
  fmemtree = full_leaf;
  pflist = [];
}

new_from_memtree-fetch_example :
    (g : PackFile) × (index : Vecu64) × (offsets : List ℕ) × (zs_packed_file_new_from_memtree little
        a_sum 0 calm full_leaf summed_file
      ≡ some (pack_ok, g))
    × (zs_packed_file_open little (contents g.file) a_sum 0 1 ≡ returned (zs_ok, index))
    × Holds index offsets
    × (zsdb_fetch little none a_slack (packed_priv to_pack g.file offsets) (7 ∷ []) no_key
        ≡ zsdb_fetch little none a_slack to_pack (7 ∷ []) no_key)
new_from_memtree-fetch_example =
    new_from_memtree-fetch little a_sum 0 a_slack to_pack [] summed_file (7 ∷ []) no_key
      a_slack-IsReadable (omega arith) no_bytes refl refl new-IsTree full_leaf-IsTree tt
      ten-ArePlain (omega arith) summed_file-IsWritable summed_file-IsCovering (omega arith)
      (omega arith)
