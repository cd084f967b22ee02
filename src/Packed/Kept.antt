-- ===== src/Packed/Kept.antt =====
-- What is fetched from a database before and after the tree of the finalised files is packed.
use zeroskip.Prelude.{
  ℕ, ◌+◌, ◌^◌, ◌<◌, ◌≡◌, inl, inr, refl, sym, ap, ◌∙◌, true, Option, none, some, List, [], ◌∷◌,
  arith, length,
}
use zeroskip.Word.{Host}
use zeroskip.MFile.{calm, Checksum}
use zeroskip.MFile.Append.{IsCovering}
use zeroskip.Format.Decode.{ZsKey}
use zeroskip.File.{zs_ok, ZsdbFile}
use zeroskip.File.Writes.{IsWritable, contents}
use zeroskip.Record.{returned}
use zeroskip.Search.Order.{lex, lex_trans}
use zeroskip.Search.Tables.{ordering_cases}
use zeroskip.Vecu64.{Vecu64}
use zeroskip.Vecu64.Holds.{Holds}
use zeroskip.Memtree.{Entry}
use zeroskip.Memtree.Find.{Slack, memtree_new, keys}
use zeroskip.Memtree.Inorder.{All}
use zeroskip.Memtree.Sorted.{All-map, Over, Sorted, lookup}
use zeroskip.Memtree.Lookup
use zeroskip.Memtree.Lookup.{IsTree, IsReadable}
use zeroskip.Fetch.{FetchPriv, in_active, in_finalised, live, zsdb_fetch}
use zeroskip.Fetch.Files.{ArePacked, assoc, packed_value, packed_answer}
use zeroskip.Fetch.Layers.{layered, zsdb_fetch-layered}
use zeroskip.Packed.{PackFile, pack_ok, zs_packed_file_new_from_memtree, zs_packed_file_open}
use zeroskip.Packed.Packs.{values, weight, ArePlain}
use zeroskip.Packed.Whole.{new_from_memtree-IsPackedFrom}

abbrev pub found_value : Option Entry → Option (List ℕ)
found_value none = none
found_value (some e) = some e.val

assoc-Over :
    (key : List ℕ) (es : List Entry) → All (Over key) es → assoc key (keys es) (values es) ≡ none
unfolding keys
assoc-Over key [] over = refl
assoc-Over key (e ∷ es) (here, later) = rw here (assoc-Over key es later)

-- The keys and values of a sorted list have for a key what the list has.
assoc-lookup :
    (key : List ℕ) (es : List Entry)
    → Sorted es
    → assoc key (keys es) (values es) ≡ found_value (lookup key es)
unfolding keys
assoc-lookup key [] sorted = refl
assoc-lookup key (e ∷ es) (over, sorted) = elim (ordering_cases (lex key e.key)) [
  | inl same ↦ rw same
  | inr (inl more) ↦ rw more (assoc-lookup key es sorted)
  | inr (inr less) ↦
      rw less (assoc-Over key es (All-map (λ x h. lex_trans key e.key x.key less h) es over))
]

-- The finalised tree's answer, as a file's.
as_packed :
    (found : Option Entry) (rest : Option (List ℕ))
    → in_finalised found (packed_answer rest)
      ≡ packed_answer (elim (found_value found) [ none ↦ rest | some val ↦ some val ])
as_packed none rest = refl
as_packed (some e) rest = refl

same_answer :
    (key : List ℕ) (es : List Entry) (active : Option Entry)
    (tables : List (List (List ℕ) × List (List ℕ)))
    → Sorted es
    → layered active none (packed_value key ((keys es, values es) ∷ tables))
      ≡ layered active (lookup key es) (packed_value key tables)
same_answer key es active tables sorted =
    let rest = packed_value key tables in
    ap
      (λ (o : Option (List ℕ)).
        in_active (live active) (packed_answer (elim o [ none ↦ rest | some val ↦ some val ])))
      (assoc-lookup key es sorted)
    ∙ ap (in_active (live active)) (sym (as_packed (lookup key es) rest))

pub new-IsTree : IsTree memtree_new
new-IsTree = record { shaped = (omega arith, omega arith); sorted = tt; counted = refl }

-- The database when the tree of the finalised files has been packed: the tree is new, and the file
-- that was packed is the first of the packed files.
abbrev pub packed_priv : FetchPriv → ZsdbFile → List ℕ → FetchPriv
packed_priv p f offsets = record p {
  fmemtree = memtree_new;
  pflist = record { is_open = true; base = contents f; index = offsets } ∷ p.pflist;
}

-- Packing the tree of the finalised files of a database, as in new_from_memtree-IsPackedFrom,
-- succeeds, and so does opening the file; with the index that is read then, the file as the first
-- of the packed files and a new tree, fetching a key that is not empty returns what it
-- returned before. The database is open, its trees are in order, its packed files have ascending
-- keys, at their ends with short lengths, and what is behind a full leaf can be read.
pub new_from_memtree-fetch :
    (host : Host) (crc : Checksum) (junk : ℕ) (slack : Slack) (p : FetchPriv)
    (tables : List (List (List ℕ) × List (List ℕ))) (f : ZsdbFile) (key : List ℕ) (k0 : ZsKey)
    → IsReadable slack
    → 0 < length key
    → crc.run 0 [] ≡ 0
    → p.is_open ≡ true
    → p.factive_is_open ≡ true
    → IsTree p.memtree
    → IsTree p.fmemtree
    → ArePacked host p.pflist tables
    → ArePlain (Lookup.contents p.fmemtree)
    → 0 < length (Lookup.contents p.fmemtree)
    → IsWritable f
    → IsCovering crc f.mf
    → 0 < length (contents f)
    → length (contents f) + weight (Lookup.contents p.fmemtree) < 2 ^ 24
    → (g : PackFile) × (index : Vecu64) × (offsets : List ℕ) × (zs_packed_file_new_from_memtree host
          crc junk calm p.fmemtree f
        ≡ some (pack_ok, g))
      × (zs_packed_file_open host (contents g.file) crc junk 1 ≡ returned (zs_ok, index))
      × Holds index offsets
      × (zsdb_fetch host none slack (packed_priv p g.file offsets) key k0
          ≡ zsdb_fetch host none slack p key k0)
new_from_memtree-fetch host crc junk slack p tables f key k0 readable some_key nothing opened
      active_opened t ft files plain filled w c headed room =
    let es = Lookup.contents p.fmemtree in
    let (g, index, offsets, packed, read, h, is_packed) =
      new_from_memtree-IsPackedFrom host crc junk p.fmemtree f nothing ft plain filled w c headed
        room in
    let before =
      zsdb_fetch-layered host slack p tables key k0 readable some_key opened active_opened t ft
        files in
    let after =
      zsdb_fetch-layered host slack (packed_priv p g.file offsets) ((keys es, values es) ∷ tables)
        key k0 readable some_key opened active_opened t new-IsTree (is_packed, files) in
    (
      g,
      index,
      offsets,
      packed,
      read,
      h,
      after
          ∙ same_answer key es (lookup key (Lookup.contents p.memtree)) tables ft.sorted
          ∙ sym before,
    )
