-- ===== src/Active/Reopen.antt =====
-- A session, and the database that is opened again after it: the tree in memory during the session
-- and the one that is loaded from the file (src/zeroskip.c, src/memtree.c).
use mathlib.Core.List.{foldl}
use zeroskip.Prelude.{
  ℕ, ◌+◌, ◌<◌, ◌≡◌, refl, ap, ◌∙◌, subst, true, false, Option, none, some, List, [], ◌∷◌, length,
  arith,
}
use zeroskip.Word.{Host}
use zeroskip.MFile.{Checksum, stat_found, Os}
use zeroskip.Format.{zs_hdr_size}
use zeroskip.Format.Decode.{ZsKey, ZsVal}
use zeroskip.File.{Code, zs_ok}
use zeroskip.File.Writes.{contents}
use zeroskip.Record.{returned, record_foreach}
use zeroskip.Search.Order.{lex}
use zeroskip.Memtree.{Entry, Memtree}
use zeroskip.Memtree.Find.{Slack, memtree_new}
use zeroskip.Memtree.Load.{
  replace_record, record_new, load_memtree_record_cb, load_deleted_memtree_record_cb, IsLoaded,
  replace_record-IsLoaded,
}
use zeroskip.Memtree.Lookup.{IsTree, IsReadable}
use zeroskip.Memtree.Lookup
use zeroskip.Memtree.Sorted.{lookup, pick, lookup-put}
use zeroskip.Memtree.Sorted
use zeroskip.Active.{Priv, DotOs, two_mb}
use zeroskip.Active.Session.{Op, run_ops, cost, AreSafe, op_effect, tree_effect, IsReady}
use zeroskip.Active.Whole.{run_ops-Session, run_ops-record_foreach}

-- The record that the calls so far leave for a key: that of the last call on it.
abbrev pub latest : List ℕ → Option Entry → Op → Option Entry
latest key old (Op.put k val) = pick (lex key k) (some (record_new k val false)) old
latest key old (Op.delete k) = pick (lex key k) (some (record_new k [] true)) old
latest key old Op.commit = old

-- A tree in order in which every key has that record.
abbrev pub Reflects : List Op → Option Memtree → Type 0
Reflects ops tree =
    (t : Memtree) × (tree ≡ some t)
    × IsTree t
    × ((key : List ℕ) → lookup key (Lookup.contents t) ≡ foldl (latest key) none ops)

-- The records after the calls.
all_records : List Entry → List Op → List Entry
all_records all [] = all
all_records all (Op.put k val ∷ ops) = all_records (Sorted.put (record_new k val false) all) ops
all_records all (Op.delete k ∷ ops) = all_records (Sorted.put (record_new k [] true) all) ops
all_records all (Op.commit ∷ ops) = all_records all ops

loaded :
    (slack : Slack) (ops : List Op) (tree : Option Memtree) (all : List Entry)
    → IsReadable slack
    → IsLoaded all tree
    → IsLoaded (all_records all ops) (
        foldl
          (op_effect (load_memtree_record_cb slack) (load_deleted_memtree_record_cb slack))
          tree
          ops)
unfolding all_records
loaded slack [] tree all readable h = h
loaded slack (Op.put k val ∷ ops) tree all readable h =
    loaded slack ops (replace_record slack tree k val false)
      (Sorted.put (record_new k val false) all) readable
      (replace_record-IsLoaded slack tree all k val false readable h)
loaded slack (Op.delete k ∷ ops) tree all readable h =
    loaded slack ops (replace_record slack tree k [] true) (Sorted.put (record_new k [] true) all)
      readable (replace_record-IsLoaded slack tree all k [] true readable h)
loaded slack (Op.commit ∷ ops) tree all readable h = loaded slack ops tree all readable h

found_latest :
    (key : List ℕ) (ops : List Op) (all : List Entry)
    → lookup key (all_records all ops) ≡ foldl (latest key) (lookup key all) ops
unfolding all_records
found_latest key [] all = refl
found_latest key (Op.put k val ∷ ops) all =
    found_latest key ops (Sorted.put (record_new k val false) all)
    ∙ ap (λ o. foldl (latest key) o ops) (lookup-put key (record_new k val false) all)
found_latest key (Op.delete k ∷ ops) all =
    found_latest key ops (Sorted.put (record_new k [] true) all)
    ∙ ap (λ o. foldl (latest key) o ops) (lookup-put key (record_new k [] true) all)
found_latest key (Op.commit ∷ ops) all = found_latest key ops all

new-IsLoaded : IsLoaded [] (some memtree_new)
new-IsLoaded = (
  memtree_new,
  refl,
  refl,
  record { shaped = (omega arith, omega arith); sorted = tt; counted = refl },
)

reflects :
    (slack : Slack) (ops : List Op)
    → IsReadable slack
    → Reflects ops (
        foldl
          (op_effect (load_memtree_record_cb slack) (load_deleted_memtree_record_cb slack))
          (some memtree_new)
          ops)
reflects slack ops readable =
    let (t, is, same, ordered) = loaded slack ops (some memtree_new) [] readable new-IsLoaded in
    (t, is, ordered, λ key. ap (lookup key) same ∙ found_latest key ops [])

module _ (host : Host) (crc : Checksum)
    (reload finalise file_new : Priv (Option Memtree) → Code × Priv (Option Memtree)) (dot : DotOs)
    (slack : Slack) where
  -- A session of additions, removals and commits on a database with an empty tree and an active file
  -- that holds a header alone, under the conditions of a session (open for writing and ready, no
  -- system call fails, no other process interferes, keys are not empty and those to be removed have
  -- at most 65535 bytes, the file stays below 2 MB, and what is behind a full leaf can be read):
  -- every call returns ZS_OK, and the tree is in order and has for each key the record of the last
  -- call on it. Loading the file again into an empty tree, with more rounds of fuel than calls,
  -- returns ZS_OK and gives such a tree too.
  pub run_ops-reopen :
      (ops : List Op) (p : Priv (Option Memtree)) (key0 : ZsKey) (val0 : ZsVal) (fuel : ℕ) (os : Os)
      → IsReadable slack
      → IsReady crc p
      → AreSafe ops
      → p.memtree ≡ some memtree_new
      → length (contents p.factive) ≡ zs_hdr_size
      → zs_hdr_size + cost ops < two_mb
      → length ops < fuel
      → (p' : Priv (Option Memtree)) × (tree : Option Memtree) × (run_ops host crc
            (replace_record slack)
            reload
            finalise
            file_new
            dot
            ops
            p
          ≡ some (zs_ok, p'))
        × Reflects ops p'.memtree
        × (record_foreach host crc key0 val0
              (some (load_memtree_record_cb slack))
              (some (load_deleted_memtree_record_cb slack))
              fuel
              os
              (stat_found (contents p'.factive))
              p'.factive
              (some memtree_new)
            ≡ returned (zs_ok, tree))
        × Reflects ops tree
  run_ops-reopen ops p key0 val0 fuel os readable r safe empty sized room enough =
      let (p', ran, read) =
        run_ops-record_foreach host crc (replace_record slack) reload finalise file_new dot ops p
          key0 val0 (load_memtree_record_cb slack) (load_deleted_memtree_record_cb slack)
          (some memtree_new) fuel os r safe sized room enough in
      let (p2, ran2, w) =
        run_ops-Session host crc (replace_record slack) reload finalise file_new dot ops p r safe
          (omega (arith, sized, room)) in
      let same : p2 ≡ p' = cc (ran, ran2) in
      let tree = w.tree ∙ ap (λ t. foldl (tree_effect (replace_record slack)) t ops) empty in
      let loaded_tree =
        foldl (op_effect (load_memtree_record_cb slack) (load_deleted_memtree_record_cb slack))
          (some memtree_new) ops in
      (
        p',
        loaded_tree,
        ran,
        subst (λ (q : Priv (Option Memtree)). Reflects ops q.memtree) same
            (rw tree (reflects slack ops readable)),
        read,
        reflects slack ops readable,
      )
