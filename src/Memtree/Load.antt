-- ===== src/Memtree/Load.antt =====
-- The callbacks that load the records of a data file into a tree (load_memtree_record_cb and
-- load_deleted_memtree_record_cb of src/zeroskip.c). A tree that is none has met a fault.
use zeroskip.Prelude.{ℕ, ◌≡◌, ◌∙◌, ap, Bool, true, false, Option, some, List, ◌>>=◌}
use zeroskip.Memtree.{Entry, Memtree}
use zeroskip.Memtree.Find.{Slack, memtree_replace}
use zeroskip.Memtree.Sorted.{put}
use zeroskip.Memtree.Lookup.{contents, IsTree, IsReadable}
use zeroskip.Memtree.Replace.{readable-Holds}

abbrev pub record_new : List ℕ → List ℕ → Bool → Entry
record_new key val deleted = record { key = key; val = val; deleted = deleted }

module _ (slack : Slack) where
  unfoldable pub replace_record : Option Memtree → List ℕ → List ℕ → Bool → Option Memtree
  replace_record tree key val deleted = do
    t ← tree
    (ret, t') ← memtree_replace slack t (record_new key val deleted)
    some t'

  abbrev pub load_memtree_record_cb : Option Memtree → List ℕ → List ℕ → Option Memtree
  load_memtree_record_cb tree key val = replace_record tree key val false

  abbrev pub load_deleted_memtree_record_cb : Option Memtree → List ℕ → List ℕ → Option Memtree
  load_deleted_memtree_record_cb tree key val = replace_record tree key val true

-- A tree in order with these records.
abbrev pub IsLoaded : List Entry → Option Memtree → Type 0
IsLoaded all tree = (t : Memtree) × (tree ≡ some t) × (contents t ≡ all) × IsTree t

pub replace_record-IsLoaded :
    (slack : Slack) (tree : Option Memtree) (all : List Entry) (key val : List ℕ) (deleted : Bool)
    → IsReadable slack
    → IsLoaded all tree
    → IsLoaded (put (record_new key val deleted) all) (replace_record slack tree key val deleted)
unfolding replace_record
replace_record-IsLoaded slack tree all key val deleted readable (t, is, same, ordered) =
    let (t', ran, same', ordered') =
      readable-Holds slack t (record_new key val deleted) readable ordered in
    (t', rw (is, ran), same' ∙ ap (put (record_new key val deleted)) same, ordered')
