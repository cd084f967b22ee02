-- ===== src/Memtree/Onward.antt =====
-- The records that an iterator meets behind a search (memtree_find and memtree_next).
use zeroskip.Prelude.{
  ℕ, ◌<◌, ◌≡◌, inl, inr, ap, ◌∙◌, Option, none, some, List, ◌++◌, append-nil, arith, length,
  length-append,
}
use zeroskip.Record.{returned}
use zeroskip.Memtree.{Entry, Memtree, Leaf}
use zeroskip.Memtree.Find.{Slack, memtree_find}
use zeroskip.Memtree.Inorder.{All}
use zeroskip.Memtree.Sorted.{Under, Over, lookup}
use zeroskip.Memtree.Lookup.{
  contents, IsTree, IsReadable, LastRead, search-Ends, lookup-Found, no_fault,
}
use zeroskip.Memtree.Cursor.{leaf_iter, each_next}
use zeroskip.Memtree.Settles.{onward}
use zeroskip.Memtree.Ranges.{somes, each-onward}

-- Looking in a tree in order for a key that it does not have, where what is behind a full leaf can be
-- read, and then calling memtree_next until it returns 0: the records that are met are those with
-- greater keys, in order, whatever `iter->record` is after the search, and the loop ends, with one
-- round of fuel more than records.
pub memtree_find-each_next :
    (slack : Slack) (tree : Memtree) (key : List ℕ) (fuel : ℕ)
    → IsReadable slack
    → IsTree tree
    → lookup key (contents tree) ≡ none
    → length (contents tree) < fuel
    → (leaf : Leaf) × (rec : Option Entry) × (less : List Entry) × (more : List Entry)
      × (memtree_find slack tree key ≡ some (none, leaf, rec))
      × LastRead slack leaf rec
      × (contents tree ≡ less ++ more)
      × All (Under key) less
      × All (Over key) more
      × (each_next fuel (record { at = leaf_iter leaf; rec = rec }) ≡ returned (somes more))
memtree_find-each_next slack tree key fuel readable t absent enough =
    elim (search-Ends slack tree key t) [
      | inl (iter, leaf, f, ran) ↦ cc (lookup-Found slack tree key iter f t, absent)
      | inr (inr faults) ↦ absurd (no_fault slack tree key readable faults)
      | inr (inl (leaf, rec, ran, from, m)) ↦
          let rest : onward (leaf_iter leaf) ≡ m.more = m.rear ∙ append-nil m.more in
          let size = ap (length {A = Entry}) m.content in
          (
            leaf,
            rec,
            m.less,
            m.more,
            ran,
            from,
            m.content,
            m.under,
            m.over,
            each-onward fuel (record { at = leaf_iter leaf; rec = rec }) m.more
                (record { shape = m.shape; shapes = m.shapes; inside = m.inside }) rest
                (omega (arith, enough, size, length-append m.less m.more)),
          )
    ]
