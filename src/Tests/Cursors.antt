-- ===== src/Tests/Cursors.antt =====
-- Going through a tree of two leaves.
use zeroskip.Prelude.{ℕ, ◌≡◌, refl, Option, none, some, List, [], ◌∷◌, ◌++◌, arith, ◌>>=◌}
use zeroskip.Record.{returned}
use zeroskip.Memtree.{Entry, Memtree, Leaf, root, parent, branch_end, end_of}
use zeroskip.Memtree.Find.{memtree_find}
use zeroskip.Memtree.Inorder.{All}
use zeroskip.Memtree.Sorted.{Under, Over, put-Sorted}
use zeroskip.Memtree.Lookup
use zeroskip.Memtree.Lookup.{IsTree, LastRead}
use zeroskip.Memtree.Cursor.{
  Cursor, leaf_iter, each_next, memtree_begin, memtree_prev, ascend_before,
}
use zeroskip.Memtree.Ranges.{somes, memtree_begin-each_next}
use zeroskip.Memtree.Onward.{memtree_find-each_next}
use zeroskip.Tests.Trees.{a_slack, a_slack-IsReadable, an_entry, several, several-Sorted}

abbrev two_leaves : Memtree
two_leaves = record {
  depth = 1;
  node = (
    an_entry 5 ∷ [],
    several 5 ∷ (an_entry 6 ∷ an_entry 7 ∷ an_entry 8 ∷ an_entry 9 ∷ an_entry 12 ∷ []) ∷ [],
  );
  count = 11;
}

two_leaves-IsTree : IsTree two_leaves
two_leaves-IsTree = record {
  shaped = (
    omega arith,
    omega arith,
    refl,
    ((omega arith, omega arith), ((omega arith, omega arith), tt)),
  );
  sorted = put-Sorted (an_entry 12) (several 10) (several-Sorted 10);
  counted = refl;
}

memtree_begin-each_next_example :
    (ret : ℕ) × (c : Cursor) × (memtree_begin two_leaves none ≡ some (ret, c))
    × (each_next 12 c ≡ returned (somes (Lookup.contents two_leaves)))
memtree_begin-each_next_example =
    memtree_begin-each_next two_leaves none 12 two_leaves-IsTree (omega arith)

memtree_find-each_next_example :
    (leaf : Leaf) × (rec : Option Entry) × (less : List Entry) × (more : List Entry) × (memtree_find
        a_slack two_leaves
        (5 ∷ 1 ∷ [])
      ≡ some (none, leaf, rec))
    × LastRead a_slack leaf rec
    × (Lookup.contents two_leaves ≡ less ++ more)
    × All (Under (5 ∷ 1 ∷ [])) less
    × All (Over (5 ∷ 1 ∷ [])) more
    × (each_next 12 (record { at = leaf_iter leaf; rec = rec }) ≡ returned (somes more))
memtree_find-each_next_example =
    memtree_find-each_next a_slack two_leaves (5 ∷ 1 ∷ []) 12 a_slack-IsReadable two_leaves-IsTree
      refl (omega arith)

-- The record between the leaves, and the last of the first leaf.
abbrev back_from_second : Cursor → Option (ℕ × Option Entry)
back_from_second c = memtree_prev c >>= λ r. memtree_prev r.1 >>= λ s. some (s.0, s.1.rec)

abbrev second_leaf : Cursor
second_leaf = record {
  at = record {
    depth = 0;
    node = an_entry 6 ∷ an_entry 7 ∷ an_entry 8 ∷ an_entry 9 ∷ an_entry 12 ∷ [];
    pos = 0;
    above = parent 0 (an_entry 5 ∷ []) two_leaves.node.1 1 (root 1);
  };
  rec = none;
}

prev_prev : back_from_second second_leaf ≡ some (1, some (an_entry 4))
unfolding memtree_prev ascend_before branch_end end_of
prev_prev = refl
