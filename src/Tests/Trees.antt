-- ===== src/Tests/Trees.antt =====
-- A tree of one full leaf, which an insertion splits, and a session with the tree.
use zeroskip.Prelude.{
  ℕ, zero, suc, ◌≡◌, ◌⊎◌, refl, inr, true, false, Option, none, some, List, [], ◌∷◌, replicate,
  arith,
}
use zeroskip.Word.{little}
use zeroskip.MFile.{calm, mapped, stat_found}
use zeroskip.File.{Code, zs_ok}
use zeroskip.File.Writes.{contents}
use zeroskip.Record.{returned, record_foreach}
use zeroskip.Search.Order.{memcmp_raw}
use zeroskip.Memtree.{
  node_split, node_insert, insert_at, Entry, Memtree, Iter, Leaf, Status, memtree_duplicate,
}
use zeroskip.Memtree.Find.{
  Slack, memtree_new, memtree_find, memtree_insert, memtree_replace, memtree_walk_forward,
  foreach_rec, record_at,
}
use zeroskip.Memtree.Sorted.{Sorted, put, put-Sorted, lookup}
use zeroskip.Memtree.Lookup.{IsTree, IsReadable, LastRead, Faults, memtree_find-lookup}
use zeroskip.Memtree.Replace.{Holds, memtree_replace-put, memtree_insert-put}
use zeroskip.Memtree.Lookup
use zeroskip.Memtree.Walk.{memtree_walk_forward-foreach}
use zeroskip.Memtree.Load.{replace_record, load_memtree_record_cb, load_deleted_memtree_record_cb}
use zeroskip.Active.{Priv}
use zeroskip.Active.Session.{run_ops, IsReady}
use zeroskip.Active.Reopen.{Reflects, run_ops-reopen}
use zeroskip.Tests.{a_val, a_sum, no_key, no_val, empty_mf}
use zeroskip.Tests.Sessions.{no_update, some_ops}

abbrev pub an_entry : ℕ → Entry
an_entry n = record { key = n ∷ []; val = a_val; deleted = false }

abbrev pub several : ℕ → List Entry
several zero = []
several (suc n) = put (an_entry n) (several n)

pub several-Sorted : (n : ℕ) → Sorted (several n)
several-Sorted zero = tt
several-Sorted (suc n) = put-Sorted (an_entry n) (several n) (several-Sorted n)

abbrev pub full_leaf : Memtree
full_leaf = record { depth = 0; node = several 10; count = 10 }

pub full_leaf-IsTree : IsTree full_leaf
full_leaf-IsTree = record {
  shaped = (omega arith, omega arith);
  sorted = several-Sorted 10;
  counted = refl;
}

-- A machine on which what is behind a leaf is NULL, and one on which it is not mapped.
abbrev pub a_slack : Slack
a_slack = record { unused = λ leaf pos. none; behind = λ leaf. some none }

abbrev guarded : Slack
guarded = record { unused = λ leaf pos. none; behind = λ leaf. none }

pub a_slack-IsReadable : IsReadable a_slack
a_slack-IsReadable leaf = (none, refl)

memtree_find-lookup_example :
    ((iter : Iter) × (leaf : Leaf) × (e : Entry) × (memtree_find guarded full_leaf (12 ∷ [])
        ≡ some (some iter, leaf, some e))
      × (record_at (some iter) ≡ some e)
      × (lookup (12 ∷ []) (Lookup.contents full_leaf) ≡ some e))
    ⊎ (((leaf : Leaf) × (rec : Option Entry) × (memtree_find guarded full_leaf (12 ∷ [])
            ≡ some (none, leaf, rec))
          × LastRead guarded leaf rec
          × (lookup (12 ∷ []) (Lookup.contents full_leaf) ≡ none))
        ⊎ Faults guarded full_leaf (12 ∷ []))
memtree_find-lookup_example = memtree_find-lookup guarded full_leaf (12 ∷ []) full_leaf-IsTree

memtree_replace-put_example :
    Holds
      (put (an_entry 12) (Lookup.contents full_leaf))
      (memtree_replace a_slack full_leaf (an_entry 12))
    ⊎ (Faults a_slack full_leaf (12 ∷ [])
        × (memtree_replace a_slack full_leaf (an_entry 12) ≡ none))
memtree_replace-put_example = memtree_replace-put a_slack full_leaf (an_entry 12) full_leaf-IsTree

memtree_insert-put_example :
    ((e : Entry) × (lookup (3 ∷ []) (Lookup.contents full_leaf) ≡ some e)
      × (memtree_insert a_slack full_leaf (an_entry 3) ≡ some (memtree_duplicate, full_leaf)))
    ⊎ (((lookup (3 ∷ []) (Lookup.contents full_leaf) ≡ none)
          × Holds
              (put (an_entry 3) (Lookup.contents full_leaf))
              (memtree_insert a_slack full_leaf (an_entry 3)))
        ⊎ (Faults a_slack full_leaf (3 ∷ [])
            × (memtree_insert a_slack full_leaf (an_entry 3) ≡ none)))
memtree_insert-put_example = memtree_insert-put a_slack full_leaf (an_entry 3) full_leaf-IsTree

-- A key that is greater than those of the full leaf leads to the read behind it.
fault_behind : memtree_find guarded full_leaf (12 ∷ []) ≡ none
unfolding memtree_find memcmp_raw
fault_behind = refl

-- The leaf is split into two of five records.
split_tree :
    memtree_replace a_slack full_leaf (an_entry 12)
    ≡ some (
      Status.memtree_ok,
      record {
        depth = 1;
        node = (
          an_entry 5 ∷ [],
          several 5 ∷ (an_entry 6 ∷ an_entry 7 ∷ an_entry 8 ∷ an_entry 9 ∷ an_entry 12 ∷ []) ∷ [],
        );
        count = 11;
      },
    )
unfolding memtree_replace memcmp_raw node_split node_insert insert_at
split_tree = refl

abbrev pub no_load : Priv (Option Memtree) → Code × Priv (Option Memtree)
no_load p = (zs_ok, p)

abbrev pub tree_priv : Priv (Option Memtree)
tree_priv = record {
  is_open = true;
  write_locked = true;
  factive = record {
    is_open = true;
    mf = record empty_mf { ptr = mapped (replicate 40 0); size = 40; offset = 40 };
  };
  factive_dirty = false;
  dbdirty = false;
  memtree = some memtree_new;
  curidx = 0;
  offset = 40;
}

pub tree_priv-IsReady : IsReady a_sum tree_priv
tree_priv-IsReady = record {
  opened = refl;
  locked = refl;
  writable = record {
    opened = refl;
    appending = record {
      well = record { sized = refl; placed = omega arith };
      usable = λ e. cc e;
      writable = refl;
      at_end = refl;
    };
  };
  tracks = inr (refl, refl, refl);
}

run_ops-reopen_example :
    (p' : Priv (Option Memtree)) × (tree : Option Memtree) × (run_ops little a_sum
        (replace_record a_slack)
        no_load
        no_load
        no_load
        no_update
        some_ops
        tree_priv
      ≡ some (zs_ok, p'))
    × Reflects some_ops p'.memtree
    × (record_foreach little a_sum no_key no_val
          (some (load_memtree_record_cb a_slack))
          (some (load_deleted_memtree_record_cb a_slack))
          5
          calm
          (stat_found (contents p'.factive))
          p'.factive
          (some memtree_new)
        ≡ returned (zs_ok, tree))
    × Reflects some_ops tree
run_ops-reopen_example =
    run_ops-reopen little a_sum no_load no_load no_load no_update a_slack some_ops tree_priv no_key
      no_val 5 calm a_slack-IsReadable tree_priv-IsReady
      (omega arith, (tt, ((omega arith, omega arith), (tt, tt)))) refl refl (omega arith)
      (omega arith)

-- The keys that a walk over the leaf sees, the last one first.
abbrev pub collect : Entry → List (List ℕ) → List (List ℕ)
collect rec seen = rec.key ∷ seen

memtree_walk_forward-foreach_example :
    memtree_walk_forward collect full_leaf []
    ≡ some (foreach_rec collect (Lookup.contents full_leaf) [])
memtree_walk_forward-foreach_example =
    memtree_walk_forward-foreach collect full_leaf [] full_leaf-IsTree
