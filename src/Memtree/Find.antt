-- ===== src/Memtree/Find.antt =====
-- Finding a record in the tree, inserting or replacing one, and walking over all (memtree_find,
-- memtree_insert_opt and memtree_walk_forward of src/memtree.c).
use zeroskip.Prelude.{
  ℕ, zero, suc, Bool, true, false, Option, none, some, List, [], ◌∷◌, length, get_elem?, set,
  if◌then◌else◌, ◌>>=◌, ltb,
}
use zeroskip.Record.{Run, returned, fault, out_of_fuel}
use zeroskip.Search.{memtree_memcmp_raw}
use zeroskip.Memtree.{
  Status, memtree_ok, memtree_duplicate, Entry, Node, recs, Above, root, parent, Memtree, Iter,
  Leaf, plug, memtree_insert_at, memtree_max_elements,
}

unfoldable pub keys : List Entry → List (List ℕ)
keys [] = []
keys (r ∷ rs) = r.key ∷ keys rs

abbrev pub finished : {A : Type 0} → Run A → Option A
finished (returned r) = some r
finished fault = none
finished out_of_fuel = none

-- The search that a node's keys are given to, with fuel for all of them.
unfoldable pub search_node : List ℕ → List Entry → Option (ℕ × Bool)
unfolding memtree_memcmp_raw keys
search_node key rs = finished (memtree_memcmp_raw key (keys rs) (suc (length rs)) (length rs) false)

-- The loop of memtree_find, down to a leaf; `found` is where `iter->record` stands.
unfoldable pub find_loop :
    List ℕ → (d : ℕ) → Node d → Above d → Option Iter → Option (Option Iter × Leaf)
unfolding search_node
find_loop key zero node above found = do
  (pos, f) ← search_node key node
  let here : Iter = record { depth = 0; node = node; pos = pos; above = above }
  some (if f then some here else found, (node, pos, above))
find_loop key (suc d) (rs, bs) above found = elim (search_node key rs) [
  | none ↦ none
  | some (pos, f) ↦
      let here : Iter = record { depth = suc d; node = (rs, bs); pos = pos; above = above } in
      elim (get_elem? bs pos) [
        | none ↦ none
        | some node ↦
            find_loop key d node (parent d rs bs pos above) (if f then some here else found)
      ]
]

-- The record at the place where a search has found the key.
abbrev pub record_at : Option Iter → Option Entry
record_at none = none
record_at (some iter) = get_elem? (recs iter.depth iter.node) iter.pos

-- What is read where `recs` of a leaf has no record: in the array, the pointer that was left at the
-- place; behind the array, which is the end of the leaf's block, what stands there, or a fault.
pub record Slack : Type 0 where
  pub unused : List Entry → ℕ → Option Entry
  pub behind : List Entry → Option (Option Entry)

-- `iter->record` after the loop: that of the record that was found, or else `recs[pos]` of the leaf.
abbrev pub last_record : Slack → Option Iter → Leaf → Option (Option Entry)
last_record slack (some iter) leaf = some (record_at (some iter))
last_record slack none (node, pos, above) =
    if ltb pos (length node)
    then some (get_elem? node pos)
    else if ltb pos memtree_max_elements
    then some (slack.unused node pos)
    else slack.behind node

abbrev pub with_last : Slack → Option Iter × Leaf → Option (Option Iter × Leaf × Option Entry)
with_last slack (found, leaf) = do rec ← last_record slack found leaf; some (found, leaf, rec)

-- The place of the record with the key, if there is one, the place in a leaf, and `iter->record`.
unfoldable pub memtree_find : Slack → Memtree → List ℕ → Option (Option Iter × Leaf × Option Entry)
unfolding find_loop
memtree_find slack tree key =
    find_loop key tree.depth tree.node (root tree.depth) none >>= with_last slack

-- `rec->val = …; rec->vallen = …; rec->deleted = …`
abbrev pub overwrite : Entry → Entry → Entry
overwrite old rec = record old { val = rec.val; deleted = rec.deleted }

unfoldable pub set_rec : (d : ℕ) → Node d → ℕ → Entry → Node d
set_rec zero node pos rec = set node pos rec
set_rec (suc d) (rs, bs) pos rec = (set rs pos rec, bs)

unfoldable pub memtree_insert_opt : Slack → Memtree → Entry → Bool → Option (Status × Memtree)
unfolding memtree_find memtree_insert_at set_rec plug
memtree_insert_opt slack tree rec replace = do
  (place, leaf, last) ← memtree_find slack tree rec.key
  elim place [
    | some iter ↦
        if replace
        then (do
          old ← get_elem? (recs iter.depth iter.node) iter.pos
          let (depth, node) =
              plug iter.depth (set_rec iter.depth iter.node iter.pos (overwrite old rec)) iter.above
          some (memtree_ok, record tree { depth = depth; node = node }))
        else some (memtree_duplicate, tree)
    | none ↦ (do
      let at : Iter = record { depth = 0; node = leaf.0; pos = leaf.1; above = leaf.2 }
      tree' ← memtree_insert_at tree at rec
      some (memtree_ok, tree'))
  ]

unfoldable pub memtree_replace : Slack → Memtree → Entry → Option (Status × Memtree)
unfolding memtree_insert_opt
memtree_replace slack tree rec = memtree_insert_opt slack tree rec true

unfoldable pub memtree_insert : Slack → Memtree → Entry → Option (Status × Memtree)
unfolding memtree_insert_opt
memtree_insert slack tree rec = memtree_insert_opt slack tree rec false

abbrev pub memtree_new : Memtree
memtree_new = record { depth = 0; node = []; count = 0 }

-- The walk calls `action` on each record; what it returns is not looked at.
module _ {S : Type 0} (action : Entry → S → S) where
  abbrev pub foreach_rec : List Entry → S → S
  foreach_rec [] s = s
  foreach_rec (r ∷ rs) s = foreach_rec rs (action r s)

  -- The loop of node_walk_forward over the branches and the records; `walk` is its own call.
  abbrev pub walk_loop : {A : Type 0} → (A → S → Option S) → List A → List Entry → S → Option S
  walk_loop walk [] rs s = none
  walk_loop walk (b ∷ bs) [] s = walk b s
  walk_loop walk (b ∷ bs) (r ∷ rs) s = do s' ← walk b s; walk_loop walk bs rs (action r s')

  unfoldable pub node_walk_forward : (d : ℕ) → Node d → S → Option S
  node_walk_forward zero node s = some (foreach_rec node s)
  node_walk_forward (suc d) (rs, bs) s = walk_loop (node_walk_forward d) bs rs s

  unfoldable pub memtree_walk_forward : Memtree → S → Option S
  unfolding node_walk_forward
  memtree_walk_forward tree s = node_walk_forward tree.depth tree.node s
