-- ===== src/Memtree/Cursor.antt =====
-- Going through a tree with an iterator (memtree_begin, memtree_deref, memtree_next and
-- memtree_prev of src/memtree.c).
use zeroskip.Prelude.{
  ℕ, zero, suc, ◌+◌, ◌-◌, true, false, Option, none, some, List, [], ◌∷◌, length, get_elem?, ltb,
  ◌==◌, if◌then◌else◌, ◌>>=◌,
}
use zeroskip.Record.{Run, returned, fault, out_of_fuel}
use zeroskip.Memtree.{Entry, Node, recs, Above, root, parent, Memtree, Iter, Leaf, branch_end}

-- An iterator with its `record`.
pub record Cursor : Type 0 where
  pub at : Iter
  pub rec : Option Entry

-- The record at the place of an iterator.
abbrev pub rec_at : Iter → Option Entry
rec_at it = get_elem? (recs it.depth it.node) it.pos

-- `while (depth--) node = node->branches[0]`
unfoldable pub begin_of : (d : ℕ) → Node d → Above d → Option Iter
begin_of zero node above = some (record { depth = 0; node = node; pos = 0; above = above })
begin_of (suc d) (rs, bs) above = do node ← get_elem? bs 0; begin_of d node (parent d rs bs 0 above)

-- Called for a branch only: in a leaf the iterator stays.
unfoldable pub branch_begin : (d : ℕ) → Node d → ℕ → Above d → Option Iter
unfolding begin_of
branch_begin zero node pos above =
    some (record { depth = 0; node = node; pos = pos; above = above })
branch_begin (suc d) (rs, bs) pos above = do
  node ← get_elem? bs pos
  begin_of d node (parent d rs bs pos above)

unfoldable pub memtree_begin : Memtree → Option Entry → Option (ℕ × Cursor)
unfolding branch_begin
memtree_begin tree rec = do
  it ← branch_begin tree.depth tree.node 0 (root tree.depth)
  some (
      if ltb 0 (length (recs it.depth it.node))
      then (1, record { at = it; rec = rec_at it })
      else (0, record { at = it; rec = rec }))

-- `do memtree_ascend while (pos >= count)`; none is the return of 0 at the root.
unfoldable pub ascend_behind : (d : ℕ) → Above d → Option Iter
ascend_behind d (root _) = none
ascend_behind d (parent _ rs bs pos above) =
    let rest = ascend_behind (suc d) above in
    if ltb pos (length rs)
    then some (record { depth = suc d; node = (rs, bs); pos = pos; above = above })
    else rest

-- Where memtree_deref finds the record.
unfoldable pub settle : Iter → Option Iter
unfolding ascend_behind
settle it =
    if ltb it.pos (length (recs it.depth it.node)) then some it else ascend_behind it.depth it.above

unfoldable pub memtree_deref : Cursor → ℕ × Cursor
unfolding settle
memtree_deref c = elim (settle c.at) [
  | none ↦ (0, c)
  | some it ↦ (1, record { at = it; rec = rec_at it })
]

-- Behind the record that was met, if there is one.
abbrev pub past : ℕ × Cursor → Option (ℕ × Cursor)
past (ret, c) = if ret == 0 then some (0, c) else (do
  it ← branch_begin c.at.depth c.at.node (c.at.pos + 1) c.at.above
  some (ret, record c { at = it }))

unfoldable pub memtree_next : Cursor → Option (ℕ × Cursor)
unfolding memtree_deref branch_begin
memtree_next c = past (memtree_deref c)

-- `do memtree_ascend while (pos == 0)`
unfoldable pub ascend_before : (d : ℕ) → Above d → Option Iter
ascend_before d (root _) = none
ascend_before d (parent _ rs bs pos above) =
    let rest = ascend_before (suc d) above in
    if pos == 0
    then rest
    else some (record { depth = suc d; node = (rs, bs); pos = pos; above = above })

abbrev pub leaf_iter : Leaf → Iter
leaf_iter (node, pos, above) = record { depth = 0; node = node; pos = pos; above = above }

-- Where memtree_prev takes the record before.
abbrev pub back : (d : ℕ) → Node d → ℕ → Above d → Option (Option Iter)
back zero node pos above = some (
    if pos == 0
    then ascend_before 0 above
    else some (record { depth = 0; node = node; pos = pos; above = above }))
back (suc d) node pos above = do
  leaf ← branch_end (suc d) node pos above
  some (some (leaf_iter leaf))

unfoldable pub memtree_prev : Cursor → Option (ℕ × Cursor)
unfolding ascend_before
memtree_prev c = do
  place ← back c.at.depth c.at.node c.at.pos c.at.above
  elim place [
    | none ↦ some (0, c)
    | some it ↦
        let it' : Iter = record it { pos = it.pos - 1 } in
        some (1, record { at = it'; rec = rec_at it' })
  ]

-- `while (memtree_next (iter)) …`, with the records that are met.
unfoldable pub each_next : ℕ → Cursor → Run (List (Option Entry))
unfolding memtree_next
each_next zero c = out_of_fuel
each_next (suc fuel) c = elim (memtree_next c) [
  | none ↦ fault
  | some (ret, c') ↦ elim (ret == 0) [
    | true ↦ returned []
    | false ↦ elim (each_next fuel c') [
      | returned rs ↦ returned (c'.rec ∷ rs)
      | fault ↦ fault
      | out_of_fuel ↦ out_of_fuel
    ]
  ]
]
