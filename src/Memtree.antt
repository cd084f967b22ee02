-- ===== src/Memtree.antt =====
-- The tree in memory (src/memtree.c, include/libzeroskip/memtree.h): a B-tree of records. A node's
-- `depth` is the index of its type, its `count` the length of its records; its `parent` and `pos`
-- are its place: an iterator has the nodes above its own, each with the place of the branch.
pub mod Find
pub mod Lists
pub mod Inorder
pub mod Split
pub mod Insert
pub mod Sorted
pub mod Reach
pub mod Lookup
pub mod Replace
pub mod Load
pub mod Walk
pub mod Locate
pub mod Cursor
pub mod Settles
pub mod Ranges
pub mod Onward
use zeroskip.Prelude.{
  ℕ, zero, suc, ◌+◌, ◌-◌, Bool, true, false, Option, none, some, List, [], ◌∷◌, length, get_elem?,
  set, take, drop, ltb, leb, if◌then◌else◌, ◌>>=◌,
}

abbrev pub memtree_max_elements : ℕ
memtree_max_elements = 10

abbrev pub memtree_min_elements : ℕ
memtree_min_elements = 5

pub data Status : Type 0 where
  memtree_ok : Status
  memtree_error : Status
  memtree_invalid : Status
  memtree_duplicate : Status
  memtree_not_found : Status

pub record Entry : Type 0 where
  pub key : List ℕ
  pub val : List ℕ
  pub deleted : Bool

abbrev pub Node : ℕ → Type 0
Node zero = List Entry
Node (suc d) = List Entry × List (Node d)

abbrev pub recs : (d : ℕ) → Node d → List Entry
recs zero node = node
recs (suc d) node = node.0

-- A branch that goes with a record, to its right: NULL in a leaf.
abbrev pub Branch : ℕ → Type 0
Branch zero = Unit {0}
Branch (suc d) = Node d

-- The nodes above a node of depth `d`.
pub data Above : ℕ → Type 0 where
  root : (d : ℕ) → Above d
  parent : (d : ℕ) → List Entry → List (Node d) → ℕ → Above (suc d) → Above d

pub record Memtree : Type 0 where
  pub depth : ℕ
  pub node : Node depth
  pub count : ℕ

-- A place in a node.
pub record Iter : Type 0 where
  pub depth : ℕ
  pub node : Node depth
  pub pos : ℕ
  pub above : Above depth

-- The tree again, from a node that has changed.
unfoldable pub plug : (d : ℕ) → Node d → Above d → (r : ℕ) × Node r
plug d node (root _) = (d, node)
plug d node (parent _ rs bs pos above) = plug (suc d) (rs, set bs pos node) above

-- `for (i = count; i-- > pos;) xs[i + 1] = xs[i]; xs[pos] = x`
unfoldable pub insert_at {ℓ} : {A : Type ℓ} → ℕ → A → List A → Option (List A)
insert_at zero x ys = some (x ∷ ys)
insert_at (suc n) x [] = none
insert_at (suc n) x (y ∷ ys) = do zs ← insert_at n x ys; some (y ∷ zs)

unfoldable pub node_insert : (d : ℕ) → Branch d → Node d → Entry → ℕ → Option (Node d)
node_insert zero branch node rec pos = insert_at pos rec node
node_insert (suc d) branch (rs, bs) rec pos = do
  rs' ← insert_at pos rec rs
  bs' ← insert_at (pos + 1) branch bs
  some (rs', bs')

-- The records from `split` on, and the branches. Branch 0 is filled after the insertion; until then
-- it is one that nothing reads.
pub upper : (d : ℕ) → ℕ → Node d → Node d
upper zero split node = drop split node
upper (suc d) split (rs, bs) = (drop split rs, drop split bs)

pub lower : (d : ℕ) → ℕ → Node d → Node d
lower zero split node = take split node
lower (suc d) split (rs, bs) = (take split rs, take (split + 1) bs)

-- The left node's last record is the median, and its last branch the right node's first.
pub give_median : (d : ℕ) → Node d → Node d → Option (Node d × Entry × Node d)
give_median zero left right = do
  rec ← get_elem? left (length left - 1)
  some (take (length left - 1) left, rec, right)
give_median (suc d) (rs, bs) (rs', bs') = do
  first ← get_elem? bs (length rs)
  rec ← get_elem? rs (length rs - 1)
  some ((take (length rs - 1) rs, take (length rs) bs), rec, (rs', set bs' 0 first))

-- The left node, the median, and the right node.
unfoldable pub node_split :
    (d : ℕ) → Branch d → Node d → Entry → ℕ → Option (Node d × Entry × Node d)
unfolding upper lower give_median
node_split d branch node rec pos =
    let split = memtree_min_elements + 1 in
    if leb pos memtree_min_elements
    then (do
      left ← node_insert d branch (lower d memtree_min_elements node) rec pos
      give_median d left (upper d memtree_min_elements node))
    else (do
      right ← node_insert d branch (upper d split node) rec (pos - split)
      give_median d (lower d split node) right)

-- An iterator at a leaf.
abbrev pub Leaf : Type 0
Leaf = List Entry × ℕ × Above 0

-- `branch_end` until a leaf: the end of a node's last branch.
unfoldable pub end_of : (d : ℕ) → Node d → Above d → Option Leaf
end_of zero node above = some (node, length node, above)
end_of (suc d) (rs, bs) above = elim (get_elem? bs (length rs)) [
  | none ↦ none
  | some node ↦ end_of d node (parent d rs bs (length rs) above)
]

unfoldable pub branch_end : (d : ℕ) → Node d → ℕ → Above d → Option Leaf
unfolding end_of
branch_end zero node pos above = some (node, pos, above)
branch_end (suc d) (rs, bs) pos above = do
  node ← get_elem? bs pos
  end_of d node (parent d rs bs pos above)

-- A new root above the two halves of the old one.
abbrev pub new_root : (d : ℕ) → Node d → Entry → Node d → (r : ℕ) × Node r
new_root d left rec right = (suc d, (rec ∷ [], left ∷ right ∷ []))

-- The insertion in a node and, as long as a node is split, in the one above it.
unfoldable pub insert_up :
    (d : ℕ) → Branch d → Node d → Entry → ℕ → Above d → Option ((r : ℕ) × Node r)
unfolding plug
insert_up d branch node rec pos (root _) =
    if ltb (length (recs d node)) memtree_max_elements
    then (do node' ← node_insert d branch node rec pos; some (d, node'))
    else (do
      (left, median, right) ← node_split d branch node rec pos
      some (new_root d left median right))
insert_up d branch node rec pos (parent _ rs bs place above) =
    elim (ltb (length (recs d node)) memtree_max_elements) [
      | true ↦ do
        node' ← node_insert d branch node rec pos
        some (plug d node' (parent d rs bs place above))
      | false ↦ elim (node_split d branch node rec pos) [
        | none ↦ none
        | some (left, median, right) ↦
            insert_up (suc d) right (rs, set bs place left) median place above
      ]
    ]

unfoldable pub memtree_insert_at : Memtree → Iter → Entry → Option Memtree
unfolding branch_end insert_up
memtree_insert_at tree iter rec = do
  (leaf, pos, above) ← branch_end iter.depth iter.node iter.pos iter.above
  (depth, node) ← insert_up 0 tt leaf rec pos above
  some (record { depth = depth; node = node; count = tree.count + 1 })
