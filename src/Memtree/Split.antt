-- ===== src/Memtree/Split.antt =====
-- Inserting in a node, and splitting a full one (node_insert, node_split).
use zeroskip.Prelude.{
  ℕ, zero, suc, ◌+◌, ◌-◌, ◌<◌, ◌≤◌, ◌≡◌, refl, ap, ◌∙◌, inl, inr, some, Option, List, ◌∷◌, ◌++◌,
  arith, length, length-take, length-drop, get_elem?, set, take, drop, leb, Bool-cases,
}
use zeroskip.Search.Tables.{get_elem?-in}
use zeroskip.Memtree.{
  Entry, Node, Branch, recs, node_insert, node_split, give_median, upper, lower,
  memtree_max_elements, memtree_min_elements,
}
use zeroskip.Memtree.Lists.{
  inserted, insert_at-inserted, length-inserted, take-inserted_le, take-inserted_ge,
  drop-inserted_le, drop-inserted_ge, take-take, get-take, get-drop, take-get-drop, set-first,
}
use zeroskip.Memtree.Inorder.{records, weave-cut, Shape, All, All-inserted, All-take, All-drop}

-- The node with a record and a branch more than it may have room for.
abbrev pub inserted_node : (d : ℕ) → Branch d → Node d → Entry → ℕ → Node d
inserted_node zero branch node rec pos = inserted pos rec node
inserted_node (suc d) branch (rs, bs) rec pos = (inserted pos rec rs, inserted (suc pos) branch bs)

abbrev pub BranchShape : (d : ℕ) → Branch d → Type 0
BranchShape zero branch = Unit
BranchShape (suc d) branch = Shape memtree_min_elements d branch

pub node_insert-inserted :
    (low d : ℕ) (branch : Branch d) (node : Node d) (rec : Entry) (pos : ℕ)
    → Shape low d node
    → pos ≤ length (recs d node)
    → node_insert d branch node rec pos ≡ some (inserted_node d branch node rec pos)
unfolding node_insert
node_insert-inserted low zero branch node rec pos shape inside =
    insert_at-inserted pos rec node inside
node_insert-inserted low (suc d) branch (rs, bs) rec pos shape inside =
    let e : pos + 1 ≡ suc pos = omega arith in
    rw (
      e,
      insert_at-inserted pos rec rs inside,
      insert_at-inserted (suc pos) branch bs (omega (arith, shape.2, inside)),
    )

pub inserted_node-Shape :
    (low d : ℕ) (branch : Branch d) (node : Node d) (rec : Entry) (pos : ℕ)
    → Shape low d node
    → BranchShape d branch
    → length (recs d node) < memtree_max_elements
    → Shape low d (inserted_node d branch node rec pos)
inserted_node-Shape low zero branch node rec pos shape b room =
    let e = length-inserted pos rec node in (omega (arith, e, shape.0), omega (arith, e, room))
inserted_node-Shape low (suc d) branch (rs, bs) rec pos shape b room =
    let e = length-inserted pos rec rs in
    let e' = length-inserted (suc pos) branch bs in
    (
      omega (arith, e, shape.0),
      omega (arith, e, room),
      omega (arith, e, e', shape.2),
      All-inserted (Shape memtree_min_elements d) (suc pos) bs branch shape.3 b,
    )

-- The outcome of a split: the two nodes and the median hold what the node with the record would.
abbrev pub Halves : (d : ℕ) → Node d → Option (Node d × Entry × Node d) → Type 0
Halves d node split =
    (l : Node d) × (m : Entry) × (r : Node d) × (split ≡ some (l, m, r))
    × (records d node ≡ records d l ++ m ∷ records d r)
    × Shape memtree_min_elements d l
    × Shape memtree_min_elements d r

cut_leaf : (ms : List Entry) → length ms ≡ 11 → Halves 0 ms (give_median 0 (take 6 ms) (drop 6 ms))
unfolding give_median
cut_leaf ms size =
    let (m, at) = get_elem?-in ms 5 (omega (arith, size)) in
    let six : length (take 6 ms) ≡ 6 = omega (arith, length-take 6 ms, size) in
    (
      take 5 ms,
      m,
      drop 6 ms,
      rw (six, get-take 5 6 ms (omega arith), at, take-take 5 6 ms (omega arith)),
      take-get-drop 5 ms m at,
      (omega (arith, length-take 5 ms, size), omega (arith, length-take 5 ms, size)),
      (omega (arith, length-drop 6 ms, size), omega (arith, length-drop 6 ms, size)),
    )

cut_internal :
    (d : ℕ) (ms : List Entry) (cs bs' : List (Node d)) (c : Node d)
    → length ms ≡ 11
    → length cs ≡ 12
    → All (Shape memtree_min_elements d) cs
    → get_elem? cs 6 ≡ some c
    → set bs' 0 c ≡ drop 6 cs
    → Halves (suc d) (ms, cs) (give_median (suc d) (take 6 ms, take 7 cs) (drop 6 ms, bs'))
unfolding give_median
cut_internal d ms cs bs' c size size' all first filled =
    let (m, at) = get_elem?-in ms 5 (omega (arith, size)) in
    let six : length (take 6 ms) ≡ 6 = omega (arith, length-take 6 ms, size) in
    (
      (take 5 ms, take 6 cs),
      m,
      (drop 6 ms, drop 6 cs),
      rw (
        six,
        get-take 6 7 cs (omega arith),
        first,
        get-take 5 6 ms (omega arith),
        at,
        take-take 5 6 ms (omega arith),
        take-take 6 7 cs (omega arith),
        filled,
      ),
      weave-cut (records d) 5 m cs ms (omega (arith, size, size')) at,
      (
        omega (arith, length-take 5 ms, size),
        omega (arith, length-take 5 ms, size),
        omega (arith, length-take 5 ms, length-take 6 cs, size, size'),
        All-take (Shape memtree_min_elements d) 6 cs all,
      ),
      (
        omega (arith, length-drop 6 ms, size),
        omega (arith, length-drop 6 ms, size),
        omega (arith, length-drop 6 ms, length-drop 6 cs, size, size'),
        All-drop (Shape memtree_min_elements d) 6 cs all,
      ),
    )

-- Splitting a full node.
pub node_split-Halves :
    (low d : ℕ) (branch : Branch d) (node : Node d) (rec : Entry) (pos : ℕ)
    → Shape low d node
    → BranchShape d branch
    → length (recs d node) ≡ memtree_max_elements
    → pos ≤ length (recs d node)
    → Halves d (inserted_node d branch node rec pos) (node_split d branch node rec pos)
unfolding node_split lower upper node_insert
node_split-Halves low zero branch rs rec pos shape b full inside =
    let ms = inserted pos rec rs in
    let size : length ms ≡ 11 = omega (arith, length-inserted pos rec rs, full) in
    elim (Bool-cases (leb pos memtree_min_elements)) [
      | inl early ↦
          let h : pos ≤ 5 = ground (arith, early) in
          let five : length (take 5 rs) ≡ 5 = omega (arith, length-take 5 rs, full) in
          rw
            (
              early,
              insert_at-inserted pos rec (take 5 rs) (omega (arith, h, five)),
              take-inserted_le pos 5 rec rs h,
              drop-inserted_le pos 5 rec rs h (omega (arith, full)),
            )
            (cut_leaf ms size)
      | inr late ↦
          let h : 6 ≤ pos = ground (arith, late) in
          let four : length (drop 6 rs) ≡ 4 = omega (arith, length-drop 6 rs, full) in
          let back : 6 + (pos - 6) ≡ pos = omega (arith, h) in
          rw
            (
              late,
              insert_at-inserted (pos - 6) rec (drop 6 rs) (omega (arith, four, inside, full)),
              take-inserted_ge pos 6 rec rs h (omega (arith, full)),
              drop-inserted_ge (pos - 6) 6 rec rs (omega (arith, full)),
              back,
            )
            (cut_leaf ms size)
    ]
node_split-Halves low (suc d) branch (rs, bs) rec pos shape b full inside =
    let ms = inserted pos rec rs in
    let cs = inserted (suc pos) branch bs in
    let size : length ms ≡ 11 = omega (arith, length-inserted pos rec rs, full) in
    let eleven : length bs ≡ 11 = omega (arith, shape.2, full) in
    let size' : length cs ≡ 12 = omega (arith, length-inserted (suc pos) branch bs, eleven) in
    let all = All-inserted (Shape memtree_min_elements d) (suc pos) bs branch shape.3 b in
    let (c, at) = get_elem?-in cs 6 (omega (arith, size')) in
    let filled =
      λ (ys : List (Node d)) (i : ℕ) (e : drop (suc i) ys ≡ drop 7 cs) (h : i < length ys).
        set-first i ys c h ∙ ap (◌∷◌ c) e ∙ get-drop 6 cs c at in
    elim (Bool-cases (leb pos memtree_min_elements)) [
      | inl early ↦
          let h : pos ≤ 5 = ground (arith, early) in
          let five : length (take 5 rs) ≡ 5 = omega (arith, length-take 5 rs, full) in
          let six : length (take 6 bs) ≡ 6 = omega (arith, length-take 6 bs, eleven) in
          let next : pos + 1 ≡ suc pos = omega arith in
          let behind : drop 6 bs ≡ drop 7 cs =
            drop-inserted_le (suc pos) 6 branch bs (omega (arith, h)) (omega (arith, eleven)) in
          rw
            (
              early,
              insert_at-inserted pos rec (take 5 rs) (omega (arith, h, five)),
              next,
              insert_at-inserted (suc pos) branch (take 6 bs) (omega (arith, h, six)),
              take-inserted_le pos 5 rec rs h,
              drop-inserted_le pos 5 rec rs h (omega (arith, full)),
              take-inserted_le (suc pos) 6 branch bs (omega (arith, h)),
            )
            (cut_internal d ms cs (drop 5 bs) c size size' all at
              (filled bs 5 behind (omega (arith, eleven))))
      | inr late ↦
          let h : 6 ≤ pos = ground (arith, late) in
          let four : length (drop 6 rs) ≡ 4 = omega (arith, length-drop 6 rs, full) in
          let five : length (drop 6 bs) ≡ 5 = omega (arith, length-drop 6 bs, eleven) in
          let back : 6 + (pos - 6) ≡ pos = omega (arith, h) in
          let back' : 6 + (pos - 6 + 1) ≡ suc pos = omega (arith, h) in
          rw
            (
              late,
              insert_at-inserted (pos - 6) rec (drop 6 rs) (omega (arith, four, inside, full)),
              insert_at-inserted (pos - 6 + 1) branch (drop 6 bs)
                  (omega (arith, five, inside, full)),
              take-inserted_ge pos 6 rec rs h (omega (arith, full)),
              take-inserted_ge (suc pos) 7 branch bs (omega (arith, h)) (omega (arith, eleven)),
              drop-inserted_ge (pos - 6) 6 rec rs (omega (arith, full)),
              back,
              drop-inserted_ge (pos - 6 + 1) 6 branch bs (omega (arith, eleven)),
              back',
            )
            (cut_internal d ms cs (drop 6 cs) c size size' all at
              (filled cs 6 refl (omega (arith, size'))))
    ]
