-- ===== src/Memtree/Lookup.antt =====
-- Looking for a key in a tree that is in order (memtree_find).
use zeroskip.Prelude.{
  ℕ, ◌<◌, ◌≤◌, ◌≡◌, refl, ◌∙◌, ◌⊎◌, inl, inr, true, false, some, none, Option, List, ◌∷◌, ◌++◌,
  arith, length, take, get_elem?, ltb, take_ge, ◌>>=◌,
}
use zeroskip.Memtree.{Entry, root, Iter, Leaf, Memtree, memtree_max_elements}
use zeroskip.Memtree.Find.{Slack, last_record, find_loop, memtree_find, record_at}
use zeroskip.Search.Tables.{get_elem?-in}
use zeroskip.Memtree.Inorder.{All, records, Shape, root_least, before}
use zeroskip.Memtree.Sorted.{
  Under, Over, Sorted, lookup, lookup-Under, lookup-Over, lookup-same, Sorted-Under,
}
use zeroskip.Memtree.Reach.{Found, Missing, Reached, find_loop-Reached}

abbrev pub contents : Memtree → List Entry
contents tree = records tree.depth tree.node

-- The invariant of a tree: the shape of its nodes, ascending keys, and the count of its records.
pub record IsTree (tree : Memtree) : Type 0 where
  pub shaped : Shape (root_least tree.depth) tree.depth tree.node
  pub sorted : Sorted (contents tree)
  pub counted : tree.count ≡ length (contents tree)

pub reached :
    (tree : Memtree) (key : List ℕ)
    → IsTree tree
    → Reached key tree.depth tree.node
        (root tree.depth)
        none
        (find_loop key tree.depth tree.node (root tree.depth) none)
reached tree key t =
    find_loop-Reached key tree.depth tree.node (root tree.depth) none t.sorted t.shaped tt

-- Where `iter->record` comes from after a miss: a record of the leaf, a place of it that is not
-- used, or, if the leaf is full, the memory behind it.
abbrev pub LastRead : Slack → Leaf → Option Entry → Type 0
LastRead slack (leaf, pos, above) rec =
    ((e : Entry) × (get_elem? leaf pos ≡ some e) × (rec ≡ some e))
    ⊎ (((pos ≡ length leaf) × (pos < memtree_max_elements) × (rec ≡ slack.unused leaf pos))
        ⊎ ((pos ≡ length leaf) × (pos ≡ memtree_max_elements) × (slack.behind leaf ≡ some rec)))

-- The search for a key that is not there ends behind a full leaf, all of whose keys are less, and
-- the read behind the leaf is a fault.
abbrev pub Faults : Slack → Memtree → List ℕ → Type 0
Faults slack tree key =
    (less : List Entry) × (leaf : List Entry) × (more : List Entry) × (contents tree
      ≡ (less ++ leaf) ++ more)
    × All (Under key) (less ++ leaf)
    × All (Over key) more
    × (length leaf ≡ memtree_max_elements)
    × (slack.behind leaf ≡ none)
    × (memtree_find slack tree key ≡ none)

-- No read behind a leaf is a fault, whatever stands there.
abbrev pub IsReadable : Slack → Type 0
IsReadable slack = (leaf : List Entry) → (rec : Option Entry) × (slack.behind leaf ≡ some rec)

option_cases : {A : Type 0} (o : Option A) → (o ≡ none) ⊎ ((a : A) × (o ≡ some a))
option_cases none = inl refl
option_cases (some a) = inr (a, refl)

by_place :
    (pos n : ℕ)
    → pos ≤ n
    → n ≤ 10
    → ((pos < n) × (ltb pos n ≡ true))
      ⊎ (((pos ≡ n) × (pos < 10) × (ltb pos n ≡ false) × (ltb pos 10 ≡ true))
          ⊎ ((pos ≡ n) × (pos ≡ 10) × (ltb pos n ≡ false) × (ltb pos 10 ≡ false)))
by_place pos n h k = ground (arith, h, k)

last_read :
    (slack : Slack) (leaf : Leaf)
    → leaf.1 ≤ length leaf.0
    → length leaf.0 ≤ memtree_max_elements
    → ((rec : Option Entry) × (last_record slack none leaf ≡ some rec) × LastRead slack leaf rec)
      ⊎ ((leaf.1 ≡ length leaf.0)
          × (leaf.1 ≡ memtree_max_elements)
          × (slack.behind leaf.0 ≡ none)
          × (last_record slack none leaf ≡ none))
last_read slack (leaf, pos, above) inside most = elim (by_place pos (length leaf) inside most) [
  | inl (less, test) ↦
      let (e, at) = get_elem?-in leaf pos less in inl (some e, rw (test, at), inl (e, at, refl))
  | inr (inl (same, few, test, test')) ↦
      inl (slack.unused leaf pos, rw (test, test'), inr (inl (same, few, refl)))
  | inr (inr (same, full, test, test')) ↦ elim (option_cases (slack.behind leaf)) [
    | inl fault ↦ inr (same, full, fault, rw (test, test') fault)
    | inr (rec, reads) ↦ inl (rec, rw (test, test') reads, inr (inr (same, full, reads)))
  ]
]

module _ (slack : Slack) (tree : Memtree) (key : List ℕ) where
  hit :
      (iter : Iter) (leaf : Leaf) (e : Entry)
      → find_loop key tree.depth tree.node (root tree.depth) none ≡ some (some iter, leaf)
      → record_at (some iter) ≡ some e
      → memtree_find slack tree key ≡ some (some iter, leaf, some e)
  unfolding memtree_find
  hit iter leaf e ran here = rw (ran, here)

  miss :
      (leaf : Leaf)
      → find_loop key tree.depth tree.node (root tree.depth) none ≡ some (none, leaf)
      → memtree_find slack tree key
        ≡ (last_record slack none leaf >>= λ rec. some (none, leaf, rec))
  unfolding memtree_find
  miss leaf ran = rw ran

  -- What a search leads to: the record with the key; a place in a leaf for one; or a fault.
  abbrev pub Ends : Type 0
  Ends =
      ((iter : Iter) × (leaf : Leaf) × (f : Found key tree.depth tree.node (root tree.depth) iter)
        × (memtree_find slack tree key ≡ some (some iter, leaf, some f.entry)))
      ⊎ (((leaf : Leaf) × (rec : Option Entry) × (memtree_find slack tree key
              ≡ some (none, leaf, rec))
            × LastRead slack leaf rec
            × Missing key tree.depth tree.node (root tree.depth) leaf)
          ⊎ Faults slack tree key)

  pub search-Ends : IsTree tree → Ends
  search-Ends t =
      let (found, leaf, ran, result) = reached tree key t in
      elim result [
        | inl (iter, is, f) ↦ inl (iter, leaf, f, hit iter leaf f.entry (rw is at ran) f.here)
        | inr (is, m) ↦
            let missed = miss leaf (rw is at ran) in
            elim (last_read slack leaf m.inside m.shape.1) [
              | inl (rec, reads, from) ↦ inr (inl (leaf, rec, missed ∙ rw reads, from, m))
              | inr (same, full, fault, reads) ↦
                  let whole : take leaf.1 leaf.0 ≡ leaf.0 =
                    take_ge leaf.1 leaf.0 (omega (arith, same)) in
                  let front : before 0 leaf.2 ++ leaf.0 ≡ m.less = rw whole at m.front in
                  inr (
                    inr (
                      before 0 leaf.2,
                      leaf.0,
                      m.more,
                      rw front m.content,
                      rw front m.under,
                      m.over,
                      omega (arith, same, full),
                      fault,
                      missed ∙ rw reads,
                    ))
            ]
      ]

  pub lookup-Found :
      (iter : Iter) (f : Found key tree.depth tree.node (root tree.depth) iter)
      → IsTree tree
      → lookup key (contents tree) ≡ some f.entry
  lookup-Found iter f t =
      let under = Sorted-Under f.less f.entry f.more (rw (← f.content) t.sorted) in
      rw (
        f.content,
        lookup-Under key f.less (f.entry ∷ f.more) (rw f.is_key at under),
        lookup-same key f.entry f.more f.is_key,
      )

  pub lookup-Missing :
      (leaf : Leaf)
      → Missing key tree.depth tree.node (root tree.depth) leaf
      → lookup key (contents tree) ≡ none
  lookup-Missing leaf m =
      rw (m.content, lookup-Under key m.less m.more m.under, lookup-Over key m.more m.over)

pub no_result :
    (slack : Slack) (tree : Memtree) (key : List ℕ)
    → Faults slack tree key
    → memtree_find slack tree key ≡ none
no_result slack tree key (less, leaf, more, whole, under, over, full, fault, ran) = ran

pub no_fault :
    (slack : Slack) (tree : Memtree) (key : List ℕ) → IsReadable slack → Faults slack tree key → ⊥
no_fault slack tree key readable (less, leaf, more, whole, under, over, full, fault, ran) =
    let (rec, reads) = readable leaf in cc (reads, fault)

-- Looking for a key in a tree in order. If the list of the tree's records has one with the key, the
-- search ends at it, and `iter->record` is that record. If not, the search ends in a leaf, and
-- `iter->record` is a record of it, or what a place that is not used has, or, if the leaf is full and
-- all its keys are less, what is read behind it; when that read is a fault, the search is one.
pub memtree_find-lookup :
    (slack : Slack) (tree : Memtree) (key : List ℕ)
    → IsTree tree
    → ((iter : Iter) × (leaf : Leaf) × (e : Entry) × (memtree_find slack tree key
          ≡ some (some iter, leaf, some e))
        × (record_at (some iter) ≡ some e)
        × (lookup key (contents tree) ≡ some e))
      ⊎ (((leaf : Leaf) × (rec : Option Entry) × (memtree_find slack tree key
              ≡ some (none, leaf, rec))
            × LastRead slack leaf rec
            × (lookup key (contents tree) ≡ none))
          ⊎ Faults slack tree key)
memtree_find-lookup slack tree key t = elim (search-Ends slack tree key t) [
  | inl (iter, leaf, f, ran) ↦
      inl (iter, leaf, f.entry, ran, f.here, lookup-Found slack tree key iter f t)
  | inr (inl (leaf, rec, ran, from, m)) ↦
      inr (inl (leaf, rec, ran, from, lookup-Missing slack tree key leaf m))
  | inr (inr faults) ↦ inr (inr faults)
]
