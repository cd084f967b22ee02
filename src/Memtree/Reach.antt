-- ===== src/Memtree/Reach.antt =====
-- What memtree_find reaches: the record with the key, or the place in a leaf for one.
use zeroskip.Prelude.{
  ℕ, zero, suc, ◌≤◌, ◌≡◌, refl, sym, ap, ◌∙◌, ◌⊎◌, inl, inr, some, Option, List, ◌∷◌, ◌++◌,
  append_assoc, arith, length, length-set, get_elem?, set, take, drop, take-append-drop,
}
use zeroskip.Search.Tables.{get_elem?-in, get_elem?-out}
use zeroskip.Memtree.{Entry, Node, Above, parent, Iter, Leaf, recs, memtree_min_elements}
use zeroskip.Memtree.Find.{find_loop, set_rec}
use zeroskip.Memtree.Lists.{take-get-drop, set-take-drop, take-set, drop-set, get-set}
use zeroskip.Memtree.Inorder.{
  All, All-get, weave, weave-at, weave-cut, left, right, records, Shape, AboveShape, least, before,
  behind,
}
use zeroskip.Memtree.Sorted.{Under, Over, Sorted, All-append, Sorted-left, Sorted-right}
use zeroskip.Memtree.Locate.{search_node-NodePlace, Sorted-weave, left-Under, right-Over}

-- An iterator at the record with the key, below a node: overwriting it there replaces it.
pub record Found (key : List ℕ) (d : ℕ) (node : Node d) (above : Above d) (iter : Iter)
    : Type 0 where
  pub less : List Entry
  pub entry : Entry
  pub more : List Entry
  pub content : records d node ≡ less ++ entry ∷ more
  pub is_key : entry.key ≡ key
  pub here : get_elem? (recs iter.depth iter.node) iter.pos ≡ some entry
  pub shape : Shape (least iter.depth iter.above) iter.depth iter.node
  pub shapes : AboveShape iter.depth iter.above
  pub replaced :
      (e : Entry)
      → before iter.depth iter.above
          ++ (records iter.depth (set_rec iter.depth iter.node iter.pos e)
              ++ behind iter.depth iter.above)
        ≡ before d above ++ ((less ++ e ∷ more) ++ behind d above)

-- A place in a leaf, below a node that does not have the key.
pub record Missing (key : List ℕ) (d : ℕ) (node : Node d) (above : Above d) (leaf : Leaf)
    : Type 0 where
  pub less : List Entry
  pub more : List Entry
  pub content : records d node ≡ less ++ more
  pub under : All (Under key) less
  pub over : All (Over key) more
  pub inside : leaf.1 ≤ length leaf.0
  pub shape : Shape (least 0 leaf.2) 0 leaf.0
  pub shapes : AboveShape 0 leaf.2
  pub front : before 0 leaf.2 ++ take leaf.1 leaf.0 ≡ before d above ++ less
  pub rear : drop leaf.1 leaf.0 ++ behind 0 leaf.2 ≡ more ++ behind d above

abbrev pub Reached :
    List ℕ → (d : ℕ) → Node d → Above d → Option Iter → Option (Option Iter × Leaf) → Type 0
Reached key d node above acc result =
    (found : Option Iter) × (leaf : Leaf) × (result ≡ some (found, leaf))
    × (((iter : Iter) × (found ≡ some iter) × Found key d node above iter)
        ⊎ ((found ≡ acc) × Missing key d node above leaf))

module _ (key : List ℕ) (d : ℕ) (rs : List Entry) (bs : List (Node d)) (pos : ℕ) (child : Node d)
    (above : Above (suc d)) (size : length bs ≡ suc (length rs))
    (at : get_elem? bs pos ≡ some child) where
  abbrev lefts : List Entry
  lefts = left (records d) (take pos bs) (take pos rs)

  abbrev rights : List Entry
  rights = right (records d) (drop (suc pos) bs) (drop pos rs)

  whole : records (suc d) (rs, bs) ≡ lefts ++ (records d child ++ rights)
  whole = weave-at (records d) pos child bs rs size at

  lift-Found :
      (iter : Iter)
      → Found key d child (parent d rs bs pos above) iter
      → Found key (suc d) (rs, bs) above iter
  lift-Found iter f = record {
    less = lefts ++ f.less;
    entry = f.entry;
    more = f.more ++ rights;
    content = whole ∙ rw f.content (simp (append_assoc));
    is_key = f.is_key;
    here = f.here;
    shape = f.shape;
    shapes = f.shapes;
    replaced = λ e. f.replaced e ∙ simp (append_assoc);
  }

  lift-Missing :
      (leaf : Leaf)
      → All (Under key) lefts
      → All (Over key) rights
      → Missing key d child (parent d rs bs pos above) leaf
      → Missing key (suc d) (rs, bs) above leaf
  lift-Missing leaf under over m = record {
    less = lefts ++ m.less;
    more = m.more ++ rights;
    content = whole ∙ rw m.content (simp (append_assoc));
    under = All-append (Under key) lefts m.less under m.under;
    over = All-append (Over key) m.more rights m.over over;
    inside = m.inside;
    shape = m.shape;
    shapes = m.shapes;
    front = m.front ∙ simp (append_assoc);
    rear = m.rear ∙ simp (append_assoc);
  }

-- The record at a place of a node.
here-Found :
    (key : List ℕ) (d : ℕ) (node : Node d) (above : Above d) (pos : ℕ) (e : Entry)
    → Shape (least d above) d node
    → AboveShape d above
    → get_elem? (recs d node) pos ≡ some e
    → e.key ≡ key
    → Found key d node above (record { depth = d; node = node; pos = pos; above = above })
unfolding set_rec
here-Found key zero node above pos e shape shapes at is_key = record {
  less = take pos node;
  entry = e;
  more = drop (suc pos) node;
  content = take-get-drop pos node e at;
  is_key = is_key;
  here = at;
  shape = shape;
  shapes = shapes;
  replaced = λ x. rw (set-take-drop pos node x (get_elem?-out node pos e at));
}
here-Found key (suc d) (rs, bs) above pos e shape shapes at is_key = record {
  less = weave (records d) (take (suc pos) bs) (take pos rs);
  entry = e;
  more = weave (records d) (drop (suc pos) bs) (drop (suc pos) rs);
  content = weave-cut (records d) pos e bs rs shape.2 at;
  is_key = is_key;
  here = at;
  shape = shape;
  shapes = shapes;
  replaced = λ x.
      let cut =
        weave-cut (records d) pos x bs (set rs pos x) (shape.2 ∙ ap suc (sym (length-set rs pos x)))
          (get-set pos rs x (get_elem?-out rs pos e at)) in
      rw (cut, take-set pos rs x, drop-set pos rs x);
}

pub find_loop-Reached :
    (key : List ℕ) (d : ℕ) (node : Node d) (above : Above d) (acc : Option Iter)
    → Sorted (records d node)
    → Shape (least d above) d node
    → AboveShape d above
    → Reached key d node above acc (find_loop key d node above acc)
unfolding find_loop
find_loop-Reached key zero node above acc sorted shape shapes =
    let (pos, f, ran, (most, under, side)) = search_node-NodePlace key node sorted in
    let here : Iter = record { depth = 0; node = node; pos = pos; above = above } in
    elim side [
      | inl (on, e, at, is_key) ↦ (
        some here,
        (node, pos, above),
        rw (ran, on),
        inl (here, refl, here-Found key 0 node above pos e shape shapes at is_key),
      )
      | inr (off, over) ↦ (
        acc,
        (node, pos, above),
        rw (ran, off),
        inr (
          refl,
          record {
            less = take pos node;
            more = drop pos node;
            content = sym (take-append-drop pos node);
            under = under;
            over = over;
            inside = most;
            shape = shape;
            shapes = shapes;
            front = refl;
            rear = refl;
          },
        ),
      )
    ]
find_loop-Reached key (suc d) (rs, bs) above acc sorted shape shapes =
    let size = shape.2 in
    let (pos, f, ran, (most, under, side)) =
      search_node-NodePlace key rs (Sorted-weave (records d) bs rs size sorted) in
    let (child, at) = get_elem?-in bs pos (omega (arith, size, most)) in
    let parts = whole key d rs bs pos child above size at in
    let l = lefts key d rs bs pos child above size at in
    let r = rights key d rs bs pos child above size at in
    let sorted' : Sorted (l ++ (records d child ++ r)) = rw (← parts) sorted in
    let inner = Sorted-right l (records d child ++ r) sorted' in
    let here : Iter = record { depth = suc d; node = (rs, bs); pos = pos; above = above } in
    let next = λ (start : Option Iter).
      find_loop-Reached key d child (parent d rs bs pos above) start
        (Sorted-left (records d child) r inner)
        (All-get (Shape memtree_min_elements d) pos bs child shape.3 at)
        (shape, omega (arith, size, most), shapes) in
    elim side [
      | inl (on, e, there, is_key) ↦
          let (found, leaf, ran', result) = next (some here) in
          (
            found,
            leaf,
            rw (find_loop, ran, at, on) ran',
            elim result [
              | inl (iter, is, f') ↦
                  inl (iter, is, lift-Found key d rs bs pos child above size at iter f')
              | inr (is, m) ↦
                  inl (
                    here,
                    is,
                    here-Found key (suc d) (rs, bs) above pos e shape shapes there is_key,
                  )
            ],
          )
      | inr (off, over) ↦
          let (found, leaf, ran', result) = next acc in
          (
            found,
            leaf,
            rw (find_loop, ran, at, off) ran',
            elim result [
              | inl (iter, is, f') ↦
                  inl (iter, is, lift-Found key d rs bs pos child above size at iter f')
              | inr (is, m) ↦ inr (
                is,
                lift-Missing key d rs bs pos child above size at leaf
                    (left-Under (records d) key (take pos bs) (take pos rs)
                      (Sorted-left l (records d child ++ r) sorted') under)
                    (right-Over (records d) key (drop (suc pos) bs) (drop pos rs)
                      (Sorted-right (records d child) r inner) over)
                    m,
              )
            ],
          )
    ]
