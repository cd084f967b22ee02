-- ===== src/Memtree/Ranges.antt =====
-- The records that an iterator meets, one after another (memtree_begin and memtree_next).
use zeroskip.Prelude.{
  ℕ, zero, suc, ◌+◌, ◌<◌, ◌≡◌, ◌⊎◌, inl, inr, refl, sym, ap, ◌∙◌, subst, Option, none, some, List,
  [], ◌∷◌, ◌++◌, append-nil, append_assoc, arith, length, get_elem?, drop,
}
use zeroskip.Record.{returned}
use zeroskip.Search.Tables.{get_elem?-in}
use zeroskip.Memtree.{Entry, Node, Above, root, parent, Memtree, Iter, recs, memtree_min_elements}
use zeroskip.Memtree.Lists.{get-drop}
use zeroskip.Memtree.Inorder.{All-get, weave, records, Shape, AboveShape, least, behind, root_least}
use zeroskip.Memtree.Cursor.{
  Cursor, rec_at, branch_begin, past, memtree_begin, settle, memtree_deref, memtree_next, each_next,
}
use zeroskip.Memtree.Lookup.{contents, IsTree}
use zeroskip.Memtree.Settles.{from, onward, IsIn, by_count, settles, begins}

-- A record that is met, with what is met behind it.
abbrev Steps : List Entry → ℕ × Cursor → Option (ℕ × Cursor) → Type 0
Steps rest stay result =
    ((rest ≡ []) × (result ≡ some stay))
    ⊎ ((e : Entry) × (c : Cursor) × (result ≡ some (1, c))
        × (c.rec ≡ some e)
        × IsIn c.at
        × (rest ≡ e ∷ onward c.at))

-- The first place behind a record: the leaf, or the first leaf of the branch to its right.
behind_record :
    (d : ℕ) (node : Node d) (pos : ℕ) (above : Above d) (e : Entry)
    → Shape (least d above) d node
    → AboveShape d above
    → pos < length (recs d node)
    → get_elem? (recs d node) pos ≡ some e
    → (it : Iter) × (branch_begin d node (pos + 1) above ≡ some it)
      × IsIn it
      × (from d node pos ++ behind d above ≡ e ∷ onward it)
unfolding branch_begin
behind_record zero node pos above e shape shapes inside at =
    let n : suc pos ≡ pos + 1 = omega arith in
    (
      record { depth = 0; node = node; pos = pos + 1; above = above },
      refl,
      record { shape = shape; shapes = shapes; inside = omega (arith, inside) },
      rw (← get-drop pos node e at) (ap (λ (n : ℕ). e ∷ (drop n node ++ behind 0 above)) n),
    )
behind_record (suc d) (rs, bs) pos above e shape shapes inside at =
    let (child, at') = get_elem?-in bs (pos + 1) (omega (arith, shape.2, inside)) in
    let n : pos + 1 ≡ suc pos = omega arith in
    let at'' : get_elem? bs (suc pos) ≡ some child = rw n at at' in
    let (it, ran, i, all) =
      begins d child (parent d rs bs (pos + 1) above)
        (All-get (Shape memtree_min_elements d) (pos + 1) bs child shape.3 at')
        (shape, omega (arith, shape.2, inside), shapes) in
    let all' = rw n at all in
    (
      it,
      rw at' ran,
      i,
      rw (← get-drop pos rs e at, ← get-drop (suc pos) bs child at'', all')
          (ap (◌∷◌ e) (
            append_assoc (records d child) (from (suc d) (rs, bs) (suc pos))
              (behind (suc d) above))),
    )

deref_none : (c : Cursor) → settle c.at ≡ none → memtree_deref c ≡ (0, c)
unfolding memtree_deref
deref_none c e = rw (memtree_deref, e)

deref_some :
    (c : Cursor) (it : Iter) (e : Entry)
    → settle c.at ≡ some it
    → rec_at it ≡ some e
    → memtree_deref c ≡ (1, record { at = it; rec = some e })
unfolding memtree_deref
deref_some c it e ran at = rw (memtree_deref, ran, at)

next-Steps : (c : Cursor) → IsIn c.at → Steps (onward c.at) (0, c) (memtree_next c)
unfolding memtree_next
next-Steps c i = elim (settles c.at i) [
  | inl (ran, none_left) ↦ inl (none_left, ap past (deref_none c ran))
  | inr (it, ran, i', less, same) ↦
      let (e, at) = get_elem?-in (recs it.depth it.node) it.pos less in
      let (it', begun, i'', parts) =
        behind_record it.depth it.node it.pos it.above e i'.shape i'.shapes less at in
      let moved : past (1, record { at = it; rec = some e })
          ≡ some (1, record { at = it'; rec = some e }) =
        rw begun in
      inr (
        e,
        record { at = it'; rec = some e },
        ap past (deref_some c it e ran at) ∙ moved,
        refl,
        i'',
        sym same ∙ parts,
      )
]

abbrev pub somes : List Entry → List (Option Entry)
somes [] = []
somes (e ∷ es) = some e ∷ somes es

pub each-onward :
    (fuel : ℕ) (c : Cursor) (es : List Entry)
    → IsIn c.at
    → onward c.at ≡ es
    → length es < fuel
    → each_next fuel c ≡ returned (somes es)
unfolding each_next
each-onward zero c es i same enough = elim enough [ ]
each-onward (suc fuel) c [] i same enough = elim (next-Steps c i) [
  | inl (none_left, ran) ↦ rw (each_next, ran)
  | inr (e, c', ran, is, i', parts) ↦ cc (same, parts)
]
each-onward (suc fuel) c (x ∷ es) i same enough = elim (next-Steps c i) [
  | inl (none_left, ran) ↦ cc (same, none_left)
  | inr (e, c', ran, is, i', parts) ↦
      let e_x : e ≡ x = cc (same, parts) in
      let rest : onward c'.at ≡ es = cc (same, parts) in
      rw (each_next, ran, each-onward fuel c' es i' rest (omega (arith, enough)), is, e_x)
]

first_leaf :
    (d : ℕ) (node : Node d)
    → Shape (root_least d) d node
    → (it : Iter) × (branch_begin d node 0 (root d) ≡ some it)
      × IsIn it
      × (onward it ≡ records d node)
unfolding branch_begin
first_leaf zero node shape = (
  record { depth = 0; node = node; pos = 0; above = root 0 },
  refl,
  record { shape = shape; shapes = tt; inside = omega arith },
  append-nil node,
)
first_leaf (suc d) (rs, bs) shape =
    let (it, ran, i, all) = begins (suc d) (rs, bs) (root (suc d)) shape tt in
    (it, ran, i, all ∙ append-nil (weave (records d) bs rs))

begin_at :
    (tree : Memtree) (rec : Option Entry) (it : Iter)
    → branch_begin tree.depth tree.node 0 (root tree.depth) ≡ some it
    → (ret : ℕ) × (c : Cursor) × (memtree_begin tree rec ≡ some (ret, c)) × (c.at ≡ it)
unfolding memtree_begin
begin_at tree rec it ran = elim (by_count 0 (length (recs it.depth it.node))) [
  | inl (some_rec, test) ↦ (1, record { at = it; rec = rec_at it }, rw (ran, test), refl)
  | inr (no_rec, test) ↦ (0, record { at = it; rec = rec }, rw (ran, test), refl)
]

-- The loop `for (memtree_begin (tree, iter); memtree_next (iter);)` over a tree in order ends and
-- meets each record once, in the order of the keys, with one round of fuel more than records.
pub memtree_begin-each_next :
    (tree : Memtree) (rec : Option Entry) (fuel : ℕ)
    → IsTree tree
    → length (contents tree) < fuel
    → (ret : ℕ) × (c : Cursor) × (memtree_begin tree rec ≡ some (ret, c))
      × (each_next fuel c ≡ returned (somes (contents tree)))
memtree_begin-each_next tree rec fuel t enough =
    let (it, ran, i, all) = first_leaf tree.depth tree.node t.shaped in
    let (ret, c, begun, at) = begin_at tree rec it ran in
    (
      ret,
      c,
      begun,
      each-onward fuel c (contents tree) (subst IsIn (sym at) i) (ap onward at ∙ all) enough,
    )
