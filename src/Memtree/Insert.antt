-- ===== src/Memtree/Insert.antt =====
-- Inserting in a node and in those above it (the loop of memtree_insert_at).
use zeroskip.Prelude.{
  ℕ, zero, suc, ◌≤◌, ◌≡◌, refl, sym, ◌∙◌, inl, inr, some, Option, List, ◌∷◌, ◌++◌, append_assoc,
  append-nil, arith, length, length-set, set, take, drop, ltb, ltb→lt, ltb→le, Bool-cases,
}
use zeroskip.Memtree.{
  Entry, Node, Branch, Above, root, parent, recs, plug, insert_up, new_root, memtree_max_elements,
  memtree_min_elements,
}
use zeroskip.Memtree.Lists.{get-set, take-set, drop-set}
use zeroskip.Memtree.Inorder.{
  records, left, right, weave-inserted, Shape, Shape-set, AboveShape, least, root_least, before,
  behind, records_of, IsRooted, plug-records,
}
use zeroskip.Memtree.Split.{
  inserted_node, BranchShape, node_insert-inserted, inserted_node-Shape, node_split-Halves,
}

-- The tree after an insertion: what stood before and behind the node still does.
abbrev pub Grown : List Entry → Option ((r : ℕ) × Node r) → Type 0
Grown all result = (t : (r : ℕ) × Node r) × (result ≡ some t) × (records_of t ≡ all) × IsRooted t

root-Shape :
    (low d : ℕ) (node : Node d) → Shape low d node → length (recs d node) ≤ memtree_max_elements
root-Shape low zero node shape = shape.1
root-Shape low (suc d) (rs, bs) shape = shape.1

regroup_split :
    (a b c : List Entry) (m : Entry) (e f g : List Entry)
    → a ++ ((b ++ (c ++ m ∷ (e ++ f))) ++ g) ≡ (a ++ b) ++ ((c ++ m ∷ e) ++ (f ++ g))
regroup_split a b c m e f g = simp (append_assoc)

-- An insertion that starts at any node of a well-shaped tree: it comes to an end, puts the record
-- at its place and keeps the shape.
pub insert_up-Grown :
    (d : ℕ) (branch : Branch d) (node : Node d) (rec : Entry) (pos : ℕ) (above : Above d)
    → AboveShape d above
    → Shape (least d above) d node
    → BranchShape d branch
    → pos ≤ length (recs d node)
    → Grown
        (before d above ++ (records d (inserted_node d branch node rec pos) ++ behind d above))
        (insert_up d branch node rec pos above)
unfolding insert_up
insert_up-Grown d branch node rec pos (root _) shapes shape b inside =
    elim (Bool-cases (ltb (length (recs d node)) memtree_max_elements)) [
      | inl room ↦
          let fits = ltb→lt _ _ room in
          (
            (d, inserted_node d branch node rec pos),
            rw (room, node_insert-inserted (root_least d) d branch node rec pos shape inside),
            sym (append-nil _),
            inserted_node-Shape (root_least d) d branch node rec pos shape b fits,
          )
      | inr full ↦
          let most = root-Shape (root_least d) d node shape in
          let ten : length (recs d node) ≡ 10 = omega (arith, ltb→le _ _ full, most) in
          let (l, m, r, ran, same, sl, sr) =
            node_split-Halves (root_least d) d branch node rec pos shape b ten inside in
          (
            new_root d l m r,
            rw (full, ran),
            rw same (sym (append-nil _)),
            (omega arith, omega arith, refl, (sl, (sr, tt))),
          )
    ]
insert_up-Grown d branch node rec pos (parent _ rs bs place up) shapes shape b inside =
    elim (Bool-cases (ltb (length (recs d node)) memtree_max_elements)) [
      | inl room ↦
          let fits = ltb→lt _ _ room in
          let node' = inserted_node d branch node rec pos in
          let (same, rooted) =
            plug-records d node' (parent d rs bs place up) shapes
              (inserted_node-Shape memtree_min_elements d branch node rec pos shape b fits) in
          (
            plug d node' (parent d rs bs place up),
            rw (
              insert_up,
              room,
              node_insert-inserted memtree_min_elements d branch node rec pos shape inside,
            ),
            same,
            rooted,
          )
      | inr full ↦
          let most = root-Shape memtree_min_elements d node shape in
          let ten : length (recs d node) ≡ 10 = omega (arith, ltb→le _ _ full, most) in
          let (l, m, r, ran, same, sl, sr) =
            node_split-Halves memtree_min_elements d branch node rec pos shape b ten inside in
          let (t, ran', same', rooted) =
            insert_up-Grown (suc d) r (rs, set bs place l) m place up shapes.2
              (Shape-set (least (suc d) up) d rs bs place l shapes.0 sl) sr
              (omega (arith, shapes.0.2, shapes.1)) in
          let parts =
            weave-inserted (records d) place m l r (set bs place l) rs
              (length-set bs place l ∙ shapes.0.2) (get-set place bs l shapes.1) in
          let parts' = rw (take-set place bs l, drop-set place bs l) at parts in
          let lefts = left (records d) (take place bs) (take place rs) in
          let rights = right (records d) (drop (suc place) bs) (drop place rs) in
          (
            t,
            rw (insert_up, full, ran) ran',
            same'
                ∙ rw (parts', same)
                    (regroup_split (before (suc d) up) lefts (records d l) m (records d r) rights
                      (behind (suc d) up)),
            rooted,
          )
    ]
