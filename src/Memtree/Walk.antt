-- ===== src/Memtree/Walk.antt =====
-- Walking over the tree visits its records in order (memtree_walk_forward).
use zeroskip.Prelude.{ℕ, zero, suc, ◌≡◌, refl, some, Option, List, [], ◌∷◌, ◌++◌, arith, length}
use zeroskip.Memtree.{Entry, Node, Memtree, memtree_min_elements}
use zeroskip.Memtree.Find.{foreach_rec, walk_loop, node_walk_forward, memtree_walk_forward}
use zeroskip.Memtree.Inorder.{All, weave, records, Shape}
use zeroskip.Memtree.Lookup.{contents, IsTree}

module _ {S : Type 0} (action : Entry → S → S) where
  foreach_append :
      (xs ys : List Entry) (s : S)
      → foreach_rec action (xs ++ ys) s ≡ foreach_rec action ys (foreach_rec action xs s)
  foreach_append [] ys s = refl
  foreach_append (x ∷ xs) ys s = foreach_append xs ys (action x s)

  walk_loop-weave :
      {B : Type 0} (f : B → List Entry) (walk : B → S → Option S) (P : B → Type 0)
      → ((b : B) → P b → (s : S) → walk b s ≡ some (foreach_rec action (f b) s))
      → (bs : List B) (rs : List Entry) (s : S) → All P bs
      → length bs ≡ suc (length rs)
      → walk_loop action walk bs rs s ≡ some (foreach_rec action (weave f bs rs) s)
  walk_loop-weave f walk P h [] rs s all e = absurd (omega (arith, e))
  walk_loop-weave f walk P h (b ∷ bs) [] s all e = h b all.0 s
  walk_loop-weave f walk P h (b ∷ bs) (r ∷ rs) s all e =
      rw (h b all.0 s, foreach_append (f b) (r ∷ weave f bs rs) s)
        (walk_loop-weave f walk P h bs rs (action r (foreach_rec action (f b) s)) all.1
          (omega (arith, e)))

  node_walk :
      (low d : ℕ) (node : Node d)
      → Shape low d node
      → (s : S) → node_walk_forward action d node s ≡ some (foreach_rec action (records d node) s)
  unfolding node_walk_forward
  node_walk low zero node shape s = refl
  node_walk low (suc d) (rs, bs) shape s =
      walk_loop-weave (records d) (node_walk_forward action d) (Shape memtree_min_elements d)
        (node_walk memtree_min_elements d) bs rs s shape.3 shape.2

  -- A walk over a tree in order ends, and calls `action` on each record once, in the order of the
  -- keys.
  pub memtree_walk_forward-foreach :
      (tree : Memtree) (s : S)
      → IsTree tree
      → memtree_walk_forward action tree s ≡ some (foreach_rec action (contents tree) s)
  unfolding memtree_walk_forward
  memtree_walk_forward-foreach tree s t = node_walk _ tree.depth tree.node t.shaped s
