-- ===== src/Memtree/Replace.antt =====
-- The tree as a map from keys to records (memtree_insert and memtree_replace).
use zeroskip.Prelude.{
  ℕ, zero, suc, ◌+◌, ◌≡◌, sym, ap, ◌∙◌, ◌⊎◌, inl, inr, Bool, true, false, some, none, Option, List,
  ◌∷◌, ◌++◌, append_assoc, append-nil, arith, length, length-append, length-set, take, drop,
}
use zeroskip.Memtree.{
  Status, memtree_ok, memtree_duplicate, Entry, Node, root, Iter, Leaf, Memtree, plug, branch_end,
  memtree_insert_at,
}
use zeroskip.Memtree.Find.{
  Slack, memtree_find, memtree_insert_opt, memtree_replace, memtree_insert, overwrite, set_rec,
}
use zeroskip.Memtree.Lists.{inserted-take-drop}
use zeroskip.Memtree.Inorder.{Shape, records_of, least, plug-records, before, behind}
use zeroskip.Memtree.Insert.{insert_up-Grown}
use zeroskip.Memtree.Sorted.{put, put-Under, put-Over, put-same, put-Sorted, lookup, Sorted-Under}
use zeroskip.Memtree.Reach.{Found, Missing}
use zeroskip.Memtree.Lookup.{
  contents, IsTree, Faults, IsReadable, search-Ends, lookup-Found, lookup-Missing, no_result,
  no_fault,
}

set_rec-Shape :
    (low d : ℕ) (node : Node d) (pos : ℕ) (rec : Entry)
    → Shape low d node
    → Shape low d (set_rec d node pos rec)
unfolding set_rec
set_rec-Shape low zero node pos rec shape =
    let e = length-set node pos rec in (omega (arith, e, shape.0), omega (arith, e, shape.1))
set_rec-Shape low (suc d) (rs, bs) pos rec shape =
    let e = length-set rs pos rec in
    (omega (arith, e, shape.0), omega (arith, e, shape.1), omega (arith, e, shape.2), shape.3)

-- What an insertion or a replacement leaves.
abbrev pub Holds : List Entry → Option (Status × Memtree) → Type 0
Holds all result =
    (tree : Memtree) × (result ≡ some (memtree_ok, tree)) × (contents tree ≡ all) × IsTree tree

overwrite-Holds :
    (slack : Slack) (tree : Memtree) (rec : Entry) (iter : Iter) (leaf : Leaf) (last : Option Entry)
    → IsTree tree
    → memtree_find slack tree rec.key ≡ some (some iter, leaf, last)
    → Found rec.key tree.depth tree.node (root tree.depth) iter
    → Holds (put rec (contents tree)) (memtree_insert_opt slack tree rec true)
unfolding memtree_insert_opt
overwrite-Holds slack tree rec iter leaf last t ran f =
    let new = overwrite f.entry rec in
    let p = plug iter.depth (set_rec iter.depth iter.node iter.pos new) iter.above in
    let (same, rooted) =
      plug-records iter.depth (set_rec iter.depth iter.node iter.pos new) iter.above f.shapes
        (set_rec-Shape (least iter.depth iter.above) iter.depth iter.node iter.pos new f.shape) in
    let under = Sorted-Under f.less f.entry f.more (rw (← f.content) t.sorted) in
    let all : put rec (contents tree) ≡ f.less ++ new ∷ f.more = rw (
      f.content,
      put-Under rec f.less (f.entry ∷ f.more) (rw f.is_key at under),
      put-same rec f.entry f.more f.is_key,
    ) in
    let result : records_of p ≡ put rec (contents tree) =
      same ∙ f.replaced new ∙ append-nil (f.less ++ new ∷ f.more) ∙ sym all in
    let size : length (f.less ++ new ∷ f.more) ≡ length (contents tree) = rw f.content (
      omega
        (arith, length-append f.less (new ∷ f.more), length-append f.less (f.entry ∷ f.more))) in
    (
      record tree { depth = p.0; node = p.1 },
      rw (ran, f.here),
      result,
      record {
        shaped = rooted;
        sorted = rw result (put-Sorted rec (contents tree) t.sorted);
        counted = t.counted ∙ sym size ∙ ap length (sym all ∙ sym result);
      },
    )

insert-Holds :
    (slack : Slack) (tree : Memtree) (rec : Entry) (leaf : Leaf) (last : Option Entry)
    (replace : Bool)
    → IsTree tree
    → memtree_find slack tree rec.key ≡ some (none, leaf, last)
    → Missing rec.key tree.depth tree.node (root tree.depth) leaf
    → Holds (put rec (contents tree)) (memtree_insert_opt slack tree rec replace)
unfolding memtree_insert_opt memtree_insert_at branch_end
insert-Holds slack tree rec (leaf, pos, above) last replace t ran m =
    let (p, ran', same, rooted) =
      insert_up-Grown 0 tt leaf rec pos above m.shapes m.shape tt m.inside in
    let all : put rec (contents tree) ≡ m.less ++ rec ∷ m.more =
      rw (m.content, put-Under rec m.less m.more m.under, put-Over rec m.more m.over) in
    let grown : records_of p ≡ m.less ++ rec ∷ m.more =
      same
      ∙ rw (inserted-take-drop pos rec leaf) (
          around (before 0 above) (take pos leaf) (drop pos leaf) (behind 0 above)
          ∙ rw (m.front, m.rear, append-nil m.more)) in
    let result : records_of p ≡ put rec (contents tree) = grown ∙ sym all in
    let size : length (m.less ++ rec ∷ m.more) ≡ length (contents tree) + 1 =
      rw m.content
        (omega (arith, length-append m.less (rec ∷ m.more), length-append m.less m.more)) in
    (
      record { depth = p.0; node = p.1; count = tree.count + 1 },
      rw (ran, ran'),
      result,
      record {
        shaped = rooted;
        sorted = rw result (put-Sorted rec (contents tree) t.sorted);
        counted = omega (arith, t.counted, size, ap length grown);
      },
    )
  where
    around : (a b c d : List Entry) → a ++ ((b ++ rec ∷ c) ++ d) ≡ (a ++ b) ++ rec ∷ (c ++ d)
    around a b c d = simp (append_assoc)

stopped :
    (slack : Slack) (tree : Memtree) (rec : Entry) (replace : Bool)
    → memtree_find slack tree rec.key ≡ none
    → memtree_insert_opt slack tree rec replace ≡ none
unfolding memtree_insert_opt
stopped slack tree rec replace ran = rw ran

-- Replacing in a tree in order returns MEMTREE_OK and leaves a tree in order, with the record put in
-- the list of the records: in the place of the one with its key, or between lesser and greater ones.
-- The one exception is a fault of the search: the key is not there, the search ends behind a full
-- leaf whose keys are all less, and what is behind the leaf cannot be read.
pub memtree_replace-put :
    (slack : Slack) (tree : Memtree) (rec : Entry)
    → IsTree tree
    → Holds (put rec (contents tree)) (memtree_replace slack tree rec)
      ⊎ (Faults slack tree rec.key × (memtree_replace slack tree rec ≡ none))
unfolding memtree_replace
memtree_replace-put slack tree rec t = elim (search-Ends slack tree rec.key t) [
  | inl (iter, leaf, f, ran) ↦ inl (overwrite-Holds slack tree rec iter leaf (some f.entry) t ran f)
  | inr (inl (leaf, last, ran, from, m)) ↦ inl (insert-Holds slack tree rec leaf last true t ran m)
  | inr (inr faults) ↦
      inr (faults, stopped slack tree rec true (no_result slack tree rec.key faults))
]

-- Where what is behind a leaf can be read, there is no exception.
pub readable-Holds :
    (slack : Slack) (tree : Memtree) (rec : Entry)
    → IsReadable slack
    → IsTree tree
    → Holds (put rec (contents tree)) (memtree_replace slack tree rec)
readable-Holds slack tree rec readable t = elim (memtree_replace-put slack tree rec t) [
  | inl holds ↦ holds
  | inr (faults, ran) ↦ absurd (no_fault slack tree rec.key readable faults)
]

duplicate :
    (slack : Slack) (tree : Memtree) (rec : Entry) (iter : Iter) (leaf : Leaf) (last : Option Entry)
    → memtree_find slack tree rec.key ≡ some (some iter, leaf, last)
    → memtree_insert_opt slack tree rec false ≡ some (memtree_duplicate, tree)
unfolding memtree_insert_opt
duplicate slack tree rec iter leaf last ran = rw ran

-- Inserting in a tree in order: if the key is there, MEMTREE_DUPLICATE and the same tree; if not,
-- MEMTREE_OK and a tree in order with the record, or the fault of the search, where it ends behind a
-- full leaf whose keys are all less and what is behind the leaf cannot be read.
pub memtree_insert-put :
    (slack : Slack) (tree : Memtree) (rec : Entry)
    → IsTree tree
    → ((e : Entry) × (lookup rec.key (contents tree) ≡ some e)
        × (memtree_insert slack tree rec ≡ some (memtree_duplicate, tree)))
      ⊎ (((lookup rec.key (contents tree) ≡ none)
            × Holds (put rec (contents tree)) (memtree_insert slack tree rec))
          ⊎ (Faults slack tree rec.key × (memtree_insert slack tree rec ≡ none)))
unfolding memtree_insert
memtree_insert-put slack tree rec t = elim (search-Ends slack tree rec.key t) [
  | inl (iter, leaf, f, ran) ↦ inl (
    f.entry,
    lookup-Found slack tree rec.key iter f t,
    duplicate slack tree rec iter leaf (some f.entry) ran,
  )
  | inr (inl (leaf, last, ran, from, m)) ↦ inr (
      inl (
        lookup-Missing slack tree rec.key leaf m,
        insert-Holds slack tree rec leaf last false t ran m,
      ))
  | inr (inr faults) ↦
      inr (inr (faults, stopped slack tree rec false (no_result slack tree rec.key faults)))
]
