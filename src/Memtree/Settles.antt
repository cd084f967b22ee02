-- ===== src/Memtree/Settles.antt =====
-- Where an iterator of a tree stands, and the record that it settles at (memtree_deref).
use zeroskip.Prelude.{
  ℕ, zero, suc, ◌<◌, ◌≤◌, ◌≡◌, ◌⊎◌, inl, inr, refl, sym, ◌∙◌, true, false, Option, none, some, List,
  [], ◌∷◌, ◌++◌, append_assoc, arith, length, drop, ltb,
}
use zeroskip.Search.Tables.{get_elem?-in}
use zeroskip.Memtree.{Entry, Node, Above, root, parent, Iter, recs, memtree_min_elements}
use zeroskip.Memtree.Inorder.{All-get, right, weave-at, records, Shape, AboveShape, least, behind}
use zeroskip.Memtree.Cursor.{begin_of, ascend_behind, settle}

-- The records from a place of a node on, and those from an iterator on.
abbrev pub from : (d : ℕ) → Node d → ℕ → List Entry
from zero node pos = drop pos node
from (suc d) (rs, bs) pos = right (records d) (drop (suc pos) bs) (drop pos rs)

abbrev pub onward : Iter → List Entry
onward it = from it.depth it.node it.pos ++ behind it.depth it.above

-- An iterator in a tree with the shape of one.
pub record IsIn (it : Iter) : Type 0 where
  pub shape : Shape (least it.depth it.above) it.depth it.node
  pub shapes : AboveShape it.depth it.above
  pub inside : it.pos ≤ length (recs it.depth it.node)

drop-end : {A : Type 0} (n : ℕ) (xs : List A) → length xs ≤ n → drop n xs ≡ []
drop-end zero [] h = refl
drop-end zero (x ∷ xs) h = elim h [ ]
drop-end (suc n) [] h = refl
drop-end (suc n) (x ∷ xs) h = drop-end n xs (omega (arith, h))

right-nil : {B : Type 0} (f : B → List Entry) (bs : List B) → right f bs [] ≡ []
right-nil f [] = refl
right-nil f (b ∷ bs) = refl

from-end : (d : ℕ) (node : Node d) (pos : ℕ) → length (recs d node) ≤ pos → from d node pos ≡ []
from-end zero node pos h = drop-end pos node h
from-end (suc d) (rs, bs) pos h = rw (drop-end pos rs h) (right-nil (records d) (drop (suc pos) bs))

-- What memtree_deref settles at: the first record from the iterator on.
abbrev pub Settles : List Entry → Option Iter → Type 0
Settles rest result =
    ((result ≡ none) × (rest ≡ []))
    ⊎ ((it : Iter) × (result ≡ some it)
        × IsIn it
        × (it.pos < length (recs it.depth it.node))
        × (onward it ≡ rest))

pub by_count : (pos n : ℕ) → ((pos < n) × (ltb pos n ≡ true)) ⊎ ((n ≤ pos) × (ltb pos n ≡ false))
by_count pos n = ground arith

ascends :
    (d : ℕ) (above : Above d)
    → AboveShape d above
    → Settles (behind d above) (ascend_behind d above)
unfolding ascend_behind
ascends d (root _) shapes = inl (refl, refl)
ascends d (parent _ rs bs pos above) (shape, inside, shapes) = elim (by_count pos (length rs)) [
  | inl (less, test) ↦ rw test (
      inr (
        record { depth = suc d; node = (rs, bs); pos = pos; above = above },
        refl,
        record { shape = shape; shapes = shapes; inside = omega (arith, less) },
        less,
        refl,
      ))
  | inr (more, test) ↦ rw (test, from-end (suc d) (rs, bs) pos more) (ascends (suc d) above shapes)
]

pub settles : (it : Iter) → IsIn it → Settles (onward it) (settle it)
unfolding settle
settles it i = elim (by_count it.pos (length (recs it.depth it.node))) [
  | inl (less, test) ↦ rw test (inr (it, refl, i, less, refl))
  | inr (more, test) ↦
      rw (test, from-end it.depth it.node it.pos more) (ascends it.depth it.above i.shapes)
]

-- The first leaf of a branch.
pub begins :
    (d : ℕ) (node : Node d) (above : Above d)
    → Shape (least d above) d node
    → AboveShape d above
    → (it : Iter) × (begin_of d node above ≡ some it)
      × IsIn it
      × (onward it ≡ records d node ++ behind d above)
unfolding begin_of
begins zero node above shape shapes = (
  record { depth = 0; node = node; pos = 0; above = above },
  refl,
  record { shape = shape; shapes = shapes; inside = omega arith },
  refl,
)
begins (suc d) (rs, bs) above shape shapes =
    let (child, at) = get_elem?-in bs 0 (omega (arith, shape.2)) in
    let (it, ran, i, all) =
      begins d child (parent d rs bs 0 above)
        (All-get (Shape memtree_min_elements d) 0 bs child shape.3 at)
        (shape, omega (arith, shape.2), shapes) in
    let whole = weave-at (records d) 0 child bs rs shape.2 at in
    (
      it,
      rw (begin_of, at) ran,
      i,
      all
          ∙ rw whole (
              sym
                (append_assoc (records d child) (from (suc d) (rs, bs) 0) (behind (suc d) above))),
    )
