-- ===== src/Memtree/Locate.antt =====
-- Looking for a key in the tree (the loop of memtree_find).
use zeroskip.Prelude.{
  ℕ, suc, ◌≤◌, ◌≡◌, ◌⊎◌, inl, inr, Bool, true, false, some, List, [], ◌∷◌, ◌++◌, arith, length,
  get_elem?, take, drop,
}
use zeroskip.Search.Order.{lex_trans}
use zeroskip.Search.Nodes.{Placed, memtree_memcmp_raw-Placed}
use zeroskip.Memtree.{Entry}
use zeroskip.Memtree.Find.{keys, search_node}
use zeroskip.Memtree.Inorder.{All, weave, left, right}
use zeroskip.Memtree.Sorted.{
  Under, Over, Sorted, All-map, All-append_right, All-append, Sorted-right, Sorted-Under,
  Sorted-IsAscending, get-keys, length-keys, take-Under, drop-Over,
}

-- A place in a node: its lesser records, and the key or the greater records.
abbrev pub NodePlace : List ℕ → List Entry → ℕ → Bool → Type 0
NodePlace key rs pos found =
    (pos ≤ length rs)
    × All (Under key) (take pos rs)
    × (((found ≡ true) × (e : Entry) × (get_elem? rs pos ≡ some e) × (e.key ≡ key))
        ⊎ ((found ≡ false) × All (Over key) (drop pos rs)))

pub search_node-NodePlace :
    (key : List ℕ) (rs : List Entry)
    → Sorted rs
    → (pos : ℕ) × (found : Bool) × (search_node key rs ≡ some (pos, found))
      × NodePlace key rs pos found
unfolding search_node Placed
search_node-NodePlace key rs sorted =
    let same = length-keys rs in
    let (pos, found, ran, most, below, at) =
      memtree_memcmp_raw-Placed (keys rs) key (Sorted-IsAscending rs sorted) (suc (length rs))
        (omega (arith, same)) in
    let side : ((found ≡ true) × (e : Entry) × (get_elem? rs pos ≡ some e) × (e.key ≡ key))
        ⊎ ((found ≡ false) × All (Over key) (drop pos rs)) =
      elim at [
        | inl (on, there) ↦
            let (e, here, is_key) = get-keys rs pos key there in inl (on, e, here, is_key)
        | inr (off, above) ↦ inr (off, drop-Over key pos rs above)
      ] in
    (
      pos,
      found,
      rw (rw same at ran),
      (omega (arith, same, most), take-Under key pos rs below, side),
    )

module _ {B : Type 0} (f : B → List Entry) where
  -- The records of a node among those of its tree.
  All-weave :
      (P : Entry → Type 0) (bs : List B) (rs : List Entry)
      → length bs ≡ suc (length rs)
      → All P (weave f bs rs)
      → All P rs
  All-weave P [] rs e all = absurd (omega (arith, e))
  All-weave P (b ∷ bs) [] e all = tt
  All-weave P (b ∷ bs) (r ∷ rs) e all =
      let rest = All-append_right P (f b) (r ∷ weave f bs rs) all in
      (rest.0, All-weave P bs rs (omega (arith, e)) rest.1)

  pub Sorted-weave :
      (bs : List B) (rs : List Entry)
      → length bs ≡ suc (length rs)
      → Sorted (weave f bs rs)
      → Sorted rs
  Sorted-weave [] rs e s = absurd (omega (arith, e))
  Sorted-weave (b ∷ bs) [] e s = tt
  Sorted-weave (b ∷ bs) (r ∷ rs) e s =
      let rest = Sorted-right (f b) (r ∷ weave f bs rs) s in
      (
        All-weave (Over r.key) bs rs (omega (arith, e)) rest.0,
        Sorted-weave bs rs (omega (arith, e)) rest.1,
      )

  pub left-Under :
      (key : List ℕ) (bs : List B) (rs : List Entry)
      → Sorted (left f bs rs)
      → All (Under key) rs
      → All (Under key) (left f bs rs)
  left-Under key [] rs s under = tt
  left-Under key (b ∷ bs) [] s under = tt
  left-Under key (b ∷ bs) (r ∷ rs) s under =
      All-append (Under key) (f b) (r ∷ left f bs rs)
        (All-map (λ x h. lex_trans x.key r.key key h under.0) (f b)
          (Sorted-Under (f b) r (left f bs rs) s))
        (under.0, left-Under key bs rs (Sorted-right (f b) (r ∷ left f bs rs) s).1 under.1)

  pub right-Over :
      (key : List ℕ) (bs : List B) (rs : List Entry)
      → Sorted (right f bs rs)
      → All (Over key) rs
      → All (Over key) (right f bs rs)
  right-Over key [] rs s over = tt
  right-Over key (b ∷ bs) [] s over = tt
  right-Over key (b ∷ bs) (r ∷ rs) s over =
      (over.0, All-map (λ x h. lex_trans key r.key x.key over.0 h) (f b ++ right f bs rs) s.0)
