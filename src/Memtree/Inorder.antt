-- ===== src/Memtree/Inorder.antt =====
-- The records of a tree in their order, and the shape of its nodes.
use zeroskip.Prelude.{
  ℕ, zero, suc, ◌<◌, ◌≤◌, ◌≡◌, sym, ap, ◌∙◌, some, List, [], ◌∷◌, ◌++◌, append_assoc, append-nil,
  arith, length, get_elem?, set, take, drop, length-set,
}
use zeroskip.Memtree.{
  Entry, Node, Above, root, parent, plug, memtree_max_elements, memtree_min_elements,
}
use zeroskip.Memtree.Lists.{inserted, get-set, take-set, drop-set}

module _ {A B : Type 0} (f : B → List A) where
  -- What branches and the records between them hold.
  abbrev pub weave : List B → List A → List A
  weave [] rs = []
  weave (b ∷ bs) [] = f b
  weave (b ∷ bs) (r ∷ rs) = f b ++ r ∷ weave bs rs

  -- Branches, each with the record to its right, or to its left.
  abbrev pub left : List B → List A → List A
  left [] rs = []
  left (b ∷ bs) [] = []
  left (b ∷ bs) (r ∷ rs) = f b ++ r ∷ left bs rs

  abbrev pub right : List B → List A → List A
  right [] rs = []
  right (b ∷ bs) [] = []
  right (b ∷ bs) (r ∷ rs) = r ∷ (f b ++ right bs rs)

  weave-first :
      (b : B) (bs : List B) (rs : List A)
      → length bs ≡ length rs
      → weave (b ∷ bs) rs ≡ f b ++ right bs rs
  weave-first b [] [] e = sym (append-nil (f b))
  weave-first b (c ∷ bs) [] e = absurd (omega (arith, e))
  weave-first b [] (r ∷ rs) e = absurd (omega (arith, e))
  weave-first b (c ∷ bs) (r ∷ rs) e =
      ap (λ t. f b ++ r ∷ t) (weave-first c bs rs (omega (arith, e)))

  pub weave-at :
      (pos : ℕ) (b : B) (bs : List B) (rs : List A)
      → length bs ≡ suc (length rs)
      → get_elem? bs pos ≡ some b
      → weave bs rs
        ≡ left (take pos bs) (take pos rs) ++ (f b ++ right (drop (suc pos) bs) (drop pos rs))
  weave-at pos b [] rs e at = cc at
  weave-at zero b (c ∷ bs) rs e at =
      let same : c ≡ b = cc at in rw same (weave-first b bs rs (omega (arith, e)))
  weave-at (suc pos) b (c ∷ []) [] e at = cc at
  weave-at (suc pos) b (c ∷ c' ∷ bs) [] e at = absurd (omega (arith, e))
  weave-at (suc pos) b (c ∷ bs) (r ∷ rs) e at =
      let rest = right (drop (suc pos) bs) (drop pos rs) in
      rw (weave-at pos b bs rs (omega (arith, e)) at)
        (sym (append_assoc (f c) (r ∷ left (take pos bs) (take pos rs)) (f b ++ rest)))

  -- With a record and a branch to its right inserted.
  pub weave-inserted :
      (pos : ℕ) (r : A) (b c : B) (bs : List B) (rs : List A)
      → length bs ≡ suc (length rs)
      → get_elem? bs pos ≡ some b
      → weave (inserted (suc pos) c bs) (inserted pos r rs)
        ≡ left (take pos bs) (take pos rs)
          ++ (f b ++ r ∷ (f c ++ right (drop (suc pos) bs) (drop pos rs)))
  weave-inserted pos r b c [] rs e at = cc at
  weave-inserted zero r b c (b' ∷ bs) rs e at =
      let same : b' ≡ b = cc at in
      rw same (ap (λ t. f b ++ r ∷ t) (weave-first c bs rs (omega (arith, e))))
  weave-inserted (suc pos) r b c (b' ∷ []) [] e at = cc at
  weave-inserted (suc pos) r b c (b' ∷ b'' ∷ bs) [] e at = absurd (omega (arith, e))
  weave-inserted (suc pos) r b c (b' ∷ bs) (r' ∷ rs) e at =
      let rest = right (drop (suc pos) bs) (drop pos rs) in
      rw (weave-inserted pos r b c bs rs (omega (arith, e)) at) (
        sym
          (append_assoc (f b') (r' ∷ left (take pos bs) (take pos rs)) (f b ++ r ∷ (f c ++ rest))))

  -- Cut at a record.
  pub weave-cut :
      (n : ℕ) (r : A) (bs : List B) (rs : List A)
      → length bs ≡ suc (length rs)
      → get_elem? rs n ≡ some r
      → weave bs rs
        ≡ weave (take (suc n) bs) (take n rs) ++ r ∷ weave (drop (suc n) bs) (drop (suc n) rs)
  weave-cut n r bs [] e at = cc at
  weave-cut n r [] (s ∷ rs) e at = absurd (omega (arith, e))
  weave-cut zero r (b ∷ bs) (s ∷ rs) e at = let same : s ≡ r = cc at in rw same
  weave-cut (suc n) r (b ∷ bs) (s ∷ rs) e at = rw (weave-cut n r bs rs (omega (arith, e)) at) (
      sym (
        append_assoc (f b) (s ∷ weave (take (suc n) bs) (take n rs))
          (r ∷ weave (drop (suc n) bs) (drop (suc n) rs))))

abbrev pub records : (d : ℕ) → Node d → List Entry
records zero node = node
records (suc d) (rs, bs) = weave (records d) bs rs

abbrev pub All : {A : Type 0} → (A → Type 0) → List A → Type 0
All P [] = Unit
All P (x ∷ xs) = P x × All P xs

-- A node has at least `least` records and at most ten, and one branch more; those below it have at
-- least five records.
abbrev pub Shape : ℕ → (d : ℕ) → Node d → Type 0
Shape least zero node = (least ≤ length node) × (length node ≤ memtree_max_elements)
Shape least (suc d) (rs, bs) =
    (least ≤ length rs)
    × (length rs ≤ memtree_max_elements)
    × (length bs ≡ suc (length rs))
    × All (Shape memtree_min_elements d) bs

-- The root may have fewer: none if it is a leaf, and one if not.
abbrev pub root_least : ℕ → ℕ
root_least zero = 0
root_least (suc d) = 1

abbrev pub least : (d : ℕ) → Above d → ℕ
least d (root _) = root_least d
least d (parent _ rs bs pos above) = memtree_min_elements

abbrev pub AboveShape : (d : ℕ) → Above d → Type 0
AboveShape d (root _) = Unit
AboveShape d (parent _ rs bs pos above) =
    Shape (least (suc d) above) (suc d) (rs, bs) × (pos < length bs) × AboveShape (suc d) above

-- What stands in the tree before a node and behind it.
abbrev pub before : (d : ℕ) → Above d → List Entry
before d (root _) = []
before d (parent _ rs bs pos above) =
    before (suc d) above ++ left (records d) (take pos bs) (take pos rs)

abbrev pub behind : (d : ℕ) → Above d → List Entry
behind d (root _) = []
behind d (parent _ rs bs pos above) =
    right (records d) (drop (suc pos) bs) (drop pos rs) ++ behind (suc d) above

pub All-get :
    {A : Type 0} (P : A → Type 0) (i : ℕ) (xs : List A) (x : A)
    → All P xs
    → get_elem? xs i ≡ some x
    → P x
All-get P i [] x all e = cc e
All-get P zero (y ∷ xs) x all e = let same : y ≡ x = cc e in rw (← same) all.0
All-get P (suc i) (y ∷ xs) x all e = All-get P i xs x all.1 e

pub All-set :
    {A : Type 0} (P : A → Type 0) (i : ℕ) (xs : List A) (x : A)
    → All P xs
    → P x
    → All P (set xs i x)
All-set P i [] x all p = tt
All-set P zero (y ∷ xs) x all p = (p, all.1)
All-set P (suc i) (y ∷ xs) x all p = (all.0, All-set P i xs x all.1 p)

pub All-inserted :
    {A : Type 0} (P : A → Type 0) (i : ℕ) (xs : List A) (x : A)
    → All P xs
    → P x
    → All P (inserted i x xs)
All-inserted P zero xs x all p = (p, all)
All-inserted P (suc i) [] x all p = (p, tt)
All-inserted P (suc i) (y ∷ xs) x all p = (all.0, All-inserted P i xs x all.1 p)

pub All-take : {A : Type 0} (P : A → Type 0) (i : ℕ) (xs : List A) → All P xs → All P (take i xs)
All-take P zero xs all = tt
All-take P (suc i) [] all = tt
All-take P (suc i) (y ∷ xs) all = (all.0, All-take P i xs all.1)

pub All-drop : {A : Type 0} (P : A → Type 0) (i : ℕ) (xs : List A) → All P xs → All P (drop i xs)
All-drop P zero xs all = all
All-drop P (suc i) [] all = tt
All-drop P (suc i) (y ∷ xs) all = All-drop P i xs all.1

abbrev pub records_of : (r : ℕ) × Node r → List Entry
records_of (r, node) = records r node

abbrev pub IsRooted : (r : ℕ) × Node r → Type 0
IsRooted (r, node) = Shape (root_least r) r node

-- With a branch replaced.
pub weave-set :
    (d : ℕ) (rs : List Entry) (bs : List (Node d)) (pos : ℕ) (node : Node d)
    → length bs ≡ suc (length rs)
    → pos < length bs
    → weave (records d) (set bs pos node) rs
      ≡ left (records d) (take pos bs) (take pos rs)
        ++ (records d node ++ right (records d) (drop (suc pos) bs) (drop pos rs))
weave-set d rs bs pos node e inside =
    let at =
      weave-at (records d) pos node (set bs pos node) rs (length-set bs pos node ∙ e)
        (get-set pos bs node inside) in
    rw (take-set pos bs node, drop-set pos bs node) at at

pub Shape-set :
    (low d : ℕ) (rs : List Entry) (bs : List (Node d)) (pos : ℕ) (node : Node d)
    → Shape low (suc d) (rs, bs)
    → Shape memtree_min_elements d node
    → Shape low (suc d) (rs, set bs pos node)
Shape-set low d rs bs pos node (a, b, c, all) p =
    (a, b, length-set bs pos node ∙ c, All-set (Shape memtree_min_elements d) pos bs node all p)

pub regroup : (a b c d e : List Entry) → a ++ ((b ++ (c ++ d)) ++ e) ≡ (a ++ b) ++ (c ++ (d ++ e))
regroup a b c d e = simp (append_assoc)

-- The tree from a node that has changed: its records stand between those before and behind.
pub plug-records :
    (d : ℕ) (node : Node d) (above : Above d)
    → AboveShape d above
    → Shape (least d above) d node
    → (records_of (plug d node above) ≡ before d above ++ (records d node ++ behind d above))
      × IsRooted (plug d node above)
unfolding plug
plug-records d node (root _) shape p = (sym (append-nil (records d node)), p)
plug-records d node (parent _ rs bs pos above) (shape, inside, shapes) p =
    let (same, rooted) =
      plug-records (suc d) (rs, set bs pos node) above shapes
        (Shape-set (least (suc d) above) d rs bs pos node shape p) in
    let l = left (records d) (take pos bs) (take pos rs) in
    let r = right (records d) (drop (suc pos) bs) (drop pos rs) in
    (
      same
          ∙ rw (weave-set d rs bs pos node shape.2 inside)
              (regroup (before (suc d) above) l (records d node) r (behind (suc d) above)),
      rooted,
    )
