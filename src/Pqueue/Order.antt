-- ===== src/Pqueue/Order.antt =====
-- The heap order of an array, as a function of the place, while one element is out of order.
use Prim.Native.Nat.{Ordering, lt, gt}
use zeroskip.Prelude.{
  ℕ, ◌-◌, ◌/◌, ◌<◌, ◌≡◌, ◌≢◌, ◌⊎◌, inl, inr, refl, sym, ap, ◌∙◌, false, arith, ◌==◌, if◌then◌else◌,
  if-true, if-false, ==_iff,
}

abbrev pub parent : ℕ → ℕ
parent k = (k - 1) / 2

-- A comparison that is a total preorder.
pub record IsOrder {A : Type 0} (cmp : A → A → Ordering) : Type 0 where
  pub turned : (a b : A) → cmp a b ≡ gt → cmp b a ≡ lt
  pub trans : (a b c : A) → cmp a b ≢ gt → cmp b c ≢ gt → cmp a c ≢ gt

pub not_greater :
    {A : Type 0} (cmp : A → A → Ordering) (order : IsOrder cmp) (a b : A)
    → cmp a b ≡ gt
    → cmp b a ≢ gt
not_greater cmp order a b e f = let less = order.turned a b e in cc (less, f)

abbrev pub swapped : {A : Type 0} → (ℕ → A) → ℕ → ℕ → ℕ → A
swapped h i j k = if k == i then h j else if k == j then h i else h k

pub same_or_not : (a b : ℕ) → (a ≡ b) ⊎ (a ≢ b)
same_or_not a b = ground arith

not_same : (a b : ℕ) → a ≢ b → (a == b) ≡ false
not_same a b h = ground (arith, h)

module _ {A : Type 0} (h : ℕ → A) (i j : ℕ) where
  pub swapped-first : swapped h i j i ≡ h j
  swapped-first = if-true _ _ _ ((==_iff i i).1 refl)

  pub swapped-second : i ≢ j → swapped h i j j ≡ h i
  swapped-second d =
      if-false _ _ _ (not_same j i (λ e. d (sym e))) ∙ if-true _ _ _ ((==_iff j j).1 refl)

  pub swapped-other : (k : ℕ) → k ≢ i → k ≢ j → swapped h i j k ≡ h k
  swapped-other k d e = if-false _ _ _ (not_same k i d) ∙ if-false _ _ _ (not_same k j e)

module _ {A : Type 0} (cmp : A → A → Ordering) where
  abbrev pub Heap : (ℕ → A) → ℕ → Type 0
  Heap h n = (k : ℕ) → 0 < k → k < n → cmp (h (parent k)) (h k) ≢ gt

  pub by_ends : (x x' y y' : A) → x ≡ x' → y ≡ y' → cmp x' y' ≢ gt → cmp x y ≢ gt
  by_ends x x' y y' p q fine e = fine (rw (← p, ← q) e)

  -- In order but for the element at `i` and its parent.
  pub record Almost (h : ℕ → A) (i n : ℕ) : Type 0 where
    pub others : (k : ℕ) → 0 < k → k < n → k ≢ i → cmp (h (parent k)) (h k) ≢ gt
    pub below : (k : ℕ) → 0 < i → k < n → 0 < k → parent k ≡ i → cmp (h (parent i)) (h k) ≢ gt

  pub Almost-top : (h : ℕ → A) (n : ℕ) → Almost h 0 n → Heap h n
  Almost-top h n a k pos inside = a.others k pos inside (λ e. absurd (omega (arith, e, pos)))

  pub Almost-done : (h : ℕ → A) (i n : ℕ) → Almost h i n → cmp (h (parent i)) (h i) ≢ gt → Heap h n
  Almost-done h i n a fine k pos inside = elim (same_or_not k i) [
    | inl same ↦ rw same fine
    | inr other ↦ a.others k pos inside other
  ]

  module _ (order : IsOrder cmp) (h : ℕ → A) (i n : ℕ) (a : Almost h i n) (pos : 0 < i)
      (inside : i < n) (wrong : cmp (h (parent i)) (h i) ≡ gt) where
    lifted : cmp (h i) (h (parent i)) ≢ gt
    lifted = not_greater cmp order (h (parent i)) (h i) wrong

    apart : parent i ≢ i
    apart e = absurd (omega (arith, e, pos))

    step_others :
        (k : ℕ)
        → 0 < k
        → k < n
        → k ≢ parent i
        → cmp (swapped h (parent i) i (parent k)) (swapped h (parent i) i k) ≢ gt
    step_others k p b other =
        let j = parent i in
        elim (same_or_not k i) [
          | inl same ↦
              let up : swapped h j i (parent k) ≡ h i =
                ap (λ (m : ℕ). swapped h j i (parent m)) same ∙ swapped-first h j i in
              let down : swapped h j i k ≡ h j =
                ap (swapped h j i) same ∙ swapped-second h j i apart in
              by_ends _ _ _ _ up down lifted
          | inr differs ↦
              let down = swapped-other h j i k other differs in
              elim (same_or_not (parent k) i) [
                | inl child ↦
                    by_ends _ _ _ _ (ap (swapped h j i) child ∙ swapped-second h j i apart) down
                      (a.below k pos b p child)
                | inr no_child ↦ elim (same_or_not (parent k) j) [
                  | inl sibling ↦
                      let over : cmp (h j) (h k) ≢ gt =
                        by_ends _ _ _ _ (ap h (sym sibling)) refl (a.others k p b differs) in
                      by_ends _ _ _ _ (ap (swapped h j i) sibling ∙ swapped-first h j i) down
                        (order.trans (h i) (h j) (h k) lifted over)
                  | inr far ↦
                      by_ends _ _ _ _ (swapped-other h j i (parent k) far no_child) down
                        (a.others k p b differs)
                ]
              ]
        ]

    step_below :
        (k : ℕ)
        → 0 < parent i
        → k < n
        → 0 < k
        → parent k ≡ parent i
        → cmp (swapped h (parent i) i (parent (parent i))) (swapped h (parent i) i k) ≢ gt
    step_below k above b p sibling =
        let j = parent i in
        let up =
          swapped-other h j i (parent j) (λ e. absurd (omega (arith, e, above)))
            (λ e. absurd (omega (arith, e, above, pos))) in
        let over : cmp (h (parent j)) (h j) ≢ gt =
          a.others j above (omega (arith, inside, pos)) apart in
        elim (same_or_not k i) [
          | inl same ↦
              by_ends _ _ _ _ up (ap (swapped h j i) same ∙ swapped-second h j i apart) over
          | inr differs ↦
              let under : cmp (h j) (h k) ≢ gt =
                by_ends _ _ _ _ (ap h (sym sibling)) refl (a.others k p b differs) in
              by_ends _ _ _ _ up
                (swapped-other h j i k (λ e. absurd (omega (arith, e, sibling, p))) differs)
                (order.trans (h (parent j)) (h j) (h k) over under)
        ]

    pub Almost-step : Almost (swapped h (parent i) i) (parent i) n
    Almost-step = record { others = step_others; below = step_below }
