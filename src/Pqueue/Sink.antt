-- ===== src/Pqueue/Sink.antt =====
-- The heap order of an array while one element may be greater than those below it.
use Prim.Native.Nat.{Ordering, gt}
use zeroskip.Prelude.{ℕ, zero, suc, ◌<◌, ◌≡◌, ◌≢◌, inl, inr, refl, sym, ap, ◌∙◌, arith}
use zeroskip.Pqueue.Order.{
  parent, IsOrder, swapped, swapped-first, swapped-second, swapped-other, same_or_not, Heap,
  by_ends, not_greater,
}

module _ {A : Type 0} (cmp : A → A → Ordering) where
  -- In order but for the element at `i` and those below it.
  pub record Sinking (h : ℕ → A) (i n : ℕ) : Type 0 where
    pub others : (k : ℕ) → 0 < k → k < n → parent k ≢ i → cmp (h (parent k)) (h k) ≢ gt
    pub above : (k : ℕ) → 0 < i → k < n → 0 < k → parent k ≡ i → cmp (h (parent i)) (h k) ≢ gt

  pub Sinking-done :
      (h : ℕ → A) (i n : ℕ)
      → Sinking h i n
      → ((k : ℕ) → 0 < k → k < n → parent k ≡ i → cmp (h i) (h k) ≢ gt)
      → Heap cmp h n
  Sinking-done h i n a fine k pos inside = elim (same_or_not (parent k) i) [
    | inl child ↦ by_ends cmp _ _ _ _ (ap h child) refl (fine k pos inside child)
    | inr other ↦ a.others k pos inside other
  ]

  module _ (order : IsOrder cmp) (h : ℕ → A) (i j n : ℕ) (a : Sinking h i n) (pos : 0 < j)
      (inside : j < n) (child : parent j ≡ i)
      (least : (k : ℕ) → 0 < k → k < n → parent k ≡ i → cmp (h j) (h k) ≢ gt)
      (wrong : cmp (h i) (h j) ≡ gt) where
    apart : j ≢ i
    apart e = absurd (omega (arith, e, child, pos))

    sink_others :
        (k : ℕ)
        → 0 < k
        → k < n
        → parent k ≢ j
        → cmp (swapped h j i (parent k)) (swapped h j i k) ≢ gt
    sink_others k p b other = elim (same_or_not k j) [
      | inl same ↦
          by_ends cmp _ _ _ _
            (ap (λ (m : ℕ). swapped h j i (parent m)) same
              ∙ ap (swapped h j i) child
              ∙ swapped-second h j i apart)
            (ap (swapped h j i) same ∙ swapped-first h j i)
            (not_greater cmp order (h i) (h j) wrong)
      | inr differs ↦ elim (same_or_not (parent k) i) [
        | inl sibling ↦
            by_ends cmp _ _ _ _ (ap (swapped h j i) sibling ∙ swapped-second h j i apart)
              (swapped-other h j i k differs (λ e. absurd (omega (arith, e, sibling, p))))
              (least k p b sibling)
        | inr far ↦ elim (same_or_not k i) [
          | inl same ↦
              let high : 0 < i = omega (arith, same, p) in
              by_ends cmp _ _ _ _
                (swapped-other h j i (parent k) other far ∙ ap (λ (m : ℕ). h (parent m)) same)
                (ap (swapped h j i) same ∙ swapped-second h j i apart)
                (a.above j high inside pos child)
          | inr elsewhere ↦
              by_ends cmp _ _ _ _ (swapped-other h j i (parent k) other far)
                (swapped-other h j i k differs elsewhere) (a.others k p b far)
        ]
      ]
    ]

    sink_above :
        (k : ℕ)
        → 0 < j
        → k < n
        → 0 < k
        → parent k ≡ j
        → cmp (swapped h j i (parent j)) (swapped h j i k) ≢ gt
    sink_above k q b p under =
        let not_i : k ≢ i = λ e. absurd (omega (arith, e, under, child, p, pos)) in
        let not_j : k ≢ j = λ e. absurd (omega (arith, e, under, p)) in
        by_ends cmp _ _ _ _ (ap (swapped h j i) child ∙ swapped-second h j i apart)
          (swapped-other h j i k not_j not_i)
          (by_ends cmp _ _ _ _ (ap h (sym under)) refl
            (a.others k p b (λ e. apart (sym under ∙ e))))

    pub Sinking-step : Sinking (swapped h j i) j n
    Sinking-step = record { others = sink_others; above = sink_above }

  -- The first element is not greater than any.
  pub Heap-first :
      IsOrder cmp
      → (h : ℕ → A) (n fuel k : ℕ) → Heap cmp h n
      → k < fuel
      → k < n
      → cmp (h 0) (h k) ≢ gt
  Heap-first order h n zero k heap enough inside = elim enough [ ]
  Heap-first order h n (suc fuel) zero heap enough inside =
      λ e. not_greater cmp order (h 0) (h 0) e e
  Heap-first order h n (suc fuel) (suc m) heap enough inside =
      order.trans (h 0) (h (parent (suc m))) (h (suc m))
        (Heap-first order h n fuel (parent (suc m)) heap (omega (arith, enough))
          (omega (arith, inside)))
        (heap (suc m) (omega arith) inside)
