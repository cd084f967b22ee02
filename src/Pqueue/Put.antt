-- ===== src/Pqueue/Put.antt =====
-- Putting an element in a priority queue.
use Prim.Native.Nat.{Ordering, lt, eq, gt}
use zeroskip.Prelude.{
  ℕ, zero, suc, ◌+◌, ◌/◌, ◌<◌, ◌≡◌, ◌≢◌, inl, inr, refl, sym, ap, ◌∙◌, true, false, some, List, [],
  ◌∷◌, ◌++◌, arith, length, length-append, length-set, get_elem?, get_or, set, Bool-cases,
}
use zeroskip.Record.{returned}
use zeroskip.Search.Tables.{get_elem?-out}
use zeroskip.Pqueue.{is_greater, cmp_at, swp, sift_up, pqueue_put}
use zeroskip.Pqueue.Order.{
  parent, IsOrder, swapped, swapped-first, swapped-second, swapped-other, same_or_not, Heap, Almost,
  Almost-top, Almost-done, Almost-step,
}

module _ {A : Type 0} where
  -- The sum of a function over the elements: arrays with the same sums for every function have the
  -- same elements, each as often.
  abbrev pub total : (A → ℕ) → List A → ℕ
  total f [] = 0
  total f (x ∷ xs) = f x + total f xs

  pub total-append : (f : A → ℕ) (xs : List A) (x : A) → total f (xs ++ (x ∷ [])) ≡ total f xs + f x
  total-append f [] x = omega arith
  total-append f (y ∷ xs) x = omega (arith, total-append f xs x)

  module _ (d : A) where
    pub get_elem?-get_or :
        (xs : List A) (i : ℕ) → i < length xs → get_elem? xs i ≡ some (get_or xs i d)
    get_elem?-get_or [] i h = elim h [ ]
    get_elem?-get_or (x ∷ xs) zero h = refl
    get_elem?-get_or (x ∷ xs) (suc i) h = get_elem?-get_or xs i (omega arith)

    total-set :
        (f : A → ℕ) (xs : List A) (i : ℕ) (v : A)
        → i < length xs
        → total f (set xs i v) + f (get_or xs i d) ≡ total f xs + f v
    total-set f [] i v h = elim h [ ]
    total-set f (x ∷ xs) zero v h = omega arith
    total-set f (x ∷ xs) (suc i) v h = omega (arith, total-set f xs i v (omega arith))

    get_or-set : (xs : List A) (i : ℕ) (v : A) → i < length xs → get_or (set xs i v) i d ≡ v
    get_or-set [] i v h = elim h [ ]
    get_or-set (x ∷ xs) zero v h = refl
    get_or-set (x ∷ xs) (suc i) v h = get_or-set xs i v (omega arith)

    get_or-set_other :
        (xs : List A) (i k : ℕ) (v : A) → k ≢ i → get_or (set xs i v) k d ≡ get_or xs k d
    get_or-set_other [] i k v h = refl
    get_or-set_other (x ∷ xs) zero zero v h = absurd (h refl)
    get_or-set_other (x ∷ xs) zero (suc k) v h = refl
    get_or-set_other (x ∷ xs) (suc i) zero v h = refl
    get_or-set_other (x ∷ xs) (suc i) (suc k) v h =
        get_or-set_other xs i k v (λ e. h (omega (arith, e)))

    unfoldable pub view : List A → ℕ → A
    view xs k = get_or xs k d

    -- The array after a swap of `j` and `i`.
    pub swap_arr : List A → ℕ → ℕ → List A
    swap_arr xs j i = set (set xs j (get_or xs i d)) i (get_or xs j d)

    module _ (xs : List A) (j i : ℕ) (hj : j < length xs) (hi : i < length xs) (apart : j ≢ i) where
      pub view-swap : (k : ℕ) → view (swap_arr xs j i) k ≡ swapped (view xs) j i k
      unfolding view swap_arr
      view-swap k =
          let first = set xs j (get_or xs i d) in
          let size = length-set xs j (get_or xs i d) in
          elim (same_or_not k i) [
            | inl at_i ↦
                ap (λ (m : ℕ). get_or (set first i (get_or xs j d)) m d) at_i
                ∙ get_or-set first i (get_or xs j d) (omega (arith, size, hi))
                ∙ sym (ap (swapped (view xs) j i) at_i ∙ swapped-second (view xs) j i apart)
            | inr not_i ↦
                get_or-set_other first i k (get_or xs j d) not_i ∙ elim (same_or_not k j) [
                  | inl at_j ↦
                      ap (λ (m : ℕ). get_or first m d) at_j
                      ∙ get_or-set xs j (get_or xs i d) hj
                      ∙ sym (ap (swapped (view xs) j i) at_j ∙ swapped-first (view xs) j i)
                  | inr not_j ↦
                      get_or-set_other xs j k (get_or xs i d) not_j
                      ∙ sym (swapped-other (view xs) j i k not_j not_i)
                ]
          ]

      pub total-swap : (f : A → ℕ) → total f (swap_arr xs j i) ≡ total f xs
      unfolding swap_arr
      total-swap f =
          let first = set xs j (get_or xs i d) in
          let kept = ap f (get_or-set_other xs j i (get_or xs i d) (λ e. apart (sym e))) in
          omega (
            arith,
            total-set f xs j (get_or xs i d) hj,
            total-set f first i (get_or xs j d)
                (omega (arith, length-set xs j (get_or xs i d), hi)),
            kept,
          )

      pub length-swap : length (swap_arr xs j i) ≡ length xs
      unfolding swap_arr
      length-swap =
          length-set (set xs j (get_or xs i d)) i (get_or xs j d) ∙ length-set xs j (get_or xs i d)

      pub swp_lem : swp xs j i ≡ some (swap_arr xs j i)
      unfolding swp swap_arr
      swp_lem = rw (get_elem?-get_or xs j hj, get_elem?-get_or xs i hi)

pub is_greater-gt : (o : Ordering) → is_greater o ≡ true → o ≡ gt
is_greater-gt gt e = refl
is_greater-gt lt e = cc e
is_greater-gt eq e = cc e

pub less_or_same : (o : Ordering) → is_greater o ≡ false → o ≢ gt
less_or_same gt e f = cc e
less_or_same lt e f = cc f
less_or_same eq e f = cc f

module _ {A : Type 0} (cmp : A → A → Ordering) where
  -- No element is greater than those below it.
  abbrev pub IsHeap : List A → Type 0
  IsHeap arr =
      (k : ℕ) (a b : A)
      → 0 < k
      → get_elem? arr (parent k) ≡ some a
      → get_elem? arr k ≡ some b
      → cmp a b ≢ gt

  module _ (order : IsOrder cmp) (d : A) where
    Almost-same :
        (h h' : ℕ → A) (i n : ℕ) → ((k : ℕ) → h' k ≡ h k) → Almost cmp h i n → Almost cmp h' i n
    Almost-same h h' i n same a = record {
      others = λ k p b o e. a.others k p b o (rw (← same (parent k), ← same k) e);
      below = λ k p b q r e. a.below k p b q r (rw (← same (parent i), ← same k) e);
    }

    sift_up_lem :
        (fuel : ℕ) (arr : List A) (i : ℕ)
        → i < fuel
        → i < length arr
        → Almost cmp (view d arr) i (length arr)
        → (arr' : List A) × (sift_up cmp fuel arr i ≡ returned arr')
          × Heap cmp (view d arr') (length arr')
          × (length arr' ≡ length arr)
          × ((f : A → ℕ) → total f arr' ≡ total f arr)
    unfolding sift_up cmp_at view
    sift_up_lem zero arr i enough inside a = elim enough [ ]
    sift_up_lem (suc fuel) arr zero enough inside a =
        (arr, refl, Almost-top cmp (view d arr) (length arr) a, refl, λ f. refl)
    sift_up_lem (suc fuel) arr (suc n) enough inside a =
        let i = suc n in
        let j = n / 2 in
        let up : parent i ≡ j = omega arith in
        let hj : j < length arr = omega (arith, inside) in
        let apart : j ≢ i = λ e. absurd (omega (arith, e)) in
        let compared : cmp_at cmp arr j i ≡ some (cmp (view d arr j) (view d arr i)) =
          rw (get_elem?-get_or d arr j hj, get_elem?-get_or d arr i inside) in
        elim (Bool-cases (is_greater (cmp (view d arr j) (view d arr i)))) [
          | inl more ↦
              let wrong = is_greater-gt _ more in
              let swap = swap_arr d arr j i in
              let size = length-swap d arr j i hj inside apart in
              let step = rw up at (
                Almost-step cmp order (view d arr) i (length arr) a (omega arith) inside
                  (rw up wrong)) in
              let almost =
                Almost-same (swapped (view d arr) j i) (view d swap) j (length arr)
                  (view-swap d arr j i hj inside apart) step in
              let (arr', ran, heap, same, kept) =
                sift_up_lem fuel swap j (omega arith) (omega (arith, size, hj)) (rw size almost) in
              (
                arr',
                rw (sift_up, compared, more, swp_lem d arr j i hj inside apart) ran,
                heap,
                same ∙ size,
                λ f. kept f ∙ total-swap d arr j i hj inside apart f,
              )
          | inr less ↦ (
            arr,
            rw (sift_up, compared, less),
            Almost-done cmp (view d arr) i (length arr) a (rw up (less_or_same _ less)),
            refl,
            λ f. refl,
          )
        ]

    pub Heap-view : (arr : List A) → IsHeap arr → Heap cmp (view d arr) (length arr)
    unfolding view
    Heap-view arr heap k pos inside =
        heap k (get_or arr (parent k) d) (get_or arr k d) pos
          (get_elem?-get_or d arr (parent k) (omega (arith, inside)))
          (get_elem?-get_or d arr k inside)

    pub view-Heap : (arr : List A) → Heap cmp (view d arr) (length arr) → IsHeap arr
    unfolding view
    view-Heap arr heap k a b pos at_parent here e =
        let inside = get_elem?-out arr k b here in
        let up : some a ≡ some (get_or arr (parent k) d) =
          sym at_parent ∙ get_elem?-get_or d arr (parent k) (omega (arith, inside)) in
        let down : some b ≡ some (get_or arr k d) = sym here ∙ get_elem?-get_or d arr k inside in
        let p : a ≡ get_or arr (parent k) d = cc up in
        let q : b ≡ get_or arr k d = cc down in heap k pos inside (rw (← p, ← q) e)

    pub get_or-append :
        (xs : List A) (x : A) (k : ℕ) → k < length xs → get_or (xs ++ (x ∷ [])) k d ≡ get_or xs k d
    get_or-append [] x k h = elim h [ ]
    get_or-append (y ∷ xs) x zero h = refl
    get_or-append (y ∷ xs) x (suc k) h = get_or-append xs x k (omega arith)

    -- A new last element is all that may be out of order.
    put-Almost :
        (arr : List A) (x : A)
        → IsHeap arr
        → Almost cmp (view d (arr ++ (x ∷ []))) (length arr) (length (arr ++ (x ∷ [])))
    unfolding view
    put-Almost arr x heap =
        let size = length-append arr (x ∷ []) in
        record {
          others = λ k p b o e.
              let inside : k < length arr = omega (arith, b, o, size) in
              Heap-view arr heap k p inside (
                rw
                  (
                    ← get_or-append arr x (parent k) (omega (arith, inside)),
                    ← get_or-append arr x k inside,
                  )
                  e);
          below = λ k p b q r e. absurd (omega (arith, b, r, q, size));
        }

  -- Putting an element in a queue whose array is in heap order, with a comparison that is a total
  -- preorder and more rounds of fuel than elements: the call returns, the array is in heap order
  -- and has the element in addition to those it had, each as often.
  pub pqueue_put-IsHeap :
      (order : IsOrder cmp) (fuel : ℕ) (arr : List A) (x : A)
      → IsHeap arr
      → length arr < fuel
      → (arr' : List A) × (pqueue_put cmp fuel arr x ≡ returned arr')
        × IsHeap arr'
        × (length arr' ≡ suc (length arr))
        × ((f : A → ℕ) → total f arr' ≡ total f arr + f x)
  unfolding pqueue_put
  pqueue_put-IsHeap order fuel arr x heap enough =
      let longer = arr ++ (x ∷ []) in
      let size = length-append arr (x ∷ []) in
      let (arr', ran, heap', same, kept) =
        sift_up_lem order x fuel longer (length arr) enough (omega (arith, size))
          (put-Almost order x arr x heap) in
      (
        arr',
        ran,
        view-Heap order x arr' heap',
        omega (arith, same, size),
        λ f. kept f ∙ total-append f arr x,
      )
