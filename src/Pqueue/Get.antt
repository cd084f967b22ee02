-- ===== src/Pqueue/Get.antt =====
-- Taking the first element out of a priority queue.
use Prim.Native.Nat.{Ordering, lt, eq, gt}
use zeroskip.Prelude.{
  ℕ, zero, suc, ◌+◌, ◌*◌, ◌<◌, ◌≤◌, ◌≡◌, ◌≢◌, ◌⊎◌, inl, inr, refl, sym, ap, ◌∙◌, true, false, some,
  List, [], ◌∷◌, ◌++◌, arith, length, length-append, get_elem?, take, take-append, ltb, ltb→lt,
  ltb→le, Bool-cases, if-false,
}
use zeroskip.Record.{returned}
use zeroskip.Search.Tables.{get_elem?-out}
use zeroskip.Pqueue.{is_greater, is_less, cmp_at, lesser_child, sift_down, pqueue_get}
use zeroskip.Pqueue.Order.{parent, IsOrder, swapped, Heap, by_ends, not_greater}
use zeroskip.Pqueue.Sink.{Sinking, Sinking-done, Sinking-step, Heap-first}
use zeroskip.Pqueue.Put.{
  total, total-append, get_elem?-get_or, view, swap_arr, view-swap, total-swap, length-swap,
  swp_lem, IsHeap, is_greater-gt, less_or_same, Heap-view, view-Heap, get_or-append,
}

is_less-lt : (o : Ordering) → is_less o ≡ true → o ≡ lt
is_less-lt lt e = refl
is_less-lt eq e = cc e
is_less-lt gt e = cc e

module _ {A : Type 0} (cmp : A → A → Ordering) (order : IsOrder cmp) (d : A) where
  compared :
      (arr : List A) (i j : ℕ)
      → i < length arr
      → j < length arr
      → cmp_at cmp arr i j ≡ some (cmp (view d arr i) (view d arr j))
  unfolding cmp_at view
  compared arr i j hi hj = rw (get_elem?-get_or d arr i hi, get_elem?-get_or d arr j hj)

  -- A child of `i` that is not greater than the other.
  abbrev Lesser : List A → ℕ → Type 0
  Lesser arr i =
      (j : ℕ) × (lesser_child cmp arr i ≡ some j)
      × (parent j ≡ i)
      × (0 < j)
      × (j < length arr)
      × ((k : ℕ) → 0 < k → k < length arr → parent k ≡ i → cmp (view d arr j) (view d arr k) ≢ gt)

  lesser_child_lem : (arr : List A) (i : ℕ) → i * 2 + 1 < length arr → Lesser arr i
  unfolding lesser_child
  lesser_child_lem arr i inside =
      let j = i * 2 + 1 in
      let self : (k : ℕ) → cmp (view d arr k) (view d arr k) ≢ gt =
        λ k e. not_greater cmp order _ _ e e in
      elim (Bool-cases (ltb (j + 1) (length arr))) [
        | inr only ↦
            let bound = ltb→le (j + 1) (length arr) only in
            (
              j,
              if-false _ _ _ only,
              omega arith,
              omega arith,
              inside,
              λ k p b child.
                  let e : k ≡ j = omega (arith, p, b, child, bound) in
                  by_ends cmp _ _ _ _ refl (ap (view d arr) e) (self j),
            )
        | inl both ↦
            let bound = ltb→lt (j + 1) (length arr) both in
            let seen = compared arr j (j + 1) inside bound in
            let child_cases : (k : ℕ) → 0 < k → parent k ≡ i → (k ≡ j) ⊎ (k ≡ j + 1) =
              λ k p child. ground (arith, p, child) in
            elim (Bool-cases (is_less (cmp (view d arr j) (view d arr (j + 1))))) [
              | inl less ↦
                  let o = is_less-lt _ less in
                  (
                    j,
                    rw (both, seen, less),
                    omega arith,
                    omega arith,
                    inside,
                    λ k p b child. elim (child_cases k p child) [
                      | inl e ↦ by_ends cmp _ _ _ _ refl (ap (view d arr) e) (self j)
                      | inr e ↦ by_ends cmp _ _ _ _ refl (ap (view d arr) e) (λ f. cc (o, f))
                    ],
                  )
              | inr more ↦ (
                j + 1,
                rw (both, seen, more),
                omega arith,
                omega arith,
                bound,
                λ k p b child. elim (child_cases k p child) [
                  | inl e ↦ by_ends cmp _ _ _ _ refl (ap (view d arr) e) (λ f.
                      let o = order.turned _ _ f in (let g : true ≡ false = rw o at more in cc g))
                  | inr e ↦ by_ends cmp _ _ _ _ refl (ap (view d arr) e) (self (j + 1))
                ],
              )
            ]
      ]

  Sinking-same :
      (h h' : ℕ → A) (i n : ℕ) → ((k : ℕ) → h' k ≡ h k) → Sinking cmp h i n → Sinking cmp h' i n
  Sinking-same h h' i n same a = record {
    others = λ k p b o. by_ends cmp _ _ _ _ (same (parent k)) (same k) (a.others k p b o);
    above = λ k p b q r. by_ends cmp _ _ _ _ (same (parent i)) (same k) (a.above k p b q r);
  }

  sift_down_lem :
      (fuel : ℕ) (arr : List A) (i : ℕ)
      → length arr < i + fuel
      → i < length arr
      → Sinking cmp (view d arr) i (length arr)
      → (arr' : List A) × (sift_down cmp fuel arr i ≡ returned arr')
        × Heap cmp (view d arr') (length arr')
        × (length arr' ≡ length arr)
        × ((f : A → ℕ) → total f arr' ≡ total f arr)
  unfolding sift_down
  sift_down_lem zero arr i enough inside a = absurd (omega arith)
  sift_down_lem (suc fuel) arr i enough inside a =
      elim (Bool-cases (ltb (i * 2 + 1) (length arr))) [
        | inr leaf ↦
            let bound = ltb→le (i * 2 + 1) (length arr) leaf in
            (
              arr,
              if-false _ _ _ leaf,
              Sinking-done cmp (view d arr) i (length arr) a
                  (λ k p b child. absurd (omega (arith, p, b, child, bound))),
              refl,
              λ f. refl,
            )
        | inl deeper ↦
            let (j, chosen, child, pos, hj, least) = lesser_child_lem arr i (ltb→lt _ _ deeper) in
            let apart : j ≢ i = λ e. absurd (omega (arith, e, child, pos)) in
            let seen = compared arr i j inside hj in
            elim (Bool-cases (is_greater (cmp (view d arr i) (view d arr j)))) [
              | inr fine ↦
                  let le_child = less_or_same _ fine in
                  (
                    arr,
                    rw (deeper, chosen, seen, fine),
                    Sinking-done cmp (view d arr) i (length arr) a
                        (λ k p b under. order.trans _ _ _ le_child (least k p b under)),
                    refl,
                    λ f. refl,
                  )
              | inl more ↦
                  let wrong = is_greater-gt _ more in
                  let swap = swap_arr d arr j i in
                  let size = length-swap d arr j i hj inside apart in
                  let step =
                    Sinking-step cmp order (view d arr) i j (length arr) a pos hj child least
                      wrong in
                  let sinking =
                    Sinking-same (swapped (view d arr) j i) (view d swap) j (length arr)
                      (view-swap d arr j i hj inside apart) step in
                  let (arr', ran, heap, same, kept) =
                    sift_down_lem fuel swap j (omega (arith, size, child, pos))
                      (omega (arith, size, hj)) (rw size sinking) in
                  (
                    arr',
                    rw (deeper, chosen, seen, more, swp_lem d arr j i hj inside apart) ran,
                    heap,
                    same ∙ size,
                    λ f. kept f ∙ total-swap d arr j i hj inside apart f,
                  )
            ]
      ]

  get_last : (t : List A) (w : A) (n : ℕ) → n ≡ length t → get_elem? (t ++ (w ∷ [])) n ≡ some w
  get_last [] w n e = rw e
  get_last (y ∷ t) w n e = rw e (get_last t w (length t) refl)

  last_apart :
      (y : A) (rest : List A)
      → (t : List A) × (w : A) × (y ∷ rest ≡ t ++ (w ∷ [])) × (length t ≡ length rest)
  last_apart y [] = ([], y, refl, refl)
  last_apart y (z ∷ rest) =
      let (t, w, whole, size) = last_apart z rest in (y ∷ t, w, ap (◌∷◌ y) whole, ap suc size)

  view_moved :
      (x w : A) (t : List A) (k : ℕ)
      → 0 < k
      → k < suc (length t)
      → view d (w ∷ t) k ≡ view d (x ∷ (t ++ (w ∷ []))) k
  unfolding view
  view_moved x w t zero pos inside = elim pos [ ]
  view_moved x w t (suc k) pos inside = sym (get_or-append cmp order d t w k (omega arith))

  moved-Sinking :
      (x w : A) (t : List A)
      → IsHeap cmp (x ∷ (t ++ (w ∷ [])))
      → Sinking cmp (view d (w ∷ t)) 0 (length (w ∷ t))
  moved-Sinking x w t heap =
      let whole = x ∷ (t ++ (w ∷ [])) in
      let size = length-append t (w ∷ []) in
      record {
        others = λ k p b o.
            let high : 0 < parent k = ground (arith, o) in
            by_ends cmp _ _ _ _ (view_moved x w t (parent k) high (omega (arith, b)))
              (view_moved x w t k p b)
              (Heap-view cmp order d whole heap k p (omega (arith, b, size)));
        above = λ k p b q r. elim p [ ];
      }

  -- The elements but the first, with the last in its place.
  get_many :
      (fuel : ℕ) (x y : A) (rest : List A)
      → IsHeap cmp (x ∷ (y ∷ rest))
      → length (y ∷ rest) < fuel
      → (arr' : List A) × (pqueue_get cmp fuel (x ∷ (y ∷ rest)) ≡ returned (some x, arr'))
        × IsHeap cmp arr'
        × (length arr' ≡ length (y ∷ rest))
        × ((f : A → ℕ) → total f arr' + f x ≡ total f (x ∷ (y ∷ rest)))
  unfolding pqueue_get
  get_many fuel x y rest heap enough =
      let (t, w, whole, size) = last_apart y rest in
      let found : get_elem? (x ∷ (y ∷ rest)) (suc (length rest)) ≡ some w =
        ap (λ (ys : List A). get_elem? ys (length rest)) whole
        ∙ get_last t w (length rest) (sym size) in
      let cut : take (suc (length rest)) (w ∷ (y ∷ rest)) ≡ w ∷ t =
        ap (λ (ys : List A). w ∷ take (length rest) ys) whole
        ∙ ap (◌∷◌ w) (rw size at (take-append t (w ∷ []))) in
      let sinking = moved-Sinking x w t (rw whole at heap) in
      let (arr', ran, heap', same, kept) =
        sift_down_lem fuel (w ∷ t) 0 (omega (arith, size)) (omega arith) sinking in
      (
        arr',
        rw (found, cut, ran),
        view-Heap cmp order d arr' heap',
        omega (arith, same, size),
        λ f. omega (arith, kept f, total-append f t w, ap (total f) whole),
      )

module _ {A : Type 0} (cmp : A → A → Ordering) where
  first_least :
      (order : IsOrder cmp) (x : A) (rest : List A)
      → IsHeap cmp (x ∷ rest)
      → (k : ℕ) (b : A) → get_elem? (x ∷ rest) k ≡ some b
      → cmp x b ≢ gt
  unfolding view
  first_least order x rest heap k b here =
      let inside = get_elem?-out (x ∷ rest) k b here in
      let seen : some b ≡ some (view x (x ∷ rest) k) =
        sym here ∙ get_elem?-get_or x (x ∷ rest) k inside in
      let e : b ≡ view x (x ∷ rest) k = cc seen in
      by_ends cmp _ _ _ _ refl e (
        Heap-first cmp order (view x (x ∷ rest)) (length (x ∷ rest)) (suc k) k
          (Heap-view cmp order x (x ∷ rest) heap) (omega arith) inside)

  -- Taking an element from a queue that is not empty, whose array is in heap order, with a
  -- comparison that is a total preorder and at least as many rounds of fuel as elements: the call returns an
  -- element that is not greater than any, the array is in heap order and has the other elements,
  -- each as often.
  pub pqueue_get-IsHeap :
      (order : IsOrder cmp) (fuel : ℕ) (x : A) (rest : List A)
      → IsHeap cmp (x ∷ rest)
      → length (x ∷ rest) ≤ fuel
      → (arr' : List A) × (pqueue_get cmp fuel (x ∷ rest) ≡ returned (some x, arr'))
        × IsHeap cmp arr'
        × (length arr' ≡ length rest)
        × ((f : A → ℕ) → total f arr' + f x ≡ total f (x ∷ rest))
        × ((k : ℕ) (b : A) → get_elem? (x ∷ rest) k ≡ some b → cmp x b ≢ gt)
  unfolding pqueue_get
  pqueue_get-IsHeap order fuel x [] heap enough =
      ([], refl, (λ k a b pos e f. cc f), refl, (λ f. omega arith), first_least order x [] heap)
  pqueue_get-IsHeap order fuel x (y ∷ rest) heap enough =
      let (arr', ran, heap', same, kept) =
        get_many cmp order x fuel x y rest heap (omega (arith, enough)) in
      (arr', ran, heap', same, kept, first_least order x (y ∷ rest) heap)
