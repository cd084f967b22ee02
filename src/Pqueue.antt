-- ===== src/Pqueue.antt =====
-- The priority queue (src/pqueue.c). The array is its first `count` cells, those behind them hold
-- nothing that is read; `cmp` gives the sign of the caller's comparison.
pub mod Order
pub mod Put
pub mod Sink
pub mod Get
use Prim.Native.Nat.{Ordering, lt, eq, gt}
use zeroskip.Prelude.{
  ℕ, zero, suc, ◌+◌, ◌-◌, ◌*◌, ◌/◌, Bool, true, false, ◌&&◌, Option, none, some, List, [], ◌∷◌,
  ◌++◌, ltb, length, get_elem?, set, take, if◌then◌else◌, ◌>>=◌,
}
use zeroskip.Record.{Run, returned, fault, out_of_fuel}

abbrev pub is_greater : Ordering → Bool
is_greater gt = true
is_greater _ = false

pub swp : {A : Type 0} → List A → ℕ → ℕ → Option (List A)
swp arr i j = do a ← get_elem? arr i; b ← get_elem? arr j; some (set (set arr i b) j a)

module _ {A : Type 0} (cmp : A → A → Ordering) where
  -- `cmp (pq, i, j)`; none where a cell is outside the array.
  pub cmp_at : List A → ℕ → ℕ → Option Ordering
  cmp_at arr i j = do a ← get_elem? arr i; b ← get_elem? arr j; some (cmp a b)

  -- `for (i = pq->count - 1; i; i = j)`.
  pub sift_up : ℕ → List A → ℕ → Run (List A)
  sift_up zero arr i = out_of_fuel
  sift_up (suc fuel) arr zero = returned arr
  sift_up (suc fuel) arr (suc n) =
      let j = n / 2 in
      elim (cmp_at arr j (suc n)) [
        | none ↦ fault
        | some o ↦ elim (is_greater o) [
          | false ↦ returned arr
          | true ↦ elim (swp arr j (suc n)) [ none ↦ fault | some arr' ↦ sift_up fuel arr' j ]
        ]
      ]

  pub pqueue_put : ℕ → List A → A → Run (List A)
  unfolding sift_up
  pqueue_put fuel arr x = sift_up fuel (arr ++ (x ∷ [])) (length arr)

pub pqueue_peek : {A : Type 0} → List A → Option A
pqueue_peek arr = get_elem? arr 0

abbrev pub is_less : Ordering → Bool
is_less lt = true
is_less _ = false

module _ {A : Type 0} (cmp : A → A → Ordering) where
  -- The lesser of the two elements below `i`.
  pub lesser_child : List A → ℕ → Option ℕ
  lesser_child arr i =
      let j = i * 2 + 1 in
      let second = cmp_at cmp arr j (j + 1) >>= λ o. some (if is_less o then j else j + 1) in
      if ltb (j + 1) (length arr) then second else some j

  -- `for (i = 0; i * 2 + 1 < pq->count; i = j)`.
  pub sift_down : ℕ → List A → ℕ → Run (List A)
  sift_down zero arr i = out_of_fuel
  sift_down (suc fuel) arr i =
      if ltb (i * 2 + 1) (length arr)
      then elim (lesser_child arr i) [
        | none ↦ fault
        | some j ↦ elim (cmp_at cmp arr i j) [
          | none ↦ fault
          | some o ↦ elim (is_greater o) [
            | false ↦ returned arr
            | true ↦ elim (swp arr j i) [ none ↦ fault | some arr' ↦ sift_down fuel arr' j ]
          ]
        ]
      ]
      else returned arr

  -- The first element, if there is one, and the array without it.
  pub pqueue_get : ℕ → List A → Run (Option A × List A)
  unfolding sift_down
  pqueue_get fuel [] = returned (none, [])
  pqueue_get fuel (x ∷ []) = returned (some x, [])
  pqueue_get fuel (x ∷ (y ∷ rest)) =
      let left = length (y ∷ rest) in
      let arr = x ∷ (y ∷ rest) in
      elim (get_elem? arr left) [
        | none ↦ fault
        | some last ↦ elim (sift_down fuel (take left (set arr 0 last)) 0) [
          | returned arr' ↦ returned (some x, arr')
          | fault ↦ fault
          | out_of_fuel ↦ out_of_fuel
        ]
      ]
