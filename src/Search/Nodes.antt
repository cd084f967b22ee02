-- ===== src/Search/Nodes.antt =====
-- The search in a node of the in-memory tree finds the place of a key, or the place for one.
use Prim.Native.Nat.{lt}
use zeroskip.Prelude.{
  ℕ, zero, suc, ◌+◌, ◌-◌, ◌/◌, ◌<◌, ◌≤◌, ◌≡◌, ◌≢◌, ◌⊎◌, inl, inr, refl, Bool, true, false, some,
  List, arith, length, get_elem?,
}
use zeroskip.Record.{Run, returned}
use zeroskip.Search.Order.{lex, lex-eq, lex_flip_lt, memcmp_raw-lex}
use zeroskip.Search.Tables.{
  IsAscending, Below, Above, get_elem?-in, get_elem?-out, Below-step, Above-step, ordering_cases,
}
use zeroskip.Search.{node_loop, memtree_memcmp_raw}

-- The key is at place `n`, or the keys from there on are above it.
abbrev pub IsPlace : List (List ℕ) → List ℕ → ℕ → Bool → Type 0
IsPlace recs key n found =
    ((found ≡ true) × (get_elem? recs n ≡ some key)) ⊎ ((found ≡ false) × Above recs key n)

-- A search ends with that place, at most the number of keys, which the lesser keys precede.
unfoldable pub Placed : List (List ℕ) → List ℕ → Run (ℕ × Bool) → Type 0
Placed recs key run =
    (i : ℕ) × (found : Bool) × (run ≡ returned (i, found))
    × (i ≤ length recs)
    × Below recs key i
    × IsPlace recs key i found

-- A key is above what stands before it.
under :
    (recs : List (List ℕ)) (key k : List ℕ) (m n : ℕ)
    → IsAscending recs
    → get_elem? recs m ≡ some k
    → get_elem? recs n ≡ some key
    → m < n
    → lex key k ≢ lt
under recs key k m n ascending here there less smaller =
    let more = lex_flip_lt k key (ascending m n k key less here there) in cc (more, smaller)

module _ (recs : List (List ℕ)) (key : List ℕ) (ascending : IsAscending recs) where
  node_lem :
      (fuel start count : ℕ) (found : Bool)
      → start + count ≤ length recs
      → count < fuel
      → Below recs key start
      → IsPlace recs key (start + count) found
      → Placed recs key (node_loop key recs fuel start count found)
  unfolding node_loop Placed
  node_lem zero start count found inside enough below place = elim enough [ ]
  node_lem (suc fuel) start zero found inside enough below place =
      let same : start + 0 ≡ start = omega arith in
      (start, found, refl, omega (arith, inside), below, rw same at place)
  node_lem (suc fuel) start (suc left) found inside enough below place =
      let middle = suc left / 2 in
      let pos = start + middle in
      let (k, here) = get_elem?-in recs pos (omega (arith, inside)) in
      let order = memcmp_raw-lex key k in
      elim (ordering_cases (lex key k)) [
        | inl same ↦
            let e : node_loop key recs (suc fuel) start (suc left) found
                ≡ node_loop key recs fuel start middle true =
              rw (node_loop, here, order, same) in
            let is_key = lex-eq key k same in
            rw e (
              node_lem fuel start middle true (omega (arith, inside)) (omega (arith, enough)) below
                (inl (refl, rw is_key here)))
        | inr (inl greater) ↦
            let e : node_loop key recs (suc fuel) start (suc left) found
                ≡ node_loop key recs fuel (start + (middle + 1)) (suc left - (middle + 1)) found =
              rw (node_loop, here, order, greater) in
            let rest : start + (middle + 1) + (suc left - (middle + 1)) ≡ start + suc left =
              omega arith in
            let next : pos + 1 ≡ start + (middle + 1) = omega arith in
            rw e (
              node_lem fuel (start + (middle + 1)) (suc left - (middle + 1)) found
                (omega (arith, inside)) (omega (arith, enough))
                (rw next at (Below-step recs key k pos ascending here greater)) (rw rest place))
        | inr (inr smaller) ↦
            let e : node_loop key recs (suc fuel) start (suc left) found
                ≡ node_loop key recs fuel start middle found =
              rw (node_loop, here, order, smaller) in
            let at_once = Above-step recs key k pos ascending here smaller in
            elim place [
              | inl (on, there) ↦ absurd (
                  under recs key k pos (start + suc left) ascending here there (omega arith)
                    smaller)
              | inr (off, above) ↦ rw e (
                  node_lem fuel start middle found (omega (arith, inside)) (omega (arith, enough))
                    below (inr (off, at_once)))
            ]
      ]

  -- Searching a node whose keys are in ascending order, with more rounds of fuel than keys: the
  -- search returns the place before which the lesser keys stand, and says whether the key itself
  -- is there or the keys from there on are greater.
  pub memtree_memcmp_raw-Placed :
      (fuel : ℕ)
      → length recs < fuel
      → Placed recs key (memtree_memcmp_raw key recs fuel (length recs) false)
  unfolding memtree_memcmp_raw
  memtree_memcmp_raw-Placed fuel enough =
      node_lem fuel 0 (length recs) false (omega arith) enough (λ j b less. elim less [ ])
        (inr (refl, λ j b later there. absurd (omega (arith, get_elem?-out recs j b there, later))))
