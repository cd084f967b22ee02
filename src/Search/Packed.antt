-- ===== src/Search/Packed.antt =====
-- The search in the index of a packed file finds the record of a key, or the place for one.
use zeroskip.Prelude.{
  ℕ, zero, suc, ◌+◌, ◌-◌, ◌/◌, ◌<◌, ◌≤◌, ◌≡◌, ◌⊎◌, inl, inr, refl, ap, Bool, true, false,
  Bool-cases, none, some, List, [], ◌∷◌, arith, length, get_elem?, ltb, ltb→lt, ltb→le,
}
use zeroskip.Word.{Host}
use zeroskip.Buffer.{slice}
use zeroskip.Format.RoundTrip.{IsReadBack}
use zeroskip.Record.{Run, returned}
use zeroskip.Search.Order.{lex, lex-eq, memcmp_raw-lex}
use zeroskip.Search.Tables.{
  IsAscending, Below, Above, get_elem?-out, Below-step, Above-step, ordering_cases,
}
use zeroskip.Search.{probe, bsearch_loop, zs_packed_file_bsearch_index}

module _ (host : Host) (file : List ℕ) where
  -- The entries of the index point to records of the keys, with the values, in turn.
  abbrev pub IsIndex : List ℕ → List (List ℕ) → List (List ℕ) → Type 0
  IsIndex [] [] [] = Unit
  IsIndex (offset ∷ index) (key ∷ keys) (val ∷ vals) =
      IsReadBack host key val file offset × IsIndex index keys vals
  IsIndex index keys vals = ⊥

  -- What a search for `key` ends with: its place and its value, or the place between the keys
  -- below it and those above.
  unfoldable pub Located :
      List (List ℕ) → List (List ℕ) → List ℕ → Run (Bool × ℕ × (ℕ × ℕ)) → Type 0
  Located keys vals key run =
      ((i : ℕ) × (val : List ℕ) × (at : ℕ) × (get_elem? keys i ≡ some key)
        × (get_elem? vals i ≡ some val)
        × (run ≡ returned (true, i, (at, length val)))
        × (slice file at (length val) ≡ some val))
      ⊎ ((i : ℕ) × (p : ℕ × ℕ) × (run ≡ returned (false, i, p))
          × (i ≤ length keys)
          × Below keys key i
          × Above keys key i)

  pub index_length :
      (index : List ℕ) (keys vals : List (List ℕ))
      → IsIndex index keys vals
      → length index ≡ length keys
  index_length [] [] [] h = refl
  index_length (offset ∷ index) (key ∷ keys) (val ∷ vals) (here, later) =
      ap suc (index_length index keys vals later)
  index_length [] [] (val ∷ vals) h = elim h [ ]
  index_length [] (key ∷ keys) vals h = elim h [ ]
  index_length (offset ∷ index) [] vals h = elim h [ ]
  index_length (offset ∷ index) (key ∷ keys) [] h = elim h [ ]

  index_at :
      (index : List ℕ) (keys vals : List (List ℕ)) (i : ℕ)
      → IsIndex index keys vals
      → i < length index
      → (offset : ℕ) × (key : List ℕ) × (val : List ℕ) × (get_elem? index i ≡ some offset)
        × (get_elem? keys i ≡ some key)
        × (get_elem? vals i ≡ some val)
        × IsReadBack host key val file offset
  index_at [] [] [] i h room = elim room [ ]
  index_at (offset ∷ index) (key ∷ keys) (val ∷ vals) zero (here, later) room =
      (offset, key, val, refl, refl, refl, here)
  index_at (offset ∷ index) (key ∷ keys) (val ∷ vals) (suc i) (here, later) room =
      index_at index keys vals i later (omega arith)
  index_at [] [] (val ∷ vals) i h room = elim h [ ]
  index_at [] (key ∷ keys) vals i h room = elim h [ ]
  index_at (offset ∷ index) [] vals i h room = elim h [ ]
  index_at (offset ∷ index) (key ∷ keys) [] i h room = elim h [ ]

  module _ (index : List ℕ) (keys vals : List (List ℕ)) (key : List ℕ) (h : IsIndex index keys vals)
      (ascending : IsAscending keys) where
    bsearch_lem :
        (fuel lo hi : ℕ) (p : ℕ × ℕ)
        → lo ≤ hi
        → hi ≤ length index
        → hi < lo + fuel
        → Below keys key lo
        → Above keys key hi
        → Located keys vals key (bsearch_loop host file none index key fuel lo hi p)
    unfolding bsearch_loop Located probe
    bsearch_lem zero lo hi p ordered inside enough below above = absurd (omega arith)
    bsearch_lem (suc fuel) lo hi p ordered inside enough below above =
        elim (Bool-cases (ltb lo hi)) [
          | inr stop ↦
              let all = ltb→le lo hi stop in
              let same : lo ≡ hi = omega (arith, all, ordered) in
              let e : bsearch_loop host file none index key (suc fuel) lo hi p
                  ≡ returned (false, lo, p) =
                rw stop in
              inr (
                lo,
                p,
                e,
                omega (arith, same, inside, index_length index keys vals h),
                below,
                rw (← same) at above,
              )
          | inl more ↦
              let less = ltb→lt lo hi more in
              let mi = lo + (hi - lo) / 2 in
              let (offset, k, val, at_index, at_key, at_val, r) =
                index_at index keys vals mi h (omega (arith, less, inside)) in
              let probed : probe host file none index key mi p.1
                  ≡ some (k, (r.val_at, length val)) =
                rw (at_index, r.reads 0 p.1, r.key_bytes) in
              let order = memcmp_raw-lex key k in
              elim (ordering_cases (lex key k)) [
                | inl same ↦
                    let e : bsearch_loop host file none index key (suc fuel) lo hi p
                        ≡ returned (true, mi, (r.val_at, length val)) =
                      rw (more, probed, order, same) in
                    let found = lex-eq key k same in
                    inl (mi, val, r.val_at, rw found at_key, at_val, e, r.val_bytes)
                | inr (inl greater) ↦
                    let e : bsearch_loop host file none index key (suc fuel) lo hi p
                        ≡ bsearch_loop host file none index key fuel (mi + 1) hi
                            (r.val_at, length val) =
                      rw (more, probed, order, greater) in
                    rw e (
                      bsearch_lem fuel (mi + 1) hi (r.val_at, length val) (omega (arith, less))
                        inside (omega (arith, less))
                        (Below-step keys key k mi ascending at_key greater) above)
                | inr (inr smaller) ↦
                    let e : bsearch_loop host file none index key (suc fuel) lo hi p
                        ≡ bsearch_loop host file none index key fuel lo mi (r.val_at, length val) =
                      rw (more, probed, order, smaller) in
                    rw e (
                      bsearch_lem fuel lo mi (r.val_at, length val) (omega arith)
                        (omega (arith, less, inside)) (omega (arith, less)) below
                        (Above-step keys key k mi ascending at_key smaller))
              ]
        ]

    -- Searching the index of a packed file whose entries point to readable records, with their
    -- keys in ascending order, without a comparison function of the caller's: with more rounds of
    -- fuel than entries the search returns. It gives the place of the key and the bytes of its
    -- value, or, if no entry has the key, the place that parts the lesser keys from the greater.
    pub bsearch_index-Located :
        (fuel : ℕ) (p : ℕ × ℕ)
        → length index < fuel
        → Located keys vals key (zs_packed_file_bsearch_index host file none index key fuel p)
    unfolding zs_packed_file_bsearch_index
    bsearch_index-Located fuel p enough =
        bsearch_lem fuel 0 (length index) p (omega arith) (omega arith) (omega arith)
          (λ j b less. elim less [ ])
          (λ j b later there.
            absurd
              (omega (arith, get_elem?-out keys j b there, later, index_length index keys vals h)))
