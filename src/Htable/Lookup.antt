-- ===== src/Htable/Lookup.antt =====
-- Looking for an entry in a hash table (htable_get).
use mathlib.Core.List.{Permᴰ}
use mathlib.Core.List.Permᴰ
use zeroskip.Prelude.{
  ℕ, zero, suc, ◌%◌, ◌≡◌, ◌≢◌, ◌⊎◌, inl, inr, refl, sym, ap, ◌∙◌, subst, Bool, true, false, none,
  some, List, [], ◌∷◌, ◌++◌, arith, length, get_elem?, append_assoc, ◌==◌,
}
use zeroskip.Search.Tables.{get_elem?-in}
use zeroskip.Pqueue.Order.{same_or_not}
use zeroskip.Memtree.Inorder.{All}
use zeroskip.Htable.{HtableFns, Htable, bucket, entries_equal, find_in, find_entry, htable_get}
use zeroskip.Htable.Holds.{Holds, flatten, bucket_lem, AreIn}

pub cases : (b : Bool) → (b ≡ true) ⊎ (b ≡ false)
cases true = inl refl
cases false = inr refl

-- A table of the entries, in any order, with their number.
abbrev pub IsTable : {E K : Type 0} → HtableFns E K → Htable E → List E → Type 0
IsTable fns ht es = Holds fns ht es × (ht.count ≡ length es)

module _ {E K : Type 0} (fns : HtableFns E K) where
  -- No entry of the list is equal to the key.
  abbrev pub Lacks : List E → E → K → Type 0
  Lacks es key kdata = All (λ e. entries_equal fns e key kdata ≡ false) es

  -- What a place in a chain is: that of an equal entry, or the end of a chain without one.
  abbrev pub Ends : List E → E → K → ℕ → Type 0
  Ends chain key kdata place =
      ((e : E) × (get_elem? chain place ≡ some e) × (entries_equal fns e key kdata ≡ true))
      ⊎ ((get_elem? chain place ≡ none) × Lacks chain key kdata)

  find_here :
      (e : E) (es : List E) (key : E) (kdata : K)
      → entries_equal fns e key kdata ≡ true
      → find_in fns (e ∷ es) key kdata ≡ 0
  unfolding find_in
  find_here e es key kdata same = rw same

  find_behind :
      (e : E) (es : List E) (key : E) (kdata : K)
      → entries_equal fns e key kdata ≡ false
      → find_in fns (e ∷ es) key kdata ≡ suc (find_in fns es key kdata)
  unfolding find_in
  find_behind e es key kdata other = rw other

  pub find_in-Ends :
      (chain : List E) (key : E) (kdata : K) → Ends chain key kdata (find_in fns chain key kdata)
  unfolding find_in
  find_in-Ends [] key kdata = inr (refl, tt)
  find_in-Ends (e ∷ es) key kdata = elim (cases (entries_equal fns e key kdata)) [
    | inl same ↦
        subst (Ends (e ∷ es) key kdata) (sym (find_here e es key kdata same)) (inl (e, refl, same))
    | inr other ↦
        subst (Ends (e ∷ es) key kdata) (sym (find_behind e es key kdata other))
          (elim (find_in-Ends es key kdata) [
            | inl found ↦ inl found
            | inr (at, lacks) ↦ inr (at, (other, lacks))
          ])
  ]

  equal_hash :
      (a b : E) (kdata : K)
      → ((a b : E) → fns.is_same a b ≡ true → fns.hash a ≡ fns.hash b)
      → fns.hash a ≢ fns.hash b
      → entries_equal fns a b kdata ≡ false
  unfolding entries_equal
  equal_hash a b kdata same_hash differ = elim (cases (fns.is_same a b)) [
    | inl same ↦ absurd (differ (same_hash a b same))
    | inr other ↦
        let off : (fns.hash a == fns.hash b) ≡ false = ground (arith, differ) in rw (other, off)
  ]

  -- A chain of another bucket.
  other_bucket :
      (chain : List E) (size b : ℕ) (key : E) (kdata : K)
      → ((a b : E) → fns.is_same a b ≡ true → fns.hash a ≡ fns.hash b)
      → AreIn fns chain size b
      → fns.hash key % size ≢ b
      → Lacks chain key kdata
  other_bucket [] size b key kdata same_hash all differ = tt
  other_bucket (e ∷ es) size b key kdata same_hash (here, later) differ = (
    equal_hash e key kdata same_hash (λ same. differ (ap (λ (n : ℕ). n % size) (sym same) ∙ here)),
    other_bucket es size b key kdata same_hash later differ,
  )

  Lacks-append :
      (xs ys : List E) (key : E) (kdata : K)
      → Lacks xs key kdata
      → Lacks ys key kdata
      → Lacks (xs ++ ys) key kdata
  Lacks-append [] ys key kdata l m = m
  Lacks-append (x ∷ xs) ys key kdata (here, later) m = (here, Lacks-append xs ys key kdata later m)

  Lacks-flatten :
      (table : List (List E)) (key : E) (kdata : K)
      → ((i : ℕ) (chain : List E) → get_elem? table i ≡ some chain → Lacks chain key kdata)
      → Lacks (flatten table) key kdata
  Lacks-flatten [] key kdata all = tt
  Lacks-flatten (chain ∷ chains) key kdata all =
      Lacks-append chain (flatten chains) key kdata (all 0 chain refl)
        (Lacks-flatten chains key kdata (λ i c at. all (suc i) c at))

  Lacks-Perm :
      {xs ys : List E} (key : E) (kdata : K) → Permᴰ xs ys → Lacks xs key kdata → Lacks ys key kdata
  Lacks-Perm key kdata Permᴰ.nil l = tt
  Lacks-Perm key kdata (Permᴰ.cons e p) (here, later) =
      (rw (← e) here, Lacks-Perm key kdata p later)
  Lacks-Perm key kdata (Permᴰ.swap e f) (first, (second, later)) =
      (rw (← f) second, (rw (← e) first, later))
  Lacks-Perm key kdata (Permᴰ.trans p q) l = Lacks-Perm key kdata q (Lacks-Perm key kdata p l)

taken :
    {E : Type 0} (i : ℕ) (xs : List E) (x : E)
    → get_elem? xs i ≡ some x
    → (rest : List E) × Permᴰ xs (x ∷ rest)
taken i [] x at = cc at
taken zero (y ∷ xs) x at = let same : y ≡ x = cc at in (xs, rw same (Permᴰ.refl (x ∷ xs)))
taken (suc i) (y ∷ xs) x at =
    let (rest, p) = taken i xs x at in
    (y ∷ rest, Permᴰ.trans (Permᴰ.append_left (y ∷ []) p) (Permᴰ.middle x (y ∷ []) rest))

taken_flat :
    {E : Type 0} (b : ℕ) (table : List (List E)) (chain : List E)
    → get_elem? table b ≡ some chain
    → (rest : List E) × Permᴰ (flatten table) (chain ++ rest)
taken_flat b [] chain at = cc at
taken_flat {E = E} zero (c ∷ table) chain at =
    let same : c ≡ chain = cc at in (flatten table, rw same (Permᴰ.refl (chain ++ flatten table)))
taken_flat {E = E} (suc b) (c ∷ table) chain at =
    let (rest, p) = taken_flat b table chain at in
    (
      c ++ rest,
      Permᴰ.trans (Permᴰ.append_left c p) (
          rw (← append_assoc c chain rest, ← append_assoc chain c rest)
            (Permᴰ.append_right rest (Permᴰ.append_comm c chain))),
    )

module _ {E K : Type 0} (fns : HtableFns E K) where
  got :
      (ht : Htable E) (key : E) (kdata : K) (b : ℕ) (chain : List E)
      → bucket fns ht key ≡ b
      → get_elem? ht.table b ≡ some chain
      → htable_get fns ht key kdata ≡ some (get_elem? chain (find_in fns chain key kdata))
  unfolding htable_get find_entry
  got ht key kdata b chain is_bucket at = rw (is_bucket, at)

  -- No chain has an equal entry, if that of the bucket has none.
  pub no_equal_entry :
      (ht : Htable E) (es : List E) (key : E) (kdata : K) (chain : List E)
      → ((a b : E) → fns.is_same a b ≡ true → fns.hash a ≡ fns.hash b)
      → Holds fns ht es
      → get_elem? ht.table (fns.hash key % ht.size) ≡ some chain
      → Lacks fns chain key kdata
      → Lacks fns es key kdata
  no_equal_entry ht es key kdata chain same_hash h at lacks =
      let all = Lacks-flatten fns ht.table key kdata (λ i c at'.
        elim (same_or_not (fns.hash key % ht.size) i) [
          | inl same ↦ let is : chain ≡ c = cc (same, at, at') in rw (← is) lacks
          | inr other ↦ other_bucket fns c ht.size i key kdata same_hash (h.placed i c at') other
        ]) in
      Lacks-Perm fns key kdata h.content all

  -- Looking for a key in a table of entries, where entries that are the same pointer have the same
  -- hash: the call reads nothing outside the array; it returns an entry of the table that is equal
  -- to the key, or NULL, and then no entry of the table is equal to the key.
  pub htable_get-IsTable :
      (ht : Htable E) (es : List E) (key : E) (kdata : K)
      → ((a b : E) → fns.is_same a b ≡ true → fns.hash a ≡ fns.hash b)
      → IsTable fns ht es
      → ((e : E) × (rest : List E) × (htable_get fns ht key kdata ≡ some (some e))
          × (entries_equal fns e key kdata ≡ true)
          × Permᴰ es (e ∷ rest))
        ⊎ ((htable_get fns ht key kdata ≡ some none) × Lacks fns es key kdata)
  htable_get-IsTable ht es key kdata same_hash (h, counted) =
      let (is_bucket, inside) = bucket_lem fns ht key h.power in
      let b = fns.hash key % ht.size in
      let (chain, at) = get_elem?-in ht.table b (omega (arith, inside, h.sized)) in
      let ran = got ht key kdata b chain is_bucket at in
      elim (find_in-Ends fns chain key kdata) [
        | inl (e, there, equal) ↦
            let (rest, p) = taken_flat b ht.table chain at in
            let (rest', q) = taken (find_in fns chain key kdata) chain e there in
            inl (
              e,
              rest' ++ rest,
              rw there at ran,
              equal,
              Permᴰ.trans (Permᴰ.symm h.content) (Permᴰ.trans p (Permᴰ.append_right rest q)),
            )
        | inr (there, lacks) ↦
            inr (rw there at ran, no_equal_entry ht es key kdata chain same_hash h at lacks)
      ]
