-- ===== src/Htable/Remove.antt =====
-- Removing an entry from a hash table (htable_remove).
use mathlib.Core.List.{Permᴰ}
use mathlib.Core.List.Permᴰ
use native.Mathlib.Nat.{pow-suc}
use zeroskip.Prelude.{
  ℕ, zero, suc, ◌+◌, ◌-◌, ◌/◌, ◌%◌, ◌^◌, ◌<◌, ◌≤◌, ◌≡◌, ◌⊎◌, inl, inr, refl, sym, ap, ◌∙◌, subst,
  true, false, none, some, List, [], ◌∷◌, ◌++◌, arith, length, get_elem?, set, take, drop, ltb,
  length-set, ◌>>=◌,
}
use zeroskip.Word.{u32}
use zeroskip.Search.Tables.{get_elem?-in, get_elem?-out}
use zeroskip.Pqueue.Order.{same_or_not}
use zeroskip.Memtree.Lists.{get-set, take-get-drop}
use zeroskip.Memtree.Inorder.{All, All-take, All-drop}
use zeroskip.Htable.{
  HtableFns, Htable, bucket, entries_equal, find_in, find_entry, rehash, htable_remove,
}
use zeroskip.Htable.Holds.{
  IsSize, Holds, AreIn, flatten, bucket_lem, get-set_other, size_bounds, rehash-Holds,
}
use zeroskip.Htable.Lookup.{cases, IsTable, Lacks, find_in-Ends, no_equal_entry}

chain-removed :
    {E : Type 0} (place : ℕ) (chain : List E) (e : E)
    → get_elem? chain place ≡ some e
    → Permᴰ chain (e ∷ (take place chain ++ drop (suc place) chain))
chain-removed place chain e at =
    subst (λ (xs : List _). Permᴰ xs (e ∷ (take place chain ++ drop (suc place) chain)))
      (sym (take-get-drop place chain e at))
      (Permᴰ.middle e (take place chain) (drop (suc place) chain))

flatten-removed :
    {E : Type 0} (e : E) (chain chain' : List E) (table : List (List E)) (b : ℕ)
    → get_elem? table b ≡ some chain
    → Permᴰ chain (e ∷ chain')
    → Permᴰ (flatten table) (e ∷ flatten (set table b chain'))
flatten-removed e chain chain' [] b at p = cc at
flatten-removed e chain chain' (c ∷ table) zero at p =
    let same : c ≡ chain = cc at in rw same (Permᴰ.append_right (flatten table) p)
flatten-removed e chain chain' (c ∷ table) (suc b) at p =
    Permᴰ.trans (Permᴰ.append_left c (flatten-removed e chain chain' table b at p))
      (Permᴰ.middle e c (flatten (set table b chain')))

length-Perm : {E : Type 0} {xs ys : List E} → Permᴰ xs ys → length xs ≡ length ys
length-Perm Permᴰ.nil = refl
length-Perm (Permᴰ.cons e p) = ap suc (length-Perm p)
length-Perm (Permᴰ.swap e f) = refl
length-Perm (Permᴰ.trans p q) = length-Perm p ∙ length-Perm q

All-joined : {E : Type 0} (P : E → Type 0) (xs ys : List E) → All P xs → All P ys → All P (xs ++ ys)
All-joined P [] ys a b = b
All-joined P (x ∷ xs) ys (here, later) b = (here, All-joined P xs ys later b)

shrunk : (size : ℕ) → IsSize size → 4 ≤ size → IsSize (u32 (size / 2 ^ 2))
shrunk size (zero, is_size, small) room = absurd (omega (arith, is_size, room))
shrunk size (suc zero, is_size, small) room = absurd (omega (arith, is_size, room))
shrunk size (suc (suc k), is_size, small) room =
    let four = pow-suc 2 k in
    let four' = pow-suc 2 (suc k) in
    let (low, high) = size_bounds k (omega (arith, small)) in
    (k, omega (arith, is_size, four, four', high), omega (arith, small))

module _ {E K : Type 0} (fns : HtableFns E K) where
  removed-AreIn :
      (table : List (List E)) (size b b' place : ℕ) (chain chain' : List E)
      → get_elem? table b ≡ some chain
      → ((b : ℕ) (chain : List E) → get_elem? table b ≡ some chain → AreIn fns chain size b)
      → get_elem? (set table b (take place chain ++ drop (suc place) chain)) b' ≡ some chain'
      → AreIn fns chain' size b'
  removed-AreIn table size b b' place chain chain' at placed at' = elim (same_or_not b b') [
    | inl same ↦
        let less = take place chain ++ drop (suc place) chain in
        let now = get-set b table less (get_elem?-out table b chain at) in
        let is : less ≡ chain' = cc (now, at', same) in
        let all = placed b chain at in
        let P : E → Type 0 = λ e. fns.hash e % size ≡ b in
        rw (← is) (
          subst (λ (n : ℕ). AreIn fns less size n) same
            (All-joined P (take place chain) (drop (suc place) chain) (All-take P place chain all)
              (All-drop P (suc place) chain all)))
    | inr other ↦
        placed b' chain'
          (sym (get-set_other table b b' (take place chain ++ drop (suc place) chain) other) ∙ at')
  ]

  -- The table without the entry, before its array may be exchanged.
  abbrev less_one : Htable E → ℕ → ℕ → List E → Htable E
  less_one ht b place chain = record ht {
    table = set ht.table b (take place chain ++ drop (suc place) chain);
    count = u32 (ht.count + 2 ^ 32 - 1);
  }

  remove_none :
      (ht : Htable E) (key : E) (kdata : K) (b : ℕ) (chain : List E)
      → bucket fns ht key ≡ b
      → get_elem? ht.table b ≡ some chain
      → get_elem? chain (find_in fns chain key kdata) ≡ none
      → htable_remove fns ht key kdata ≡ some (none, ht)
  unfolding htable_remove find_entry
  remove_none ht key kdata b chain is_bucket at there = rw (is_bucket, at, ◌>>=◌, there)

  remove_stays :
      (ht : Htable E) (key e : E) (kdata : K) (b : ℕ) (chain : List E)
      → bucket fns ht key ≡ b
      → get_elem? ht.table b ≡ some chain
      → get_elem? chain (find_in fns chain key kdata) ≡ some e
      → ltb (u32 (ht.count + 2 ^ 32 - 1)) ht.shrink_mark ≡ false
      → htable_remove fns ht key kdata
        ≡ some (some e, less_one ht b (find_in fns chain key kdata) chain)
  unfolding htable_remove find_entry
  remove_stays ht key e kdata b chain is_bucket at there test =
      rw (is_bucket, at, ◌>>=◌, there, test, is_bucket)

  remove_shrinks :
      (ht ht' : Htable E) (key e : E) (kdata : K) (b : ℕ) (chain : List E)
      → bucket fns ht key ≡ b
      → get_elem? ht.table b ≡ some chain
      → get_elem? chain (find_in fns chain key kdata) ≡ some e
      → ltb (u32 (ht.count + 2 ^ 32 - 1)) ht.shrink_mark ≡ true
      → rehash fns (less_one ht b (find_in fns chain key kdata) chain) (u32 (ht.size / 2 ^ 2))
        ≡ some ht'
      → htable_remove fns ht key kdata ≡ some (some e, ht')
  unfolding htable_remove find_entry
  remove_shrinks ht ht' key e kdata b chain is_bucket at there test moved =
      rw (is_bucket, at, ◌>>=◌, there, test, is_bucket, moved)

  -- Removing a key from a table of entries, of at least four buckets, where entries that are the
  -- same pointer have the same hash: the call reads nothing outside the array, and either returns an
  -- entry that is equal to the key and leaves a table of the others, with or without a new array, or
  -- returns NULL, leaves the table, and no entry of it is equal to the key.
  pub htable_remove-IsTable :
      (ht : Htable E) (es : List E) (key : E) (kdata : K)
      → ((a b : E) → fns.is_same a b ≡ true → fns.hash a ≡ fns.hash b)
      → IsTable fns ht es
      → 4 ≤ ht.size
      → length es < 2 ^ 32
      → ((e : E) × (rest : List E) × (ht' : Htable E) × (htable_remove fns ht key kdata
            ≡ some (some e, ht'))
          × (entries_equal fns e key kdata ≡ true)
          × Permᴰ es (e ∷ rest)
          × IsTable fns ht' rest)
        ⊎ ((htable_remove fns ht key kdata ≡ some (none, ht)) × Lacks fns es key kdata)
  htable_remove-IsTable ht es key kdata same_hash (h, counted) room few =
      let (is_bucket, inside) = bucket_lem fns ht key h.power in
      let b = fns.hash key % ht.size in
      let (chain, at) = get_elem?-in ht.table b (omega (arith, inside, h.sized)) in
      let place = find_in fns chain key kdata in
      elim (find_in-Ends fns chain key kdata) [
        | inr (there, lacks) ↦ inr (
          remove_none ht key kdata b chain is_bucket at there,
          no_equal_entry fns ht es key kdata chain same_hash h at lacks,
        )
        | inl (e, there, equal) ↦
            let less = take place chain ++ drop (suc place) chain in
            let rest = flatten (set ht.table b less) in
            let p : Permᴰ es (e ∷ rest) =
              Permᴰ.trans (Permᴰ.symm h.content)
                (flatten-removed e chain less ht.table b at (chain-removed place chain e there)) in
            let ht1 = less_one ht b place chain in
            let count : u32 (ht.count + 2 ^ 32 - 1) ≡ length rest =
              omega (arith, counted, length-Perm p, few) in
            let h1 : Holds fns ht1 rest = record {
              sized = length-set ht.table b less ∙ h.sized;
              power = h.power;
              placed = λ b' chain' at'.
                  removed-AreIn ht.table ht.size b b' place chain chain' at h.placed at';
              content = Permᴰ.refl rest;
            } in
            elim (cases (ltb (u32 (ht.count + 2 ^ 32 - 1)) ht.shrink_mark)) [
              | inr test ↦ inl (
                e,
                rest,
                ht1,
                remove_stays ht key e kdata b chain is_bucket at there test,
                equal,
                p,
                (h1, count),
              )
              | inl test ↦
                  let (ht2, moved, h2, size2, count2) =
                    rehash-Holds fns ht1 rest (u32 (ht.size / 2 ^ 2)) h1
                      (shrunk ht.size h.power room) in
                  inl (
                    e,
                    rest,
                    ht2,
                    remove_shrinks ht ht2 key e kdata b chain is_bucket at there test moved,
                    equal,
                    p,
                    (h2, count2 ∙ count),
                  )
            ]
      ]
