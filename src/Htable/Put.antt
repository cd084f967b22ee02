-- ===== src/Htable/Put.antt =====
-- Putting an entry in a hash table (htable_put).
use native.Mathlib.Nat.{pow-suc, pow-le-pow_right}
use zeroskip.Prelude.{
  ℕ, suc, ◌+◌, ◌-◌, ◌*◌, ◌^◌, ◌<◌, ◌≤◌, ◌≡◌, ◌⊎◌, inl, inr, ◌∙◌, true, false, some, List, ◌∷◌,
  arith, length, ltb,
}
use zeroskip.Word.{u32}
use zeroskip.Htable.{HtableFns, Htable, link, rehash, htable_put}
use zeroskip.Htable.Holds.{IsSize, Holds, link-Holds, rehash-Holds}
use zeroskip.Htable.Lookup.{cases, IsTable}

grown : (size : ℕ) → IsSize size → size < 2 ^ 29 → IsSize (u32 (size * 2 ^ 2))
grown size (k, is_size, small) room = elim (side k) [
  | inl low ↦
      let four = pow-suc 2 k in
      let four' = pow-suc 2 (suc k) in
      (suc (suc k), omega (arith, is_size, four, four', room), omega (arith, low))
  | inr high ↦
      let big = pow-le-pow_right {n = 2} (omega arith) high in
      absurd (omega (arith, big, is_size, room))
]
  where
    side : (k : ℕ) → (k ≤ 28) ⊎ (29 ≤ k)
    side k = ground arith

module _ {E K : Type 0} (fns : HtableFns E K) where
  put_stays :
      (ht linked : Htable E) (e : E)
      → link fns e ht ≡ some linked
      → ltb (u32 (linked.count + 1)) linked.shrink_mark ≡ false
      → htable_put fns ht e ≡ some (record linked { count = u32 (linked.count + 1) })
  unfolding htable_put
  put_stays ht linked e ran test = rw (ran, test)

  put_grows :
      (ht linked ht' : Htable E) (e : E)
      → link fns e ht ≡ some linked
      → ltb (u32 (linked.count + 1)) linked.shrink_mark ≡ true
      → rehash fns (record linked { count = u32 (linked.count + 1) }) (u32 (linked.size * 2 ^ 2))
        ≡ some ht'
      → htable_put fns ht e ≡ some ht'
  unfolding htable_put
  put_grows ht linked ht' e ran test moved = rw (ran, test) moved

  -- Putting an entry in a table of fewer than 2 ^ 29 buckets and 2 ^ 32 - 1 entries returns, with
  -- or without a new array, and gives a table of the entries and the new one.
  pub htable_put-IsTable :
      (ht : Htable E) (es : List E) (e : E)
      → IsTable fns ht es
      → ht.size < 2 ^ 29
      → length es < 2 ^ 32 - 1
      → (ht' : Htable E) × (htable_put fns ht e ≡ some ht') × IsTable fns ht' (e ∷ es)
  htable_put-IsTable ht es e (h, counted) room few =
      let (linked, ran, h1, size1, count1, mark1) = link-Holds fns ht e es h in
      let count : u32 (linked.count + 1) ≡ suc (length es) = omega (arith, count1, counted, few) in
      let more : Htable E = record linked { count = u32 (linked.count + 1) } in
      let h2 : Holds fns more (e ∷ es) = record {
        sized = h1.sized;
        power = h1.power;
        placed = h1.placed;
        content = h1.content;
      } in
      elim (cases (ltb (u32 (linked.count + 1)) linked.shrink_mark)) [
        | inr test ↦ (more, put_stays ht linked e ran test, (h2, count))
        | inl test ↦
            let (ht', moved, h3, size3, count3) =
              rehash-Holds fns more (e ∷ es) (u32 (linked.size * 2 ^ 2)) h2
                (grown linked.size h1.power (omega (arith, size1, room))) in
            (ht', put_grows ht linked ht' e ran test moved, (h3, count3 ∙ count))
      ]
