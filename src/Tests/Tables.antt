-- ===== src/Tests/Tables.antt =====
-- A hash table of numbers that are their own hashes, with three entries in four buckets.
use mathlib.Core.List.{Permᴰ}
use mathlib.Core.List.Permᴰ
use zeroskip.Prelude.{
  ℕ, zero, suc, ◌≡◌, ◌⊎◌, refl, true, none, some, List, [], ◌∷◌, arith, ◌==◌, ==_iff, get_elem?,
}
use zeroskip.Htable.{HtableFns, Htable, htable_put, htable_get, htable_remove, entries_equal}
use zeroskip.Htable.Holds.{AreIn}
use zeroskip.Htable.Lookup.{IsTable, Lacks, htable_get-IsTable}
use zeroskip.Htable.Remove.{htable_remove-IsTable}
use zeroskip.Htable.Put.{htable_put-IsTable}

abbrev numbers : HtableFns ℕ Unit
numbers = record { hash = λ n. n; is_same = λ a b. a == b; cmpfn = λ a b kdata. 0 }

-- The next entry makes the table grow.
abbrev a_table : Htable ℕ
a_table = record {
  table = (4 ∷ []) ∷ (5 ∷ 1 ∷ []) ∷ [] ∷ [] ∷ [];
  count = 3;
  size = 4;
  grow_mark = 3;
  shrink_mark = 10;
}

placed : (b : ℕ) (chain : List ℕ) → get_elem? a_table.table b ≡ some chain → AreIn numbers chain 4 b
placed zero chain at = let e : 4 ∷ [] ≡ chain = cc at in rw (← e) (refl, tt)
placed (suc zero) chain at = let e : 5 ∷ 1 ∷ [] ≡ chain = cc at in rw (← e) (refl, (refl, tt))
placed (suc (suc zero)) chain at = let e : [] ≡ chain = cc at in rw (← e) tt
placed (suc (suc (suc zero))) chain at = let e : [] ≡ chain = cc at in rw (← e) tt
placed (suc (suc (suc (suc b)))) chain at = cc at

a_table-IsTable : IsTable numbers a_table (4 ∷ 5 ∷ 1 ∷ [])
a_table-IsTable = (
  record {
    sized = refl;
    power = (2, refl, omega arith);
    placed = placed;
    content = Permᴰ.refl (4 ∷ 5 ∷ 1 ∷ []);
  },
  refl,
)

htable_put-IsTable_example :
    (ht : Htable ℕ) × (htable_put numbers a_table 9 ≡ some ht)
    × IsTable numbers ht (9 ∷ 4 ∷ 5 ∷ 1 ∷ [])
htable_put-IsTable_example =
    htable_put-IsTable numbers a_table (4 ∷ 5 ∷ 1 ∷ []) 9 a_table-IsTable (omega arith)
      (omega arith)

htable_get-IsTable_example :
    ((e : ℕ) × (rest : List ℕ) × (htable_get numbers a_table 1 tt ≡ some (some e))
      × (entries_equal numbers e 1 tt ≡ true)
      × Permᴰ (4 ∷ 5 ∷ 1 ∷ []) (e ∷ rest))
    ⊎ ((htable_get numbers a_table 1 tt ≡ some none) × Lacks numbers (4 ∷ 5 ∷ 1 ∷ []) 1 tt)
htable_get-IsTable_example =
    htable_get-IsTable numbers a_table (4 ∷ 5 ∷ 1 ∷ []) 1 tt (λ a b e. (==_iff a b).0 e)
      a_table-IsTable

htable_remove-IsTable_example :
    ((e : ℕ) × (rest : List ℕ) × (ht : Htable ℕ) × (htable_remove numbers a_table 1 tt
        ≡ some (some e, ht))
      × (entries_equal numbers e 1 tt ≡ true)
      × Permᴰ (4 ∷ 5 ∷ 1 ∷ []) (e ∷ rest)
      × IsTable numbers ht rest)
    ⊎ ((htable_remove numbers a_table 1 tt ≡ some (none, a_table))
        × Lacks numbers (4 ∷ 5 ∷ 1 ∷ []) 1 tt)
htable_remove-IsTable_example =
    htable_remove-IsTable numbers a_table (4 ∷ 5 ∷ 1 ∷ []) 1 tt (λ a b e. (==_iff a b).0 e)
      a_table-IsTable (omega arith) (omega arith)
