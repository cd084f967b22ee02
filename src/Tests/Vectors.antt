-- ===== src/Tests/Vectors.antt =====
-- Vectors of three elements, for the theorems on src/vecu64.c.
use zeroskip.Prelude.{◌≡◌, refl, inl, [], ◌∷◌, none, some, arith}
use zeroskip.Vecu64.{Vecu64, vecu64_append, vecu64_insert, vecu64_remove, vecu64_find}
use zeroskip.Vecu64.Holds.{Holds}
use zeroskip.Vecu64.Inserts.{vecu64_append-Holds, vecu64_insert-Holds}
use zeroskip.Vecu64.Queries.{vecu64_remove-Holds, vecu64_find-first, vecu64_insert-overrun}

-- Three elements in an array of four, and three in one of three.
abbrev pub a_vec : Vecu64
a_vec = record { data_of = 5 ∷ 6 ∷ 7 ∷ 0 ∷ []; count = 3; alloc = 4 }

abbrev pub a_full_vec : Vecu64
a_full_vec = record { data_of = 5 ∷ 6 ∷ 7 ∷ []; count = 3; alloc = 3 }

pub a_vec-Holds : Holds a_vec (5 ∷ 6 ∷ 7 ∷ [])
a_vec-Holds = record {
  stores = record { spare = 0 ∷ []; cells = refl; sized = refl; bounded = omega arith };
  counted = refl;
}

a_full_vec-Holds : Holds a_full_vec (5 ∷ 6 ∷ 7 ∷ [])
a_full_vec-Holds = record {
  stores = record { spare = []; cells = refl; sized = refl; bounded = omega arith };
  counted = refl;
}

vecu64_append-Holds_example :
    (v' : Vecu64) × (vecu64_append 0 a_vec 8 ≡ some (3, v')) × Holds v' (5 ∷ 6 ∷ 7 ∷ 8 ∷ [])
vecu64_append-Holds_example =
    vecu64_append-Holds 0 a_vec (5 ∷ 6 ∷ 7 ∷ []) 8 a_vec-Holds (omega arith)

vecu64_insert-Holds_example :
    (v' : Vecu64) × (vecu64_insert 0 a_vec 1 9 ≡ some v') × Holds v' (5 ∷ 9 ∷ 6 ∷ 7 ∷ [])
vecu64_insert-Holds_example =
    vecu64_insert-Holds 0 a_vec (5 ∷ []) (6 ∷ 7 ∷ []) 9 a_vec-Holds (omega arith)
      (inl (omega arith))

vecu64_remove-Holds_example :
    (v' : Vecu64) × (vecu64_remove a_vec 1 ≡ some (6, v')) × Holds v' (5 ∷ 7 ∷ [])
vecu64_remove-Holds_example = vecu64_remove-Holds a_vec (5 ∷ []) (7 ∷ []) 6 a_vec-Holds

vecu64_find-first_example : vecu64_find a_vec 7 1 ≡ some 2
vecu64_find-first_example = vecu64_find-first a_vec (5 ∷ []) (6 ∷ []) [] 7 a_vec-Holds (refl, tt)

vecu64_insert-overrun_example : vecu64_insert 0 a_full_vec 0 9 ≡ none
vecu64_insert-overrun_example =
    vecu64_insert-overrun 0 a_full_vec 5 (6 ∷ 7 ∷ []) 9 a_full_vec-Holds refl
