-- ===== src/Tests/Searches.antt =====
-- Searches among two keys and in an index of one entry (src/zeroskip-packed.c, src/memtree.c).
use zeroskip.Prelude.{false, ℕ, zero, suc, ◌≡◌, List, [], ◌∷◌, ◌++◌, none, some, length, arith}
use zeroskip.Word.{little}
use zeroskip.Format.Encode.{zs_prepare_key_buf, zs_prepare_val_buf}
use zeroskip.Format.RoundTrip.{IsReadBack, write-read_key_val}
use zeroskip.Search.{zs_packed_file_bsearch_index, memtree_memcmp_raw}
use zeroskip.Search.Tables.{IsAscending}
use zeroskip.Search.Packed.{IsIndex, Located, bsearch_index-Located}
use zeroskip.Search.Nodes.{Placed, memtree_memcmp_raw-Placed}
use zeroskip.Tests.{a_key, a_val, some_bytes}

abbrev pub two_keys : List (List ℕ)
two_keys = (1 ∷ []) ∷ (1 ∷ 2 ∷ []) ∷ []

two_keys-IsAscending : IsAscending two_keys
two_keys-IsAscending zero zero a b less e f = elim less [ ]
two_keys-IsAscending zero (suc zero) a b less e f =
    let p : (1 ∷ []) ≡ a = cc e in let q : (1 ∷ 2 ∷ []) ≡ b = cc f in rw (← p, ← q)
two_keys-IsAscending zero (suc (suc j)) a b less e f = cc f
two_keys-IsAscending (suc zero) zero a b less e f = elim less [ ]
two_keys-IsAscending (suc zero) (suc zero) a b less e f = absurd (omega (arith, less))
two_keys-IsAscending (suc zero) (suc (suc j)) a b less e f = cc f
two_keys-IsAscending (suc (suc i)) j a b less e f = cc e

memtree_memcmp_raw-Placed_example :
    Placed two_keys a_key (memtree_memcmp_raw a_key two_keys 3 2 false)
memtree_memcmp_raw-Placed_example =
    memtree_memcmp_raw-Placed two_keys a_key two_keys-IsAscending 3 (omega arith)

-- A record behind three bytes.
abbrev pub a_pair :
    (kb : List ℕ) × (vb : List ℕ) × (zs_prepare_key_buf little a_key ≡ some kb)
    × (zs_prepare_val_buf little a_val ≡ some vb)
    × IsReadBack little a_key a_val (some_bytes ++ (kb ++ (vb ++ some_bytes))) (length some_bytes)
a_pair =
    write-read_key_val little a_key a_val some_bytes some_bytes (omega arith) (omega arith)
      (omega arith)

abbrev pub a_pair_file : List ℕ
a_pair_file = some_bytes ++ (a_pair.0 ++ (a_pair.1 ++ some_bytes))

pub a_pair-IsIndex : IsIndex little a_pair_file (3 ∷ []) (a_key ∷ []) (a_val ∷ [])
a_pair-IsIndex = (a_pair.4, tt)

pub one_key-IsAscending : IsAscending (a_key ∷ [])
one_key-IsAscending zero zero a b less e f = elim less [ ]
one_key-IsAscending zero (suc j) a b less e f = cc f
one_key-IsAscending (suc i) j a b less e f = cc e

bsearch_index-Located_example :
    Located little a_pair_file
      (a_key ∷ [])
      (a_val ∷ [])
      a_key
      (zs_packed_file_bsearch_index little a_pair_file none (3 ∷ []) a_key 2 (0, 0))
bsearch_index-Located_example =
    bsearch_index-Located little a_pair_file (3 ∷ []) (a_key ∷ []) (a_val ∷ []) a_key a_pair-IsIndex
      one_key-IsAscending 2 (0, 0) (omega arith)
