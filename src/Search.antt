-- ===== src/Search.antt =====
-- Looking for a key among sorted keys: in the index of a packed file
-- (zs_packed_file_bsearch_index of src/zeroskip-packed.c) and in a node of the in-memory tree
-- (memtree_memcmp_raw of src/memtree.c, by the macro of include/libzeroskip/memtree.h).
pub mod Order
pub mod Tables
pub mod Nodes
pub mod Packed
use Prim.Native.Nat.{Ordering, lt, eq, gt}
use zeroskip.Prelude.{
  ℕ, zero, suc, ◌+◌, ◌-◌, ◌/◌, Bool, true, false, Option, none, some, List, [], length, get_elem?,
  ltb, if◌then◌else◌, ◌>>=◌,
}
use zeroskip.Word.{Host, u64}
use zeroskip.Buffer.{slice}
use zeroskip.Format.Decode.{zs_record_read_key_val_from_offset}
use zeroskip.Record.{Run, returned, fault, out_of_fuel}
use zeroskip.Search.Order.{memcmp_raw}

-- A comparison, or NULL.
abbrev pub Cmp : Type 0
Cmp = Option (List ℕ → List ℕ → Ordering)

abbrev pub compare_keys : Cmp → List ℕ → List ℕ → Ordering
compare_keys none a b = memcmp_raw a b
compare_keys (some f) a b = f a b

module _ (host : Host) (file : List ℕ) (cmp : Cmp) (index : List ℕ) (key : List ℕ) where
  -- The key of the record that entry `mi` of the index points to, with the place of its value.
  pub probe : ℕ → ℕ → Option (List ℕ × (ℕ × ℕ))
  probe mi vallen = do
    offset ← get_elem? index mi
    (found, val) ← zs_record_read_key_val_from_offset host file true offset 0 vallen
    k ← slice file found.0 found.1
    some (k, val)

  -- `while (lo < hi)`; `val` is what `*value` and `*vallen` hold.
  pub bsearch_loop : ℕ → ℕ → ℕ → ℕ × ℕ → Run (Bool × ℕ × (ℕ × ℕ))
  bsearch_loop zero lo hi val = out_of_fuel
  bsearch_loop (suc fuel) lo hi val =
      let mi = lo + (hi - lo) / 2 in
      if ltb lo hi
      then elim (probe mi val.1) [
        | none ↦ fault
        | some (k, val') ↦ elim (compare_keys cmp key k) [
          | eq ↦ returned (true, mi, val')
          | gt ↦ bsearch_loop fuel (mi + 1) hi val'
          | lt ↦ bsearch_loop fuel lo mi val'
        ]
      ]
      else returned (false, lo, val)

  -- Whether the key is there, the location, and the place of the value that was read last.
  unfoldable pub zs_packed_file_bsearch_index : ℕ → ℕ × ℕ → Run (Bool × ℕ × (ℕ × ℕ))
  unfolding bsearch_loop
  zs_packed_file_bsearch_index fuel val = bsearch_loop fuel 0 (length index) val

module _ (key : List ℕ) (recs : List (List ℕ)) where
  -- `while (count)`; `recs` are the keys of the node's records.
  pub node_loop : ℕ → ℕ → ℕ → Bool → Run (ℕ × Bool)
  node_loop zero start count found = out_of_fuel
  node_loop (suc fuel) start zero found = returned (start, found)
  node_loop (suc fuel) start (suc left) found =
      let middle = suc left / 2 in
      let pos = start + middle in
      elim (get_elem? recs pos) [
        | none ↦ fault
        | some b ↦ elim (memcmp_raw key b) [
          | gt ↦ node_loop fuel (start + (middle + 1)) (suc left - (middle + 1)) found
          | eq ↦ node_loop fuel start middle true
          | lt ↦ node_loop fuel start middle found
        ]
      ]

  -- The position, and `*found` where it was `found`.
  unfoldable pub memtree_memcmp_raw : ℕ → ℕ → Bool → Run (ℕ × Bool)
  unfolding node_loop
  memtree_memcmp_raw fuel count found = node_loop fuel 0 count found
