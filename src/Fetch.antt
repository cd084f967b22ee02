-- ===== src/Fetch.antt =====
-- Fetching the value of a key (zsdb_fetch of src/zeroskip.c): from the tree of the active file, that
-- of the finalised files, or the packed files in turn.
pub mod Files
pub mod Layers
pub mod Ends
pub mod Session
use Prim.Native.Nat.{Ordering, lt, eq, gt}
use zeroskip.Prelude.{
  ℕ, zero, suc, ◌-◌, Bool, true, false, not, ◌||◌, Option, none, some, List, [], ◌∷◌, length,
  get_elem?, ◌==◌, if◌then◌else◌, ◌>>=◌,
}
use zeroskip.Word.{Host, read_be64, ◌>>>◌}
use zeroskip.Buffer.{slice}
use zeroskip.Format.Decode.{ZsKey, is_short_key, is_long_key, zs_read_key_rec}
use zeroskip.File.{Code, zs_ok, zs_ioerror, zs_error, zs_notfound, zs_not_open}
use zeroskip.Record.{Run, returned, fault, out_of_fuel}
use zeroskip.Search.{Cmp, compare_keys, zs_packed_file_bsearch_index}
use zeroskip.Memtree.{Entry, Memtree, Iter, Leaf}
use zeroskip.Memtree.Find.{Slack, memtree_find}

-- A packed file: what is mapped, and its index.
pub record PackedFile : Type 0 where
  pub is_open : Bool
  pub base : List ℕ
  pub index : List ℕ

-- The part of struct zsdb_priv that a fetch reads.
pub record FetchPriv : Type 0 where
  pub is_open : Bool
  pub factive_is_open : Bool
  pub memtree : Memtree
  pub fmemtree : Memtree
  pub pflist : List PackedFile

-- What is returned, with `*value`.
abbrev pub Answer : Type 0
Answer = Code × Option (List ℕ)

-- A record that is not marked as deleted.
abbrev pub live : Option Entry → Option (List ℕ)
live none = none
live (some e) = if e.deleted then none else some e.val

-- `iter->record` where memtree_find returns 1, and none where it returns 0, or a fault; then what
-- follows.
abbrev pub with_record :
    Option (Option Iter × Leaf × Option Entry) → (Option Entry → Run Answer) → Run Answer
with_record none next = fault
with_record (some (none, leaf, last)) next = next none
with_record (some (some iter, leaf, last)) next = next last

abbrev pub in_finalised : Option Entry → Run Answer → Run Answer
in_finalised (some e) rest = returned (zs_ok, some e.val)
in_finalised none rest = rest

abbrev pub in_active : Option (List ℕ) → Run Answer → Run Answer
in_active (some value) rest = returned (zs_ok, some value)
in_active none rest = rest

module _ (host : Host) where
  -- `key` is left as it is on an error.
  unfoldable pub zs_record_read_key_from_file_offset :
      PackedFile → ℕ → ZsKey → Option (Code × ZsKey)
  zs_record_read_key_from_file_offset f offset key =
      if not f.is_open then some (zs_ioerror, key) else (do
        first ← read_be64 host f.base offset
        let rectype = first >>> 56
        if is_short_key rectype || is_long_key rectype
            then (do key' ← zs_read_key_rec host f.base offset key; some (zs_ok, key'))
            else some (zs_error, key))

module _ (host : Host) (cmp : Cmp) where
  -- The comparison with the key at one end of the index; its length is taken as a short one.
  unfoldable pub compare_end : PackedFile → List ℕ → ℕ → ZsKey → Option (Ordering × ZsKey)
  compare_end f key i temp_key = do
    offset ← get_elem? f.index i
    (ret, temp_key') ← zs_record_read_key_from_file_offset host f offset temp_key
    data_at ← slice f.base temp_key'.data_at temp_key'.slen
    some (compare_keys cmp key data_at, temp_key')

  -- The search in one file, if there is one, with the rest of the loop.
  unfoldable pub search_file : PackedFile → List ℕ → Run Answer → Run Answer
  search_file f key rest =
      elim (zs_packed_file_bsearch_index host f.base cmp f.index key (suc (length f.index))
        (0, 0)) [
          | fault ↦ fault
          | out_of_fuel ↦ out_of_fuel
          | returned (found, location, (at, len)) ↦ elim found [
            | false ↦ rest
            | true ↦ elim (slice f.base at len) [
              | none ↦ fault
              | some value ↦ returned (zs_ok, some value)
            ]
          ]
        ]

  -- Behind the comparison with the first key.
  unfoldable pub behind_first : PackedFile → List ℕ → ZsKey → Run Answer → Run Answer
  unfolding search_file
  behind_first f key temp_key rest = elim (compare_end f key (length f.index - 1) temp_key) [
    | none ↦ fault
    | some (order, temp_key') ↦ elim order [
      | gt ↦ rest
      | lt ↦ search_file f key rest
      | eq ↦ search_file f key rest
    ]
  ]

  -- `list_for_each_forward (pos, &priv->dbfiles.pflist)`; `temp_key` is not initialised.
  unfoldable pub search_packed : List PackedFile → List ℕ → ZsKey → Run Answer
  unfolding compare_end behind_first
  search_packed [] key temp_key = returned (zs_notfound, none)
  search_packed (f ∷ fs) key temp_key =
      let rest = search_packed fs key temp_key in
      elim (compare_end f key 0 temp_key) [
        | none ↦ fault
        | some (order, temp_key') ↦ elim order [
          | lt ↦ rest
          | eq ↦ behind_first f key temp_key' rest
          | gt ↦ behind_first f key temp_key' rest
        ]
      ]

  -- An empty key fails an assertion. That another process has changed the database is only logged.
  unfoldable pub zsdb_fetch : Slack → FetchPriv → List ℕ → ZsKey → Run Answer
  unfolding memtree_find search_packed
  zsdb_fetch slack p key temp_key =
      if length key == 0
      then fault
      else if not p.is_open || not p.factive_is_open
      then returned (zs_not_open, none)
      else with_record (memtree_find slack p.memtree key) (λ active. in_active (live active) (
          with_record (memtree_find slack p.fmemtree key)
            (λ finalised. in_finalised finalised (search_packed p.pflist key temp_key))))
