-- ===== src/Htable.antt =====
-- The hash table of the iterators (src/htable.c): buckets of entries, each chained by `next`. What an
-- entry is, and how two of them compare, is the caller's.
pub mod Holds
pub mod Lookup
pub mod Put
pub mod Remove
use zeroskip.Prelude.{
  ℕ, zero, suc, ◌+◌, ◌-◌, ◌*◌, ◌/◌, ◌^◌, Bool, true, false, Option, none, some, List, [], ◌∷◌, ◌++◌,
  length, get_elem?, set, take, drop, replicate, bit_and, bit_xor, ltb, leb, ◌==◌, ◌||◌, ◌&&◌,
  if◌then◌else◌, ◌>>=◌,
}
use zeroskip.Word.{u32, u64}
use zeroskip.Record.{Run, returned, fault, out_of_fuel}

abbrev fnv32_base : ℕ
fnv32_base = 0x811c9dc5

abbrev fnv32_prime : ℕ
fnv32_prime = 0x01000193

abbrev htable_init_size : ℕ
htable_init_size = 64

abbrev htable_resize_bits : ℕ
htable_resize_bits = 2

abbrev htable_resize_threshold : ℕ
htable_resize_threshold = 80

-- What the table asks of entries: the hash, whether two pointers are the same, and `cmpfn` with its
-- key data.
pub record HtableFns (E K : Type 0) : Type 0 where
  pub hash : E → ℕ
  pub is_same : E → E → Bool
  pub cmpfn : E → E → K → ℕ

pub record Htable (E : Type 0) : Type 0 where
  pub table : List (List E)
  pub count : ℕ
  pub size : ℕ
  pub grow_mark : ℕ
  pub shrink_mark : ℕ

-- The count stays.
unfoldable pub alloc_htable : {E : Type 0} → ℕ → ℕ → Htable E
alloc_htable count size =
    let grow_mark = u32 (u64 (size * htable_resize_threshold) / 100) in
    record {
      table = replicate size [];
      count = count;
      size = size;
      grow_mark = grow_mark;
      shrink_mark =
          if leb size htable_init_size then 0 else grow_mark / (2 ^ htable_resize_bits + 1);
    }

-- `while (size > init_size) init_size <<= HTABLE_RESIZE_BITS`
init_loop : ℕ → ℕ → ℕ → Run ℕ
init_loop zero size init_size = out_of_fuel
init_loop (suc fuel) size init_size =
    let rest = init_loop fuel size (u64 (init_size * 2 ^ htable_resize_bits)) in
    if ltb init_size size then rest else returned init_size

pub htable_init : {E : Type 0} → ℕ → ℕ → Run (Htable E)
htable_init fuel size =
    elim (init_loop fuel (u64 (size * 100) / htable_resize_threshold) htable_init_size) [
      | returned init_size ↦ returned (alloc_htable 0 init_size)
      | fault ↦ fault
      | out_of_fuel ↦ out_of_fuel
    ]

hash_loop : List ℕ → ℕ → ℕ
hash_loop [] hash = hash
hash_loop (c ∷ buf) hash = hash_loop buf (bit_xor (u32 (hash * fnv32_prime)) c)

pub bufhash : List ℕ → ℕ
bufhash buf = hash_loop buf fnv32_base

module _ {E K : Type 0} (fns : HtableFns E K) where
  unfoldable pub entries_equal : E → E → K → Bool
  entries_equal e1 e2 kdata =
      fns.is_same e1 e2 || (fns.hash e1 == fns.hash e2 && fns.cmpfn e1 e2 kdata == 0)

  unfoldable pub bucket : Htable E → E → ℕ
  bucket ht key = u32 (bit_and (fns.hash key) (u64 (ht.size + 2 ^ 64 - 1)))

  -- How far a chain is walked.
  unfoldable pub find_in : List E → E → K → ℕ
  find_in [] key keydata = 0
  find_in (e ∷ es) key keydata =
      let rest = find_in es key keydata in if entries_equal e key keydata then 0 else suc rest

  -- The chain, and the place there.
  unfoldable pub find_entry : Htable E → E → K → Option (List E × ℕ)
  unfolding find_in bucket
  find_entry ht key keydata = do
    chain ← get_elem? ht.table (bucket ht key)
    some (chain, find_in chain key keydata)

  -- `e->next = ht->table[b]; ht->table[b] = e`
  unfoldable pub link : E → Htable E → Option (Htable E)
  unfolding bucket
  link e ht = do
    chain ← get_elem? ht.table (bucket ht e)
    some (record ht { table = set ht.table (bucket ht e) (e ∷ chain) })

  unfoldable pub rehash_chain : List E → Htable E → Option (Htable E)
  unfolding link
  rehash_chain [] ht = some ht
  rehash_chain (e ∷ es) ht = do ht' ← link e ht; rehash_chain es ht'

  unfoldable pub rehash_table : List (List E) → Htable E → Option (Htable E)
  unfolding rehash_chain
  rehash_table [] ht = some ht
  rehash_table (chain ∷ chains) ht = do ht' ← rehash_chain chain ht; rehash_table chains ht'

  unfoldable pub rehash : Htable E → ℕ → Option (Htable E)
  unfolding rehash_table alloc_htable
  rehash ht newsize = rehash_table ht.table (alloc_htable ht.count newsize)

  unfoldable pub htable_get : Htable E → E → K → Option (Option E)
  unfolding find_entry
  htable_get ht key keydata = do
    (chain, place) ← find_entry ht key keydata
    some (get_elem? chain place)

  -- The chain behind `entry` is an argument; no key data is given.
  unfoldable pub htable_get_next : K → E → List E → Option E
  unfolding entries_equal
  htable_get_next no_data entry [] = none
  htable_get_next no_data entry (e ∷ es) =
      let rest = htable_get_next no_data entry es in
      if entries_equal entry e no_data then some e else rest

  -- The test is with shrink_mark.
  unfoldable pub htable_put : Htable E → E → Option (Htable E)
  unfolding link rehash
  htable_put ht entry = do
    linked ← link entry ht
    let ht' = record linked { count = u32 (linked.count + 1) }
    if ltb ht'.count ht'.shrink_mark
        then rehash ht' (u32 (ht'.size * 2 ^ htable_resize_bits))
        else some ht'

  unfoldable pub htable_remove : Htable E → E → K → Option (Option E × Htable E)
  unfolding find_entry rehash
  htable_remove ht key keydata = do
    (chain, place) ← find_entry ht key keydata
    elim (get_elem? chain place) [
      | none ↦ some (none, ht)
      | some old ↦ (do
        let table = set ht.table (bucket ht key) (take place chain ++ drop (suc place) chain)
        let ht' = record ht { table = table; count = u32 (ht.count + 2 ^ 32 - 1) }
        shrunk ←
            if ltb ht'.count ht'.shrink_mark
            then rehash ht' (u32 (ht'.size / 2 ^ htable_resize_bits))
            else some ht'
        some (some old, shrunk))
    ]

  unfoldable pub htable_replace : K → Htable E → E → Option (Option E × Htable E)
  unfolding htable_remove htable_put
  htable_replace no_data ht entry = do
    (old, ht') ← htable_remove ht entry no_data
    ht'' ← htable_put ht' entry
    some (old, ht'')

-- An iterator: `pos`, and the chain that `next` begins.
pub record HtableIter (E : Type 0) : Type 0 where
  pub pos : ℕ
  pub next : List E

module _ {E : Type 0} where
  unfoldable pub htable_iter_init : HtableIter E
  htable_iter_init = record { pos = 0; next = [] }

  -- The loop over the buckets that are left.
  abbrev pub iter_loop : List (List E) → ℕ → Option E × HtableIter E
  iter_loop [] pos = (none, record { pos = pos; next = [] })
  iter_loop ([] ∷ chains) pos = iter_loop chains (suc pos)
  iter_loop ((e ∷ es) ∷ chains) pos = (some e, record { pos = suc pos; next = es })

  unfoldable pub htable_iter_next : Htable E → HtableIter E → Option E × HtableIter E
  htable_iter_next ht iter = elim iter.next [
    | e ∷ es ↦ (some e, record iter { next = es })
    | [] ↦ iter_loop (drop iter.pos ht.table) iter.pos
  ]
