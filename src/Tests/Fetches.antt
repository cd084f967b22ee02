-- ===== src/Tests/Fetches.antt =====
-- Fetching from a full leaf and a packed file of one pair, and after a session.
use zeroskip.Prelude.{
  ℕ, zero, suc, ◌≡◌, refl, true, Option, none, some, List, [], ◌∷◌, ◌++◌, get_elem?, arith,
}
use zeroskip.Word.{little}
use zeroskip.Buffer.{slice}
use zeroskip.MFile.{calm, stat_found}
use zeroskip.Format.Decode.{ZsKey}
use zeroskip.File.{zs_ok}
use zeroskip.File.Writes.{contents}
use zeroskip.Record.{returned, record_foreach}
use zeroskip.Memtree.{Memtree}
use zeroskip.Memtree.Find.{memtree_new}
use zeroskip.Memtree.Sorted.{lookup}
use zeroskip.Memtree.Lookup
use zeroskip.Memtree.Lookup.{IsTree}
use zeroskip.Memtree.Load.{replace_record, load_memtree_record_cb, load_deleted_memtree_record_cb}
use zeroskip.Active.{Priv}
use zeroskip.Active.Session.{run_ops}
use zeroskip.Fetch.{PackedFile, FetchPriv, zs_record_read_key_from_file_offset, zsdb_fetch}
use zeroskip.Fetch.Files.{IsPacked, packed_value}
use zeroskip.Fetch.Layers.{layered, zsdb_fetch-layered}
use zeroskip.Fetch.Ends.{prepared-read_key}
use zeroskip.Fetch.Session.{Fetches, run_ops-fetch}
use zeroskip.Tests.{a_key, a_val, a_sum, some_bytes, no_key, no_val}
use zeroskip.Tests.Searches.{a_pair, a_pair_file, a_pair-IsIndex, one_key-IsAscending}
use zeroskip.Tests.Sessions.{no_update, some_ops}
use zeroskip.Tests.Trees.{
  a_slack, a_slack-IsReadable, full_leaf, full_leaf-IsTree, no_load, tree_priv, tree_priv-IsReady,
}

abbrev pub a_packed : PackedFile
a_packed = record { is_open = true; base = a_pair_file; index = 3 ∷ [] }

a_packed-end :
    (i offset : ℕ) (k : List ℕ) (k0 : ZsKey)
    → get_elem? (3 ∷ []) i ≡ some offset
    → get_elem? (a_key ∷ []) i ≡ some k
    → (k' : ZsKey) × (zs_record_read_key_from_file_offset little a_packed offset k0
        ≡ some (zs_ok, k'))
      × (slice a_pair_file k'.data_at k'.slen ≡ some k)
a_packed-end zero offset k k0 at key_at =
    let e : 3 ≡ offset = cc at in
    let f : a_key ≡ k = cc key_at in
    rw (← e, ← f)
      (prepared-read_key little a_key a_pair.0 some_bytes (a_pair.1 ++ some_bytes) (3 ∷ []) k0
        (omega arith) a_pair.2)
a_packed-end (suc i) offset k k0 at key_at = cc at

a_packed-IsPacked : IsPacked little a_packed (a_key ∷ []) (a_val ∷ [])
a_packed-IsPacked = record {
  opened = refl;
  pairs = a_pair-IsIndex;
  ascending = one_key-IsAscending;
  filled = omega arith;
  ends = λ i offset k k0 side at key_at. a_packed-end i offset k k0 at key_at;
}

abbrev pub a_fetch : FetchPriv
a_fetch = record {
  is_open = true;
  factive_is_open = true;
  memtree = full_leaf;
  fmemtree = memtree_new;
  pflist = a_packed ∷ [];
}

new-IsTree : IsTree memtree_new
new-IsTree = record { shaped = (omega arith, omega arith); sorted = tt; counted = refl }

zsdb_fetch-layered_example :
    zsdb_fetch little none a_slack a_fetch a_key no_key
    ≡ layered
        (lookup a_key (Lookup.contents full_leaf))
        (lookup a_key (Lookup.contents memtree_new))
        (packed_value a_key ((a_key ∷ [], a_val ∷ []) ∷ []))
zsdb_fetch-layered_example =
    zsdb_fetch-layered little a_slack a_fetch ((a_key ∷ [], a_val ∷ []) ∷ []) a_key no_key
      a_slack-IsReadable (omega arith) refl refl full_leaf-IsTree new-IsTree (a_packed-IsPacked, tt)

run_ops-fetch_example :
    (p' : Priv (Option Memtree)) × (t : Memtree) × (t' : Memtree) × (run_ops little a_sum
        (replace_record a_slack)
        no_load
        no_load
        no_load
        no_update
        some_ops
        tree_priv
      ≡ some (zs_ok, p'))
    × (p'.memtree ≡ some t)
    × Fetches little a_slack some_ops t
    × (record_foreach little a_sum no_key no_val
          (some (load_memtree_record_cb a_slack))
          (some (load_deleted_memtree_record_cb a_slack))
          5
          calm
          (stat_found (contents p'.factive))
          p'.factive
          (some memtree_new)
        ≡ returned (zs_ok, some t'))
    × Fetches little a_slack some_ops t'
run_ops-fetch_example =
    run_ops-fetch little a_sum no_load no_load no_load no_update a_slack some_ops tree_priv no_key
      no_val 5 calm a_slack-IsReadable tree_priv-IsReady
      (omega arith, (tt, ((omega arith, omega arith), (tt, tt)))) refl refl (omega arith)
      (omega arith)
