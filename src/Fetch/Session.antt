-- ===== src/Fetch/Session.antt =====
-- What a fetch returns after a session, at once and after the database is opened again.
use mathlib.Core.List.{foldl}
use zeroskip.Prelude.{
  ℕ, ◌+◌, ◌<◌, ◌≡◌, refl, ap, ◌∙◌, true, Option, none, some, List, [], length, arith,
}
use zeroskip.Word.{Host}
use zeroskip.MFile.{Checksum, stat_found, Os}
use zeroskip.Format.{zs_hdr_size}
use zeroskip.Format.Decode.{ZsKey, ZsVal}
use zeroskip.File.{Code, zs_ok}
use zeroskip.File.Writes.{contents}
use zeroskip.Record.{Run, returned, record_foreach}
use zeroskip.Memtree.{Entry, Memtree}
use zeroskip.Memtree.Find.{Slack, memtree_new}
use zeroskip.Memtree.Load.{replace_record, load_memtree_record_cb, load_deleted_memtree_record_cb}
use zeroskip.Memtree.Lookup.{IsTree, IsReadable}
use zeroskip.Active.{Priv, DotOs, two_mb}
use zeroskip.Active.Session.{Op, run_ops, cost, AreSafe, IsReady}
use zeroskip.Active.Reopen.{latest, Reflects, run_ops-reopen}
use zeroskip.Fetch.{FetchPriv, Answer, live, in_active, in_finalised, zsdb_fetch}
use zeroskip.Fetch.Files.{packed_answer}
use zeroskip.Fetch.Layers.{layered, zsdb_fetch-layered}

-- A database with this tree and no other files than the active one.
abbrev pub only_active : Memtree → FetchPriv
only_active tree = record {
  is_open = true;
  factive_is_open = true;
  memtree = tree;
  fmemtree = memtree_new;
  pflist = [];
}

-- The value of the last call on the key, if there is one and it is an addition.
abbrev pub last_value : List Op → List ℕ → Run Answer
last_value ops key = packed_answer (live (foldl (latest key) none ops))

-- Every key that is not empty is fetched with that value.
abbrev pub Fetches : Host → Slack → List Op → Memtree → Type 0
Fetches host slack ops tree =
    (key : List ℕ) (k0 : ZsKey)
    → 0 < length key
    → zsdb_fetch host none slack (only_active tree) key k0 ≡ last_value ops key

layered_alone : (active : Option Entry) → layered active none none ≡ packed_answer (live active)
layered_alone active = without (live active)
  where
    without :
        (o : Option (List ℕ))
        → in_active o (in_finalised none (packed_answer none)) ≡ packed_answer o
    without none = refl
    without (some v) = refl

fetches :
    (host : Host) (slack : Slack) (ops : List Op) (tree : Memtree)
    → IsReadable slack
    → Reflects ops (some tree)
    → Fetches host slack ops tree
fetches host slack ops tree readable (t, is, ordered, latest_of) key k0 filled =
    let same : t ≡ tree = cc is in
    let empty : IsTree memtree_new = record {
      shaped = (omega arith, omega arith);
      sorted = tt;
      counted = refl;
    } in
    zsdb_fetch-layered host slack (only_active tree) [] key k0 readable filled refl refl
      (rw same at ordered) empty tt
    ∙ layered_alone _
    ∙ ap (λ o. packed_answer (live o)) (rw same at (latest_of key))

module _ (host : Host) (crc : Checksum)
    (reload finalise file_new : Priv (Option Memtree) → Code × Priv (Option Memtree)) (dot : DotOs)
    (slack : Slack) where
  -- After a session of additions, removals and commits on a database with empty trees, no other
  -- files and an active file that holds a header alone, under the conditions of a session (open for
  -- writing and ready, no system call fails, no other process interferes, keys are not empty and
  -- those to be removed have at most 65535 bytes, the file stays below 2 MB, and what is behind a
  -- full leaf can be read): a fetch of a key that is not empty returns
  -- ZS_OK and the value of the last call on the key, if that is an addition, and ZS_NOTFOUND if it
  -- is a removal or there is none. So it does when the file has been loaded again, with more rounds
  -- of fuel than calls.
  pub run_ops-fetch :
      (ops : List Op) (p : Priv (Option Memtree)) (key0 : ZsKey) (val0 : ZsVal) (fuel : ℕ) (os : Os)
      → IsReadable slack
      → IsReady crc p
      → AreSafe ops
      → p.memtree ≡ some memtree_new
      → length (contents p.factive) ≡ zs_hdr_size
      → zs_hdr_size + cost ops < two_mb
      → length ops < fuel
      → (p' : Priv (Option Memtree)) × (t : Memtree) × (t' : Memtree) × (run_ops host crc
            (replace_record slack)
            reload
            finalise
            file_new
            dot
            ops
            p
          ≡ some (zs_ok, p'))
        × (p'.memtree ≡ some t)
        × Fetches host slack ops t
        × (record_foreach host crc key0 val0
              (some (load_memtree_record_cb slack))
              (some (load_deleted_memtree_record_cb slack))
              fuel
              os
              (stat_found (contents p'.factive))
              p'.factive
              (some memtree_new)
            ≡ returned (zs_ok, some t'))
        × Fetches host slack ops t'
  run_ops-fetch ops p key0 val0 fuel os readable r safe empty sized room enough =
      let (p', tree, ran, (t, is, ordered, found), read, (t', is', ordered', found')) =
        run_ops-reopen host crc reload finalise file_new dot slack ops p key0 val0 fuel os readable
          r safe empty sized room enough in
      (
        p',
        t,
        t',
        ran,
        is,
        fetches host slack ops t readable (t, refl, ordered, found),
        rw is' at read,
        fetches host slack ops t' readable (t', refl, ordered', found'),
      )
