-- ===== src/Fetch/Layers.antt =====
-- What a fetch returns, by the layers of the database.
use zeroskip.Prelude.{
  ℕ, ◌<◌, ◌≡◌, ap, ◌∙◌, true, false, inl, inr, Option, none, List, arith, length, ◌==◌,
}
use zeroskip.Word.{Host}
use zeroskip.Format.Decode.{ZsKey}
use zeroskip.Record.{Run}
use zeroskip.Memtree.{Entry, Memtree}
use zeroskip.Memtree.Find.{Slack, memtree_find}
use zeroskip.Memtree.Sorted.{lookup}
use zeroskip.Memtree.Lookup.{contents, IsTree, IsReadable, no_fault, memtree_find-lookup}
use zeroskip.Fetch.{FetchPriv, Answer, live, with_record, in_active, in_finalised, zsdb_fetch}
use zeroskip.Fetch.Files.{ArePacked, packed_value, packed_answer, search_packed-first}

-- The first layer that has an answer decides: a record of the active file that is not deleted, any
-- record of the finalised files, the packed files in turn.
abbrev pub layered : Option Entry → Option Entry → Option (List ℕ) → Run Answer
layered active finalised packed =
    in_active (live active) (in_finalised finalised (packed_answer packed))

found_record :
    (slack : Slack) (tree : Memtree) (key : List ℕ) (next : Option Entry → Run Answer)
    → IsReadable slack
    → IsTree tree
    → with_record (memtree_find slack tree key) next ≡ next (lookup key (contents tree))
found_record slack tree key next readable t = elim (memtree_find-lookup slack tree key t) [
  | inl (iter, leaf, e, ran, here, same) ↦ rw (ran, same)
  | inr (inl (leaf, rec, ran, from, absent)) ↦ rw (ran, absent)
  | inr (inr faults) ↦ absurd (no_fault slack tree key readable faults)
]

-- Fetching a key that is not empty from a database that is open, whose trees are in order and whose
-- packed files have ascending keys, at their ends with short lengths, where what is behind a full
-- leaf of a tree can be read: the call returns and reads nothing outside a mapping; it gives what
-- the first layer that has an answer says.
pub zsdb_fetch-layered :
    (host : Host) (slack : Slack) (p : FetchPriv) (tables : List (List (List ℕ) × List (List ℕ)))
    (key : List ℕ) (k0 : ZsKey)
    → IsReadable slack
    → 0 < length key
    → p.is_open ≡ true
    → p.factive_is_open ≡ true
    → IsTree p.memtree
    → IsTree p.fmemtree
    → ArePacked host p.pflist tables
    → zsdb_fetch host none slack p key k0
      ≡ layered
          (lookup key (contents p.memtree))
          (lookup key (contents p.fmemtree))
          (packed_value key tables)
unfolding zsdb_fetch
zsdb_fetch-layered host slack p tables key k0 readable filled opened active_opened t ft packed =
    let some_key : (length key == 0) ≡ false = ground (arith, filled) in
    rw (some_key, opened, active_opened)
      (found_record slack p.memtree key _ readable t
        ∙ ap (in_active (live (lookup key (contents p.memtree)))) (
            found_record slack p.fmemtree key _ readable ft
            ∙ ap (in_finalised (lookup key (contents p.fmemtree)))
                (search_packed-first host p.pflist tables key k0 packed)))
