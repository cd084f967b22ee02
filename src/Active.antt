-- ===== src/Active.antt =====
-- The operations on the active file (zsdb_add, zsdb_remove and zsdb_commit of src/zeroskip.c, and
-- zs_dotzsdb_update_index_and_offset of src/zeroskip-dotzsdb.c). The in-memory tree is a
-- parameter: what `memtree_replace` makes of a tree and a record.
pub mod Session
pub mod Steps
pub mod Runs
pub mod Whole
pub mod Reopen
use zeroskip.Prelude.{
  ℕ, ◌+◌, ◌*◌, ◌^◌, Bool, true, false, not, ◌&&◌, ◌||◌, Option, none, some, List, length, [], ◌==◌,
  ltb, leb, if◌then◌else◌, ◌>>=◌,
}
use zeroskip.Word.{Host}
use zeroskip.MFile.{MFile, Os, Checksum, crc32_begin, crc32_end}
use zeroskip.File.{
  Code, zs_ok, zs_error, zs_not_open, ZsdbFile, zs_file_write_keyval_record,
  zs_file_write_delete_record, zs_file_write_commit_record,
}
use zeroskip.Record.{is_ok}

abbrev pub two_mb : ℕ
two_mb = 2 * 2 ^ 20

-- The part of struct zsdb_priv that these operations use, with the part of struct dotzsdb that a
-- commit changes.
pub record Priv (Tree : Type 0) : Type 0 where
  pub is_open : Bool
  pub write_locked : Bool
  pub factive : ZsdbFile
  pub factive_dirty : Bool
  pub dbdirty : Bool
  pub memtree : Tree
  pub curidx : ℕ
  pub offset : ℕ

-- `memtree_replace (tree, record_new (key, val, deleted))`.
abbrev pub Replace : Type 0 → Type 0
Replace Tree = Tree → List ℕ → List ℕ → Bool → Tree

-- What `zs_dotzsdb_update_begin` returns, with the index and the offset of the file if it has read
-- them, also where it fails after that, and what `zs_dotzsdb_update_end` returns.
pub record DotOs : Type 0 where
  pub begins : Bool
  pub found : Option (ℕ × ℕ)
  pub ends : Bool

module _ {Tree : Type 0} where
  -- `priv->dotzsdb.offset` and `priv->dotzsdb.curidx` with what is read from the file.
  abbrev pub read_fields : Option (ℕ × ℕ) → Priv Tree → Priv Tree
  read_fields none p = p
  read_fields (some (idx, offset)) p = record p { curidx = idx; offset = offset }

  pub zs_dotzsdb_update_index_and_offset : DotOs → Priv Tree → ℕ → ℕ → ℕ × Priv Tree
  zs_dotzsdb_update_index_and_offset os p idx offset = elim os.begins [
    | false ↦ (1, read_fields os.found p)
    | true ↦ (if os.ends then 0 else 1, record p { curidx = idx; offset = offset })
  ]

  pub set_mf : Priv Tree → MFile → Priv Tree
  set_mf p mf = record p { factive = record p.factive { mf = mf } }

  -- What a writer's return code leads to: `crc32_end` after a failure.
  settle :
      Checksum → Priv Tree → (Priv Tree → Priv Tree) → Code × ZsdbFile → Option (Code × Priv Tree)
  settle crc p next (ret, f) =
      let p' = record p { factive = f } in
      elim (is_ok ret) [
        | true ↦ some (ret, next p')
        | false ↦ (crc32_end crc f.mf >>= λ ended. some (ret, set_mf p' ended.1))
      ]

  pub begin_crc : Checksum → Priv Tree → Priv Tree
  unfolding set_mf
  begin_crc crc p = set_mf p (crc32_begin crc p.factive.mf)

  -- The checksum is started, where it has not been.
  pub ensure_crc : Checksum → Priv Tree → Priv Tree
  ensure_crc crc p = if p.factive.mf.compute_crc then p else begin_crc crc p

  module _ (host : Host) (crc : Checksum) (memtree_replace : Replace Tree) where
    -- The record is written, and put in the tree.
    pub write_pair : Os → Os → Priv Tree → List ℕ → List ℕ → Option (Code × Priv Tree)
    unfolding settle
    write_pair os_key os_val p key val = do
      written ← zs_file_write_keyval_record host os_key os_val p.factive key val
      settle crc p
          (λ q. record q {
            factive_dirty = true;
            dbdirty = true;
            memtree = memtree_replace q.memtree key val false;
          })
          written

    pub write_removal : Os → Priv Tree → List ℕ → Option (Code × Priv Tree)
    unfolding settle
    write_removal os p key = do
      written ← zs_file_write_delete_record host os p.factive key
      settle crc p
          (λ q. record q {
            factive_dirty = true;
            dbdirty = true;
            memtree = memtree_replace q.memtree key [] true;
          })
          written

    pub add_record : Os → Os → Priv Tree → List ℕ → List ℕ → Option (Code × Priv Tree)
    add_record os_key os_val p key val = write_pair os_key os_val (ensure_crc crc p) key val

    -- The key is not empty, by an assertion, which ends the program. A database that has changed is loaded anew, and a file of 2 MB is finalised: `reload`,
    -- `finalise` and `file_new` are the operations of the other modules.
    pub zsdb_add :
        Os
        → Os
        → ℕ
        → (Priv Tree → Code × Priv Tree)
        → (Priv Tree → Code × Priv Tree)
        → (Priv Tree → Code × Priv Tree)
        → Priv Tree
        → List ℕ
        → List ℕ
        → Option (Code × Priv Tree)
    zsdb_add os_key os_val check_stat reload finalise file_new p key val =
        let rotate : Priv Tree → Option (Code × Priv Tree) = λ q.
          if leb two_mb q.factive.mf.size
          then elim (is_ok (finalise q).0) [
            | true ↦ add_record os_key os_val (file_new (finalise q).1).1 key val
            | false ↦ some (finalise q)
          ]
          else add_record os_key os_val q key val in
        if length key == 0
        then none
        else if not p.is_open || not p.factive.is_open
        then some (zs_not_open, p)
        else if not p.write_locked
        then some (zs_error, p)
        else if ltb 0 check_stat
        then elim (is_ok (reload p).0) [ true ↦ rotate (reload p).1 | false ↦ some (reload p) ]
        else rotate p

    -- The checksum starts anew. The key is not empty either.
    pub zsdb_remove : Os → Priv Tree → List ℕ → Option (Code × Priv Tree)
    zsdb_remove os p key =
        let write = write_removal os (begin_crc crc p) key in
        if length key == 0
        then none
        else if not p.is_open || not p.factive.is_open
        then some (zs_not_open, p)
        else if not p.write_locked
        then some (zs_error, p)
        else write

  module _ (host : Host) (crc : Checksum) where
    -- `with_txn`: the caller has given a transaction, which ends.
    pub zsdb_commit : Os → Os → DotOs → Bool → Priv Tree → Option (Code × Priv Tree)
    zsdb_commit os_write os_flush dot with_txn p =
        let finish : Code → Priv Tree → Code × Priv Tree =
          λ ret q. (ret, if with_txn then record q { dbdirty = false } else q) in
        let write : Option (Code × Priv Tree) = do
          (ret, f) ← zs_file_write_commit_record host crc os_write os_flush p.factive false
          let q = record p {
            factive = f;
            factive_dirty = if is_ok ret then false else p.factive_dirty;
          }
          let updated = zs_dotzsdb_update_index_and_offset dot q q.curidx f.mf.offset
          some (finish ret updated.1)
        in if not p.factive.is_open
          then some (zs_not_open, p)
          else if p.factive.mf.crc32_data_len == 0 && not p.factive_dirty
          then some (finish zs_ok p)
          else write
