-- ===== src/Active/Session.antt =====
-- A session on the active file, as a list of calls: what the file and the tree hold after it.
use mathlib.Core.List.{foldl}
use zeroskip.Prelude.{
  ℕ, ◌+◌, ◌≤◌, ◌<◌, ◌≡◌, ◌⊎◌, true, false, Option, some, List, [], ◌∷◌, ◌++◌, length, ◌>>=◌,
}
use zeroskip.Word.{Host}
use zeroskip.MFile.{calm, Checksum}
use zeroskip.MFile.Append.{IsCovering}
use zeroskip.Format.{max_short_key_len}
use zeroskip.File.{Code, zs_ok}
use zeroskip.File.Writes.{IsWritable, contents}
use zeroskip.Record.Log.{Entry, log_bytes, IsLog, effect}
use zeroskip.Active.{Priv, Replace, DotOs, zsdb_add, zsdb_remove, zsdb_commit}

pub data Op : Type 0 where
  put : List ℕ → List ℕ → Op
  delete : List ℕ → Op
  commit : Op

-- No system call fails, and no other process has changed the database.
module _ {Tree : Type 0} (host : Host) (crc : Checksum) (memtree_replace : Replace Tree)
    (reload finalise file_new : Priv Tree → Code × Priv Tree) (dot : DotOs) where
  unfoldable pub run_op : Op → Priv Tree → Option (Code × Priv Tree)
  run_op (put key val) p =
      zsdb_add host crc memtree_replace calm calm 0 reload finalise file_new p key val
  run_op (delete key) p = zsdb_remove host crc memtree_replace calm p key
  run_op commit p = zsdb_commit host crc calm calm dot true p

  -- Up to the first call that fails.
  unfoldable pub run_ops : List Op → Priv Tree → Option (Code × Priv Tree)
  run_ops [] p = some (zs_ok, p)
  run_ops (op ∷ ops) p =
      run_op op p >>= λ (ret, p'). elim ret [ zs_ok ↦ run_ops ops p' | err ↦ some (err, p') ]

-- At least what a call adds to the file.
abbrev pub cost : List Op → ℕ
cost [] = 0
cost (put key val ∷ ops) = length key + length val + 64 + cost ops
cost (delete key ∷ ops) = length key + 64 + cost ops
cost (commit ∷ ops) = 64 + cost ops

-- A key is not empty, and one that is deleted has at most 65535 bytes.
abbrev pub IsSafe : Op → Type 0
IsSafe (put key val) = 0 < length key
IsSafe (delete key) = (0 < length key) × (length key ≤ max_short_key_len)
IsSafe commit = Unit

abbrev pub AreSafe : List Op → Type 0
AreSafe [] = Unit
AreSafe (op ∷ ops) = IsSafe op × AreSafe ops

-- What a call means to a reader with the callbacks `f` and `g`, and to the tree.
abbrev pub op_effect :
    {S : Type 0} → (S → List ℕ → List ℕ → S) → (S → List ℕ → List ℕ → S) → S → Op → S
op_effect f g s (put key val) = f s key val
op_effect f g s (delete key) = g s key []
op_effect f g s commit = s

abbrev pub tree_effect : {Tree : Type 0} → Replace Tree → Tree → Op → Tree
tree_effect memtree_replace =
    op_effect (λ t key val. memtree_replace t key val false)
      (λ t key val. memtree_replace t key val true)

-- The checksum is in step with the dirty flag.
abbrev pub Tracks : {Tree : Type 0} → Checksum → Priv Tree → Type 0
Tracks crc p =
    IsCovering crc p.factive.mf
    ⊎ ((p.factive.mf.compute_crc ≡ false)
        × (p.factive_dirty ≡ false)
        × (p.factive.mf.crc32_data_len ≡ 0))

-- A database that is open for writing and ready for a call.
pub record IsReady {Tree : Type 0} (crc : Checksum) (p : Priv Tree) : Type 0 where
  pub opened : p.is_open ≡ true
  pub locked : p.write_locked ≡ true
  pub writable : IsWritable p.factive
  pub tracks : Tracks crc p

-- What the calls `ops` make of the database: the file is longer by a log of them.
pub record Session {Tree : Type 0} (host : Host) (crc : Checksum) (memtree_replace : Replace Tree)
    (ops : List Op) (p p' : Priv Tree) : Type 1 where
  pub es : List Entry
  pub ready : IsReady crc p'
  pub holds : contents p'.factive ≡ contents p.factive ++ log_bytes es
  pub is_log : IsLog host crc (contents p.factive) es
  pub effects :
      {S : Type 0} (f g : S → List ℕ → List ℕ → S) (s : S)
      → foldl (effect (some f) (some g)) s es ≡ foldl (op_effect f g) s ops
  pub tree : p'.memtree ≡ foldl (tree_effect memtree_replace) p.memtree ops
  pub size : length (log_bytes es) ≤ cost ops
  pub count : length es ≤ length ops
