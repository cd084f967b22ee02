-- ===== src/Active/Runs.antt =====
-- Sessions, call by call, and what a reader of the file sees after one.
use zeroskip.Prelude.{
  Bool, false, true, ℕ, ◌+◌, ◌*◌, ◌^◌, ◌≤◌, ◌<◌, ◌≡◌, refl, sym, ap, ◌∙◌, inl, inr, true, false,
  not, ◌&&◌, Option, none, some, List, [], ◌∷◌, arith, length, leb, ◌==◌, append-nil, guards,
  if-true, if-false, Bool-cases, if◌then◌else◌,
}
use zeroskip.Word.{Host}
use zeroskip.Word.BigEndian.{length-write_be64}
use zeroskip.MFile.{calm, Checksum}
use zeroskip.MFile.Append.{IsCovering}
use zeroskip.MFile.Write.{length-bytes_of}
use zeroskip.File.{Code, zs_ok}
use zeroskip.File.Writes.{contents}
use zeroskip.File.Commit.{write_commit-appends}
use zeroskip.Record.Log.{committed, commit_word, commit_sum}
use zeroskip.Active.{
  Priv, Replace, DotOs, two_mb, zsdb_add, zsdb_remove, zsdb_commit,
  zs_dotzsdb_update_index_and_offset, read_fields, begin_crc,
}
use zeroskip.Active.Session.{Op, put, delete, commit, run_op, cost, IsSafe, IsReady, Session}
use zeroskip.Active.Steps.{
  one_entry, add_record-Session, write_removal-Session, begin-IsReady, begin-covers, begin_same,
  from_begin,
}

nonempty : (key : List ℕ) → 0 < length key → (length key == 0) ≡ false
nonempty key h = ground (arith, h)

module _ {Tree : Type 0} (host : Host) (crc : Checksum) (memtree_replace : Replace Tree)
    (reload finalise file_new : Priv Tree → Code × Priv Tree) (dot : DotOs) where
  add-Session :
      (p : Priv Tree) (key val : List ℕ)
      → IsReady crc p
      → IsSafe (put key val)
      → length (contents p.factive) + cost (put key val ∷ []) < two_mb
      → (p' : Priv Tree) × (zsdb_add host crc memtree_replace calm calm 0 reload finalise file_new p
            key val
          ≡ some (zs_ok, p'))
        × Session host crc memtree_replace (put key val ∷ []) p p'
  unfolding zsdb_add
  add-Session p key val r some_key room =
      let (p', added, w) = add_record-Session host crc memtree_replace p key val r (omega arith) in
      let a = r.writable.appending in
      let small : leb (2 * 2 ^ 20) p.factive.mf.size ≡ false =
        ground
          (arith, length-bytes_of p.factive.mf.ptr p.factive.mf.size a.well.sized a.usable, room) in
      (
        p',
        if-false _ _ _ (nonempty key some_key)
            ∙ guards _ _ _ _ _ _ r.opened r.writable.opened r.locked
            ∙ if-false _ _ _ small
            ∙ added,
        w,
      )

  remove-Session :
      (p : Priv Tree) (key : List ℕ)
      → IsReady crc p
      → IsSafe (delete key)
      → length (contents p.factive) + cost (delete key ∷ []) < two_mb
      → (p' : Priv Tree) × (zsdb_remove host crc memtree_replace calm p key ≡ some (zs_ok, p'))
        × Session host crc memtree_replace (delete key ∷ []) p p'
  unfolding zsdb_remove
  remove-Session p key r (some_key, short) room =
      let fits : length (contents p.factive) + cost (delete key ∷ []) < 2 ^ 24 = omega arith in
      let (p', done, w) =
        write_removal-Session host crc memtree_replace (begin_crc crc p) key
          (begin-IsReady host crc memtree_replace p r) (begin-covers host crc memtree_replace p)
          short (rw (begin_same host crc memtree_replace p) fits) in
      (
        p',
        if-false _ _ _ (nonempty key some_key)
            ∙ guards _ _ _ _ _ _ r.opened r.writable.opened r.locked
            ∙ done,
        from_begin host crc memtree_replace (delete key ∷ []) p p' w,
      )

  update_lem :
      (q : Priv Tree) (idx offset : ℕ)
      → (i : ℕ) × (o : ℕ) × ((zs_dotzsdb_update_index_and_offset dot q idx offset).1
          ≡ record q { curidx = i; offset = o })
  unfolding zs_dotzsdb_update_index_and_offset
  update_lem q idx offset = go dot.begins dot.found
    where
      go :
          (b : Bool) (f : Option (ℕ × ℕ))
          → (i : ℕ) × (o : ℕ) × ((elim b as (λ _. ℕ × Priv Tree) [
            | false ↦ (1, read_fields f q)
            | true ↦ (if dot.ends then 0 else 1, record q { curidx = idx; offset = offset })
          ]).1
              ≡ record q { curidx = i; offset = o })
      go false none = (q.curidx, q.offset, refl)
      go false (some (i, o)) = (i, o, refl)
      go true f = (idx, offset, refl)

  -- With something to commit.
  written_commit :
      (p : Priv Tree)
      → IsReady crc p
      → IsCovering crc p.factive.mf
      → length (contents p.factive) + cost (commit ∷ []) < two_mb
      → (p.factive.mf.crc32_data_len == 0 && not p.factive_dirty) ≡ false
      → (p' : Priv Tree) × (zsdb_commit host crc calm calm dot true p ≡ some (zs_ok, p'))
        × Session host crc memtree_replace (commit ∷ []) p p'
  unfolding zsdb_commit
  written_commit p r c room work =
      let a = r.writable.appending in
      let (buf, f, written, is_record, since, writable, holds, off, none_yet) =
        write_commit-appends host crc p.factive r.writable c (omega (arith, c.covers, a.at_end))
          (omega arith) in
      let q : Priv Tree = record p { factive = f; factive_dirty = false } in
      let (i, o, updated) = update_lem q p.curidx f.mf.offset in
      let p' = record q { curidx = i; offset = o; dbdirty = false } in
      let ready : IsReady crc p' = record {
        opened = r.opened;
        locked = r.locked;
        writable = writable;
        tracks = inr (off, refl, none_yet);
      } in
      let size : length buf ≤ 64 = rw is_record.image (
        omega (
          arith,
          length-write_be64 host
              (commit_word is_record.len + commit_sum host crc (contents p.factive) is_record.len),
        )) in
      let w =
        one_entry host crc memtree_replace commit p p' (committed buf) ready holds is_record
          (λ S f g s. refl) refl size in
      (
        p',
        if-false _ _ _ (ap not r.writable.opened) ∙ if-false _ _ _ work ∙ rw (written, updated),
        w,
      )

  -- A commit writes a record unless there is nothing to commit.
  commit-Session :
      (p : Priv Tree)
      → IsReady crc p
      → length (contents p.factive) + cost (commit ∷ []) < two_mb
      → (p' : Priv Tree) × (zsdb_commit host crc calm calm dot true p ≡ some (zs_ok, p'))
        × Session host crc memtree_replace (commit ∷ []) p p'
  unfolding zsdb_commit
  commit-Session p r room =
      elim (Bool-cases (p.factive.mf.crc32_data_len == 0 && not p.factive_dirty)) [
        | inl idle ↦
            let p' = record p { dbdirty = false } in
            let w : Session host crc memtree_replace (commit ∷ []) p p' = record {
              es = [];
              ready = record {
                opened = r.opened;
                locked = r.locked;
                writable = r.writable;
                tracks = r.tracks;
              };
              holds = sym (append-nil (contents p.factive));
              is_log = tt;
              effects = λ f g s. refl;
              tree = refl;
              size = omega arith;
              count = omega arith;
            } in
            (p', if-false _ _ _ (ap not r.writable.opened) ∙ if-true _ _ _ idle, w)
        | inr work ↦ elim r.tracks [
          | inl c ↦ written_commit p r c room work
          | inr (off, clean, none_yet) ↦
              (let impossible : true ≡ false = rw (none_yet, clean) at work in cc impossible)
        ]
      ]

  pub op-Session :
      (op : Op) (p : Priv Tree)
      → IsReady crc p
      → IsSafe op
      → length (contents p.factive) + cost (op ∷ []) < two_mb
      → (p' : Priv Tree) × (run_op host crc memtree_replace reload finalise file_new dot op p
          ≡ some (zs_ok, p'))
        × Session host crc memtree_replace (op ∷ []) p p'
  unfolding run_op
  op-Session (put key val) p r safe room = add-Session p key val r safe room
  op-Session (delete key) p r safe room = remove-Session p key r safe room
  op-Session commit p r safe room = commit-Session p r room
