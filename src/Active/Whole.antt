-- ===== src/Active/Whole.antt =====
-- Whole sessions, and what a reader of the file sees after one.
use mathlib.Core.List.{foldl}
use zeroskip.Prelude.{
  ℕ, ◌+◌, ◌<◌, ◌≡◌, refl, sym, ap, ◌∙◌, some, List, [], ◌∷◌, ◌++◌, arith, length, append_assoc,
  append-nil, length-append,
}
use zeroskip.Word.{Host}
use zeroskip.MFile.Write.{length-bytes_of}
use zeroskip.MFile.{Mapping, map_failed, null, stale, mapped, Checksum, stat_found, Os, bytes_of}
use zeroskip.Format.{zs_hdr_size}
use zeroskip.Format.Decode.{ZsKey, ZsVal}
use zeroskip.File.{Code, zs_ok}
use zeroskip.File.Writes.{contents}
use zeroskip.Record.{returned, record_foreach}
use zeroskip.Record.Log.{Entry, entry_bytes, log_bytes, IsLog, effect}
use zeroskip.Record.Replay.{record_foreach-replays}
use zeroskip.Active.{Priv, Replace, DotOs, two_mb}
use zeroskip.Active.Session.{
  Op, put, delete, commit, run_ops, cost, AreSafe, op_effect, tree_effect, IsReady, Session,
}
use zeroskip.Active.Runs.{op-Session}

foldl-append :
    {A S : Type 0} (f : S → A → S) (s : S) (xs ys : List A)
    → foldl f s (xs ++ ys) ≡ foldl f (foldl f s xs) ys
foldl-append f s [] ys = refl
foldl-append f s (x ∷ xs) ys = foldl-append f (f s x) xs ys

log_bytes-append : (es es' : List Entry) → log_bytes (es ++ es') ≡ log_bytes es ++ log_bytes es'
log_bytes-append [] es' = refl
log_bytes-append (e ∷ es) es' =
    ap (λ (xs : List ℕ). entry_bytes e ++ xs) (log_bytes-append es es')
    ∙ sym (append_assoc (entry_bytes e) (log_bytes es) (log_bytes es'))

cost_cons : (op : Op) (ops : List Op) → cost (op ∷ ops) ≡ cost (op ∷ []) + cost ops
cost_cons (put key val) ops = omega arith
cost_cons (delete key) ops = omega arith
cost_cons commit ops = omega arith

module _ (host : Host) (crc : Checksum) where
  IsLog-append :
      (before : List ℕ) (es es' : List Entry)
      → IsLog host crc before es
      → IsLog host crc (before ++ log_bytes es) es'
      → IsLog host crc before (es ++ es')
  IsLog-append before [] es' h h' = rw (append-nil before) at h'
  IsLog-append before (e ∷ es) es' (here, later) h' = (
    here,
    IsLog-append (before ++ entry_bytes e) es es' later
        (rw (← append_assoc before (entry_bytes e) (log_bytes es)) at h'),
  )

  then_Session :
      {Tree : Type 0} (memtree_replace : Replace Tree) (op : Op) (ops : List Op)
      (p p1 p2 : Priv Tree)
      → Session host crc memtree_replace (op ∷ []) p p1
      → Session host crc memtree_replace ops p1 p2
      → Session host crc memtree_replace (op ∷ ops) p p2
  then_Session memtree_replace op ops p p1 p2 v w =
      let joined = log_bytes-append v.es w.es in
      let es' = w.es in
      record {
        es = v.es ++ w.es;
        ready = w.ready;
        holds =
            w.holds
            ∙ ap (λ (xs : List ℕ). xs ++ log_bytes es') v.holds
            ∙ append_assoc (contents p.factive) (log_bytes v.es) (log_bytes es')
            ∙ ap (λ (xs : List ℕ). contents p.factive ++ xs) (sym joined);
        is_log = IsLog-append (contents p.factive) v.es w.es v.is_log (rw v.holds at w.is_log);
        effects = λ f g s.
            foldl-append (effect (some f) (some g)) s v.es w.es
            ∙ ap (λ t. foldl (effect (some f) (some g)) t es') (v.effects f g s)
            ∙ w.effects f g (op_effect f g s op);
        tree = w.tree ∙ ap (λ t. foldl (tree_effect memtree_replace) t ops) v.tree;
        size = omega (
          arith,
          ap (length {A = ℕ}) joined,
          length-append (log_bytes v.es) (log_bytes w.es),
          v.size,
          w.size,
          cost_cons op ops,
        );
        count = omega (arith, length-append v.es w.es, v.count, w.count);
      }

mapped_of : (m : Mapping) → 0 < length (bytes_of m) → m ≡ mapped (bytes_of m)
mapped_of map_failed h = elim h [ ]
mapped_of null h = elim h [ ]
mapped_of stale h = elim h [ ]
mapped_of (mapped bytes) h = refl

module _ {Tree : Type 0} (host : Host) (crc : Checksum) (memtree_replace : Replace Tree)
    (reload finalise file_new : Priv Tree → Code × Priv Tree) (dot : DotOs) where
  -- A session of additions, removals and commits on a database that is open for writing and ready
  -- (the active file is at its end, and the running checksum, if there is one, covers what was
  -- written since it began), where no system call fails, no other process interferes, no key is empty,
  -- keys to be removed have at most 65535 bytes and the active file stays below 2 MB: every call returns
  -- ZS_OK, the file is longer by well-written entries, and these entries and the changes to the
  -- tree are the calls, in their order.
  pub run_ops-Session :
      (ops : List Op) (p : Priv Tree)
      → IsReady crc p
      → AreSafe ops
      → length (contents p.factive) + cost ops < two_mb
      → (p' : Priv Tree) × (run_ops host crc memtree_replace reload finalise file_new dot ops p
          ≡ some (zs_ok, p'))
        × Session host crc memtree_replace ops p p'
  unfolding run_ops
  run_ops-Session [] p r safe room =
      let w : Session host crc memtree_replace [] p p = record {
        es = [];
        ready = r;
        holds = sym (append-nil (contents p.factive));
        is_log = tt;
        effects = λ f g s. refl;
        tree = refl;
        size = omega arith;
        count = omega arith;
      } in
      (p, refl, w)
  run_ops-Session (op ∷ ops) p r (safe, later) room =
      let costs = cost_cons op ops in
      let (p1, first, v) =
        op-Session host crc memtree_replace reload finalise file_new dot op p r safe
          (omega (arith, costs)) in
      let size = ap (length {A = ℕ}) v.holds in
      let sizes = length-append (contents p.factive) (log_bytes v.es) in
      let (p2, rest, w) =
        run_ops-Session ops p1 v.ready later (omega (arith, costs, size, sizes, v.size)) in
      (p2, rw first rest, then_Session host crc memtree_replace op ops p p1 p2 v w)

  -- A session under the same conditions on an active file that holds a header alone, read back: the loop over the
  -- file, with more rounds of fuel than calls, returns ZS_OK and has called the callbacks `f` for
  -- the additions and `g` for the removals, in the order of the session.
  pub run_ops-record_foreach :
      {S : Type 0} (ops : List Op) (p : Priv Tree) (key0 : ZsKey) (val0 : ZsVal)
      (f g : S → List ℕ → List ℕ → S) (s : S) (fuel : ℕ) (os : Os)
      → IsReady crc p
      → AreSafe ops
      → length (contents p.factive) ≡ zs_hdr_size
      → zs_hdr_size + cost ops < two_mb
      → length ops < fuel
      → (p' : Priv Tree) × (run_ops host crc memtree_replace reload finalise file_new dot ops p
          ≡ some (zs_ok, p'))
        × (record_foreach host crc key0 val0
              (some f)
              (some g)
              fuel
              os
              (stat_found (contents p'.factive))
              p'.factive
              s
            ≡ returned (zs_ok, foldl (op_effect f g) s ops))
  run_ops-record_foreach {S = S} ops p key0 val0 f g s fuel os r safe sized room enough =
      let (p', ran, w) = run_ops-Session ops p r safe (omega (arith, sized)) in
      let header = contents p.factive in
      let whole = w.holds in
      let size = ap (length {A = ℕ}) whole in
      let sizes = length-append header (log_bytes w.es) in
      let a = w.ready.writable.appending in
      let there = mapped_of p'.factive.mf.ptr (omega (arith, size, sizes, sized)) in
      let stated = length-bytes_of p'.factive.mf.ptr p'.factive.mf.size a.well.sized a.usable in
      let read =
        record_foreach-replays host crc key0 val0 (some f) (some g) w.es header fuel os p'.factive s
          sized w.is_log w.ready.writable.opened (there ∙ ap mapped whole)
          (omega (arith, stated, size)) (omega (arith, sizes, w.size, sized))
          (omega (arith, w.count)) in
      (p', ran, rw whole (read ∙ ap (λ (t : S). returned (zs_ok, t)) (w.effects f g s)))
