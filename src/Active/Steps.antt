-- ===== src/Active/Steps.antt =====
-- A session of one call that writes: a stored pair or a removal.
use zeroskip.Prelude.{
  ℕ, ◌+◌, ◌*◌, ◌^◌, ◌≤◌, ◌<◌, ◌≡◌, refl, sym, ap, ◌∙◌, inl, inr, Bool, true, false, some, List, [],
  ◌∷◌, ◌++◌, arith, length, append-nil, if◌then◌else◌,
}
use zeroskip.Word.{Host}
use zeroskip.MFile.{MFile, calm, Checksum, crc32_begin}
use zeroskip.MFile.Append.{IsAppending, IsCovering}
use zeroskip.Format.Images.{key_image}
use zeroskip.Format.{max_short_key_len}
use zeroskip.File.{zs_ok}
use zeroskip.File.Writes.{contents, write_keyval-extends, write_delete-extends}
use zeroskip.Record.Log.{Entry, stored, removed, entry_bytes, IsEntry, effect}
use zeroskip.Active.{
  Priv, Replace, set_mf, begin_crc, ensure_crc, write_pair, write_removal, add_record,
}
use zeroskip.Active.Session.{Op, put, delete, cost, op_effect, tree_effect, IsReady, Session}

module _ (crc : Checksum) where
  begin-IsAppending : (mf : MFile) → IsAppending mf → IsAppending (crc32_begin crc mf)
  unfolding crc32_begin
  begin-IsAppending mf a = record {
    well = record { sized = a.well.sized; placed = a.well.placed };
    usable = a.usable;
    writable = a.writable;
    at_end = a.at_end;
  }

  begin-IsCovering : (mf : MFile) → IsCovering crc (crc32_begin crc mf)
  unfolding crc32_begin
  begin-IsCovering mf = record { on = refl; fresh = refl; covers = omega arith }

-- Of one entry. The checksum may have been started at `q`, ahead of the write.
pub one_entry :
    {Tree : Type 0} (host : Host) (crc : Checksum) (memtree_replace : Replace Tree) (op : Op)
    (q p' : Priv Tree) (e : Entry)
    → IsReady crc p'
    → contents p'.factive ≡ contents q.factive ++ entry_bytes e
    → IsEntry host crc (contents q.factive) e
    → ((S : Type 0) (f g : S → List ℕ → List ℕ → S) (s : S)
        → effect (some f) (some g) s e ≡ op_effect f g s op)
    → p'.memtree ≡ tree_effect memtree_replace q.memtree op
    → length (entry_bytes e) ≤ cost (op ∷ [])
    → Session host crc memtree_replace (op ∷ []) q p'
one_entry host crc memtree_replace op q p' e ready holds entry effects tree size =
    let whole = sym (append-nil (entry_bytes e)) in
    record {
      es = e ∷ [];
      ready = ready;
      holds = holds ∙ ap (λ (xs : List ℕ). contents q.factive ++ xs) whole;
      is_log = (entry, tt);
      effects = λ f g s. effects _ f g s;
      tree = tree;
      size = omega (arith, size, ap (length {A = ℕ}) whole);
      count = omega arith;
    }

module _ {Tree : Type 0} (host : Host) (crc : Checksum) (memtree_replace : Replace Tree) where
  write_pair-Session :
      (q : Priv Tree) (key val : List ℕ)
      → IsReady crc q
      → IsCovering crc q.factive.mf
      → length (contents q.factive) + cost (put key val ∷ []) < 2 ^ 24
      → (p' : Priv Tree) × (write_pair host crc memtree_replace calm calm q key val
          ≡ some (zs_ok, p'))
        × Session host crc memtree_replace (put key val ∷ []) q p'
  unfolding write_pair
  write_pair-Session q key val r c room =
      let (kb, vb, f', written, k, v, x, size) =
        write_keyval-extends host q.factive key val r.writable (omega arith) (omega arith)
          (omega arith) in
      let p' = record q {
        factive = f';
        factive_dirty = true;
        dbdirty = true;
        memtree = memtree_replace q.memtree key val false;
      } in
      let ready : IsReady crc p' = record {
        opened = r.opened;
        locked = r.locked;
        writable = x.writable;
        tracks = inl (x.covering crc c);
      } in
      (
        p',
        rw written,
        one_entry host crc memtree_replace (put key val) q p' (stored key val kb vb) ready x.holds
            (k, v) (λ S f g s. refl) refl (omega (arith, size)),
      )

  pub write_removal-Session :
      (q : Priv Tree) (key : List ℕ)
      → IsReady crc q
      → IsCovering crc q.factive.mf
      → length key ≤ max_short_key_len
      → length (contents q.factive) + cost (delete key ∷ []) < 2 ^ 24
      → (p' : Priv Tree) × (write_removal host crc memtree_replace calm q key ≡ some (zs_ok, p'))
        × Session host crc memtree_replace (delete key ∷ []) q p'
  unfolding write_removal
  write_removal-Session q key r c short room =
      let (f', written, x, size) =
        write_delete-extends host q.factive key r.writable (omega arith) short in
      let image = key_image host (64 * 2 ^ 56 + length key * 2 ^ 40) 0 0 key in
      let p' = record q {
        factive = f';
        factive_dirty = true;
        dbdirty = true;
        memtree = memtree_replace q.memtree key [] true;
      } in
      let ready : IsReady crc p' = record {
        opened = r.opened;
        locked = r.locked;
        writable = x.writable;
        tracks = inl (x.covering crc c);
      } in
      (
        p',
        rw written,
        one_entry host crc memtree_replace (delete key) q p' (removed key image) ready x.holds
            (record { short = short; image = refl }) (λ S f g s. refl) refl (omega (arith, size)),
      )

  pub begin-IsReady : (p : Priv Tree) → IsReady crc p → IsReady crc (begin_crc crc p)
  unfolding begin_crc set_mf
  begin-IsReady p r = record {
    opened = r.opened;
    locked = r.locked;
    writable = record {
      opened = r.writable.opened;
      appending = begin-IsAppending crc p.factive.mf r.writable.appending;
    };
    tracks = inl (begin-IsCovering crc p.factive.mf);
  }

  pub begin-covers : (p : Priv Tree) → IsCovering crc (begin_crc crc p).factive.mf
  unfolding begin_crc set_mf
  begin-covers p = begin-IsCovering crc p.factive.mf

  -- It changes neither the file nor the tree.
  pub from_begin :
      (ops : List Op) (p p' : Priv Tree)
      → Session host crc memtree_replace ops (begin_crc crc p) p'
      → Session host crc memtree_replace ops p p'
  unfolding begin_crc set_mf crc32_begin
  from_begin ops p p' w = record {
    es = w.es;
    ready = w.ready;
    holds = w.holds;
    is_log = w.is_log;
    effects = λ f g s. w.effects f g s;
    tree = w.tree;
    size = w.size;
    count = w.count;
  }

  pub begin_same : (p : Priv Tree) → contents (begin_crc crc p).factive ≡ contents p.factive
  unfolding begin_crc set_mf crc32_begin
  begin_same p = refl

  ensure_on : (p : Priv Tree) → p.factive.mf.compute_crc ≡ true → ensure_crc crc p ≡ p
  unfolding ensure_crc
  ensure_on p on = ap (λ (b : Bool). if◌then◌else◌ {A = Priv Tree} b p (begin_crc crc p)) on

  ensure_off :
      (p : Priv Tree) → p.factive.mf.compute_crc ≡ false → ensure_crc crc p ≡ begin_crc crc p
  unfolding ensure_crc
  ensure_off p off = ap (λ (b : Bool). if◌then◌else◌ {A = Priv Tree} b p (begin_crc crc p)) off

  pub add_record-Session :
      (p : Priv Tree) (key val : List ℕ)
      → IsReady crc p
      → length (contents p.factive) + cost (put key val ∷ []) < 2 ^ 24
      → (p' : Priv Tree) × (add_record host crc memtree_replace calm calm p key val
          ≡ some (zs_ok, p'))
        × Session host crc memtree_replace (put key val ∷ []) p p'
  unfolding add_record
  add_record-Session p key val r room = elim r.tracks [
    | inl c ↦ rw (ensure_on p c.on) (write_pair-Session p key val r c room)
    | inr (off, clean, none_yet) ↦
        let (p', written, w) =
          write_pair-Session (begin_crc crc p) key val (begin-IsReady p r) (begin-covers p)
            (rw (begin_same p) room) in
        (p', rw (ensure_off p off) written, from_begin (put key val ∷ []) p p' w)
  ]
