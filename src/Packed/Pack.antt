-- ===== src/Packed/Pack.antt =====
-- Packing the records of a tree (zs_packed_file_new_from_memtree).
use zeroskip.Prelude.{
  ℕ, ◌+◌, ◌^◌, ◌<◌, ◌≤◌, ◌≡◌, refl, sym, ap, some, List, [], ◌∷◌, ◌++◌, append_assoc, append-nil,
  arith, length, length-append,
}
use zeroskip.Word.{Host}
use zeroskip.MFile.{calm}
use zeroskip.Format.{max_short_key_len}
use zeroskip.Format.RoundTrip.{IsReadBack, read_back}
use zeroskip.Format.KeyRecord.{IsKeyRecord}
use zeroskip.Format.ValRecord.{IsValRecord}
use zeroskip.Format.Encode.{zs_prepare_key_buf}
use zeroskip.File.Writes.{IsWritable, contents, write_keyval_lem}
use zeroskip.Vecu64.Holds.{Holds}
use zeroskip.Vecu64.Inserts.{vecu64_append-Holds}
use zeroskip.Memtree.{Entry}
use zeroskip.Memtree.Find.{foreach_rec, keys}
use zeroskip.Packed.{PackFile, zs_packed_file_write_memtree_record, record_step}
use zeroskip.Fetch.Ends.{prepared-read_key}
use zeroskip.Packed.Packs.{weight, IsPlain, ArePlain, IsKeyAt, Packs, then_Packs}

module _ (host : Host) where
  pair_at :
      (offset : ℕ) (key val kb vb before after : List ℕ)
      → IsKeyRecord host key kb
      → IsValRecord host val vb
      → length before + length kb < 2 ^ 64
      → offset ≡ length before
      → IsReadBack host key val (before ++ ((kb ++ vb) ++ after)) offset
  pair_at offset key val kb vb before after k v room e =
      rw (e, append_assoc kb vb after) (read_back host key val kb vb before after k v room)

  key_at :
      (offset : ℕ) (key kb vb before after : List ℕ)
      → length key ≤ max_short_key_len
      → zs_prepare_key_buf host key ≡ some kb
      → offset ≡ length before
      → IsKeyAt host (before ++ ((kb ++ vb) ++ after)) offset key
  key_at offset key kb vb before after short prepared e index k0 =
      rw (e, append_assoc kb vb after)
        (prepared-read_key host key kb before (vb ++ after) index k0 short prepared)

  module _ (junk : ℕ) where
    one_record :
        (r : Entry) (old : List ℕ) (g : PackFile)
        → IsPlain r
        → IsWritable g.file
        → Holds g.index old
        → length old < 2 ^ 58
        → length (contents g.file) + weight (r ∷ []) < 2 ^ 58
        → (g' : PackFile) × (record_step host junk calm r (some g) ≡ some g')
          × Packs host (r ∷ []) old g g'
    unfolding zs_packed_file_write_memtree_record keys
    one_record r old g (alive, short) w h few room =
        let before = contents g.file in
        let place = w.appending.at_end in
        let (index, appended, h') = vecu64_append-Holds junk g.index old g.file.mf.offset h few in
        let (kb, vb, f', wrote, k, v, extended, size, prepared, small, begun) =
          write_keyval_lem host g.file r.key r.val w (omega (arith, room)) (omega (arith, room))
            (omega (arith, room)) in
        (
          record { file = f'; index = index },
          rw (appended, alive, wrote),
          record {
            bytes = kb ++ vb;
            offsets = g.file.mf.offset ∷ [];
            writable = extended.writable;
            holds = extended.holds;
            index = h';
            covering = extended.covering;
            begun = begun;
            pairs = λ after. (
              pair_at g.file.mf.offset r.key r.val kb vb before after k v
                  (omega (arith, room, small)) place,
              tt,
            );
            short = λ after.
                (key_at g.file.mf.offset r.key kb vb before after short prepared place, tt);
            size = omega (arith, size);
            words = (omega (arith, place, room), tt);
            count = refl;
          },
        )

    -- All records, in their order.
    pub all_records :
        (es : List Entry) (old : List ℕ) (g : PackFile)
        → ArePlain es
        → IsWritable g.file
        → Holds g.index old
        → length old + length es < 2 ^ 58
        → length (contents g.file) + weight es < 2 ^ 58
        → (g' : PackFile) × (foreach_rec (record_step host junk calm) es (some g) ≡ some g')
          × Packs host es old g g'
    unfolding keys
    all_records [] old g plain w h few room = (
      g,
      refl,
      record {
        bytes = [];
        offsets = [];
        writable = w;
        holds = sym (append-nil (contents g.file));
        index = rw (append-nil old) h;
        covering = λ crc c. c;
        begun = refl;
        pairs = λ after. tt;
        short = λ after. tt;
        size = omega arith;
        words = tt;
        count = refl;
      },
    )
    all_records (r ∷ es) old g (plain, plains) w h few room =
        let (g1, first, p) =
          one_record r old g plain w h (omega (arith, few)) (omega (arith, room)) in
        let longer = ap (length {A = ℕ}) p.holds in
        let (g2, rest, q) =
          all_records es (old ++ p.offsets) g1 plains p.writable p.index
            (omega (arith, few, length-append old p.offsets, p.count))
            (omega (arith, room, longer, length-append (contents g.file) p.bytes, p.size)) in
        (g2, rw first rest, then_Packs host (r ∷ []) es old g g1 g2 p q)
