-- ===== src/Packed/Packs.antt =====
-- The records of a tree as a packed file has them.
use zeroskip.Prelude.{
  ℕ, ◌+◌, ◌≤◌, ◌≡◌, sym, ap, ◌∙◌, subst, true, false, some, List, [], ◌∷◌, ◌++◌, append_assoc,
  arith, length, length-append,
}
use zeroskip.Word.{Host}
use zeroskip.Buffer.{slice}
use zeroskip.MFile.{Checksum}
use zeroskip.MFile.Append.{IsCovering}
use zeroskip.Format.{max_short_key_len}
use zeroskip.Format.Decode.{ZsKey}
use zeroskip.File.{zs_ok}
use zeroskip.File.Writes.{IsWritable, contents}
use zeroskip.Search.Packed.{IsIndex}
use zeroskip.Vecu64.Holds.{Holds}
use zeroskip.Memtree.{Entry}
use zeroskip.Memtree.Find.{keys}
use zeroskip.Packed.{PackFile}
use zeroskip.Packed.Open.{AreWords}
use zeroskip.Fetch.{zs_record_read_key_from_file_offset}

abbrev pub values : List Entry → List (List ℕ)
values [] = []
values (r ∷ rs) = r.val ∷ values rs

-- More than what the records take in a file.
abbrev pub weight : List Entry → ℕ
weight [] = 0
weight (r ∷ rs) = length r.key + length r.val + 64 + weight rs

-- A record of a key of at most 65535 bytes that is not deleted.
abbrev pub IsPlain : Entry → Type 0
IsPlain r = (r.deleted ≡ false) × (length r.key ≤ max_short_key_len)

abbrev pub ArePlain : List Entry → Type 0
ArePlain [] = Unit
ArePlain (r ∷ rs) = IsPlain r × ArePlain rs

-- A short key is read at an offset of a file.
abbrev pub IsKeyAt : Host → List ℕ → ℕ → List ℕ → Type 0
IsKeyAt host base offset k =
    (index : List ℕ) (k0 : ZsKey)
    → (k' : ZsKey) × (zs_record_read_key_from_file_offset host
          (record { is_open = true; base = base; index = index }) offset k0
        ≡ some (zs_ok, k'))
      × (slice base k'.data_at k'.slen ≡ some k)

module _ (host : Host) where
  abbrev pub AreKeysAt : List ℕ → List ℕ → List (List ℕ) → Type 0
  AreKeysAt base [] ks = Unit
  AreKeysAt base (offset ∷ offsets) [] = Unit
  AreKeysAt base (offset ∷ offsets) (k ∷ ks) =
      IsKeyAt host base offset k × AreKeysAt base offsets ks

  -- The records have been added to the file, and their places to the index.
  pub record Packs (es : List Entry) (old : List ℕ) (g g' : PackFile) : Type 0 where
    pub bytes : List ℕ
    pub offsets : List ℕ
    pub writable : IsWritable g'.file
    pub holds : contents g'.file ≡ contents g.file ++ bytes
    pub index : Holds g'.index (old ++ offsets)
    pub covering : (crc : Checksum) → IsCovering crc g.file.mf → IsCovering crc g'.file.mf
    pub begun : g'.file.mf.crc32_begin_offset ≡ g.file.mf.crc32_begin_offset
    pub pairs :
        (after : List ℕ)
        → IsIndex host (contents g.file ++ (bytes ++ after)) offsets (keys es) (values es)
    pub short : (after : List ℕ) → AreKeysAt (contents g.file ++ (bytes ++ after)) offsets (keys es)
    pub size : length bytes ≤ weight es
    pub words : AreWords offsets
    pub count : length offsets ≡ length es

  IsIndex-append :
      (base xs ys : List ℕ) (es fs : List Entry)
      → IsIndex host base xs (keys es) (values es)
      → IsIndex host base ys (keys fs) (values fs)
      → IsIndex host base (xs ++ ys) (keys (es ++ fs)) (values (es ++ fs))
  unfolding keys
  IsIndex-append base [] ys [] fs h h' = h'
  IsIndex-append base [] ys (e ∷ es) fs h h' = elim h [ ]
  IsIndex-append base (x ∷ xs) ys [] fs h h' = elim h [ ]
  IsIndex-append base (x ∷ xs) ys (e ∷ es) fs (here, later) h' =
      (here, IsIndex-append base xs ys es fs later h')

  AreKeysAt-append :
      (base xs ys : List ℕ) (es fs : List Entry)
      → length xs ≡ length es
      → AreKeysAt base xs (keys es)
      → AreKeysAt base ys (keys fs)
      → AreKeysAt base (xs ++ ys) (keys (es ++ fs))
  unfolding keys
  AreKeysAt-append base [] ys [] fs e h h' = h'
  AreKeysAt-append base [] ys (r ∷ es) fs e h h' = absurd (omega (arith, e))
  AreKeysAt-append base (x ∷ xs) ys [] fs e h h' = absurd (omega (arith, e))
  AreKeysAt-append base (x ∷ xs) ys (r ∷ es) fs e (here, later) h' =
      (here, AreKeysAt-append base xs ys es fs (omega (arith, e)) later h')

  AreWords-append : (xs ys : List ℕ) → AreWords xs → AreWords ys → AreWords (xs ++ ys)
  AreWords-append [] ys h h' = h'
  AreWords-append (x ∷ xs) ys (here, later) h' = (here, AreWords-append xs ys later h')

  weight-append : (es fs : List Entry) → weight (es ++ fs) ≡ weight es + weight fs
  weight-append [] fs = omega arith
  weight-append (e ∷ es) fs = omega (arith, weight-append es fs)

  pub then_Packs :
      (es fs : List Entry) (old : List ℕ) (g g1 g2 : PackFile) (p : Packs es old g g1)
      → Packs fs (old ++ p.offsets) g1 g2
      → Packs (es ++ fs) old g g2
  then_Packs es fs old g g1 g2 p q =
      let before = contents g.file in
      let base = λ (after : List ℕ).
        let e : before ++ ((p.bytes ++ q.bytes) ++ after)
            ≡ before ++ (p.bytes ++ (q.bytes ++ after)) =
          ap (◌++◌ before) (append_assoc p.bytes q.bytes after) in
        e in
      let base' = λ (after : List ℕ).
        let e : before ++ ((p.bytes ++ q.bytes) ++ after) ≡ contents g1.file ++ (q.bytes ++ after) =
          base after
          ∙ sym (append_assoc before p.bytes (q.bytes ++ after))
          ∙ ap (λ (xs : List ℕ). xs ++ (q.bytes ++ after)) (sym p.holds) in
        e in
      record {
        bytes = p.bytes ++ q.bytes;
        offsets = p.offsets ++ q.offsets;
        writable = q.writable;
        holds =
            q.holds
            ∙ ap (λ (xs : List ℕ). xs ++ q.bytes) p.holds
            ∙ append_assoc before p.bytes q.bytes;
        index = subst (Holds g2.index) (append_assoc old p.offsets q.offsets) q.index;
        covering = λ crc c. q.covering crc (p.covering crc c);
        begun = q.begun ∙ p.begun;
        pairs = λ after.
            IsIndex-append (before ++ ((p.bytes ++ q.bytes) ++ after)) p.offsets q.offsets es fs
              (subst (λ (b : List ℕ). IsIndex host b p.offsets (keys es) (values es))
                (sym (base after)) (p.pairs (q.bytes ++ after)))
              (subst (λ (b : List ℕ). IsIndex host b q.offsets (keys fs) (values fs))
                (sym (base' after)) (q.pairs after));
        short = λ after.
            AreKeysAt-append (before ++ ((p.bytes ++ q.bytes) ++ after)) p.offsets q.offsets es fs
              p.count
              (subst (λ (b : List ℕ). AreKeysAt b p.offsets (keys es)) (sym (base after))
                (p.short (q.bytes ++ after)))
              (subst (λ (b : List ℕ). AreKeysAt b q.offsets (keys fs)) (sym (base' after))
                (q.short after));
        size = omega (arith, length-append p.bytes q.bytes, weight-append es fs, p.size, q.size);
        words = AreWords-append p.offsets q.offsets p.words q.words;
        count =
            omega
              (arith, length-append p.offsets q.offsets, length-append {0} es fs, p.count, q.count);
      }
