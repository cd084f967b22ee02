-- ===== src/Dotzsdb/RoundTrip.antt =====
-- What one process writes to the .zsdb file, another reads.
use zeroskip.Prelude.{
  ℕ, zero, suc, Option, ◌^◌, ◌<◌, ◌≤◌, ◌≡◌, ◌⊎◌, inl, inr, take, take_ge, length-take, lt→ltb,
  if-true, replicate, ◌∷◌, refl, sym, ap, ◌∙◌, true, false, Bool, some, List, [], ◌++◌, arith,
  length, ltb, ◌==◌, ==_refl, ==_iff, append_assoc, append-nil, length-append, le→ltb, if-false,
}
use zeroskip.Word.{Host, store64, load64, write_be64, read_be64}
use zeroskip.Word.BigEndian.{
  load64-store64, length-store64, length-write_be64, read_be64-write_be64,
}
use zeroskip.Word.Half.{write_be32, read_be32, length-write_be32, read_be32-write_be32}
use zeroskip.Buffer.{slice, slice-append, blit-next}
use zeroskip.MFile.{Checksum}
use zeroskip.Format.{zs_hdr_size}
use zeroskip.Header.{zs_signature}
use zeroskip.Record.{returned}
use zeroskip.Dotzsdb.{
  WriteAnswer, interrupted, wrote, write_loop, DotZsdb, dotzsdb_crc, dotzsdb_buf, read_dothdr,
  zs_dotzsdb_create, zs_dotzsdb_validate, zs_dotzsdb_update_begin, zs_dotzsdb_update_end,
}

-- The fields have their widths.
pub record IsDotZsdb (d : DotZsdb) : Type 0 where
  pub signed : d.signature ≡ zs_signature
  pub offset : d.offset < 2 ^ 64
  pub uuid : length d.uuidstr ≡ 37
  pub curidx : d.curidx < 2 ^ 32

loop_ends :
    (k n : ℕ) (rest : List WriteAnswer) (buf : List ℕ)
    → write_loop (replicate k interrupted ++ (wrote n ∷ rest)) buf ≡ returned (take n buf)
unfolding write_loop
loop_ends zero n rest buf = refl
loop_ends (suc k) n rest buf = loop_ends k n rest buf

le_or_lt : (m n : ℕ) → (m ≤ n) ⊎ (n < m)
le_or_lt m n = ground arith

module _ (host : Host) (crc : Checksum) where
  dot_image : DotZsdb → List ℕ
  dot_image d =
      store64 host d.signature
      ++ (write_be64 host d.offset
          ++ (d.uuidstr ++ (write_be32 host d.curidx ++ write_be32 host (dotzsdb_crc host crc d))))

  dotzsdb_crc_lt : (d : DotZsdb) → dotzsdb_crc host crc d < 2 ^ 32
  unfolding dotzsdb_crc
  dotzsdb_crc_lt d = crc.run_lt _ _

  module _ (d : DotZsdb) (i : IsDotZsdb d) where
    dotzsdb_buf_lem : dotzsdb_buf host crc d ≡ some (dot_image d)
    unfolding dotzsdb_buf dot_image
    dotzsdb_buf_lem =
        let a = store64 host d.signature in
        let b = write_be64 host d.offset in
        let e = write_be32 host d.curidx in
        let f = write_be32 host (dotzsdb_crc host crc d) in
        let la = length-store64 host d.signature in
        let lb = length-write_be64 host d.offset in
        let le = length-write_be32 host d.curidx in
        let lf = length-write_be32 host (dotzsdb_crc host crc d) in
        let ab = length-append a b in
        let abc = length-append (a ++ b) d.uuidstr in
        let abce = length-append ((a ++ b) ++ d.uuidstr) e in
        rw
          (
            blit-next [] a 0 8 53 refl la,
            blit-next a b 8 8 45 la lb,
            blit-next (a ++ b) d.uuidstr 16 37 8 (omega (arith, ab, la, lb)) i.uuid,
            blit-next ((a ++ b) ++ d.uuidstr) e 53 4 4 (omega (arith, abc, ab, la, lb, i.uuid)) le,
            blit-next (((a ++ b) ++ d.uuidstr) ++ e) f 57 4 0
                (omega (arith, abce, abc, ab, la, lb, le, i.uuid)) lf,
          )
          (ap some (simp (append_assoc, append-nil)))

    length-dot_image : length (dot_image d) ≡ 61
    unfolding dot_image
    length-dot_image =
        let e = write_be32 host d.curidx in
        let f = write_be32 host (dotzsdb_crc host crc d) in
        omega (
          arith,
          i.uuid,
          length-store64 host d.signature,
          length-write_be64 host d.offset,
          length-write_be32 host d.curidx,
          length-write_be32 host (dotzsdb_crc host crc d),
          length-append e f,
          length-append d.uuidstr (e ++ f),
          length-append (write_be64 host d.offset) (d.uuidstr ++ (e ++ f)),
          length-append (store64 host d.signature)
              (write_be64 host d.offset ++ (d.uuidstr ++ (e ++ f))),
        )

    read_be64_at :
        (base before after : List ℕ) (v n : ℕ)
        → base ≡ before ++ write_be64 host v ++ after
        → n ≡ length before
        → v < 2 ^ 64
        → read_be64 host base n ≡ some v
    read_be64_at base before after v n e place small =
        rw (e, place) (read_be64-write_be64 host v before after small)

    read_be32_at :
        (base before after : List ℕ) (v n : ℕ)
        → base ≡ before ++ (write_be32 host v ++ after)
        → n ≡ length before
        → v < 2 ^ 32
        → read_be32 host base n ≡ some v
    read_be32_at base before after v n e place small =
        rw e (read_be32-write_be32 host v before after n small place)

    same_crc : (sum : ℕ) → dotzsdb_crc host crc (record d { crc = sum }) ≡ dotzsdb_crc host crc d
    unfolding dotzsdb_crc
    same_crc sum = refl

    read_dothdr_lem :
        (d0 : DotZsdb)
        → read_dothdr host crc (dot_image d) d0
          ≡ some (1, record d { crc = dotzsdb_crc host crc d })
    unfolding read_dothdr dot_image
    read_dothdr_lem d0 =
        let a = store64 host d.signature in
        let b = write_be64 host d.offset in
        let e = write_be32 host d.curidx in
        let f = write_be32 host (dotzsdb_crc host crc d) in
        let la = length-store64 host d.signature in
        let lb = length-write_be64 host d.offset in
        let le = length-write_be32 host d.curidx in
        let sum = dotzsdb_crc host crc d in
        let base = dot_image d in
        let ab = length-append a b in
        let abc = length-append (a ++ b) d.uuidstr in
        let signature : load64 host base ≡ some d.signature =
          load64-store64 host d.signature (b ++ (d.uuidstr ++ (e ++ f)))
            (rw i.signed (omega arith)) in
        let known : (d.signature == zs_signature) ≡ true = (==_iff _ _).1 i.signed in
        let offset =
          read_be64_at base a (d.uuidstr ++ (e ++ f)) d.offset 8 (simp append_assoc) (sym la)
            i.offset in
        let before_uuid : base ≡ (a ++ b) ++ (d.uuidstr ++ (e ++ f)) = simp append_assoc in
        let at_uuid : length (a ++ b) ≡ 16 = omega (arith, ab, la, lb) in
        let uuid : slice base 16 37 ≡ some d.uuidstr =
          rw (← before_uuid, at_uuid, i.uuid) at (slice-append (a ++ b) d.uuidstr (e ++ f)) in
        let curidx =
          read_be32_at base ((a ++ b) ++ d.uuidstr) f d.curidx 53 (simp append_assoc)
            (omega (arith, abc, at_uuid, i.uuid)) i.curidx in
        let stored =
          read_be32_at base (((a ++ b) ++ d.uuidstr) ++ e) [] sum 57
            (simp (append_assoc, append-nil))
            (omega (arith, length-append ((a ++ b) ++ d.uuidstr) e, abc, at_uuid, i.uuid, le))
            (dotzsdb_crc_lt d) in
        rw (signature, known, offset, uuid, curidx, stored, same_crc d0.crc, ==_refl sum)

    whole_size : ltb (length (dot_image d)) 61 ≡ false
    whole_size = le→ltb _ _ (omega (arith, length-dot_image))

    validates :
        (d0 : DotZsdb)
        → zs_dotzsdb_validate host crc (some (dot_image d)) d0
          ≡ some (1, record d { crc = dotzsdb_crc host crc d })
    unfolding zs_dotzsdb_validate
    validates d0 = if-false _ _ _ whole_size ∙ read_dothdr_lem d0

    -- What another process makes of the first bytes of the file: all of them are valid, and fewer
    -- are not.
    abbrev pub Reads : DotZsdb → Bool → ℕ → Option (List ℕ) → Type 0
    Reads d0 acquires n file =
        ((61 ≤ n)
          × (zs_dotzsdb_validate host crc file d0
              ≡ some (1, record d { crc = dotzsdb_crc host crc d }))
          × (zs_dotzsdb_update_begin host crc true false acquires file d0
              ≡ some (1, record d { crc = dotzsdb_crc host crc d }, acquires)))
        ⊎ ((n < 61)
            × (zs_dotzsdb_validate host crc file d0 ≡ some (0, d0))
            × (zs_dotzsdb_update_begin host crc true false acquires file d0 ≡ some (0, d0, false)))

    read_prefix :
        (d0 : DotZsdb) (acquires : Bool) (n : ℕ) → Reads d0 acquires n (some (take n (dot_image d)))
    unfolding zs_dotzsdb_update_begin zs_dotzsdb_validate
    read_prefix d0 acquires n = elim (le_or_lt 61 n) [
      | inl all ↦
          let whole = take_ge n (dot_image d) (omega (arith, length-dot_image, all)) in
          inl (
            all,
            rw whole (validates d0),
            rw whole (if-false _ _ _ whole_size ∙ rw (read_dothdr_lem d0)),
          )
      | inr few ↦
          let short : ltb (length (take n (dot_image d))) 61 ≡ true =
            lt→ltb _ _ (omega (arith, length-take n (dot_image d), few)) in
          inr (few, if-true _ _ _ short, if-true _ _ _ short)
    ]

    -- An update of the .zsdb file of an open database, under the lock, whose renaming succeeds, with
    -- fields that have their widths, where `write` is interrupted some times and then writes some
    -- number of bytes, or none as it fails. The call returns 1, however many these are. If all were
    -- written, the new file is found valid, and the next update of a process that does not hold the
    -- lock begins with the fields that this one wrote, whatever either held before. If not, the new
    -- file is found invalid, and the next update fails.
    pub update_end-validate :
        (d0 : DotZsdb) (acquires : Bool) (k n : ℕ) (rest : List WriteAnswer)
        → (file : List ℕ) × (zs_dotzsdb_update_end host crc true true false
              (replicate k interrupted ++ (wrote n ∷ rest))
              d
            ≡ returned (1, record d { crc = dotzsdb_crc host crc d }, some file))
          × Reads d0 acquires n (some file)
    unfolding zs_dotzsdb_update_end
    update_end-validate d0 acquires k n rest = (
      take n (dot_image d),
      rw (dotzsdb_buf_lem, loop_ends k n rest (dot_image d)),
      read_prefix d0 acquires n,
    )

  -- A database that is created, with a uuid of 37 bytes and a file that can be written, has a valid
  -- .zsdb file that names index 0 and the place behind a header.
  pub create-validate :
      (uuidstr : List ℕ) (d0 : DotZsdb)
      → length uuidstr ≡ 37
      → (d : DotZsdb) × (buf : List ℕ) × (zs_dotzsdb_create host crc (λ bytes. true) uuidstr
          ≡ some (1, d, buf))
        × (zs_dotzsdb_validate host crc (some buf) d0 ≡ some (1, d))
        × (d.curidx ≡ 0)
        × (d.offset ≡ zs_hdr_size)
        × (d.uuidstr ≡ uuidstr)
  unfolding zs_dotzsdb_create
  create-validate uuidstr d0 size =
      let d : DotZsdb = record {
        signature = zs_signature;
        offset = zs_hdr_size;
        uuidstr = uuidstr;
        curidx = 0;
        crc = 0;
      } in
      let i : IsDotZsdb d = record {
        signed = refl;
        offset = omega arith;
        uuid = size;
        curidx = omega arith;
      } in
      (
        record d { crc = dotzsdb_crc host crc d },
        dot_image d,
        rw (dotzsdb_buf_lem d i),
        validates d i d0,
        refl,
        refl,
        refl,
      )
