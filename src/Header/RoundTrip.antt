-- ===== src/Header/RoundTrip.antt =====
-- A header that is written at the start of a file is found valid, with its fields.
use zeroskip.Prelude.{
  ℕ, ◌^◌, ◌<◌, ◌≡◌, refl, sym, ap, ◌∙◌, true, false, some, List, [], ◌++◌, arith, length, ltb, ◌==◌,
  ==_refl, ==_iff, append_assoc, append-nil, length-append, le→ltb, if-true, two_guards,
}
use zeroskip.Word.{Host, store64, load64}
use zeroskip.Word.BigEndian.{load64-store64, length-store64}
use zeroskip.Word.Half.{write_be32, read_be32, length-write_be32, read_be32-write_be32}
use zeroskip.Buffer.{slice, slice-append, blit-next}
use zeroskip.MFile.{
  MFile, Os, calm, done, bytes_of, is_unusable, is_null, Checksum, stat_found, mfile_seek,
  mfile_size,
}
use zeroskip.MFile.Write.{length-bytes_of}
use zeroskip.MFile.Append.{mfile_write-appends, mfile_flush-calm}
use zeroskip.File.{zs_ok, ZsdbFile}
use zeroskip.File.Writes.{IsWritable, contents}
use zeroskip.File.Commit.{nonempty_usable, nonempty_not_null}
use zeroskip.Header.{
  ZsHeader, code, zs_signature, header_crc, header_buf, flush_after, zs_header_write,
  zs_header_validate, check_fields,
}

-- The fields have their widths.
pub record IsHeader (h : ZsHeader) : Type 0 where
  pub signed : h.signature ≡ zs_signature
  pub version : h.version < 2 ^ 32
  pub uuid : length h.uuid ≡ 16
  pub startidx : h.startidx < 2 ^ 32
  pub endidx : h.endidx < 2 ^ 32

seek_start :
    (mf : MFile)
    → is_unusable mf.ptr ≡ false
    → is_null mf.ptr ≡ false
    → mfile_seek mf 0 ≡ done (record mf { offset = 0 })
unfolding mfile_seek
seek_start mf usable some_bytes =
    let inside : ltb mf.size 0 ≡ false = le→ltb _ _ (omega arith) in rw (usable, some_bytes, inside)

size_known :
    (os : Os) (mf : MFile)
    → is_unusable mf.ptr ≡ false
    → length (bytes_of mf.ptr) ≡ mf.size
    → mfile_size os (stat_found (bytes_of mf.ptr)) mf ≡ (done mf, some (length (bytes_of mf.ptr)))
unfolding mfile_size
size_known os mf usable size =
    let same : (mf.size == length (bytes_of mf.ptr)) ≡ true = (==_iff _ _).1 (sym size) in
    rw (usable, same)

module _ (host : Host) (crc : Checksum) where
  pub header_image : ZsHeader → List ℕ
  header_image h =
      store64 host h.signature
      ++ (write_be32 host h.version
          ++ (h.uuid
              ++ (write_be32 host h.startidx
                  ++ (write_be32 host h.endidx ++ write_be32 host (header_crc host crc h)))))

  header_crc_lt : (h : ZsHeader) → header_crc host crc h < 2 ^ 32
  unfolding header_crc
  header_crc_lt h = crc.run_lt _ _

  header_buf_lem : (h : ZsHeader) → IsHeader h → header_buf host crc h ≡ some (header_image h)
  unfolding header_buf header_image
  header_buf_lem h i =
      let a = store64 host h.signature in
      let b = write_be32 host h.version in
      let d = write_be32 host h.startidx in
      let e = write_be32 host h.endidx in
      let f = write_be32 host (header_crc host crc h) in
      let la = length-store64 host h.signature in
      let lb = length-write_be32 host h.version in
      let ld = length-write_be32 host h.startidx in
      let le = length-write_be32 host h.endidx in
      let lf = length-write_be32 host (header_crc host crc h) in
      let ab = length-append a b in
      let abc = length-append (a ++ b) h.uuid in
      let abcd = length-append ((a ++ b) ++ h.uuid) d in
      let abcde = length-append (((a ++ b) ++ h.uuid) ++ d) e in
      rw
        (
          blit-next [] a 0 8 32 refl la,
          blit-next a b 8 4 28 la lb,
          blit-next (a ++ b) h.uuid 12 16 12 (omega (arith, ab, la, lb)) i.uuid,
          blit-next ((a ++ b) ++ h.uuid) d 28 4 8 (omega (arith, abc, ab, la, lb, i.uuid)) ld,
          blit-next (((a ++ b) ++ h.uuid) ++ d) e 32 4 4
              (omega (arith, abcd, abc, ab, la, lb, ld, i.uuid)) le,
          blit-next ((((a ++ b) ++ h.uuid) ++ d) ++ e) f 36 4 0
              (omega (arith, abcde, abcd, abc, ab, la, lb, ld, le, i.uuid)) lf,
        )
        (ap some (simp (append_assoc, append-nil)))

  length-header_image : (h : ZsHeader) → IsHeader h → length (header_image h) ≡ 40
  unfolding header_image
  length-header_image h i =
      let d = write_be32 host h.startidx in
      let e = write_be32 host h.endidx in
      let f = write_be32 host (header_crc host crc h) in
      omega (
        arith,
        i.uuid,
        length-store64 host h.signature,
        length-write_be32 host h.version,
        length-write_be32 host h.startidx,
        length-write_be32 host h.endidx,
        length-write_be32 host (header_crc host crc h),
        length-append e f,
        length-append d (e ++ f),
        length-append h.uuid (d ++ (e ++ f)),
        length-append (write_be32 host h.version) (h.uuid ++ (d ++ (e ++ f))),
        length-append (store64 host h.signature)
            (write_be32 host h.version ++ (h.uuid ++ (d ++ (e ++ f)))),
      )

  read_at :
      (base before after : List ℕ) (v n : ℕ)
      → base ≡ before ++ (write_be32 host v ++ after)
      → n ≡ length before
      → v < 2 ^ 32
      → read_be32 host base n ≡ some v
  read_at base before after v n e place small =
      rw e (read_be32-write_be32 host v before after n small place)

  same_crc :
      (h : ZsHeader) (sum : ℕ)
      → header_crc host crc (record h { crc32 = sum }) ≡ header_crc host crc h
  unfolding header_crc
  same_crc h sum = refl

  check_fields_lem :
      (h h0 : ZsHeader)
      → IsHeader h
      → check_fields host crc (header_image h) h0
        ≡ some (zs_ok, record h { crc32 = header_crc host crc h })
  unfolding check_fields header_image
  check_fields_lem h h0 i =
      let a = store64 host h.signature in
      let b = write_be32 host h.version in
      let d = write_be32 host h.startidx in
      let e = write_be32 host h.endidx in
      let f = write_be32 host (header_crc host crc h) in
      let la = length-store64 host h.signature in
      let lb = length-write_be32 host h.version in
      let ld = length-write_be32 host h.startidx in
      let le = length-write_be32 host h.endidx in
      let sum = header_crc host crc h in
      let base = header_image h in
      let signature : load64 host base ≡ some h.signature =
        load64-store64 host h.signature (b ++ (h.uuid ++ (d ++ (e ++ f))))
          (rw i.signed (omega arith)) in
      let known : (h.signature == zs_signature) ≡ true = (==_iff _ _).1 i.signed in
      let version =
        read_at base a (h.uuid ++ (d ++ (e ++ f))) h.version 8 refl (sym la) i.version in
      let before_uuid : base ≡ (a ++ b) ++ (h.uuid ++ (d ++ (e ++ f))) = simp append_assoc in
      let at_uuid : length (a ++ b) ≡ 12 = omega (arith, length-append a b, la, lb) in
      let uuid : slice base 12 16 ≡ some h.uuid =
        rw (← before_uuid, at_uuid, i.uuid) at (slice-append (a ++ b) h.uuid (d ++ (e ++ f))) in
      let abc = length-append (a ++ b) h.uuid in
      let abcd = length-append ((a ++ b) ++ h.uuid) d in
      let startidx =
        read_at base ((a ++ b) ++ h.uuid) (e ++ f) h.startidx 28 (simp append_assoc)
          (omega (arith, abc, at_uuid, i.uuid)) i.startidx in
      let endidx =
        read_at base (((a ++ b) ++ h.uuid) ++ d) f h.endidx 32 (simp append_assoc)
          (omega (arith, abcd, abc, at_uuid, i.uuid, ld)) i.endidx in
      let stored =
        read_at base ((((a ++ b) ++ h.uuid) ++ d) ++ e) [] sum 36 (simp (append_assoc, append-nil))
          (omega (
            arith,
            length-append (((a ++ b) ++ h.uuid) ++ d) e,
            abcd,
            abc,
            at_uuid,
            i.uuid,
            ld,
            le,
          ))
          (header_crc_lt h) in
      rw (signature, known, version, uuid, startidx, endidx, stored, same_crc h sum, ==_refl sum)

  flush_ok :
      (f : ZsdbFile) (mf : MFile)
      → is_unusable mf.ptr ≡ false
      → is_null mf.ptr ≡ false
      → flush_after host crc calm f (done mf) ≡ (code zs_ok, record f { mf = mf })
  unfolding flush_after
  flush_ok f mf usable some_bytes = rw (flush_after, mfile_flush-calm mf usable some_bytes)

  -- A header whose fields have their widths, written to a new file that is open for writing, where
  -- no system call fails: the call returns ZS_OK and the file consists of 40 bytes. Validating it
  -- while no other process has changed it gives ZS_OK too, whatever the structure held before,
  -- with the fields that were written and the checksum of them.
  pub zs_header_write-validate :
      (stack : ℕ) (os : Os) (f : ZsdbFile) (h h0 : ZsHeader)
      → IsHeader h
      → IsWritable f
      → f.mf.fd_open ≡ true
      → contents f ≡ []
      → (f' f'' : ZsdbFile) × (zs_header_write host crc calm calm f h ≡ some (code zs_ok, f'))
        × (length (contents f') ≡ 40)
        × (zs_header_validate host crc stack os (stat_found (contents f')) f' h0
            ≡ some (zs_ok, record h { crc32 = header_crc host crc h }, f''))
  unfolding zs_header_write zs_header_validate
  zs_header_write-validate stack os f h h0 i w opened_fd fresh =
      let image = header_image h in
      let size = length-header_image h i in
      let empty = ap (length {A = ℕ}) fresh in
      let (mf1, wrote, a1) =
        mfile_write-appends f.mf image w.appending (omega (arith, size, empty)) in
      let bytes : bytes_of mf1.ptr ≡ image = a1.bytes ∙ ap (λ (xs : List ℕ). xs ++ image) fresh in
      let sized : length (bytes_of mf1.ptr) ≡ 40 = ap (length {A = ℕ}) bytes ∙ size in
      let usable = nonempty_usable mf1.ptr (omega (arith, sized)) in
      let some_bytes = nonempty_not_null mf1.ptr (omega (arith, sized)) in
      let stated = length-bytes_of mf1.ptr mf1.size a1.appending.well.sized a1.appending.usable in
      let f1 : ZsdbFile = record f { mf = mf1 } in
      let f2 : ZsdbFile = record f { mf = record mf1 { offset = 0 } } in
      let sought = seek_start mf1 usable some_bytes in
      let known = size_known os (record mf1 { offset = 0 }) usable stated in
      let big : ltb (length (bytes_of mf1.ptr)) 40 ≡ false = le→ltb _ _ (omega (arith, sized)) in
      let checked = rw (← bytes) at (check_fields_lem h h0 i) in
      (
        f1,
        f2,
        if-true _ _ _ w.opened
            ∙ rw (header_buf_lem h i, wrote) (ap some (flush_ok f mf1 usable some_bytes)),
        sized,
        two_guards _ _ _ _ w.opened (a1.same_fd ∙ opened_fd) ∙ rw (sought, known, big, checked),
      )
