-- ===== src/MFile/Write.antt =====
-- Writes, seeks, truncations and flushes keep a mapped file well formed, whatever the system
-- calls answer, and no write touches memory outside the mapping.
use zeroskip.Prelude.{
  ℕ, ◌+◌, ◌^◌, ◌≢◌, ◌<◌, ◌≤◌, ◌≡◌, ◌⊎◌, refl, true, inl, inr, Bool-cases, if_same, ltb→lt, ltb→le,
  ap, ◌∙◌, ◌||◌, sym, Option, none, some, List, arith, length, false, ltb,
}
use zeroskip.Word.{u64}
use zeroskip.MFile.{
  Mapping, map_failed, null, stale, mapped, MFile, Os, calm, Outcome, done, failed, bytes_of,
  resized, remap, unmap_if_any, finish_write, mfile_write, mfile_seek, is_unusable, is_null,
  lacks_write_flags, einval, eacces, espipe,
}
use zeroskip.MFile.WellFormed.{
  HasSize, IsWellFormed, Ends, Wrote, length-resized, overwrite-resized, finish_write_fits,
}

pub length-bytes_of : (p : Mapping) (n : ℕ) → HasSize p n → p ≢ map_failed → length (bytes_of p) ≡ n
length-bytes_of map_failed n sized usable = absurd (usable refl)
length-bytes_of null n sized usable = sym sized
length-bytes_of stale n sized usable = absurd sized
length-bytes_of (mapped bytes) n sized usable = sized

is_unusable_not : (p : Mapping) → p ≢ map_failed → is_unusable p ≡ false
is_unusable_not map_failed h = absurd (h refl)
is_unusable_not null h = refl
is_unusable_not stale h = refl
is_unusable_not (mapped bytes) h = refl

-- `remap` to a larger size, whatever the calls answer.
grown : MFile → ℕ → MFile
grown mf n = record mf { ptr = mapped (resized (bytes_of mf.ptr) n); size = n }

grown_fits :
    (mf : MFile) (ibuf : List ℕ)
    → IsWellFormed mf
    → mf.ptr ≢ map_failed
    → mf.size < mf.offset + length ibuf
    → mf.offset + length ibuf < 2 ^ 64
    → (mf' : MFile) × (finish_write ibuf (done (grown mf (mf.offset + length ibuf)))
        ≡ some (done mf'))
      × IsWellFormed mf'
      × Wrote mf ibuf mf'
unfolding grown
grown_fits mf ibuf w usable grows small =
    let n = mf.offset + length ibuf in
    let has = length-bytes_of mf.ptr mf.size w.sized usable in
    let bigger = record mf { ptr = mapped (resized (bytes_of mf.ptr) n); size = n } in
    let kept =
      overwrite-resized (bytes_of mf.ptr) mf.offset ibuf (omega (arith, w.placed)) (omega arith) in
    let (mf', written, w', wrote) =
      finish_write_fits bigger ibuf
        (record { sized = length-resized (bytes_of mf.ptr) n; placed = omega arith }) (λ e. cc e)
        (omega arith) small in
    (
      mf',
      written,
      w',
      record {
        bytes = wrote.bytes ∙ kept;
        moved = wrote.moved;
        counted = wrote.counted;
        usable = wrote.usable;
        same_flags = wrote.same_flags;
        same_compute = wrote.same_compute;
        same_begin = wrote.same_begin;
        same_fd = wrote.same_fd;
        same_crc = wrote.same_crc;
      },
    )

remap_grows :
    (os : Os) (mf : MFile) (ibuf : List ℕ)
    → IsWellFormed mf
    → mf.ptr ≢ map_failed
    → mf.size < mf.offset + length ibuf
    → mf.offset + length ibuf < 2 ^ 64
    → (r : Outcome) × (finish_write ibuf (remap os mf (mf.offset + length ibuf)) ≡ some r)
      × Ends (Wrote mf ibuf) r
unfolding remap finish_write grown
remap_grows os mf ibuf w usable grows small = go os.munmap_fails os.ftruncate_fails os.mmap_fails
  where
    go :
        (a b c : Option ℕ)
        → (r : Outcome) × (finish_write ibuf (
              remap
                (record os { munmap_fails = a; ftruncate_fails = b; mmap_fails = c })
                mf
                (mf.offset + length ibuf))
            ≡ some r)
          × Ends (Wrote mf ibuf) r
    go (some err) b c = (_, refl, inl (record { sized = tt; placed = w.placed }))
    go none (some err) c = (_, refl, inr refl)
    go none none (some err) = (_, refl, inl (record { sized = tt; placed = w.placed }))
    go none none none =
        let (mf', written, w', wrote) = grown_fits mf ibuf w usable grows small in
        (done mf', written, (w', wrote))

-- A write to a well-formed handle returns, whatever the system calls answer, and touches no memory
-- outside the mapping. If it returns 0, the handle is well formed, the file holds the buffer at
-- the old position and is otherwise as it was, longer if need be, and the position is behind the
-- buffer. If it reports an error, the handle is well formed, or `ftruncate` failed and its
-- pointer is stale.
pub mfile_write_lem :
    (os : Os) (mf : MFile) (ibuf : List ℕ)
    → IsWellFormed mf
    → mf.size < 2 ^ 64
    → mf.offset + length ibuf < 2 ^ 64
    → (r : Outcome) × (mfile_write os mf ibuf ≡ some r) × Ends (Wrote mf ibuf) r
unfolding mfile_write
mfile_write_lem os mf ibuf w fits room = elim (Bool-cases (is_unusable mf.ptr)) [
  | inl bad ↦ (failed einval mf, rw bad, inl w)
  | inr good ↦ elim (Bool-cases (lacks_write_flags mf.flags)) [
    | inl locked ↦ (failed eacces mf, rw (good, locked), inl w)
    | inr writable ↦
        let usable : mf.ptr ≢ map_failed = λ e. cc (ap is_unusable e, good) in
        let needed : u64 (mf.offset + length ibuf) ≡ mf.offset + length ibuf = omega arith in
        elim (Bool-cases (ltb mf.size (mf.offset + length ibuf))) [
          | inl grows ↦
              rw (good, writable, needed, grows)
                (remap_grows (unmap_if_any os mf) mf ibuf w usable (ltb→lt _ _ grows) room)
          | inr stays ↦
              rw (good, writable, needed, stays)
                (let (mf', written, w', wrote) =
                    finish_write_fits mf ibuf w usable (ltb→le _ _ stays) fits in
                  (done mf', written, (w', wrote)))
        ]
  ]
]

-- Where the file can be written and no system call fails, the write succeeds.
pub mfile_write-calm :
    (mf : MFile) (ibuf : List ℕ)
    → IsWellFormed mf
    → mf.ptr ≢ map_failed
    → lacks_write_flags mf.flags ≡ false
    → mf.size < 2 ^ 64
    → mf.offset + length ibuf < 2 ^ 64
    → (mf' : MFile) × (mfile_write calm mf ibuf ≡ some (done mf'))
      × IsWellFormed mf'
      × Wrote mf ibuf mf'
unfolding mfile_write remap grown
mfile_write-calm mf ibuf w usable writable fits room =
    let good = is_unusable_not mf.ptr usable in
    let needed : u64 (mf.offset + length ibuf) ≡ mf.offset + length ibuf = omega arith in
    let same_os = if_same (is_null mf.ptr) calm in
    elim (Bool-cases (ltb mf.size (mf.offset + length ibuf))) [
      | inl grows ↦
          rw (good, writable, needed, grows, same_os)
            (grown_fits mf ibuf w usable (ltb→lt _ _ grows) room)
      | inr stays ↦
          rw (good, writable, needed, stays)
            (finish_write_fits mf ibuf w usable (ltb→le _ _ stays) fits)
    ]

ptr_cases :
    (ptr : Mapping) (size : ℕ)
    → HasSize ptr size
    → ((bytes : List ℕ) × (ptr ≡ mapped bytes)
        × (length bytes ≡ size)
        × ((is_unusable ptr || is_null ptr) ≡ false))
      ⊎ (((bytes : List ℕ) → ptr ≢ mapped bytes) × ((is_unusable ptr || is_null ptr) ≡ true))
ptr_cases map_failed size sized = inr (λ bytes e. cc e, refl)
ptr_cases null size sized = inr (λ bytes e. cc e, refl)
ptr_cases stale size sized = absurd sized
ptr_cases (mapped bytes) size sized = inl (bytes, refl, sized, refl)

-- Seeking in a well-formed handle: without a mapping it fails with EINVAL, and with a position
-- behind the end of the file with ESPIPE, and the handle is the same; in all other cases it returns
-- 0, and the handle differs in the position alone and is well formed.
pub mfile_seek-IsWellFormed :
    (mf : MFile) (offset : ℕ)
    → IsWellFormed mf
    → ((bytes : List ℕ) × (mf.ptr ≡ mapped bytes)
        × (offset ≤ length bytes)
        × (mfile_seek mf offset ≡ done (record mf { offset = offset }))
        × IsWellFormed (record mf { offset = offset }))
      ⊎ (((bytes : List ℕ) × (mf.ptr ≡ mapped bytes)
            × (length bytes < offset)
            × (mfile_seek mf offset ≡ failed espipe mf))
          ⊎ (((bytes : List ℕ) → mf.ptr ≢ mapped bytes)
              × (mfile_seek mf offset ≡ failed einval mf)))
unfolding mfile_seek
mfile_seek-IsWellFormed mf offset w = elim (ptr_cases mf.ptr mf.size w.sized) [
  | inr (unmapped, bad) ↦ inr (inr (unmapped, rw bad))
  | inl (bytes, is, size, good) ↦ elim (Bool-cases (ltb mf.size offset)) [
    | inl past ↦ inr (inl (bytes, is, omega (arith, ltb→lt _ _ past, size), rw (good, past)))
    | inr inside ↦ inl (
      bytes,
      is,
      omega (arith, ltb→le _ _ inside, size),
      rw (good, inside),
      record { sized = w.sized; placed = ltb→le _ _ inside },
    )
  ]
]
