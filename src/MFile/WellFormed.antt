-- ===== src/MFile/WellFormed.antt =====
-- A handle that is in order, and what copying a buffer into its mapping does.
use zeroskip.Prelude.{
  ℕ, ◌+◌, ◌-◌, ◌^◌, ◌≢◌, ◌≤◌, ◌<◌, ◌≡◌, refl, ◌⊎◌, Bool, take_ge, drop_ge, take-append_le,
  take-append-drop, sym, some, List, [], ◌∷◌, ◌++◌, arith, length, take, replicate, true, false,
  ◌==◌, if◌then◌else◌, length-append, length-take, length-replicate,
}
use zeroskip.Word.{u64}
use zeroskip.Buffer.{blit-fits, length-overwrite, overwrite}
use zeroskip.MFile.{
  Mapping, map_failed, null, stale, mapped, MFile, Outcome, done, failed, bytes_of, resized,
  copy_to, copy_in, account_crc, finish_write,
}

-- The size that the mapping and the record agree on.
abbrev pub HasSize : Mapping → ℕ → Type 0
HasSize map_failed n = Unit
HasSize null n = n ≡ 0
HasSize stale n = ⊥
HasSize (mapped bytes) n = length bytes ≡ n

-- A handle whose calls have succeeded: it is unusable, empty, or a mapping of its size, and the
-- position is in the file.
pub record IsWellFormed (mf : MFile) : Type 0 where
  pub sized : HasSize mf.ptr mf.size
  pub placed : mf.offset ≤ mf.size

pub length-resized : (bytes : List ℕ) (n : ℕ) → length (resized bytes n) ≡ n
length-resized bytes n = omega (
  arith,
  length-append (take n bytes) (replicate (n - length bytes) 0),
  length-take n bytes,
  length-replicate {A = ℕ} (n - length bytes) 0,
)

-- The handle after a call: well formed, unless `ftruncate` failed between `munmap` and `mmap`,
-- which leaves a pointer to what is no longer mapped.
abbrev pub Settled : MFile → Type 0
Settled mf = IsWellFormed mf ⊎ (mf.ptr ≡ stale)

-- After a call that returned 0 the handle is well formed and `P` holds.
abbrev pub Ends : (MFile → Type 0) → Outcome → Type 0
Ends P (done mf) = IsWellFormed mf × P mf
Ends P (failed err mf) = Settled mf

copy_to_fits :
    (p : Mapping) (n offset : ℕ) (ibuf : List ℕ)
    → HasSize p n
    → p ≢ map_failed
    → 0 < length ibuf
    → offset + length ibuf ≤ n
    → (p' : Mapping) × (copy_to p offset ibuf ≡ some p')
      × HasSize p' n
      × (p' ≢ map_failed)
      × (bytes_of p' ≡ overwrite (bytes_of p) offset ibuf)
unfolding copy_to
copy_to_fits map_failed n offset ibuf sized usable some_bytes room = absurd (usable refl)
copy_to_fits null n offset ibuf sized usable some_bytes room = absurd (omega arith)
copy_to_fits stale n offset ibuf sized usable some_bytes room = absurd sized
copy_to_fits (mapped bytes) n offset ibuf sized usable some_bytes room =
    let fits : offset + length ibuf ≤ length bytes = omega arith in
    (
      mapped (overwrite bytes offset ibuf),
      rw (blit-fits bytes offset ibuf fits),
      omega (arith, length-overwrite bytes offset ibuf fits),
      (λ e. cc e),
      refl,
    )

-- What a write leaves: `ibuf` at the old position and all else as it was, the position behind it,
-- and, while a checksum is wanted, the count of bytes that it is to cover.
pub record Wrote (mf : MFile) (ibuf : List ℕ) (mf' : MFile) : Type 0 where
  pub bytes : bytes_of mf'.ptr ≡ overwrite (bytes_of mf.ptr) mf.offset ibuf
  pub moved : mf'.offset ≡ mf.offset + length ibuf
  pub counted :
      mf'.crc32_data_len
      ≡ (if mf.compute_crc then u64 (mf.crc32_data_len + length ibuf) else mf.crc32_data_len)
  pub usable : mf'.ptr ≢ map_failed
  pub same_flags : mf'.flags ≡ mf.flags
  pub same_compute : mf'.compute_crc ≡ mf.compute_crc
  pub same_begin : mf'.crc32_begin_offset ≡ mf.crc32_begin_offset
  pub same_crc : mf'.crc32 ≡ mf.crc32
  pub same_fd : mf'.fd_open ≡ mf.fd_open

overwrite_nothing : (bytes : List ℕ) (offset : ℕ) → overwrite bytes offset [] ≡ bytes
overwrite_nothing bytes offset =
    let e : offset + 0 ≡ offset = omega arith in rw e (take-append-drop offset bytes)

pub overwrite-resized :
    (bytes : List ℕ) (offset : ℕ) (ibuf : List ℕ)
    → offset ≤ length bytes
    → length bytes ≤ offset + length ibuf
    → overwrite (resized bytes (offset + length ibuf)) offset ibuf ≡ overwrite bytes offset ibuf
overwrite-resized bytes offset ibuf placed grows =
    let n = offset + length ibuf in
    let zeros : List ℕ = replicate (n - length bytes) 0 in
    let all = take_ge n bytes grows in
    let front = take-append_le offset bytes zeros placed in
    let longer : length (bytes ++ zeros) ≤ n =
      omega (arith, length-append bytes zeros, length-replicate {A = ℕ} (n - length bytes) 0) in
    rw (all, front, drop_ge n (bytes ++ zeros) longer, drop_ge n bytes grows)

copy_in_fits :
    (mf : MFile) (ibuf : List ℕ)
    → IsWellFormed mf
    → mf.ptr ≢ map_failed
    → mf.offset + length ibuf ≤ mf.size
    → mf.size < 2 ^ 64
    → (p : Mapping) × (n : ℕ) × (copy_in mf ibuf ≡ some (record mf { ptr = p; offset = n }))
      × HasSize p mf.size
      × (p ≢ map_failed)
      × (bytes_of p ≡ overwrite (bytes_of mf.ptr) mf.offset ibuf)
      × (n ≡ mf.offset + length ibuf)
unfolding copy_in
copy_in_fits mf [] w usable room small = (
  mf.ptr,
  mf.offset,
  refl,
  w.sized,
  usable,
  sym (overwrite_nothing (bytes_of mf.ptr) mf.offset),
  omega arith,
)
copy_in_fits mf (x ∷ ibuf) w usable room small =
    let n = length (x ∷ ibuf) in
    let (p, copied, sized, usable', bytes) =
      copy_to_fits mf.ptr mf.size mf.offset (x ∷ ibuf) w.sized usable (omega arith) room in
    let some_bytes : (n == 0) ≡ false = ground arith in
    (p, u64 (mf.offset + n), rw (some_bytes, copied), sized, usable', bytes, omega arith)

-- The bytes that a write counts, if any.
abbrev pub counted_by : MFile → ℕ → ℕ
counted_by mf n = if mf.compute_crc then u64 (mf.crc32_data_len + n) else mf.crc32_data_len

account_crc_lem :
    (n : ℕ) (mf : MFile) → account_crc n mf ≡ record mf { crc32_data_len = counted_by mf n }
unfolding account_crc
account_crc_lem n mf = go mf.compute_crc
  where
    go :
        (on : Bool)
        → (if on then record mf { crc32_data_len = u64 (mf.crc32_data_len + n) } else mf)
          ≡ record mf {
            crc32_data_len = if on then u64 (mf.crc32_data_len + n) else mf.crc32_data_len;
          }
    go true = refl
    go false = refl

pub finish_write_fits :
    (mf : MFile) (ibuf : List ℕ)
    → IsWellFormed mf
    → mf.ptr ≢ map_failed
    → mf.offset + length ibuf ≤ mf.size
    → mf.size < 2 ^ 64
    → (mf' : MFile) × (finish_write ibuf (done mf) ≡ some (done mf'))
      × IsWellFormed mf'
      × Wrote mf ibuf mf'
unfolding finish_write
finish_write_fits mf ibuf w usable room small =
    let (p, n, copied, sized, usable', bytes, moved) = copy_in_fits mf ibuf w usable room small in
    (
      record mf { ptr = p; offset = n; crc32_data_len = counted_by mf (length ibuf) },
      rw (copied, account_crc_lem),
      record { sized = sized; placed = omega arith },
      record {
        bytes = bytes;
        moved = moved;
        counted = refl;
        usable = usable';
        same_flags = refl;
        same_compute = refl;
        same_begin = refl;
        same_crc = refl;
        same_fd = refl;
      },
    )
