-- ===== src/MFile.antt =====
-- Memory-mapped files (src/mfile.c, include/libzeroskip/mfile.h). What `munmap`, `ftruncate`,
-- `mmap`, `msync` and `fstat` answer is a parameter: an `Os`, with the `errno` of each call that
-- fails. The bytes of the file are those of the mapping.
pub mod WellFormed
pub mod Write
pub mod Append
use zeroskip.Prelude.{
  ℕ, ◌+◌, ◌-◌, ◌^◌, ◌<◌, Bool, true, false, ◌||◌, bit_and, bit_or, Option, none, some, List, [],
  ◌++◌, ltb, ◌==◌, length, take, replicate, if◌then◌else◌, ◌>>=◌,
}
use zeroskip.Word.{u64}
use zeroskip.Buffer.{blit, slice}

abbrev pub mfile_rd : ℕ
mfile_rd = 0x01

abbrev pub mfile_wr : ℕ
mfile_wr = 0x02

abbrev pub mfile_rw : ℕ
mfile_rw = bit_or mfile_rd mfile_wr

abbrev pub mfile_create : ℕ
mfile_create = 0x10

abbrev pub mfile_wr_cr : ℕ
mfile_wr_cr = bit_or mfile_wr mfile_create

abbrev pub mfile_rw_cr : ℕ
mfile_rw_cr = bit_or mfile_rw mfile_create

abbrev pub prot_write : ℕ
prot_write = 2

abbrev pub einval : ℕ
einval = 22

abbrev pub eacces : ℕ
eacces = 13

abbrev pub espipe : ℕ
espipe = 29

-- `mf->ptr`: MAP_FAILED, NULL, the address of a region that is no longer mapped, or a mapping
-- with its bytes.
pub data Mapping : Type 0 where
  map_failed : Mapping
  null : Mapping
  stale : Mapping
  mapped : List ℕ → Mapping

-- `fd_open`: whether `mf->fd` is not negative, which it may be for a descriptor that is closed.
pub record MFile : Type 0 where
  pub fd_open : Bool
  pub ptr : Mapping
  pub compute_crc : Bool
  pub crc32 : ℕ
  pub crc32_begin_offset : ℕ
  pub crc32_data_len : ℕ
  pub size : ℕ
  pub offset : ℕ
  pub flags : ℕ

pub record Os : Type 0 where
  pub munmap_fails : Option ℕ
  pub ftruncate_fails : Option ℕ
  pub mmap_fails : Option ℕ
  pub msync_fails : Option ℕ

-- Every call succeeds.
abbrev pub calm : Os
calm = record { munmap_fails = none; ftruncate_fails = none; mmap_fails = none; msync_fails = none }

abbrev pub is_unusable : Mapping → Bool
is_unusable map_failed = true
is_unusable _ = false

abbrev pub is_null : Mapping → Bool
is_null null = true
is_null _ = false

-- The file after `ftruncate (fd, n)`: cut, or longer by zeros.
abbrev pub resized : List ℕ → ℕ → List ℕ
resized bytes n = take n bytes ++ replicate (n - length bytes) 0

-- The bytes behind the pointer; `stale` has none that may be touched.
abbrev pub bytes_of : Mapping → List ℕ
bytes_of (mapped bytes) = bytes
bytes_of _ = []

-- How a call returns: 0, or an error number. Either way it leaves the handle changed.
pub data Outcome : Type 0 where
  done : MFile → Outcome
  failed : ℕ → MFile → Outcome

-- munmap, ftruncate and mmap in a row, with the size of the new mapping.
pub remap : Os → MFile → ℕ → Outcome
remap os mf n = elim os.munmap_fails [
  | some err ↦ failed err (record mf { ptr = map_failed })
  | none ↦ elim os.ftruncate_fails [
    | some err ↦ failed err (record mf { ptr = stale })
    | none ↦ elim os.mmap_fails [
      | some err ↦ failed err (record mf { ptr = map_failed })
      | none ↦ done (record mf { ptr = mapped (resized (bytes_of mf.ptr) n); size = n })
    ]
  ]
]

-- `if (mf->ptr && munmap (...) != 0)`: a null pointer is not unmapped.
unmap_if_any : Os → MFile → Os
unmap_if_any os mf = if is_null mf.ptr then record os { munmap_fails = none } else os

-- `memcpy (mf->ptr + mf->offset, ibuf, ibufsize)`, and the new position.
pub copy_to : Mapping → ℕ → List ℕ → Option Mapping
copy_to (mapped bytes) offset ibuf = blit bytes offset ibuf >>= λ bytes'. some (mapped bytes')
copy_to _ offset ibuf = none

pub copy_in : MFile → List ℕ → Option MFile
copy_in mf ibuf =
    if length ibuf == 0
    then some mf
    else copy_to mf.ptr mf.offset ibuf >>= λ ptr'.
        some (record mf { ptr = ptr'; offset = u64 (mf.offset + length ibuf) })

pub account_crc : ℕ → MFile → MFile
account_crc n mf =
    if mf.compute_crc then record mf { crc32_data_len = u64 (mf.crc32_data_len + n) } else mf

abbrev pub lacks_write_flags : ℕ → Bool
lacks_write_flags flags =
    bit_and flags mfile_wr == 0
    || (bit_and flags mfile_wr_cr == 0
        || (bit_and flags mfile_rw == 0 || bit_and flags mfile_rw_cr == 0))

pub finish_write : List ℕ → Outcome → Option Outcome
finish_write ibuf (failed err mf) = some (failed err mf)
finish_write ibuf (done mf) = copy_in mf ibuf >>= λ mf'. some (done (account_crc (length ibuf) mf'))

unfoldable pub mfile_write : Os → MFile → List ℕ → Option Outcome
unfolding remap unmap_if_any copy_to copy_in account_crc finish_write
mfile_write os mf ibuf =
    let needed = u64 (mf.offset + length ibuf) in
    if is_unusable mf.ptr
    then some (failed einval mf)
    else if lacks_write_flags mf.flags
    then some (failed eacces mf)
    else finish_write ibuf
        (if ltb mf.size needed then remap (unmap_if_any os mf) mf needed else done mf)

-- With the bytes that land in the caller's buffer.
unfoldable pub mfile_read : MFile → ℕ → Option (Outcome × List ℕ)
mfile_read mf obufsize =
    let n = if ltb mf.size (u64 (mf.offset + obufsize)) then mf.size - mf.offset else obufsize in
    if is_unusable mf.ptr
    then some (failed einval mf, [])
    else if ltb mf.offset mf.size
    then (slice (bytes_of mf.ptr) mf.offset n >>= λ out.
        some (done (record mf { offset = u64 (mf.offset + n) }), out))
    else some (done mf, [])

unfoldable pub mfile_seek : MFile → ℕ → Outcome
mfile_seek mf offset =
    if is_unusable mf.ptr || is_null mf.ptr
    then failed einval mf
    else if ltb mf.size offset
    then failed espipe mf
    else done (record mf { offset = offset })

-- `mf->ptr = len ? mmap (...) : NULL`.
drop_mapping : Outcome → Outcome
drop_mapping (done mf) = done (record mf { ptr = null })
drop_mapping (failed err mf) = failed err mf

unfoldable pub mfile_truncate : Os → MFile → ℕ → Outcome
unfolding remap drop_mapping
mfile_truncate os mf len =
    if is_unusable mf.ptr || is_null mf.ptr
    then failed einval mf
    else if len == 0
    then drop_mapping (remap (record os { mmap_fails = none }) mf 0)
    else remap os mf len

unfoldable pub mfile_flush : Os → MFile → Outcome
mfile_flush os mf =
    if is_unusable mf.ptr || is_null mf.ptr
    then failed einval mf
    else if bit_and mf.flags prot_write == 0
    then done mf
    else elim os.msync_fails [ none ↦ done mf | some err ↦ failed err mf ]

-- What `fstat` answers: an error number, or the size of the file, which is given here with the
-- bytes that a new mapping of it would show.
pub data Stat : Type 0 where
  stat_failed : ℕ → Stat
  stat_found : List ℕ → Stat

-- The mapping is made anew where another process has changed the size.
refresh : Os → MFile → List ℕ → Outcome
refresh os mf bytes = elim os.munmap_fails [
  | some err ↦ failed err (record mf { ptr = map_failed; fd_open = false })
  | none ↦
      if length bytes == 0 then done (record mf { ptr = null; size = 0 }) else elim os.mmap_fails [
        | some err ↦
            failed err (record mf { ptr = map_failed; fd_open = false; size = length bytes })
        | none ↦ done (record mf { ptr = mapped bytes; size = length bytes })
      ]
]

-- The second part is `*psize`, where the call sets it.
unfoldable pub mfile_size : Os → Stat → MFile → Outcome × Option ℕ
unfolding refresh unmap_if_any
mfile_size os stat mf = if is_unusable mf.ptr then (failed einval mf, none) else elim stat [
  | stat_failed err ↦ (failed err mf, none)
  | stat_found bytes ↦
      if mf.size == length bytes
      then (done mf, some (length bytes))
      else elim (refresh (unmap_if_any os mf) mf bytes) [
        | done mf' ↦ (done mf', some (length bytes))
        | failed err mf' ↦ (failed err mf', none)
      ]
]

-- The checksum function, of src/crc32c.c, is left open: any function into 32 bits.
pub record Checksum : Type 0 where
  pub run : ℕ → List ℕ → ℕ
  pub run_lt : (start : ℕ) (bytes : List ℕ) → run start bytes < 2 ^ 32

module _ (crc : Checksum) where
  unfoldable pub crc32_begin : MFile → MFile
  crc32_begin mf = record mf {
    crc32 = crc.run 0 [];
    compute_crc = true;
    crc32_begin_offset = mf.offset;
    crc32_data_len = 0;
  }

  unfoldable pub crc32_end : MFile → Option (ℕ × MFile)
  crc32_end mf =
      if mf.compute_crc
      then (let len = u64 (mf.offset + 2 ^ 64 - mf.crc32_begin_offset) in
          slice (bytes_of mf.ptr) mf.crc32_begin_offset len >>= λ part.
          let sum = crc.run mf.crc32 part in
          some (sum, record mf { crc32 = sum; compute_crc = false; crc32_data_len = 0 }))
      else some (mf.crc32, mf)
