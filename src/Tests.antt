-- ===== src/Tests.antt =====
-- Concrete inputs at which the theorems apply.
pub mod Words
pub mod Files
pub mod Logs
pub mod Sessions
pub mod Searches
pub mod Vectors
pub mod Queues
pub mod Updates
pub mod Tables
pub mod Trees
pub mod Cursors
pub mod Fetches
pub mod Packs
use mathlib.Core.List.{foldl}
use zeroskip.Prelude.{ℕ, ◌+◌, ◌*◌, ◌%◌, ◌^◌, ◌<◌, true, false, List, [], ◌∷◌, arith}
use zeroskip.Word.{Host, little}
use zeroskip.MFile.{MFile, Checksum, null, mapped}
use zeroskip.Format.Decode.{ZsKey, ZsVal}
use zeroskip.File.{ZsdbFile}

abbrev pub a_key : List ℕ
a_key = 107 ∷ 101 ∷ 121 ∷ []

abbrev pub a_val : List ℕ
a_val = 118 ∷ 97 ∷ 108 ∷ 117 ∷ 101 ∷ []

abbrev pub some_bytes : List ℕ
some_bytes = 1 ∷ 2 ∷ 3 ∷ []

-- A checksum that is easy to compute.
pub add_up : ℕ → List ℕ → ℕ
add_up start bytes = foldl (λ sum byte. sum * 31 + byte) start bytes % 2 ^ 32

pub sum_lt : (start : ℕ) (bytes : List ℕ) → add_up start bytes < 2 ^ 32
unfolding add_up
sum_lt start bytes = omega arith

abbrev pub a_sum : Checksum
a_sum = record { run = add_up; run_lt = sum_lt }

abbrev pub no_key : ZsKey
no_key = record { type = 0; slen = 0; sval_offset = 0; llen = 0; lval_offset = 0; data_at = 0 }

abbrev pub no_val : ZsVal
no_val = record { type = 0; slen = 0; nullpad = 0; llen = 0; data_at = 0 }

-- A file that has just been created.
abbrev pub empty_mf : MFile
empty_mf = record {
  fd_open = true;
  ptr = null;
  compute_crc = false;
  crc32 = 0;
  crc32_begin_offset = 0;
  crc32_data_len = 0;
  size = 0;
  offset = 0;
  flags = 0x13;
}

abbrev pub empty_file : ZsdbFile
empty_file = record { is_open = true; mf = empty_mf }

-- A file of three bytes, with the position at its end.
abbrev pub three_mf : MFile
three_mf = record empty_mf { ptr = mapped some_bytes; size = 3; offset = 3 }

abbrev pub three_file : ZsdbFile
three_file = record { is_open = true; mf = three_mf }
