-- ===== src/Format.antt =====
-- The record format of the data files (src/zeroskip-priv.h): record types and field sizes.
-- `roundup64bits` is the inline function of include/libzeroskip/util.h.
pub mod Encode
pub mod Decode
pub mod Words
pub mod Images
pub mod Reads
pub mod Layout
pub mod KeyRecord
pub mod ValRecord
pub mod RoundTrip
use zeroskip.Prelude.{ℕ, ◌+◌, ◌-◌, ◌*◌, ◌/◌, bit_or}
use zeroskip.Word.{u64}

-- enum record_t
abbrev pub rec_type_unused : ℕ
rec_type_unused = 0

abbrev pub rec_type_key : ℕ
rec_type_key = 1

abbrev pub rec_type_value : ℕ
rec_type_value = 2

abbrev pub rec_type_commit : ℕ
rec_type_commit = 4

abbrev pub rec_type_2nd_half_commit : ℕ
rec_type_2nd_half_commit = 8

abbrev pub rec_type_final : ℕ
rec_type_final = 16

abbrev pub rec_type_long : ℕ
rec_type_long = 32

abbrev pub rec_type_deleted : ℕ
rec_type_deleted = 64

abbrev pub rec_type_long_key : ℕ
rec_type_long_key = bit_or rec_type_key rec_type_long

abbrev pub rec_type_long_value : ℕ
rec_type_long_value = bit_or rec_type_value rec_type_long

abbrev pub rec_type_long_commit : ℕ
rec_type_long_commit = bit_or rec_type_commit rec_type_long

abbrev pub rec_type_long_final : ℕ
rec_type_long_final = bit_or rec_type_final rec_type_long

-- The enumeration joins REC_TYPE_LONG with itself.
abbrev pub rec_type_long_deleted : ℕ
rec_type_long_deleted = bit_or rec_type_long rec_type_long

abbrev pub zs_hdr_size : ℕ
zs_hdr_size = 40

abbrev pub zs_key_base_rec_size : ℕ
zs_key_base_rec_size = 24

abbrev pub zs_val_base_rec_size : ℕ
zs_val_base_rec_size = 16

abbrev pub zs_short_commit_rec_size : ℕ
zs_short_commit_rec_size = 8

abbrev pub zs_long_commit_rec_size : ℕ
zs_long_commit_rec_size = 24

abbrev pub max_short_key_len : ℕ
max_short_key_len = 65535

abbrev pub max_short_val_len : ℕ
max_short_val_len = 16777215

-- At type `size_t`.
abbrev pub round_up_bits : ℕ → ℕ → ℕ
round_up_bits n m = u64 (u64 (u64 (n * 8) + m - 1) / m * m) / 8

unfoldable pub roundup64bits : ℕ → ℕ
roundup64bits x = round_up_bits x 64
