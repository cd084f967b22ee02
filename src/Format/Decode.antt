-- ===== src/Format/Decode.antt =====
-- Reading the fields of a record (src/zeroskip-record.c). `base` is `f->mf->ptr`, a pointer into
-- the mapped file is a position in it, and an output argument that a branch leaves alone keeps
-- the value it came with. `none` is a read outside the mapping.
use zeroskip.Prelude.{ℕ, ◌+◌, Bool, ◌||◌, bit_and, Option, some, List, ◌==◌, if◌then◌else◌, ◌>>=◌}
use zeroskip.Word.{Host, u8, u16, u64, read_be64, ◌>>>◌}
use zeroskip.Format.{
  rec_type_key, rec_type_value, rec_type_deleted, rec_type_long_key, rec_type_long_value,
  rec_type_long_deleted, zs_key_base_rec_size, zs_val_base_rec_size, roundup64bits,
}

-- struct zs_key, with its base's fields.
pub record ZsKey : Type 0 where
  pub type : ℕ
  pub slen : ℕ
  pub sval_offset : ℕ
  pub llen : ℕ
  pub lval_offset : ℕ
  pub data_at : ℕ

-- struct zs_val, with its base's fields.
pub record ZsVal : Type 0 where
  pub type : ℕ
  pub slen : ℕ
  pub nullpad : ℕ
  pub llen : ℕ
  pub data_at : ℕ

abbrev pub is_short_key : ℕ → Bool
is_short_key type = type == rec_type_key || type == rec_type_deleted

abbrev pub is_long_key : ℕ → Bool
is_long_key type = type == rec_type_long_key || type == rec_type_long_deleted

-- The callers' choice between the short field and the long one.
abbrev pub val_offset_of : ZsKey → ℕ
val_offset_of key = if is_short_key key.type then key.sval_offset else key.lval_offset

-- `slen` or `llen`.
abbrev pub keylen_of : ZsKey → ℕ
keylen_of key = if is_short_key key.type then key.slen else key.llen

abbrev pub vallen_of : ZsVal → ℕ
vallen_of val = if val.type == rec_type_value then val.slen else val.llen

module _ (host : Host) (base : List ℕ) where
  -- The new offset, the place of the key and its length.
  unfoldable pub zs_record_read_key : ℕ → ℕ → Option (ℕ × ℕ × ℕ)
  zs_record_read_key offset keylen = do
    first ← read_be64 host base offset
    let type = u8 (first >>> 56)
    let key = offset + zs_key_base_rec_size
    if is_short_key type
        then some (bit_and first 0xFFFFFFFF, key, u16 (bit_and (first >>> 40) 0xFFFFFF))
        else if is_long_key type
        then (do
          len ← read_be64 host base (offset + 8)
          val_offset ← read_be64 host base (offset + 16)
          some (val_offset, key, len))
        else some (offset, key, keylen)

  -- The place of the value and its length. The offset stays.
  unfoldable pub zs_record_read_val : ℕ → ℕ → Option (ℕ × ℕ)
  zs_record_read_val offset vallen = do
    first ← read_be64 host base offset
    let type = u8 (first >>> 56)
    let val = offset + zs_val_base_rec_size
    if type == rec_type_value
        then some (val, bit_and (first >>> 32) 0xFFFFFF)
        else if type == rec_type_long_value
        then (do len ← read_be64 host base (offset + 8); some (val, len))
        else some (val, vallen)

  unfoldable pub zs_read_key_rec : ℕ → ZsKey → Option ZsKey
  zs_read_key_rec offset key = do
    first ← read_be64 host base offset
    let type = u8 (first >>> 56)
    let at = offset + zs_key_base_rec_size
    if is_short_key type
        then some (record {
          type = type;
          slen = u16 (bit_and (first >>> 40) 0xFFFFFF);
          sval_offset = bit_and first 0xFFFFFFFF;
          llen = 0;
          lval_offset = 0;
          data_at = at;
        })
        else if is_long_key type
        then (do
          len ← read_be64 host base (offset + 8)
          val_offset ← read_be64 host base (offset + 16)
          some (record {
            type = type;
            slen = 0;
            sval_offset = 0;
            llen = len;
            lval_offset = val_offset;
            data_at = at;
          }))
        else some (record key { type = type; data_at = at })

  unfoldable pub zs_read_val_rec : ℕ → ZsVal → Option ZsVal
  zs_read_val_rec offset val = do
    first ← read_be64 host base offset
    let type = u8 (first >>> 56)
    let at = offset + zs_val_base_rec_size
    if type == rec_type_value
        then some (record {
          type = type;
          slen = bit_and (first >>> 32) 0xFFFFFF;
          nullpad = 0;
          llen = 0;
          data_at = at;
        })
        else if type == rec_type_long_value
        then (do
          len ← read_be64 host base (offset + 8)
          some (record { type = type; slen = 0; nullpad = 0; llen = len; data_at = at }))
        else some (record val { type = type; data_at = at })

  -- The place and length of the key, and of the value if one is asked for.
  unfoldable pub zs_record_read_key_val_from_offset : Bool → ℕ → ℕ → ℕ → Option ((ℕ × ℕ) × (ℕ × ℕ))
  unfolding zs_record_read_key zs_record_read_val
  zs_record_read_key_val_from_offset wants_val offset keylen vallen = do
    (dataoffset, key, klen) ← zs_record_read_key offset keylen
    if wants_val
        then (do v ← zs_record_read_val (u64 (offset + dataoffset)) vallen; some ((key, klen), v))
        else some ((key, klen), (0, vallen))

  unfoldable pub zs_read_key_val_record_from_file_offset :
      ℕ → ZsKey → ZsVal → Option (ℕ × ZsKey × ZsVal)
  unfolding zs_read_key_rec zs_read_val_rec
  zs_read_key_val_record_from_file_offset offset key0 val0 = do
    key ← zs_read_key_rec offset key0
    let at_val = u64 (offset + val_offset_of key)
    val ← zs_read_val_rec at_val val0
    some (u64 (at_val + (zs_val_base_rec_size + roundup64bits (vallen_of val))), key, val)
