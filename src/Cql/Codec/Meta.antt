-- ===== src/Cql/Codec/Meta.antt =====
-- cql/engine/io.codec.cpp, io.codec.cppm: the metadata of rows and cells, and the mask of the columns
-- that are active.
pub mod Laws
pub mod Bits
use plexdb.Prelude.{
  ℕ, zero, suc, ◌+◌, ◌*◌, ◌%◌, ◌^◌, bit_and, bit_or, Bool, true, false, not, Option, none, some,
  List, [], ◌∷◌, ◌++◌, ◌==◌, if◌then◌else◌,
}
use plexdb.Prelude.Int.{ℤ, pos}
use plexdb.Prelude.Fallible.{◌>>=◌}
use plexdb.Core.Text.{Bytes}
use plexdb.Cql.Wire.{le, to_bits, of_bits, read_uint, skip}
use plexdb.Cql.Codec.Mask.{write_words}

pub record RowMetadata : Type 0 where
  pub flags : ℕ
  pub expiry_unix_ms : ℤ

pub write_row_metadata : RowMetadata → Bytes
write_row_metadata m = le 1 m.flags ++ le 8 (to_bits 63 m.expiry_unix_ms)

pub read_row_metadata : Bytes → Option (RowMetadata × Bytes)
read_row_metadata input = do
  (flags, input') ← read_uint 1 input
  (expiry_unix_ms, rest) ← read_uint 8 input'
  some (record { flags = flags; expiry_unix_ms = of_bits 63 expiry_unix_ms }, rest)

pub record CellMetadata : Type 0 where
  pub flags : ℕ
  pub expiry_unix_ms : ℤ
  pub writetime_us : ℤ

abbrev pub has_ttl : ℕ → Bool
has_ttl flags = not (bit_and flags 1 == 0)

abbrev pub has_writetime : ℕ → Bool
has_writetime flags = not (bit_and flags 2 == 0)

pub write_cell_metadata : CellMetadata → Bytes
write_cell_metadata m =
    le 1 m.flags
    ++ (if has_ttl m.flags then le 8 (to_bits 63 m.expiry_unix_ms) else [])
    ++ (if has_writetime m.flags then le 8 (to_bits 63 m.writetime_us) else [])

-- An S64 that is read when its flag is set, and is 0 when it is not.
pub read_flagged : Bool → Bytes → Option (ℤ × Bytes)
read_flagged false input = some (pos 0, input)
read_flagged true input = do (bits, rest) ← read_uint 8 input; some (of_bits 63 bits, rest)

pub read_cell_metadata : Bytes → Option (CellMetadata × Bytes)
read_cell_metadata input = do
  (flags, input') ← read_uint 1 input
  (expiry_unix_ms, input'') ← read_flagged (has_ttl flags) input'
  (writetime_us, rest) ← read_flagged (has_writetime flags) input''
  some
      (record { flags = flags; expiry_unix_ms = expiry_unix_ms; writetime_us = writetime_us }, rest)

-- skip_cell_metadata, behind the flags.
pub skip_cell_metadata : Bytes → ℕ → Option Bytes
skip_cell_metadata input flags =
    let to_skip = (if has_ttl flags then 8 else 0) + (if has_writetime flags then 8 else 0) in
    if to_skip == 0 then some input else skip to_skip input

-- The loop of write_mask_bits for `n` more columns, from column `idx` on, and the word behind it.
pub mask_words_of : (ℕ → Bool) → ℕ → ℕ → ℕ → List ℕ
mask_words_of is_set zero idx mask = if idx % 64 == 0 then [] else mask ∷ []
mask_words_of is_set (suc n) idx mask =
    let mask' = bit_or mask ((if is_set idx then 1 else 0) * 2 ^ (idx % 64)) in
    let full = mask_words_of is_set n (suc idx) 0 in
    let more = mask_words_of is_set n (suc idx) mask' in
    if idx % 64 == 63 then mask' ∷ full else more

pub write_mask_bits : (ℕ → Bool) → ℕ → Bytes
write_mask_bits is_set column_count = write_words (mask_words_of is_set column_count 0 0)

pub write_column_mask : (ℕ → Bool) → ℕ → Bytes
write_column_mask is_active column_count =
    le 8 column_count ++ write_mask_bits is_active column_count
