-- ===== src/Core/Blob.antt =====
-- core/blob/blob.cppm, the untyped interface, over core/blob/implementations/blob.in_memory.cppm.
-- `none` is a failed assertion, and in the loops that the fuel ran out.
pub mod Content
use plexdb.Prelude.{
  ℕ, zero, suc, ◌+◌, ◌-◌, ◌≤◌, Option, none, some, List, [], ◌∷◌, ◌++◌, ltb, leb, if◌then◌else◌,
  length, take, drop, min, resize_array,
}
use plexdb.Core.Text.{Bytes}

pub record BlobInMemory : Type 0 where
  pub size_bytes : ℕ
  pub contents : Bytes

abbrev pub new_blob : BlobInMemory
new_blob = record { size_bytes = 0; contents = [] }

-- memory_copy of `bytes` to the place `i`.
abbrev pub write_at : Bytes → ℕ → Bytes → Bytes
write_at xs i ys = take i xs ++ (ys ++ drop (i + length ys) xs)

-- The length of the block that rblock and rwblock give: all that stands behind the offset.
abbrev pub block_length : BlobInMemory → ℕ → ℕ
block_length b offset = b.size_bytes - offset

pub update_loop : ℕ → BlobInMemory → Bytes → ℕ → ℕ → Option BlobInMemory
update_loop zero b value offset value_offset = none
update_loop (suc fuel) b value offset value_offset =
    let block = block_length b (offset + value_offset) in
    let piece = take (min block (length value - value_offset)) (drop value_offset value) in
    let written = record b { contents = write_at b.contents (offset + value_offset) piece } in
    let rest = update_loop fuel written value offset (value_offset + block) in
    if ltb value_offset (length value) then rest else some b

-- The size is that of the value. A round passes one byte at least, while the value fits.
unfoldable pub update : BlobInMemory → Bytes → ℕ → Option BlobInMemory
unfolding update_loop
update b value offset =
    if leb (offset + length value) b.size_bytes
    then update_loop (length value + 1) b value offset 0
    else none

pub get_loop : ℕ → BlobInMemory → ℕ → ℕ → ℕ → Bytes → Option Bytes
get_loop zero b size offset value_offset out = none
get_loop (suc fuel) b size offset value_offset out =
    let block = block_length b (offset + value_offset) in
    let piece = take (min block (size - value_offset)) (drop (offset + value_offset) b.contents) in
    let rest = get_loop fuel b size offset (value_offset + block) (out ++ piece) in
    if ltb value_offset size then rest else some out

-- The bytes that the code copies to out_value.
unfoldable pub get : BlobInMemory → ℕ → ℕ → Option Bytes
unfolding get_loop
get b size offset =
    if leb (offset + size) b.size_bytes then get_loop (size + 1) b size offset 0 [] else none

unfoldable pub resize : BlobInMemory → ℕ → BlobInMemory
resize b new_size = record { size_bytes = new_size; contents = resize_array b.contents new_size 0 }

unfoldable pub remove : BlobInMemory → BlobInMemory
remove b = record { size_bytes = 0; contents = [] }

unfoldable pub append : BlobInMemory → Bytes → Option BlobInMemory
append b value = update (resize b (b.size_bytes + length value)) value b.size_bytes

unfoldable pub insert : BlobInMemory → Bytes → ℕ → Option BlobInMemory
insert b value offset =
    update
      (if ltb b.size_bytes (offset + length value) then resize b (offset + length value) else b)
      value offset
