-- ===== src/Cql/Codec/Meta/Laws.antt =====
-- The metadata of rows and cells are read back and passed (cql/engine/io.codec.cpp).
use plexdb.Prelude.{
  subst, ap, ℕ, ◌+◌, ◌<◌, ◌≡◌, refl, Option, none, some, Bool, true, false, [], ◌++◌, append_assoc,
  ◌==◌, drop-drop, if◌then◌else◌,
}
use plexdb.Prelude.Int.{ℤ, pos}
use plexdb.Prelude.Fallible.{◌>>=◌}
use plexdb.Core.Text.{Bytes}
use plexdb.Cql.Wire.{
  le, to_bits, of_bits, read_uint, read_uint-le, skip, IsSigned, to_bits-bound, of_bits-to_bits,
}
use plexdb.Cql.Codec.Skip.{Passes, Passes-map, Passes-bind, Passes-bind_value, read_uint-Passes}
use plexdb.Cql.Codec.Meta.{
  RowMetadata, CellMetadata, write_row_metadata, read_row_metadata, write_cell_metadata,
  read_cell_metadata, read_flagged, has_ttl, has_writetime, skip_cell_metadata,
}

pub read_row_metadata-write_row_metadata :
    (m : RowMetadata) (rest : Bytes)
    → m.flags < 256
    → IsSigned 63 m.expiry_unix_ms
    → read_row_metadata (write_row_metadata m ++ rest) ≡ some (m, rest)
unfolding read_row_metadata write_row_metadata
read_row_metadata-write_row_metadata m rest h k =
    rw
      (
        read_uint-le 1 m.flags (le 8 (to_bits 63 m.expiry_unix_ms) ++ rest) h,
        read_uint-le 8 (to_bits 63 m.expiry_unix_ms) rest (to_bits-bound 63 m.expiry_unix_ms k),
        of_bits-to_bits 63 m.expiry_unix_ms k,
      )
      refl

-- What a flag keeps of a number.
abbrev pub kept : Bool → ℤ → ℤ
kept flag z = if flag then z else pos 0

read_flagged-le :
    (flag : Bool) (z : ℤ) (rest : Bytes)
    → IsSigned 63 z
    → read_flagged flag ((if flag then le 8 (to_bits 63 z) else []) ++ rest)
      ≡ some (kept flag z, rest)
unfolding read_flagged
read_flagged-le false z rest h = refl
read_flagged-le true z rest h =
    rw (read_uint-le 8 (to_bits 63 z) rest (to_bits-bound 63 z h), of_bits-to_bits 63 z h) refl

-- Cell metadata within their machine types are read back from what write_cell_metadata writes,
-- with 0 in place of an expiry or a write time whose flag is not set.
pub read_cell_metadata-write_cell_metadata :
    (m : CellMetadata) (rest : Bytes)
    → m.flags < 256
    → IsSigned 63 m.expiry_unix_ms
    → IsSigned 63 m.writetime_us
    → read_cell_metadata (write_cell_metadata m ++ rest)
      ≡ some (
        record {
          flags = m.flags;
          expiry_unix_ms = kept (has_ttl m.flags) m.expiry_unix_ms;
          writetime_us = kept (has_writetime m.flags) m.writetime_us;
        },
        rest,
      )
unfolding read_cell_metadata write_cell_metadata
read_cell_metadata-write_cell_metadata m rest h k l =
    let ttl = if has_ttl m.flags then le 8 (to_bits 63 m.expiry_unix_ms) else [] in
    let writetime = if has_writetime m.flags then le 8 (to_bits 63 m.writetime_us) else [] in
    rw
      (
        read_uint-le 1 m.flags ((ttl ++ writetime) ++ rest) h,
        append_assoc ttl writetime rest,
        read_flagged-le (has_ttl m.flags) m.expiry_unix_ms (writetime ++ rest) k,
        read_flagged-le (has_writetime m.flags) m.writetime_us rest l,
      )
      refl

-- skip of two parts one after the other.
skip-skip : (n m : ℕ) (input : Bytes) → (skip n input >>= skip m) ≡ skip (n + m) input
skip-skip n m input = ap some (drop-drop n m input)

abbrev skip_flagged : Bool → Bytes → Option Bytes
skip_flagged flag input = if flag then skip 8 input else some input

read_flagged-Passes :
    (flag : Bool) (input : Bytes) → Passes (read_flagged flag input) (skip_flagged flag input)
unfolding read_flagged
read_flagged-Passes false input = refl
read_flagged-Passes true input =
    Passes-map (of_bits 63) (read_uint 8 input) _ (read_uint-Passes 8 input)

bind-some : (m : Option Bytes) → (m >>= (λ rest. some rest)) ≡ m
bind-some none = refl
bind-some (some rest) = refl

skip_flags :
    (ttl writetime : Bool) (input : Bytes)
    → (skip_flagged ttl input >>= skip_flagged writetime) ≡ (
        if (if ttl then 8 else 0) + (if writetime then 8 else 0) == 0
        then some input
        else skip ((if ttl then 8 else 0) + (if writetime then 8 else 0)) input)
skip_flags true true input = skip-skip 8 8 input
skip_flags true false input = bind-some (skip 8 input)
skip_flags false true input = refl
skip_flags false false input = refl

-- Where read_cell_metadata reads a flags byte and what is behind it, skip_cell_metadata with that
-- byte leaves what it leaves.
pub read_cell_metadata-Passes :
    (input : Bytes)
    → Passes (read_cell_metadata input) (read_uint 1 input >>= (λ p. skip_cell_metadata p.1 p.0))
unfolding read_cell_metadata skip_cell_metadata
read_cell_metadata-Passes input = Passes-bind_value (read_uint 1 input) _ _ (λ p.
    let flagged =
      Passes-bind (read_flagged (has_ttl p.0) p.1) _ (skip_flagged (has_ttl p.0) p.1)
        (skip_flagged (has_writetime p.0)) (read_flagged-Passes (has_ttl p.0) p.1)
        (λ q.
          Passes-map (λ w. record { flags = p.0; expiry_unix_ms = q.0; writetime_us = w })
            (read_flagged (has_writetime p.0) q.1) _
            (read_flagged-Passes (has_writetime p.0) q.1)) in
    subst (Passes _) (skip_flags (has_ttl p.0) (has_writetime p.0) p.1) flagged)
