-- ===== src/Cql/Codec/Write/Sound.antt =====
-- read_column_value reads what write_column_value writes (cql/engine/io.codec.cpp).
use plexdb.Prelude.{
  ℕ, suc, ◌-◌, ◌<◌, ◌^◌, ◌≡◌, ◌∙◌, ◌⊎◌, inl, inr, refl, sym, ap, subst, Option, none, some, Bool,
  true, List, [], ◌++◌, append_assoc, le→leb, arith, if◌then◌else◌,
}
use plexdb.Prelude.Fallible.{◌>>=◌}
use plexdb.Core.Text.{Bytes}
use plexdb.Cql.Types.{ColumnType, ColumnTypes}
use plexdb.Cql.Value.{ColumnValue, ColumnValues, values_length}
use plexdb.Cql.Wire.{le, read_uint-le}
use plexdb.Cql.Codec.{Read, write_typed_basic}
use plexdb.Cql.Codec.Fits.{Fits}
use plexdb.Cql.Codec.RoundTrip.{read_basic-write_typed_basic}
use plexdb.Cql.Codec.Mask.{mask_bit, write_words}
use plexdb.Cql.Codec.Nested.{
  types_length, read_many, read_column_value, read_masked_payloads, read_udt_fields, nulls,
  append_values, append_values_none,
}
use plexdb.Cql.Codec.Write.Accepts.{write_column_value-Fits, not_Null-Fits}
use plexdb.Cql.Codec.Write.FieldMask.{IsMaskOf, field_mask-IsMaskOf, read_mask-field_mask}
use plexdb.Cql.Codec.Write.{
  is_value, field_mask, write_column_value, write_many, write_payloads, can_write_column_value,
}

module _ (P : ColumnValue → Type 0) where
  abbrev AllValues : ColumnValues → Type 0
  AllValues ColumnValues.no_values = Unit
  AllValues (ColumnValues.a_value v vs) = P v × AllValues vs

-- The values of a type. A field of a tuple or a UDT may be Null, and nothing else may.
unfoldable mutual
  pub FitsType : ColumnType → ColumnValue → Type 0
  FitsType (ColumnType.basic dtype) v = Fits dtype v
  FitsType (ColumnType.list element frozen) (ColumnValue.array vs) =
      AllValues (FitsType element) vs × (values_length vs < 2 ^ 64)
  FitsType (ColumnType.vector element n frozen) (ColumnValue.array vs) =
      AllValues (FitsType element) vs × (values_length vs ≡ n)
  FitsType (ColumnType.tuple elements frozen) (ColumnValue.array vs) = FieldsFit elements vs
  FitsType (ColumnType.udt keyspace name names types) (ColumnValue.array vs) =
      FieldsFit types vs × (types_length types < 2 ^ 64)
  FitsType _ _ = ⊥

  pub FieldsFit : ColumnTypes → ColumnValues → Type 0
  FieldsFit ColumnTypes.no_types ColumnValues.no_values = Unit
  FieldsFit (ColumnTypes.a_type t ts) (ColumnValues.a_value v vs) =
      ((v ≡ ColumnValue.null) ⊎ FitsType t v) × FieldsFit ts vs
  FieldsFit _ _ = ⊥

-- What was written is read back, whatever stands behind it.
record IsReadBack {A : Type 0} (written : Option Bytes) (reader : Bytes → Option (A × Bytes))
    (a : A) : Type 0 where
  pub bytes : Bytes
  pub is_written : written ≡ some bytes
  pub is_read : (rest : Bytes) → reader (bytes ++ rest) ≡ some (a, rest)

module _ (writer : ColumnValue → Option Bytes) (reader : Bytes → Read)
    (P : ColumnValue → Type 0) where
  read_many-write_many :
      ((v : ColumnValue) → P v → IsReadBack (writer v) reader v)
      → (vs : ColumnValues) → AllValues P vs
      → IsReadBack (write_many writer vs) (read_many reader (values_length vs)) vs
  unfolding read_many write_many
  read_many-write_many h ColumnValues.no_values all = record {
    bytes = [];
    is_written = refl;
    is_read = λ rest. refl;
  }
  read_many-write_many h (ColumnValues.a_value v vs) (p, all) =
      let one = h v p in
      let more = read_many-write_many h vs all in
      record {
        bytes = one.bytes ++ more.bytes;
        is_written = rw (one.is_written, more.is_written) refl;
        is_read = λ rest.
            rw
              (
                append_assoc one.bytes more.bytes rest,
                one.is_read (more.bytes ++ rest),
                more.is_read rest,
              )
              refl;
      }

values_length-FieldsFit :
    (types : ColumnTypes) (vs : ColumnValues)
    → FieldsFit types vs
    → values_length vs ≡ types_length types
unfolding FieldsFit
values_length-FieldsFit ColumnTypes.no_types ColumnValues.no_values h = refl
values_length-FieldsFit (ColumnTypes.a_type t ts) (ColumnValues.a_value v vs) (hv, h) =
    ap suc (values_length-FieldsFit ts vs h)
values_length-FieldsFit _ _ h = absurd h

-- What stands behind some bytes that are read first.
behind_IsReadBack :
    {A B : Type 0} (written : Option Bytes) (reader : Bytes → Option (A × Bytes)) (a : A)
    (first : Bytes) (outer : Bytes → Option (B × Bytes)) (f : A → B)
    → ((rest : Bytes) → outer (first ++ rest) ≡ (reader rest >>= (λ p. some (f p.0, p.1))))
    → IsReadBack written reader a
    → IsReadBack (written >>= (λ bytes. some (first ++ bytes))) outer (f a)
behind_IsReadBack written reader a first outer f opens back = record {
  bytes = first ++ back.bytes;
  is_written = rw back.is_written refl;
  is_read = λ rest.
      rw (append_assoc first back.bytes rest)
        (opens (back.bytes ++ rest) ∙ rw (back.is_read rest) refl);
}

is_value-FitsType : (cdtype : ColumnType) (v : ColumnValue) → FitsType cdtype v → is_value v ≡ true
unfolding FitsType
is_value-FitsType (ColumnType.basic dtype) ColumnValue.null h = absurd (not_Null-Fits dtype h)
is_value-FitsType (ColumnType.list _ _) ColumnValue.null h = absurd h
is_value-FitsType (ColumnType.vector _ _ _) ColumnValue.null h = absurd h
is_value-FitsType (ColumnType.tuple _ _) ColumnValue.null h = absurd h
is_value-FitsType (ColumnType.udt _ _ _ _) ColumnValue.null h = absurd h
is_value-FitsType _ _ h = refl

-- A field that is Null, and one with a value.
field_IsReadBack :
    (bit : Bool) (v : ColumnValue) (written : Option Bytes) (reader : Bytes → Read)
    → (bit ≡ is_value v)
    → ((v ≡ ColumnValue.null) ⊎ ((is_value v ≡ true) × IsReadBack written reader v))
    → IsReadBack
        (if bit then written else some [])
        (λ input. if bit then reader input else some (ColumnValue.null, input))
        v
field_IsReadBack bit v written reader e (inl e') =
    rw (e, e') (record { bytes = []; is_written = refl; is_read = λ rest. refl })
field_IsReadBack bit v written reader e (inr (there, back)) = rw (e, there) back

payloads_IsReadBack :
    (bit : Bool) (v : ColumnValue) (vs : ColumnValues) (first more : Option Bytes)
    (reader : Bytes → Read) (others : Bytes → Option (ColumnValues × Bytes))
    → IsReadBack first reader v
    → IsReadBack more others vs
    → IsReadBack
        (first >>= (λ bytes. more >>= (λ rest. some (bytes ++ rest))))
        (λ input.
          reader input >>= (λ p. others p.1 >>= (λ q. some (ColumnValues.a_value p.0 q.0, q.1))))
        (ColumnValues.a_value v vs)
payloads_IsReadBack bit v vs first more reader others one rest_back = record {
  bytes = one.bytes ++ rest_back.bytes;
  is_written = rw (one.is_written, rest_back.is_written) refl;
  is_read = λ rest.
      rw
        (
          append_assoc one.bytes rest_back.bytes rest,
          one.is_read (rest_back.bytes ++ rest),
          rest_back.is_read rest,
        )
        refl;
}

abbrev mapped : {A B : Type 0} → (A → B) → Option (A × Bytes) → Option (B × Bytes)
mapped f m = m >>= (λ p. some (f p.0, p.1))

mapped-mapped :
    {A B C : Type 0} (f : A → B) (g : B → C) (m : Option (A × Bytes))
    → mapped g (mapped f m) ≡ mapped (λ a. g (f a)) m
mapped-mapped f g none = refl
mapped-mapped f g (some p) = refl

append_values_whole : (vs : ColumnValues) (n : ℕ) → append_values vs (nulls (n - n)) ≡ vs
append_values_whole vs n = let none : n - n ≡ 0 = omega arith in rw none (append_values_none vs)

mutual
  unfolding FitsType FieldsFit read_column_value read_masked_payloads write_column_value
      write_payloads can_write_column_value read_udt_fields

  column_value_IsReadBack :
      (cdtype : ColumnType) (v : ColumnValue)
      → FitsType cdtype v
      → IsReadBack (write_column_value cdtype v) (read_column_value cdtype) v
  column_value_IsReadBack (ColumnType.basic dtype) v h = record {
    bytes = write_typed_basic v;
    is_written = write_column_value-Fits dtype v h;
    is_read = λ rest. read_basic-write_typed_basic dtype v rest h;
  }
  column_value_IsReadBack (ColumnType.list element frozen) (ColumnValue.array vs) (all, b) =
      behind_IsReadBack (write_many (write_column_value element) vs)
        (read_many (read_column_value element) (values_length vs)) vs (le 8 (values_length vs))
        (read_column_value (ColumnType.list element frozen)) ColumnValue.array
        (λ rest. rw (read_uint-le 8 (values_length vs) rest b) refl)
        (read_many-write_many (write_column_value element) (read_column_value element)
          (FitsType element) (column_value_IsReadBack element) vs all)
  column_value_IsReadBack (ColumnType.vector element n frozen) (ColumnValue.array vs) (all, e) =
      let more =
        read_many-write_many (write_column_value element) (read_column_value element)
          (FitsType element) (column_value_IsReadBack element) vs all in
      record {
        bytes = more.bytes;
        is_written = more.is_written;
        is_read = λ rest. rw (sym e, more.is_read rest) refl;
      }
  column_value_IsReadBack (ColumnType.tuple elements frozen) (ColumnValue.array vs) h =
      behind_IsReadBack (write_payloads elements vs (field_mask elements vs) 0)
        (read_masked_payloads elements (types_length elements) (field_mask elements vs) 0) vs
        (write_words (field_mask elements vs))
        (read_column_value (ColumnType.tuple elements frozen)) ColumnValue.array
        (λ rest. rw (read_mask-field_mask elements vs rest) refl)
        (fields_IsReadBack elements vs (field_mask elements vs) 0 h
          (field_mask-IsMaskOf elements vs (omega (arith, values_length-FieldsFit elements vs h))))
  column_value_IsReadBack (ColumnType.udt keyspace name names types) (ColumnValue.array vs) (h, b) =
      let n = types_length types in
      subst
        (λ ws.
          IsReadBack
            (write_column_value (ColumnType.udt keyspace name names types) (ColumnValue.array vs))
            (read_column_value (ColumnType.udt keyspace name names types)) (ColumnValue.array ws))
        (append_values_whole vs n)
        (behind_IsReadBack (write_payloads types vs (field_mask types vs) 0)
          (read_masked_payloads types n (field_mask types vs) 0) vs
          (le 8 n ++ write_words (field_mask types vs))
          (read_column_value (ColumnType.udt keyspace name names types))
          (λ ws. ColumnValue.array (append_values ws (nulls (n - n))))
          (λ rest.
            rw
              (
                read_uint-le 8 n (write_words (field_mask types vs) ++ rest) b,
                le→leb n n (omega arith),
                read_mask-field_mask types vs rest,
              )
              (mapped-mapped (λ ws. append_values ws (nulls (n - n))) ColumnValue.array
                (read_masked_payloads types n (field_mask types vs) 0 rest)))
          (fields_IsReadBack types vs (field_mask types vs) 0 h
            (field_mask-IsMaskOf types vs (omega (arith, values_length-FieldsFit types vs h)))))
  column_value_IsReadBack _ _ h = absurd h

  fields_IsReadBack :
      (types : ColumnTypes) (vs : ColumnValues) (mask : List ℕ) (i : ℕ)
      → FieldsFit types vs
      → IsMaskOf mask vs i
      → IsReadBack
          (write_payloads types vs mask i)
          (read_masked_payloads types (types_length types) mask i)
          vs
  fields_IsReadBack ColumnTypes.no_types ColumnValues.no_values mask i h m = record {
    bytes = [];
    is_written = refl;
    is_read = λ rest. refl;
  }
  fields_IsReadBack (ColumnTypes.a_type t ts) (ColumnValues.a_value v vs) mask i (inl e, h)
        (bit, m) =
      payloads_IsReadBack (mask_bit mask i) v vs _ _ _ _
        (field_IsReadBack (mask_bit mask i) v (write_column_value t v) (read_column_value t) bit
          (inl e))
        (fields_IsReadBack ts vs mask (suc i) h m)
  fields_IsReadBack (ColumnTypes.a_type t ts) (ColumnValues.a_value v vs) mask i (inr fit, h)
        (bit, m) =
      payloads_IsReadBack (mask_bit mask i) v vs _ _ _ _
        (field_IsReadBack (mask_bit mask i) v (write_column_value t v) (read_column_value t) bit
          (inr (is_value-FitsType t v fit, column_value_IsReadBack t v fit)))
        (fields_IsReadBack ts vs mask (suc i) h m)
  fields_IsReadBack _ _ mask i h m = absurd h

-- A value that fits its type (each part within its machine type, a vector as long as its type
-- says, a Null only as a field of a tuple or a UDT) is written without a failed assertion, and
-- read_column_value gives it back from those bytes and leaves what stands behind them.
pub read_column_value-write_column_value :
    (cdtype : ColumnType) (v : ColumnValue) (rest : Bytes)
    → FitsType cdtype v
    → (bytes : Bytes) × (write_column_value cdtype v ≡ some bytes)
      × (read_column_value cdtype (bytes ++ rest) ≡ some (v, rest))
read_column_value-write_column_value cdtype v rest h =
    let back = column_value_IsReadBack cdtype v h in
    (back.bytes, back.is_written, back.is_read rest)
