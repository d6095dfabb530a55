-- ===== src/Cql/Order/Laws.antt =====
-- compare_column_value (cql/engine/column_value.cpp) with its two sides exchanged.
use plexdb.Prelude.{◌≡◌, ap, refl, Option, none, some}
use plexdb.Cql.Types.{Basic, Decimal}
use plexdb.Cql.Value.{
  ColumnValue, get_blob, get_decimal, get_f32, get_f64, get_inet, get_s16, get_s32, get_s64,
  get_str, get_u8, get_uuid, get_varint,
}
use plexdb.Cql.Compare.{
  Cmp, reverse, reversed, compare_scalar, compare_signed, compare_bytes, compare_uuid,
  compare_timeuuid, f64_order_key, f32_order_key,
}
use plexdb.Cql.Compare.Laws.{
  compare_scalar-reverse, compare_signed-reverse, compare_bytes-reverse, compare_uuid-reverse,
  compare_timeuuid-reverse,
}
use plexdb.Cql.Magnitude.{compare_varint, compare_decimal}
use plexdb.Cql.Magnitude.Reverse.{compare_varint-reverse, compare_decimal-reverse}
use plexdb.Cql.Order.{
  compare_column_value, both, both_defined, compare_s8, compare_f64, compare_f32, compare_inet,
  to_s8,
}

module _ {A : Type 0} (compare : A → A → Cmp)
    (law : (a b : A) → compare b a ≡ reverse (compare a b)) where
  both-reverse : (a b : Option A) → both compare b a ≡ reversed (both compare a b)
  unfolding reversed
  both-reverse none none = refl
  both-reverse none (some b) = refl
  both-reverse (some a) none = refl
  both-reverse (some a) (some b) = ap some (law a b)

both_defined-reverse :
    (a b : Option Decimal)
    → both_defined compare_decimal b a ≡ reversed (both_defined compare_decimal a b)
unfolding reversed
both_defined-reverse none none = refl
both_defined-reverse none (some b) = refl
both_defined-reverse (some a) none = refl
both_defined-reverse (some a) (some b) = compare_decimal-reverse a b

-- For every basic type and any two values, compare_column_value with its sides exchanged gives the
-- reversed answer, and has none (a failed assertion, or scales of decimals whose difference leaves
-- S32) when and only when the other has none.
pub compare_column_value-reversed :
    (a b : ColumnValue) (dtype : Basic)
    → compare_column_value b a dtype ≡ reversed (compare_column_value a b dtype)
unfolding compare_column_value reversed
compare_column_value-reversed a b Basic.bigint =
    both-reverse compare_signed compare_signed-reverse (get_s64 a) (get_s64 b)
compare_column_value-reversed a b Basic.timestamp =
    both-reverse compare_signed compare_signed-reverse (get_s64 a) (get_s64 b)
compare_column_value-reversed a b Basic.counter =
    both-reverse compare_signed compare_signed-reverse (get_s64 a) (get_s64 b)
compare_column_value-reversed a b Basic.time =
    both-reverse compare_signed compare_signed-reverse (get_s64 a) (get_s64 b)
compare_column_value-reversed a b Basic.int_ =
    both-reverse compare_signed compare_signed-reverse (get_s32 a) (get_s32 b)
compare_column_value-reversed a b Basic.date =
    both-reverse compare_signed compare_signed-reverse (get_s32 a) (get_s32 b)
compare_column_value-reversed a b Basic.smallint =
    both-reverse compare_signed compare_signed-reverse (get_s16 a) (get_s16 b)
compare_column_value-reversed a b Basic.tinyint =
    both-reverse compare_s8 (λ a b. compare_signed-reverse (to_s8 a) (to_s8 b)) (get_u8 a)
      (get_u8 b)
compare_column_value-reversed a b Basic.boolean =
    both-reverse compare_scalar compare_scalar-reverse (get_u8 a) (get_u8 b)
compare_column_value-reversed a b Basic.double_ =
    both-reverse compare_f64 (λ a b. compare_scalar-reverse (f64_order_key a) (f64_order_key b))
      (get_f64 a) (get_f64 b)
compare_column_value-reversed a b Basic.float_ =
    both-reverse compare_f32 (λ a b. compare_scalar-reverse (f32_order_key a) (f32_order_key b))
      (get_f32 a) (get_f32 b)
compare_column_value-reversed a b Basic.text =
    both-reverse compare_bytes compare_bytes-reverse (get_str a) (get_str b)
compare_column_value-reversed a b Basic.varchar =
    both-reverse compare_bytes compare_bytes-reverse (get_str a) (get_str b)
compare_column_value-reversed a b Basic.ascii =
    both-reverse compare_bytes compare_bytes-reverse (get_str a) (get_str b)
compare_column_value-reversed a b Basic.blob =
    both-reverse compare_bytes compare_bytes-reverse (get_blob a) (get_blob b)
compare_column_value-reversed a b Basic.hex =
    both-reverse compare_bytes compare_bytes-reverse (get_blob a) (get_blob b)
compare_column_value-reversed a b Basic.inet =
    both-reverse compare_inet (λ a b. compare_bytes-reverse a.address b.address) (get_inet a)
      (get_inet b)
compare_column_value-reversed a b Basic.uuid =
    both-reverse compare_uuid compare_uuid-reverse (get_uuid a) (get_uuid b)
compare_column_value-reversed a b Basic.timeuuid =
    both-reverse compare_timeuuid compare_timeuuid-reverse (get_uuid a) (get_uuid b)
compare_column_value-reversed a b Basic.varint =
    both-reverse compare_varint compare_varint-reverse (get_varint a) (get_varint b)
compare_column_value-reversed a b Basic.decimal =
    both_defined-reverse (get_decimal a) (get_decimal b)
compare_column_value-reversed a b Basic.duration = refl
compare_column_value-reversed a b Basic.count = refl
