-- ===== src/Cql/Order/Runs.antt =====
-- The order of values (cql/engine/column_value.cpp) on concrete values.
use plexdb.Prelude.{◌≡◌, ◌^◌, ◌*◌, arith}
use plexdb.Prelude.Int.{pos, negsuc}
use plexdb.Cql.Types.{Basic}
use plexdb.Cql.Value.{ColumnValue}
use plexdb.Cql.Compare.{compare_scalar, compare_signed, f64_order_key}
use plexdb.Cql.Compare.Floats.{place, compare_scalar-f64_order_key}
use plexdb.Cql.Order.{compare_column_value}
use plexdb.Cql.Compare.{reversed}
use plexdb.Cql.Order.Laws.{compare_column_value-reversed}

compare_column_value-reversed_example :
    compare_column_value (ColumnValue.s32 (negsuc 4)) (ColumnValue.s32 (pos 9)) Basic.date
    ≡ reversed
        (compare_column_value (ColumnValue.s32 (pos 9)) (ColumnValue.s32 (negsuc 4)) Basic.date)
compare_column_value-reversed_example =
    compare_column_value-reversed (ColumnValue.s32 (pos 9)) (ColumnValue.s32 (negsuc 4)) Basic.date

-- The bits of 2.0 and of -2.0.
compare_scalar-f64_order_key_example :
    compare_scalar (f64_order_key (2 ^ 62)) (f64_order_key (3 * 2 ^ 62))
    ≡ compare_signed (place 63 (2 ^ 62)) (place 63 (3 * 2 ^ 62))
compare_scalar-f64_order_key_example =
    compare_scalar-f64_order_key (2 ^ 62) (3 * 2 ^ 62) (omega arith) (omega arith)
