-- ===== src/Cql/Magnitude/Runs.antt =====
-- Integers and decimal numbers of any length (cql/engine/column_value.cpp) on concrete bytes.
use plexdb.Prelude.{◌≡◌, some, arith, true, false, [], ◌∷◌}
use plexdb.Prelude.Int.{pos}
use plexdb.Cql.Types.{VarInt, Decimal}
use plexdb.Cql.Compare.{compare_signed}
use plexdb.Cql.Magnitude.{compare_varint, compare_decimal, scale_difference}
use plexdb.Cql.Magnitude.Laws.{int_value, compare_varint-int_value}
use plexdb.Cql.Magnitude.Scaled.{times_pow10, compare_decimal-int_value}

-- -257, with a zero in front, and 3.
abbrev minus_257 : VarInt
minus_257 = record { negative = true; magnitude = 0 ∷ 1 ∷ 1 ∷ [] }

abbrev three : VarInt
three = record { negative = false; magnitude = 3 ∷ [] }

compare_varint-int_value_example :
    compare_varint minus_257 three ≡ compare_signed (int_value minus_257) (int_value three)
compare_varint-int_value_example =
    compare_varint-int_value minus_257 three (omega arith, (omega arith, (omega arith, tt)))
      (omega arith, tt)

-- 3 and -2.57.
abbrev three_whole : Decimal
three_whole = record { scale = pos 0; unscaled = three }

abbrev minus_2_57 : Decimal
minus_2_57 = record { scale = pos 2; unscaled = minus_257 }

compare_decimal-int_value_example :
    compare_decimal three_whole minus_2_57
    ≡ some (
        compare_signed
          (times_pow10 (int_value three) (scale_difference (pos 2) (pos 0)))
          (times_pow10 (int_value minus_257) (scale_difference (pos 0) (pos 2))))
compare_decimal-int_value_example =
    compare_decimal-int_value three_whole minus_2_57 (omega arith, tt)
      (omega arith, (omega arith, (omega arith, tt)))
