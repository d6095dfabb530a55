-- ===== src/Core/Text/Sample.antt =====
-- A concrete external code: numbers in decimal, and the sum of the bytes for the hash.
use plexdb.Prelude.{
  ℕ, zero, suc, ◌+◌, ◌/◌, ◌%◌, ◌^◌, ◌<◌, ◌≡◌, refl, ◌∙◌, ap, [], ◌∷◌, ltb, if◌then◌else◌, length,
  All, arith, Bool-cases, inl, inr, ltb→lt,
}
use plexdb.Prelude.Int.{ℤ, pos, negsuc}
use plexdb.Core.Text.{Bytes, IsDigit, digits_value, IsDecimal, External}

abbrev decimal_onto : ℕ → ℕ → Bytes → Bytes
decimal_onto zero n acc = acc
decimal_onto (suc fuel) n acc =
    let rest = decimal_onto fuel (n / 10) ((b'0' + n % 10) ∷ acc) in
    if ltb n 10 then (b'0' + n) ∷ acc else rest

-- A round for each digit, and n + 1 of them are enough.
abbrev decimal : ℕ → Bytes
decimal n = decimal_onto (n + 1) n []

decimal_onto-value :
    (fuel n : ℕ) (acc : Bytes)
    → n < fuel
    → digits_value 0 (decimal_onto fuel n acc) ≡ digits_value n acc
decimal_onto-value zero n acc h = absurd (omega (arith, h))
decimal_onto-value (suc fuel) n acc h = elim (Bool-cases (ltb n 10)) [
  | inl small ↦ rw small (ap (λ r. digits_value r acc) (omega arith))
  | inr big ↦ rw big (
      decimal_onto-value fuel (n / 10) ((b'0' + n % 10) ∷ acc) (ground (arith, big, h))
      ∙ ap (λ r. digits_value r acc) (omega arith))
]

decimal_onto-digits :
    (fuel n : ℕ) (acc : Bytes) → All IsDigit acc → All IsDigit (decimal_onto fuel n acc)
decimal_onto-digits zero n acc h = h
decimal_onto-digits (suc fuel) n acc h = elim (Bool-cases (ltb n 10)) [
  | inl small ↦ rw small ((omega arith, omega (arith, ltb→lt n 10 small)), h)
  | inr big ↦
      rw big
        (decimal_onto-digits fuel (n / 10) ((b'0' + n % 10) ∷ acc) ((omega arith, omega arith), h))
]

decimal_onto-length :
    (fuel n : ℕ) (acc : Bytes) → n < fuel → length acc < length (decimal_onto fuel n acc)
decimal_onto-length zero n acc h = absurd (omega (arith, h))
decimal_onto-length (suc fuel) n acc h = elim (Bool-cases (ltb n 10)) [
  | inl small ↦ rw small (omega arith)
  | inr big ↦ rw big (
      omega
        (arith, decimal_onto-length fuel (n / 10) ((b'0' + n % 10) ∷ acc) (ground (arith, big, h))))
]

pub decimal-IsDecimal : (n : ℕ) → IsDecimal n (decimal n)
decimal-IsDecimal n = record {
  digits = decimal_onto-digits (n + 1) n [] tt;
  some_digit = decimal_onto-length (n + 1) n [] (omega arith);
  value = decimal_onto-value (n + 1) n [] (omega arith);
}

abbrev byte_sum : Bytes → ℕ
byte_sum [] = 0
byte_sum (c ∷ s) = c + byte_sum s

abbrev signed_decimal : ℤ → Bytes
signed_decimal (pos n) = decimal n
signed_decimal (negsuc n) = b'-' ∷ decimal (n + 1)

abbrev pub sample : External
sample = record {
  xxhash64 = λ s. byte_sum s % 2 ^ 64;
  xxhash64_bound = λ s. omega arith;
  print_u64 = λ n. decimal n;
  print_u64-IsDecimal = λ n. decimal-IsDecimal n;
  print_s64 = λ z. signed_decimal z;
  print_s64-IsDecimal = λ n. decimal-IsDecimal n;
  print_s64_negative = λ n. refl;
  strtoull = λ s. digits_value 0 s;
  strtoull_decimal = λ n s d lt. d.value;
}
