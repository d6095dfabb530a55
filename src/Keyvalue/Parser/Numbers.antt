-- ===== src/Keyvalue/Parser/Numbers.antt =====
-- Counts and lengths in decimal, as the header lines of a request hold them.
use plexdb.Prelude.{
  ℕ, ◌+◌, ◌-◌, ◌*◌, ◌^◌, ◌≤◌, ◌<◌, ◌≡◌, ◌≢◌, refl, Bool, false, some, [], ◌∷◌, ◌++◌, arith, All,
}
use plexdb.Prelude.Int.{pos}
use plexdb.Core.Text.{Bytes, IsDigit, digits_value, IsDecimal}
use plexdb.Keyvalue.Outcome.{ok, undefined}
use plexdb.Keyvalue.Parser.{
  find_crlf, value, overflow, parse_digits, parse_decimal, natural, read_header, header,
}

digits_value-ge : (r : ℕ) (ds : Bytes) → r ≤ digits_value r ds
digits_value-ge r [] = omega arith
digits_value-ge r (c ∷ ds) = omega (arith, digits_value-ge (r * 10 + (c - b'0')) ds)

parse_digits_lem :
    (ds : Bytes) (r : ℕ)
    → All IsDigit ds
    → digits_value r ds < 2 ^ 63
    → parse_digits ds r false ≡ value (pos (digits_value r ds))
unfolding parse_digits
parse_digits_lem [] r d h = refl
parse_digits_lem (c ∷ ds) r (d, dr) h = ground (
  arith,
  digits_value-ge (r * 10 + (c - b'0')) ds,
  d,
  parse_digits_lem ds (r * 10 + (c - b'0')) dr h,
)

-- Digits whose number needs more than 63 bits overflow on the way.
parse_digits_overflow :
    (ds : Bytes) (r : ℕ) (negative : Bool)
    → All IsDigit ds
    → r < 2 ^ 63
    → 2 ^ 63 ≤ digits_value r ds
    → parse_digits ds r negative ≡ overflow
unfolding parse_digits
parse_digits_overflow [] r negative d hr h = absurd (omega arith)
parse_digits_overflow (c ∷ ds) r negative (d, dr) hr h =
    ground (arith, d, parse_digits_overflow ds (r * 10 + (c - b'0')) negative dr)

parse_decimal-value :
    (n : ℕ) (ds : Bytes) → IsDecimal n ds → n < 2 ^ 63 → parse_decimal ds ≡ value (pos n)
unfolding parse_decimal
parse_decimal-value n [] d h = absurd (omega (arith, d.some_digit))
parse_decimal-value n (c ∷ ds) d h =
    ground (arith, d.digits.0, d.value, parse_digits_lem (c ∷ ds) 0 d.digits)

-- The first CR LF behind a line with no CR is where the line ends.
find_crlf-line :
    (line rest : Bytes)
    → All (λ c. c ≢ b'\r') line
    → find_crlf (line ++ (b'\r' ∷ b'\n' ∷ rest)) ≡ some (line, rest)
unfolding find_crlf
find_crlf-line [] rest h = refl
find_crlf-line (x ∷ []) rest h = ground (arith, h.0)
find_crlf-line (x ∷ y ∷ line) rest h = ground (arith, h.0, find_crlf-line (y ∷ line) rest h.1)

digits_no_cr : (ds : Bytes) → All IsDigit ds → All (λ c. c ≢ b'\r') ds
digits_no_cr [] h = tt
digits_no_cr (c ∷ ds) (h, hs) = (omega arith, digits_no_cr ds hs)

pub find_crlf-decimal :
    (n : ℕ) (ds rest : Bytes)
    → IsDecimal n ds
    → find_crlf (ds ++ (b'\r' ∷ b'\n' ∷ rest)) ≡ some (ds, rest)
find_crlf-decimal n ds rest d = find_crlf-line ds rest (digits_no_cr ds d.digits)

-- A header line is read as its number.
pub read_header-decimal :
    (n : ℕ) (ds rest : Bytes)
    → IsDecimal n ds
    → n < 2 ^ 63
    → read_header (some (ds, rest)) ≡ ok (n, rest)
unfolding read_header
read_header-decimal n ds rest d h = rw (read_header, parse_decimal-value n ds d h, natural)

pub header-decimal :
    (n : ℕ) (ds rest : Bytes)
    → IsDecimal n ds
    → n < 2 ^ 63
    → header (ds ++ (b'\r' ∷ b'\n' ∷ rest)) ≡ ok (n, rest)
unfolding header
header-decimal n ds rest d h =
    rw (find_crlf-decimal n ds rest d) (read_header-decimal n ds rest d h)

parse_decimal-overflow :
    (n : ℕ) (ds : Bytes) → IsDecimal n ds → 2 ^ 63 ≤ n → parse_decimal ds ≡ overflow
unfolding parse_decimal
parse_decimal-overflow n [] d h = absurd (omega (arith, d.some_digit))
parse_decimal-overflow n (c ∷ ds) d h =
    ground (arith, d.digits.0, d.value, parse_digits_overflow (c ∷ ds) 0 false d.digits)

pub header-overflow :
    (n : ℕ) (ds rest : Bytes)
    → IsDecimal n ds
    → 2 ^ 63 ≤ n
    → header (ds ++ (b'\r' ∷ b'\n' ∷ rest)) ≡ undefined
unfolding header
header-overflow n ds rest d h =
    rw (find_crlf-decimal n ds rest d, read_header, parse_decimal-overflow n ds d h, natural)
