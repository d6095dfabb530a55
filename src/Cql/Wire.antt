-- ===== src/Cql/Wire.antt =====
-- The bytes that the codec of cql/engine writes and reads: a machine word in memory, low byte first,
-- and a Reader and a Writer (cql/engine/io.types.cppm). A Writer is the list of the bytes written,
-- and a Reader the list of those not yet read: a read of bytes that are missing fails.
use plexdb.Prelude.{
  ℕ, zero, suc, ◌+◌, ◌-◌, ◌*◌, ◌/◌, ◌%◌, ◌^◌, ◌<◌, ◌≡◌, ◌∙◌, refl, sym, ap, Option, none, some,
  true, false, [], ◌∷◌, ◌++◌, ltb, leb, le→leb, if◌then◌else◌, length, take, drop, length-append,
  take-length-append, drop-length-append, arith,
}
use plexdb.Prelude.Int.{ℤ, pos, negsuc}
use plexdb.Prelude.Fallible.{◌>>=◌}
use plexdb.Core.Text.{Bytes}

-- The first n bytes of a number.
abbrev pub le : ℕ → ℕ → Bytes
le zero x = []
le (suc n) x = x % 256 ∷ le n (x / 256)

abbrev pub from_le : Bytes → ℕ
from_le [] = 0
from_le (b ∷ bs) = b + 256 * from_le bs

-- The bits of a signed integer of k + 1 bits, and the integer of some bits.
abbrev pub to_bits : ℕ → ℤ → ℕ
to_bits k (pos n) = n
to_bits k (negsuc n) = 2 ^ suc k - 1 - n

abbrev pub of_bits : ℕ → ℕ → ℤ
of_bits k n = if ltb n (2 ^ k) then pos n else negsuc (2 ^ suc k - 1 - n)

-- A value of a signed integer type of k + 1 bits.
unfoldable pub IsSigned : ℕ → ℤ → Type 0
IsSigned k (pos n) = n < 2 ^ k
IsSigned k (negsuc n) = n < 2 ^ k

-- co_await r(dst, n)
abbrev pub read : ℕ → Bytes → Option (Bytes × Bytes)
read n input = if leb n (length input) then some (take n input, drop n input) else none

-- co_await r(nullptr, n): BlobCursor::skip adds n to the offset and tests nothing. Behind the end no
-- byte is left. An offset that would pass 2^64 is not modelled.
abbrev pub skip : ℕ → Bytes → Option Bytes
skip n input = some (drop n input)

abbrev pub read_uint : ℕ → Bytes → Option (ℕ × Bytes)
read_uint n input = do (bytes, rest) ← read n input; some (from_le bytes, rest)

pub length-le : (n x : ℕ) → length (le n x) ≡ n
length-le zero x = refl
length-le (suc n) x = ap suc (length-le n (x / 256))

pub from_le-le : (n x : ℕ) → x < 256 ^ n → from_le (le n x) ≡ x
from_le-le zero x h = omega (arith, h)
from_le-le (suc n) x h =
    let power : 256 ^ suc n ≡ 256 * 256 ^ n = omega arith in
    omega (arith, from_le-le n (x / 256) (omega (arith, h, power)))

pub read-append :
    (bytes rest : Bytes) (n : ℕ) → length bytes ≡ n → read n (bytes ++ rest) ≡ some (bytes, rest)
read-append bytes rest n l =
    let enough : leb n (length (bytes ++ rest)) ≡ true =
      le→leb n _ (omega (arith, l, length-append bytes rest)) in
    rw
      (
        sym l,
        ap (λ m. leb m (length (bytes ++ rest))) l ∙ enough,
        take-length-append bytes rest,
        drop-length-append bytes rest,
      )
      refl

pub read_uint-le :
    (n x : ℕ) (rest : Bytes) → x < 256 ^ n → read_uint n (le n x ++ rest) ≡ some (x, rest)
read_uint-le n x rest h = rw (read-append (le n x) rest n (length-le n x), from_le-le n x h) refl

pub of_bits-to_bits : (k : ℕ) (z : ℤ) → IsSigned k z → of_bits k (to_bits k z) ≡ z
unfolding IsSigned
of_bits-to_bits k (pos n) h = ground (arith, h)
of_bits-to_bits k (negsuc n) h =
    let power : 2 ^ suc k ≡ 2 ^ k + 2 ^ k = omega arith in
    let high : ltb (2 ^ suc k - 1 - n) (2 ^ k) ≡ false = ground (arith, h, power) in
    let back : 2 ^ suc k - 1 - (2 ^ suc k - 1 - n) ≡ n = omega (arith, h, power) in
    rw (high, back) refl

pub to_bits-bound : (k : ℕ) (z : ℤ) → IsSigned k z → to_bits k z < 2 ^ suc k
unfolding IsSigned
to_bits-bound k (pos n) h =
    let power : 2 ^ suc k ≡ 2 ^ k + 2 ^ k = omega arith in omega (arith, h, power)
to_bits-bound k (negsuc n) h =
    let power : 2 ^ suc k ≡ 2 ^ k + 2 ^ k = omega arith in omega (arith, h, power)
