-- ===== src/Core/Le64.antt =====
-- A U64 in memory, low byte first, as reinterpret_cast<const U8*> shows it.
use plexdb.Prelude.{ℕ, ◌+◌, ◌*◌, ◌/◌, ◌%◌, ◌^◌, ◌<◌, ◌≡◌, refl, [], ◌∷◌, length, arith}
use plexdb.Core.Text.{Bytes}

pub le64 : ℕ → Bytes
le64 n =
    n % 256
    ∷ n / 2 ^ 8 % 256
    ∷ n / 2 ^ 16 % 256
    ∷ n / 2 ^ 24 % 256
    ∷ n / 2 ^ 32 % 256
    ∷ n / 2 ^ 40 % 256
    ∷ n / 2 ^ 48 % 256
    ∷ n / 2 ^ 56 % 256
    ∷ []

-- memory_copy of eight bytes into a U64.
pub from_le64 : Bytes → ℕ
from_le64 (a ∷ b ∷ c ∷ d ∷ e ∷ f ∷ g ∷ h ∷ []) =
    a + 2 ^ 8 * b + 2 ^ 16 * c + 2 ^ 24 * d + 2 ^ 32 * e + 2 ^ 40 * f + 2 ^ 48 * g + 2 ^ 56 * h
from_le64 other = 0

pub length-le64 : (n : ℕ) → length (le64 n) ≡ 8
unfolding le64
length-le64 n = refl

-- A number of 64 bits is read back from its eight bytes, low byte first.
pub from_le64-le64 : (n : ℕ) → n < 2 ^ 64 → from_le64 (le64 n) ≡ n
unfolding from_le64 le64
from_le64-le64 n h = omega arith
