-- ===== src/Core/Text.antt =====
-- core/base/string.cpp. A String8 and an AutoString8 are lists of bytes. The formatting and the
-- reading of numbers are calls of stb_sprintf and of the C library, and the hash is xxHash: these
-- are fields of `External`, with what their documentation says as laws.
pub mod Sample
use Prim.Native.Char.{code}
use Prim.Native.String.{String}
use plexdb.Prelude.{
  ℕ, zero, suc, ◌+◌, ◌-◌, ◌*◌, ◌^◌, ◌<◌, Bool, true, false, ◌&&◌, List, [], ◌∷◌, ◌++◌, ◌==◌, leb,
  ltb, if◌then◌else◌, length, All, ◌≡◌, ◌≤◌, arith,
}
use plexdb.Prelude.Int.{ℤ, pos, negsuc}

abbrev pub Bytes : Type 0
Bytes = List ℕ

-- The bytes of a text literal of the program.
abbrev pub bytes : String → Bytes
bytes String.[] = []
bytes (String.◌∷◌ c s) = code c ∷ bytes s

abbrev pub IsDigit : ℕ → Type 0
IsDigit c = (b'0' ≤ c) × (c ≤ b'9')

-- The number that a row of decimal digits stands for, behind the digits of `r`.
abbrev pub digits_value : ℕ → Bytes → ℕ
digits_value r [] = r
digits_value r (c ∷ cs) = digits_value (r * 10 + (c - b'0')) cs

-- The text is `n` in decimal: one digit at least, and nothing else.
pub record IsDecimal (n : ℕ) (ds : Bytes) : Type 0 where
  pub digits : All IsDigit ds
  pub some_digit : 0 < length ds
  pub value : digits_value 0 ds ≡ n

pub record External : Type 0 where
  -- XXHash64::hash(s.data, s.length, 0)
  pub xxhash64 : Bytes → ℕ
  pub xxhash64_bound : (s : Bytes) → xxhash64 s < 2 ^ 64
  -- fmt("%" PRIu64, x) and fmt("%" PRIi64, x)
  pub print_u64 : ℕ → Bytes
  pub print_u64-IsDecimal : (n : ℕ) → IsDecimal n (print_u64 n)
  pub print_s64 : ℤ → Bytes
  pub print_s64-IsDecimal : (n : ℕ) → IsDecimal n (print_s64 (pos n))
  pub print_s64_negative : (n : ℕ) → print_s64 (negsuc n) ≡ b'-' ∷ print_u64 (n + 1)
  -- strtoull(s, nullptr, 10)
  pub strtoull : Bytes → ℕ
  pub strtoull_decimal : (n : ℕ) (s : Bytes) → IsDecimal n s → n < 2 ^ 64 → strtoull s ≡ n

-- U64 hash(String8): the hash, with 0 replaced by 1 (`result | (result == 0)`).
unfoldable pub hash : External → Bytes → ℕ
hash e s = let result = e.xxhash64 s in if result == 0 then 1 else result

-- U64 u64_from_str(String8)
abbrev pub u64_from_str : External → Bytes → ℕ
u64_from_str e s = e.strtoull s

-- A cast of a U64 to S64.
abbrev pub to_s64 : ℕ → ℤ
to_s64 n = if ltb n (2 ^ 63) then pos n else negsuc (2 ^ 64 - 1 - n)

-- The hash is never 0, which the engine uses as the cursor of a scan that has ended.
pub hash-bounds : (e : External) (s : Bytes) → (0 < hash e s) × (hash e s < 2 ^ 64)
unfolding hash
hash-bounds e s = ground (arith, e.xxhash64_bound s)
