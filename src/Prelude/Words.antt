-- ===== src/Prelude/Words.antt =====
-- Words of 64 bits as native numbers, and exclusive or with the bit of a power of two.
use Prim.Native.Nat.{
  ℕ, zero, suc, ◌+◌, ◌-◌, ◌*◌, ◌/◌, ◌%◌, ◌^◌, ◌≤◌, ◌<◌, bit_or, bit_or-bitwise, max, bit_xor,
  bit_xor-bitwise, digits, differ,
}
use mathlib.Core.Path.{◌≡◌, refl, ap, sym, ◌∙◌}
use native.Mathlib.Nat.{mul_assoc, div-div-eq-div-mul}
use native.Mathlib.Omega.{arith}
use plexdb.Prelude.Tests.{ltb, ◌==◌, if◌then◌else◌}

abbrev pub add64 : ℕ → ℕ → ℕ
add64 a b = (a + b) % 2 ^ 64

abbrev pub mul64 : ℕ → ℕ → ℕ
mul64 a b = a * b % 2 ^ 64

abbrev pub shl64 : ℕ → ℕ → ℕ
shl64 a k = a * 2 ^ k % 2 ^ 64

abbrev pub shr : ℕ → ℕ → ℕ
shr a k = a / 2 ^ k

-- The low digit of a bit operation that leaves the second number as it is beside a 0.
module _ (op : ℕ → ℕ → ℕ) (beside_zero : (d : ℕ) → op 0 d ≡ d) where
  walk : ℕ → ℕ → ℕ → ℕ
  walk = digits (λ rest. rest) op

  -- One more round than the first number needs changes nothing, and neither do more.
  walk_spare : (count x y : ℕ) → x ≤ count → walk (suc count) x y ≡ walk count x y
  unfolding walk
  walk_spare zero zero y enough = refl
  walk_spare (suc count) zero y enough = refl
  walk_spare zero (suc x) y enough = absurd (omega (arith, enough))
  walk_spare (suc count) (suc x) y enough =
      omega (arith, walk_spare count (suc x / 2) (y / 2) (omega (arith, enough)))

  walk_spares : (spare x y : ℕ) → walk (x + spare) x y ≡ walk x x y
  walk_spares zero x y = let none : x + 0 ≡ x = omega arith in rw none refl
  walk_spares (suc spare) x y =
      let next : x + suc spare ≡ suc (x + spare) = omega arith in
      rw next (walk_spare (x + spare) x y (omega arith) ∙ walk_spares spare x y)

  low_digit : (x y : ℕ) → walk x x y ≡ walk (x / 2) (x / 2) (y / 2) * 2 + op (x % 2) (y % 2)
  unfolding walk
  low_digit zero y = omega (arith, beside_zero (y % 2))
  low_digit (suc x) y =
      let rounds : x ≡ suc x / 2 + (x - suc x / 2) = omega arith in
      let half : walk x (suc x / 2) (y / 2) ≡ walk (suc x / 2) (suc x / 2) (y / 2) =
        ap (λ count. walk count (suc x / 2) (y / 2)) rounds
        ∙ walk_spares (x - suc x / 2) (suc x / 2) (y / 2) in
      omega (arith, half)

bit_xor_step : (a b : ℕ) → bit_xor a b ≡ bit_xor (a / 2) (b / 2) * 2 + differ (a % 2) (b % 2)
unfolding walk
bit_xor_step a b =
    omega (
      arith,
      bit_xor-bitwise a b,
      bit_xor-bitwise (a / 2) (b / 2),
      low_digit differ (λ d. refl) a b,
    )

zero-bit_or : (b : ℕ) → bit_or 0 b ≡ b
zero-bit_or b = bit_or-bitwise 0 b

bit_or_step : (a b : ℕ) → bit_or a b ≡ bit_or (a / 2) (b / 2) * 2 + max (a % 2) (b % 2)
unfolding walk
bit_or_step a b = omega (
  arith,
  bit_or-bitwise a b,
  bit_or-bitwise (a / 2) (b / 2),
  low_digit max (λ d. omega arith) a b,
)

bit_or-zero_fuel : (n a : ℕ) → a ≤ n → bit_or a 0 ≡ a
bit_or-zero_fuel n zero h = refl
bit_or-zero_fuel zero (suc a) h = absurd (omega arith)
bit_or-zero_fuel (suc n) (suc a) h =
    omega (arith, bit_or_step (suc a) 0, bit_or-zero_fuel n (suc a / 2) (omega arith))

-- A number below 2 ^ k put into the k zero bits at the end of another.
pub bit_or-shift : (k n b : ℕ) → b < 2 ^ k → bit_or (n * 2 ^ k) b ≡ n * 2 ^ k + b
bit_or-shift zero n b h =
    let none : b ≡ 0 = omega (arith, h) in
    let same : n * 2 ^ 0 ≡ n = omega arith in
    rw (none, same) (bit_or-zero_fuel n n (omega arith) ∙ omega arith)
bit_or-shift (suc k) n b h =
    let power : 2 ^ suc k ≡ 2 ^ k * 2 = omega arith in
    let double : n * 2 ^ suc k ≡ n * 2 ^ k * 2 = rw power (sym (mul_assoc n (2 ^ k) 2)) in
    let half : n * 2 ^ suc k / 2 ≡ n * 2 ^ k = omega (arith, double) in
    let even : n * 2 ^ suc k % 2 ≡ 0 = omega (arith, double) in
    omega (
      arith,
      bit_or_step (n * 2 ^ suc k) b,
      ap (λ x. bit_or x (b / 2)) half,
      bit_or-shift k n (b / 2) (omega (arith, h)),
      double,
      even,
    )

differ-zero : (a : ℕ) → differ a 0 ≡ a
differ-zero zero = refl
differ-zero (suc a) = refl

bit_xor-zero_fuel : (n a : ℕ) → a ≤ n → bit_xor a 0 ≡ a
bit_xor-zero_fuel n zero h = refl
bit_xor-zero_fuel zero (suc a) h = absurd (omega arith)
bit_xor-zero_fuel (suc n) (suc a) h = omega (
  arith,
  bit_xor_step (suc a) 0,
  differ-zero (suc a % 2),
  bit_xor-zero_fuel n (suc a / 2) (omega arith),
)

abbrev pub flip : ℕ → ℕ → ℕ
flip p n = if ltb n p then n + p else n - p

bit_xor_one : (n : ℕ) → n < 2 → bit_xor n 1 ≡ flip 1 n
bit_xor_one zero h = refl
bit_xor_one (suc zero) h = refl
bit_xor_one (suc (suc n)) h = absurd (omega (arith, h))

-- Exclusive or with the top bit of a word of k + 1 bits.
pub bit_xor-top : (k n : ℕ) → n < 2 ^ (suc k) → bit_xor n (2 ^ k) ≡ flip (2 ^ k) n
bit_xor-top zero n h = bit_xor_one n (omega (arith, h))
bit_xor-top (suc k) n h =
    let double : 2 ^ suc k ≡ 2 * 2 ^ k = omega arith in
    let half : 2 ^ suc k / 2 ≡ 2 ^ k = omega arith in
    let even : 2 ^ suc k % 2 ≡ 0 = omega arith in
    let below : n / 2 < 2 ^ suc k = omega (arith, h) in
    let step : bit_xor n (2 ^ suc k) ≡ flip (2 ^ k) (n / 2) * 2 + n % 2 =
      bit_xor_step n (2 ^ suc k)
      ∙ rw (half, even, differ-zero (n % 2), bit_xor-top k (n / 2) below) refl in
    step ∙ ground (arith, double)

-- The binary digit of place j.
abbrev pub bit_at : ℕ → ℕ → ℕ
bit_at zero n = n % 2
bit_at (suc j) n = bit_at j (n / 2)

pub shr-bit_at : (j n : ℕ) → shr n j % 2 ≡ bit_at j n
shr-bit_at zero n = omega arith
shr-bit_at (suc j) n =
    let power : 2 ^ suc j ≡ 2 * 2 ^ j = omega arith in
    rw (power, sym (div-div-eq-div-mul n 2 (2 ^ j))) (shr-bit_at j (n / 2))

pub bit_at-bit_or : (j a b : ℕ) → bit_at j (bit_or a b) ≡ max (bit_at j a) (bit_at j b)
bit_at-bit_or zero a b = omega (arith, bit_or_step a b)
bit_at-bit_or (suc j) a b =
    let half : bit_or a b / 2 ≡ bit_or (a / 2) (b / 2) = omega (arith, bit_or_step a b) in
    rw half (bit_at-bit_or j (a / 2) (b / 2))

pub bit_at-none : (j : ℕ) → bit_at j 0 ≡ 0
bit_at-none zero = refl
bit_at-none (suc j) = bit_at-none j

power_even : (k : ℕ) → 2 ^ suc k % 2 ≡ 0
power_even k = omega arith

pub bit_at-power : (j k : ℕ) → bit_at j (2 ^ k) ≡ (if j == k then 1 else 0)
bit_at-power zero zero = refl
bit_at-power zero (suc k) = ground (arith, power_even k)
bit_at-power (suc j) zero = ground (arith, bit_at-none j)
bit_at-power (suc j) (suc k) =
    let half : 2 ^ suc k / 2 ≡ 2 ^ k = omega arith in rw half (bit_at-power j k ∙ ground arith)

pub bit_or-bound : (k a b : ℕ) → a < 2 ^ k → b < 2 ^ k → bit_or a b < 2 ^ k
bit_or-bound zero a b h h' = let none : a ≡ 0 = omega (arith, h) in rw (none, zero-bit_or b) h'
bit_or-bound (suc k) a b h h' =
    omega (
      arith,
      bit_or_step a b,
      bit_or-bound k (a / 2) (b / 2) (omega (arith, h)) (omega (arith, h')),
    )
