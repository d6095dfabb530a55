-- ===== src/Keyvalue/Outcome.antt =====
-- How a part of a request is read: keyvalue/parsers/parsers.cppm, ParseResult, with the two ways
-- in which the code gives no result at all.
use plexdb.Prelude.{◌≡◌, refl}

pub data Outcome {ℓ} (A : Type ℓ) : Type ℓ where
  ok : A → Outcome A
  -- ParseResult::Incomplete: more bytes are needed.
  incomplete : Outcome A
  -- ParseResult::Error
  error : Outcome A
  -- A signed 64-bit addition or multiplication overflows: the behaviour is undefined.
  undefined : Outcome A
  -- assert_not_implemented: the process is stopped.
  not_implemented : Outcome A

module _ {ℓ κ} {A : Type ℓ} {B : Type κ} where
  infixl 5 ◌>>=◌
  abbrev pub ◌>>=◌ : Outcome A → (A → Outcome B) → Outcome B
  incomplete >>= next = incomplete
  error >>= next = error
  undefined >>= next = undefined
  not_implemented >>= next = not_implemented
  ok value >>= next = next value

  -- What a successful chain passed through.
  pub >>=-eq-ok :
      {result : B} (first : Outcome A) (next : A → Outcome B)
      → (first >>= next) ≡ ok result
      → (value : A) × (first ≡ ok value) × (next value ≡ ok result)
  >>=-eq-ok incomplete next h = cc
  >>=-eq-ok error next h = cc
  >>=-eq-ok undefined next h = cc
  >>=-eq-ok not_implemented next h = cc
  >>=-eq-ok (ok value) next h = (value, refl, h)
