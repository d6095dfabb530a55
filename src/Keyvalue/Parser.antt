-- ===== src/Keyvalue/Parser.antt =====
-- keyvalue/parsers/parsers.cpp: from the bytes that a connection has received to a statement. The
-- pointer `p` with its `end` is the list of the bytes between the two.
pub mod Args
pub mod Prefixes
pub mod Stream
pub mod Numbers
mod Runs
use plexdb.Prelude.{
  ℕ, zero, suc, ◌+◌, ◌-◌, ◌*◌, ◌^◌, Bool, true, false, ◌&&◌, ◌||◌, Option, none, some, List, [],
  ◌∷◌, ◌++◌, ◌==◌, leb, ltb, if◌then◌else◌, length, take, drop,
}
use plexdb.Prelude.Int.{ℤ, pos, negsuc, neg}
use plexdb.Core.Text.{Bytes, External}
use plexdb.Keyvalue.Outcome.{Outcome, ok, incomplete, error, undefined, ◌>>=◌}
use plexdb.Keyvalue.Statement.{Statement}
use Args.{build_from_args}

-- find_crlf: the bytes before the first CR LF, and those behind it.
unfoldable pub find_crlf : Bytes → Option (Bytes × Bytes)
find_crlf [] = none
find_crlf (x ∷ []) = none
find_crlf (x ∷ y ∷ p) =
    let rest = find_crlf (y ∷ p) in
    if x == b'\r' && y == b'\n'
    then some ([], p)
    else elim rest [ none ↦ none | some (line, behind) ↦ some (x ∷ line, behind) ]

pub data Decimal : Type 0 where
  value : ℤ → Decimal
  -- parse_decimal returns false.
  malformed : Decimal
  -- r * 10 + digit does not fit an S64: undefined behaviour.
  overflow : Decimal

unfoldable pub parse_digits : Bytes → ℕ → Bool → Decimal
parse_digits [] r negative = value (if negative then neg r else pos r)
parse_digits (c ∷ p) r negative =
    let r' = r * 10 + (c - b'0') in
    let rest = parse_digits p r' negative in
    if ltb c b'0' || ltb b'9' c then malformed else if ltb r' (2 ^ 63) then rest else overflow

unfoldable pub parse_unsigned : Bytes → Bool → Decimal
unfolding parse_digits
parse_unsigned [] negative = malformed
parse_unsigned (c ∷ p) negative = parse_digits (c ∷ p) 0 negative

unfoldable pub parse_decimal : Bytes → Decimal
unfolding parse_unsigned
parse_decimal [] = malformed
parse_decimal (c ∷ p) = if c == b'-' then parse_unsigned p true else parse_unsigned (c ∷ p) false

-- A length or a count: `!parse_decimal(p, eol, &n) || n < 0` is an error.
unfoldable pub natural : Decimal → Outcome ℕ
natural (value (pos n)) = ok n
natural (value (negsuc n)) = error
natural malformed = error
natural overflow = undefined

unfoldable pub read_header : Option (Bytes × Bytes) → Outcome (ℕ × Bytes)
unfolding natural parse_decimal
read_header none = incomplete
read_header (some (line, behind)) = natural (parse_decimal line) >>= λ n. ok (n, behind)

-- The line that gives a count or a length, and what stands behind it.
unfoldable pub header : Bytes → Outcome (ℕ × Bytes)
unfolding find_crlf read_header
header p = read_header (find_crlf p)

-- One round of the loop over the arguments.
unfoldable pub bulk_body : ℕ → Bytes → Outcome (Bytes × Bytes)
bulk_body n p = if leb (n + 2) (length p) then ok (take n p, drop (n + 2) p) else incomplete

unfoldable pub bulk : Bytes → Outcome (Bytes × Bytes)
unfolding header bulk_body
bulk [] = error
bulk (c ∷ p) = if c == b'$' then (do (n, body) ← header p; bulk_body n body) else error

unfoldable pub bulks : ℕ → Bytes → Outcome (List Bytes × Bytes)
unfolding bulk
bulks zero p = ok ([], p)
bulks (suc count) p = do
  (arg, behind) ← bulk p
  (args, end) ← bulks count behind
  ok (arg ∷ args, end)

-- The arguments of a request in array form, from behind its `*`.
unfoldable pub array_args : Bytes → Outcome (List Bytes × Bytes)
unfolding header bulks
array_args p = do (count, behind) ← header p; bulks count behind

unfoldable pub blank : ℕ → Bool
blank c = c == b' ' || c == b'\t'

-- The loops of parse_inline: outside a token, or inside one with the bytes that it has so far.
unfoldable pub tokens : Option Bytes → Bytes → List Bytes
unfolding blank
tokens none [] = []
tokens (some token) [] = token ∷ []
tokens none (c ∷ p) = tokens (if blank c then none else some (c ∷ [])) p
tokens (some token) (c ∷ p) =
    let outside = tokens none p in
    let inside = tokens (some (token ++ (c ∷ []))) p in if blank c then token ∷ outside else inside

module _ (e : External) where
  -- The statement, and *consumed.
  unfoldable pub parse_resp_array : Bytes → Outcome (Statement × ℕ)
  unfolding array_args build_from_args
  parse_resp_array buffer = do
    (args, end) ← array_args (drop 1 buffer)
    statement ← build_from_args e args
    ok (statement, length buffer - length end)

  unfoldable pub parse_line : List Bytes → ℕ → Outcome (Statement × ℕ)
  unfolding build_from_args
  parse_line [] consumed = error
  parse_line (verb ∷ args) consumed = do
    statement ← build_from_args e (verb ∷ args)
    ok (statement, consumed)

  unfoldable pub parse_inline_line : Option (Bytes × Bytes) → Outcome (Statement × ℕ)
  unfolding tokens parse_line
  parse_inline_line none = incomplete
  parse_inline_line (some (line, behind)) = parse_line (tokens none line) (length line + 2)

  unfoldable pub parse_inline : Bytes → Outcome (Statement × ℕ)
  unfolding find_crlf parse_inline_line
  parse_inline buffer = parse_inline_line (find_crlf buffer)

  unfoldable pub parse : Bytes → Outcome (Statement × ℕ)
  unfolding parse_resp_array parse_inline
  parse [] = incomplete
  parse (c ∷ buffer) =
      if c == b'*' then parse_resp_array (c ∷ buffer) else parse_inline (c ∷ buffer)
