-- ===== src/Keyvalue/Glob/Runs.antt =====
-- Runs of the matcher, and its theorems at concrete inputs.
use plexdb.Prelude.{ℕ, ◌≡◌, refl, true, false, false, some, List, [], ◌∷◌, arith}
use plexdb.Keyvalue.Glob.{match}
use plexdb.Keyvalue.Glob.Spec.{matches}
use plexdb.Keyvalue.Glob.Correct.{match-matches}
use plexdb.Keyvalue.Glob.LiteralStar.{match_literal_star}

-- "user:1" against "u*r:?".
abbrev user : List ℕ
user = b'u' ∷ b's' ∷ b'e' ∷ b'r' ∷ b':' ∷ b'1' ∷ []

abbrev pattern : List ℕ
pattern = b'u' ∷ b'*' ∷ b'r' ∷ b':' ∷ b'?' ∷ []

match-user : match user pattern ≡ some true
unfolding match
match-user = refl

match_no_user : match user (b'*' ∷ b'2' ∷ []) ≡ some false
unfolding match
match_no_user = refl

match-matches_example : match user pattern ≡ some (matches pattern user)
match-matches_example = match-matches user pattern (omega arith)

-- "*ab" against "*b".
match_literal_star_example :
    (match (b'*' ∷ b'a' ∷ b'b' ∷ []) (b'*' ∷ b'b' ∷ []) ≡ some false)
    × (matches (b'*' ∷ b'b' ∷ []) (b'*' ∷ b'a' ∷ b'b' ∷ []) ≡ true)
unfolding matches
match_literal_star_example =
    match_literal_star b'a' b'b' (b'b' ∷ []) [] (omega arith) (omega arith) (omega arith) refl
