-- ===== src/Core/Strings/Runs.antt =====
-- Comparisons and searches at concrete strings.
use plexdb.Prelude.{◌≡◌, ◌↔◌, refl, true, some, ◌++◌}
use plexdb.Core.Text.{Bytes, bytes}
use plexdb.Core.Strings.{c_str_eq, find_char, contains}
use plexdb.Core.Strings.Laws.{c_str_eq_iff, contains_iff}

-- The C string "abc" and the String8 "ab".
c_str_eq_iff_example :
    (c_str_eq (bytes "abc") (bytes "ab") ≡ true)
    ↔ ((rest : Bytes) × (bytes "abc" ≡ bytes "ab" ++ rest))
c_str_eq_iff_example = c_str_eq_iff (bytes "abc") (bytes "ab")

contains_iff_example :
    (contains (bytes "abc") (bytes "bc") ≡ true)
    ↔ ((before : Bytes) × (rest : Bytes) × (bytes "abc" ≡ before ++ (bytes "bc" ++ rest)))
contains_iff_example = contains_iff (bytes "abc") (bytes "bc")

find_b : find_char (bytes "abcb") b'b' ≡ some 1
unfolding find_char
find_b = refl
