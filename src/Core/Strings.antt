-- ===== src/Core/Strings.antt =====
-- core/base/string.cpp: comparison and search. A String8 is a list of bytes, and a C string the list
-- of its bytes before the zero.
pub mod Laws
mod Runs
use plexdb.Prelude.{
  ℕ, zero, suc, ◌+◌, ◌-◌, Bool, true, false, Option, none, some, List, [], ◌∷◌, ◌==◌, ltb,
  if◌then◌else◌, length, drop,
}
use plexdb.Core.Text.{Bytes}

-- for (i = 0; i < b.length; i++) if (a.data[i] != b.data[i]) return false;
pub eq_bytes : Bytes → Bytes → Bool
eq_bytes a [] = true
eq_bytes [] (y ∷ b) = false
eq_bytes (x ∷ a) (y ∷ b) = let rest = eq_bytes a b in if x == y then rest else false

-- operator==(const String8&, const String8&)
pub string_eq : Bytes → Bytes → Bool
unfolding eq_bytes
string_eq a b = if length a == length b then eq_bytes a b else false

-- operator==(const char*, const String8&)
pub c_str_eq : Bytes → Bytes → Bool
c_str_eq a [] = true
c_str_eq [] (y ∷ b) = false
c_str_eq (x ∷ a) (y ∷ b) = let rest = c_str_eq a b in if x == y then rest else false

pub find_char : Bytes → ℕ → Option ℕ
find_char [] c = none
find_char (x ∷ str) c =
    let rest = find_char str c in
    if x == c then some 0 else elim rest [ none ↦ none | some i ↦ some (i + 1) ]

-- The inner loop of contains, from a place of the haystack on.
pub matches_here : Bytes → Bytes → Bool
matches_here haystack [] = true
matches_here [] (y ∷ needle) = false
matches_here (x ∷ haystack) (y ∷ needle) =
    let rest = matches_here haystack needle in if x == y then rest else false

-- The outer loop, with the number of places behind this one.
pub contains_loop : ℕ → Bytes → Bytes → Bool
unfolding matches_here
contains_loop zero haystack needle = matches_here haystack needle
contains_loop (suc places) haystack needle =
    let rest = contains_loop places (drop 1 haystack) needle in
    if matches_here haystack needle then true else rest

pub contains : Bytes → Bytes → Bool
unfolding contains_loop
contains haystack needle =
    if ltb (length haystack) (length needle)
    then false
    else contains_loop (length haystack - length needle) haystack needle
