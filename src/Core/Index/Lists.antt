-- ===== src/Core/Index/Lists.antt =====
-- Pairs in the order of their keys: what an index is to its clients.
use plexdb.Prelude.{
  ℕ, zero, drop, ◌∙◌, suc, ◌≤◌, ◌<◌, ◌≡◌, refl, none, some, List, [], ◌∷◌, ◌==◌, ltb, if◌then◌else◌,
  arith, All, Bool-cases, length, ◌+◌, ltb→lt, lt→ltb, sym, inl, inr,
}
use plexdb.Core.DynamicMap.Bucket.{lookup}

abbrev pub Pairs : Type 0
Pairs = List (ℕ × ℕ)

-- Every key is above `low`, and each above the one before it.
abbrev pub Above : ℕ → Pairs → Type 0
Above low [] = Unit {0}
Above low ((k, v) ∷ ps) = (low ≤ k) × Above (suc k) ps

abbrev pub Ascending : Pairs → Type 0
Ascending ps = Above 0 ps

unfoldable pub from_key : ℕ → Pairs → Pairs
from_key key [] = []
from_key key ((k, v) ∷ ps) = let rest = from_key key ps in if ltb k key then rest else (k, v) ∷ ps

unfoldable pub insert_pair : ℕ → ℕ → Pairs → Pairs
insert_pair key value [] = (key, value) ∷ []
insert_pair key value ((k, v) ∷ ps) =
    let rest = insert_pair key value ps in
    if ltb k key then (k, v) ∷ rest else (key, value) ∷ (k, v) ∷ ps

unfoldable pub remove_pair : ℕ → Pairs → Pairs
remove_pair key [] = []
remove_pair key ((k, v) ∷ ps) =
    let rest = remove_pair key ps in if k == key then ps else (k, v) ∷ rest

pub lookup-insert_pair :
    (key value j : ℕ) (ps : Pairs)
    → lookup key ps ≡ none
    → lookup j (insert_pair key value ps) ≡ (if key == j then some value else lookup j ps)
unfolding lookup insert_pair
lookup-insert_pair key value j [] h = refl
lookup-insert_pair key value j ((k, v) ∷ ps) h = ground (arith, lookup-insert_pair key value j ps)

pub Above-weaken : (low low' : ℕ) (ps : Pairs) → low' ≤ low → Above low ps → Above low' ps
Above-weaken low low' [] h a = tt
Above-weaken low low' ((k, v) ∷ ps) h (le, a) = (omega arith, a)

pub lookup-below : (low j : ℕ) (ps : Pairs) → Above low ps → j < low → lookup j ps ≡ none
unfolding lookup
lookup-below low j [] a h = refl
lookup-below low j ((k, v) ∷ ps) (le, a) h = ground (arith, lookup-below (suc k) j ps a)

pub lookup-remove_pair :
    (low key j : ℕ) (ps : Pairs)
    → Above low ps
    → lookup j (remove_pair key ps) ≡ (if key == j then none else lookup j ps)
unfolding lookup remove_pair
lookup-remove_pair low key j [] a = ground arith
lookup-remove_pair low key j ((k, v) ∷ ps) (le, a) =
    ground (arith, lookup-remove_pair (suc k) key j ps a, lookup-below (suc k) j ps a)

pub insert_pair-Above :
    (low key value : ℕ) (ps : Pairs)
    → low ≤ key
    → lookup key ps ≡ none
    → Above low ps
    → Above low (insert_pair key value ps)
unfolding lookup insert_pair
insert_pair-Above low key value [] h n a = (h, tt)
insert_pair-Above low key value ((k, v) ∷ ps) h n (le, a) = elim (Bool-cases (ltb k key)) [
  | inl lt ↦ rw lt (le, insert_pair-Above (suc k) key value ps (ltb→lt k key lt) (ground arith) a)
  | inr ge ↦ rw ge (h, (ground arith, a))
]

pub remove_pair-Above : (low key : ℕ) (ps : Pairs) → Above low ps → Above low (remove_pair key ps)
unfolding remove_pair
remove_pair-Above low key [] a = tt
remove_pair-Above low key ((k, v) ∷ ps) (le, a) = elim (Bool-cases (k == key)) [
  | inl eq ↦ rw eq (Above-weaken (suc k) low ps (omega arith) a)
  | inr ne ↦ rw ne (le, remove_pair-Above (suc k) key ps a)
]

listed :
    (low : ℕ) (all ps : Pairs)
    → Above low ps
    → ((j : ℕ) → low ≤ j → lookup j all ≡ lookup j ps)
    → All (λ (p : ℕ × ℕ). lookup p.0 all ≡ some p.1) ps
unfolding lookup
listed low all [] a same = tt
listed low all ((k, v) ∷ ps) (le, a) same = (
  same k le ∙ ground arith,
  listed (suc k) all ps a (λ j le'. same j (omega arith) ∙ ground arith),
)

-- Each pair of an ascending list is found under its key.
pub Ascending-listed :
    (ps : Pairs) → Ascending ps → All (λ (p : ℕ × ℕ). lookup p.0 ps ≡ some p.1) ps
Ascending-listed ps a = listed 0 ps ps a (λ j le. refl)

Above-drop : (low n h v : ℕ) (ps rest : Pairs) → Above low ps → drop n ps ≡ (h, v) ∷ rest → low ≤ h
Above-drop low zero h v [] rest a e = ground (arith, e)
Above-drop low (suc n) h v [] rest a e = ground (arith, e)
Above-drop low zero h v ((k, w) ∷ ps) rest (le, a) e = ground (arith, e)
Above-drop low (suc n) h v ((k, w) ∷ ps) rest (le, a) e =
    omega (arith, Above-drop (suc k) n h v ps rest a e)

from_key-at :
    (low n h v : ℕ) (ps rest : Pairs)
    → Above low ps
    → drop n ps ≡ (h, v) ∷ rest
    → from_key h ps ≡ (h, v) ∷ rest
unfolding from_key
from_key-at low zero h v [] rest a e = ground (arith, e)
from_key-at low (suc n) h v [] rest a e = ground (arith, e)
from_key-at low zero h v ((k, w) ∷ ps) rest (le, a) e = ground (arith, e)
from_key-at low (suc n) h v ((k, w) ∷ ps) rest (le, a) e =
    let above : suc k ≤ h = Above-drop (suc k) n h v ps rest a e in
    rw (lt→ltb k h (omega arith)) (from_key-at (suc k) n h v ps rest a e)

-- What is left of the list behind `n` pairs is found again by the key that it begins with.
pub from_key-drop :
    (n h v : ℕ) (ps rest : Pairs)
    → Ascending ps
    → drop n ps ≡ (h, v) ∷ rest
    → from_key h ps ≡ drop n ps
from_key-drop n h v ps rest a e = from_key-at 0 n h v ps rest a e ∙ sym e

pub length-insert_pair :
    (key value : ℕ) (ps : Pairs) → length (insert_pair key value ps) ≡ length ps + 1
unfolding insert_pair
length-insert_pair key value [] = refl
length-insert_pair key value ((k, v) ∷ ps) = ground (arith, length-insert_pair key value ps)

pub length-remove_pair :
    (key v : ℕ) (ps : Pairs) → lookup key ps ≡ some v → length ps ≡ length (remove_pair key ps) + 1
unfolding lookup remove_pair
length-remove_pair key v [] h = ground (arith, h)
length-remove_pair key v ((k, w) ∷ ps) h = ground (arith, h, length-remove_pair key v ps)
