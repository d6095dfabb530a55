-- ===== src/Core/DynamicMap/Runs.antt =====
-- Runs of the table, and its theorems at concrete inputs.
use plexdb.Prelude.{
  ℕ, zero, suc, ◌+◌, ◌≡◌, ◌<◌, length, refl, none, some, arith, ◌==◌, if◌then◌else◌,
}
use plexdb.Core.DynamicMap.{DynamicMap, find, insert, remove, rehash, empty}
use plexdb.Core.DynamicMap.Valid.{IsValid}
use plexdb.Core.DynamicMap.Rehash.{rehash_lem}
use plexdb.Core.DynamicMap.Laws.{insert_lem, remove_lem, empty_lem, is_some}

-- Enough keys with one hash modulo 4 to make the table grow.
fill : ℕ → DynamicMap ℕ → DynamicMap ℕ
unfolding insert
fill zero m = m
fill (suc n) m = insert (fill n m) (n + n + n + n) n

grown : find (fill 7 empty) 24 ≡ some 6
unfolding fill find
grown = refl

pruned : find (remove (fill 7 empty) 8).0 8 ≡ none
unfolding fill find remove
pruned = refl

fill-IsValid : (n : ℕ) → IsValid (fill n empty)
unfolding fill
fill-IsValid zero = empty_lem.0
fill-IsValid (suc n) = (insert_lem (fill n empty) (n + n + n + n) n (fill-IsValid n)).0

insert_lem_example :
    IsValid (insert (fill 7 empty) 3 9)
    × ((j : ℕ)
        → find (insert (fill 7 empty) 3 9) j ≡ (if 3 == j then some 9 else find (fill 7 empty) j))
insert_lem_example = insert_lem (fill 7 empty) 3 9 (fill-IsValid 7)

remove_lem_example :
    IsValid (remove (fill 7 empty) 8).0
    × ((j : ℕ)
        → find (remove (fill 7 empty) 8).0 j ≡ (if 8 == j then none else find (fill 7 empty) j))
    × ((remove (fill 7 empty) 8).1 ≡ is_some (find (fill 7 empty) 8))
remove_lem_example = remove_lem (fill 7 empty) 8 (fill-IsValid 7)

grown-slots : 0 < length (fill 7 empty).slots
unfolding fill
grown-slots = omega arith

rehash_lem_example :
    IsValid (rehash (fill 7 empty) 3)
    × (length (rehash (fill 7 empty) 3).slots ≡ 3)
    × ((j : ℕ) → find (rehash (fill 7 empty) 3) j ≡ find (fill 7 empty) j)
rehash_lem_example = rehash_lem (fill 7 empty) 3 (fill-IsValid 7) grown-slots (omega arith)
