-- ===== src/Core/CappedArray.antt =====
-- core/base/containers.cppm: CappedArray, an array of fixed length of which the first `cap` elements
-- are in use. The length N is that of the list of values, and `none` is a failed assertion.
pub mod Laws
use plexdb.Prelude.{
  ℕ, ◌+◌, ◌-◌, Bool, Option, none, some, List, ltb, leb, if◌then◌else◌, length, get_elem?, set,
}

module _ {ℓ} (A : Type ℓ) where
  pub record CappedArray : Type ℓ where
    pub values : List A
    pub cap : ℕ

module _ {ℓ} {A : Type ℓ} where
  -- operator[]
  unfoldable pub at : CappedArray A → ℕ → Option A
  at array i = if ltb i array.cap then get_elem? array.values i else none

  unfoldable pub push_back : CappedArray A → A → Option (CappedArray A)
  push_back array value =
      if ltb array.cap (length array.values)
      then some (record { values = set array.values array.cap value; cap = array.cap + 1 })
      else none

  abbrev pub full : CappedArray A → Bool
  full array = leb (length array.values) array.cap

  abbrev pub clear : CappedArray A → CappedArray A
  clear array = record array { cap = 0 }

  -- arr[idx] = arr[arr.cap - 1], when idx is not the last.
  pub fill_gap : CappedArray A → ℕ → Option (CappedArray A)
  unfolding at
  fill_gap array idx =
      if ltb idx (array.cap - 1)
      then elim (at array (array.cap - 1)) [
        | none ↦ none
        | some last ↦ some (record array { values = set array.values idx last })
      ]
      else some array

  pub swap_remove : CappedArray A → ℕ → Option (CappedArray A)
  unfolding fill_gap
  swap_remove array idx =
      if ltb idx array.cap
      then elim (fill_gap array idx) [
        | none ↦ none
        | some filled ↦ some (record filled { cap = filled.cap - 1 })
      ]
      else none
