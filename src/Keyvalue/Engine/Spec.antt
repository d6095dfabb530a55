-- ===== src/Keyvalue/Engine/Spec.antt =====
-- What the engine promises for the commands on single keys: a map from the hash of a key to the
-- key and the value that were stored last under that hash.
use plexdb.Prelude.{ℕ, ◌+◌, Bool, Option, none, some, List, [], ◌∷◌, ◌==◌, ◌&&◌, not, if◌then◌else◌}
use plexdb.Core.Text.{Bytes, External, hash}
use plexdb.Core.DynamicMap.Laws.{is_some}

abbrev pub View : Type 0
View = ℕ → Option (Bytes × Bytes)

abbrev pub set_at : View → ℕ → Option (Bytes × Bytes) → View
set_at view h v j = if h == j then v else view j

abbrev pub value_of : Option (Bytes × Bytes) → Option Bytes
value_of none = none
value_of (some (key, value)) = some value

module _ (e : External) where
  abbrev pub present : View → Bytes → Bool
  present view key = is_some (view (hash e key))

  abbrev pub view_put : View → Bytes → Bytes → View
  view_put view key value = set_at view (hash e key) (some (key, value))

  -- SET, with NX and XX: whether it stores.
  abbrev pub set_stores : View → Bytes → Bool → Bool → Bool
  set_stores view key nx xx = not (nx && present view key) && not (xx && not (present view key))

  abbrev pub view_del : View → List Bytes → View
  view_del view [] = view
  view_del view (key ∷ keys) = view_del (set_at view (hash e key) none) keys

  -- A key that is named twice counts once.
  abbrev pub del_count : View → List Bytes → ℕ
  del_count view [] = 0
  del_count view (key ∷ keys) =
      (if present view key then 1 else 0) + del_count (set_at view (hash e key) none) keys

  -- A key that is named twice counts twice.
  abbrev pub exists_count : View → List Bytes → ℕ
  exists_count view [] = 0
  exists_count view (key ∷ keys) = (if present view key then 1 else 0) + exists_count view keys

  abbrev pub view_mget : View → List Bytes → List (Option Bytes)
  view_mget view [] = []
  view_mget view (key ∷ keys) = value_of (view (hash e key)) ∷ view_mget view keys

  abbrev pub view_mset : View → List (Bytes × Bytes) → View
  view_mset view [] = view
  view_mset view ((key, value) ∷ pairs) = view_mset (view_put view key value) pairs
