-- ===== src/Keyvalue/Engine/Runs.antt =====
-- The engine at concrete inputs.
use plexdb.Prelude.{
  ◌+◌, ◌≤◌, ◌≡◌, refl, none, some, arith, true, false, List, [], ◌∷◌, length, ◌==◌, Bool-cases, inl,
  inr,
}
use plexdb.Prelude.Int.{pos}
use plexdb.Core.Text.{Bytes, bytes, hash}
use plexdb.Core.Text.Sample.{sample}
use plexdb.Core.BTree.{begin_iterator_impl}
use plexdb.Core.BTree.Laws.{root_leaf}
use plexdb.Keyvalue.Statement.{Statement}
use plexdb.Keyvalue.Reply.{create_simple, create_bulk, create_int, create_arr, create_null_arr}
use plexdb.Keyvalue.Engine.{Engine, new_engine, execute}
use plexdb.Keyvalue.Engine.Spec.{View, view_put, view_del, view_mset}
use plexdb.Keyvalue.Engine.Represents.{Represents, new_engine-Represents}
use plexdb.Keyvalue.Engine.Store.{store_lem}
use plexdb.Keyvalue.Engine.Listing.{PlainKeys, view_keys}
use plexdb.Keyvalue.Engine.Scan.{scan_all}
use plexdb.Keyvalue.Engine.InMemory.{
  in_memory_get, in_memory_set, in_memory_del, in_memory_mget, in_memory_mset, in_memory_keys,
  in_memory_scan, in_memory_same_hash,
}

abbrev engine₀ : Engine root_leaf
engine₀ = new_engine root_leaf

abbrev view₀ : View
view₀ _ = none

abbrev view₁ : View
view₁ = view_put sample view₀ (bytes "ab") (bytes "v")

engine₀-Represents : Represents root_leaf sample engine₀ view₀
engine₀-Represents = new_engine-Represents root_leaf sample

engine₀-room : length (root_leaf.begin engine₀.index) ≤ 0
unfolding begin_iterator_impl
engine₀-room = omega arith

-- One key is stored.
abbrev engine₁ : Engine root_leaf
engine₁ =
    (store_lem root_leaf sample engine₀ view₀ (bytes "ab") (bytes "v") engine₀-Represents
      (omega arith) (omega arith) (λ _. omega (arith, engine₀-room))).0

engine₁-Represents : Represents root_leaf sample engine₁ view₁
engine₁-Represents =
    (store_lem root_leaf sample engine₀ view₀ (bytes "ab") (bytes "v") engine₀-Represents
      (omega arith) (omega arith) (λ _. omega (arith, engine₀-room))).2

engine₁-next : engine₁.next_blob_id ≤ 0 + 1
engine₁-next =
    (store_lem root_leaf sample engine₀ view₀ (bytes "ab") (bytes "v") engine₀-Represents
      (omega arith) (omega arith) (λ _. omega (arith, engine₀-room))).3

engine₁-room : length (root_leaf.begin engine₁.index) ≤ 0 + 1
engine₁-room = omega (
  arith,
  engine₀-room,
  (store_lem root_leaf sample engine₀ view₀ (bytes "ab") (bytes "v") engine₀-Represents
      (omega arith) (omega arith) (λ _. omega (arith, engine₀-room))).4,
)

in_memory_get_example :
    execute root_leaf sample engine₁ (Statement.get (bytes "ab"))
    ≡ some (create_bulk (bytes "v"), engine₁)
unfolding hash
in_memory_get_example = in_memory_get sample engine₁ view₁ (bytes "ab") engine₁-Represents

in_memory_set_example :
    (s' : Engine root_leaf) × (execute root_leaf sample engine₁
        (Statement.set (bytes "ab") (bytes "w") false true)
      ≡ some (create_simple (bytes "OK"), s'))
    × Represents root_leaf sample s' (view_put sample view₁ (bytes "ab") (bytes "w"))
unfolding hash
in_memory_set_example =
    in_memory_set sample engine₁ view₁ (bytes "ab") (bytes "w") false true engine₁-Represents
      (omega arith) (omega (arith, engine₁-next)) (λ _. omega (arith, engine₁-room))

in_memory_del_example :
    (s' : Engine root_leaf) × (execute root_leaf sample engine₁
        (Statement.del (bytes "ab" ∷ bytes "x" ∷ bytes "ab" ∷ []))
      ≡ some (create_int (pos 1), s'))
    × Represents root_leaf sample s'
        (view_del sample view₁ (bytes "ab" ∷ bytes "x" ∷ bytes "ab" ∷ []))
unfolding hash
in_memory_del_example =
    in_memory_del sample engine₁ view₁ (bytes "ab" ∷ bytes "x" ∷ bytes "ab" ∷ []) engine₁-Represents

in_memory_mget_example :
    execute root_leaf sample engine₁ (Statement.mget (bytes "ab" ∷ bytes "x" ∷ []))
    ≡ some (create_null_arr (some (bytes "v") ∷ none ∷ []), engine₁)
unfolding hash
in_memory_mget_example =
    in_memory_mget sample engine₁ view₁ (bytes "ab" ∷ bytes "x" ∷ []) engine₁-Represents

abbrev two_pairs : List (Bytes × Bytes)
two_pairs = (bytes "a", bytes "1") ∷ (bytes "b", bytes "2") ∷ []

in_memory_mset_example :
    (s' : Engine root_leaf) × (execute root_leaf sample engine₁ (Statement.mset two_pairs)
      ≡ some (create_simple (bytes "OK"), s'))
    × Represents root_leaf sample s' (view_mset sample view₁ two_pairs)
in_memory_mset_example =
    in_memory_mset sample engine₁ view₁ two_pairs engine₁-Represents
      (omega arith, (omega arith, tt)) (omega (arith, engine₁-next)) (omega (arith, engine₁-room))

view₁-PlainKeys : PlainKeys view₁
unfolding hash
view₁-PlainKeys h = elim (Bool-cases (195 == h)) [
  | inl e ↦ rw e (omega arith, (omega arith, tt))
  | inr e ↦ rw e tt
]

in_memory_keys_example :
    execute root_leaf sample engine₁ (Statement.keys (bytes "a?"))
    ≡ some (create_arr (view_keys view₁ (bytes "a?") (root_leaf.begin engine₁.index)), engine₁)
in_memory_keys_example =
    in_memory_keys sample engine₁ view₁ (bytes "a?") engine₁-Represents view₁-PlainKeys

in_memory_scan_example :
    scan_all root_leaf sample
      (length (root_leaf.begin engine₁.index) + 1)
      engine₁
      0
      (some (bytes "a*"))
      (some 1)
    ≡ some (view_keys view₁ (bytes "a*") (root_leaf.begin engine₁.index))
in_memory_scan_example =
    in_memory_scan sample engine₁ view₁ (some (bytes "a*")) (some 1) engine₁-Represents
      view₁-PlainKeys (omega arith)

-- "ab" and "ba" have the same sum of bytes.
in_memory_same_hash_example :
    (s' : Engine root_leaf) × (execute root_leaf sample engine₀
        (Statement.set (bytes "ab") (bytes "v") false false)
      ≡ some (create_simple (bytes "OK"), s'))
    × (execute root_leaf sample s' (Statement.get (bytes "ba"))
        ≡ some (create_bulk (bytes "v"), s'))
unfolding hash
in_memory_same_hash_example =
    in_memory_same_hash sample engine₀ view₀ (bytes "ab") (bytes "ba") (bytes "v")
      engine₀-Represents (omega arith) (omega arith) (λ _. omega (arith, engine₀-room)) refl
