-- ===== src/Core/Index.antt =====
-- What keyvalue/engine uses of core/btree/btree.cppm, where keys and values are U64: operations over
-- a tree with the pairs that an iteration from begin to end passes, and laws of them. An iterator
-- is the list of the pairs that it has not passed. Core/BTree/Laws has the tree that obeys them.
pub mod Lists
pub use Lists.*
use plexdb.Prelude.{ℕ, ◌≡◌, Option, none, some, List, [], length, ◌<◌}
use plexdb.Core.DynamicMap.Bucket.{lookup}

pub record Index : Type 1 where
  pub Tree : Type 0
  pub IsValid : Tree → Type 0
  -- An index in which nothing has been inserted.
  pub empty : Tree
  pub begin : Tree → Pairs
  -- find_it with SearchStrategy::FirstGreaterEqual
  pub find_ge : Tree → ℕ → Pairs
  pub tfind : Tree → ℕ → Option ℕ
  -- A tree with as many pairs as this may refuse another one.
  pub capacity : ℕ
  pub tinsert : Tree → ℕ → ℕ → Option Tree
  pub remove : Tree → ℕ → Tree
  pub truncate : Tree → Tree
  pub size : Tree → ℕ
  pub empty_lem : IsValid empty × (begin empty ≡ [])
  pub begin_sorted : (t : Tree) → IsValid t → Ascending (begin t)
  pub find_ge_lem : (t : Tree) (key : ℕ) → IsValid t → find_ge t key ≡ from_key key (begin t)
  pub tfind_lem : (t : Tree) (key : ℕ) → IsValid t → tfind t key ≡ lookup key (begin t)
  pub tinsert_lem :
      (t : Tree) (key value : ℕ)
      → IsValid t
      → lookup key (begin t) ≡ none
      → length (begin t) < capacity
      → (t' : Tree) × (tinsert t key value ≡ some t')
        × IsValid t'
        × (begin t' ≡ insert_pair key value (begin t))
  pub remove_lem :
      (t : Tree) (key : ℕ)
      → IsValid t
      → IsValid (remove t key) × (begin (remove t key) ≡ remove_pair key (begin t))
  pub truncate_lem : (t : Tree) → IsValid t → IsValid (truncate t) × (begin (truncate t) ≡ [])
  pub size_lem : (t : Tree) → IsValid t → size t ≡ length (begin t)
