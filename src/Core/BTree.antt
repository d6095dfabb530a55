-- ===== src/Core/BTree.antt =====
-- core/btree: a tree of depth 0, whose root is a leaf, with keys and values of type U64
-- (btree.node.cppm and btree.algorithm.cppm at FixedKeyPolicy<U64> and FixedValuePolicy<8>) in
-- nodes of 544 bytes, as keyvalue/engine makes it. The slots of a leaf below key_count are a list.
-- An insert into a leaf that is full would split it: there the model stops with `none`.
pub mod Search
pub mod Laws
use plexdb.Prelude.{
  ℕ, zero, suc, ◌+◌, ◌-◌, ◌/◌, ◌%◌, ◌^◌, Bool, true, false, Option, none, some, List, [], ◌∷◌, ◌==◌,
  ◌&&◌, ltb, leb, if◌then◌else◌, length, drop,
}
use plexdb.Core.Index.{Pairs}

-- The keys and the values of a leaf, slot for slot.
abbrev pub Leaf : Type 0
Leaf = Pairs

-- Header::size and the node that Header::root refers to. Header::depth is 0, Header::leaves is not
-- read, and Header::max_key_bytes is read for keys of variable size alone.
pub record RootLeaf : Type 0 where
  pub root : Leaf
  pub size : ℕ

-- keys<KT>(node)[i]; a slot behind the last, which no caller reads, has 0 here.
unfoldable pub key_at : Leaf → ℕ → ℕ
key_at [] i = 0
key_at ((k, v) ∷ node) zero = k
key_at ((k, v) ∷ node) (suc i) = key_at node i

-- leaf_value_const
unfoldable pub value_at : Leaf → ℕ → Option ℕ
value_at [] i = none
value_at ((k, v) ∷ node) zero = some v
value_at ((k, v) ∷ node) (suc i) = value_at node i

-- sizeof(Node) is 24.
abbrev pub max_keys_leaf : ℕ → ℕ → ℕ → ℕ
max_keys_leaf node_size key_stride val_stride =
    let count = (node_size - 24) / (key_stride + val_stride) in
    if ltb count 65535 then count else 65535

abbrev pub leaf_capacity : ℕ
leaf_capacity = max_keys_leaf 544 8 8

abbrev pub is_leaf_full : Leaf → Bool
is_leaf_full node = leb leaf_capacity (length node)

-- while (L < R) { ... } of binary_search<GreaterEqual>, with fuel for the rounds.
unfoldable pub search_geq : ℕ → Leaf → ℕ → ℕ → ℕ → ℕ
search_geq zero node key l r = l
search_geq (suc fuel) node key l r =
    let m = l + (r - l) / 2 in
    let next : ℕ × ℕ = if ltb (key_at node m) key then (m + 1, r) else (l, m) in
    let found = search_geq fuel node key next.0 next.1 in if ltb l r then found else l

-- A round makes the interval smaller, so its length is enough fuel.
unfoldable pub leaf_bsearch_geq : Leaf → ℕ → ℕ
leaf_bsearch_geq node key = search_geq (length node) node key 0 (length node)

unfoldable pub leaf_key_eq : Leaf → ℕ → ℕ → Bool
leaf_key_eq node idx key = ltb idx (length node) && (key_at node idx == key)

-- write_val at the slot `idx`.
unfoldable pub write_val : Leaf → ℕ → ℕ → Leaf
write_val [] idx value = []
write_val ((k, v) ∷ node) zero value = (k, value) ∷ node
write_val ((k, v) ∷ node) (suc idx) value = (k, v) ∷ write_val node idx value

-- memory_shift_up from the slot `idx` on, and the key and the value in it.
unfoldable pub open_slot : Leaf → ℕ → ℕ → ℕ → Leaf
open_slot node zero key value = (key, value) ∷ node
open_slot [] (suc idx) key value = (key, value) ∷ []
open_slot (p ∷ node) (suc idx) key value = p ∷ open_slot node idx key value

unfoldable pub leaf_upsert : Leaf → ℕ → ℕ → ℕ → Leaf × Bool
leaf_upsert node idx key value =
    if leaf_key_eq node idx key
    then (write_val node idx value, false)
    else (open_slot node idx key value, true)

-- memory_shift_down on the slots behind `idx`.
unfoldable pub leaf_remove : Leaf → ℕ → Leaf
leaf_remove [] idx = []
leaf_remove (p ∷ node) zero = node
leaf_remove (p ∷ node) (suc idx) = p ∷ leaf_remove node idx

-- BTreeInMemory(kp, vp, nb), and what truncate_impl leaves.
abbrev pub new_tree : RootLeaf
new_tree = record { root = []; size = 0 }

-- tinsert: insert_impl, and insert_recursive at depth 0.
unfoldable pub insert_impl : RootLeaf → ℕ → ℕ → Option RootLeaf
insert_impl t key value =
    let (node, is_new) = leaf_upsert t.root (leaf_bsearch_geq t.root key) key value in
    if is_leaf_full t.root
    then none
    else some (record { root = node; size = if is_new then (t.size + 1) % 2 ^ 64 else t.size })

-- tfind: search_impl at depth 0, and the value that is copied.
unfoldable pub search_impl : RootLeaf → ℕ → Option ℕ
search_impl t key =
    let idx = leaf_bsearch_geq t.root key in
    if leaf_key_eq t.root idx key then value_at t.root idx else none

-- remove_impl at depth 0, where a leaf that is not half full stays as it is. What it answers is not
-- used by the engine.
unfoldable pub remove_impl : RootLeaf → ℕ → RootLeaf
remove_impl t key =
    let idx = leaf_bsearch_geq t.root key in
    if leaf_key_eq t.root idx key
    then record { root = leaf_remove t.root idx; size = (t.size + (2 ^ 64 - 1)) % 2 ^ 64 }
    else t

-- truncate_impl at depth 0.
abbrev pub truncate_impl : RootLeaf → RootLeaf
truncate_impl t = new_tree

-- begin_iterator_impl at depth 0, and the slots that next_iterator_inplace passes up to the end:
-- the only leaf has no next.
unfoldable pub begin_iterator_impl : RootLeaf → Pairs
begin_iterator_impl t = if t.size == 0 then [] else t.root

-- search_iterator_impl<FirstGreaterEqual> at depth 0.
unfoldable pub search_iterator_impl : RootLeaf → ℕ → Pairs
search_iterator_impl t key =
    let idx = leaf_bsearch_geq t.root key in if ltb idx (length t.root) then drop idx t.root else []
