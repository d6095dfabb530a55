-- ===== src/Core/BTree/Laws.antt =====
-- A tree of depth 0 (core/btree) as the index of keyvalue/engine.
use plexdb.Prelude.{
  ℕ, zero, suc, ◌+◌, ◌%◌, ◌^◌, ◌≤◌, ◌<◌, ◌≡◌, ◌∙◌, refl, sym, ap, subst, ◌-◌, true, false, none,
  some, [], ◌∷◌, ◌==◌, ltb, if◌then◌else◌, length, drop, Bool-cases, lt→leb_false, inl, inr, arith,
}
use plexdb.Core.DynamicMap.Bucket.{lookup}
use plexdb.Core.Index.{Index}
use plexdb.Core.Index.Lists.{
  Pairs, Above, Ascending, from_key, insert_pair, remove_pair, insert_pair-Above, remove_pair-Above,
  length-insert_pair, lookup-below,
}
use plexdb.Core.BTree.{
  Leaf, RootLeaf, key_at, value_at, leaf_capacity, leaf_key_eq, open_slot, leaf_upsert, leaf_remove,
  new_tree, insert_impl, search_impl, remove_impl, truncate_impl, begin_iterator_impl,
  search_iterator_impl,
}
use plexdb.Core.BTree.Search.{rank, leaf_bsearch_geq-rank}

-- The slot at the rank of a key has that key just when the leaf has it.
leaf_key_eq-lookup :
    (low key : ℕ) (node : Leaf)
    → Above low node
    → (if leaf_key_eq node (rank key node) key then value_at node (rank key node) else none)
      ≡ lookup key node
unfolding leaf_key_eq key_at value_at rank lookup
leaf_key_eq-lookup low key [] a = refl
leaf_key_eq-lookup low key ((k, v) ∷ node) (le, a) =
    ground (arith, leaf_key_eq-lookup (suc k) key node a, lookup-below (suc k) key node a)

open_slot-rank :
    (key value : ℕ) (node : Leaf)
    → open_slot node (rank key node) key value ≡ insert_pair key value node
unfolding open_slot rank insert_pair
open_slot-rank key value [] = refl
open_slot-rank key value ((k, v) ∷ node) = ground (arith, open_slot-rank key value node)

drop-rank : (key : ℕ) (node : Leaf) → drop (rank key node) node ≡ from_key key node
unfolding rank from_key
drop-rank key [] = refl
drop-rank key ((k, v) ∷ node) = ground (arith, drop-rank key node)

leaf_remove-rank :
    (low key : ℕ) (node : Leaf)
    → Above low node
    → leaf_key_eq node (rank key node) key ≡ true
    → leaf_remove node (rank key node) ≡ remove_pair key node
unfolding leaf_remove leaf_key_eq key_at rank remove_pair
leaf_remove-rank low key [] a h = refl
leaf_remove-rank low key ((k, v) ∷ node) (le, a) h =
    ground (arith, h, leaf_remove-rank (suc k) key node a)

-- The keys are in rising order and fit in the node, and Header::size counts them.
pub record IsValid (t : RootLeaf) : Type 0 where
  pub rising : Ascending t.root
  pub fits : length t.root ≤ leaf_capacity
  pub counted : t.size ≡ length t.root

pub begin_lem : (t : RootLeaf) → IsValid t → begin_iterator_impl t ≡ t.root
unfolding begin_iterator_impl
begin_lem t v = by_leaf t.root t.size v.counted
  where
    by_leaf :
        (node : Leaf) (size : ℕ) → size ≡ length node → (if size == 0 then [] else node) ≡ node
    by_leaf [] size e = ground (arith, e)
    by_leaf (p ∷ node) size e = ground (arith, e)

pub search_lem :
    (t : RootLeaf) (key : ℕ) → IsValid t → search_impl t key ≡ lookup key (begin_iterator_impl t)
unfolding search_impl
search_lem t key v =
    rw (begin_lem t v, leaf_bsearch_geq-rank t.root key v.rising)
      (leaf_key_eq-lookup 0 key t.root v.rising)

drop-if : (n : ℕ) (node : Leaf) → (if ltb n (length node) then drop n node else []) ≡ drop n node
drop-if zero [] = refl
drop-if (suc n) [] = ground arith
drop-if zero (p ∷ node) = ground arith
drop-if (suc n) (p ∷ node) = ground (arith, drop-if n node)

pub find_ge_lem :
    (t : RootLeaf) (key : ℕ)
    → IsValid t
    → search_iterator_impl t key ≡ from_key key (begin_iterator_impl t)
unfolding search_iterator_impl
find_ge_lem t key v =
    rw (begin_lem t v, leaf_bsearch_geq-rank t.root key v.rising)
      (drop-if (rank key t.root) t.root ∙ drop-rank key t.root)

-- A leaf without the key has a slot with another key at its rank, or none.
no_key :
    (low key : ℕ) (node : Leaf)
    → Above low node
    → lookup key node ≡ none
    → leaf_key_eq node (rank key node) key ≡ false
unfolding leaf_key_eq key_at rank lookup
no_key low key [] a h = refl
no_key low key ((k, v) ∷ node) (le, a) h = ground (arith, h, no_key (suc k) key node a)

pub insert_lem :
    (t : RootLeaf) (key value : ℕ)
    → IsValid t
    → lookup key (begin_iterator_impl t) ≡ none
    → length (begin_iterator_impl t) < leaf_capacity
    → (t' : RootLeaf) × (insert_impl t key value ≡ some t')
      × IsValid t'
      × (begin_iterator_impl t' ≡ insert_pair key value (begin_iterator_impl t))
unfolding insert_impl leaf_upsert
insert_lem t key value v absent room =
    let absent' : lookup key t.root ≡ none = sym (ap (lookup key) (begin_lem t v)) ∙ absent in
    let room' : length t.root < leaf_capacity = omega (arith, ap length (begin_lem t v), room) in
    let grown = length-insert_pair key value t.root in
    let t' : RootLeaf = record {
      root = insert_pair key value t.root;
      size = (t.size + 1) % 2 ^ 64;
    } in
    let v' : IsValid t' = record {
      rising = insert_pair-Above 0 key value t.root (omega arith) absent' v.rising;
      fits = omega (arith, grown, room');
      counted = omega (arith, grown, room', v.counted);
    } in
    (
      t',
      rw
          (
            leaf_bsearch_geq-rank t.root key v.rising,
            no_key 0 key t.root v.rising absent',
            lt→leb_false leaf_capacity (length t.root) room',
            open_slot-rank key value t.root,
          )
          refl,
      v',
      begin_lem t' v' ∙ ap (insert_pair key value) (sym (begin_lem t v)),
    )

found_key :
    (low key : ℕ) (node : Leaf)
    → Above low node
    → leaf_key_eq node (rank key node) key ≡ true
    → length node ≡ length (remove_pair key node) + 1
unfolding leaf_key_eq key_at rank remove_pair
found_key low key [] a h = ground (arith, h)
found_key low key ((k, v) ∷ node) (le, a) h = ground (arith, h, found_key (suc k) key node a)

remove_pair-absent : (key : ℕ) (node : Leaf) → lookup key node ≡ none → remove_pair key node ≡ node
unfolding lookup remove_pair
remove_pair-absent key [] h = refl
remove_pair-absent key ((k, v) ∷ node) h = elim (Bool-cases (k == key)) [
  | inl e ↦ ground (arith, h, e)
  | inr e ↦
      rw e (ap (λ (ps : Pairs). (k, v) ∷ ps) (remove_pair-absent key node (ground (arith, h, e))))
]

-- What a removal leaves.
abbrev pub Removes : RootLeaf → ℕ → Type 0
Removes t key =
    IsValid (remove_impl t key)
    × (begin_iterator_impl (remove_impl t key) ≡ remove_pair key (begin_iterator_impl t))

pub remove_lem : (t : RootLeaf) (key : ℕ) → IsValid t → Removes t key
unfolding remove_impl
remove_lem t key v = elim (Bool-cases (leaf_key_eq t.root (rank key t.root) key)) [
  | inl e ↦
      let less = found_key 0 key t.root v.rising e in
      let t' : RootLeaf = record {
        root = remove_pair key t.root;
        size = (t.size + (2 ^ 64 - 1)) % 2 ^ 64;
      } in
      let v' : IsValid t' = record {
        rising = remove_pair-Above 0 key t.root v.rising;
        fits = omega (arith, less, v.fits);
        counted = omega (arith, less, v.fits, v.counted);
      } in
      let step : remove_impl t key ≡ t' =
        rw (leaf_bsearch_geq-rank t.root key v.rising, e, leaf_remove-rank 0 key t.root v.rising e)
          refl in
      rw step (v', begin_lem t' v' ∙ ap (remove_pair key) (sym (begin_lem t v)))
  | inr e ↦
      let step : remove_impl t key ≡ t = rw (leaf_bsearch_geq-rank t.root key v.rising, e) refl in
      let absent : lookup key t.root ≡ none =
        sym (leaf_key_eq-lookup 0 key t.root v.rising) ∙ rw e refl in
      rw step (
        v,
        begin_lem t v
            ∙ sym (remove_pair-absent key t.root absent)
            ∙ ap (remove_pair key) (sym (begin_lem t v)),
      )
]

pub new_tree-IsValid : IsValid new_tree
new_tree-IsValid = record { rising = tt; fits = omega arith; counted = refl }

pub size_lem : (t : RootLeaf) → IsValid t → t.size ≡ length (begin_iterator_impl t)
size_lem t v = v.counted ∙ ap length (sym (begin_lem t v))

abbrev pub root_leaf : Index
root_leaf = record {
  Tree = RootLeaf;
  IsValid = IsValid;
  empty = new_tree;
  begin = begin_iterator_impl;
  find_ge = search_iterator_impl;
  tfind = search_impl;
  capacity = leaf_capacity;
  tinsert = insert_impl;
  remove = remove_impl;
  truncate = truncate_impl;
  size = λ t. t.size;
  empty_lem = (new_tree-IsValid, begin_lem new_tree new_tree-IsValid);
  begin_sorted = λ t v. subst Ascending (sym (begin_lem t v)) v.rising;
  find_ge_lem = find_ge_lem;
  tfind_lem = search_lem;
  tinsert_lem = insert_lem;
  remove_lem = remove_lem;
  truncate_lem = λ _ _. (new_tree-IsValid, begin_lem new_tree new_tree-IsValid);
  size_lem = size_lem;
}
