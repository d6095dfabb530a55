-- ===== src/Core/BTree/Search.antt =====
-- binary_search<GreaterEqual> (core/base/types.cppm) on the keys of a leaf.
use plexdb.Prelude.{
  ℕ, zero, suc, ◌+◌, ◌-◌, ◌/◌, ◌≤◌, ◌<◌, ◌≡◌, [], ◌∷◌, ltb, if◌then◌else◌, length, Bool-cases,
  ltb→lt, inl, inr, arith,
}
use plexdb.Core.Index.{Pairs, Above, Ascending}
use plexdb.Core.BTree.{Leaf, key_at, search_geq, leaf_bsearch_geq}

-- How many keys stand before the first one that is not below `key`.
unfoldable pub rank : ℕ → Pairs → ℕ
rank key [] = 0
rank key ((k, v) ∷ ps) = let rest = rank key ps in if ltb k key then suc rest else 0

pub rank-bound : (key : ℕ) (ps : Pairs) → rank key ps ≤ length ps
unfolding rank
rank-bound key [] = omega arith
rank-bound key ((k, v) ∷ ps) = ground (arith, rank-bound key ps)

key_at-Above : (low i : ℕ) (node : Leaf) → Above low node → i < length node → low ≤ key_at node i
unfolding key_at
key_at-Above low i [] a h = absurd (omega (arith, h))
key_at-Above low zero ((k, v) ∷ node) (le, a) h = le
key_at-Above low (suc i) ((k, v) ∷ node) (le, a) h =
    omega (arith, le, key_at-Above (suc k) i node a (omega (arith, h)))

-- A key is below `key` just when it stands before the rank.
key_at-rank :
    (low i key : ℕ) (node : Leaf)
    → Above low node
    → i < length node
    → ltb (key_at node i) key ≡ ltb i (rank key node)
unfolding key_at rank
key_at-rank low i key [] a h = absurd (omega (arith, h))
key_at-rank low zero key ((k, v) ∷ node) (le, a) h = ground arith
key_at-rank low (suc i) key ((k, v) ∷ node) (le, a) h =
    let above = key_at-Above (suc k) i node a (omega (arith, h)) in
    ground (arith, above, key_at-rank (suc k) i key node a (omega (arith, h)))

search_geq-rank :
    (fuel : ℕ) (node : Leaf) (key l r : ℕ)
    → Ascending node
    → r ≤ length node
    → l ≤ rank key node
    → rank key node ≤ r
    → r ≤ l + fuel
    → search_geq fuel node key l r ≡ rank key node
unfolding search_geq
search_geq-rank zero node key l r a in_node low high enough = omega (arith, low, high, enough)
search_geq-rank (suc fuel) node key l r a in_node low high enough = elim (Bool-cases (ltb l r)) [
  | inr e ↦ rw e (ground (arith, e, low, high))
  | inl e ↦
      let m : ℕ = l + (r - l) / 2 in
      let inside : l < r = ltb→lt l r e in
      let m_low : m < r = omega (arith, inside) in
      let at = key_at-rank 0 m key node a (omega (arith, m_low, in_node)) in
      elim (Bool-cases (ltb m (rank key node))) [
        | inl before ↦
            rw (e, at, before)
              (search_geq-rank fuel node key (m + 1) r a in_node
                (omega (arith, ltb→lt m (rank key node) before)) high (omega (arith, enough)))
        | inr behind ↦
            rw (e, at, behind)
              (search_geq-rank fuel node key l m a (omega (arith, m_low, in_node)) low
                (ground (arith, behind)) (omega (arith, enough, m_low)))
      ]
]

-- On keys in rising order, the search finds the first slot whose key is not below `key`.
pub leaf_bsearch_geq-rank :
    (node : Leaf) (key : ℕ) → Ascending node → leaf_bsearch_geq node key ≡ rank key node
unfolding leaf_bsearch_geq
leaf_bsearch_geq-rank node key a =
    search_geq-rank (length node) node key 0 (length node) a (omega arith) (omega arith)
      (rank-bound key node) (omega arith)
