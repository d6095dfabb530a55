-- ===== src/Core/CappedArray/Laws.antt =====
-- core/base/containers.cppm: a CappedArray, against the elements that are in use.
use plexdb.Prelude.{
  ℕ, zero, suc, ◌+◌, ◌-◌, ◌≤◌, ◌<◌, ◌≡◌, refl, sym, ◌∙◌, ap, false, some, List, [], ◌∷◌, ◌++◌, ◌==◌,
  ltb, if◌then◌else◌, length, get_elem?, set, get_elem?-set_same, get_elem?-set_other, length-set,
  take, arith, Bool-cases, inl, inr, lt→ltb, ==_iff,
}
use plexdb.Core.CappedArray.{CappedArray, at, push_back, fill_gap, swap_remove}

module _ {A : Type 0} where
  abbrev pub contents : CappedArray A → List A
  contents array = take array.cap array.values

  abbrev pub IsValid : CappedArray A → Type 0
  IsValid array = array.cap ≤ length array.values

  take-set :
      (n : ℕ) (xs : List A) (v : A)
      → n < length xs
      → take (n + 1) (set xs n v) ≡ take n xs ++ (v ∷ [])
  take-set n [] v h = absurd (omega (arith, h))
  take-set zero (x ∷ xs) v h = refl
  take-set (suc n) (x ∷ xs) v h =
      let e : suc n + 1 ≡ suc (n + 1) = omega arith in
      rw e (ap (λ (ys : List A). x ∷ ys) (take-set n xs v (omega (arith, h))))

  -- push_back on a capped array with an unused place succeeds: the new value stands behind the
  -- elements that were in use, and the array is well formed.
  pub push_back_lem :
      (array : CappedArray A) (v : A)
      → array.cap < length array.values
      → (array' : CappedArray A) × (push_back array v ≡ some array')
        × (contents array' ≡ contents array ++ (v ∷ []))
        × IsValid array'
  unfolding push_back
  push_back_lem array v h = (
    record { values = set array.values array.cap v; cap = array.cap + 1 },
    rw (lt→ltb array.cap (length array.values) h) refl,
    take-set array.cap array.values v h,
    omega (arith, h, length-set array.values array.cap v),
  )

  get_elem?-present : (xs : List A) (i : ℕ) → i < length xs → (a : A) × (get_elem? xs i ≡ some a)
  get_elem?-present [] i h = absurd (omega (arith, h))
  get_elem?-present (x ∷ xs) zero h = (x, refl)
  get_elem?-present (x ∷ xs) (suc i) h = get_elem?-present xs i (omega (arith, h))

  at-below : (array : CappedArray A) (i : ℕ) → i < array.cap → at array i ≡ get_elem? array.values i
  unfolding at
  at-below array i h = rw (lt→ltb i array.cap h) refl

  -- swap_remove of a place in use of a well-formed capped array succeeds: one element fewer is in
  -- use, operator[] gives the old last element at the place, and at every other place in use what
  -- it gave before.
  pub swap_remove_lem :
      (array : CappedArray A) (idx : ℕ)
      → IsValid array
      → idx < array.cap
      → (array' : CappedArray A) × (swap_remove array idx ≡ some array')
        × (array'.cap + 1 ≡ array.cap)
        × ((j : ℕ)
            → j < array'.cap
            → at array' j ≡ (if j == idx then at array (array.cap - 1) else at array j))
  unfolding swap_remove fill_gap at
  swap_remove_lem array idx valid h = elim (Bool-cases (ltb idx (array.cap - 1))) [
    | inl inner ↦
        let (last, e) = get_elem?-present array.values (array.cap - 1) (omega (arith, valid, h)) in
        (
          record array { values = set array.values idx last; cap = array.cap - 1 },
          rw (lt→ltb idx array.cap h, inner, lt→ltb (array.cap - 1) array.cap (omega (arith, h)), e)
              refl,
          omega (arith, h),
          λ j lt. at-below _ j lt ∙ elim (Bool-cases (j == idx)) [
            | inl eq ↦ rw eq (
                ap (get_elem? (set array.values idx last)) ((==_iff j idx).0 eq)
                ∙ get_elem?-set_same array.values idx last (omega (arith, valid, h))
                ∙ sym (at-below array (array.cap - 1) (omega (arith, h)) ∙ e))
            | inr ne ↦ rw ne (
                get_elem?-set_other array.values idx j last (ground (arith, ne))
                ∙ sym (at-below array j (omega (arith, lt))))
          ],
        )
    | inr outer ↦ (
      record array { cap = array.cap - 1 },
      rw (lt→ltb idx array.cap h, outer) refl,
      omega (arith, h),
      λ j lt.
          let apart : (j == idx) ≡ false = ground (arith, outer, lt) in
          at-below _ j lt ∙ rw apart (sym (at-below array j (omega (arith, lt)))),
    )
  ]
