-- ===== src/Core/DynamicMap/Laws.antt =====
-- core/dynamic/containers.cppm: the invariant of DynamicMap, and what find answers, after each
-- operation.
use plexdb.Prelude.{
  ℕ, zero, suc, ◌+◌, ◌*◌, ◌%◌, ◌<◌, ◌≡◌, refl, sym, ◌∙◌, ap, Bool, true, false, Option, none, some,
  List, [], ◌∷◌, ◌==◌, if◌then◌else◌, length, arith, Option-cases, Bool-cases, ==_iff, inl, inr,
}
use plexdb.Core.DynamicMap.{
  DynamicMap, Bucket, bucket_at, hash, find, find_slot_and_pair, pair_index, add_pair, any_full,
  reserve_for_push, assign, insert, swap_remove, remove, clear_slots, clear, empty, initial_slots,
  slot_growth_rate,
}
use plexdb.Core.DynamicMap.Bucket.{
  lookup, lookup-assign, assign-Distinct, lookup-swap_remove, pair_index-present,
}
use plexdb.Core.DynamicMap.Valid.{
  IsValid, find_lem, find_no_slots, with_slot, with_slot-IsValid, find-with_slot,
}
use plexdb.Core.DynamicMap.Rehash.{add_pair_lem, rehash_lem, new_slots_lem}

abbrev pub is_some {ℓ} : {A : Type ℓ} → Option A → Bool
is_some none = false
is_some (some a) = true

module _ {V : Type 0} where
  reserve_lem :
      (m : DynamicMap V)
      → IsValid m
      → IsValid (reserve_for_push m)
        × (0 < length (reserve_for_push m).slots)
        × ((j : ℕ) → find (reserve_for_push m) j ≡ find m j)
  unfolding reserve_for_push
  reserve_lem m valid = elim (Bool-cases (length m.slots == 0)) [
    | inl e ↦
        let (new_valid, new_none) = new_slots_lem {V = V} initial_slots (omega arith) in
        rw e (new_valid, omega arith, λ j. new_none j ∙ sym (find_no_slots m j (ground (arith, e))))
    | inr e ↦ rw e (elim (Bool-cases (any_full m.slots)) [
      | inl full ↦
          let (valid', len, found) =
            rehash_lem m (length m.slots * slot_growth_rate + 1) valid (ground arith)
              (omega arith) in
          rw full (valid', omega arith, found)
      | inr not_full ↦ rw not_full (valid, ground (arith, e), λ j. refl)
    ])
  ]

  found_at :
      (m : DynamicMap V) (key slot i : ℕ)
      → find_slot_and_pair m key ≡ some (slot, i)
      → (0 < length m.slots)
        × (slot ≡ hash key % length m.slots)
        × (pair_index key (bucket_at m.slots (hash key % length m.slots)) ≡ some i)
  unfolding find_slot_and_pair
  found_at m key slot i h =
      elim (Option-cases (pair_index key (bucket_at m.slots (hash key % length m.slots)))) [
        | inl e ↦ ground arith
        | inr (n, e) ↦ ground arith
      ]

  not_found : (m : DynamicMap V) (key : ℕ) → find_slot_and_pair m key ≡ none → find m key ≡ none
  unfolding find
  not_found m key h = rw (h, find)

  insert_new :
      (m : DynamicMap V) (key : ℕ) (v : V)
      → find_slot_and_pair m key ≡ none
      → insert m key v ≡ add_pair (reserve_for_push m) key v
  unfolding insert
  insert_new m key v h = rw (h, insert)

  insert_old :
      (m : DynamicMap V) (key slot i : ℕ) (v : V)
      → find_slot_and_pair m key ≡ some (slot, i)
      → insert m key v ≡ with_slot m slot (assign (bucket_at m.slots slot) i v)
  unfolding insert
  insert_old m key slot i v h = rw (h, insert)

  remove_absent :
      (m : DynamicMap V) (key : ℕ) → find_slot_and_pair m key ≡ none → remove m key ≡ (m, false)
  unfolding remove
  remove_absent m key h = rw (h, remove)

  remove_present :
      (m : DynamicMap V) (key slot i : ℕ)
      → find_slot_and_pair m key ≡ some (slot, i)
      → remove m key ≡ (with_slot m slot (swap_remove (bucket_at m.slots slot) i), true)
  unfolding remove
  remove_present m key slot i h = rw (h, remove)

  -- insert keeps the invariant of a table (each key is in the slot of its hash, at most once), and
  -- find then answers the new value at its key and what it answered before at every other.
  pub insert_lem :
      (m : DynamicMap V) (key : ℕ) (v : V)
      → IsValid m
      → IsValid (insert m key v)
        × ((j : ℕ) → find (insert m key v) j ≡ (if key == j then some v else find m j))
  insert_lem m key v valid = elim (Option-cases (find_slot_and_pair m key)) [
    | inl e ↦
        let (valid', pos, same) = reserve_lem m valid in
        let (valid'', found, _) =
          add_pair_lem (reserve_for_push m) key v valid' pos (same key ∙ not_found m key e) in
        rw (insert_new m key v e)
          (valid'', λ j. found j ∙ ap (λ o. if key == j then some v else o) (same j))
    | inr ((slot, i), e) ↦
        let (pos, es, ei) = found_at m key slot i e in
        let at = bucket_at m.slots (hash key % length m.slots) in
        let distinct =
          assign-Distinct i v at (valid.placed (hash key % length m.slots) (grind arith)).1 in
        let same = λ (j : ℕ). lookup-assign key i j v at ei in
        rw (insert_old m key slot i v e, es)
          (
            with_slot-IsValid m key (assign at i v) (some v) valid pos distinct same,
            find-with_slot m key (assign at i v) (some v) valid pos distinct same,
          )
  ]

  -- remove keeps the invariant of a table, answers whether the key was there, and find then
  -- answers none at the key and what it answered before at every other.
  pub remove_lem :
      (m : DynamicMap V) (key : ℕ)
      → IsValid m
      → IsValid (remove m key).0
        × ((j : ℕ) → find (remove m key).0 j ≡ (if key == j then none else find m j))
        × ((remove m key).1 ≡ is_some (find m key))
  remove_lem m key valid = elim (Option-cases (find_slot_and_pair m key)) [
    | inl e ↦
        rw (remove_absent m key e)
          (valid, λ j. ground (arith, not_found m key e), rw (not_found m key e))
    | inr ((slot, i), e) ↦
        let (pos, es, ei) = found_at m key slot i e in
        let at = bucket_at m.slots (hash key % length m.slots) in
        let placed = (valid.placed (hash key % length m.slots) (grind arith)).1 in
        let same = λ (j : ℕ). (lookup-swap_remove key i j at placed ei).0 in
        let distinct = (lookup-swap_remove key i key at placed ei).1 in
        let (v, present) = pair_index-present key i at ei in
        rw (remove_present m key slot i e, es)
          (
            with_slot-IsValid m key (swap_remove at i) none valid pos distinct same,
            find-with_slot m key (swap_remove at i) none valid pos distinct same,
            rw (find_lem m key pos, present),
          )
  ]

  bucket_at-clear_slots : (slots : List (Bucket V)) (i : ℕ) → bucket_at (clear_slots slots) i ≡ []
  bucket_at-clear_slots [] i = refl
  bucket_at-clear_slots (b ∷ slots) zero = refl
  bucket_at-clear_slots (b ∷ slots) (suc i) = bucket_at-clear_slots slots i

  -- clear leaves a table that keeps the invariant, and in which find answers none at every key.
  pub clear_lem : (m : DynamicMap V) → IsValid (clear m) × ((j : ℕ) → find (clear m) j ≡ none)
  unfolding clear
  clear_lem m = (
    record {
      placed = λ i lt. rw (bucket_at-clear_slots m.slots i) ((λ j ne. unfold lookup in refl), tt);
    },
    λ j. elim (Bool-cases (length (clear m).slots == 0)) [
      | inl e ↦ find_no_slots (clear m) j ((==_iff _ 0).0 e)
      | inr e ↦
          find_lem (clear m) j (ground (arith, e))
          ∙ ap (lookup j) (bucket_at-clear_slots m.slots _)
          ∙ unfold lookup in refl
    ],
  )

  pub empty_lem : IsValid (empty {V = V}) × ((j : ℕ) → find (empty {V = V}) j ≡ none)
  empty_lem = (record { placed = λ i lt. absurd (omega arith) }, λ j. find_no_slots empty j refl)
