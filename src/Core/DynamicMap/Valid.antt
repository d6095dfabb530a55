-- ===== src/Core/DynamicMap/Valid.antt =====
-- The invariant of the table: every pair stands in the bucket of its key's hash, and no key stands
-- twice.
use plexdb.Prelude.{
  ℕ, zero, suc, ◌%◌, ◌<◌, ◌≡◌, ◌≢◌, refl, ◌∙◌, ap, Option, none, List, [], ◌∷◌, ◌==◌, if◌then◌else◌,
  length, set, arith, Option-cases, inl, inr, Bool-cases, ==_iff,
}
use plexdb.Core.DynamicMap.{DynamicMap, Bucket, bucket_at, hash, pair_index, find}
use plexdb.Core.DynamicMap.Bucket.{lookup, Distinct, pair_index-none, pair_index-some}

module _ {V : Type 0} where
  -- The pairs of slot `i` of `n`.
  abbrev pub Placed : ℕ → ℕ → Bucket V → Type 0
  Placed n i b = ((j : ℕ) → hash j % n ≢ i → lookup j b ≡ none) × Distinct b

  pub record IsValid (m : DynamicMap V) : Type 0 where
    pub placed : (i : ℕ) → i < length m.slots → Placed (length m.slots) i (bucket_at m.slots i)

  pub bucket_at-set :
      (slots : List (Bucket V)) (i j : ℕ) (b : Bucket V)
      → i < length slots
      → bucket_at (set slots i b) j ≡ (if i == j then b else bucket_at slots j)
  bucket_at-set [] i j b h = absurd (omega arith)
  bucket_at-set (c ∷ slots) zero zero b h = refl
  bucket_at-set (c ∷ slots) zero (suc j) b h = ground arith
  bucket_at-set (c ∷ slots) (suc i) zero b h = ground arith
  bucket_at-set (c ∷ slots) (suc i) (suc j) b h = ground (arith, bucket_at-set slots i j b)

  pub length-set_slot :
      (slots : List (Bucket V)) (i : ℕ) (b : Bucket V) → length (set slots i b) ≡ length slots
  length-set_slot [] i b = refl
  length-set_slot (c ∷ slots) zero b = refl
  length-set_slot (c ∷ slots) (suc i) b = ap suc (length-set_slot slots i b)

  -- find reads the first pair with the key in the bucket of the key's hash.
  pub find_lem :
      (m : DynamicMap V) (key : ℕ)
      → 0 < length m.slots
      → find m key ≡ lookup key (bucket_at m.slots (hash key % length m.slots))
  unfolding find
  find_lem m key h =
      elim (Option-cases (pair_index key (bucket_at m.slots (hash key % length m.slots)))) [
        | inl e ↦
            ground (arith, pair_index-none key (bucket_at m.slots (hash key % length m.slots)))
        | inr (i, e) ↦
            ground (arith, pair_index-some key i (bucket_at m.slots (hash key % length m.slots)))
      ]

  pub find_no_slots : (m : DynamicMap V) (key : ℕ) → length m.slots ≡ 0 → find m key ≡ none
  unfolding find
  find_no_slots m key h = ground arith

  abbrev pub with_slot : DynamicMap V → ℕ → Bucket V → DynamicMap V
  with_slot m i b = record { slots = set m.slots i b }

  module _ (m : DynamicMap V) (key : ℕ) (b : Bucket V) (o : Option V) (valid : IsValid m)
      (some_slot : 0 < length m.slots) (distinct : Distinct b)
      (same : (j : ℕ)
        → lookup j b ≡ (
            if key == j then o else lookup j (bucket_at m.slots (hash key % length m.slots)))) where
    slot : ℕ
    slot = hash key % length m.slots

    slot-lt : slot < length m.slots
    unfolding slot
    slot-lt = grind arith

    elsewhere : (j : ℕ) → hash j % length m.slots ≢ slot → lookup j b ≡ none
    unfolding slot
    elsewhere j ne = ground (arith, same j, (valid.placed slot slot-lt).0 j ne)

    -- A bucket that differs at one key, put in the place of that key's.
    pub with_slot-IsValid : IsValid (with_slot m (hash key % length m.slots) b)
    with_slot-IsValid = record {
      placed = λ i lt.
          let lt' : i < length m.slots =
            (rw (length-set_slot m.slots (hash key % length m.slots) b) at lt) in
          rw
            (
              length-set_slot m.slots (hash key % length m.slots) b,
              bucket_at-set m.slots (hash key % length m.slots) i b (unfold slot in slot-lt),
            )
            (elim (Bool-cases (hash key % length m.slots == i)) [
              | inl e ↦ rw e (
                (λ j ne. elsewhere j (λ h. ne (h ∙ (unfold slot in (==_iff _ _).0 e)))),
                distinct,
              )
              | inr e ↦ rw e (valid.placed i lt')
            ]);
    }

    pub find-with_slot :
        (j : ℕ)
        → find (with_slot m (hash key % length m.slots) b) j ≡ (if key == j then o else find m j)
    find-with_slot j =
        find_lem (with_slot m (hash key % length m.slots) b) j
          (rw (length-set_slot m.slots (hash key % length m.slots) b) some_slot)
        ∙ rw
            (
              length-set_slot m.slots (hash key % length m.slots) b,
              bucket_at-set m.slots (hash key % length m.slots) (hash j % length m.slots) b
                  (unfold slot in slot-lt),
              find_lem m j some_slot,
            )
            (ground (arith, same j))
