-- ===== src/Core/DynamicMap/Rehash.antt =====
-- core/dynamic/containers.cppm: rehash of a DynamicMap.
use plexdb.Prelude.{
  ℕ, zero, suc, ◌+◌, ◌%◌, ◌<◌, ◌≡◌, ◌≢◌, refl, sym, ◌∙◌, ap, subst, Option, none, some, List, [],
  ◌∷◌, ◌++◌, ◌==◌, if◌then◌else◌, length, length-replicate, replicate, arith, Option-cases,
  Bool-cases, ==_iff, inl, inr,
}
use plexdb.Core.DynamicMap.{
  DynamicMap, Bucket, bucket_at, hash, find, push_back, add_pair, rehash_bucket, rehash_slots,
  rehash,
}
use plexdb.Core.DynamicMap.Bucket.{lookup, Distinct, or_else, lookup-append}
use plexdb.Core.DynamicMap.Valid.{
  Placed, IsValid, find_lem, with_slot-IsValid, find-with_slot, length-set_slot,
}

module _ {V : Type 0} where
  snoc-Distinct :
      (k : ℕ) (v : V) (b : Bucket V)
      → lookup k b ≡ none
      → Distinct b
      → Distinct (b ++ ((k, v) ∷ []))
  unfolding lookup
  snoc-Distinct k v [] n d = (refl, tt)
  snoc-Distinct k v ((i, w) ∷ b) n (m, d) =
      (ground (arith, lookup-append i b ((k, v) ∷ [])), snoc-Distinct k v b (ground arith) d)

  lookup-snoc_new :
      (k : ℕ) (v : V) (b : Bucket V) (j : ℕ)
      → lookup k b ≡ none
      → lookup j (b ++ ((k, v) ∷ [])) ≡ (if k == j then some v else lookup j b)
  unfolding lookup
  lookup-snoc_new k v b j n = elim (Option-cases (lookup j b)) [
    | inl e ↦ ground (arith, lookup-append j b ((k, v) ∷ []))
    | inr (w, e) ↦ ground (arith, lookup-append j b ((k, v) ∷ []))
  ]

  -- A pair with a new key, put behind the others of its bucket.
  pub add_pair_lem :
      (m : DynamicMap V) (k : ℕ) (v : V)
      → IsValid m
      → 0 < length m.slots
      → find m k ≡ none
      → IsValid (add_pair m k v)
        × ((j : ℕ) → find (add_pair m k v) j ≡ (if k == j then some v else find m j))
        × (length (add_pair m k v).slots ≡ length m.slots)
  unfolding add_pair
  add_pair_lem m k v valid h new =
      let b = bucket_at m.slots (hash k % length m.slots) in
      let absent : lookup k b ≡ none = sym (find_lem m k h) ∙ new in
      let at : hash k % length m.slots < length m.slots = grind arith in
      let distinct = snoc-Distinct k v b absent (valid.placed _ at).1 in
      let same = λ (j : ℕ). lookup-snoc_new k v b j absent in
      (
        with_slot-IsValid m k (b ++ ((k, v) ∷ [])) (some v) valid h distinct same,
        find-with_slot m k (b ++ ((k, v) ∷ [])) (some v) valid h distinct same,
        length-set_slot m.slots _ _,
      )

  abbrev table : List (Bucket V) → DynamicMap V
  table slots = record { slots = slots }

  -- No key of the bucket is in the table yet.
  abbrev Apart : Bucket V → List (Bucket V) → Type 0
  Apart b new_slots = (j : ℕ) → lookup j b ≢ none → find (table new_slots) j ≡ none

  -- One push of rehash, which names the number of new slots.
  push_lem :
      (new_slots : List (Bucket V)) (n k : ℕ) (v : V)
      → IsValid (table new_slots)
      → length new_slots ≡ n
      → 0 < n
      → find (table new_slots) k ≡ none
      → IsValid (table (push_back new_slots (hash k % n) (k, v)))
        × ((j : ℕ)
            → find (table (push_back new_slots (hash k % n) (k, v))) j
              ≡ (if k == j then some v else find (table new_slots) j))
        × (length (push_back new_slots (hash k % n) (k, v)) ≡ n)
  unfolding add_pair
  push_lem new_slots n k v valid len pos new =
      let Pushed : ℕ → Type 0 = λ t.
        IsValid (table (push_back new_slots (hash k % t) (k, v)))
        × ((j : ℕ)
            → find (table (push_back new_slots (hash k % t) (k, v))) j
              ≡ (if k == j then some v else find (table new_slots) j))
        × (length (push_back new_slots (hash k % t) (k, v)) ≡ t) in
      let some_slot : 0 < length new_slots = omega arith in
      subst Pushed len (add_pair_lem (table new_slots) k v valid some_slot new)

  rehash_bucket_lem :
      (b : Bucket V) (new_slots : List (Bucket V)) (n : ℕ)
      → IsValid (table new_slots)
      → length new_slots ≡ n
      → 0 < n
      → Distinct b
      → Apart b new_slots
      → IsValid (table (rehash_bucket n b new_slots))
        × (length (rehash_bucket n b new_slots) ≡ n)
        × ((j : ℕ)
            → find (table (rehash_bucket n b new_slots)) j
              ≡ or_else (lookup j b) (find (table new_slots) j))
  unfolding rehash_bucket lookup
  rehash_bucket_lem [] new_slots n valid len pos d apart = (valid, len, λ j. refl)
  rehash_bucket_lem ((k, v) ∷ b) new_slots n valid len pos (absent, d) apart =
      let new = apart k (λ h. ground arith) in
      let (valid', found, len') = push_lem new_slots n k v valid len pos new in
      let (valid'', len'', found') =
        rehash_bucket_lem b (push_back new_slots (hash k % n) (k, v)) n valid' len' pos d
          (λ j h. ground (arith, found j, absent, apart j)) in
      (valid'', len'', λ j. found' j ∙ ground (arith, found j, absent))

  or_else-none : (o p : Option V) → or_else o p ≡ none → o ≡ none
  or_else-none none p h = refl
  or_else-none (some v) p h = cc

  either_first :
      (o p q r : Option V)
      → r ≡ or_else o q
      → (o ≢ none → p ≡ none)
      → or_else p r ≡ or_else (or_else o p) q
  either_first none p q r e alone = rw e
  either_first (some v) p q r e alone = let p_none : p ≡ none = alone (λ h. cc) in rw (p_none, e)

  -- The pairs of several buckets, the first bucket's first.
  pub lookup_all : ℕ → List (Bucket V) → Option V
  lookup_all j [] = none
  lookup_all j (b ∷ bs) = or_else (lookup j b) (lookup_all j bs)

  -- No bucket holds a key twice, and no two buckets share one.
  abbrev Separate : List (Bucket V) → Type 0
  Separate [] = Unit {0}
  Separate (b ∷ bs) =
      Distinct b × ((j : ℕ) → lookup j b ≢ none → lookup_all j bs ≡ none) × Separate bs

  rehash_slots_lem :
      (bs new_slots : List (Bucket V)) (n : ℕ)
      → IsValid (table new_slots)
      → length new_slots ≡ n
      → 0 < n
      → Separate bs
      → ((j : ℕ) → lookup_all j bs ≢ none → find (table new_slots) j ≡ none)
      → IsValid (table (rehash_slots n bs new_slots))
        × (length (rehash_slots n bs new_slots) ≡ n)
        × ((j : ℕ)
            → find (table (rehash_slots n bs new_slots)) j
              ≡ or_else (lookup_all j bs) (find (table new_slots) j))
  unfolding rehash_slots lookup_all
  rehash_slots_lem [] new_slots n valid len pos s apart = (valid, len, λ j. refl)
  rehash_slots_lem (b ∷ bs) new_slots n valid len pos (d, alone, s) apart =
      let (valid', len', found) =
        rehash_bucket_lem b new_slots n valid len pos d
          (λ j h. apart j (λ e. h (or_else-none (lookup j b) _ e))) in
      let (valid'', len'', found') =
        rehash_slots_lem bs (rehash_bucket n b new_slots) n valid' len' pos s (λ j h.
          elim (Option-cases (lookup j b)) [
            | inl e ↦ found j ∙ rw e (apart j (λ q. h (rw e at q)))
            | inr (v, e) ↦ absurd (h (alone j (λ q. cc)))
          ]) in
      (
        valid'',
        len'',
        λ j. found' j ∙ either_first (lookup j b) (lookup_all j bs) _ _ (found j) (alone j),
      )

  or_else_none_right : (o : Option V) → or_else o none ≡ o
  or_else_none_right none = refl
  or_else_none_right (some v) = refl

  -- Buckets that stand in a table of n slots from slot s on.
  abbrev From : ℕ → ℕ → List (Bucket V) → Type 0
  From n s bs = (i : ℕ) → i < length bs → Placed n (s + i) (bucket_at bs i)

  From-tail :
      (n s : ℕ) (b : Bucket V) (bs : List (Bucket V)) → From n s (b ∷ bs) → From n (suc s) bs
  From-tail n s b bs from i lt =
      subst (λ t. Placed n t (bucket_at bs i)) (omega arith) (from (suc i) (omega arith))

  From-head : (n s : ℕ) (b : Bucket V) (bs : List (Bucket V)) → From n s (b ∷ bs) → Placed n s b
  From-head n s b bs from = subst (λ t. Placed n t b) (omega arith) (from 0 (omega arith))

  lookup_all_below :
      (n s j : ℕ) (bs : List (Bucket V)) → From n s bs → hash j % n < s → lookup_all j bs ≡ none
  unfolding lookup_all
  lookup_all_below n s j [] from lt = refl
  lookup_all_below n s j (b ∷ bs) from lt =
      rw ((From-head n s b bs from).0 j (omega arith))
        (lookup_all_below n (suc s) j bs (From-tail n s b bs from) (omega arith))

  From-Separate : (n s : ℕ) (bs : List (Bucket V)) → From n s bs → Separate bs
  From-Separate n s [] from = tt
  From-Separate n s (b ∷ bs) from = (
    (From-head n s b bs from).1,
    λ j h. elim (Bool-cases (hash j % n == s)) [
      | inl e ↦
          lookup_all_below n (suc s) j bs (From-tail n s b bs from)
            (omega (arith, (==_iff (hash j % n) s).0 e))
      | inr e ↦ absurd (h ((From-head n s b bs from).0 j (λ q. ground (arith, e, q))))
    ],
    From-Separate n (suc s) bs (From-tail n s b bs from),
  )

  lookup_all-bucket_at :
      (n s i j : ℕ) (bs : List (Bucket V))
      → From n s bs
      → hash j % n ≡ s + i
      → i < length bs
      → lookup_all j bs ≡ lookup j (bucket_at bs i)
  unfolding lookup_all
  lookup_all-bucket_at n s i j [] from e lt = absurd (omega arith)
  lookup_all-bucket_at n s zero j (b ∷ bs) from e lt =
      rw (lookup_all_below n (suc s) j bs (From-tail n s b bs from) (omega arith))
        (or_else_none_right (lookup j b))
  lookup_all-bucket_at n s (suc i) j (b ∷ bs) from e lt =
      rw ((From-head n s b bs from).0 j (omega arith)) (
        lookup_all-bucket_at n (suc s) i j bs (From-tail n s b bs from) (omega arith) (omega arith))

  bucket_at-replicate : (n i : ℕ) → bucket_at (replicate {A = Bucket V} n []) i ≡ []
  bucket_at-replicate zero i = refl
  bucket_at-replicate (suc n) zero = refl
  bucket_at-replicate (suc n) (suc i) = bucket_at-replicate n i

  -- A table of n empty slots.
  pub new_slots_lem :
      (n : ℕ)
      → 0 < n
      → IsValid (table (replicate n [])) × ((j : ℕ) → find (table (replicate n [])) j ≡ none)
  unfolding lookup
  new_slots_lem n pos = (
    record { placed = λ i lt. rw (bucket_at-replicate n i) ((λ j ne. refl), tt) },
    λ j.
        find_lem (table (replicate n [])) j (rw (length-replicate n) pos)
        ∙ ap (lookup j) (bucket_at-replicate n _),
  )

  -- rehash of a table with slots to a positive number of slots keeps the invariant, gives that
  -- number of slots, and leaves every answer of find as it was.
  pub rehash_lem :
      (m : DynamicMap V) (count : ℕ)
      → IsValid m
      → 0 < length m.slots
      → 0 < count
      → IsValid (rehash m count)
        × (length (rehash m count).slots ≡ count)
        × ((j : ℕ) → find (rehash m count) j ≡ find m j)
  unfolding rehash
  rehash_lem m count valid pos pos' =
      let from : From (length m.slots) 0 m.slots = λ i lt.
        subst (λ t. Placed (length m.slots) t (bucket_at m.slots i)) (omega arith)
          (valid.placed i lt) in
      let (new_valid, new_none) = new_slots_lem count pos' in
      let (valid', len', found) =
        rehash_slots_lem m.slots (replicate count []) count new_valid (length-replicate count [])
          pos' (From-Separate (length m.slots) 0 m.slots from) (λ j h. new_none j) in
      (
        valid',
        len',
        λ j.
            found j
            ∙ rw (new_none j) (or_else_none_right (lookup_all j m.slots))
            ∙ lookup_all-bucket_at (length m.slots) 0 (hash j % length m.slots) j m.slots from
                (omega arith) (grind arith)
            ∙ sym (find_lem m j pos),
      )
