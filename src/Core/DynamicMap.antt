-- ===== src/Core/DynamicMap.antt =====
-- core/dynamic/containers.cppm: DynamicMap, a table of buckets, at the key type U64 with which the
-- engine and the log use it. hash is that of core/base/math.cppm.
pub mod Bucket
pub mod Valid
pub mod Rehash
pub mod Laws
mod Runs
use plexdb.Prelude.{
  ℕ, zero, suc, ◌+◌, ◌-◌, ◌*◌, ◌%◌, ◌^◌, Bool, true, false, Option, none, some, List, [], ◌∷◌, ◌++◌,
  ◌==◌, ltb, if◌then◌else◌, length, get_elem?, set, take, replicate,
}

-- inline constexpr U64 hash(U64 x)
pub hash : ℕ → ℕ
hash x = (1 + x) % 2 ^ 64

abbrev pub max_pairs_per_slot : ℕ
max_pairs_per_slot = 4

abbrev pub initial_slots : ℕ
initial_slots = 4

abbrev pub slot_growth_rate : ℕ
slot_growth_rate = 2

module _ {ℓ} (V : Type ℓ) where
  abbrev pub Bucket : Type ℓ
  Bucket = List (ℕ × V)

  pub record DynamicMap : Type ℓ where
    pub slots : List Bucket

module _ {ℓ} {V : Type ℓ} where
  abbrev pub bucket_at : List (Bucket V) → ℕ → Bucket V
  bucket_at [] i = []
  bucket_at (b ∷ bs) zero = b
  bucket_at (b ∷ bs) (suc i) = bucket_at bs i

  -- for (i = 0; i < bucket.length; i++) if (bucket[i].first == key) ...
  pub pair_index : ℕ → Bucket V → Option ℕ
  pair_index key [] = none
  pair_index key ((k, v) ∷ b) =
      let rest = pair_index key b in
      if k == key then some 0 else elim rest [ none ↦ none | some i ↦ some (i + 1) ]

  pub find_slot_and_pair : DynamicMap V → ℕ → Option (ℕ × ℕ)
  unfolding hash pair_index
  find_slot_and_pair m key =
      let slot = hash key % length m.slots in
      if length m.slots == 0
      then none
      else elim (pair_index key (bucket_at m.slots slot)) [ none ↦ none | some i ↦ some (slot, i) ]

  abbrev pub pair_value : Option (ℕ × V) → Option V
  pair_value none = none
  pair_value (some (k, v)) = some v

  -- The value behind the pointer that find returns; `none` is the null pointer.
  unfoldable pub find : DynamicMap V → ℕ → Option V
  unfolding find_slot_and_pair
  find m key = elim (find_slot_and_pair m key) [
    | none ↦ none
    | some (slot, i) ↦ pair_value (get_elem? (bucket_at m.slots slot) i)
  ]

  abbrev pub push_back : List (Bucket V) → ℕ → ℕ × V → List (Bucket V)
  push_back slots i p = set slots i (bucket_at slots i ++ (p ∷ []))

  -- The inner and the outer loop of rehash.
  pub rehash_bucket : ℕ → Bucket V → List (Bucket V) → List (Bucket V)
  unfolding hash
  rehash_bucket count [] new_slots = new_slots
  rehash_bucket count ((k, v) ∷ b) new_slots =
      rehash_bucket count b (push_back new_slots (hash k % count) (k, v))

  pub rehash_slots : ℕ → List (Bucket V) → List (Bucket V) → List (Bucket V)
  unfolding rehash_bucket
  rehash_slots count [] new_slots = new_slots
  rehash_slots count (b ∷ bs) new_slots = rehash_slots count bs (rehash_bucket count b new_slots)

  pub rehash : DynamicMap V → ℕ → DynamicMap V
  unfolding rehash_slots
  rehash m new_slot_count = record {
    slots = rehash_slots new_slot_count m.slots (replicate new_slot_count []);
  }

  -- Some slot holds more than DYNAMIC_MAP_MAX_PAIRS_PER_SLOT pairs.
  pub any_full : List (Bucket V) → Bool
  any_full [] = false
  any_full (b ∷ bs) =
      let rest = any_full bs in if ltb max_pairs_per_slot (length b) then true else rest

  pub reserve_for_push : DynamicMap V → DynamicMap V
  unfolding rehash any_full
  reserve_for_push m =
      if length m.slots == 0
      then record { slots = replicate initial_slots [] }
      else if any_full m.slots
      then rehash m (length m.slots * slot_growth_rate + 1)
      else m

  pub assign : Bucket V → ℕ → V → Bucket V
  assign [] i v = []
  assign ((k, w) ∷ b) zero v = (k, v) ∷ b
  assign (p ∷ b) (suc i) v = p ∷ assign b i v

  pub add_pair : DynamicMap V → ℕ → V → DynamicMap V
  unfolding hash
  add_pair m key v = record { slots = push_back m.slots (hash key % length m.slots) (key, v) }

  unfoldable pub insert : DynamicMap V → ℕ → V → DynamicMap V
  unfolding find_slot_and_pair assign reserve_for_push add_pair
  insert m key v = elim (find_slot_and_pair m key) [
    | some (slot, i) ↦ record { slots = set m.slots slot (assign (bucket_at m.slots slot) i v) }
    | none ↦ add_pair (reserve_for_push m) key v
  ]

  -- With n for bucket.length - 1: bucket[i] = move(bucket[n]); pop_back(bucket);
  pub move_last : ℕ → Bucket V → ℕ → Bucket V
  move_last n b i = elim (get_elem? b n) [ none ↦ b | some last ↦ take n (set b i last) ]

  pub swap_remove : Bucket V → ℕ → Bucket V
  unfolding move_last
  swap_remove b i = move_last (length b - 1) b i

  unfoldable pub remove : DynamicMap V → ℕ → DynamicMap V × Bool
  unfolding find_slot_and_pair swap_remove
  remove m key = elim (find_slot_and_pair m key) [
    | none ↦ (m, false)
    | some (slot, i) ↦
        (record { slots = set m.slots slot (swap_remove (bucket_at m.slots slot) i) }, true)
  ]

  -- clear(map.slots[i]) for each slot
  abbrev pub clear_slots : List (Bucket V) → List (Bucket V)
  clear_slots [] = []
  clear_slots (b ∷ bs) = [] ∷ clear_slots bs

  unfoldable pub clear : DynamicMap V → DynamicMap V
  clear m = record { slots = clear_slots m.slots }

  abbrev pub empty : DynamicMap V
  empty = record { slots = [] }
