-- ===== src/Core/RingFifo/Laws.antt =====
-- core/base/containers.cppm: a RingFifo, against the list of the values that wait in it.
use plexdb.Prelude.{
  ℕ, suc, ◌+◌, ◌-◌, ◌%◌, ◌<◌, ◌≡◌, ◌≢◌, ◌⊎◌, refl, sym, ◌∙◌, ap, subst, false, none, some, List, [],
  ◌∷◌, ◌++◌, ◌==◌, leb, if◌then◌else◌, length, get_elem?, set, get_elem?-set_same,
  get_elem?-set_other, length-set, arith, Bool-cases, inl, inr, ==_refl,
}
use native.Mathlib.Nat.{mod-eq_of_lt, mod_self}
use plexdb.Core.RingFifo.{RingFifo, count, push_front, pop_front}

distance : ℕ → ℕ → ℕ → ℕ
distance n h t = if leb h t then t - h else n - h + t

next-cases :
    (n i : ℕ) → i < n → ((suc i < n) × ((i + 1) % n ≡ suc i)) ⊎ ((suc i ≡ n) × ((i + 1) % n ≡ 0))
next-cases n i h = elim (Bool-cases (suc i == n)) [
  | inl e ↦
      let whole : i + 1 ≡ n = ground (arith, e) in
      inr (ground (arith, e), ap (λ (m : ℕ). m % n) whole ∙ mod_self n)
  | inr e ↦
      let below : i + 1 < n = ground (arith, e, h) in
      inl (omega (arith, below), mod-eq_of_lt below ∙ omega arith)
]

next-below : (n i : ℕ) → i < n → (i + 1) % n < n
next-below n i h = elim (next-cases n i h) [
  | inl (below, e) ↦ rw e below
  | inr (last, e) ↦ rw e (omega (arith, h))
]

distance-next :
    (n h t : ℕ)
    → h < n
    → t < n
    → h ≢ t
    → ((h + 1) % n < n) × (distance n h t ≡ suc (distance n ((h + 1) % n) t))
unfolding distance
distance-next n h t lh lt ne = elim (next-cases n h lh) [
  | inl (below, e) ↦ rw e (below, ground (arith, below, lt, ne))
  | inr (last, e) ↦ rw e (omega (arith, lh), ground (arith, last, lt, ne))
]

-- The place behind the tail is not the head while the ring has room.
room-next : (n h t : ℕ) → h < n → t < n → suc (distance n h t) < n → h ≢ (t + 1) % n
unfolding distance
room-next n h t lh lt room = elim (next-cases n t lt) [
  | inl (below, e) ↦ rw e (ground (arith, below, lh, room))
  | inr (last, e) ↦ rw e (ground (arith, last, lh, room))
]

no_room-next : (n h t : ℕ) → h < n → t < n → suc (distance n h t) ≡ n → (t + 1) % n ≡ h
unfolding distance
no_room-next n h t lh lt room = elim (next-cases n t lt) [
  | inl (below, e) ↦ rw e (ground (arith, below, lh, room))
  | inr (last, e) ↦ rw e (ground (arith, last, lh, room))
]

module _ {A : Type 0} where
  -- From the place h to the place t, the ring of n slots holds these values.
  abbrev pub Held : ℕ → List A → ℕ → ℕ → List A → Type 0
  Held n slots h t [] = h ≡ t
  Held n slots h t (x ∷ xs) =
      (h ≢ t) × (get_elem? slots h ≡ some x) × Held n slots ((h + 1) % n) t xs

  pub record Holds (fifo : RingFifo A) (xs : List A) : Type 0 where
    pub head : fifo.head < length fifo.slots
    pub tail : fifo.tail < length fifo.slots
    pub held : Held (length fifo.slots) fifo.slots fifo.head fifo.tail xs

  Held-length :
      (n : ℕ) (slots : List A) (h t : ℕ) (xs : List A)
      → h < n
      → t < n
      → Held n slots h t xs
      → distance n h t ≡ length xs
  unfolding distance
  Held-length n slots h t [] lh lt e = ground (arith, e)
  Held-length n slots h t (x ∷ xs) lh lt (ne, at, held) =
      let (below, e) = distance-next n h t lh lt ne in
      e ∙ ap suc (Held-length n slots ((h + 1) % n) t xs below lt held)

  Held-push :
      (n : ℕ) (slots : List A) (h t : ℕ) (xs : List A) (v : A)
      → length slots ≡ n
      → h < n
      → t < n
      → suc (distance n h t) < n
      → Held n slots h t xs
      → Held n (set slots t v) h ((t + 1) % n) (xs ++ (v ∷ []))
  Held-push n slots h t [] v ln lh lt room e = (
    room-next n h t lh lt room,
    rw e (get_elem?-set_same slots t v (omega (arith, ln, lt))),
    ap (λ (i : ℕ). (i + 1) % n) e,
  )
  Held-push n slots h t (x ∷ xs) v ln lh lt room (ne, at, held) =
      let (below, e) = distance-next n h t lh lt ne in
      (
        room-next n h t lh lt room,
        get_elem?-set_other slots t h v ne ∙ at,
        Held-push n slots ((h + 1) % n) t xs v ln below lt (omega (arith, e, room)) held,
      )

  -- On a ring that holds some values and has at least two slots more than values, push_front
  -- succeeds, and the ring holds those values with the new one behind them, in as many slots.
  pub push_front-Holds :
      (fifo : RingFifo A) (xs : List A) (v : A)
      → Holds fifo xs
      → suc (length xs) < length fifo.slots
      → (fifo' : RingFifo A) × (push_front fifo v ≡ some fifo')
        × Holds fifo' (xs ++ (v ∷ []))
        × (length fifo'.slots ≡ length fifo.slots)
  unfolding push_front
  push_front-Holds fifo xs v r room =
      let n = length fifo.slots in
      let len = Held-length n fifo.slots fifo.head fifo.tail xs r.head r.tail r.held in
      let has_room : suc (distance n fifo.head fifo.tail) < n = omega (arith, len, room) in
      let apart = room-next n fifo.head fifo.tail r.head r.tail has_room in
      let same = length-set fifo.slots fifo.tail v in
      let held =
        Held-push n fifo.slots fifo.head fifo.tail xs v refl r.head r.tail has_room r.held in
      let not_full : ((fifo.tail + 1) % n == fifo.head) ≡ false = ground (arith, apart) in
      (
        record fifo {
          slots = set fifo.slots fifo.tail v;
          tail = (fifo.tail + 1) % length fifo.slots;
        },
        rw not_full refl,
        record {
          head = rw same r.head;
          tail = rw same (next-below n fifo.tail r.tail);
          held =
              subst
                (λ (m : ℕ).
                  Held m (set fifo.slots fifo.tail v) fifo.head ((fifo.tail + 1) % n)
                    (xs ++ (v ∷ [])))
                (sym same) held;
        },
        same,
      )

  -- On a ring that holds one value fewer than it has slots, the assertion of push_front fails.
  pub push_front-full :
      (fifo : RingFifo A) (xs : List A) (v : A)
      → Holds fifo xs
      → suc (length xs) ≡ length fifo.slots
      → push_front fifo v ≡ none
  unfolding push_front
  push_front-full fifo xs v r no_room =
      let n = length fifo.slots in
      let len = Held-length n fifo.slots fifo.head fifo.tail xs r.head r.tail r.held in
      let met = no_room-next n fifo.head fifo.tail r.head r.tail (omega (arith, len, no_room)) in
      rw (met, ==_refl fifo.head) refl

  -- What pop_front does to a ring that holds these values: it fails on none of them, and takes the
  -- first of some.
  abbrev pub Popped : RingFifo A → List A → Type 0
  Popped fifo [] = pop_front fifo ≡ none
  Popped fifo (x ∷ xs) =
      (fifo' : RingFifo A) × (pop_front fifo ≡ some (x, fifo'))
      × Holds fifo' xs
      × (length fifo'.slots ≡ length fifo.slots)

  -- On a ring that holds some values, pop_front gives the first of them and leaves a ring that
  -- holds the others in as many slots; on a ring that holds none its assertion fails.
  pub pop_front-Holds : (fifo : RingFifo A) (xs : List A) → Holds fifo xs → Popped fifo xs
  unfolding pop_front
  pop_front-Holds fifo [] r = rw (r.held, ==_refl fifo.tail) refl
  pop_front-Holds fifo (x ∷ xs) r =
      let n = length fifo.slots in
      let (ne, at, held) = r.held in
      let some_left : (fifo.head == fifo.tail) ≡ false = ground (arith, ne) in
      (
        record fifo { head = (fifo.head + 1) % length fifo.slots },
        rw (some_left, at) refl,
        record { head = next-below n fifo.head r.head; tail = r.tail; held = held },
        refl,
      )

  -- On a ring that holds some values, count is their number, and is below the number of slots.
  pub count-Holds :
      (fifo : RingFifo A) (xs : List A)
      → Holds fifo xs
      → (count fifo ≡ length xs) × (length xs < length fifo.slots)
  unfolding distance
  count-Holds fifo xs r =
      let n = length fifo.slots in
      let len = Held-length n fifo.slots fifo.head fifo.tail xs r.head r.tail r.held in
      (len, ground (arith, len, r.head, r.tail))
