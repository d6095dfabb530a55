-- ===== src/Core/DynamicMap/Bucket.antt =====
-- One bucket of the table, as the lookup of its first pair with a key.
use plexdb.Prelude.{
  ℕ, zero, suc, ◌-◌, ◌≡◌, ◌≢◌, subst, refl, sym, ◌∙◌, ap, Option, none, some, [], ◌∷◌, ◌++◌, ◌==◌,
  if◌then◌else◌, length, length-append, get_elem?, arith, Option-cases, inl, inr, ==_refl,
  take-length-append,
}
use plexdb.Core.DynamicMap.{Bucket, pair_index, pair_value, assign, move_last, swap_remove}

module _ {ℓ} {V : Type ℓ} where
  unfoldable pub lookup : ℕ → Bucket V → Option V
  lookup key [] = none
  lookup key ((k, v) ∷ b) = if k == key then some v else lookup key b

  abbrev pub or_else : Option V → Option V → Option V
  or_else none o = o
  or_else (some v) o = some v

  -- No key stands twice.
  abbrev pub Distinct : Bucket V → Type ℓ
  Distinct [] = Unit {ℓ}
  Distinct ((k, v) ∷ b) = (lookup k b ≡ none) × Distinct b

  pub lookup-append :
      (key : ℕ) (b c : Bucket V) → lookup key (b ++ c) ≡ or_else (lookup key b) (lookup key c)
  unfolding lookup
  lookup-append key [] c = refl
  lookup-append key ((k, v) ∷ b) c = ground (arith, lookup-append key b c)

  pub pair_index-none : (key : ℕ) (b : Bucket V) → pair_index key b ≡ none → lookup key b ≡ none
  unfolding pair_index lookup
  pair_index-none key [] h = refl
  pair_index-none key ((k, v) ∷ b) h = elim (Option-cases (pair_index key b)) [
    | inl e ↦ ground (arith, pair_index-none key b e)
    | inr (i, e) ↦ ground arith
  ]

  pub pair_index-some :
      (key i : ℕ) (b : Bucket V)
      → pair_index key b ≡ some i
      → pair_value (get_elem? b i) ≡ lookup key b
  unfolding pair_index lookup
  pair_index-some key i [] h = cc
  pair_index-some key zero ((k, v) ∷ b) h = elim (Option-cases (pair_index key b)) [
    | inl e ↦ ground arith
    | inr (j, e) ↦ ground arith
  ]
  pair_index-some key (suc i) ((k, v) ∷ b) h = elim (Option-cases (pair_index key b)) [
    | inl e ↦ ground arith
    | inr (j, e) ↦ ground (arith, pair_index-some key i b)
  ]

  pub lookup-assign :
      (key i j : ℕ) (v : V) (b : Bucket V)
      → pair_index key b ≡ some i
      → lookup j (assign b i v) ≡ (if key == j then some v else lookup j b)
  unfolding pair_index lookup assign
  lookup-assign key i j v [] h = cc
  lookup-assign key zero j v ((k, w) ∷ b) h = elim (Option-cases (pair_index key b)) [
    | inl e ↦ ground arith
    | inr (n, e) ↦ ground arith
  ]
  lookup-assign key (suc i) j v ((k, w) ∷ b) h = elim (Option-cases (pair_index key b)) [
    | inl e ↦ ground arith
    | inr (n, e) ↦ ground (arith, lookup-assign key i j v b)
  ]

  assign-none :
      (i : ℕ) (v : V) (k : ℕ) (b : Bucket V) → lookup k b ≡ none → lookup k (assign b i v) ≡ none
  unfolding assign lookup
  assign-none i v k [] n = n
  assign-none zero v k ((j, w) ∷ b) n = ground arith
  assign-none (suc i) v k ((j, w) ∷ b) n = ground (arith, assign-none i v k b)

  pub assign-Distinct : (i : ℕ) (v : V) (b : Bucket V) → Distinct b → Distinct (assign b i v)
  unfolding assign
  assign-Distinct i v [] d = d
  assign-Distinct zero v ((k, w) ∷ b) d = d
  assign-Distinct (suc i) v ((k, w) ∷ b) (n, d) = (assign-none i v k b n, assign-Distinct i v b d)

  -- What swap_remove makes of a bucket, by its shape.
  pub unsnoc :
      (p : ℕ × V) (b : Bucket V) → (zs : Bucket V) × (last : ℕ × V) × (p ∷ b ≡ zs ++ (last ∷ []))
  unsnoc p [] = ([], p, refl)
  unsnoc p (q ∷ b) =
      let (zs, last, e) = unsnoc q b in (p ∷ zs, last, ap (λ (t : Bucket V). p ∷ t) e)

  last-snoc : (zs : Bucket V) (l : ℕ × V) → get_elem? (zs ++ (l ∷ [])) (length zs) ≡ some l
  last-snoc [] l = refl
  last-snoc (z ∷ zs) l = last-snoc zs l

  swap_remove-cons :
      (p : ℕ × V) (b : Bucket V) (i : ℕ) → swap_remove (p ∷ b) i ≡ move_last (length b) (p ∷ b) i
  swap_remove-cons p b i =
      let e : suc (length b) - 1 ≡ length b = omega arith in
      unfold swap_remove in ap (λ n. move_last n (p ∷ b) i) e

  swap_remove-one : (p : ℕ × V) → swap_remove (p ∷ []) 0 ≡ []
  swap_remove-one p = rw swap_remove-cons (unfold move_last in refl)

  move_last-zero :
      (p l : ℕ × V) (zs : Bucket V) → move_last (suc (length zs)) (p ∷ (zs ++ (l ∷ []))) 0 ≡ l ∷ zs
  unfolding move_last
  move_last-zero p l zs =
      rw (move_last, last-snoc zs l) (ap (λ t. l ∷ t) (take-length-append zs (l ∷ [])))

  swap_remove-zero : (p l : ℕ × V) (zs : Bucket V) → swap_remove (p ∷ (zs ++ (l ∷ []))) 0 ≡ l ∷ zs
  swap_remove-zero p l zs =
      let e : length (zs ++ (l ∷ [])) ≡ suc (length zs) =
        omega (arith, length-append zs (l ∷ [])) in
      swap_remove-cons p (zs ++ (l ∷ [])) 0
      ∙ ap (λ n. move_last n (p ∷ (zs ++ (l ∷ []))) 0) e
      ∙ move_last-zero p l zs

  move_last-suc :
      (p q : ℕ × V) (b : Bucket V) (n i : ℕ)
      → move_last (suc n) (p ∷ q ∷ b) (suc i) ≡ p ∷ move_last n (q ∷ b) i
  unfolding move_last
  move_last-suc p q b n i = elim (Option-cases (get_elem? (q ∷ b) n)) [
    | inl e ↦ rw (move_last, e)
    | inr (l, e) ↦ rw (move_last, e)
  ]

  swap_remove-suc :
      (p q : ℕ × V) (b : Bucket V) (i : ℕ)
      → swap_remove (p ∷ q ∷ b) (suc i) ≡ p ∷ swap_remove (q ∷ b) i
  swap_remove-suc p q b i =
      swap_remove-cons p (q ∷ b) (suc i)
      ∙ move_last-suc p q b (length b) i
      ∙ ap (λ t. p ∷ t) (sym (swap_remove-cons q b i))

  -- The last pair may stand first instead, if its key stands nowhere else.
  lookup-snoc :
      (j : ℕ) (l : ℕ × V) (zs : Bucket V)
      → Distinct (zs ++ (l ∷ []))
      → (lookup j (zs ++ (l ∷ [])) ≡ lookup j (l ∷ zs)) × Distinct (l ∷ zs)
  unfolding lookup
  lookup-snoc j (k, v) [] d = (refl, d)
  lookup-snoc j (k, v) ((i, w) ∷ zs) (n, d) =
      let (same, (fresh, rest)) = lookup-snoc j (k, v) zs d in
      let (same_i, _) = lookup-snoc i (k, v) zs d in
      (ground arith, (ground (arith, n, same_i), (ground (arith, n, same_i), rest)))

  pair_index-zero :
      (key k : ℕ) (v : V) (b : Bucket V) → pair_index key ((k, v) ∷ b) ≡ some 0 → k ≡ key
  unfolding pair_index
  pair_index-zero key k v b h = elim (Option-cases (pair_index key b)) [
    | inl e ↦ ground arith
    | inr (n, e) ↦ ground arith
  ]

  pair_index-suc :
      (key k i : ℕ) (v : V) (b : Bucket V)
      → pair_index key ((k, v) ∷ b) ≡ some (suc i)
      → (k ≢ key) × (pair_index key b ≡ some i)
  unfolding pair_index
  pair_index-suc key k i v b h = elim (Option-cases (pair_index key b)) [
    | inl e ↦ ground arith
    | inr (n, e) ↦ ground arith
  ]

  -- Where the first pair of several is removed, the last one takes its place.
  remove_first :
      (j k : ℕ) (v : V) (l : ℕ × V) (zs : Bucket V)
      → Distinct ((k, v) ∷ (zs ++ (l ∷ [])))
      → (lookup j (swap_remove ((k, v) ∷ (zs ++ (l ∷ []))) 0)
          ≡ (if k == j then none else lookup j ((k, v) ∷ (zs ++ (l ∷ [])))))
        × Distinct (swap_remove ((k, v) ∷ (zs ++ (l ∷ []))) 0)
  unfolding lookup
  remove_first j k v l zs (n, d) =
      let (same, distinct) = lookup-snoc j l zs d in
      rw (swap_remove-zero (k, v) l zs) (ground (arith, n, same), distinct)

  pub lookup-swap_remove :
      (key i j : ℕ) (b : Bucket V)
      → Distinct b
      → pair_index key b ≡ some i
      → (lookup j (swap_remove b i) ≡ (if key == j then none else lookup j b))
        × Distinct (swap_remove b i)
  unfolding lookup
  lookup-swap_remove key i j [] d h = unfold pair_index in cc
  lookup-swap_remove key zero j ((k, v) ∷ []) d h =
      let e = pair_index-zero key k v [] h in rw swap_remove-one (ground arith, tt)
  lookup-swap_remove key (suc i) j ((k, v) ∷ []) d h =
      let (_, absurd_index) = pair_index-suc key k i v [] h in unfold pair_index in cc
  lookup-swap_remove key zero j ((k, v) ∷ q ∷ b) d h =
      let e = pair_index-zero key k v (q ∷ b) h in
      let (zs, l, shape) = unsnoc q b in
      let Removed : Bucket V → Type _ = λ t.
        Distinct ((k, v) ∷ t)
        → (lookup j (swap_remove ((k, v) ∷ t) 0)
            ≡ (if key == j then none else lookup j ((k, v) ∷ t)))
          × Distinct (swap_remove ((k, v) ∷ t) 0) in
      subst Removed (sym shape) (rw (← e) (remove_first j k v l zs)) d
  lookup-swap_remove key (suc i) j ((k, v) ∷ q ∷ b) (n, d) h =
      let (ne, at) = pair_index-suc key k i v (q ∷ b) h in
      let (same, distinct) = lookup-swap_remove key i j (q ∷ b) d at in
      let (same_k, _) = lookup-swap_remove key i k (q ∷ b) d at in
      rw (swap_remove-suc (k, v) q b i)
        (ground (arith, same), (ground (arith, same_k, n), distinct))

  pub pair_index-present :
      (key i : ℕ) (b : Bucket V) → pair_index key b ≡ some i → (v : V) × (lookup key b ≡ some v)
  unfolding lookup pair_index
  pair_index-present key i [] h = cc
  pair_index-present key zero ((k, v) ∷ b) h =
      (v, rw (pair_index-zero key k v b h, ==_refl key) refl)
  pair_index-present key (suc i) ((k, v) ∷ b) h =
      let (ne, at) = pair_index-suc key k i v b h in
      let (w, e) = pair_index-present key i b at in (w, ground arith)
