-- ===== src/Cql/Token/Stream.antt =====
-- update of Murmur3State (cql/engine/token.cpp) as a walk over whole blocks that may stop between
-- any two bytes: the carry is what the walk has left.
use plexdb.Prelude.{
  ℕ, zero, suc, ◌+◌, ◌-◌, ◌*◌, ◌/◌, ◌%◌, ◌^◌, ◌≤◌, ◌<◌, ◌≡◌, ◌∙◌, refl, sym, ap, min, List, [], ◌∷◌,
  ◌++◌, length, take, drop, length-append, length-take, length-drop, take-append_le, drop-append_le,
  append-nil, append_assoc, take-all, drop-all, take-append_ge, drop-append_ge, drop-drop, arith,
  inl, inr, ◌⊎◌, leb, Bool-cases, lt→ltb,
}
use plexdb.Prelude.Words.{add64}
use plexdb.Core.Text.{Bytes}
use plexdb.Cql.Token.{
  Hashes, process_block, whole_blocks, fill_carry, update, process_blocks,
  cassandra_murmur3_x64_128_low, murmur3_token, finalize, Murmur3State, new_state,
}

-- What the walk over all the whole blocks of some bytes gives: the words, and the bytes left.
absorb : Hashes → Bytes → Hashes × Bytes
unfolding whole_blocks
absorb h xs = whole_blocks (length xs) h xs

whole_blocks_short :
    (n : ℕ) (h : Hashes) (xs : Bytes) → length xs < 16 → whole_blocks n h xs ≡ (h, xs)
unfolding whole_blocks
whole_blocks_short zero h xs s = refl
whole_blocks_short (suc n) h xs s = ground (arith, s)

whole_blocks_long :
    (n : ℕ) (h : Hashes) (xs : Bytes)
    → 16 ≤ length xs
    → whole_blocks (suc n) h xs ≡ whole_blocks n (process_block h (take 16 xs)) (drop 16 xs)
unfolding whole_blocks
whole_blocks_long n h xs l = ground (arith, l)

short_or_long : (xs : Bytes) → (length xs < 16) ⊎ (16 ≤ length xs)
short_or_long xs = elim (Bool-cases (leb 16 (length xs))) [
  | inl e ↦ inr (ground (arith, e))
  | inr e ↦ inl (ground (arith, e))
]

whole_blocks_fuel :
    (n m : ℕ) (h : Hashes) (xs : Bytes)
    → length xs ≤ n
    → length xs ≤ m
    → whole_blocks n h xs ≡ whole_blocks m h xs
whole_blocks_fuel zero m h xs p q =
    whole_blocks_short 0 h xs (omega arith) ∙ sym (whole_blocks_short m h xs (omega arith))
whole_blocks_fuel (suc n) zero h xs p q =
    whole_blocks_short (suc n) h xs (omega arith) ∙ sym (whole_blocks_short 0 h xs (omega arith))
whole_blocks_fuel (suc n) (suc m) h xs p q = elim (short_or_long xs) [
  | inl s ↦ whole_blocks_short (suc n) h xs s ∙ sym (whole_blocks_short (suc m) h xs s)
  | inr l ↦
      let fewer = length-drop 16 xs in
      whole_blocks_long n h xs l
      ∙ whole_blocks_fuel n m (process_block h (take 16 xs)) (drop 16 xs) (omega arith)
          (omega arith)
      ∙ sym (whole_blocks_long m h xs l)
]

absorb_short : (h : Hashes) (xs : Bytes) → length xs < 16 → absorb h xs ≡ (h, xs)
unfolding absorb
absorb_short h xs s = whole_blocks_short (length xs) h xs s

absorb_long :
    (h : Hashes) (xs : Bytes)
    → 16 ≤ length xs
    → absorb h xs ≡ absorb (process_block h (take 16 xs)) (drop 16 xs)
unfolding absorb
absorb_long h xs l =
    let fewer = length-drop 16 xs in
    whole_blocks_fuel (length xs) (suc (length xs)) h xs (omega arith) (omega arith)
    ∙ whole_blocks_long (length xs) h xs l
    ∙ whole_blocks_fuel (length xs) (length (drop 16 xs)) _ (drop 16 xs) (omega arith) (omega arith)

-- The walk may stop and go on with what it has left.
absorb-append :
    (n : ℕ) (h : Hashes) (xs ys : Bytes)
    → length xs ≤ n
    → absorb h (xs ++ ys) ≡ (let (h', rest) = absorb h xs in absorb h' (rest ++ ys))
absorb-append zero h xs ys b = rw (absorb_short h xs (omega (arith, b)))
absorb-append (suc n) h xs ys b = elim (short_or_long xs) [
  | inl s ↦ rw (absorb_short h xs s)
  | inr l ↦
      let fewer = length-drop 16 xs in
      let longer = length-append xs ys in
      absorb_long h (xs ++ ys) (omega arith)
      ∙ rw (absorb_long h xs l, take-append_le 16 xs ys l, drop-append_le 16 xs ys l)
          (absorb-append n (process_block h (take 16 xs)) (drop 16 xs) ys (omega arith))
]

-- Fewer than 16 bytes are left.
length-absorb : (n : ℕ) (h : Hashes) (xs : Bytes) → length xs ≤ n → length (absorb h xs).1 < 16
length-absorb zero h xs b = rw (absorb_short h xs (omega (arith, b))) (omega (arith, b))
length-absorb (suc n) h xs b = elim (short_or_long xs) [
  | inl s ↦ rw (absorb_short h xs s) s
  | inr l ↦
      let fewer = length-drop 16 xs in
      rw (absorb_long h xs l)
        (length-absorb n (process_block h (take 16 xs)) (drop 16 xs) (omega arith))
]

-- The carry when it is filled with fewer bytes than a block wants, and when it becomes a block.
fill_carry_short :
    (h : Hashes) (carry xs : Bytes)
    → 0 < length carry
    → length carry + length xs < 16
    → fill_carry h carry xs ≡ (h, carry ++ xs, [])
unfolding fill_carry
fill_carry_short h carry xs c s =
    let all : min (length xs) (16 - length carry) ≡ length xs = omega (arith, c, s) in
    let l = length-append carry xs in
    rw
      (
        all,
        take-all xs (length xs) (omega arith),
        drop-all xs (length xs) (omega arith),
        lt→ltb 0 (length carry) c,
      )
      (ground (arith, s))

fill_carry_full :
    (h : Hashes) (carry xs : Bytes)
    → 0 < length carry
    → length carry < 16
    → 16 ≤ length carry + length xs
    → fill_carry h carry xs ≡ (process_block h (take 16 (carry ++ xs)), [], drop 16 (carry ++ xs))
unfolding fill_carry
fill_carry_full h carry xs c b l =
    let part : min (length xs) (16 - length carry) ≡ 16 - length carry = omega (arith, b, l) in
    let filled = length-append carry (take (16 - length carry) xs) in
    let taken = length-take (16 - length carry) xs in
    let full : length (carry ++ take (16 - length carry) xs) ≡ 16 = omega (arith, b, l) in
    rw
      (
        part,
        lt→ltb 0 (length carry) c,
        full,
        take-append_ge 16 carry xs (omega (arith, b)),
        drop-append_ge 16 carry xs (omega (arith, b)),
      )
      refl

fill_carry_none : (h : Hashes) (xs : Bytes) → fill_carry h [] xs ≡ (h, [], xs)
unfolding fill_carry
fill_carry_none h xs = refl

absorb-fill_carry :
    (h : Hashes) (carry xs : Bytes)
    → length carry < 16
    → (let (h', carry', left) = fill_carry h carry xs in
        let (h'', rest) = absorb h' left in (h'', carry' ++ rest))
      ≡ absorb h (carry ++ xs)
absorb-fill_carry h [] xs c = rw (fill_carry_none h xs) refl
absorb-fill_carry h (x ∷ carry) xs c = elim (short_or_long (x ∷ carry ++ xs)) [
  | inl s ↦
      let l = length-append (x ∷ carry) xs in
      rw
        (
          fill_carry_short h (x ∷ carry) xs (omega arith) (omega (arith, s)),
          absorb_short h [] (omega arith),
          absorb_short h (x ∷ carry ++ xs) s,
          append-nil (x ∷ carry ++ xs),
        )
        refl
  | inr s ↦
      let l = length-append (x ∷ carry) xs in
      rw
        (
          fill_carry_full h (x ∷ carry) xs (omega arith) c (omega (arith, s)),
          absorb_long h (x ∷ carry ++ xs) s,
        )
        refl
]

-- The state has taken the bytes `xs`.
record IsAfter (state : Murmur3State) (xs : Bytes) : Type 0 where
  pub walk : (state.hashes, state.carry) ≡ absorb (0, 0) xs
  pub total : state.total_len ≡ length xs

abbrev walk_of : Murmur3State → Hashes × Bytes
walk_of state = (state.hashes, state.carry)

walk-update :
    (state : Murmur3State) (ys : Bytes)
    → length state.carry < 16
    → walk_of (update state ys) ≡ absorb state.hashes (state.carry ++ ys)
unfolding update absorb
walk-update state ys c = absorb-fill_carry state.hashes state.carry ys c

total_len-update :
    (state : Murmur3State) (ys : Bytes)
    → (update state ys).total_len ≡ add64 state.total_len (length ys)
unfolding update
total_len-update state ys = refl

update-IsAfter :
    (state : Murmur3State) (xs ys : Bytes)
    → length xs + length ys < 2 ^ 64
    → IsAfter state xs
    → IsAfter (update state ys) (xs ++ ys)
update-IsAfter state xs ys b after =
    let few : length state.carry < 16 =
      rw (ap (λ w. length w.1) after.walk) (length-absorb (length xs) (0, 0) xs (omega arith)) in
    record {
      walk =
          walk-update state ys few
          ∙ ap (λ w. absorb w.0 (w.1 ++ ys)) after.walk
          ∙ sym (absorb-append (length xs) (0, 0) xs ys (omega arith));
      total = total_len-update state ys ∙ omega (arith, after.total, length-append xs ys, b);
    }

-- The loop of the one-shot function takes the same blocks.
absorb-process_blocks :
    (n : ℕ) (h : Hashes) (xs : Bytes)
    → n ≡ length xs / 16
    → absorb h xs ≡ (process_blocks n h xs, drop (n * 16) xs)
unfolding process_blocks
absorb-process_blocks zero h xs e = absorb_short h xs (omega (arith, e))
absorb-process_blocks (suc n) h xs e =
    let fewer = length-drop 16 xs in
    let e' : suc n * 16 ≡ 16 + n * 16 = omega arith in
    absorb_long h xs (omega (arith, e))
    ∙ absorb-process_blocks n (process_block h (take 16 xs)) (drop 16 xs) (omega (arith, e))
    ∙ rw (drop-drop 16 (n * 16) xs, e') refl

-- Streams.
abbrev pub feed : Murmur3State → List Bytes → Murmur3State
feed state [] = state
feed state (chunk ∷ chunks) = feed (update state chunk) chunks

abbrev pub concat : List Bytes → Bytes
concat [] = []
concat (chunk ∷ chunks) = chunk ++ concat chunks

feed-IsAfter :
    (state : Murmur3State) (xs : Bytes) (chunks : List Bytes)
    → length xs + length (concat chunks) < 2 ^ 64
    → IsAfter state xs
    → IsAfter (feed state chunks) (xs ++ concat chunks)
feed-IsAfter state xs [] b after = rw (append-nil xs) after
feed-IsAfter state xs (chunk ∷ chunks) b after =
    let l = length-append chunk (concat chunks) in
    let l' = length-append xs chunk in
    rw (sym (append_assoc xs chunk (concat chunks))) (
      feed-IsAfter (update state chunk) (xs ++ chunk) chunks (omega arith)
        (update-IsAfter state xs chunk (omega arith) after))

finalize-IsAfter :
    (state : Murmur3State) (xs : Bytes) → IsAfter state xs → finalize state ≡ murmur3_token xs
unfolding finalize murmur3_token cassandra_murmur3_x64_128_low
finalize-IsAfter state xs after =
    let n = length xs / 16 in
    let walk = after.walk ∙ absorb-process_blocks n (0, 0) xs refl in
    let rest : take (length xs % 16) (drop (n * 16) xs) ≡ drop (n * 16) xs =
      take-all (drop (n * 16) xs) (length xs % 16) (omega (arith, length-drop (n * 16) xs)) in
    rw (rest, after.total, ap (λ w. w.0) walk, ap (λ w. w.1) walk) refl

-- For chunks with fewer than 2^64 bytes in all, update with one chunk after the other from a new
-- state, and finalize, give the token that murmur3_token gives for the bytes of all chunks.
pub finalize-feed :
    (chunks : List Bytes)
    → length (concat chunks) < 2 ^ 64
    → finalize (feed new_state chunks) ≡ murmur3_token (concat chunks)
finalize-feed chunks b = finalize-IsAfter (feed new_state chunks) (concat chunks) (
    feed-IsAfter new_state [] chunks (omega (arith, b))
      (record { walk = sym (absorb_short (0, 0) [] (omega arith)); total = refl }))
