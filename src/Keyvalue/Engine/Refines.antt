-- ===== src/Keyvalue/Engine/Refines.antt =====
-- keyvalue/engine/engine.cppm: the commands on single keys, against the view.
use plexdb.Prelude.{
  ℕ, ◌+◌, ◌^◌, ◌<◌, ◌≤◌, ◌≡◌, refl, ◌∙◌, ap, inl, inr, Option, none, some, arith, if◌then◌else◌,
  Bool, true, false, List, [], ◌∷◌, length, All, Bool-cases, not, ◌&&◌,
}
use plexdb.Prelude.Fallible.{◌>>=◌}
use plexdb.Core.Text.{Bytes, bytes, External, hash, to_s64}
use plexdb.Core.DynamicMap.Laws.{is_some}
use plexdb.Core.Index.{Index}
use plexdb.Keyvalue.Statement.{Statement}
use plexdb.Keyvalue.Reply.{
  ExecutionResult, create_not_found, create_simple, create_bulk, create_int, create_null_arr,
}
use plexdb.Keyvalue.Entry.{Fits}
use plexdb.Keyvalue.Engine.{Engine, execute, get, set, store, del, exists, mget, mset, id_of}
use plexdb.Keyvalue.Engine.Spec.{
  View, set_at, present, value_of, view_put, set_stores, view_del, del_count, exists_count,
  view_mget, view_mset,
}
use plexdb.Keyvalue.Engine.Represents.{
  Represents, Stored, id_of_lem, is_some-Stored, read_value_lem,
}
use plexdb.Keyvalue.Engine.Store.{store_lem, del_key_lem}

abbrev pub get_result : Option Bytes → ExecutionResult
get_result none = create_not_found
get_result (some value) = create_bulk value

zero_plus : (n : ℕ) → 0 + n ≡ n
zero_plus n = omega arith

two_guards {ℓ} :
    {A : Type ℓ} (nx xx there : Bool) (y n : A)
    → (if nx && there then n else if xx && not there then n else y)
      ≡ (if not (nx && there) && not (xx && not there) then y else n)
two_guards true true true y n = refl
two_guards true true false y n = refl
two_guards true false true y n = refl
two_guards true false false y n = refl
two_guards false true true y n = refl
two_guards false true false y n = refl
two_guards false false true y n = refl
two_guards false false false y n = refl

module _ (I : Index) (e : External) where
  get_at :
      (s : Engine I) (view : View) (key : Bytes)
      → Represents I e s view
      → (o : Option (Bytes × Bytes)) → Stored I e s (hash e key) o
      → get I e s key ≡ some (get_result (value_of o))
  unfolding get
  get_at s view key r none absent = rw (id_of_lem I e s view key r, absent, get) refl
  get_at s view key r (some (old_key, old)) st =
      rw
        (
          id_of_lem I e s view key r,
          st.at,
          read_value_lem I e s st.id old_key old st.blob st.fits,
          get,
        )
        refl

  -- On an engine that represents a view, GET answers the value under the hash of its key as a bulk
  -- string, or not found when there is none, and changes nothing.
  pub execute-get :
      (s : Engine I) (view : View) (key : Bytes)
      → Represents I e s view
      → execute I e s (Statement.get key) ≡ some (get_result (value_of (view (hash e key))), s)
  unfolding execute
  execute-get s view key r =
      rw (get_at s view key r (view (hash e key)) (r.stored (hash e key)), execute) refl

  id_of-present :
      (s : Engine I) (view : View) (key : Bytes)
      → Represents I e s view
      → is_some (id_of I e s key) ≡ present e view key
  id_of-present s view key r =
      rw (id_of_lem I e s view key r)
        (is_some-Stored I e s (hash e key) (view (hash e key)) (r.stored (hash e key)))

  set_if_stores :
      (s : Engine I) (view : View) (key value : Bytes) (nx xx : Bool)
      → Represents I e s view
      → set I e s key value nx xx ≡ (
          if set_stores e view key nx xx
          then (store I e s (id_of I e s key) key value >>= λ s'.
              some (create_simple (bytes "OK"), s'))
          else some (create_not_found, s))
  unfolding set
  set_if_stores s view key value nx xx r =
      rw (set, id_of-present s view key r) (two_guards nx xx (present e view key) _ _)

  -- On an engine that represents a view (a map from the hash of a key to the key and the value
  -- last stored under it), SET of a pair that fits one blob, with room for one more blob id,
  -- succeeds: it answers OK and leaves an engine that represents the view with the pair, or, when
  -- NX meets a key that is there or XX one that is not, it answers not found and leaves one that
  -- represents the same view.
  pub execute-set :
      (s : Engine I) (view : View) (key value : Bytes) (nx xx : Bool)
      → Represents I e s view
      → Fits key value
      → s.next_blob_id + 1 < 2 ^ 64
      → (view (hash e key) ≡ none → length (I.begin s.index) < I.capacity)
      → (s' : Engine I) × (execute I e s (Statement.set key value nx xx)
          ≡ some (
            if set_stores e view key nx xx then create_simple (bytes "OK") else create_not_found,
            s',
          ))
        × Represents I e s'
            (if set_stores e view key nx xx then view_put e view key value else view)
  unfolding execute
  execute-set s view key value nx xx r fits room free =
      let (s', done, r', _, _) = store_lem I e s view key value r fits room free in
      elim (Bool-cases (set_stores e view key nx xx)) [
        | inl stores ↦
            (s', set_if_stores s view key value nx xx r ∙ rw (stores, done) refl, rw stores r')
        | inr keeps ↦ (s, set_if_stores s view key value nx xx r ∙ rw keeps refl, rw keeps r)
      ]

  del_loop :
      (s : Engine I) (view : View) (keys : List Bytes) (count : ℕ)
      → Represents I e s view
      → (s' : Engine I) × (del I e s keys count ≡ (count + del_count e view keys, s'))
        × Represents I e s' (view_del e view keys)
  unfolding del
  del_loop s view [] count r = (s, ap (λ (n : ℕ). (n, s)) (omega arith), r)
  del_loop s view (key ∷ keys) count r =
      let (s₁, done, r₁) = del_key_lem I e s view key count r in
      let gone : ℕ = if present e view key then 1 else 0 in
      let (s', rest, r') = del_loop s₁ (set_at view (hash e key) none) keys (count + gone) r₁ in
      (s', rw (done, del, rest) (ap (λ (n : ℕ). (n, s')) (omega arith)), r')

  -- On an engine that represents a view, DEL answers how many of its keys were there, a repeated
  -- key once, and leaves an engine that represents the view without them.
  pub execute-del :
      (s : Engine I) (view : View) (keys : List Bytes)
      → Represents I e s view
      → (s' : Engine I) × (execute I e s (Statement.del keys)
          ≡ some (create_int (to_s64 (del_count e view keys)), s'))
        × Represents I e s' (view_del e view keys)
  unfolding execute
  execute-del s view keys r =
      let (s', done, r') = del_loop s view keys 0 r in
      (s', rw (done, zero_plus (del_count e view keys), execute) refl, r')

  exists_loop :
      (s : Engine I) (view : View) (keys : List Bytes) (count : ℕ)
      → Represents I e s view
      → exists I e s keys count ≡ count + exists_count e view keys
  unfolding exists
  exists_loop s view [] count r = omega arith
  exists_loop s view (key ∷ keys) count r =
      rw (exists, id_of-present s view key r) (exists_loop s view keys _ r ∙ ground arith)

  -- On an engine that represents a view, EXISTS answers how many of its keys are there, a repeated
  -- key as often as it is named, and changes nothing.
  pub execute-exists :
      (s : Engine I) (view : View) (keys : List Bytes)
      → Represents I e s view
      → execute I e s (Statement.exists keys)
        ≡ some (create_int (to_s64 (exists_count e view keys)), s)
  unfolding execute
  execute-exists s view keys r =
      rw (exists_loop s view keys 0 r, zero_plus (exists_count e view keys), execute) refl

  mget_at :
      (s : Engine I) (view : View) (key : Bytes)
      → Represents I e s view
      → (o : Option (Bytes × Bytes)) → Stored I e s (hash e key) o
      → (keys : List Bytes) (vals : List (Option Bytes)) → mget I e s keys ≡ some vals
      → mget I e s (key ∷ keys) ≡ some (value_of o ∷ vals)
  unfolding mget
  mget_at s view key r none absent keys vals rest =
      rw (id_of_lem I e s view key r, absent, rest, mget) refl
  mget_at s view key r (some (old_key, old)) st keys vals rest =
      rw
        (
          id_of_lem I e s view key r,
          st.at,
          read_value_lem I e s st.id old_key old st.blob st.fits,
          rest,
          mget,
        )
        refl

  mget_loop :
      (s : Engine I) (view : View) (keys : List Bytes)
      → Represents I e s view
      → mget I e s keys ≡ some (view_mget e view keys)
  unfolding mget
  mget_loop s view [] r = refl
  mget_loop s view (key ∷ keys) r =
      mget_at s view key r (view (hash e key)) (r.stored (hash e key)) keys (view_mget e view keys)
        (mget_loop s view keys r)

  -- On an engine that represents a view, MGET answers for each key, in their order, the value
  -- under its hash or null, and changes nothing.
  pub execute-mget :
      (s : Engine I) (view : View) (keys : List Bytes)
      → Represents I e s view
      → execute I e s (Statement.mget keys) ≡ some (create_null_arr (view_mget e view keys), s)
  unfolding execute
  execute-mget s view keys r = rw (mget_loop s view keys r, execute) refl

  abbrev pub PairFits : Bytes × Bytes → Type 0
  PairFits (key, value) = Fits key value

  mset_loop :
      (s : Engine I) (view : View) (pairs : List (Bytes × Bytes))
      → Represents I e s view
      → All PairFits pairs
      → s.next_blob_id + length pairs < 2 ^ 64
      → length (I.begin s.index) + length pairs ≤ I.capacity
      → (s' : Engine I) × (mset I e s pairs ≡ some s') × Represents I e s' (view_mset e view pairs)
  unfolding mset
  mset_loop s view [] r fits room free = (s, refl, r)
  mset_loop s view ((key, value) ∷ pairs) r (fit, fits) room free =
      let (s₁, done, r₁, next, grown) =
        store_lem I e s view key value r fit (omega arith) (λ _. omega (arith, free)) in
      let (s', rest, r') =
        mset_loop s₁ (view_put e view key value) pairs r₁ fits (omega (arith, next, room))
          (omega (arith, grown, free)) in
      (s', rw (done, mset) rest, r')

  -- On an engine that represents a view, MSET of pairs that each fit one blob, with room for as
  -- many blob ids, succeeds, answers OK, and leaves an engine that represents the view with the
  -- pairs put in one after the other.
  pub execute-mset :
      (s : Engine I) (view : View) (pairs : List (Bytes × Bytes))
      → Represents I e s view
      → All PairFits pairs
      → s.next_blob_id + length pairs < 2 ^ 64
      → length (I.begin s.index) + length pairs ≤ I.capacity
      → (s' : Engine I) × (execute I e s (Statement.mset pairs)
          ≡ some (create_simple (bytes "OK"), s'))
        × Represents I e s' (view_mset e view pairs)
  unfolding execute
  execute-mset s view pairs r fits room free =
      let (s', done, r') = mset_loop s view pairs r fits room free in
      (s', rw (done, execute) refl, r')
