-- ===== src/Keyvalue/Engine/Store.antt =====
-- The two operations that change an engine: the storing of an entry and the removal of one.
use plexdb.Prelude.{
  ℕ, ◌+◌, ◌%◌, ◌^◌, ◌≤◌, ◌<◌, ◌≡◌, refl, ◌∙◌, ap, Option, none, some, arith, if◌then◌else◌, length,
}
use plexdb.Core.Text.{Bytes, External, hash}
use plexdb.Core.DynamicMap.Bucket.{lookup}
use plexdb.Core.DynamicMap.{find, insert, remove}
use plexdb.Core.DynamicMap.Laws.{insert_lem, remove_lem, is_some}
use plexdb.Core.Blob.{new_blob}
use plexdb.Core.Index.{Index}
use plexdb.Core.Index.Lists.{
  insert_pair, length-insert_pair, lookup-insert_pair, lookup-remove_pair,
}
use plexdb.Keyvalue.Entry.{entry, Fits, write_blob-entry}
use plexdb.Keyvalue.Engine.{Engine, write_entry, alloc_blob, free_blob, store, del_key, id_of}
use plexdb.Keyvalue.Engine.Spec.{View, set_at, view_put, present}
use plexdb.Keyvalue.Engine.Represents.{
  blob_of, Represents, Stored, StoredAt, Changes, Changes-Represents, Stored-below, id_of_lem,
  Represents-same,
}

module _ (I : Index) (e : External) where
  write_entry_lem :
      (s : Engine I) (id : ℕ) (key value : Bytes) (b : _)
      → find s.blobs id ≡ some b
      → Fits key value
      → write_entry I s id key value
        ≡ some (record s { blobs = insert s.blobs id (entry key value) })
  unfolding write_entry
  write_entry_lem s id key value b at fits = rw (at, write_blob-entry b key value fits) refl

  -- The state behind the storing of an entry that was there.
  overwrite :
      (s : Engine I) (view : View) (key value old_key old : Bytes)
      → Represents I e s view
      → Fits key value
      → (st : StoredAt I e s (hash e key) old_key old)
      → Changes I e s
          (record s { blobs = insert s.blobs st.id (entry key value) })
          (hash e key)
          (some (key, value))
          (some st.id)
  overwrite s view key value old_key old r fits st =
      let (valid, found) = insert_lem s.blobs st.id (entry key value) r.blobs in
      record {
        index = r.index;
        blobs = valid;
        next = omega arith;
        blob_of_lem = λ j. ground (arith, st.at);
        kept = λ j id ne at. found id ∙ ground (arith, r.own j (hash e key) id at, st.at);
        fresh = λ j id ne at same. ne (r.own j (hash e key) id at (st.at ∙ same));
        stored = record {
          id = st.id;
          at = st.at;
          below = st.below;
          blob = found st.id ∙ ground arith;
          fits = fits;
          hashed = refl;
        };
      }

  -- The state behind the storing of an entry that was not there.
  stored_new : Engine I → I.Tree → Bytes → Bytes → Engine I
  stored_new s index key value = record {
    index = index;
    blobs = insert (insert s.blobs s.next_blob_id new_blob) s.next_blob_id (entry key value);
    next_blob_id = (s.next_blob_id + 1) % 2 ^ 64;
  }

  append_new :
      (s : Engine I) (view : View) (index : I.Tree) (key value : Bytes)
      → Represents I e s view
      → Fits key value
      → s.next_blob_id + 1 < 2 ^ 64
      → blob_of I s (hash e key) ≡ none
      → I.IsValid index
      → I.begin index ≡ insert_pair (hash e key) s.next_blob_id (I.begin s.index)
      → Changes I e s
          (stored_new s index key value)
          (hash e key)
          (some (key, value))
          (some s.next_blob_id)
  unfolding stored_new
  append_new s view index key value r fits room absent valid_index pairs =
      let (valid₁, found₁) = insert_lem s.blobs s.next_blob_id new_blob r.blobs in
      let (valid, found) =
        insert_lem (insert s.blobs s.next_blob_id new_blob) s.next_blob_id (entry key value)
          valid₁ in
      let next : (s.next_blob_id + 1) % 2 ^ 64 ≡ s.next_blob_id + 1 = omega (arith, room) in
      let at = λ (j : ℕ).
        ap (lookup j) pairs
        ∙ lookup-insert_pair (hash e key) s.next_blob_id j (I.begin s.index) absent in
      record {
        index = valid_index;
        blobs = valid;
        next = omega (arith, next);
        blob_of_lem = at;
        kept = λ j id ne old.
            found id ∙ ground (arith, found₁ id, Stored-below I e s j id (view j) (r.stored j) old);
        fresh = λ j id ne old same.
            ground (arith, same, Stored-below I e s j id (view j) (r.stored j) old);
        stored = record {
          id = s.next_blob_id;
          at = at (hash e key) ∙ ground arith;
          below = omega (arith, next);
          blob = found s.next_blob_id ∙ ground arith;
          fits = fits;
          hashed = refl;
        };
      }

  store_new_lem :
      (s : Engine I) (index : I.Tree) (key value : Bytes)
      → (find (insert s.blobs s.next_blob_id new_blob) s.next_blob_id ≡ some new_blob)
      → Fits key value
      → I.tinsert s.index (hash e key) s.next_blob_id ≡ some index
      → store I e s none key value ≡ some (stored_new s index key value)
  unfolding store alloc_blob stored_new
  store_new_lem s index key value at fits inserted =
      rw (write_entry_lem (alloc_blob I s).1 s.next_blob_id key value new_blob at fits, inserted)
        refl

  -- What an operation that stores leaves behind.
  abbrev pub Stores : Engine I → Bytes → Bytes → View → Type 0
  Stores s key value view =
      (s' : Engine I) × (store I e s (id_of I e s key) key value ≡ some s')
      × Represents I e s' (view_put e view key value)
      × (s'.next_blob_id ≤ s.next_blob_id + 1)
      × (length (I.begin s'.index) ≤ length (I.begin s.index) + 1)

  store_at :
      (s : Engine I) (view : View) (key value : Bytes)
      → Represents I e s view
      → Fits key value
      → s.next_blob_id + 1 < 2 ^ 64
      → (o : Option (Bytes × Bytes)) → (o ≡ none → length (I.begin s.index) < I.capacity)
      → Stored I e s (hash e key) o
      → Stores s key value view
  unfolding store stored_new
  store_at s view key value r fits room none free absent =
      let (index, inserted, valid, pairs) =
        I.tinsert_lem s.index (hash e key) s.next_blob_id r.index absent (free refl) in
      (
        stored_new s index key value,
        rw (id_of_lem I e s view key r, absent)
            (store_new_lem s index key value
              ((insert_lem s.blobs s.next_blob_id new_blob r.blobs).1 s.next_blob_id ∙ ground arith)
              fits inserted),
        Changes-Represents I e s (stored_new s index key value) (hash e key) (some (key, value))
            (some s.next_blob_id) view r
            (append_new s view index key value r fits room absent valid pairs),
        omega arith,
        omega (
          arith,
          ap length pairs,
          length-insert_pair (hash e key) s.next_blob_id (I.begin s.index),
        ),
      )
  store_at s view key value r fits room (some (old_key, old)) free st = (
    record s { blobs = insert s.blobs st.id (entry key value) },
    rw (id_of_lem I e s view key r, st.at)
        (write_entry_lem s st.id key value (entry old_key old) st.blob fits),
    Changes-Represents I e s _ (hash e key) (some (key, value)) (some st.id) view r
        (overwrite s view key value old_key old r fits st),
    omega arith,
    omega arith,
  )

  -- Storing succeeds, and puts the key and the value under the hash of the key.
  pub store_lem :
      (s : Engine I) (view : View) (key value : Bytes)
      → Represents I e s view
      → Fits key value
      → s.next_blob_id + 1 < 2 ^ 64
      → (view (hash e key) ≡ none → length (I.begin s.index) < I.capacity)
      → Stores s key value view
  store_lem s view key value r fits room free =
      store_at s view key value r fits room (view (hash e key)) free (r.stored (hash e key))

  -- The state behind the removal of a key that was there.
  removed :
      (s : Engine I) (view : View) (key old_key old : Bytes)
      → Represents I e s view
      → (st : StoredAt I e s (hash e key) old_key old)
      → Changes I e s
          (record s { blobs = (remove s.blobs st.id).0; index = I.remove s.index (hash e key) })
          (hash e key)
          none
          none
  removed s view key old_key old r st =
      let (valid, found, _) = remove_lem s.blobs st.id r.blobs in
      let (index, pairs) = I.remove_lem s.index (hash e key) r.index in
      let at = λ (j : ℕ).
        ap (lookup j) pairs
        ∙ lookup-remove_pair 0 (hash e key) j (I.begin s.index) (I.begin_sorted s.index r.index) in
      record {
        index = index;
        blobs = valid;
        next = omega arith;
        blob_of_lem = at;
        kept = λ j id ne old. found id ∙ ground (arith, r.own j (hash e key) id old, st.at);
        fresh = λ j id ne old same. ground (arith, same);
        stored = at (hash e key) ∙ ground arith;
      }

  -- What the removal of one key leaves behind.
  abbrev pub Deletes : Engine I → Bytes → ℕ → View → ℕ → Type 0
  Deletes s key count view gone =
      (s' : Engine I) × (del_key I e s key count ≡ (count + gone, s'))
      × Represents I e s' (set_at view (hash e key) none)

  del_at :
      (s : Engine I) (view : View) (key : Bytes) (count : ℕ)
      → Represents I e s view
      → (o : Option (Bytes × Bytes)) → view (hash e key) ≡ o
      → Stored I e s (hash e key) o
      → Deletes s key count view (if is_some o then 1 else 0)
  unfolding del_key free_blob
  del_at s view key count r none eq absent = (
    s,
    rw (id_of_lem I e s view key r, absent, del_key) (ap (λ (n : ℕ). (n, s)) (omega arith)),
    Represents-same I e s view _ r (λ j. ground (arith, eq)),
  )
  del_at s view key count r (some (old_key, old)) eq st = (
    record s { blobs = (remove s.blobs st.id).0; index = I.remove s.index (hash e key) },
    rw (id_of_lem I e s view key r, st.at, del_key) refl,
    Changes-Represents I e s _ (hash e key) none none view r (removed s view key old_key old r st),
  )

  -- Removal takes away what stands under the hash of the key, and counts it.
  pub del_key_lem :
      (s : Engine I) (view : View) (key : Bytes) (count : ℕ)
      → Represents I e s view
      → Deletes s key count view (if present e view key then 1 else 0)
  del_key_lem s view key count r =
      del_at s view key count r (view (hash e key)) refl (r.stored (hash e key))
