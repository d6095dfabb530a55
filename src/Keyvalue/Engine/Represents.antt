-- ===== src/Keyvalue/Engine/Represents.antt =====
-- When an engine stands for a view, and what its reads answer then.
use plexdb.Prelude.{
  ℕ, ◌<◌, ◌≡◌, refl, sym, subst, ◌∙◌, ap, Option, none, some, ◌≤◌, ◌≢◌, ◌==◌, Bool-cases, ==_iff,
  inl, inr, if◌then◌else◌, arith,
}
use plexdb.Core.Text.{Bytes, External, hash}
use plexdb.Core.DynamicMap.Bucket.{lookup}
use plexdb.Core.DynamicMap.{find}
use plexdb.Core.DynamicMap.Laws.{is_some, empty_lem}
use plexdb.Core.DynamicMap.Valid
use plexdb.Core.Index.{Index}
use plexdb.Keyvalue.Entry.{entry, Fits, blob_read_key-entry, blob_read_value-entry}
use plexdb.Keyvalue.Engine.{Engine, new_engine, id_of, read_key, read_value}
use plexdb.Keyvalue.Engine.Spec.{View, set_at}

module _ (I : Index) where
  abbrev pub blob_of : Engine I → ℕ → Option ℕ
  blob_of s h = lookup h (I.begin s.index)

  module _ (e : External) where
    -- The entry of a key stands under the hash `h`.
    pub record StoredAt (s : Engine I) (h : ℕ) (key value : Bytes) : Type 0 where
      pub id : ℕ
      pub at : blob_of s h ≡ some id
      pub below : id < s.next_blob_id
      pub blob : find s.blobs id ≡ some (entry key value)
      pub fits : Fits key value
      pub hashed : hash e key ≡ h

    abbrev pub Stored : Engine I → ℕ → Option (Bytes × Bytes) → Type 0
    Stored s h none = blob_of s h ≡ none
    Stored s h (some (key, value)) = StoredAt s h key value

    -- The index and the table are well formed, each hash has its entry, in a blob of its own.
    pub record Represents (s : Engine I) (view : View) : Type 0 where
      pub index : I.IsValid s.index
      pub blobs : Valid.IsValid s.blobs
      pub stored : (h : ℕ) → Stored s h (view h)
      pub own : (h h' id : ℕ) → blob_of s h ≡ some id → blob_of s h' ≡ some id → h ≡ h'

    pub new_engine-Represents : Represents (new_engine I) (λ _. none)
    unfolding lookup
    new_engine-Represents = record {
      index = I.empty_lem.0;
      blobs = empty_lem.0;
      stored = λ h. rw I.empty_lem.1 refl;
      own = λ h h' id a b. ground (arith, I.empty_lem.1);
    }

    pub id_of_lem :
        (s : Engine I) (view : View) (key : Bytes)
        → Represents s view
        → id_of I e s key ≡ blob_of s (hash e key)
    unfolding id_of
    id_of_lem s view key r = I.tfind_lem s.index (hash e key) r.index

    pub is_some-Stored :
        (s : Engine I) (h : ℕ) (o : Option (Bytes × Bytes))
        → Stored s h o
        → is_some (blob_of s h) ≡ is_some o
    is_some-Stored s h none st = ap is_some st
    is_some-Stored s h (some (key, value)) st = ap is_some st.at

    pub read_value_lem :
        (s : Engine I) (id : ℕ) (key value : Bytes)
        → find s.blobs id ≡ some (entry key value)
        → Fits key value
        → read_value I s id ≡ some value
    unfolding read_value
    read_value_lem s id key value at fits = rw at (blob_read_value-entry key value fits)

    pub read_key_lem :
        (s : Engine I) (id : ℕ) (key value : Bytes)
        → find s.blobs id ≡ some (entry key value)
        → Fits key value
        → read_key I s id ≡ some key
    unfolding read_key
    read_key_lem s id key value at fits = rw at (blob_read_key-entry key value fits)

    keep_Stored :
        (s s' : Engine I) (h : ℕ) (o : Option (Bytes × Bytes))
        → s.next_blob_id ≤ s'.next_blob_id
        → blob_of s' h ≡ blob_of s h
        → ((id : ℕ) → blob_of s h ≡ some id → find s'.blobs id ≡ find s.blobs id)
        → Stored s h o
        → Stored s' h o
    keep_Stored s s' h none le same kept st = same ∙ st
    keep_Stored s s' h (some (key, value)) le same kept st = record {
      id = st.id;
      at = same ∙ st.at;
      below = omega (arith, st.below);
      blob = kept st.id st.at ∙ st.blob;
      fits = st.fits;
      hashed = st.hashed;
    }

    -- The state behind a command that changes what stands under the hash `h` alone.
    pub record Changes (s s' : Engine I) (h : ℕ) (o : Option (Bytes × Bytes)) (b : Option ℕ)
        : Type 0 where
      pub index : I.IsValid s'.index
      pub blobs : Valid.IsValid s'.blobs
      pub next : s.next_blob_id ≤ s'.next_blob_id
      pub blob_of_lem : (j : ℕ) → blob_of s' j ≡ (if h == j then b else blob_of s j)
      pub kept : (j id : ℕ) → j ≢ h → blob_of s j ≡ some id → find s'.blobs id ≡ find s.blobs id
      pub fresh : (j id : ℕ) → j ≢ h → blob_of s j ≡ some id → b ≢ some id
      pub stored : Stored s' h o

    pub Changes-Represents :
        (s s' : Engine I) (h : ℕ) (o : Option (Bytes × Bytes)) (b : Option ℕ) (view : View)
        → Represents s view
        → Changes s s' h o b
        → Represents s' (set_at view h o)
    Changes-Represents s s' h o b view r c = record {
      index = c.index;
      blobs = c.blobs;
      stored = λ j. elim (Bool-cases (h == j)) [
        | inl eq ↦ rw (eq, sym ((==_iff h j).0 eq)) c.stored
        | inr ne ↦ rw ne (
            keep_Stored s s' j (view j) c.next (c.blob_of_lem j ∙ rw ne refl)
              (λ id at. c.kept j id (ground (arith, ne)) at) (r.stored j))
      ];
      own = λ j j' id at at'.
          ground
            (arith, c.blob_of_lem j, c.blob_of_lem j', c.fresh j id, c.fresh j' id, r.own j j' id);
    }

    pub Stored-below :
        (s : Engine I) (h id : ℕ) (o : Option (Bytes × Bytes))
        → Stored s h o
        → blob_of s h ≡ some id
        → id < s.next_blob_id
    Stored-below s h id none st at = ground (arith, st, at)
    Stored-below s h id (some (key, value)) st at = ground (arith, st.at, st.below, at)

    pub Represents-same :
        (s : Engine I) (view view' : View)
        → Represents s view
        → ((h : ℕ) → view' h ≡ view h)
        → Represents s view'
    Represents-same s view view' r same = record {
      index = r.index;
      blobs = r.blobs;
      stored = λ h. subst (Stored s h) (sym (same h)) (r.stored h);
      own = r.own;
    }
