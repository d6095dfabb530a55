-- ===== src/Keyvalue/Engine/Collision.antt =====
-- keyvalue/engine/engine.cppm: keys that have one hash.
use plexdb.Prelude.{◌+◌, ◌^◌, ◌<◌, ◌≡◌, refl, ◌∙◌, none, some, false, length, ==_refl}
use plexdb.Core.Text.{Bytes, bytes, External, hash}
use plexdb.Core.Index.{Index}
use plexdb.Keyvalue.Statement.{Statement}
use plexdb.Keyvalue.Reply.{create_simple, create_bulk}
use plexdb.Keyvalue.Entry.{Fits}
use plexdb.Keyvalue.Engine.{Engine, execute}
use plexdb.Keyvalue.Engine.Spec.{View, view_put}
use plexdb.Keyvalue.Engine.Represents.{Represents}
use plexdb.Keyvalue.Engine.Refines.{execute-get, execute-set}

module _ (I : Index) (e : External) where
  -- On an engine that represents a view, after a plain SET that fits and has room, GET of any key
  -- with the same hash as the key that was set, be it the same key or another one, answers the
  -- value that was set.
  pub get-set_same_hash :
      (s : Engine I) (view : View) (key other value : Bytes)
      → Represents I e s view
      → Fits key value
      → s.next_blob_id + 1 < 2 ^ 64
      → (view (hash e key) ≡ none → length (I.begin s.index) < I.capacity)
      → hash e other ≡ hash e key
      → (s' : Engine I) × (execute I e s (Statement.set key value false false)
          ≡ some (create_simple (bytes "OK"), s'))
        × (execute I e s' (Statement.get other) ≡ some (create_bulk value, s'))
  get-set_same_hash s view key other value r fits room free same =
      let (s', done, r') = execute-set I e s view key value false false r fits room free in
      let at : view_put e view key value (hash e other) ≡ some (key, value) =
        rw (same, ==_refl (hash e key)) refl in
      (s', done, execute-get I e s' (view_put e view key value) other r' ∙ rw at refl)
