-- ===== src/Keyvalue/Engine/Flush.antt =====
-- keyvalue/engine/engine.cppm: FLUSHDB and FLUSHALL.
use plexdb.Prelude.{ℕ, ◌≡◌, refl, ap, none, some, arith}
use plexdb.Core.Text.{bytes, External}
use plexdb.Core.DynamicMap.Bucket.{lookup}
use plexdb.Core.DynamicMap.Laws.{clear_lem}
use plexdb.Core.Index.{Index}
use plexdb.Keyvalue.Statement.{Statement}
use plexdb.Keyvalue.Reply.{create_simple}
use plexdb.Keyvalue.Engine.{Engine, execute, flush}
use plexdb.Keyvalue.Engine.Spec.{View}
use plexdb.Keyvalue.Engine.Represents.{blob_of, Represents}

module _ (I : Index) (e : External) where
  flushed-none :
      (s : Engine I) (view : View) (h : ℕ) → Represents I e s view → blob_of I (flush I s) h ≡ none
  unfolding flush lookup
  flushed-none s view h r = ap (lookup h) (I.truncate_lem s.index r.index).1

  -- On an engine that represents a view, FLUSHDB and FLUSHALL answer OK and leave an engine that
  -- represents the view with no key.
  pub execute-flush :
      (s : Engine I) (view : View)
      → Represents I e s view
      → (execute I e s Statement.flush_db ≡ some (create_simple (bytes "OK"), flush I s))
        × (execute I e s Statement.flush_all ≡ some (create_simple (bytes "OK"), flush I s))
        × Represents I e (flush I s) (λ _. none)
  unfolding execute flush
  execute-flush s view r = (
    refl,
    refl,
    record {
      index = (I.truncate_lem s.index r.index).0;
      blobs = (clear_lem s.blobs).0;
      stored = λ h. flushed-none s view h r;
      own = λ h h' id at at'. ground (arith, flushed-none s view h r, at);
    },
  )
