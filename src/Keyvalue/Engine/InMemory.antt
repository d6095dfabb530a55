-- ===== src/Keyvalue/Engine/InMemory.antt =====
-- keyvalue/engine/engine.cppm: InMemoryEngine with its B-tree (core/btree), as long as the tree is
-- one leaf, which holds up to 32 pairs.
use plexdb.Prelude.{
  ◌+◌, ◌^◌, ◌≤◌, ◌<◌, ◌≡◌, ℕ, Bool, false, Option, none, some, List, All, length, if◌then◌else◌,
}
use plexdb.Core.Text.{Bytes, bytes, External, hash, to_s64}
use plexdb.Core.BTree.{leaf_capacity, begin_iterator_impl}
use plexdb.Core.BTree.Laws.{root_leaf}
use plexdb.Keyvalue.Statement.{Statement}
use plexdb.Keyvalue.Reply.{
  create_not_found, create_simple, create_bulk, create_int, create_arr, create_null_arr,
}
use plexdb.Keyvalue.Entry.{Fits}
use plexdb.Keyvalue.Engine.{Engine, execute, value_or}
use plexdb.Keyvalue.Engine.Spec.{
  View, value_of, view_put, set_stores, view_del, del_count, view_mget, view_mset,
}
use plexdb.Keyvalue.Engine.Represents.{Represents}
use plexdb.Keyvalue.Engine.Refines.{get_result, PairFits}
use plexdb.Keyvalue.Engine.Refines
use plexdb.Keyvalue.Engine.Listing.{view_keys, PlainKeys}
use plexdb.Keyvalue.Engine.Listing
use plexdb.Keyvalue.Engine.Scan.{scan_all}
use plexdb.Keyvalue.Engine.Scan
use plexdb.Keyvalue.Engine.Collision

abbrev pub InMemoryEngine : Type 0
InMemoryEngine = Engine root_leaf

module _ (e : External) where
  abbrev pub Stands : InMemoryEngine → View → Type 0
  Stands s view = Represents root_leaf e s view

  -- On an engine whose B-tree is one leaf and that represents a view (a map from the hash of a key
  -- to the key and the value last stored under it), SET of a pair that fits one blob, with room
  -- for one more blob id and, when its hash is not there, for one more pair in the leaf, succeeds:
  -- it answers OK and leaves an engine that represents the view with the pair, or, when NX meets a
  -- key that is there or XX one that is not, it answers not found and leaves one that represents
  -- the same view.
  pub in_memory_set :
      (s : InMemoryEngine) (view : View) (key value : Bytes) (nx xx : Bool)
      → Stands s view
      → Fits key value
      → s.next_blob_id + 1 < 2 ^ 64
      → (view (hash e key) ≡ none → length (begin_iterator_impl s.index) < leaf_capacity)
      → (s' : InMemoryEngine) × (execute root_leaf e s (Statement.set key value nx xx)
          ≡ some (
            if set_stores e view key nx xx then create_simple (bytes "OK") else create_not_found,
            s',
          ))
        × Stands s' (if set_stores e view key nx xx then view_put e view key value else view)
  in_memory_set = Refines.execute-set root_leaf e

  -- On an engine whose B-tree is one leaf and that represents a view, GET answers the value under
  -- the hash of its key as a bulk string, or not found when there is none, and changes nothing.
  pub in_memory_get :
      (s : InMemoryEngine) (view : View) (key : Bytes)
      → Stands s view
      → execute root_leaf e s (Statement.get key)
        ≡ some (get_result (value_of (view (hash e key))), s)
  in_memory_get = Refines.execute-get root_leaf e

  -- On an engine whose B-tree is one leaf and that represents a view, DEL answers how many of its
  -- keys were there, a repeated key once, and leaves an engine that represents the view without
  -- them.
  pub in_memory_del :
      (s : InMemoryEngine) (view : View) (keys : List Bytes)
      → Stands s view
      → (s' : InMemoryEngine) × (execute root_leaf e s (Statement.del keys)
          ≡ some (create_int (to_s64 (del_count e view keys)), s'))
        × Stands s' (view_del e view keys)
  in_memory_del = Refines.execute-del root_leaf e

  -- On an engine whose B-tree is one leaf and that represents a view, MSET of pairs that each fit
  -- one blob, with room for as many blob ids and as many pairs in the leaf, succeeds, answers OK,
  -- and leaves an engine that represents the view with the pairs put in one after the other.
  pub in_memory_mset :
      (s : InMemoryEngine) (view : View) (pairs : List (Bytes × Bytes))
      → Stands s view
      → All (PairFits root_leaf e) pairs
      → s.next_blob_id + length pairs < 2 ^ 64
      → length (begin_iterator_impl s.index) + length pairs ≤ leaf_capacity
      → (s' : InMemoryEngine) × (execute root_leaf e s (Statement.mset pairs)
          ≡ some (create_simple (bytes "OK"), s'))
        × Stands s' (view_mset e view pairs)
  in_memory_mset = Refines.execute-mset root_leaf e

  -- On an engine whose B-tree is one leaf and that represents a view, MGET answers for each key,
  -- in their order, the value under its hash or null, and changes nothing.
  pub in_memory_mget :
      (s : InMemoryEngine) (view : View) (keys : List Bytes)
      → Stands s view
      → execute root_leaf e s (Statement.mget keys)
        ≡ some (create_null_arr (view_mget e view keys), s)
  in_memory_mget = Refines.execute-mget root_leaf e

  -- On an engine whose B-tree is one leaf and that represents a view whose keys hold no byte `*`,
  -- KEYS answers the keys that the pattern takes, in the order of the index, and changes nothing.
  pub in_memory_keys :
      (s : InMemoryEngine) (view : View) (pattern : Bytes)
      → Stands s view
      → PlainKeys view
      → execute root_leaf e s (Statement.keys pattern)
        ≡ some (create_arr (view_keys view pattern (begin_iterator_impl s.index)), s)
  in_memory_keys = Listing.execute-keys root_leaf e

  -- On an engine whose B-tree is one leaf and that represents a view whose keys hold no byte `*`,
  -- a client that calls SCAN with COUNT not 0 from cursor 0, and gives each cursor back until it
  -- is 0, gets the keys that the pattern takes, once for each entry of the index and in its order,
  -- within one page more than the index has pairs.
  pub in_memory_scan :
      (s : InMemoryEngine) (view : View) (pattern : Option Bytes) (count : Option ℕ)
      → Stands s view
      → PlainKeys view
      → 0 < value_or count 10
      → scan_all root_leaf e (length (begin_iterator_impl s.index) + 1) s 0 pattern count
        ≡ some (view_keys view (value_or pattern (bytes "*")) (begin_iterator_impl s.index))
  in_memory_scan = Scan.scan_all-keys root_leaf e

  -- On an engine whose B-tree is one leaf and that represents a view, after a plain SET that fits,
  -- with room for one more blob id and, when its hash is not there, for one more pair in the leaf,
  -- GET of any key with the same hash as the key that was set, be it the same key or another one,
  -- answers the value that was set.
  pub in_memory_same_hash :
      (s : InMemoryEngine) (view : View) (key other value : Bytes)
      → Stands s view
      → Fits key value
      → s.next_blob_id + 1 < 2 ^ 64
      → (view (hash e key) ≡ none → length (begin_iterator_impl s.index) < leaf_capacity)
      → hash e other ≡ hash e key
      → (s' : InMemoryEngine) × (execute root_leaf e s (Statement.set key value false false)
          ≡ some (create_simple (bytes "OK"), s'))
        × (execute root_leaf e s' (Statement.get other) ≡ some (create_bulk value, s'))
  in_memory_same_hash = Collision.get-set_same_hash root_leaf e
