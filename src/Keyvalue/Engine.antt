-- ===== src/Keyvalue/Engine.antt =====
-- keyvalue/engine/engine.cppm: InMemoryEngine and execute. A coroutine that is awaited where it
-- starts is a call. The index is an argument, which Engine/InMemory fills with the tree of
-- Core/BTree, as is the code outside of the repository. `none` is a fault, a null pointer that is
-- read or a failed assertion, or the place where the tree would grow beyond its model.
pub mod Spec
pub mod Represents
pub mod Store
pub mod Refines
pub mod Listing
pub mod Scan
pub mod Flush
pub mod Collision
pub mod InMemory
mod Runs
use plexdb.Prelude.{
  ℕ, zero, suc, ◌+◌, ◌%◌, ◌^◌, Bool, true, false, ◌&&◌, not, Option, none, some, List, [], ◌∷◌,
  ◌++◌, ◌==◌, ltb, if◌then◌else◌,
}
use plexdb.Prelude.Fallible.{◌>>=◌}
use plexdb.Core.Text.{Bytes, bytes, External, hash, to_s64}
use plexdb.Core.DynamicMap.{DynamicMap}
use plexdb.Core.DynamicMap
use plexdb.Core.DynamicMap.Laws.{is_some}
use plexdb.Core.Blob.{BlobInMemory, new_blob}
use plexdb.Core.Index.{Index, Pairs}
use plexdb.Keyvalue.Glob
use plexdb.Keyvalue.Entry.{write_blob, blob_read_key, blob_read_value}
use plexdb.Keyvalue.Statement.{Statement}
use plexdb.Keyvalue.Statement
use plexdb.Keyvalue.Reply.{
  ExecutionResult, create_not_found, create_close, create_error, create_simple, create_bulk,
  create_int, create_arr, create_null_arr, create_scan,
}

-- o ? *o : a
abbrev pub value_or {ℓ} : {A : Type ℓ} → Option A → A → A
value_or none a = a
value_or (some b) a = b

module _ (I : Index) where
  pub record Engine : Type 0 where
    pub index : I.Tree
    pub blobs : DynamicMap BlobInMemory
    pub next_blob_id : ℕ

  -- InMemoryEngine()
  abbrev pub new_engine : Engine
  new_engine = record { index = I.empty; blobs = DynamicMap.empty; next_blob_id = 0 }

  unfoldable pub read_key : Engine → ℕ → Option Bytes
  read_key engine id = do b ← DynamicMap.find engine.blobs id; blob_read_key b

  unfoldable pub read_value : Engine → ℕ → Option Bytes
  read_value engine id = do b ← DynamicMap.find engine.blobs id; blob_read_value b

  -- The blob is written in its place in the table.
  unfoldable pub write_entry : Engine → ℕ → Bytes → Bytes → Option Engine
  write_entry engine id key value = do
    b ← DynamicMap.find engine.blobs id
    b' ← write_blob b key value
    some (record engine { blobs = DynamicMap.insert engine.blobs id b' })

  unfoldable pub alloc_blob : Engine → ℕ × Engine
  alloc_blob engine =
      let id = engine.next_blob_id in
      (
        id,
        record engine {
          next_blob_id = (id + 1) % 2 ^ 64;
          blobs = DynamicMap.insert engine.blobs id new_blob;
        },
      )

  unfoldable pub free_blob : Engine → ℕ → Engine
  free_blob engine id = record engine { blobs = (DynamicMap.remove engine.blobs id).0 }

  module _ (e : External) where
    unfoldable pub id_of : Engine → Bytes → Option ℕ
    id_of engine key = I.tfind engine.index (hash e key)

    -- if (id_opt) { ... } else { ... }, in Set and in Mset
    unfoldable pub store : Engine → Option ℕ → Bytes → Bytes → Option Engine
    store engine (some id) key value = write_entry engine id key value
    store engine none key value = do
      let allocated = alloc_blob engine
      engine₁ ← write_entry allocated.1 allocated.0 key value
      index ← I.tinsert engine₁.index (hash e key) allocated.0
      some (record engine₁ { index = index })

    unfoldable pub get : Engine → Bytes → Option ExecutionResult
    get engine key = elim (id_of engine key) [
      | none ↦ some create_not_found
      | some id ↦ read_value engine id >>= λ value. some (create_bulk value)
    ]

    unfoldable pub set : Engine → Bytes → Bytes → Bool → Bool → Option (ExecutionResult × Engine)
    set engine key value nx xx =
        let id_opt = id_of engine key in
        if nx && is_some id_opt
        then some (create_not_found, engine)
        else if xx && not (is_some id_opt)
        then some (create_not_found, engine)
        else store engine id_opt key value >>= λ engine'. some (create_simple (bytes "OK"), engine')

    -- One key of Del, with the count.
    unfoldable pub del_key : Engine → Bytes → ℕ → ℕ × Engine
    del_key engine key count = elim (id_of engine key) [
      | none ↦ (count, engine)
      | some id ↦
          let freed = free_blob engine id in
          (count + 1, record freed { index = I.remove freed.index (hash e key) })
    ]

    unfoldable pub del : Engine → List Bytes → ℕ → ℕ × Engine
    del engine [] count = (count, engine)
    del engine (key ∷ keys) count = let next = del_key engine key count in del next.1 keys next.0

    unfoldable pub exists : Engine → List Bytes → ℕ → ℕ
    exists engine [] count = count
    exists engine (key ∷ keys) count =
        exists engine keys (if is_some (id_of engine key) then count + 1 else count)

    unfoldable pub mget : Engine → List Bytes → Option (List (Option Bytes))
    mget engine [] = some []
    mget engine (key ∷ keys) = do
      val ← elim (id_of engine key) [
        | none ↦ some none
        | some id ↦ read_value engine id >>= λ value. some (some value)
      ]
      vals ← mget engine keys
      some (val ∷ vals)

    unfoldable pub mset : Engine → List (Bytes × Bytes) → Option Engine
    mset engine [] = some engine
    mset engine ((key, value) ∷ pairs) = do
      engine' ← store engine (id_of engine key) key value
      mset engine' pairs

  -- One round of the loops of Keys and of Scan: the key, when the pattern takes it.
  unfoldable pub matching : Engine → ℕ → Bytes → Option (List Bytes)
  matching engine id pattern = do
    key ← read_key engine id
    taken ← Glob.match key pattern
    some (if taken then key ∷ [] else [])

  unfoldable pub keys : Engine → Bytes → Pairs → Option (List Bytes)
  keys engine pattern [] = some []
  keys engine pattern ((key_hash, id) ∷ it) = do
    found ← matching engine id pattern
    rest ← keys engine pattern it
    some (found ++ rest)

  -- The keys, and where the iterator stands when the loop ends. The count is what is left of it.
  unfoldable pub scan_loop : Engine → Bytes → ℕ → Pairs → Option (List Bytes × Pairs)
  scan_loop engine pattern count [] = some ([], [])
  scan_loop engine pattern zero (entry ∷ it) = some ([], entry ∷ it)
  scan_loop engine pattern (suc count) ((key_hash, id) ∷ it) = do
    found ← matching engine id pattern
    rest ← scan_loop engine pattern count it
    some (found ++ rest.0, rest.1)

  module _ (e : External) where
    unfoldable pub next_cursor : Engine → Pairs → Option ℕ
    next_cursor engine [] = some 0
    next_cursor engine ((key_hash, id) ∷ it) = do
      next_key ← read_key engine id
      some (hash e next_key)

    unfoldable pub scan : Engine → ℕ → Option Bytes → Option ℕ → Option ExecutionResult
    unfolding scan_loop next_cursor
    scan engine cursor pattern count = do
      let pattern' = value_or pattern (bytes "*")
      let count' = value_or count 10
      let it = if cursor == 0 then I.begin engine.index else I.find_ge engine.index cursor
      found ← scan_loop engine pattern' count' it
      next ← next_cursor engine found.1
      some (create_scan (e.print_u64 next) found.0)

  unfoldable pub flush : Engine → Engine
  flush engine = record engine {
    blobs = DynamicMap.clear engine.blobs;
    index = I.truncate engine.index;
  }

  module _ (e : External) where
    pub info_text : Engine → Bytes
    info_text engine =
        bytes "# Server\r\nredis_version:7.0.0\r\narch_bits:64\r\n# Keyspace\r\ndb0:keys="
        ++ (e.print_u64 (I.size engine.index) ++ bytes ",expires=0\r\n")

    -- execute_inside_transaction, which is all that execute does for an InMemoryEngine.
    unfoldable pub execute : Engine → Statement → Option (ExecutionResult × Engine)
    execute engine (Statement.ping (some message)) = some (create_bulk message, engine)
    execute engine (Statement.ping none) = some (create_simple (bytes "PONG"), engine)
    execute engine Statement.quit = some (create_close, engine)
    execute engine (Statement.get key) = get e engine key >>= λ result. some (result, engine)
    execute engine (Statement.set key value nx xx) = set e engine key value nx xx
    execute engine (Statement.del keys) =
        let deleted = del e engine keys 0 in some (create_int (to_s64 deleted.0), deleted.1)
    execute engine (Statement.exists keys) =
        some (create_int (to_s64 (exists e engine keys 0)), engine)
    execute engine (Statement.mget keys) =
        mget e engine keys >>= λ vals. some (create_null_arr vals, engine)
    execute engine (Statement.mset pairs) =
        mset e engine pairs >>= λ engine'. some (create_simple (bytes "OK"), engine')
    execute engine (Statement.keys pattern) =
        keys engine pattern (I.begin engine.index) >>= λ found. some (create_arr found, engine)
    execute engine (Statement.scan cursor pattern count) =
        scan e engine cursor pattern count >>= λ result. some (result, engine)
    execute engine Statement.flush_db = some (create_simple (bytes "OK"), flush engine)
    execute engine Statement.flush_all = some (create_simple (bytes "OK"), flush engine)
    execute engine Statement.db_size = some (create_int (to_s64 (I.size engine.index)), engine)
    execute engine (Statement.type_of key) = some (
      create_simple (if is_some (id_of e engine key) then bytes "string" else bytes "none"),
      engine,
    )
    execute engine Statement.cmd = some (create_arr [], engine)
    execute engine (Statement.select_db index) =
        if index == 0 then some (create_simple (bytes "OK"), engine) else none
    execute engine Statement.client_get_name = some (create_not_found, engine)
    execute engine (Statement.client args) = some (create_simple (bytes "OK"), engine)
    execute engine (Statement.info section) = some (create_bulk (info_text engine), engine)
    execute engine (Statement.unknown name args) =
        some (create_error (bytes "unknown command '" ++ (name ++ bytes "'")), engine)
