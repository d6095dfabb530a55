-- ===== src/Keyvalue/Statement.antt =====
-- keyvalue/engine/statements.cppm: the commands of the server.
use plexdb.Prelude.{ℕ, Bool, Option, List}
use plexdb.Core.Text.{Bytes}

pub data Statement : Type 0 where
  ping : Option Bytes → Statement
  quit : Statement
  get : Bytes → Statement
  -- key, value, nx, xx
  set : Bytes → Bytes → Bool → Bool → Statement
  del exists mget : List Bytes → Statement
  mset : List (Bytes × Bytes) → Statement
  keys : Bytes → Statement
  -- cursor, match, count
  scan : ℕ → Option Bytes → Option ℕ → Statement
  flush_db flush_all db_size : Statement
  type_of : Bytes → Statement
  cmd : Statement
  select_db : ℕ → Statement
  client_get_name : Statement
  client : List Bytes → Statement
  info : Option Bytes → Statement
  unknown : Bytes → List Bytes → Statement
