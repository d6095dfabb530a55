-- ===== src/Keyvalue/Parser/Args.antt =====
-- keyvalue/parsers/parsers.cpp, arg_eq and build_from_args: the statement that the arguments of a
-- request make.
use plexdb.Prelude.{
  ℕ, ◌-◌, Bool, true, false, ◌&&◌, ◌||◌, Option, none, some, List, [], ◌∷◌, ◌==◌, leb,
  if◌then◌else◌, length,
}
use plexdb.Core.Text.{Bytes, bytes, External, u64_from_str}
use plexdb.Keyvalue.Statement.{
  Statement, ping, quit, get, set, del, exists, mget, mset, keys, scan, flush_db, flush_all,
  db_size, type_of, cmd, select_db, client_get_name, client, info, unknown,
}
use plexdb.Keyvalue.Outcome.{Outcome, ok, not_implemented}

pub upper : ℕ → ℕ
upper c = if leb b'a' c && leb c b'z' then c - 32 else c

-- The loop of arg_eq, over two texts of one length.
pub eq_loop : Bytes → Bytes → Bool
eq_loop [] b = true
eq_loop (x ∷ a) [] = true
eq_loop (x ∷ a) (y ∷ b) = let rest = eq_loop a b in if upper x == upper y then rest else false

unfoldable pub arg_eq : Bytes → Bytes → Bool
unfolding upper eq_loop
arg_eq a b = if length a == length b then eq_loop a b else false

-- EX, PX, EXAT and PXAT, which reach assert_not_implemented("key expiry").
pub is_expiry : Bytes → Bool
unfolding arg_eq
is_expiry o =
    arg_eq o (bytes "EX")
    || arg_eq o (bytes "PX")
    || arg_eq o (bytes "EXAT")
    || arg_eq o (bytes "PXAT")

-- The options behind the key and the value of a SET. An option that is not known is passed over.
pub set_options : Bytes → Bytes → Bool → Bool → List Bytes → Outcome Statement
unfolding is_expiry
set_options key value nx xx [] = ok (set key value nx xx)
set_options key value nx xx (o ∷ os) =
    let is_nx = arg_eq o (bytes "NX") in
    let is_xx = arg_eq o (bytes "XX") in
    let rest = set_options key value (is_nx || nx) ((if is_nx then false else is_xx) || xx) os in
    if is_nx || is_xx then rest else if is_expiry o then not_implemented else rest

-- for (i = 1; i + 1 < args.length; i += 2): a last argument with no partner is left out.
pub mset_pairs : List Bytes → List (Bytes × Bytes)
mset_pairs [] = []
mset_pairs (k ∷ []) = []
mset_pairs (k ∷ v ∷ rest) = (k, v) ∷ mset_pairs rest

module _ (e : External) where
  pub scan_options : ℕ → Option Bytes → Option ℕ → List Bytes → Statement
  unfolding arg_eq
  scan_options cursor match count [] = scan cursor match count
  scan_options cursor match count (o ∷ []) = scan cursor match count
  scan_options cursor match count (o ∷ v ∷ rest) =
      let is_match = arg_eq o (bytes "MATCH") in
      let is_count = arg_eq o (bytes "COUNT") in
      scan_options cursor (if is_match then some v else match)
        (if is_match then count else if is_count then some (u64_from_str e v) else count) rest

  -- The branches that want an argument, from the arguments behind the verb.
  pub with_key : (Bytes → Statement) → Bytes → List Bytes → Outcome Statement
  with_key make verb [] = ok (unknown verb [])
  with_key make verb (a ∷ rest) = ok (make a)

  pub build_ping : List Bytes → Statement
  build_ping [] = ping none
  build_ping (a ∷ rest) = ping (some a)

  pub build_select : List Bytes → Statement
  build_select [] = select_db 0
  build_select (a ∷ rest) = select_db (u64_from_str e a)

  pub build_keys : List Bytes → Statement
  build_keys [] = keys (bytes "*")
  build_keys (a ∷ rest) = keys a

  pub build_info : List Bytes → Statement
  build_info [] = info none
  build_info (a ∷ rest) = info (some a)

  pub build_set : Bytes → List Bytes → Outcome Statement
  unfolding set_options
  build_set verb [] = ok (unknown verb [])
  build_set verb (k ∷ []) = ok (unknown verb [])
  build_set verb (k ∷ v ∷ options) = set_options k v false false options

  pub build_scan : Bytes → List Bytes → Outcome Statement
  unfolding scan_options
  build_scan verb [] = ok (unknown verb [])
  build_scan verb (c ∷ options) = ok (scan_options (u64_from_str e c) none none options)

  pub build_client : List Bytes → Statement
  unfolding arg_eq
  build_client [] = client []
  build_client (a ∷ rest) =
      if arg_eq a (bytes "GETNAME") then client_get_name else client (a ∷ rest)

  unfoldable pub build_from_args : List Bytes → Outcome Statement
  unfolding arg_eq with_key build_ping build_select build_keys build_info build_set build_scan
      mset_pairs build_client
  build_from_args [] = ok (unknown [] [])
  build_from_args (verb ∷ rest) =
      if arg_eq verb (bytes "PING")
      then ok (build_ping rest)
      else if arg_eq verb (bytes "QUIT")
      then ok quit
      else if arg_eq verb (bytes "GET")
      then with_key get verb rest
      else if arg_eq verb (bytes "TYPE")
      then with_key type_of verb rest
      else if arg_eq verb (bytes "DBSIZE")
      then ok db_size
      else if arg_eq verb (bytes "COMMAND")
      then ok cmd
      else if arg_eq verb (bytes "FLUSHDB")
      then ok flush_db
      else if arg_eq verb (bytes "FLUSHALL")
      then ok flush_all
      else if arg_eq verb (bytes "SELECT")
      then ok (build_select rest)
      else if arg_eq verb (bytes "KEYS")
      then ok (build_keys rest)
      else if arg_eq verb (bytes "INFO")
      then ok (build_info rest)
      else if arg_eq verb (bytes "SET")
      then build_set verb rest
      else if arg_eq verb (bytes "DEL")
      then ok (del rest)
      else if arg_eq verb (bytes "EXISTS")
      then ok (exists rest)
      else if arg_eq verb (bytes "MGET")
      then ok (mget rest)
      else if arg_eq verb (bytes "MSET")
      then ok (mset (mset_pairs rest))
      else if arg_eq verb (bytes "SCAN")
      then build_scan verb rest
      else if arg_eq verb (bytes "CLIENT")
      then ok (build_client rest)
      else ok (unknown verb rest)
