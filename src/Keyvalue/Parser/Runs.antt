-- ===== src/Keyvalue/Parser/Runs.antt =====
-- Runs of the parser, and its theorem at a concrete input.
use plexdb.Prelude.{◌≤◌, ◌<◌, ◌≡◌, refl, true, false, [], ◌++◌, length, take}
use plexdb.Core.Text.{Bytes, bytes}
use plexdb.Core.Text.Sample.{sample}
use plexdb.Keyvalue.Statement.{Statement}
use plexdb.Keyvalue.Outcome.{ok}
use plexdb.Keyvalue.Parser.{parse}
use plexdb.Keyvalue.Parser.Stream.{parse_local}

abbrev inline_get : Bytes
inline_get = bytes "get k\r\nquit\r\n"

parse-inline_get : parse sample inline_get ≡ ok (Statement.get (bytes "k"), 7)
unfolding parse
parse-inline_get = refl

parse_array_set :
    parse sample (bytes "*4\r\n$3\r\nSET\r\n$1\r\nk\r\n$0\r\n\r\n$2\r\nnX\r\n")
    ≡ ok (Statement.set (bytes "k") [] true false, 34)
unfolding parse
parse_array_set = refl

parse_local_example :
    (0 < 7)
    × (7 ≤ length inline_get)
    × (parse sample (take 7 inline_get ++ bytes "ping") ≡ ok (Statement.get (bytes "k"), 7))
parse_local_example =
    parse_local sample inline_get (bytes "ping") (Statement.get (bytes "k")) 7 parse-inline_get
