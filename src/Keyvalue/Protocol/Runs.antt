-- ===== src/Keyvalue/Protocol/Runs.antt =====
-- Requests that arrive whole, and in part.
use plexdb.Prelude.{◌≡◌, List, [], ◌∷◌, ◌++◌, length, arith}
use plexdb.Core.Text.{Bytes, bytes}
use plexdb.Core.Text.Sample.{sample}
use plexdb.Keyvalue.Statement.{Statement}
use plexdb.Keyvalue.Outcome.{ok, error, undefined}
use plexdb.Keyvalue.Parser.{parse}
use plexdb.Keyvalue.Parser.Args.{build_from_args}
use plexdb.Keyvalue.Protocol.Request.{request, line, bulk_frames, parse-request}
use plexdb.Keyvalue.Protocol.Cut.{parse_cut_between, parse_count_overflow}

abbrev get_key : List Bytes
get_key = bytes "gEt" ∷ bytes "k\r\n*" ∷ []

parse-request_example :
    parse sample (request sample get_key ++ bytes "*1\r\n")
    ≡ ok (Statement.get (bytes "k\r\n*"), length (request sample get_key))
unfolding build_from_args
parse-request_example =
    parse-request sample get_key (bytes "*1\r\n") (omega arith) (omega arith, (omega arith, tt))

-- "*2\r\n$3\r\nGET\r\n"
parse_cut_between_example :
    parse sample (b'*' ∷ line sample 2 (bulk_frames sample (bytes "GET" ∷ []) [])) ≡ error
parse_cut_between_example =
    parse_cut_between sample 2 (bytes "GET" ∷ []) (omega arith) (omega arith, tt) (omega arith)

parse_count_overflow_example : parse sample (b'*' ∷ line sample 9223372036854775808 []) ≡ undefined
parse_count_overflow_example = parse_count_overflow sample 9223372036854775808 [] (omega arith)
