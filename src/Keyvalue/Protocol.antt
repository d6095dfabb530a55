-- ===== src/Keyvalue/Protocol.antt =====
-- keyvalue/resp/resp.protocol.cpp: the bytes of the replies. Each function returns the buffer that
-- the code changes in place.
pub mod Request
pub mod Cut
mod Runs
use plexdb.Prelude.{ℕ, Bool, true, false, Option, none, some, List, [], ◌∷◌, ◌++◌, length}
use plexdb.Prelude.Int.{ℤ, pos}
use plexdb.Core.Text.{Bytes, bytes, External, to_s64}
use plexdb.Keyvalue.Reply.{ExecutionResult, ExecutionStatus, ResultKind}

abbrev pub crlf : Bytes
crlf = b'\r' ∷ b'\n' ∷ []

abbrev pub append_bytes : Bytes → Bytes → Bytes
append_bytes buf data' = buf ++ data'

abbrev pub append_str : Bytes → Bytes → Bytes
append_str buf s = append_bytes buf s

abbrev pub append_crlf : Bytes → Bytes
append_crlf buf = buf ++ crlf

abbrev pub push_back : Bytes → ℕ → Bytes
push_back buf c = buf ++ (c ∷ [])

unfoldable pub append_simple_string : Bytes → Bytes → Bytes
append_simple_string buf value = buf ++ (b'+' ∷ (value ++ crlf))

unfoldable pub append_error : Bytes → Bytes → Bytes → Bytes
append_error buf kind message =
    append_crlf (append_str (push_back (append_str (push_back buf b'-') kind) b' ') message)

unfoldable pub append_null_bulk_string : Bytes → Bytes
append_null_bulk_string buf = append_str buf (bytes "$-1\r\n")

unfoldable pub append_null_array : Bytes → Bytes
append_null_array buf = append_str buf (bytes "*-1\r\n")

module _ (e : External) where
  abbrev pub append_decimal : Bytes → ℤ → Bytes
  append_decimal buf value = append_str buf (e.print_s64 value)

  unfoldable pub append_integer : Bytes → ℤ → Bytes
  append_integer buf value = append_crlf (append_decimal (push_back buf b':') value)

  unfoldable pub append_bulk_string : Bytes → Bytes → Bytes
  append_bulk_string buf value =
      append_crlf (
        append_str (append_crlf (append_decimal (push_back buf b'$') (to_s64 (length value))))
          value)

  unfoldable pub append_array_header : Bytes → ℤ → Bytes
  append_array_header buf count = append_crlf (append_decimal (push_back buf b'*') count)

  -- for (i = 0; i < arr.length; i++) append_bulk_string(buf, arr[i]);
  unfoldable pub append_bulk_strings : Bytes → List Bytes → Bytes
  append_bulk_strings buf [] = buf
  append_bulk_strings buf (v ∷ vs) = append_bulk_strings (append_bulk_string buf v) vs

  unfoldable pub append_optional : Bytes → Option Bytes → Bytes
  append_optional buf (some v) = append_bulk_string buf v
  append_optional buf none = append_null_bulk_string buf

  unfoldable pub append_optionals : Bytes → List (Option Bytes) → Bytes
  append_optionals buf [] = buf
  append_optionals buf (v ∷ vs) = append_optionals (append_optional buf v) vs

  -- The switch on the kind of an Ok result.
  unfoldable pub encode_kind : ResultKind → ExecutionResult → Bytes → Bytes
  encode_kind ResultKind.none r buf = buf
  encode_kind ResultKind.simple_str r buf = append_simple_string buf r.str
  encode_kind ResultKind.bulk_str r buf = append_bulk_string buf r.str
  encode_kind ResultKind.int r buf = append_integer buf r.integer
  encode_kind ResultKind.arr r buf =
      append_bulk_strings (append_array_header buf (to_s64 (length r.arr))) r.arr
  encode_kind ResultKind.null_arr r buf =
      append_optionals (append_array_header buf (to_s64 (length r.null_arr))) r.null_arr
  encode_kind ResultKind.scan r buf =
      append_bulk_strings
        (append_array_header (append_bulk_string (append_array_header buf (pos 2)) r.cursor)
          (to_s64 (length r.arr)))
        r.arr

  unfoldable pub encode_status : ExecutionStatus → ExecutionResult → Bytes → Bool × Bytes
  unfolding encode_kind
  encode_status ExecutionStatus.close r buf = (false, append_simple_string buf (bytes "OK"))
  encode_status ExecutionStatus.error r buf = (true, append_error buf (bytes "ERR") r.error_message)
  encode_status ExecutionStatus.not_found r buf = (true, append_null_bulk_string buf)
  encode_status ExecutionStatus.ok r buf = (true, encode_kind r.kind r buf)

  -- Whether the connection is kept, and the buffer.
  unfoldable pub encode_result : ExecutionResult → Bytes → Bool × Bytes
  unfolding encode_status
  encode_result r buf = encode_status r.status r buf
