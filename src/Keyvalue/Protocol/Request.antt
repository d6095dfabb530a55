-- ===== src/Keyvalue/Protocol/Request.antt =====
-- Requests as the array and bulk writers of keyvalue/resp/resp.protocol.cpp make them.
use plexdb.Prelude.{
  ℕ, suc, ◌+◌, ◌-◌, ◌^◌, ◌<◌, ◌≡◌, refl, ◌∙◌, ap, List, [], ◌∷◌, ◌++◌, length, All, arith,
  append_assoc, length-append, drop, le→leb, lt→ltb, take-length-append,
}
use plexdb.Prelude.Int.{pos}
use plexdb.Core.Text.{Bytes, External, to_s64}
use plexdb.Keyvalue.Outcome.{ok, ◌>>=◌}
use plexdb.Keyvalue.Parser.{bulk_body, bulk, bulks, array_args, parse_resp_array, parse}
use plexdb.Keyvalue.Parser.Args.{build_from_args}
use plexdb.Keyvalue.Parser.Numbers.{header-decimal}
use plexdb.Keyvalue.Protocol.{append_bulk_string, append_bulk_strings, append_array_header}

abbrev pub FitsS64 : ℕ → Type 0
FitsS64 n = n < 2 ^ 63

drop_two_more : (v rest : Bytes) → drop (suc (suc (length v))) (v ++ (b'\r' ∷ b'\n' ∷ rest)) ≡ rest
drop_two_more [] rest = refl
drop_two_more (x ∷ v) rest = drop_two_more v rest

drop_crlf : (v rest : Bytes) → drop (length v + 2) (v ++ (b'\r' ∷ b'\n' ∷ rest)) ≡ rest
drop_crlf v rest =
    let e : length v + 2 ≡ suc (suc (length v)) = omega arith in rw e (drop_two_more v rest)

module _ (e : External) where
  -- A header line, before a rest.
  abbrev pub line : ℕ → Bytes → Bytes
  line n rest = e.print_s64 (pos n) ++ (b'\r' ∷ b'\n' ∷ rest)

  abbrev pub bulk_frame : Bytes → Bytes → Bytes
  bulk_frame v rest = b'$' ∷ line (length v) (v ++ (b'\r' ∷ b'\n' ∷ rest))

  abbrev pub bulk_frames : List Bytes → Bytes → Bytes
  bulk_frames [] rest = rest
  bulk_frames (v ∷ vs) rest = bulk_frame v (bulk_frames vs rest)

  pub append_bulk_string-frame :
      (buf v rest : Bytes)
      → FitsS64 (length v)
      → append_bulk_string e buf v ++ rest ≡ buf ++ bulk_frame v rest
  unfolding append_bulk_string
  append_bulk_string-frame buf v rest h = simp (lt→ltb _ _ h, append_assoc)

  append_array_header-line :
      (buf : Bytes) (n : ℕ) (rest : Bytes)
      → FitsS64 n
      → append_array_header e buf (to_s64 n) ++ rest ≡ buf ++ (b'*' ∷ line n rest)
  unfolding append_array_header
  append_array_header-line buf n rest h = simp (lt→ltb _ _ h, append_assoc)

  pub append_bulk_strings-frames :
      (buf : Bytes) (vs : List Bytes) (rest : Bytes)
      → All (λ v. FitsS64 (length v)) vs
      → append_bulk_strings e buf vs ++ rest ≡ buf ++ bulk_frames vs rest
  unfolding append_bulk_strings
  append_bulk_strings-frames buf [] rest h = refl
  append_bulk_strings-frames buf (v ∷ vs) rest (h, hs) =
      append_bulk_strings-frames (append_bulk_string e buf v) vs rest hs
      ∙ append_bulk_string-frame buf v (bulk_frames vs rest) h

  -- A client's request: the arguments as an array of bulk strings.
  pub request : List Bytes → Bytes
  request args = append_bulk_strings e (append_array_header e [] (to_s64 (length args))) args

  pub request-frames :
      (args : List Bytes) (rest : Bytes)
      → FitsS64 (length args)
      → All (λ v. FitsS64 (length v)) args
      → request args ++ rest ≡ b'*' ∷ line (length args) (bulk_frames args rest)
  unfolding request
  request-frames args rest h hs =
      append_bulk_strings-frames (append_array_header e [] (to_s64 (length args))) args rest hs
      ∙ append_array_header-line [] (length args) (bulk_frames args rest) h

  -- The reader takes one frame, whatever the argument's bytes are.
  pub bulk-frame : (v rest : Bytes) → FitsS64 (length v) → bulk (bulk_frame v rest) ≡ ok (v, rest)
  unfolding bulk bulk_body
  bulk-frame v rest h = rw (
    header-decimal (length v) _ (v ++ (b'\r' ∷ b'\n' ∷ rest)) (e.print_s64-IsDecimal (length v)) h,
    length-append v (b'\r' ∷ b'\n' ∷ rest),
    le→leb (length v + 2) (length v + suc (suc (length rest))) (omega arith),
    take-length-append v (b'\r' ∷ b'\n' ∷ rest),
    drop_crlf v rest,
  )

  bulks-frames :
      (args : List Bytes) (rest : Bytes)
      → All (λ v. FitsS64 (length v)) args
      → bulks (length args) (bulk_frames args rest) ≡ ok (args, rest)
  unfolding bulks
  bulks-frames [] rest h = refl
  bulks-frames (v ∷ args) rest (h, hs) =
      rw (bulk-frame v (bulk_frames args rest) h, bulks-frames args rest hs)

  array_args-request :
      (args : List Bytes) (rest : Bytes)
      → FitsS64 (length args)
      → All (λ v. FitsS64 (length v)) args
      → array_args (line (length args) (bulk_frames args rest)) ≡ ok (args, rest)
  unfolding array_args
  array_args-request args rest h hs = rw (
    header-decimal (length args) _ (bulk_frames args rest) (e.print_s64-IsDecimal (length args)) h,
    bulks-frames args rest hs,
  )

-- The request that the array and bulk writers of the protocol make of some arguments, whose count
-- and lengths fit an S64, is parsed to the statement that those arguments build, or to the stop
-- that they lead to, and the bytes behind the request are not consumed.
pub parse-request :
    (e : External) (args : List Bytes) (rest : Bytes)
    → FitsS64 (length args)
    → All (λ v. FitsS64 (length v)) args
    → parse e (request e args ++ rest)
      ≡ (build_from_args e args >>= λ s. ok (s, length (request e args)))
unfolding parse parse_resp_array
parse-request e args rest h hs =
    let whole : length (request e args ++ rest) - length rest ≡ length (request e args) =
      omega (arith, length-append (request e args) rest) in
    let frames = request-frames e args rest h hs in
    rw (frames, array_args-request e args rest h hs)
      (ap (λ n. build_from_args e args >>= λ s. ok (s, n)) (rw frames at whole))
