-- ===== src/Keyvalue/Parser/Stream.antt =====
-- keyvalue/parsers/parsers.cpp: parse, against the front of the buffer that it consumes.
use plexdb.Prelude.{
  ℕ, suc, ◌+◌, ◌-◌, ◌≤◌, ◌<◌, ◌≡◌, refl, sym, ◌∙◌, ap, false, Option, none, some, List, [], ◌∷◌,
  ◌++◌, ◌==◌, subst, length, take, arith, length-append, ==_iff, Bool-cases, inl, inr, append_assoc,
  take-length-append,
}
use plexdb.Core.Text.{Bytes, External}
use plexdb.Keyvalue.Outcome.{ok, ◌>>=◌, >>=-eq-ok}
use plexdb.Keyvalue.Statement.{Statement}
use plexdb.Keyvalue.Parser.{
  find_crlf, array_args, tokens, parse_resp_array, parse_line, parse_inline_line, parse_inline,
  parse,
}
use plexdb.Keyvalue.Parser.Args.{build_from_args}
use plexdb.Keyvalue.Parser.Prefixes.{find_crlf_split, find_crlf_local, array_args-Reads}

-- Both forms of a request, as one reader of a statement.
record Consumes (e : External) (buffer : Bytes) (statement : Statement) (consumed : ℕ)
    : Type 0 where
  taken : Bytes
  behind : Bytes
  split : buffer ≡ taken ++ behind
  count : consumed ≡ length taken
  some_byte : 0 < length taken
  local : (r : Bytes) → parse e (taken ++ r) ≡ ok (statement, consumed)

length-taken : (taken behind : Bytes) → length (taken ++ behind) - length behind ≡ length taken
length-taken taken behind = omega (arith, length-append taken behind)

module _ (e : External) where
  array-Consumes :
      (buffer : Bytes) (statement : Statement) (consumed : ℕ)
      → parse_resp_array e (b'*' ∷ buffer) ≡ ok (statement, consumed)
      → Consumes e (b'*' ∷ buffer) statement consumed
  unfolding parse
  array-Consumes buffer statement consumed h =
      let ((args, end), ea, k) =
        >>=-eq-ok (array_args buffer)
          (λ (s : List Bytes × Bytes).
            build_from_args e s.0 >>= λ t. ok (t, length (b'*' ∷ buffer) - length s.1))
          h in
      let (t, et, m) =
        >>=-eq-ok (build_from_args e args) (λ t. ok (t, length (b'*' ∷ buffer) - length end)) k in
      let ar = array_args-Reads buffer args end ea in
      let counts : consumed ≡ suc (length ar.taken) =
        ground (arith, m, length-taken (b'*' ∷ ar.taken) end, ap length ar.split) in
      record {
        taken = b'*' ∷ ar.taken;
        behind = end;
        split = ap (λ (p : Bytes). b'*' ∷ p) ar.split;
        count = counts;
        some_byte = omega arith;
        local = λ r.
            rw (parse_resp_array, ar.local r, et)
              (ground (arith, m, counts, length-taken (b'*' ∷ ar.taken) r));
      }

  parse_line-consumed :
      (args : List Bytes) (n : ℕ) (statement : Statement) (consumed : ℕ)
      → parse_line e args n ≡ ok (statement, consumed)
      → consumed ≡ n
  unfolding parse_line
  parse_line-consumed [] n statement consumed h = cc
  parse_line-consumed (verb ∷ args) n statement consumed h =
      let (t, et, m) = >>=-eq-ok (build_from_args e (verb ∷ args)) (λ t. ok (t, n)) h in
      ground (arith, m)

  parse_inline-ok :
      (o : Option (Bytes × Bytes)) (statement : Statement) (consumed : ℕ)
      → parse_inline_line e o ≡ ok (statement, consumed)
      → (line behind : Bytes) × (o ≡ some (line, behind))
        × (consumed ≡ length line + 2)
        × (parse_line e (tokens none line) (length line + 2) ≡ ok (statement, consumed))
  unfolding parse_inline_line
  parse_inline-ok none statement consumed h = cc
  parse_inline-ok (some (line, behind)) statement consumed h =
      (line, behind, refl, parse_line-consumed (tokens none line) _ statement consumed h, h)

  inline_local :
      (c : ℕ) (buffer line behind r : Bytes)
      → (c == b'*') ≡ false
      → c ∷ buffer ≡ line ++ (b'\r' ∷ b'\n' ∷ behind)
      → parse e (line ++ (b'\r' ∷ b'\n' ∷ r)) ≡ parse_inline e (line ++ (b'\r' ∷ b'\n' ∷ r))
  unfolding parse
  inline_local c buffer [] behind r ne h = refl
  inline_local c buffer (z ∷ line) behind r ne h = ground arith

  inline-Consumes :
      (c : ℕ) (buffer : Bytes) (statement : Statement) (consumed : ℕ)
      → (c == b'*') ≡ false
      → parse_inline e (c ∷ buffer) ≡ ok (statement, consumed)
      → Consumes e (c ∷ buffer) statement consumed
  unfolding parse_inline
  inline-Consumes c buffer statement consumed ne h =
      let (line, behind, ef, ec, el) =
        parse_inline-ok (find_crlf (c ∷ buffer)) statement consumed h in
      let split = find_crlf_split (c ∷ buffer) line behind ef in
      let end : Bytes = b'\r' ∷ b'\n' ∷ [] in
      record {
        taken = line ++ end;
        behind = behind;
        split = split ∙ sym (append_assoc line end behind);
        count = omega (arith, length-append line end);
        some_byte = omega (arith, length-append line end);
        local = λ r.
            rw
              (
                append_assoc line end r,
                inline_local c buffer line behind r ne split,
                find_crlf_local (c ∷ buffer) line behind r ef,
                parse_inline_line,
              )
              el;
      }

  parse-Consumes :
      (buffer : Bytes) (statement : Statement) (consumed : ℕ)
      → parse e buffer ≡ ok (statement, consumed)
      → Consumes e buffer statement consumed
  unfolding parse
  parse-Consumes [] statement consumed h = cc
  parse-Consumes (c ∷ buffer) statement consumed h = elim (Bool-cases (c == b'*')) [
    | inl is ↦
        subst
          (λ x.
            parse_resp_array e (x ∷ buffer) ≡ ok (statement, consumed)
            → Consumes e (x ∷ buffer) statement consumed)
          (sym ((==_iff c b'*').0 is)) (array-Consumes buffer statement consumed) (rw is at h)
    | inr ne ↦ inline-Consumes c buffer statement consumed ne (rw ne at h)
  ]

-- When parse gives a statement, the count of consumed bytes is positive and at most the length of
-- the buffer, and the same statement and count come from any buffer that starts with the consumed
-- bytes.
pub parse_local :
    (e : External) (buffer r : Bytes) (statement : Statement) (consumed : ℕ)
    → parse e buffer ≡ ok (statement, consumed)
    → (0 < consumed)
      × (consumed ≤ length buffer)
      × (parse e (take consumed buffer ++ r) ≡ ok (statement, consumed))
parse_local e buffer r statement consumed h =
    let c = parse-Consumes e buffer statement consumed h in
    (
      omega (arith, c.count, c.some_byte),
      rw c.split (omega (arith, c.count, length-append c.taken c.behind)),
      rw (c.split) (
          subst (λ n. parse e (take n (c.taken ++ c.behind) ++ r) ≡ ok (statement, n)) (sym c.count)
            (rw (take-length-append c.taken c.behind, ← c.count) (c.local r))),
    )
