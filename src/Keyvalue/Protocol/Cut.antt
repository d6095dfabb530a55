-- ===== src/Keyvalue/Protocol/Cut.antt =====
-- A request of which only a first part has arrived, as TCP may deliver it.
use plexdb.Prelude.{
  ℕ, zero, suc, ◌+◌, ◌^◌, ◌≤◌, ◌<◌, ◌≡◌, refl, sym, ◌∙◌, some, List, [], ◌∷◌, ◌++◌, length, All,
  arith, append_assoc, length-append, Option-cases, inl, inr, ◌⊎◌,
}
use plexdb.Core.Text.{Bytes, External, IsDecimal}
use plexdb.Keyvalue.Outcome.{ok, incomplete, error, undefined}
use plexdb.Keyvalue.Parser.{
  find_crlf, read_header, header, bulk_body, bulk, bulks, array_args, parse_resp_array, parse,
}
use plexdb.Keyvalue.Parser.Numbers.{
  header-decimal, header-overflow, find_crlf-decimal, read_header-decimal,
}
use plexdb.Keyvalue.Parser.Prefixes.{find_crlf_split, find_crlf_local}
use plexdb.Keyvalue.Protocol.Request.{FitsS64, line, bulk_frame, bulk_frames, bulk-frame}

-- A short body is waited for.
bulk_body-incomplete : (n : ℕ) (p : Bytes) → length p < n + 2 → bulk_body n p ≡ incomplete
unfolding bulk_body
bulk_body-incomplete n p h = ground arith

-- A header line of which a part has arrived, or which has come with too few bytes behind it.
header_cut :
    (k : ℕ) (ds tail q : Bytes) (x : ℕ) (more : Bytes)
    → IsDecimal k ds
    → FitsS64 k
    → q ++ (x ∷ more) ≡ ds ++ (b'\r' ∷ b'\n' ∷ tail)
    → (header q ≡ incomplete)
      ⊎ ((behind : Bytes) × (header q ≡ ok (k, behind)) × (length behind < length tail))
unfolding header
header_cut k ds tail q x more d h e = elim (Option-cases (find_crlf q)) [
  | inl f ↦ inl (rw (f, read_header))
  | inr ((l, b), f) ↦
      let whole : find_crlf (q ++ (x ∷ more)) ≡ some (l, b ++ (x ∷ more)) =
        rw (find_crlf_split q l b f, append_assoc l) (find_crlf_local q l b (b ++ (x ∷ more)) f) in
      let same = sym (rw e at whole) ∙ find_crlf-decimal k ds tail d in
      let line_is : l ≡ ds = ground arith in
      inr (
        b,
        rw (f, line_is) (read_header-decimal k ds b d h),
        ground (arith, length-append b (x ∷ more)),
      )
]

module _ (e : External) where
  -- The frames that have arrived are read, and then the answer is that to the rest.
  bulks_stop :
      (vs : List Bytes) (n : ℕ) (rest : Bytes)
      → All (λ v. FitsS64 (length v)) vs
      → length vs < n
      → (bulk rest ≡ error → bulks n (bulk_frames e vs rest) ≡ error)
        × (bulk rest ≡ incomplete → bulks n (bulk_frames e vs rest) ≡ incomplete)
  unfolding bulks
  bulks_stop vs zero rest h lt = absurd (omega arith)
  bulks_stop [] (suc n) rest h lt = (λ b. rw b, λ b. rw b)
  bulks_stop (v ∷ vs) (suc n) rest (h, hs) lt =
      let ih = bulks_stop vs n rest hs (omega arith) in
      (
        λ b. rw (bulk-frame e v (bulk_frames e vs rest) h, ih.0 b),
        λ b. rw (bulk-frame e v (bulk_frames e vs rest) h, ih.1 b),
      )

  bulk_cut :
      (v q : Bytes) (x : ℕ) (more : Bytes)
      → FitsS64 (length v)
      → q ++ (x ∷ more) ≡ line e (length v) (v ++ (b'\r' ∷ b'\n' ∷ []))
      → bulk (b'$' ∷ q) ≡ incomplete
  unfolding bulk
  bulk_cut v q x more h eq =
      elim (header_cut (length v) _ _ q x more (e.print_s64-IsDecimal (length v)) h eq) [
        | inl i ↦ rw i
        | inr (behind, hd, lt) ↦ rw hd (
            bulk_body-incomplete (length v) behind
              (omega (arith, length-append v (b'\r' ∷ b'\n' ∷ []))))
      ]

-- A request for n arguments that is cut inside the next argument, behind its `$` and before its
-- end, is answered as incomplete.
pub parse_cut_inside :
    (e : External) (n : ℕ) (vs : List Bytes) (v q : Bytes) (x : ℕ) (more : Bytes)
    → FitsS64 n
    → All (λ v. FitsS64 (length v)) vs
    → FitsS64 (length v)
    → length vs < n
    → b'$' ∷ q ++ (x ∷ more) ≡ bulk_frame e v []
    → parse e (b'*' ∷ line e n (bulk_frames e vs (b'$' ∷ q))) ≡ incomplete
unfolding parse parse_resp_array array_args
parse_cut_inside e n vs v q x more hn hs h lt eq = rw (
  header-decimal n _ (bulk_frames e vs (b'$' ∷ q)) (e.print_s64-IsDecimal n) hn,
  (bulks_stop e vs n (b'$' ∷ q) hs lt).1 (bulk_cut e v q x more h (ground arith)),
)

-- A request for n arguments that is cut right behind its header, or between two arguments, is
-- answered as an error, and not as incomplete.
pub parse_cut_between :
    (e : External) (n : ℕ) (vs : List Bytes)
    → FitsS64 n
    → All (λ v. FitsS64 (length v)) vs
    → length vs < n
    → parse e (b'*' ∷ line e n (bulk_frames e vs [])) ≡ error
unfolding parse parse_resp_array array_args
parse_cut_between e n vs hn hs lt = rw (
  header-decimal n _ (bulk_frames e vs []) (e.print_s64-IsDecimal n) hn,
  (bulks_stop e vs n [] hs lt).0 (unfold bulk in refl),
)

-- A request whose count of arguments is 2^63 or more makes parse overflow a signed integer, which
-- is undefined behaviour.
pub parse_count_overflow :
    (e : External) (n : ℕ) (rest : Bytes) → 2 ^ 63 ≤ n → parse e (b'*' ∷ line e n rest) ≡ undefined
unfolding parse parse_resp_array array_args
parse_count_overflow e n rest h = rw (header-overflow n _ rest (e.print_s64-IsDecimal n) h)
