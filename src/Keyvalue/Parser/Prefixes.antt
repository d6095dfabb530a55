-- ===== src/Keyvalue/Parser/Prefixes.antt =====
-- keyvalue/parsers/parsers.cpp: the steps of parse_resp_array, each against the front of the buffer
-- that it takes.
use plexdb.Prelude.{
  ℕ, zero, suc, ◌+◌, ◌≤◌, ◌≡◌, refl, sym, ◌∙◌, ap, Option, none, some, List, [], ◌∷◌, ◌++◌, ◌==◌,
  leb→le, length, take, drop, arith, length-append, ==_iff, Bool-cases, Option-cases, inl, inr,
  take-append-drop, take-append_le, length-take, le→leb, append_assoc, take-append_le, take-take,
  drop-take-append,
}
use plexdb.Core.Text.{Bytes}
use plexdb.Keyvalue.Outcome.{Outcome, ok, ◌>>=◌, >>=-eq-ok}
use plexdb.Keyvalue.Parser.{
  find_crlf, parse_decimal, natural, read_header, header, bulk_body, bulk, bulks, array_args,
}

-- `f` takes `a` from the front of `p`, leaves `behind`, and has not looked at it.
pub record Reads {ℓ} {A : Type ℓ} (f : Bytes → Outcome (A × Bytes)) (p : Bytes) (a : A)
    (behind : Bytes) : Type ℓ where
  pub taken : Bytes
  pub split : p ≡ taken ++ behind
  pub local : (r : Bytes) → f (taken ++ r) ≡ ok (a, r)

pub find_crlf_split :
    (p line behind : Bytes)
    → find_crlf p ≡ some (line, behind)
    → p ≡ line ++ (b'\r' ∷ b'\n' ∷ behind)
unfolding find_crlf
find_crlf_split [] line behind h = cc
find_crlf_split (x ∷ []) line behind h = cc
find_crlf_split (x ∷ y ∷ p) line behind h = elim (Option-cases (find_crlf (y ∷ p))) [
  | inl e ↦ ground arith
  | inr ((l, b), e) ↦ ground (arith, find_crlf_split (y ∷ p) l b e)
]

pub find_crlf_local :
    (p line behind r : Bytes)
    → find_crlf p ≡ some (line, behind)
    → find_crlf (line ++ (b'\r' ∷ b'\n' ∷ r)) ≡ some (line, r)
unfolding find_crlf
find_crlf_local [] line behind r h = cc
find_crlf_local (x ∷ []) line behind r h = cc
find_crlf_local (x ∷ y ∷ p) [] behind r h = refl
find_crlf_local (x ∷ y ∷ p) (z ∷ []) behind r h = ground arith
find_crlf_local (x ∷ y ∷ p) (z ∷ w ∷ line) behind r h = elim (Option-cases (find_crlf (y ∷ p))) [
  | inl e ↦ ground arith
  | inr ((l, b), e) ↦ ground (arith, find_crlf_split (y ∷ p) l b e, find_crlf_local (y ∷ p) l b r e)
]

read_header-ok :
    (o : Option (Bytes × Bytes)) (n : ℕ) (behind : Bytes)
    → read_header o ≡ ok (n, behind)
    → (line : Bytes) × (o ≡ some (line, behind)) × (natural (parse_decimal line) ≡ ok n)
unfolding read_header
read_header-ok none n behind h = cc
read_header-ok (some (line, b)) n behind h =
    let (m, e, e') = >>=-eq-ok (natural (parse_decimal line)) (λ k. ok (k, b)) h in
    (line, ground arith, ground arith)

Reads_split :
    {p q : Bytes} (x y behind : Bytes) → p ≡ x ++ q → q ≡ y ++ behind → p ≡ (x ++ y) ++ behind
Reads_split x y behind ep eq = ep ∙ ap (λ (t : Bytes). x ++ t) eq ∙ sym (append_assoc x y behind)

pub header-Reads :
    (p : Bytes) (n : ℕ) (behind : Bytes) → header p ≡ ok (n, behind) → Reads header p n behind
unfolding header
header-Reads p n behind h =
    let (line, e, e') = read_header-ok (find_crlf p) n behind h in
    record {
      taken = line ++ (b'\r' ∷ b'\n' ∷ []);
      split = find_crlf_split p line behind e ∙ sym (append_assoc line (b'\r' ∷ b'\n' ∷ []) behind);
      local = λ r. rw (append_assoc line, find_crlf_local p line behind r e, e');
    }

bulk_body-ok :
    (n : ℕ) (p arg behind : Bytes)
    → bulk_body n p ≡ ok (arg, behind)
    → (n + 2 ≤ length p) × (arg ≡ take n p) × (behind ≡ drop (n + 2) p)
unfolding bulk_body
bulk_body-ok n p arg behind h = ground (arith, leb→le (n + 2) (length p))

bulk_body_local :
    (n : ℕ) (p r : Bytes) → n + 2 ≤ length p → bulk_body n (take (n + 2) p ++ r) ≡ ok (take n p, r)
unfolding bulk_body
bulk_body_local n p r h =
    let whole : length (take (n + 2) p) ≡ n + 2 = omega (arith, length-take (n + 2) p) in
    rw (
      length-append (take (n + 2) p) r,
      le→leb (n + 2) (length (take (n + 2) p) + length r) (omega arith),
      take-append_le n (take (n + 2) p) r (omega arith),
      take-take n (n + 2) p (omega arith),
      drop-take-append (n + 2) p r h,
    )

bulk_body-Reads :
    (n : ℕ) (p arg behind : Bytes)
    → bulk_body n p ≡ ok (arg, behind)
    → Reads (bulk_body n) p arg behind
bulk_body-Reads n p arg behind h =
    let (le, ea, eb) = bulk_body-ok n p arg behind h in
    record {
      taken = take (n + 2) p;
      split = sym (take-append-drop (n + 2) p) ∙ ap (λ (t : Bytes). take (n + 2) p ++ t) (sym eb);
      local = λ r. bulk_body_local n p r le ∙ ap (λ (t : Bytes). ok (t, r)) (sym ea);
    }

bulk-ok :
    (p arg behind : Bytes)
    → bulk p ≡ ok (arg, behind)
    → (q body : Bytes) × (n : ℕ) × (p ≡ b'$' ∷ q)
      × (header q ≡ ok (n, body))
      × (bulk_body n body ≡ ok (arg, behind))
unfolding bulk
bulk-ok [] arg behind h = cc
bulk-ok (c ∷ q) arg behind h = elim (Bool-cases (c == b'$')) [
  | inl e ↦
      let ((n, body), eh, eb) =
        >>=-eq-ok (header q) (λ (r : ℕ × Bytes). bulk_body r.0 r.1) (rw (e, bulk) at h) in
      (q, body, n, ap (λ (x : ℕ). x ∷ q) ((==_iff c b'$').0 e), eh, eb)
  | inr e ↦ let h' = (rw (e, bulk) at h) in cc
]

pub bulk-Reads : (p arg behind : Bytes) → bulk p ≡ ok (arg, behind) → Reads bulk p arg behind
unfolding bulk
bulk-Reads p arg behind h =
    let (q, body, n, ep, eh, eb) = bulk-ok p arg behind h in
    let hr = header-Reads q n body eh in
    let br = bulk_body-Reads n body arg behind eb in
    record {
      taken = b'$' ∷ (hr.taken ++ br.taken);
      split = ep ∙ ap (λ (t : Bytes). b'$' ∷ t) (Reads_split hr.taken br.taken _ hr.split br.split);
      local = λ r. rw (append_assoc hr.taken, hr.local, br.local);
    }

bulks-ok :
    (count : ℕ) (p : Bytes) (args : List Bytes) (end : Bytes)
    → bulks (suc count) p ≡ ok (args, end)
    → (arg behind : Bytes) × (rest : List Bytes) × (bulk p ≡ ok (arg, behind))
      × (bulks count behind ≡ ok (rest, end))
      × (args ≡ arg ∷ rest)
unfolding bulks
bulks-ok count p args end h =
    let ((arg, behind), eb, k) =
      >>=-eq-ok (bulk p)
        (λ (r : Bytes × Bytes). bulks count r.1 >>= λ (s : List Bytes × Bytes). ok (r.0 ∷ s.0, s.1))
        h in
    let ((rest, end'), er, l) =
      >>=-eq-ok (bulks count behind) (λ (s : List Bytes × Bytes). ok (arg ∷ s.0, s.1)) k in
    (arg, behind, rest, eb, ground (arith, er, l), ground (arith, l))

pub bulks-Reads :
    (count : ℕ) (p : Bytes) (args : List Bytes) (end : Bytes)
    → bulks count p ≡ ok (args, end)
    → Reads (bulks count) p args end
unfolding bulks
bulks-Reads zero p args end h = record {
  taken = [];
  split = ground arith;
  local = λ r. ground arith;
}
bulks-Reads (suc count) p args end h =
    let (arg, behind, rest, eb, er, ea) = bulks-ok count p args end h in
    let br = bulk-Reads p arg behind eb in
    let rr = bulks-Reads count behind rest end er in
    record {
      taken = br.taken ++ rr.taken;
      split = Reads_split br.taken rr.taken _ br.split rr.split;
      local = λ r. rw (append_assoc br.taken, br.local, rr.local, ea);
    }

pub array_args-Reads :
    (p : Bytes) (args : List Bytes) (end : Bytes)
    → array_args p ≡ ok (args, end)
    → Reads array_args p args end
unfolding array_args
array_args-Reads p args end h =
    let ((count, q), eh, eb) = >>=-eq-ok (header p) (λ (r : ℕ × Bytes). bulks r.0 r.1) h in
    let hr = header-Reads p count q eh in
    let br = bulks-Reads count q args end eb in
    record {
      taken = hr.taken ++ br.taken;
      split = Reads_split hr.taken br.taken _ hr.split br.split;
      local = λ r. rw (append_assoc hr.taken, hr.local, br.local);
    }
