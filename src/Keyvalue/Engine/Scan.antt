-- ===== src/Keyvalue/Engine/Scan.antt =====
-- keyvalue/engine/engine.cppm: SCAN and a client of it, which gives each
-- cursor back, read as parsers.cpp reads it, until it is 0.
use plexdb.Prelude.{
  ℕ, zero, suc, ◌+◌, ◌^◌, ◌<◌, ◌≡◌, refl, sym, ◌∙◌, ap, Option, none, some, arith, ◌==◌,
  if◌then◌else◌, false, List, [], ◌∷◌, ◌++◌, length, take, drop, append-nil, length-drop,
  take-append-drop, drop-drop, subst,
}
use plexdb.Prelude.Fallible.{◌>>=◌}
use plexdb.Core.Text.{Bytes, bytes, External, hash-bounds, u64_from_str}
use plexdb.Core.Index.{Index, Pairs}
use plexdb.Core.Index.Lists.{from_key-drop}
use plexdb.Keyvalue.Statement.{Statement}
use plexdb.Keyvalue.Reply.{create_scan}
use plexdb.Keyvalue.Engine.{Engine, value_or, execute, scan_loop, next_cursor, scan}
use plexdb.Keyvalue.Engine.Spec.{View}
use plexdb.Keyvalue.Engine.Represents.{Represents, Stored, blob_of, read_key_lem}
use plexdb.Keyvalue.Engine.Listing.{
  view_keys, view_keys-append, PlainKeys, Listed, matching_at, begin-Listed,
}

module _ (I : Index) (e : External) where
  scan_loop_lem :
      (s : Engine I) (view : View) (pattern : Bytes) (count : ℕ) (it : Pairs)
      → Represents I e s view
      → PlainKeys view
      → Listed I e s it
      → scan_loop I s pattern count it
        ≡ some (view_keys view pattern (take count it), drop count it)
  unfolding scan_loop
  scan_loop_lem s view pattern zero [] r plain l = refl
  scan_loop_lem s view pattern (suc count) [] r plain l = refl
  scan_loop_lem s view pattern zero (p ∷ it) r plain l = refl
  scan_loop_lem s view pattern (suc count) ((h, id) ∷ it) r plain (at, l) =
      rw
        (
          matching_at I e s h id pattern (view h) (r.stored h) (plain h) at,
          scan_loop_lem s view pattern count it r plain l,
          scan_loop,
        )
        refl

  -- The cursor at which a scan goes on.
  abbrev cursor_of : Pairs → ℕ
  cursor_of [] = 0
  cursor_of ((h, id) ∷ it) = h

  next_cursor_at :
      (s : Engine I) (h id : ℕ) (it : Pairs) (o : Option (Bytes × Bytes))
      → Stored I e s h o
      → blob_of I s h ≡ some id
      → (next_cursor I e s ((h, id) ∷ it) ≡ some h) × (0 < h) × (h < 2 ^ 64)
  unfolding next_cursor
  next_cursor_at s h id it none absent at = ground (arith, absent, at)
  next_cursor_at s h id it (some (key, value)) st at =
      let same : st.id ≡ id = ground (arith, st.at, at) in
      let (low, high) = hash-bounds e key in
      (
        rw (sym same, read_key_lem I e s st.id key value st.blob st.fits, next_cursor)
            (ap some st.hashed),
        ground (arith, st.hashed, low),
        ground (arith, st.hashed, high),
      )

  next_cursor_lem :
      (s : Engine I) (view : View) (it : Pairs)
      → Represents I e s view
      → Listed I e s it
      → (next_cursor I e s it ≡ some (cursor_of it)) × (cursor_of it < 2 ^ 64)
  unfolding next_cursor
  next_cursor_lem s view [] r l = (refl, omega arith)
  next_cursor_lem s view ((h, id) ∷ it) r (at, l) =
      let (next, low, high) = next_cursor_at s h id it (view h) (r.stored h) at in (next, high)

  Listed-drop : (s : Engine I) (n : ℕ) (it : Pairs) → Listed I e s it → Listed I e s (drop n it)
  Listed-drop s zero it l = l
  Listed-drop s (suc n) [] l = tt
  Listed-drop s (suc n) (p ∷ it) (at, l) = Listed-drop s n it l

  abbrev pattern_of : Option Bytes → Bytes
  pattern_of pattern = value_or pattern (bytes "*")

  -- Where a scan starts.
  abbrev from_cursor : Engine I → ℕ → Pairs
  from_cursor s cursor = if cursor == 0 then I.begin s.index else I.find_ge s.index cursor

  scan_page :
      (s : Engine I) (view : View) (cursor : ℕ) (pattern : Option Bytes) (count : Option ℕ)
      (it : Pairs)
      → Represents I e s view
      → PlainKeys view
      → Listed I e s it
      → from_cursor s cursor ≡ it
      → execute I e s (Statement.scan cursor pattern count)
        ≡ some (
          create_scan
              (e.print_u64 (cursor_of (drop (value_or count 10) it)))
              (view_keys view (pattern_of pattern) (take (value_or count 10) it)),
          s,
        )
  unfolding execute scan
  scan_page s view cursor pattern count it r plain l at =
      let c = value_or count 10 in
      rw
        (
          execute,
          scan,
          at,
          scan_loop_lem s view (pattern_of pattern) c it r plain l,
          (next_cursor_lem s view (drop c it) r (Listed-drop s c it l)).0,
        )
        refl

  -- The client, with fuel for the pages: `none` also means that it ran out.
  unfoldable pub scan_all : ℕ → Engine I → ℕ → Option Bytes → Option ℕ → Option (List Bytes)
  scan_all zero s cursor pattern count = none
  scan_all (suc fuel) s cursor pattern count = do
    page ← execute I e s (Statement.scan cursor pattern count)
    let next = u64_from_str e page.0.cursor
    let rest = scan_all fuel page.1 next pattern count
    if next == 0 then some page.0.arr else (rest >>= λ keys. some (page.0.arr ++ keys))

  -- Where the next page starts, after the pages that passed `n` pairs.
  next_page :
      (s : Engine I) (view : View) (n : ℕ)
      → Represents I e s view
      → (it : Pairs) → drop n (I.begin s.index) ≡ it
      → Listed I e s it
      → 0 < length it
      → (from_cursor s (cursor_of it) ≡ it) × ((cursor_of it == 0) ≡ false)
  next_page s view n r [] eq l some_left = absurd (omega (arith, some_left))
  next_page s view n r ((h, id) ∷ it) eq (at, l) some_left =
      let (next, low, high) = next_cursor_at s h id it (view h) (r.stored h) at in
      let not_zero : (h == 0) ≡ false = ground (arith, low) in
      (
        rw not_zero (
            I.find_ge_lem s.index h r.index
            ∙ from_key-drop n h id (I.begin s.index) it (I.begin_sorted s.index r.index) eq
            ∙ eq),
        not_zero,
      )

  scan_step :
      (fuel : ℕ) (s : Engine I) (view : View) (cursor : ℕ) (pattern : Option Bytes)
      (count : Option ℕ) (it rest : Pairs)
      → Represents I e s view
      → PlainKeys view
      → Listed I e s it
      → from_cursor s cursor ≡ it
      → drop (value_or count 10) it ≡ rest
      → scan_all (suc fuel) s cursor pattern count ≡ (
          let found = view_keys view (pattern_of pattern) (take (value_or count 10) it) in
          if cursor_of rest == 0
          then some found
          else (scan_all fuel s (cursor_of rest) pattern count >>= λ keys. some (found ++ keys)))
  unfolding scan_all
  scan_step fuel s view cursor pattern count it rest r plain l at left =
      let c = value_or count 10 in
      let next = cursor_of (drop c it) in
      let bound = (next_cursor_lem s view (drop c it) r (Listed-drop s c it l)).1 in
      let read : e.strtoull (e.print_u64 next) ≡ next =
        e.strtoull_decimal next (e.print_u64 next) (e.print_u64-IsDecimal next) bound in
      rw (scan_page s view cursor pattern count it r plain l at, scan_all, read, left) refl

  whole_page :
      (view : View) (pattern : Bytes) (count : ℕ) (it rest : Pairs)
      → drop count it ≡ rest
      → view_keys view pattern (take count it) ++ view_keys view pattern rest
        ≡ view_keys view pattern it
  whole_page view pattern count it rest left =
      sym (view_keys-append view pattern (take count it) rest)
      ∙ ap (view_keys view pattern)
          (ap (λ (xs : Pairs). take count it ++ xs) (sym left) ∙ take-append-drop count it)

  scan_pages :
      (fuel : ℕ) (s : Engine I) (view : View) (n cursor : ℕ) (pattern : Option Bytes)
      (count : Option ℕ) (it : Pairs)
      → Represents I e s view
      → PlainKeys view
      → 0 < value_or count 10
      → drop n (I.begin s.index) ≡ it
      → Listed I e s it
      → from_cursor s cursor ≡ it
      → length it < fuel
      → (rest : Pairs) → drop (value_or count 10) it ≡ rest
      → scan_all fuel s cursor pattern count ≡ some (view_keys view (pattern_of pattern) it)
  scan_pages zero s view n cursor pattern count it r plain some_count eq l at enough rest left =
      absurd (omega (arith, enough))
  scan_pages (suc fuel) s view n cursor pattern count it r plain some_count eq l at enough [] left =
      scan_step fuel s view cursor pattern count it [] r plain l at left
      ∙ ap some
          (sym (append-nil _) ∙ whole_page view (pattern_of pattern) (value_or count 10) it [] left)
  scan_pages (suc fuel) s view n cursor pattern count it r plain some_count eq l at enough
        (p ∷ rest) left =
      let c = value_or count 10 in
      let eq' : drop (n + c) (I.begin s.index) ≡ p ∷ rest =
        sym (drop-drop n c (I.begin s.index)) ∙ ap (drop c) eq ∙ left in
      let l' = subst (Listed I e s) left (Listed-drop s c it l) in
      let (at', not_zero) = next_page s view (n + c) r (p ∷ rest) eq' l' (omega arith) in
      let shorter : length (p ∷ rest) < fuel =
        omega (arith, ap length left, length-drop c it, some_count, enough) in
      scan_step fuel s view cursor pattern count it (p ∷ rest) r plain l at left
      ∙ rw
          (
            not_zero,
            scan_pages fuel s view (n + c) (cursor_of (p ∷ rest)) pattern count (p ∷ rest) r plain
                some_count eq' l' at' shorter (drop c (p ∷ rest)) refl,
          )
          (ap some (whole_page view (pattern_of pattern) c it (p ∷ rest) left))

  -- On an engine that represents a view whose keys hold no byte `*`, a client that calls SCAN with
  -- COUNT not 0 from cursor 0, and gives each cursor back until it is 0, gets the keys that the
  -- pattern takes, once for each entry of the index and in its order, within one page more than
  -- the index has pairs.
  pub scan_all-keys :
      (s : Engine I) (view : View) (pattern : Option Bytes) (count : Option ℕ)
      → Represents I e s view
      → PlainKeys view
      → 0 < value_or count 10
      → scan_all (length (I.begin s.index) + 1) s 0 pattern count
        ≡ some (view_keys view (value_or pattern (bytes "*")) (I.begin s.index))
  scan_all-keys s view pattern count r plain some_count =
      scan_pages (length (I.begin s.index) + 1) s view 0 0 pattern count (I.begin s.index) r plain
        some_count refl (begin-Listed I e s view r) refl (omega arith)
        (drop (value_or count 10) (I.begin s.index)) refl
