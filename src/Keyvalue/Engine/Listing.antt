-- ===== src/Keyvalue/Engine/Listing.antt =====
-- keyvalue/engine/engine.cppm: KEYS, against the view.
use plexdb.Prelude.{
  ℕ, ◌≡◌, refl, sym, Option, none, some, arith, if◌then◌else◌, List, [], ◌∷◌, ◌++◌, All,
  append_assoc,
}
use plexdb.Core.Text.{Bytes, External}
use plexdb.Core.Index.{Index, Pairs}
use plexdb.Core.Index.Lists.{Ascending-listed}
use plexdb.Keyvalue.Statement.{Statement}
use plexdb.Keyvalue.Reply.{create_arr}
use plexdb.Keyvalue.Glob.Spec.{matches, NoStar}
use plexdb.Keyvalue.Glob.Correct.{match-matches}
use plexdb.Keyvalue.Engine.{Engine, execute, keys, matching}
use plexdb.Keyvalue.Engine.Spec.{View}
use plexdb.Keyvalue.Engine.Represents.{Represents, Stored, blob_of, read_key_lem}

-- The key under a hash, when the pattern takes it.
abbrev pub taken : Bytes → Option (Bytes × Bytes) → List Bytes
taken pattern none = []
taken pattern (some (key, value)) = if matches pattern key then key ∷ [] else []

abbrev pub view_keys : View → Bytes → Pairs → List Bytes
view_keys view pattern [] = []
view_keys view pattern ((h, id) ∷ it) = taken pattern (view h) ++ view_keys view pattern it

abbrev pub PlainKey : Option (Bytes × Bytes) → Type 0
PlainKey none = Unit {0}
PlainKey (some (key, value)) = NoStar key

-- No key of the view holds a byte `*`.
abbrev pub PlainKeys : View → Type 0
PlainKeys view = (h : ℕ) → PlainKey (view h)

pub view_keys-append :
    (view : View) (pattern : Bytes) (xs ys : Pairs)
    → view_keys view pattern (xs ++ ys) ≡ view_keys view pattern xs ++ view_keys view pattern ys
view_keys-append view pattern [] ys = refl
view_keys-append view pattern ((h, id) ∷ xs) ys =
    rw (view_keys-append view pattern xs ys) (sym (append_assoc (taken pattern (view h)) _ _))

module _ (I : Index) (e : External) where
  abbrev pub Listed : Engine I → Pairs → Type 0
  Listed s = All (λ (p : ℕ × ℕ). blob_of I s p.0 ≡ some p.1)

  pub matching_at :
      (s : Engine I) (h id : ℕ) (pattern : Bytes) (o : Option (Bytes × Bytes))
      → Stored I e s h o
      → PlainKey o
      → blob_of I s h ≡ some id
      → matching I s id pattern ≡ some (taken pattern o)
  unfolding matching
  matching_at s h id pattern none absent plain at = ground (arith, absent, at)
  matching_at s h id pattern (some (key, value)) st plain at =
      let same : st.id ≡ id = ground (arith, st.at, at) in
      rw
        (
          sym same,
          read_key_lem I e s st.id key value st.blob st.fits,
          match-matches key pattern plain,
          matching,
        )
        refl

  keys_loop :
      (s : Engine I) (view : View) (pattern : Bytes) (it : Pairs)
      → Represents I e s view
      → PlainKeys view
      → Listed s it
      → keys I s pattern it ≡ some (view_keys view pattern it)
  unfolding keys
  keys_loop s view pattern [] r plain l = refl
  keys_loop s view pattern ((h, id) ∷ it) r plain (at, l) =
      rw
        (
          matching_at s h id pattern (view h) (r.stored h) (plain h) at,
          keys_loop s view pattern it r plain l,
          keys,
        )
        refl

  pub begin-Listed :
      (s : Engine I) (view : View) → Represents I e s view → Listed s (I.begin s.index)
  begin-Listed s view r = Ascending-listed (I.begin s.index) (I.begin_sorted s.index r.index)

  -- On an engine that represents a view whose keys hold no byte `*`, KEYS answers the keys that
  -- the pattern takes, in the order of the index, and changes nothing.
  pub execute-keys :
      (s : Engine I) (view : View) (pattern : Bytes)
      → Represents I e s view
      → PlainKeys view
      → execute I e s (Statement.keys pattern)
        ≡ some (create_arr (view_keys view pattern (I.begin s.index)), s)
  unfolding execute
  execute-keys s view pattern r plain =
      rw (keys_loop s view pattern (I.begin s.index) r plain (begin-Listed s view r), execute) refl
