-- ===== src/Keyvalue/Entry.antt =====
-- keyvalue/engine/engine.cppm, the layout of an entry's blob:
-- [key_len:U64][key bytes][value_len:U64][value bytes].
mod Runs
use plexdb.Prelude.{
  ℕ, ◌+◌, ◌-◌, ◌*◌, ◌%◌, ◌^◌, ◌≤◌, ◌<◌, ◌≡◌, refl, sym, ◌∙◌, ap, Option, none, some, List, [], ◌∷◌,
  ◌++◌, length, arith, length-append, append_assoc, append-nil, take, drop, take-length-append,
  drop-length-append, length-resize_array, drop-all, resize_array, length-drop, take-length,
}
use plexdb.Prelude.Fallible.{◌>>=◌}
use plexdb.Core.Text.{Bytes}
use plexdb.Core.Le64.{le64, from_le64, length-le64, from_le64-le64}
use plexdb.Core.Blob
use plexdb.Core.Blob.{BlobInMemory}
use plexdb.Core.Blob.Content.{update_behind, get_lem}

-- U64 addition.
abbrev add64 : ℕ → ℕ → ℕ
add64 a b = (a + b) % 2 ^ 64

unfoldable pub write_blob : BlobInMemory → Bytes → Bytes → Option BlobInMemory
write_blob b key value = do
  let total = add64 (add64 (8 * 2) (length key)) (length value)
  let b₀ = Blob.resize b total
  b₁ ← Blob.update b₀ (le64 (length key)) 0
  let off₁ = add64 0 8
  b₂ ← Blob.update b₁ key off₁
  let off₂ = add64 off₁ (length key)
  b₃ ← Blob.update b₂ (le64 (length value)) off₂
  let off₃ = add64 off₂ 8
  Blob.update b₃ value off₃

unfoldable pub blob_read_key : BlobInMemory → Option Bytes
blob_read_key b = do key_len ← Blob.get b 8 0; Blob.get b (from_le64 key_len) 8

unfoldable pub blob_read_value : BlobInMemory → Option Bytes
blob_read_value b = do
  key_len ← Blob.get b 8 0
  let off₁ = add64 0 (add64 8 (from_le64 key_len))
  value_len ← Blob.get b 8 off₁
  let off₂ = add64 off₁ 8
  Blob.get b (from_le64 value_len) off₂

-- The bytes of an entry, before a rest.
abbrev entry_bytes : Bytes → Bytes → Bytes
entry_bytes key value = ((le64 (length key) ++ key) ++ le64 (length value)) ++ value

abbrev pub entry : Bytes → Bytes → BlobInMemory
entry key value = record {
  size_bytes = length (entry_bytes key value);
  contents = entry_bytes key value;
}

-- The lengths of a key and of a value that one blob can hold.
abbrev pub Fits : Bytes → Bytes → Type 0
Fits key value = 16 + length key + length value < 2 ^ 64

length-entry_bytes :
    (key value : Bytes) → length (entry_bytes key value) ≡ 16 + length key + length value
length-entry_bytes key value = omega (
  arith,
  length-append ((le64 (length key) ++ key) ++ le64 (length value)) value,
  length-append (le64 (length key) ++ key) (le64 (length value)),
  length-append (le64 (length key)) key,
  length-le64 (length key),
  length-le64 (length value),
)

module _ (key value xs : Bytes) (fits : Fits key value)
    (len : length xs ≡ 16 + length key + length value) where
  key_len : Bytes
  key_len = le64 (length key)

  value_len : Bytes
  value_len = le64 (length value)

  abbrev state : Bytes → BlobInMemory
  state contents = record { size_bytes = length xs; contents = contents }

  -- The four updates of write_blob over any bytes of the right number.
  write_steps :
      (Blob.update (state xs) (le64 (length key)) 0 >>= λ b₁. Blob.update b₁ key 8 >>= λ b₂.
      Blob.update b₂ (le64 (length value)) ((8 + length key) % 2 ^ 64) >>= λ b₃.
      Blob.update b₃ value (((8 + length key) % 2 ^ 64 + 8) % 2 ^ 64))
      ≡ some (state (entry_bytes key value))
  unfolding key_len value_len
  write_steps =
      let k8 = length-le64 (length key) in
      let v8 = length-le64 (length value) in
      let r₁ : Bytes = drop (length key_len) xs in
      let r₂ : Bytes = drop (length key) r₁ in
      let r₃ : Bytes = drop (length value_len) r₂ in
      let l₁ : length r₁ ≡ 8 + length key + length value =
        omega (arith, k8, length-drop (length key_len) xs) in
      let l₂ : length r₂ ≡ 8 + length value = omega (arith, length-drop (length key) r₁) in
      let l₃ : length r₃ ≡ length value = omega (arith, v8, length-drop (length value_len) r₂) in
      let n₂ : length (key_len ++ key) ≡ 8 + length key =
        omega (arith, k8, length-append key_len key) in
      let n₃ : length ((key_len ++ key) ++ value_len) ≡ 16 + length key =
        omega (arith, v8, length-append (key_len ++ key) value_len) in
      let e₁ = update_behind (length xs) 0 [] xs key_len refl (omega arith) (omega (arith, k8)) in
      let e₂ =
        update_behind (length xs) 8 key_len r₁ key (sym k8) (omega (arith, k8)) (omega arith) in
      let e₃ =
        update_behind (length xs) ((8 + length key) % 2 ^ 64) (key_len ++ key) r₂ value_len
          (omega arith) (omega arith) (omega (arith, v8)) in
      let e₄ =
        update_behind (length xs) (((8 + length key) % 2 ^ 64 + 8) % 2 ^ 64)
          ((key_len ++ key) ++ value_len) r₃ value (omega arith) (omega arith) (omega arith) in
      let end : drop (length value) r₃ ≡ [] = drop-all r₃ (length value) (omega arith) in
      rw (e₁, e₂, e₃, e₄, end, append-nil (entry_bytes key value))

resized :
    (b : BlobInMemory) (t : ℕ)
    → Blob.resize b t ≡ record {
      size_bytes = length (resize_array b.contents t 0);
      contents = resize_array b.contents t 0;
    }
resized b t =
    unfold Blob.resize in
    ap (λ n. record { size_bytes = n; contents = resize_array b.contents t 0 })
      (sym (length-resize_array b.contents t 0))

-- Whatever a blob held, write_blob of a key and a value that fit succeeds, and the blob holds the
-- length of the key, the key, the length of the value and the value, and nothing else.
pub write_blob-entry :
    (b : BlobInMemory) (key value : Bytes)
    → Fits key value
    → write_blob b key value ≡ some (entry key value)
unfolding write_blob
write_blob-entry b key value fits =
    let t = add64 (add64 (8 * 2) (length key)) (length value) in
    let xs = resize_array b.contents t 0 in
    let len : length xs ≡ t = length-resize_array b.contents t 0 in
    let whole : length xs ≡ 16 + length key + length value = omega arith in
    rw (resized b t) (
      write_steps key value xs fits whole
      ∙ ap (λ n. some (record { size_bytes = n; contents = entry_bytes key value }))
          (omega (arith, length-entry_bytes key value)))

-- A read of one part of a blob.
get_part :
    (before part behind : Bytes) (contents : Bytes) (n offset : ℕ)
    → contents ≡ before ++ (part ++ behind)
    → offset ≡ length before
    → n ≡ length part
    → Blob.get (record { size_bytes = length contents; contents = contents }) n offset ≡ some part
get_part before part behind contents n offset shape ho hn =
    let len : length contents ≡ length before + (length part + length behind) =
      ap length shape
      ∙ length-append before (part ++ behind)
      ∙ ap (λ t. length before + t) (length-append part behind) in
    get_lem (record { size_bytes = length contents; contents = contents }) n offset (omega arith)
    ∙ rw (shape, ho, hn, drop-length-append before (part ++ behind), take-length-append part behind)

read_key_len : (key value : Bytes) → Blob.get (entry key value) 8 0 ≡ some (le64 (length key))
read_key_len key value =
    get_part [] (le64 (length key)) (key ++ (le64 (length value) ++ value)) (entry_bytes key value)
      8 0 (simp append_assoc) refl (sym (length-le64 (length key)))

-- blob_read_key of a blob with the layout of an entry, whose key and value fit, gives the key.
pub blob_read_key-entry :
    (key value : Bytes) → Fits key value → blob_read_key (entry key value) ≡ some key
unfolding blob_read_key
blob_read_key-entry key value fits =
    rw (read_key_len key value, from_le64-le64 (length key) (omega arith))
      (get_part (le64 (length key)) key (le64 (length value) ++ value) (entry_bytes key value)
        (length key) 8 (simp append_assoc) (sym (length-le64 (length key))) refl)

-- blob_read_value of a blob with the layout of an entry, whose key and value fit, gives the value.
pub blob_read_value-entry :
    (key value : Bytes) → Fits key value → blob_read_value (entry key value) ≡ some value
unfolding blob_read_value
blob_read_value-entry key value fits =
    let n₁ = length-le64 (length key) in
    let n₂ : length (le64 (length key) ++ key) ≡ 8 + length key =
      omega (arith, n₁, length-append (le64 (length key)) key) in
    let n₃ : length ((le64 (length key) ++ key) ++ le64 (length value)) ≡ 16 + length key = omega (
      arith,
      length-le64 (length value),
      length-append (le64 (length key) ++ key) (le64 (length value)),
    ) in
    let off₁ = add64 0 (add64 8 (length key)) in
    rw
      (
        read_key_len key value,
        from_le64-le64 (length key) (omega arith),
        get_part (le64 (length key) ++ key) (le64 (length value)) value (entry_bytes key value) 8
            off₁ (simp append_assoc) (omega arith) (sym (length-le64 (length value))),
        from_le64-le64 (length value) (omega arith),
      )
      (get_part ((le64 (length key) ++ key) ++ le64 (length value)) value [] (entry_bytes key value)
        (length value) (add64 off₁ 8) (simp (append_assoc, append-nil)) (omega arith) refl)
