-- ===== src/Core/Blob/Content.antt =====
-- What a blob holds after each operation, in terms of its bytes alone.
use plexdb.Prelude.{
  ℕ, zero, suc, ◌+◌, ◌-◌, ◌≤◌, ◌<◌, ◌≡◌, refl, sym, ◌∙◌, ap, some, [], ◌∷◌, ◌++◌, length, take,
  drop, min, arith, take-length, take-length-append, drop-length-append, append_assoc, append-nil,
  le→leb, lt→ltb, le→ltb_false, take-append-drop, drop-add-append, drop-all, take-all, replicate,
  length-replicate,
}
use plexdb.Core.Text.{Bytes}
use plexdb.Core.Blob.{BlobInMemory, write_at, update_loop, update, get_loop, get, resize, append}

abbrev pub IsValid : BlobInMemory → Type 0
IsValid b = b.size_bytes ≡ length b.contents

write_at_nothing : (xs : Bytes) (i : ℕ) → write_at xs i [] ≡ xs
write_at_nothing xs i =
    let e : i + 0 ≡ i = omega arith in ap (λ n. take i xs ++ drop n xs) e ∙ take-append-drop i xs

update_one_block :
    (fuel : ℕ) (b : BlobInMemory) (value : Bytes) (offset : ℕ)
    → 0 < length value
    → offset + length value ≤ b.size_bytes
    → update_loop (suc (suc fuel)) b value offset 0
      ≡ some (record b { contents = write_at b.contents offset value })
unfolding update_loop
update_one_block fuel b value offset pos h =
    let at : offset + 0 ≡ offset = omega arith in
    let whole : min (b.size_bytes - offset) (length value - 0) ≡ length value = omega arith in
    rw (
      update_loop,
      at,
      lt→ltb 0 (length value) pos,
      whole,
      take-length value,
      le→ltb_false (0 + (b.size_bytes - offset)) (length value) (omega arith),
    )

-- update of a value that fits at its offset succeeds: the bytes at the offset are those of the
-- value, and the others and the size are as before.
pub update_lem :
    (b : BlobInMemory) (value : Bytes) (offset : ℕ)
    → offset + length value ≤ b.size_bytes
    → update b value offset ≡ some (record b { contents = write_at b.contents offset value })
unfolding update
update_lem b [] offset h =
    rw (le→leb _ _ h)
      (ap (λ xs. some (record b { contents = xs })) (sym (write_at_nothing b.contents offset)))
update_lem b (x ∷ value) offset h =
    let fuel : length (x ∷ value) + 1 ≡ suc (suc (length value)) = omega arith in
    rw (le→leb _ _ h, fuel) (update_one_block (length value) b (x ∷ value) offset (omega arith) h)

get_one_block :
    (fuel : ℕ) (b : BlobInMemory) (size offset : ℕ)
    → 0 < size
    → offset + size ≤ b.size_bytes
    → get_loop (suc (suc fuel)) b size offset 0 [] ≡ some (take size (drop offset b.contents))
unfolding get_loop
get_one_block fuel b size offset pos h =
    let at : offset + 0 ≡ offset = omega arith in
    let whole : min (b.size_bytes - offset) (size - 0) ≡ size = omega arith in
    rw (
      get_loop,
      at,
      lt→ltb 0 size pos,
      whole,
      le→ltb_false (0 + (b.size_bytes - offset)) size (omega arith),
    )

-- get of a range that lies in the blob succeeds, and gives the bytes from the offset on.
pub get_lem :
    (b : BlobInMemory) (size offset : ℕ)
    → offset + size ≤ b.size_bytes
    → get b size offset ≡ some (take size (drop offset b.contents))
unfolding get
get_lem b zero offset h = rw (le→leb _ _ h) (unfold get_loop in refl)
get_lem b (suc size) offset h =
    let fuel : suc size + 1 ≡ suc (suc size) = omega arith in
    rw (le→leb _ _ h, fuel) (get_one_block size b (suc size) offset (omega arith) h)

-- Bytes that are written behind `before`, over the front of what stands there.
pub write_at_behind :
    (before behind value : Bytes)
    → write_at (before ++ behind) (length before) value
      ≡ (before ++ value) ++ drop (length value) behind
write_at_behind before behind value =
    rw (take-length-append before behind, drop-add-append before behind (length value))
      (sym (append_assoc before value (drop (length value) behind)))

pub update_behind :
    (size offset : ℕ) (before behind value : Bytes)
    → offset ≡ length before
    → size ≡ length before + length behind
    → length value ≤ length behind
    → update (record { size_bytes = size; contents = before ++ behind }) value offset
      ≡ some
          (record { size_bytes = size; contents = (before ++ value) ++ drop (length value) behind })
update_behind size offset before behind value ho hs hv =
    update_lem (record { size_bytes = size; contents = before ++ behind }) value offset
      (omega arith)
    ∙ rw ho (
        ap (λ xs. some (record { size_bytes = size; contents = xs }))
          (write_at_behind before behind value))

pub get_behind :
    (size offset n : ℕ) (before behind : Bytes)
    → offset ≡ length before
    → size ≡ length before + length behind
    → n ≤ length behind
    → get (record { size_bytes = size; contents = before ++ behind }) n offset
      ≡ some (take n behind)
get_behind size offset n before behind ho hs hn =
    get_lem (record { size_bytes = size; contents = before ++ behind }) n offset (omega arith)
    ∙ rw ho (ap (λ xs. some (take n xs)) (drop-length-append before behind))

resize_longer :
    (b : BlobInMemory) (n : ℕ)
    → IsValid b
    → resize b (b.size_bytes + n)
      ≡ record { size_bytes = b.size_bytes + n; contents = b.contents ++ replicate n 0 }
unfolding resize
resize_longer b n valid =
    let new : b.size_bytes + n - length b.contents ≡ n = omega arith in
    let kept = take-all b.contents (b.size_bytes + n) (omega arith) in
    ap (λ xs. record { size_bytes = b.size_bytes + n; contents = xs }) (rw (new, kept))

-- append to a blob whose size is the number of its bytes succeeds: the size grows by the length of
-- the value, which stands behind the old bytes.
pub append_lem :
    (b : BlobInMemory) (value : Bytes)
    → IsValid b
    → append b value
      ≡ some (record { size_bytes = b.size_bytes + length value; contents = b.contents ++ value })
unfolding append
append_lem b value valid =
    let zeros : Bytes = replicate (length value) 0 in
    let len : length zeros ≡ length value = length-replicate (length value) 0 in
    rw (resize_longer b (length value) valid, valid)
      (update_behind (length b.contents + length value) (length b.contents) b.contents zeros value
          refl (omega arith) (omega arith)
        ∙ ap (λ xs. some (record { size_bytes = length b.contents + length value; contents = xs }))
            (rw (drop-all zeros (length value) (omega arith)) (append-nil (b.contents ++ value))))
