-- ===== src/Bridge/RoundTrip.antt =====
-- The bridge message and back, both ways.
use mathlib.Core.List.{append-nil}
use mathlib.Core.Option.{some-injective}
use hyper_leaf.Common.{
  ℕ, ◌^◌, ◌<◌, ◌≡◌, ◌∙◌, refl, sym, ap, arith, subst, take, ◌-◌, List, some, none, Bool, true,
  false, not, if◌then◌else◌, ◌==◌, ==_iff, [], ◌∷◌, ◌++◌, length, All, take_all,
}
use hyper_leaf.Bytes.{
  Bytes, IsByte, IsArray, zeros, chunk, eq_bytes, eq_bytes→eq, be_bytes, from_be_bytes,
}
use hyper_leaf.Bytes.Words.{
  from_be_bytes-lt, length-be_bytes, from_be_bytes-be_bytes, be_bytes-from_be_bytes,
}
use hyper_leaf.Bytes.Layout.{Fits, Tiles, read-write_all, write_all_tiled, length-write_all}
use hyper_leaf.Bytes.Slices.{chunk-chunk, chunk-append_chunk, chunk-IsArray}
use hyper_leaf.Outcome.{u128_size}
use hyper_leaf.Bridge.{amount_word, encode_bridge, decode_bridge}

amount_word-append : (amount : ℕ) → amount_word amount ≡ zeros 16 ++ be_bytes 16 amount
unfolding amount_word
amount_word-append amount =
    let be = be_bytes 16 amount in
    let tiles : Tiles 16 32 ((32 - length be, be) ∷ []) =
      omega (arith, length-be_bytes 16 amount) in
    write_all_tiled 32 ((32 - length be, be) ∷ []) 16 (zeros 32) tiles refl
    ∙ ap (λ (t : Bytes). zeros 16 ++ t) (append-nil be)

length-amount_word : (amount : ℕ) → length (amount_word amount) ≡ 32
length-amount_word amount =
    rw (amount_word-append amount) (omega (arith, length-be_bytes 16 amount))

abbrev fields : Bytes → Bytes → ℕ → List (ℕ × Bytes)
fields tag to amount = (0, tag) ∷ (32, to) ∷ (64, amount_word amount) ∷ []

-- The message is the tag, the recipient, sixteen zero bytes and the big-endian amount.
encode_bridge-append :
    (tag to : Bytes) (amount : ℕ)
    → length tag ≡ 32
    → length to ≡ 32
    → encode_bridge tag to amount ≡ tag ++ (to ++ (zeros 16 ++ be_bytes 16 amount))
unfolding encode_bridge
encode_bridge-append tag to amount lt lo =
    let tiles : Tiles 0 96 (fields tag to amount) = omega (arith, length-amount_word amount) in
    write_all_tiled 96 (fields tag to amount) 0 (zeros 96) tiles refl
    ∙ rw (append-nil, amount_word-append amount)

-- Every encoded message is 96 bytes long.
pub length-encode_bridge :
    (tag to : Bytes) (amount : ℕ)
    → length tag ≡ 32
    → length to ≡ 32
    → length (encode_bridge tag to amount) ≡ 96
unfolding encode_bridge
length-encode_bridge tag to amount lt lo =
    length-write_all 96 (fields tag to amount) 0 (zeros 96)
      (omega (arith, length-amount_word amount)) refl

module _ (tag to : Bytes) (amount : ℕ) (lt : length tag ≡ 32) (lo : length to ≡ 32) where
  fits : Fits 0 96 (fields tag to amount)
  fits = omega (arith, length-amount_word amount)

  encoded_tag : chunk (encode_bridge tag to amount) 0 32 ≡ tag
  unfolding encode_bridge
  encoded_tag = read-write_all 96 (fields tag to amount) 0 0 32 (zeros 96) 0 tag refl lt fits refl

  encoded_to : chunk (encode_bridge tag to amount) 32 32 ≡ to
  unfolding encode_bridge
  encoded_to = read-write_all 96 (fields tag to amount) 1 0 32 (zeros 96) 32 to refl lo fits refl

  encoded_amount : chunk (encode_bridge tag to amount) 64 32 ≡ zeros 16 ++ be_bytes 16 amount
  unfolding encode_bridge
  encoded_amount =
      read-write_all 96 (fields tag to amount) 2 0 32 (zeros 96) 64 (amount_word amount) refl
        (length-amount_word amount) fits refl
      ∙ amount_word-append amount

  encoded_padding : chunk (encode_bridge tag to amount) 64 16 ≡ zeros 16
  encoded_padding =
      sym (chunk-chunk 64 32 0 16 (encode_bridge tag to amount) (omega arith))
      ∙ ap (λ (t : Bytes). chunk t 0 16) encoded_amount

  encoded_number : chunk (encode_bridge tag to amount) 80 16 ≡ be_bytes 16 amount
  encoded_number =
      sym (chunk-chunk 64 32 16 16 (encode_bridge tag to amount) (omega arith))
      ∙ ap (λ (t : Bytes). chunk t 16 16) encoded_amount
      ∙ subst (λ k. take k (be_bytes 16 amount) ≡ be_bytes 16 amount) (length-be_bytes 16 amount)
          (take_all (be_bytes 16 amount))

-- Decoding an encoded message gives back the tag and the recipient, of 32 bytes each, and any
-- u128 amount.
pub decode_bridge-encode_bridge :
    (tag to : Bytes) (amount : ℕ)
    → length tag ≡ 32
    → length to ≡ 32
    → amount < u128_size
    → decode_bridge (encode_bridge tag to amount) ≡ some (tag, to, amount)
unfolding decode_bridge eq_bytes
decode_bridge-encode_bridge tag to amount lt lo h = rw (
  length-encode_bridge tag to amount lt lo,
  encoded_padding tag to amount lt lo,
  encoded_tag tag to amount lt lo,
  encoded_to tag to amount lt lo,
  encoded_number tag to amount lt lo,
  from_be_bytes-be_bytes 16 amount h,
)

guarded_some {ℓ} :
    {A : Type ℓ} (t u : Bool) (a b : A)
    → (if not t then none else if not u then none else some a) ≡ some b
    → (t ≡ true) × (u ≡ true) × (a ≡ b)
guarded_some true true a b h = (refl, refl, some-injective a b h)
guarded_some true false a b h = cc
guarded_some false u a b h = cc

-- What a message that decodes looks like.
decoded :
    (buf tag to : Bytes) (amount : ℕ)
    → decode_bridge buf ≡ some (tag, to, amount)
    → (length buf ≡ 96)
      × (chunk buf 64 16 ≡ zeros 16)
      × (chunk buf 0 32 ≡ tag)
      × (chunk buf 32 32 ≡ to)
      × (from_be_bytes (chunk buf 80 16) ≡ amount)
unfolding decode_bridge
decoded buf tag to amount h =
    let (sized, padded, same) =
      guarded_some (length buf == 96) (eq_bytes (chunk buf 64 16) (zeros 16))
        (chunk buf 0 32, chunk buf 32 32, from_be_bytes (chunk buf 80 16)) (tag, to, amount) h in
    (
      (==_iff (length buf) 96).0 sized,
      eq_bytes→eq (chunk buf 64 16) (zeros 16) padded,
      ap (λ (t : Bytes × Bytes × ℕ). t.0) same,
      ap (λ (t : Bytes × Bytes × ℕ). t.1) same,
      ap (λ (t : Bytes × Bytes × ℕ). t.2) same,
    )

-- A buffer of 96 bytes is its four parts.
parts :
    (buf : Bytes)
    → length buf ≡ 96
    → chunk buf 0 32 ++ (chunk buf 32 32 ++ (chunk buf 64 16 ++ chunk buf 80 16)) ≡ buf
parts buf l =
    rw
      (
        chunk-append_chunk buf 64 16 16,
        chunk-append_chunk buf 32 32 32,
        chunk-append_chunk buf 0 32 64,
      )
      (subst (λ k. take k buf ≡ buf) l (take_all buf))

-- Of byte strings only encoded messages decode: what is decoded encodes to the very bytes that
-- were read, and its parts are in their ranges.
pub encode_bridge-decode_bridge :
    (buf tag to : Bytes) (amount : ℕ)
    → All IsByte buf
    → decode_bridge buf ≡ some (tag, to, amount)
    → IsArray 32 tag × IsArray 32 to × (amount < u128_size) × (encode_bridge tag to amount ≡ buf)
encode_bridge-decode_bridge buf tag to amount hb h =
    let (l, padding, is_tag, is_to, is_amount) = decoded buf tag to amount h in
    let tail = chunk buf 80 16 in
    let array_tag : IsArray 32 tag = rw (← is_tag) (chunk-IsArray buf 0 32 hb (omega arith)) in
    let array_to : IsArray 32 to = rw (← is_to) (chunk-IsArray buf 32 32 hb (omega arith)) in
    let array_tail : IsArray 16 tail = chunk-IsArray buf 80 16 hb (omega arith) in
    let in_range : from_be_bytes tail < 256 ^ 16 =
      subst (λ k. from_be_bytes tail < 256 ^ k) array_tail.0 (from_be_bytes-lt tail array_tail.1) in
    let same : be_bytes 16 (from_be_bytes tail) ≡ tail =
      subst (λ k. be_bytes k (from_be_bytes tail) ≡ tail) array_tail.0
        (be_bytes-from_be_bytes tail array_tail.1) in
    (
      array_tag,
      array_to,
      rw (← is_amount) in_range,
      encode_bridge-append tag to amount array_tag.0 array_to.0
          ∙ ap (λ (t : Bytes). tag ++ (to ++ (zeros 16 ++ t)))
              (ap (be_bytes 16) (sym is_amount) ∙ same)
          ∙ ap (λ (z : Bytes). tag ++ (to ++ (z ++ tail))) (sym padding)
          ∙ rw (← is_tag, ← is_to) (parts buf l),
    )
