-- ===== src/Ix/RoundTrip.antt =====
-- The instruction codec both ways, and the two kinds of peers.
use hyper_leaf.Common.{
  ℕ, ◌<◌, ◌≡◌, inl, inr, refl, sym, ap, ap₂, ◌==◌, ==_iff, if-cases, nil_of_length, arith, length,
  take, [], ◌∷◌, ◌++◌, All, true, length-append, take-append_at, drop-append_at, take_at, subst,
  ◌∙◌,
}
use hyper_leaf.Bytes.{Bytes, IsByte, IsArray, chunk, le_bytes, from_le_bytes}
use hyper_leaf.Bytes.Words.{length-le_bytes, from_le_bytes-le_bytes, le_bytes-from_le_bytes}
use hyper_leaf.Bytes.Slices.{chunk-append_chunk, chunk-IsArray, chunk_word-lt}
use hyper_leaf.Outcome.{
  Error, ok, err, u128_size, lz_only, require, require-eq-ok, ok-injective, ◌>>◌,
}
use hyper_leaf.Ix.{
  Ix, init, lock, harvest_rate, harvest_other, halt, encode, decode, decode_op, op_init, op_lock,
  op_harvest_rate, op_harvest_other, op_halt, op_lz_receive,
}

-- The ranges of an instruction's fields.
abbrev pub IsIx : Ix → Type 0
IsIx (init cap peer) = (cap < u128_size) × IsArray 32 peer
IsIx (lock atoms to) = (atoms < u128_size) × IsArray 32 to
IsIx harvest_rate = Unit
IsIx (harvest_other mint) = IsArray 32 mint
IsIx halt = Unit

-- An opcode, a u128 and an array of 32 bytes.
module _ (op n : ℕ) (s : Bytes) (l : length s ≡ 32) where
  length-word_then : length (op ∷ (le_bytes 16 n ++ s)) ≡ 49
  length-word_then = omega (arith, length-append (le_bytes 16 n) s, length-le_bytes 16 n)

  first_word : take 16 (le_bytes 16 n ++ s) ≡ le_bytes 16 n
  first_word = take-append_at 16 (le_bytes 16 n) s (length-le_bytes 16 n)

  then_array : chunk (op ∷ (le_bytes 16 n ++ s)) 17 32 ≡ s
  then_array =
      ap (take 32) (drop-append_at 16 (le_bytes 16 n) s (length-le_bytes 16 n)) ∙ take_at 32 s l

-- Every instruction whose fields are in range is decoded from its encoding.
pub decode-encode : (ix : Ix) → IsIx ix → decode (encode ix) ≡ ok ix
unfolding decode encode decode_op
decode-encode (init cap peer) h = rw (
  length-word_then 0 cap peer h.1.0,
  first_word 0 cap peer h.1.0,
  then_array 0 cap peer h.1.0,
  from_le_bytes-le_bytes 16 cap h.0,
)
decode-encode (lock atoms to) h = rw (
  length-word_then 1 atoms to h.1.0,
  first_word 1 atoms to h.1.0,
  then_array 1 atoms to h.1.0,
  from_le_bytes-le_bytes 16 atoms h.0,
)
decode-encode harvest_rate h = refl
decode-encode (harvest_other mint) h = rw (h.0, take_at 32 mint h.0)
decode-encode halt h = refl

-- What is read from an opcode and 48 bytes encodes to them.
reencoded :
    (op : ℕ) (rest : Bytes)
    → All IsByte rest
    → length rest ≡ 48
    → IsArray 32 (chunk (op ∷ rest) 17 32)
      × (from_le_bytes (take 16 rest) < u128_size)
      × (le_bytes 16 (from_le_bytes (take 16 rest)) ++ chunk (op ∷ rest) 17 32 ≡ rest)
reencoded op rest hb l =
    let word = chunk-IsArray rest 0 16 hb (omega arith) in
    let same : le_bytes 16 (from_le_bytes (take 16 rest)) ≡ take 16 rest =
      subst (λ k. le_bytes k (from_le_bytes (take 16 rest)) ≡ take 16 rest) word.0
        (le_bytes-from_le_bytes (take 16 rest) word.1) in
    (
      chunk-IsArray rest 16 32 hb (omega arith),
      chunk_word-lt 16 rest 0 hb (omega arith),
      ap (λ (w : Bytes). w ++ chunk rest 16 32) same
          ∙ chunk-append_chunk rest 0 16 32
          ∙ take_at 48 rest l,
    )

-- The arms of `decode`, where they succeed.
module _ (op : ℕ) (rest : Bytes) (ix : Ix) (hb : All IsByte rest) where
  abbrev Reencodes : Type 0
  Reencodes = IsIx ix × (encode ix ≡ op ∷ rest)

  abbrev word : ℕ
  word = from_le_bytes (take 16 rest)

  abbrev array : Bytes
  array = chunk (op ∷ rest) 17 32

  init_arm : op ≡ op_init → length (op ∷ rest) ≡ 49 → init word array ≡ ix → Reencodes
  unfolding encode
  init_arm is_op l same =
      let (a, w, e) = reencoded op rest hb (omega arith) in
      subst (λ x. IsIx x × (encode x ≡ op ∷ rest)) same ((w, a), ap₂ ◌∷◌ (sym is_op) e)

  lock_arm : op ≡ op_lock → length (op ∷ rest) ≡ 49 → lock word array ≡ ix → Reencodes
  unfolding encode
  lock_arm is_op l same =
      let (a, w, e) = reencoded op rest hb (omega arith) in
      subst (λ x. IsIx x × (encode x ≡ op ∷ rest)) same ((w, a), ap₂ ◌∷◌ (sym is_op) e)

  other_arm :
      op ≡ op_harvest_other
      → length (op ∷ rest) ≡ 33
      → harvest_other (chunk (op ∷ rest) 1 32) ≡ ix
      → Reencodes
  unfolding encode
  other_arm is_op l same =
      subst (λ x. IsIx x × (encode x ≡ op ∷ rest)) same
        (
          chunk-IsArray rest 0 32 hb (omega arith),
          ap₂ ◌∷◌ (sym is_op) (take_at 32 rest (omega arith)),
        )

  rate_arm : op ≡ op_harvest_rate → length (op ∷ rest) ≡ 1 → harvest_rate ≡ ix → Reencodes
  unfolding encode
  rate_arm is_op l same =
      subst (λ x. IsIx x × (encode x ≡ op ∷ rest)) same
        (tt, ap₂ ◌∷◌ (sym is_op) (nil_of_length rest (omega arith)))

  halt_arm : op ≡ op_halt → length (op ∷ rest) ≡ 1 → halt ≡ ix → Reencodes
  unfolding encode
  halt_arm is_op l same =
      subst (λ x. IsIx x × (encode x ≡ op ∷ rest)) same
        (tt, ap₂ ◌∷◌ (sym is_op) (nil_of_length rest (omega arith)))

  -- An arm that tests the length and then gives `made`.
  sized_arm :
      (k n : ℕ) (made : Ix)
      → (op ≡ k → length (op ∷ rest) ≡ n → made ≡ ix → Reencodes)
      → (op == k) ≡ true
      → (do require (length (op ∷ rest) == n) Error.zero; ok made) ≡ ok ix
      → Reencodes
  sized_arm k n made arm is_op h =
      let (sized, h₁) = require-eq-ok (length (op ∷ rest) == n) Error.zero (ok made) h in
      arm ((==_iff op k).0 is_op) ((==_iff (length (op ∷ rest)) n).0 sized) (ok-injective h₁)

  decode_op_arms : decode_op op (op ∷ rest) ≡ ok ix → Reencodes
  unfolding decode_op
  decode_op_arms h = elim (if-cases (op == op_init) _ _ h) [
    | inl (is, a) ↦ sized_arm 0 49 (init word array) init_arm is a
    | inr (_, h₁) ↦ elim (if-cases (op == op_lock) _ _ h₁) [
      | inl (is, a) ↦ sized_arm 1 49 (lock word array) lock_arm is a
      | inr (_, h₂) ↦ elim (if-cases (op == op_harvest_rate) _ _ h₂) [
        | inl (is, a) ↦ sized_arm 2 1 harvest_rate rate_arm is a
        | inr (_, h₃) ↦ elim (if-cases (op == op_harvest_other) _ _ h₃) [
          | inl (is, a) ↦ sized_arm 3 33 (harvest_other (chunk (op ∷ rest) 1 32)) other_arm is a
          | inr (_, h₄) ↦ elim (if-cases (op == op_halt) _ _ h₄) [
            | inl (is, a) ↦ sized_arm 4 1 halt halt_arm is a
            | inr (_, h₅) ↦ elim (if-cases (op == op_lz_receive) _ _ h₅) [
              | inl (_, a) ↦ cc
              | inr (_, a) ↦ cc
            ]
          ]
        ]
      ]
    ]
  ]

-- Only encodings decode: an instruction that is decoded from bytes encodes to the very bytes that
-- were read, so none may trail, and its fields are in range.
pub encode-decode :
    (bytes : Bytes) (ix : Ix)
    → All IsByte bytes
    → decode bytes ≡ ok ix
    → IsIx ix × (encode ix ≡ bytes)
unfolding decode
encode-decode [] ix hb h = cc
encode-decode (op ∷ rest) ix hb h = decode_op_arms op rest ix hb.1 h

-- A message of the LayerZero executor is never a user's instruction.
decode_lz_receive : (rest : Bytes) → decode (op_lz_receive ∷ rest) ≡ err lz_only
unfolding decode decode_op
decode_lz_receive rest = refl
