-- ===== src/NativeStore/RoundTrip.antt =====
-- The layout of the store, both ways.
use hyper_leaf.Common.{
  ℕ, ◌^◌, ◌≤◌, ◌<◌, ◌≡◌, refl, ◌∙◌, ap, arith, Bool, true, false, not, ◌||◌, [], ◌∷◌, length,
  get_elem?, get_or, some, All, ltb, ◌==◌, subst,
}
use hyper_leaf.Bytes.{
  Bytes, IsByte, zeros, chunk, eq_bytes, eq_bytes_iff, eq_bytes→eq, le_bytes, from_le_bytes,
}
use hyper_leaf.Bytes.Words.{length-zeros, length-le_bytes, from_le_bytes-le_bytes}
use hyper_leaf.Bytes.Layout.{Fits, read-write_all, length-write_all}
use hyper_leaf.Bytes.Slices.{chunk_word-lt, length-chunk, get_or-chunk}
use hyper_leaf.Outcome.{Error, ok, wrong_listing, u128_size, require-eq-ok, ok-injective}
use hyper_leaf.Rate.{listing_tag}
use hyper_leaf.Lockbox.{Lockbox}
use hyper_leaf.NativeStore.{
  Store, encode, decode, read_u128, contents_of, tagged_part, store_fields, store_len, flag_byte,
  version,
}

-- Every u128 field of the lockbox is in range.
pub record IsWords (b : Lockbox) : Type 0 where
  pub last_accounted : b.last_accounted < u128_size
  pub last_rate : b.last_rate < u128_size
  pub total_shares : b.total_shares < u128_size
  pub deposit_cap_atoms : b.deposit_cap_atoms < u128_size
  pub escrow_atoms : b.escrow_atoms < u128_size
  pub harvest_atoms : b.harvest_atoms < u128_size

-- A store of this program, its fields in range.
pub record IsStore (s : Store) : Type 0 where
  pub dest_eid : s.dest_eid < 2 ^ 32
  pub dest_peer : length s.dest_peer ≡ 32
  pub tag : s.listing_tag ≡ listing_tag
  pub box : IsWords s.box

module _ (s : Store) (v : IsStore s) where
  store-Fits : Fits 0 167 (store_fields s)
  store-Fits =
      let tag : length s.listing_tag ≡ 32 = ap (λ (t : Bytes). length t) v.tag in
      omega (arith, v.dest_peer, tag, length-le_bytes)

  length-encode : length (encode s) ≡ 167
  unfolding encode
  length-encode = length-write_all 167 (store_fields s) 0 (zeros 167) store-Fits (length-zeros 167)

  -- The field at place `i` is read back from its offset.
  encoded :
      (i off k : ℕ) (field : Bytes)
      → get_elem? (store_fields s) i ≡ some (off, field)
      → length field ≡ k
      → chunk (encode s) off k ≡ field
  unfolding encode
  encoded i off k field g l =
      read-write_all 167 (store_fields s) i 0 k (zeros 167) off field g l store-Fits
        (length-zeros 167)

  encoded_u128 :
      (i off n : ℕ)
      → get_elem? (store_fields s) i ≡ some (off, le_bytes 16 n)
      → n < u128_size
      → from_le_bytes (chunk (encode s) off 16) ≡ n
  encoded_u128 i off n g h =
      ap from_le_bytes (encoded i off 16 (le_bytes 16 n) g (length-le_bytes 16 n))
      ∙ from_le_bytes-le_bytes 16 n h

  encoded_byte :
      (i off b : ℕ)
      → get_elem? (store_fields s) i ≡ some (off, b ∷ [])
      → get_or (encode s) off 0 ≡ b
  encoded_byte i off b g = get_or-chunk (encode s) off b (encoded i off 1 (b ∷ []) g refl)

flag_byte_back : (b : Bool) → not (flag_byte b == 0) ≡ b
flag_byte_back true = refl
flag_byte_back false = refl

header_guard :
    (l v : ℕ) → not (ltb l store_len || not (v == version)) ≡ true → (store_len ≤ l) × (v ≡ version)
header_guard l v h = ground arith

-- A store whose fields are in range is read back from its layout, the lockbox included.
pub decode-encode_store : (s : Store) → IsStore s → decode (encode s) ≡ ok s
unfolding decode
decode-encode_store s v =
    let b = s.box in
    let tagged : eq_bytes s.listing_tag listing_tag ≡ true =
      (eq_bytes_iff s.listing_tag listing_tag).1 v.tag in
    rw (
      length-encode s v,
      encoded_byte s v 0 0 version refl,
      encoded s v 5 39 32 s.listing_tag refl (ap (λ (t : Bytes). length t) v.tag),
      tagged,
      encoded_byte s v 1 1 s.bump refl,
      encoded_byte s v 2 2 (flag_byte b.halted) refl,
      encoded s v 3 3 4 (le_bytes 4 s.dest_eid) refl (length-le_bytes 4 s.dest_eid),
      from_le_bytes-le_bytes 4 s.dest_eid v.dest_eid,
      encoded s v 4 7 32 s.dest_peer refl v.dest_peer,
      encoded_u128 s v 6 71 b.last_accounted refl v.box.last_accounted,
      encoded_u128 s v 7 87 b.last_rate refl v.box.last_rate,
      encoded_u128 s v 8 103 b.total_shares refl v.box.total_shares,
      encoded_u128 s v 9 119 b.deposit_cap_atoms refl v.box.deposit_cap_atoms,
      encoded_u128 s v 10 135 b.escrow_atoms refl v.box.escrow_atoms,
      encoded_u128 s v 11 151 b.harvest_atoms refl v.box.harvest_atoms,
      flag_byte_back b.halted,
    )

-- A byte layout that is read holds at least 167 bytes with the version first; the store read from
-- it has the program's listing tag and a peer of 32 bytes, and its numbers are in range.
decode_sound :
    (d : Bytes) (s : Store)
    → All IsByte d
    → decode d ≡ ok s
    → (store_len ≤ length d) × (get_or d 0 0 ≡ version) × IsStore s
unfolding decode read_u128
decode_sound d s hb h =
    let too_short = ltb (length d) store_len in
    let versioned = get_or d 0 0 == version in
    let (passed, h₁) =
      require-eq-ok (not (too_short || not versioned)) Error.zero (tagged_part d) h in
    let (tagged, h₂) =
      require-eq-ok (eq_bytes (chunk d 39 32) listing_tag) wrong_listing (ok (contents_of d)) h₁ in
    let (long, is_version) = header_guard (length d) (get_or d 0 0) passed in
    let same : contents_of d ≡ s = ok-injective h₂ in
    (
      long,
      is_version,
      subst IsStore same (record {
        dest_eid = chunk_word-lt 4 d 3 hb (omega arith);
        dest_peer = length-chunk d 7 32 (omega arith);
        tag = eq_bytes→eq (chunk d 39 32) listing_tag tagged;
        box = record {
          last_accounted = chunk_word-lt 16 d 71 hb (omega arith);
          last_rate = chunk_word-lt 16 d 87 hb (omega arith);
          total_shares = chunk_word-lt 16 d 103 hb (omega arith);
          deposit_cap_atoms = chunk_word-lt 16 d 119 hb (omega arith);
          escrow_atoms = chunk_word-lt 16 d 135 hb (omega arith);
          harvest_atoms = chunk_word-lt 16 d 151 hb (omega arith);
        };
      }),
    )
