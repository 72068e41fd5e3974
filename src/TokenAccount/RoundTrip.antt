-- ===== src/TokenAccount/RoundTrip.antt =====
-- A token account is read back, and an escrow that passes is JitoSOL held by the store.
use hyper_leaf.Common.{ℕ, ◌≤◌, ◌<◌, ◌≡◌, refl, ap, ◌∙◌, arith, length, All, not, ltb, ge_of_not-ltb}
use hyper_leaf.Bytes.{Bytes, IsByte, zeros, chunk, eq_bytes, eq_bytes→eq, le_bytes, from_le_bytes}
use hyper_leaf.Bytes.Words.{length-zeros, length-le_bytes, from_le_bytes-le_bytes}
use hyper_leaf.Bytes.Layout.{Fits, read-write_all, length-write_all}
use hyper_leaf.Bytes.Slices.{chunk_word-lt}
use hyper_leaf.Outcome.{
  Error, ok, bad_mint, bad_peer, u64_size, require-eq-ok, ok-injective, >>=-eq-ok,
}
use hyper_leaf.Rate.{jito_mint_bytes}
use hyper_leaf.TokenAccount.{
  parse, encode, require_jito_escrow, token_fields, min_len, owner_off, mint_off, amount_off,
}

module _ (mint owner : Bytes) (amount : ℕ) (lm : length mint ≡ 32) (lo : length owner ≡ 32) where
  token-Fits : Fits 0 72 (token_fields mint owner amount)
  token-Fits = omega (arith, length-le_bytes 8 amount)

  length-encode : length (encode mint owner amount) ≡ 72
  unfolding encode
  length-encode =
      length-write_all 72 (token_fields mint owner amount) 0 (zeros 72) token-Fits (length-zeros 72)

  encoded_mint : chunk (encode mint owner amount) 0 32 ≡ mint
  unfolding encode
  encoded_mint =
      read-write_all 72 (token_fields mint owner amount) 0 0 32 (zeros 72) 0 mint refl lm token-Fits
        (length-zeros 72)

  encoded_owner : chunk (encode mint owner amount) 32 32 ≡ owner
  unfolding encode
  encoded_owner =
      read-write_all 72 (token_fields mint owner amount) 1 0 32 (zeros 72) 32 owner refl lo
        token-Fits (length-zeros 72)

  encoded_amount : chunk (encode mint owner amount) 64 8 ≡ le_bytes 8 amount
  unfolding encode
  encoded_amount =
      read-write_all 72 (token_fields mint owner amount) 2 0 8 (zeros 72) 64 (le_bytes 8 amount)
        refl (length-le_bytes 8 amount) token-Fits (length-zeros 72)

-- A token account is read back for any mint and owner of 32 bytes and any u64 amount.
parse-encode :
    (mint owner : Bytes) (amount : ℕ)
    → length mint ≡ 32
    → length owner ≡ 32
    → amount < u64_size
    → parse (encode mint owner amount) ≡ ok (mint, owner, amount)
unfolding parse
parse-encode mint owner amount lm lo h = rw (
  length-encode mint owner amount lm lo,
  encoded_mint mint owner amount lm lo,
  encoded_owner mint owner amount lm lo,
  encoded_amount mint owner amount lm lo,
  from_le_bytes-le_bytes 8 amount h,
)

parse_sound :
    (account mint owner : Bytes) (amount : ℕ)
    → parse account ≡ ok (mint, owner, amount)
    → (min_len ≤ length account)
      × (chunk account mint_off 32 ≡ mint)
      × (chunk account owner_off 32 ≡ owner)
      × (from_le_bytes (chunk account amount_off 8) ≡ amount)
unfolding parse
parse_sound account mint owner amount h =
    let (long, h₁) = require-eq-ok (not (ltb (length account) min_len)) Error.zero _ h in
    let same = ok-injective h₁ in
    (
      ge_of_not-ltb (length account) min_len long,
      ap (λ (t : Bytes × Bytes × ℕ). t.0) same,
      ap (λ (t : Bytes × Bytes × ℕ). t.1) same,
      ap (λ (t : Bytes × Bytes × ℕ). t.2) same,
    )

-- Bytes that pass as the escrow account are long enough, of the JitoSOL mint and owned by the
-- store, and the amount returned is the u64 that they hold.
pub require_jito_escrow_sound :
    (account store : Bytes) (amount : ℕ)
    → All IsByte account
    → require_jito_escrow account store ≡ ok amount
    → (min_len ≤ length account)
      × (chunk account mint_off 32 ≡ jito_mint_bytes)
      × (chunk account owner_off 32 ≡ store)
      × (from_le_bytes (chunk account amount_off 8) ≡ amount)
      × (amount < u64_size)
unfolding require_jito_escrow
require_jito_escrow_sound account store amount hb h =
    let ((mint, owner, a), parsed, h₁) = >>=-eq-ok (parse account) _ h in
    let (long, is_mint, is_owner, is_amount) = parse_sound account mint owner a parsed in
    let (minted, h₂) = require-eq-ok (eq_bytes mint jito_mint_bytes) bad_mint _ h₁ in
    let (owned, h₃) = require-eq-ok (eq_bytes owner store) bad_peer _ h₂ in
    let same = ok-injective h₃ in
    (
      long,
      is_mint ∙ eq_bytes→eq mint jito_mint_bytes minted,
      is_owner ∙ eq_bytes→eq owner store owned,
      is_amount ∙ same,
      rw (← same, ← is_amount) (chunk_word-lt 8 account 64 hb (omega arith)),
    )
