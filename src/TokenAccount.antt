-- ===== src/TokenAccount.antt =====
-- solana/leaf-jito-rate/src/token.rs: reading an SPL token account.
pub mod RoundTrip
mod Examples
use hyper_leaf.Common.{ℕ, Bool, not, List, [], ◌∷◌, length, ltb}
use hyper_leaf.Bytes.{Bytes, zeros, chunk, eq_bytes, le_bytes, from_le_bytes, write_all}
use hyper_leaf.Outcome.{Result, Error, ok, bad_mint, bad_peer, require, ◌>>=◌, ◌>>◌}
use hyper_leaf.Rate.{jito_mint_bytes}

abbrev pub mint_off : ℕ
mint_off = 0

abbrev pub owner_off : ℕ
owner_off = 32

abbrev pub amount_off : ℕ
amount_off = 64

abbrev pub min_len : ℕ
min_len = 72

-- The mint, the owner and the amount.
unfoldable pub parse : Bytes → Result (Bytes × Bytes × ℕ)
parse account = do
  require (not (ltb (length account) min_len)) Error.zero
  ok (
    chunk account mint_off 32,
    chunk account owner_off 32,
    from_le_bytes (chunk account amount_off 8),
  )

abbrev pub token_fields : Bytes → Bytes → ℕ → List (ℕ × Bytes)
token_fields mint owner amount =
    (mint_off, mint) ∷ (owner_off, owner) ∷ (amount_off, le_bytes 8 amount) ∷ []

unfoldable pub encode : Bytes → Bytes → ℕ → Bytes
encode mint owner amount = write_all (zeros min_len) (token_fields mint owner amount)

unfoldable pub require_jito_escrow : Bytes → Bytes → Result ℕ
require_jito_escrow account store = do
  (mint, owner, amount) ← parse account
  require (eq_bytes mint jito_mint_bytes) bad_mint
  require (eq_bytes owner store) bad_peer
  ok amount
