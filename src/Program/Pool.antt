-- ===== src/Program/Pool.antt =====
-- pool.rs: the rate source bound to the canonical Jito stake pool, and the token-account check.
pub mod Sound
use hyper_leaf.Common.{ℕ, not, [], ◌∷◌, length, get_or, ltb, ◌==◌}
use hyper_leaf.Bytes.{eq_bytes}
use hyper_leaf.Rate.{jito_mint_bytes}
use hyper_leaf.StakePool
use hyper_leaf.TokenAccount
use hyper_leaf.Program.State.{Pubkey}
use hyper_leaf.Program.Runtime.{AccountInfo}
use hyper_leaf.Program.Errors.{
  Reply, done, bad_pool_account, bad_token_account, bad_mint, require, from_result, or_fail, ◌>>=◌,
  ◌>>◌,
}

abbrev pub jito_pool_pubkey : Pubkey
jito_pool_pubkey =
    0x04 ∷ 0x8a ∷ 0x3e ∷ 0x08 ∷ 0xc3 ∷ 0xb4 ∷ 0x95 ∷ 0xbe ∷ 0x17 ∷ 0xf4 ∷ 0x54 ∷ 0x27 ∷ 0xd8 ∷ 0x9b
    ∷ 0xec ∷ 0x5b ∷ 0x80 ∷ 0xc7 ∷ 0xe2 ∷ 0x69 ∷ 0x5c ∷ 0x18 ∷ 0x64 ∷ 0xd7 ∷ 0x67 ∷ 0x43 ∷ 0xdb
    ∷ 0x39 ∷ 0xbe ∷ 0xd3 ∷ 0x46 ∷ 0xd6 ∷ []

abbrev pub stake_pool_program_pubkey : Pubkey
stake_pool_program_pubkey =
    0x06 ∷ 0x81 ∷ 0x4e ∷ 0xd4 ∷ 0xca ∷ 0xf6 ∷ 0x8a ∷ 0x17 ∷ 0x46 ∷ 0x72 ∷ 0xfd ∷ 0xac ∷ 0x86 ∷ 0x03
    ∷ 0x1a ∷ 0x63 ∷ 0xe8 ∷ 0x4e ∷ 0xa1 ∷ 0x5e ∷ 0xfa ∷ 0x1d ∷ 0x44 ∷ 0xb7 ∷ 0x22 ∷ 0x93 ∷ 0xf6
    ∷ 0xdb ∷ 0xdb ∷ 0x00 ∷ 0x16 ∷ 0x50 ∷ []

abbrev pub jito_mint_pubkey : Pubkey
jito_mint_pubkey = jito_mint_bytes

-- The total lamports and the supply of pool tokens.
unfoldable pub read_jito_rate : AccountInfo → Reply (ℕ × ℕ)
read_jito_rate pool = do
  require (eq_bytes pool.key jito_pool_pubkey) bad_pool_account
  require (eq_bytes pool.owner stake_pool_program_pubkey) bad_pool_account
  require (not (ltb (length pool.bytes) StakePool.min_len)) bad_pool_account
  require (get_or pool.bytes 0 0 == 1) bad_pool_account
  from_result (StakePool.parse_pool pool.bytes jito_mint_bytes)

-- The amount of a token account of the expected mint and owner.
unfoldable pub require_token_account : Pubkey → AccountInfo → Pubkey → Pubkey → Reply ℕ
require_token_account token_program_id ata expected_mint expected_owner = do
  require (eq_bytes ata.owner token_program_id) bad_token_account
  (mint, owner, amount) ← or_fail (TokenAccount.parse ata.bytes) bad_token_account
  require (eq_bytes mint expected_mint) bad_mint
  require (eq_bytes owner expected_owner) bad_token_account
  done amount
