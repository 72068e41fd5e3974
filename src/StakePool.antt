-- ===== src/StakePool.antt =====
-- solana/leaf-jito-rate/src/stake_pool.rs: reading the SPL stake-pool account.
pub mod RoundTrip
mod Examples
use hyper_leaf.Common.{ℕ, Bool, not, List, [], ◌∷◌, length, ltb, ◌==◌}
use hyper_leaf.Bytes.{Bytes, zeros, chunk, eq_bytes, le_bytes, from_le_bytes, write_all}
use hyper_leaf.Outcome.{Result, ok, bad_rate, bad_mint, require, ◌>>=◌, ◌>>◌}

abbrev pub pool_mint_off : ℕ
pool_mint_off = 162

abbrev total_lamports_off : ℕ
total_lamports_off = 258

abbrev pub pool_supply_off : ℕ
pool_supply_off = 266

abbrev pub min_len : ℕ
min_len = 274

-- The total lamports and the supply of pool tokens.
unfoldable pub parse_pool : Bytes → Bytes → Result (ℕ × ℕ)
parse_pool account expected_mint = do
  require (not (ltb (length account) min_len)) bad_rate
  require (eq_bytes (chunk account pool_mint_off 32) expected_mint) bad_mint
  let lamports = from_le_bytes (chunk account total_lamports_off 8)
  let supply = from_le_bytes (chunk account pool_supply_off 8)
  require (not (supply == 0)) bad_rate
  ok (lamports, supply)

-- The account type, the mint, the lamports and the supply, in an account of zero bytes.
abbrev pub pool_fields : Bytes → ℕ → ℕ → List (ℕ × Bytes)
pool_fields mint total_lamports pool_token_supply =
    (0, 1 ∷ [])
    ∷ (pool_mint_off, mint)
    ∷ (total_lamports_off, le_bytes 8 total_lamports)
    ∷ (pool_supply_off, le_bytes 8 pool_token_supply)
    ∷ []

unfoldable pub encode_pool : Bytes → ℕ → ℕ → Bytes
encode_pool mint total_lamports pool_token_supply =
    write_all (zeros min_len) (pool_fields mint total_lamports pool_token_supply)
