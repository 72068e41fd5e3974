-- ===== src/StakePool/Examples.antt =====
-- A stake pool account, written and read back.
use hyper_leaf.Common.{◌≡◌, refl, arith}
use hyper_leaf.Outcome.{ok}
use hyper_leaf.Rate.{jito_mint_bytes}
use hyper_leaf.StakePool.{parse_pool, encode_pool}
use hyper_leaf.StakePool.RoundTrip.{parse_pool-encode_pool}

account_read :
    parse_pool (encode_pool jito_mint_bytes 1_100_000_000 1_000_000_000) jito_mint_bytes
    ≡ ok (1_100_000_000, 1_000_000_000)
account_read =
    parse_pool-encode_pool jito_mint_bytes 1_100_000_000 1_000_000_000 refl (ground arith)
      (ground arith) (omega arith)
