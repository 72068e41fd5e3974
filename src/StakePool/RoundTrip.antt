-- ===== src/StakePool/RoundTrip.antt =====
-- A pool account is read back.
use hyper_leaf.Common.{ℕ, ◌<◌, ◌≡◌, refl, arith, length}
use hyper_leaf.Bytes.{Bytes, zeros, chunk, eq_bytes_refl, le_bytes}
use hyper_leaf.Bytes.Words.{length-zeros, length-le_bytes, from_le_bytes-le_bytes}
use hyper_leaf.Bytes.Layout.{Fits, read-write_all, length-write_all}
use hyper_leaf.Outcome.{ok, u64_size}
use hyper_leaf.StakePool.{parse_pool, encode_pool, pool_fields}

module _ (mint : Bytes) (lamports supply : ℕ) (lm : length mint ≡ 32) where
  pool-Fits : Fits 0 274 (pool_fields mint lamports supply)
  pool-Fits = omega (arith, length-le_bytes 8 lamports, length-le_bytes 8 supply)

  length-encode_pool : length (encode_pool mint lamports supply) ≡ 274
  unfolding encode_pool
  length-encode_pool =
      length-write_all 274 (pool_fields mint lamports supply) 0 (zeros 274) pool-Fits
        (length-zeros 274)

  encoded_mint : chunk (encode_pool mint lamports supply) 162 32 ≡ mint
  unfolding encode_pool
  encoded_mint =
      read-write_all 274 (pool_fields mint lamports supply) 1 0 32 (zeros 274) 162 mint refl lm
        pool-Fits (length-zeros 274)

  encoded_lamports : chunk (encode_pool mint lamports supply) 258 8 ≡ le_bytes 8 lamports
  unfolding encode_pool
  encoded_lamports =
      read-write_all 274 (pool_fields mint lamports supply) 2 0 8 (zeros 274) 258
        (le_bytes 8 lamports) refl (length-le_bytes 8 lamports) pool-Fits (length-zeros 274)

  encoded_supply : chunk (encode_pool mint lamports supply) 266 8 ≡ le_bytes 8 supply
  unfolding encode_pool
  encoded_supply =
      read-write_all 274 (pool_fields mint lamports supply) 3 0 8 (zeros 274) 266
        (le_bytes 8 supply) refl (length-le_bytes 8 supply) pool-Fits (length-zeros 274)

-- A pool account of the expected mint of 32 bytes with a positive supply is read back for any u64
-- amounts.
pub parse_pool-encode_pool :
    (mint : Bytes) (lamports supply : ℕ)
    → length mint ≡ 32
    → lamports < u64_size
    → supply < u64_size
    → 0 < supply
    → parse_pool (encode_pool mint lamports supply) mint ≡ ok (lamports, supply)
unfolding parse_pool
parse_pool-encode_pool mint lamports supply lm hl hs pos =
    rw
      (
        length-encode_pool mint lamports supply lm,
        encoded_mint mint lamports supply lm,
        eq_bytes_refl mint,
        encoded_lamports mint lamports supply lm,
        encoded_supply mint lamports supply lm,
        from_le_bytes-le_bytes 8 lamports hl,
        from_le_bytes-le_bytes 8 supply hs,
      )
      (ground arith)
