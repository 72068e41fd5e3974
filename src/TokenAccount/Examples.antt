-- ===== src/TokenAccount/Examples.antt =====
-- A JitoSOL token account, written and read back.
use hyper_leaf.Common.{◌≡◌, ◌≤◌, ◌<◌, refl, length, All, replicate}
use hyper_leaf.Bytes.{
  Bytes, IsByte, chunk, eq_bytes, from_le_bytes, are_bytes, are_bytes-IsByte, write_all, copy_at,
  le_bytes,
}
use hyper_leaf.Outcome.{ok, u64_size}
use hyper_leaf.Rate.{jito_mint_bytes}
use hyper_leaf.TokenAccount.{
  min_len, mint_off, owner_off, amount_off, parse, encode, require_jito_escrow,
}
use hyper_leaf.TokenAccount.RoundTrip.{require_jito_escrow_sound}

abbrev store : Bytes
store = replicate 32 9

abbrev account : Bytes
account = encode jito_mint_bytes store 123_456

account_bytes : All IsByte account
unfolding are_bytes encode write_all copy_at le_bytes
account_bytes = are_bytes-IsByte account refl

escrow_run : require_jito_escrow account store ≡ ok 123_456
unfolding require_jito_escrow parse encode write_all copy_at le_bytes from_le_bytes eq_bytes
escrow_run = refl

require_jito_escrow_sound_example :
    (min_len ≤ length account)
    × (chunk account mint_off 32 ≡ jito_mint_bytes)
    × (chunk account owner_off 32 ≡ store)
    × (from_le_bytes (chunk account amount_off 8) ≡ 123_456)
    × (123_456 < u64_size)
require_jito_escrow_sound_example =
    require_jito_escrow_sound account store 123_456 account_bytes escrow_run
