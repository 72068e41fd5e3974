-- ===== src/Rate.antt =====
-- solana/leaf-jito-rate/src/lib.rs: the pool rate, the share conversions, and the booking of the
-- 1% fee against a high-water mark. u64 and u128 values are natural numbers; their ranges are
-- hypotheses of the theorems.
pub mod Fee
mod Examples
use hyper_leaf.Common.{
  ℕ, ◌+◌, ◌-◌, ◌*◌, ◌/◌, ◌^◌, Bool, true, false, ◌||◌, Option, none, some, List, [], ◌∷◌, ltb, ◌==◌,
  if◌then◌else◌,
}
use hyper_leaf.Bytes.{Bytes}
use hyper_leaf.Outcome.{Result, ok, err, math_overflow, ◌>>=◌, ok_or, checked_mul}

abbrev yield_fee_bps : ℕ
yield_fee_bps = 100

abbrev bps : ℕ
bps = 10_000

abbrev pub rate_scale : ℕ
rate_scale = 1_000_000_000_000_000_000

abbrev pub share_scale : ℕ
share_scale = 1_000_000_000

abbrev pub listing_tag : Bytes
listing_tag =
    0xb1 ∷ 0x07 ∷ 0xd7 ∷ 0xc3 ∷ 0xae ∷ 0x6a ∷ 0x8d ∷ 0x34 ∷ 0x48 ∷ 0x2b ∷ 0x78 ∷ 0xc6 ∷ 0xbc ∷ 0x32
    ∷ 0xc7 ∷ 0x54 ∷ 0x49 ∷ 0xc2 ∷ 0x29 ∷ 0x61 ∷ 0xc6 ∷ 0x4b ∷ 0xab ∷ 0xa3 ∷ 0x67 ∷ 0x58 ∷ 0xd5
    ∷ 0xab ∷ 0x97 ∷ 0x89 ∷ 0xa4 ∷ 0x0e ∷ []

abbrev pub jito_mint_bytes : Bytes
jito_mint_bytes =
    0xfc ∷ 0xd1 ∷ 0x41 ∷ 0xe9 ∷ 0x83 ∷ 0x2c ∷ 0xaf ∷ 0x10 ∷ 0xad ∷ 0x91 ∷ 0x74 ∷ 0x95 ∷ 0xca ∷ 0x0f
    ∷ 0x27 ∷ 0x1b ∷ 0x5b ∷ 0x29 ∷ 0x3c ∷ 0xd4 ∷ 0x70 ∷ 0x27 ∷ 0xea ∷ 0x73 ∷ 0x70 ∷ 0x07 ∷ 0xed
    ∷ 0x40 ∷ 0xeb ∷ 0x39 ∷ 0xa0 ∷ 0xbd ∷ []

-- The product of a u64 with `rate_scale` fits a u128, so the source's `*` cannot overflow here.
unfoldable pub rate : ℕ → ℕ → Option ℕ
rate total_lamports pool_token_supply =
    if pool_token_supply == 0 then none else some (total_lamports * rate_scale / pool_token_supply)

unfoldable pub shares_from_atoms : ℕ → Option ℕ
shares_from_atoms atoms = checked_mul atoms share_scale

unfoldable pub atoms_from_shares : ℕ → ℕ → ℕ → Result ℕ
atoms_from_shares shares last_accounted total_shares =
    if shares == 0 || (total_shares == 0 || last_accounted == 0) then ok 0 else (do
      product ← ok_or (checked_mul shares last_accounted) math_overflow
      ok (product / total_shares))

-- The fee, the new accounted atoms and the new high-water mark.
unfoldable pub book_retain_fee : ℕ → ℕ → ℕ → Result (ℕ × ℕ × ℕ)
book_retain_fee last_accounted last_rate new_rate =
    if new_rate == 0
    then ok (0, last_accounted, last_rate)
    else if last_rate == 0 || last_accounted == 0
    then ok (0, last_accounted, new_rate)
    else if ltb new_rate last_rate
    then ok (0, last_accounted, last_rate)
    else if new_rate == last_rate
    then ok (0, last_accounted, last_rate)
    else (do
      surplus ← ok_or (checked_mul last_accounted (new_rate - last_rate)) math_overflow
      product ← ok_or (checked_mul (surplus / new_rate) yield_fee_bps) math_overflow
      let fee = if ltb last_accounted (product / bps) then last_accounted else product / bps
      ok (fee, last_accounted - fee, new_rate))
