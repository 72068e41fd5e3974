-- ===== src/Program/Pool/Sound.antt =====
-- Which pool account `read_jito_rate` reads a rate from.
use hyper_leaf.Common.{
  ℕ, refl, ◌≤◌, ◌<◌, ◌≡◌, sym, ap, not, length, get_or, ltb, ◌==◌, ==_iff, ge_of_not-ltb,
  not-ltb_of_ge, pos_of_not_==, not_==_of_pos,
}
use hyper_leaf.Bytes.{Bytes, chunk, from_le_bytes, eq_bytes, eq_bytes→eq, eq_bytes_iff}
use hyper_leaf.Outcome.{ok, bad_rate, bad_mint, require-eq-ok, ok-injective}
use hyper_leaf.Rate.{jito_mint_bytes}
use hyper_leaf.StakePool
use hyper_leaf.StakePool.{parse_pool}
use hyper_leaf.Program.Runtime.{AccountInfo}
use hyper_leaf.Program.Pool.{jito_pool_pubkey, stake_pool_program_pubkey, read_jito_rate}
use hyper_leaf.Program.Errors.{done, bad_pool_account, from_result-eq-done, require-eq-done}

-- The rate that the canonical account of the stake pool program holds: the tag at 0, the mint at
-- 162, the total lamports at 258 and the supply of pool tokens at 266.
pub record RateSource (pool : AccountInfo) (lamports supply : ℕ) : Type 0 where
  pub key : pool.key ≡ jito_pool_pubkey
  pub owner : pool.owner ≡ stake_pool_program_pubkey
  pub tag : get_or pool.bytes 0 0 ≡ 1
  pub long : 274 ≤ length pool.bytes
  pub mint : chunk pool.bytes 162 32 ≡ jito_mint_bytes
  pub lamports_at : lamports ≡ from_le_bytes (chunk pool.bytes 258 8)
  pub supply_at : supply ≡ from_le_bytes (chunk pool.bytes 266 8)
  pub some_supply : 0 < supply

-- What a pool account that parses holds.
parse_pool_sound :
    (account : Bytes) (l s : ℕ)
    → parse_pool account jito_mint_bytes ≡ ok (l, s)
    → (274 ≤ length account)
      × (chunk account 162 32 ≡ jito_mint_bytes)
      × (l ≡ from_le_bytes (chunk account 258 8))
      × (s ≡ from_le_bytes (chunk account 266 8))
      × (0 < s)
unfolding parse_pool
parse_pool_sound account l s h =
    let (long, h₁) = require-eq-ok (not (ltb (length account) StakePool.min_len)) bad_rate _ h in
    let (minted, h₂) =
      require-eq-ok (eq_bytes (chunk account 162 32) jito_mint_bytes) bad_mint _ h₁ in
    let (supplied, h₃) =
      require-eq-ok (not (from_le_bytes (chunk account 266 8) == 0)) bad_rate _ h₂ in
    let same = ok-injective h₃ in
    let is_lamports = ap (λ (p : ℕ × ℕ). p.0) same in
    let is_supply = ap (λ (p : ℕ × ℕ). p.1) same in
    (
      ge_of_not-ltb (length account) 274 long,
      eq_bytes→eq (chunk account 162 32) jito_mint_bytes minted,
      sym is_lamports,
      sym is_supply,
      rw (← is_supply) (pos_of_not_== (from_le_bytes (chunk account 266 8)) supplied),
    )

-- A rate that is read comes from the canonical pool account, owned by the stake pool program and
-- tagged as a pool, whose data has the JitoSOL mint at byte 162; the total lamports are the eight
-- bytes at 258 and the supply, which is not zero, those at 266, in little-endian order.
pub read_jito_rate-RateSource :
    (pool : AccountInfo) (l s : ℕ) → read_jito_rate pool ≡ done (l, s) → RateSource pool l s
unfolding read_jito_rate
read_jito_rate-RateSource pool l s h =
    let (key, h1) = require-eq-done (eq_bytes pool.key jito_pool_pubkey) bad_pool_account _ h in
    let (owner, h2) =
      require-eq-done (eq_bytes pool.owner stake_pool_program_pubkey) bad_pool_account _ h1 in
    let (_, h3) =
      require-eq-done (not (ltb (length pool.bytes) StakePool.min_len)) bad_pool_account _ h2 in
    let (tag, h4) = require-eq-done (get_or pool.bytes 0 0 == 1) bad_pool_account _ h3 in
    let (long, mint, lamports_at, supply_at, some_supply) =
      parse_pool_sound pool.bytes l s
        (from_result-eq-done (parse_pool pool.bytes jito_mint_bytes) h4) in
    record {
      key = eq_bytes→eq pool.key jito_pool_pubkey key;
      owner = eq_bytes→eq pool.owner stake_pool_program_pubkey owner;
      tag = (==_iff (get_or pool.bytes 0 0) 1).0 tag;
      long = long;
      mint = mint;
      lamports_at = lamports_at;
      supply_at = supply_at;
      some_supply = some_supply;
    }

parses :
    (account : Bytes) (l s : ℕ)
    → 274 ≤ length account
    → chunk account 162 32 ≡ jito_mint_bytes
    → l ≡ from_le_bytes (chunk account 258 8)
    → s ≡ from_le_bytes (chunk account 266 8)
    → 0 < s
    → parse_pool account jito_mint_bytes ≡ ok (l, s)
unfolding parse_pool
parses account l s long mint lamports supply some =
    let minted = (eq_bytes_iff (chunk account 162 32) jito_mint_bytes).1 mint in
    let positive : 0 < from_le_bytes (chunk account 266 8) = rw (← supply) some in
    rw
      (
        lamports,
        supply,
        not-ltb_of_ge (length account) 274 long,
        minted,
        not_==_of_pos (from_le_bytes (chunk account 266 8)) positive,
      )
      refl

-- An account that is such a source is read.
pub read_jito_rate_of_RateSource :
    (pool : AccountInfo) (l s : ℕ) → RateSource pool l s → read_jito_rate pool ≡ done (l, s)
unfolding read_jito_rate
read_jito_rate_of_RateSource pool l s k =
    let key = (eq_bytes_iff pool.key jito_pool_pubkey).1 k.key in
    let owner = (eq_bytes_iff pool.owner stake_pool_program_pubkey).1 k.owner in
    let parsed = parses pool.bytes l s k.long k.mint k.lamports_at k.supply_at k.some_supply in
    let tag = (==_iff (get_or pool.bytes 0 0) 1).1 k.tag in
    rw (key, owner, not-ltb_of_ge (length pool.bytes) 274 k.long, tag, parsed) refl
