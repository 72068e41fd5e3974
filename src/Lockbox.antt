-- ===== src/Lockbox.antt =====
-- solana/leaf-jito-rate/src/lockbox.rs: the state machine of the lockbox. A `&mut self` method is
-- a state action: it returns how it ended together with the fields as it left them, also when it
-- returned an error after it had written some.
mod Monad
pub mod Harvest
pub mod Lock
pub mod Unlock
pub mod Invariant
pub mod Price
pub mod Outcomes
pub mod Trace
pub mod Policy
pub mod Neutral
pub mod Vault
mod Examples
pub use Monad.*
use text.Mathlib.Text.{◌==◌ as str_eq}
use hyper_leaf.Common.{
  ℕ, ◌+◌, ◌-◌, ◌*◌, ◌/◌, Bool, true, false, not, ◌&&◌, ◌||◌, String, ltb, leb, ◌==◌, if◌then◌else◌,
}
use hyper_leaf.Bytes.{Bytes, eq_bytes, zeros}
use hyper_leaf.Outcome
use hyper_leaf.Outcome.{
  Result, Error, ok, err, halted, cap, bad_rate, insufficient, harvest_inner, forbidden_cpi,
  wrong_listing, underbacked, math_overflow, add_u128, sub_u128, mul_u128, checked_mul,
}
use hyper_leaf.Rate.{rate, shares_from_atoms, atoms_from_shares, book_retain_fee}

-- `Lockbox::new`
unfoldable pub new : ℕ → Lockbox
new deposit_cap_atoms = record {
  last_accounted = 0;
  last_rate = 0;
  total_shares = 0;
  deposit_cap_atoms = deposit_cap_atoms;
  escrow_atoms = 0;
  harvest_atoms = 0;
  halted = false;
}

unfoldable require_cash : Action ⊤
require_cash = do b ← get; require (leb b.last_accounted b.escrow_atoms) underbacked

-- `if fee > 0 { … }` of `harvest_rate`: the fee leaves the escrow for the harvest account.
unfoldable move_fee : ℕ → Action ⊤
move_fee fee = do
  b ← get
  require (leb fee b.escrow_atoms) underbacked
  escrow ← lift (sub_u128 b.escrow_atoms fee)
  harvest ← lift (add_u128 b.harvest_atoms fee)
  modify (λ b. record b { escrow_atoms = escrow; harvest_atoms = harvest })

-- `harvest_rate` after its first early return, at the rate that was read.
unfoldable pub settle : ℕ → Action ℕ
unfolding require_cash move_fee
settle r = do
  b ← get
  (fee, next, mark) ← lift (book_retain_fee b.last_accounted b.last_rate r)
  modify (λ b. record b { last_accounted = next; last_rate = mark })
  if ltb 0 fee then move_fee fee else pure tt
  require_cash
  pure fee

unfoldable pub harvest_rate : ℕ → ℕ → Action ℕ
harvest_rate total_lamports pool_token_supply = do
  r ← lift (Outcome.ok_or (rate total_lamports pool_token_supply) bad_rate)
  b ← get
  if b.last_rate == 0 then (do modify (λ b. record b { last_rate = r }); pure 0) else settle r

-- The shares that `lock` mints for `atoms`.
unfoldable shares_for : ℕ → Lockbox → Result ℕ
shares_for atoms b =
    if b.total_shares == 0
    then Outcome.ok_or (shares_from_atoms atoms) Error.zero
    else (Outcome.◌>>=◌ (Outcome.ok_or (checked_mul atoms b.total_shares) math_overflow)
        (λ product. ok (product / b.last_accounted)))

-- `0` is no limit.
unfoldable within_cap : ℕ → Action ⊤
within_cap atoms = do
  b ← get
  if b.deposit_cap_atoms == 0 then pure tt else (do
    sum ← lift (add_u128 b.last_accounted atoms)
    require (leb sum b.deposit_cap_atoms) cap)

-- `if self.total_shares != 0 && self.last_accounted == 0`
unfoldable require_backed : Action ⊤
require_backed = do
  b ← get
  require (not (not (b.total_shares == 0) && b.last_accounted == 0)) insufficient

-- `lock` once the fee is settled; the shares minted.
unfoldable pub mint : ℕ → Action ℕ
unfolding require_cash shares_for within_cap require_backed
mint atoms = do
  require_backed
  within_cap atoms
  shares ← lift (shares_for atoms (← get))
  require (not (shares == 0)) Error.zero
  escrow ← lift (add_u128 (← get).escrow_atoms atoms)
  modify (λ b. record b { escrow_atoms = escrow })
  accounted ← lift (add_u128 (← get).last_accounted atoms)
  modify (λ b. record b { last_accounted = accounted })
  total ← lift (add_u128 (← get).total_shares shares)
  modify (λ b. record b { total_shares = total })
  require_cash
  pure shares

-- The shares minted and the fee moved.
unfoldable pub lock : ℕ → ℕ → ℕ → Action (ℕ × ℕ)
lock atoms total_lamports pool_token_supply = do
  b ← get
  require (not b.halted) halted
  require (not (atoms == 0)) Error.zero
  fee ← harvest_rate total_lamports pool_token_supply
  shares ← mint atoms
  pure (shares, fee)

-- `unlock` once the fee is settled; the atoms paid.
unfoldable pub redeem : ℕ → Action ℕ
unfolding require_cash require_backed
redeem shares = do
  require_backed
  b ← get
  atoms ← lift (atoms_from_shares shares b.last_accounted b.total_shares)
  require (not (atoms == 0)) Error.zero
  require (leb atoms b.escrow_atoms) underbacked
  escrow ← lift (sub_u128 b.escrow_atoms atoms)
  modify (λ b. record b { escrow_atoms = escrow })
  accounted ← lift (sub_u128 b.last_accounted atoms)
  modify (λ b. record b { last_accounted = accounted })
  total ← lift (sub_u128 b.total_shares shares)
  modify (λ b. record b { total_shares = total })
  require_cash
  pure atoms

-- The atoms paid and the fee moved.
unfoldable pub unlock : ℕ → ℕ → ℕ → Action (ℕ × ℕ)
unlock shares total_lamports pool_token_supply = do
  b ← get
  require (not (shares == 0 || ltb b.total_shares shares)) insufficient
  fee ← harvest_rate total_lamports pool_token_supply
  atoms ← redeem shares
  pure (atoms, fee)

unfoldable pub donate : ℕ → Action ⊤
donate atoms = do
  b ← get
  escrow ← lift (add_u128 b.escrow_atoms atoms)
  modify (λ b. record b { escrow_atoms = escrow })

abbrev pub jito_mint : String
jito_mint = "J1toso1uCk3RLmjorhTtrVwY9HJ7X8V9yYac6Y7kGCPn"

abbrev pub stake_pool_program : String
stake_pool_program = "SPoo1Ku8WFXoNDMHPsrGSTSG1Y47rzgn41SLUNakuHy"

abbrev pub interceptor : String
interceptor = "5TAiuAh3YGDbwjEruC1ZpXTJWdNDS7Ur7VeqNNiHMmGV"

abbrev pub vault_program : String
vault_program = "Vau1t6sLNxnzB7ZDsef8TLbPLfyZMYXH8WTNqUdm9g8"

abbrev pub restaking_program : String
restaking_program = "RestkWeAVL8fRGgzhfeoqFhsqKRchg6aa1XrcH96z4Q"

unfoldable pub harvest_other : String → Result ⊤
harvest_other mint = if str_eq mint jito_mint then err harvest_inner else ok tt

-- The protocol's part of a side token's balance, and the rest.
unfoldable pub harvest_other_amount : ℕ → Result (ℕ × ℕ)
harvest_other_amount atoms =
    if atoms == 0
    then err Error.zero
    else (Outcome.◌>>=◌ (mul_u128 atoms 100)
        (λ product. ok (product / 10_000, atoms - product / 10_000)))

unfoldable pub side_dest_policy_ok : Bytes → Bytes → Bytes → Bytes → Bool
side_dest_policy_ok fee_ata_owner rest_ata_owner registered_fee_owner registered_rest_owner =
    eq_bytes fee_ata_owner registered_fee_owner && eq_bytes rest_ata_owner registered_rest_owner

unfoldable pub lz_receive : Bytes → Bytes → ℕ → ℕ → ℕ → Action (ℕ × ℕ)
lz_receive tag expected_tag shares total_lamports pool_token_supply = do
  require (not (not (eq_bytes tag expected_tag) || eq_bytes tag (zeros 32))) wrong_listing
  unlock shares total_lamports pool_token_supply

unfoldable pub require_no_cpi : String → Result ⊤
require_no_cpi program =
    if str_eq program stake_pool_program
      || (str_eq program interceptor
          || (str_eq program vault_program || str_eq program restaking_program))
    then err forbidden_cpi
    else ok tt

unfoldable pub halt : Action ⊤
halt = do modify (λ b. record b { halted = true })
