-- ===== src/Program/HarvestOther.antt =====
-- instructions/harvest_other.rs: a side token of the store goes to its registered owners.
pub mod Split
use hyper_leaf.Common.{ℕ, ◌<◌, Option, Bool, String, ltb, if◌then◌else◌}
use hyper_leaf.Bytes.{eq_bytes}
use hyper_leaf.Outcome.{u64_size}
use hyper_leaf.Lockbox
use hyper_leaf.Program.State.{Pubkey, SideDest}
use hyper_leaf.Program.Runtime.{Runtime}
use hyper_leaf.Program.Errors.{
  Reply, done, bad_mint, bad_token_account, math_overflow, require, answered, from_result, ◌>>=◌,
  ◌>>◌,
}
use hyper_leaf.Program.World.{World}

pub record HarvestOther : Type 0 where
  pub side_ata : Pubkey
  pub fee_ata : Pubkey
  pub rest_ata : Pubkey

module _ (rt : Runtime) where
  -- `if amount > 0 { … }`: a transfer out of the side account, signed by the store.
  unfoldable pub pay : rt.Tokens → Pubkey → Pubkey → ℕ → Reply rt.Tokens
  pay tokens from to amount =
      if ltb 0 amount
      then answered (rt.transfer tokens from to rt.store_key amount)
      else done tokens

  -- `mint.to_string()` is the first argument.
  unfoldable pub apply :
      (Pubkey → String) → HarvestOther → Pubkey → SideDest → World rt → Reply (World rt)
  apply to_string accounts mint side_dest w = do
    from_result (Lockbox.harvest_other (to_string mint))
    require
        (Lockbox.side_dest_policy_ok (rt.token w.tokens accounts.fee_ata).owner
          (rt.token w.tokens accounts.rest_ata).owner side_dest.fee_owner side_dest.rest_owner)
        bad_token_account
    (fee, rest) ←
        from_result (Lockbox.harvest_other_amount (rt.token w.tokens accounts.side_ata).amount)
    require (ltb fee u64_size) math_overflow
    require (ltb rest u64_size) math_overflow
    charged ← pay w.tokens accounts.side_ata accounts.fee_ata fee
    tokens ← pay charged accounts.side_ata accounts.rest_ata rest
    done (record w { tokens = tokens })

  -- The constraints on one of the two destinations.
  unfoldable pub check_dest : World rt → Pubkey → Pubkey → Pubkey → Reply (Unit {0})
  check_dest w ata mint owner = do
    require (eq_bytes (rt.token w.tokens ata).mint mint) bad_mint
    require (eq_bytes (rt.token w.tokens ata).owner owner) bad_token_account
    require (eq_bytes ata (rt.find_ata owner mint)) bad_token_account

  -- The constraints on the accounts, and then the instruction.
  unfoldable pub handle : (Pubkey → String) → HarvestOther → Pubkey → World rt → Reply (World rt)
  handle to_string accounts mint w = do
    side_dest ← answered (w.side_dests mint)
    require (eq_bytes side_dest.mint mint) bad_mint
    require (eq_bytes (rt.token w.tokens accounts.side_ata).owner rt.store_key) bad_token_account
    require (eq_bytes (rt.token w.tokens accounts.side_ata).mint mint) bad_mint
    check_dest w accounts.fee_ata mint side_dest.fee_owner
    check_dest w accounts.rest_ata mint side_dest.rest_owner
    apply to_string accounts mint side_dest w
