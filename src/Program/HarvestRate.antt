-- ===== src/Program/HarvestRate.antt =====
-- instructions/harvest_rate.rs: anyone books the fee on the rise of the rate since it was last read.
pub mod Solvent
use hyper_leaf.Common.{ℕ, ◌-◌}
use hyper_leaf.Bytes.{eq_bytes}
use hyper_leaf.Lockbox.{Lockbox, harvest_rate}
use hyper_leaf.Program.State.{Pubkey, Store, apply_lockbox}
use hyper_leaf.Program.Runtime.{Runtime, AccountInfo}
use hyper_leaf.Program.Pool.{read_jito_rate}
use hyper_leaf.Program.Errors.{Reply, done, bad_token_account, require, ◌>>=◌, ◌>>◌}
use hyper_leaf.Program.World.{World, run_box, transfer_fee}

pub record HarvestRate : Type 0 where
  pub jito_pool : AccountInfo
  pub escrow_ata : Pubkey
  pub harvest_ata : Pubkey

module _ (rt : Runtime) where
  -- The accounts have passed their constraints.
  unfoldable pub apply : HarvestRate → World rt → Reply (World rt)
  apply accounts w = do
    (lamports, supply) ← read_jito_rate accounts.jito_pool
    (fee, box) ← run_box (harvest_rate lamports supply) w.store
    tokens ← transfer_fee rt w.tokens accounts.escrow_ata accounts.harvest_ata fee
    done (record w { store = apply_lockbox box w.store; tokens = tokens })

  unfoldable pub handle : HarvestRate → World rt → Reply (World rt)
  handle accounts w = do
    require (eq_bytes accounts.escrow_ata w.store.escrow_ata) bad_token_account
    require (eq_bytes accounts.harvest_ata w.store.harvest_ata) bad_token_account
    apply accounts w
