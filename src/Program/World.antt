-- ===== src/Program/World.antt =====
-- The accounts that an instruction reads and writes, and the steps that instructions share.
-- Accounts at addresses derived from seeds are found by their seeds: the store is the only one of
-- its kind, a peer is found by its endpoint id and a side destination by its mint.
pub mod Moves
pub mod Solvent
pub mod Payments
use hyper_leaf.Common.{◌≡◌, ℕ, ◌-◌, ◌<◌, Option, some, none, ltb, if◌then◌else◌}
use hyper_leaf.Bytes.{eq_bytes}
use hyper_leaf.Outcome
use hyper_leaf.Outcome.{Result, u64_size}
use hyper_leaf.Lockbox.{Lockbox, Action}
use hyper_leaf.Program.State.{Pubkey, Store, PeerConfig, SideDest, LzReceiveTypesAccounts, lockbox}
use hyper_leaf.Program.Runtime.{Runtime}
use hyper_leaf.Program.Errors.{
  Reply, done, fail, aborted, map_rate, math_overflow, bad_token_account, require, answered, ◌>>=◌,
  ◌>>◌,
}

pub record World (rt : Runtime) : Type 0 where
  pub store : Store
  pub peers : ℕ → Option PeerConfig
  pub side_dests : Pubkey → Option SideDest
  pub tokens : rt.Tokens
  pub endpoint : rt.Endpoint

-- `.map_err(map_rate)?` on the result of a lockbox method.
unfoldable pub outcome : {A : Type 0} → Result A × Lockbox → Reply (A × Lockbox)
outcome (Outcome.ok a, b) = done (a, b)
outcome (Outcome.err e, b) = fail (map_rate e)
outcome (Outcome.panic, b) = aborted

-- A lockbox method on the store's counters; the counters are written back by the caller.
unfoldable pub run_box : {A : Type 0} → Action A → Store → Reply (A × Lockbox)
unfolding outcome lockbox
run_box m s = outcome (m (lockbox s))

module _ (rt : Runtime) where
  -- `amount.try_into()` to a u64, and `token::transfer`.
  unfoldable pub transfer_u64 : rt.Tokens → Pubkey → Pubkey → Pubkey → ℕ → Reply rt.Tokens
  transfer_u64 tokens from to authority amount = do
    require (ltb amount u64_size) math_overflow
    answered (rt.transfer tokens from to authority amount)

  -- `if fee > 0 { … }`: the fee goes from the escrow to the harvest account, signed by the store.
  unfoldable pub transfer_fee : rt.Tokens → Pubkey → Pubkey → ℕ → Reply rt.Tokens
  transfer_fee tokens escrow_ata harvest_ata fee =
      if ltb 0 fee then transfer_u64 tokens escrow_ata harvest_ata rt.store_key fee else done tokens

  -- pool.rs: the associated token account is created if it is missing.
  unfoldable pub create_ata_idempotent :
      rt.Tokens → Pubkey → Pubkey → Pubkey → Pubkey → Reply rt.Tokens
  create_ata_idempotent tokens ata authority mint associated_token_program = do
    require (eq_bytes associated_token_program rt.associated_token_program_id) bad_token_account
    answered (rt.create_ata tokens ata authority mint)

-- The accounts of the peers and of the side destinations are as they were.
abbrev pub KeepsRoutes : (rt : Runtime) → World rt → World rt → Type 0
KeepsRoutes rt w w' = (w'.peers ≡ w.peers) × (w'.side_dests ≡ w.side_dests)
