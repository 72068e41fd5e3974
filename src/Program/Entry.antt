-- ===== src/Program/Entry.antt =====
-- lib.rs of the program: the instructions that change its accounts, as one entry point, and a
-- transaction of one of them.
pub mod Kept
pub mod Effect
pub mod Steps
pub mod Configuration
pub mod Refines
pub mod Worth
pub mod Holder
pub mod Traffic
pub mod Authority
pub mod Panics
pub mod RoundTrip
use hyper_leaf.Common.{ℕ, List, [], ◌∷◌, String}
use hyper_leaf.Program.State.{Pubkey}
use hyper_leaf.Program.Runtime.{Runtime}
use hyper_leaf.Program.Errors.{Reply, done, fail, refused, aborted}
use hyper_leaf.Program.World.{World}
use hyper_leaf.Program.HarvestRate
use hyper_leaf.Program.HarvestRate.{HarvestRate}
use hyper_leaf.Program.Lock
use hyper_leaf.Program.Lock.{Lock, LockParams}
use hyper_leaf.Program.LzReceive
use hyper_leaf.Program.LzReceive.{LzReceive, LzReceiveParams}
use hyper_leaf.Program.Halt
use hyper_leaf.Program.SetPeerConfig
use hyper_leaf.Program.SetPeerConfig.{PeerConfigParam}
use hyper_leaf.Program.SetHarvestOtherDest
use hyper_leaf.Program.SetHarvestOtherDest.{SetHarvestOtherDestParams}
use hyper_leaf.Program.HarvestOther
use hyper_leaf.Program.HarvestOther.{HarvestOther}

-- An instruction with its accounts and parameters.
pub data Instruction : Type 0 where
  set_peer_config : (admin : Pubkey) (bump remote_eid : ℕ) (config : PeerConfigParam) → Instruction
  halt : (admin : Pubkey) → Instruction
  harvest_rate : (accounts : HarvestRate) → Instruction
  harvest_other : (accounts : HarvestOther) (mint : Pubkey) → Instruction
  set_harvest_other_dest :
      (admin : Pubkey) (bump : ℕ) (params : SetHarvestOtherDestParams) → Instruction
  lock : (accounts : Lock) (params : LockParams) → Instruction
  lz_receive : (accounts : LzReceive) (params : LzReceiveParams) → Instruction

-- A transaction whose instruction does not end with `Ok` is undone.
unfoldable pub committed : {A : Type 0} → A → Reply A → A
committed a (done a') = a'
committed a (fail _) = a
committed a refused = a
committed a aborted = a

module _ (rt : Runtime) (to_string : Pubkey → String) where
  unfoldable pub execute : Instruction → World rt → Reply (World rt)
  execute (Instruction.set_peer_config admin bump remote_eid config) w =
      SetPeerConfig.handle rt admin bump remote_eid config w
  execute (Instruction.halt admin) w = Halt.handle rt admin w
  execute (Instruction.harvest_rate accounts) w = HarvestRate.handle rt accounts w
  execute (Instruction.harvest_other accounts mint) w =
      HarvestOther.handle rt to_string accounts mint w
  execute (Instruction.set_harvest_other_dest admin bump params) w =
      SetHarvestOtherDest.handle rt admin bump params w
  execute (Instruction.lock accounts params) w = Lock.handle rt accounts params w
  execute (Instruction.lz_receive accounts params) w = LzReceive.handle rt accounts params w

  -- Transactions in a row.
  unfoldable pub transact : List Instruction → World rt → World rt
  unfolding execute committed
  transact [] w = w
  transact (ix ∷ rest) w = transact rest (committed w (execute ix w))
