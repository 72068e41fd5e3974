-- ===== src/Program/Entry/Panics.antt =====
-- The entry points of lib.rs and the panics of the code that they call.
pub mod Sent
pub mod Received
pub mod Others
use hyper_leaf.Common.{
  ℕ, ◌+◌, ◌*◌, ◌≤◌, ◌<◌, ◌≡◌, ◌≢◌, refl, subst, sym, ap, arith, String, Bool, true, false, not,
  ◌&&◌, none, ◌-◌, ◌==◌, ltb, if◌then◌else◌,
}
use hyper_leaf.Bytes.{Bytes, eq_bytes, zeros}
use hyper_leaf.Outcome.{Result, Error, u64_size, u128_size}
use hyper_leaf.Rate.{listing_tag}
use hyper_leaf.Ix
use hyper_leaf.Ix.{require_solana_peer, require_evm_peer}
use hyper_leaf.Ix.Payload.{lock_payload}
use hyper_leaf.Lockbox as Box
use hyper_leaf.Lockbox.{Lockbox}
use hyper_leaf.Lockbox.Invariant.{IsValid}
use hyper_leaf.Lockbox.Outcomes.{
  Fits, FailsWith, lock_outcome, unlock_outcome, harvest_rate_outcome,
}
use hyper_leaf.Program.State.{Pubkey, Store, SideDest, PeerConfig, lockbox}
use hyper_leaf.Program.Runtime.{Runtime, SendParams, ClearParams}
use hyper_leaf.Program.Pool.{jito_mint_pubkey, read_jito_rate, require_token_account}
use hyper_leaf.Program.MsgCodec
use hyper_leaf.Program.Options.{combine_options}
use hyper_leaf.Program.Calm.{
  Calm, >>=-Calm, require-Calm, answered-Calm, outcome-Calm, from_result-Calm, read_jito_rate-Calm,
  require_token_account-Calm, decode-Calm, solana_peer-Calm, evm_peer-Calm, side_amount-Calm,
  transfer_u64-Calm, transfer_fee-Calm, create_ata-Calm, done-Calm, combine_options-Calm,
  side_mint-Calm, program_check-Calm,
}
use hyper_leaf.Program.Errors.{
  Reply, done, refused, aborted, require, answered, from_result, ◌>>=◌, ◌>>◌,
}
use hyper_leaf.Program.World.{
  World, run_box, outcome, transfer_u64, transfer_fee, create_ata_idempotent,
}
use hyper_leaf.Program.World.Moves.{amount}
use hyper_leaf.Program.HarvestRate
use hyper_leaf.Program.HarvestRate.{HarvestRate}
use hyper_leaf.Program.Lock
use hyper_leaf.Program.Lock.{Lock, LockParams}
use hyper_leaf.Program.LzReceive
use hyper_leaf.Program.LzReceive.{LzReceive, LzReceiveParams}
use hyper_leaf.Program.LzReceive.Admitted.{accept-Accepted}
use hyper_leaf.Program.Halt
use hyper_leaf.Program.SetPeerConfig
use hyper_leaf.Program.SetPeerConfig.{PeerConfigParam}
use hyper_leaf.Program.SetHarvestOtherDest
use hyper_leaf.Program.SetHarvestOtherDest.{SetHarvestOtherDestParams}
use hyper_leaf.Program.HarvestOther
use hyper_leaf.Program.HarvestOther.{HarvestOther}
use hyper_leaf.Program.Entry.{Instruction, execute}
use hyper_leaf.Program.Entry.Panics.Sent.{lock-Calm}
use hyper_leaf.Program.Entry.Panics.Received.{lz_receive-Calm}
use hyper_leaf.Program.Entry.Panics.Others.{
  harvest_rate-Calm, halt-Calm, set_peer-Calm, set_dest-Calm, side_harvest-Calm,
}

module _ (rt : Runtime) where
  -- What an instruction brings: a deposit fits with the books and the shares, an inbound message
  -- has the accounts for its clearing, and a side account holds a u64.
  abbrev pub Room : Instruction → World rt → Type 0
  Room (Instruction.lock accounts params) w =
      (w.store.escrow_atoms + params.atoms < u128_size)
      × (w.store.total_shares + params.atoms * w.store.total_shares < u128_size)
  Room (Instruction.lz_receive accounts params) w = rt.clear_min_accounts ≤ accounts.remaining
  Room (Instruction.harvest_other accounts mint) w = amount rt w.tokens accounts.side_ata < u64_size
  Room (Instruction.harvest_rate _) w = Unit
  Room (Instruction.halt _) w = Unit
  Room (Instruction.set_peer_config _ _ _ _) w = Unit
  Room (Instruction.set_harvest_other_dest _ _ _) w = Unit

-- No instruction panics: from a valid lockbox whose atoms in the two accounts fit a u128
-- together, each entry point on an existing store ends with a result or an error. It is assumed
-- that a deposit fits a u128 with the atoms of the escrow, that its product with the shares, and
-- the shares once more, do; that an inbound message comes with as many accounts as the clearing
-- takes; and that the side account holds a u64.
pub execute-Calm :
    (rt : Runtime) (to_string : Pubkey → String) (ix : Instruction) (w : World rt)
    → IsValid (lockbox w.store)
    → Fits (lockbox w.store)
    → Room rt ix w
    → Calm (execute rt to_string ix w)
unfolding execute
execute-Calm rt to_string (Instruction.lock accounts params) w valid fits room =
    lock-Calm rt accounts params w valid fits room.0 room.1
execute-Calm rt to_string (Instruction.lz_receive accounts params) w valid fits room =
    lz_receive-Calm rt accounts params w valid fits room
execute-Calm rt to_string (Instruction.harvest_other accounts mint) w valid fits room =
    side_harvest-Calm rt to_string accounts mint w room
execute-Calm rt to_string (Instruction.harvest_rate accounts) w valid fits room =
    harvest_rate-Calm rt accounts w valid fits
execute-Calm rt to_string (Instruction.halt admin) w valid fits room = halt-Calm rt admin w
execute-Calm rt to_string (Instruction.set_peer_config admin bump eid config) w valid fits room =
    set_peer-Calm rt admin bump eid config w
execute-Calm rt to_string (Instruction.set_harvest_other_dest admin bump params) w valid fits room =
    set_dest-Calm rt admin bump params w
