-- ===== src/Program/Entry/Effect.antt =====
-- What an instruction that goes through does to the store and at the endpoint, whatever accounts
-- it names.
pub mod Crossing
pub mod Executed
use hyper_leaf.Common.{
  ℕ, ◌-◌, ◌≡◌, refl, sym, ap, subst, ◌∙◌, arith, true, not, if◌then◌else◌, some, length, String,
}
use hyper_leaf.Bytes.{Bytes, eq_bytes}
use hyper_leaf.Outcome.{ok}
use hyper_leaf.Rate.{listing_tag}
use hyper_leaf.Bridge.{encode_bridge, decode_bridge}
use hyper_leaf.Ix.Payload.{lock_payload, lock_payload-lock}
use hyper_leaf.Lockbox as Box
use hyper_leaf.Lockbox.{Lockbox}
use hyper_leaf.Lockbox.Vault.Calls.{Call}
use hyper_leaf.Program.MsgCodec
use hyper_leaf.Program.SetPeerConfig.{PeerConfigParam}
use hyper_leaf.Program.HarvestOther.{HarvestOther}
use hyper_leaf.Lockbox.Trace.{lz_receive-unlock}
use hyper_leaf.Program.State.{Pubkey, Store, PeerConfig, lockbox, apply_lockbox}
use hyper_leaf.Program.Runtime.{Runtime, SendParams, ClearParams}
use hyper_leaf.Program.Pool.{jito_mint_pubkey, read_jito_rate}
use hyper_leaf.Program.Errors.{
  done, refused, bad_mint, bad_peer, bad_token_account, unauthorized, harvest_inner, answered,
  >>=-eq-done, require-eq-done, done-injective,
}
use hyper_leaf.Program.World.{KeepsRoutes, World, run_box, outcome, transfer_u64, transfer_fee}
use hyper_leaf.Program.World.Moves.{run_box-eq-done}
use hyper_leaf.Program.HarvestRate
use hyper_leaf.Program.HarvestRate.{HarvestRate}
use hyper_leaf.Program.Lock
use hyper_leaf.Program.Lock.{Lock, LockParams}
use hyper_leaf.Program.Lock.Sent.{dispatch-Dispatched}
use hyper_leaf.Program.LzReceive
use hyper_leaf.Program.LzReceive.{LzReceive, LzReceiveParams}
use hyper_leaf.Program.LzReceive.Admitted.{accept-Accepted}
use hyper_leaf.Program.Halt
use hyper_leaf.Program.SetPeerConfig.Frozen.{Configured, address_set, options_set}
use hyper_leaf.Program.SetHarvestOtherDest
use hyper_leaf.Program.SetHarvestOtherDest.{SetHarvestOtherDestParams}
use hyper_leaf.Program.Entry.{Instruction}
use hyper_leaf.Program.Entry.Kept.{Kept, Kept-refl, set_peer-Kept}

-- The arrays of an instruction have the lengths of their types.
abbrev pub IsTyped : Instruction → Type 0
IsTyped (Instruction.lock accounts params) = length params.evm_to ≡ 32
IsTyped (Instruction.lz_receive _ _) = Unit
IsTyped (Instruction.harvest_rate _) = Unit
IsTyped (Instruction.harvest_other _ _) = Unit
IsTyped (Instruction.halt _) = Unit
IsTyped (Instruction.set_peer_config _ _ _ _) = Unit
IsTyped (Instruction.set_harvest_other_dest _ _ _) = Unit

-- The call of the lockbox that an instruction makes when it goes through, at the reading of the
-- pool that it names.
pub data Asks : Instruction → Call → Type 0 where
  to_lock :
      {accounts : Lock} {params : LockParams} {l s : ℕ}
      → read_jito_rate accounts.jito_pool ≡ done (l, s)
      → Asks (Instruction.lock accounts params) (Call.lock params.atoms l s)
  to_redeem :
      {accounts : LzReceive} {params : LzReceiveParams} {shares l s : ℕ} (tag to : Bytes)
      → MsgCodec.decode params.message ≡ done (tag, to, shares)
      → read_jito_rate accounts.jito_pool ≡ done (l, s)
      → Asks (Instruction.lz_receive accounts params) (Call.unlock shares l s)
  to_harvest :
      {accounts : HarvestRate} {l s : ℕ}
      → read_jito_rate accounts.jito_pool ≡ done (l, s)
      → Asks (Instruction.harvest_rate accounts) (Call.harvest l s)
  to_halt : {admin : Pubkey} → Asks (Instruction.halt admin) Call.halt

-- The instructions that make no call.
pub data IsSilent : Instruction → Type 0 where
  peer_config :
      {admin : Pubkey} {bump eid : ℕ} {config : PeerConfigParam}
      → IsSilent (Instruction.set_peer_config admin bump eid config)
  side_harvest :
      {accounts : HarvestOther} {mint : Pubkey} → IsSilent (Instruction.harvest_other accounts mint)
  side_dest :
      {admin : Pubkey} {bump : ℕ} {params : SetHarvestOtherDestParams}
      → IsSilent (Instruction.set_harvest_other_dest admin bump params)

-- Two instructions write what a method of the lockbox left and exchange one message, two write
-- what a method left, and the others leave the counters.
pub data Effect (rt : Runtime) (ix : Instruction) (w w' : World rt) : Type 0 where
  locked :
      (atoms l s shares fee : ℕ) (box : Lockbox) (to : Bytes) (sending : SendParams)
      → Box.lock atoms l s (lockbox w.store) ≡ (ok (shares, fee), box)
      → w'.store ≡ apply_lockbox box w.store
      → rt.send w.endpoint sending ≡ some w'.endpoint
      → sending.message ≡ encode_bridge listing_tag to shares
      → (IsTyped ix → length to ≡ 32)
      → Asks ix (Call.lock atoms l s)
      → KeepsRoutes rt w w'
      → Effect rt ix w w'
  received :
      (shares l s atoms fee : ℕ) (box : Lockbox) (tag to : Bytes) (clearing : ClearParams)
      → Box.unlock shares l s (lockbox w.store) ≡ (ok (atoms, fee), box)
      → w'.store ≡ apply_lockbox box w.store
      → rt.clear w.endpoint clearing ≡ some w'.endpoint
      → decode_bridge clearing.message ≡ some (tag, to, shares)
      → Asks ix (Call.unlock shares l s)
      → KeepsRoutes rt w w'
      → Effect rt ix w w'
  harvested :
      (l s fee : ℕ) (box : Lockbox)
      → Box.harvest_rate l s (lockbox w.store) ≡ (ok fee, box)
      → w'.store ≡ apply_lockbox box w.store
      → w'.endpoint ≡ w.endpoint
      → Asks ix (Call.harvest l s)
      → KeepsRoutes rt w w'
      → Effect rt ix w w'
  stopped :
      (box : Lockbox)
      → Box.halt (lockbox w.store) ≡ (ok tt, box)
      → w'.store ≡ apply_lockbox box w.store
      → w'.endpoint ≡ w.endpoint
      → Asks ix Call.halt
      → KeepsRoutes rt w w'
      → Effect rt ix w w'
  configured :
      lockbox w'.store ≡ lockbox w.store
      → Kept w.store w'.store
      → w'.endpoint ≡ w.endpoint
      → IsSilent ix
      → Effect rt ix w w'

-- An instruction that leaves the store.
pub same-Effect :
    (rt : Runtime) (ix : Instruction) (w w' : World rt)
    → w'.store ≡ w.store
    → w'.endpoint ≡ w.endpoint
    → IsSilent ix
    → Effect rt ix w w'
same-Effect rt ix w w' same quiet silent =
    configured (ap lockbox same) (subst (Kept w.store) (sym same) (Kept-refl w.store)) quiet silent
