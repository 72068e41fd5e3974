-- ===== src/Program/TypesV2/Listed.antt =====
-- The listed accounts against the accounts with which lz_receive goes through.
use hyper_leaf.Common.{◌≡◌, ◌≢◌, sym, ap, true, false, List, [], ◌∷◌, ◌++◌}
use hyper_leaf.Program.State.{Pubkey}
use hyper_leaf.Program.Runtime.{Runtime, AccountMetaRef}
use hyper_leaf.Program.Pool.Sound.{read_jito_rate-RateSource}
use hyper_leaf.Program.Errors.{Reply, done, answered, ◌>>=◌}
use hyper_leaf.Program.World.{World}
use hyper_leaf.Program.LzReceive
use hyper_leaf.Program.LzReceive.{LzReceive, LzReceiveParams}
use hyper_leaf.Program.LzReceive.Received.{handle-Delivered}
use hyper_leaf.Program.TypesV2.{
  ExecutorInstruction, LzReceiveTypesV2Result, ref, account_list, handle,
}

module _ (rt : Runtime) where
  -- The accounts of an lz_receive call as they would be listed.
  abbrev pub refs_of : LzReceive → LzReceiveParams → List (AccountMetaRef rt.Locator)
  refs_of accounts params =
      record { pubkey = rt.payer_locator; is_writable = true }
      ∷ ref rt rt.store_key true
      ∷ ref rt (rt.peer_key params.src_eid) false
      ∷ ref rt accounts.jito_pool.key false
      ∷ ref rt accounts.escrow_ata true
      ∷ ref rt accounts.harvest_ata true
      ∷ ref rt accounts.recipient false
      ∷ ref rt accounts.recipient_ata true
      ∷ ref rt accounts.jito_mint false
      ∷ ref rt rt.token_program_id false
      ∷ ref rt accounts.associated_token_program false
      ∷ ref rt rt.system_program_id false
      ∷ []

  -- The answer for a list of accounts.
  abbrev pub answer_for :
      List Pubkey → List (AccountMetaRef rt.Locator) → Reply (LzReceiveTypesV2Result rt)
  answer_for remaining accounts = do
    compact ← answered (rt.compact_accounts remaining accounts)
    done (record {
      context_version = rt.execution_context_version;
      alts = remaining;
      instructions = ExecutorInstruction.lz_receive compact ∷ [];
    })

-- If an inbound message goes through with some accounts, the list that an executor is given for
-- the message in the same state has just these accounts, in the order of the instruction,
-- followed by those that the endpoint needs to clear the message. It is assumed that the
-- recipient's and the harvest account are not the escrow account.
pub handle_types-handle_lz_receive :
    (rt : Runtime) (accounts : LzReceive) (params : LzReceiveParams) (w w' : World rt)
    (remaining : List Pubkey)
    → accounts.recipient_ata ≢ w.store.escrow_ata
    → w.store.escrow_ata ≢ w.store.harvest_ata
    → LzReceive.handle rt accounts params w ≡ done w'
    → handle rt remaining params w
      ≡ answer_for rt remaining (
          refs_of rt accounts params
          ++ rt.accounts_for_clear rt.store_key params.src_eid params.sender params.nonce)
unfolding handle account_list
handle_types-handle_lz_receive rt accounts params w w' remaining apart₁ apart₂ h =
    let k = handle-Delivered rt accounts params w w' apart₁ apart₂ h in
    let p = k.paid_out in
    let pool = (read_jito_rate-RateSource accounts.jito_pool p.lamports p.supply p.rate_read).key in
    let who = k.accepted.ready.recipient in
    let which = k.accepted.ready.ata in
    let same : account_list rt w params k.accepted.to ≡ refs_of rt accounts params = λ i.
      record { pubkey = rt.payer_locator; is_writable = true }
      ∷ ref rt rt.store_key true
      ∷ ref rt (rt.peer_key params.src_eid) false
      ∷ ref rt (sym pool i) false
      ∷ ref rt (sym k.escrow_ata i) true
      ∷ ref rt (sym k.harvest_ata i) true
      ∷ ref rt (sym who i) false
      ∷ ref rt (sym which i) true
      ∷ ref rt (sym k.jito_mint i) false
      ∷ ref rt rt.token_program_id false
      ∷ ref rt (sym k.ata_program i) false
      ∷ ref rt rt.system_program_id false
      ∷ [] in
    let clear = rt.accounts_for_clear rt.store_key params.src_eid params.sender params.nonce in
    rw k.accepted.decoded
      (ap (λ (l : List (AccountMetaRef rt.Locator)). answer_for rt remaining (l ++ clear)) same)
