-- ===== src/Program/Entry/Panics/Received.antt =====
-- The panics that an inbound message could meet (instructions/lz_receive.rs).
use hyper_leaf.Common.{ℕ, ◌≤◌, subst, sym, arith, ◌-◌, ◌==◌, if◌then◌else◌}
use hyper_leaf.Bytes.{Bytes, eq_bytes}
use hyper_leaf.Rate.{listing_tag}
use hyper_leaf.Ix
use hyper_leaf.Ix.{require_solana_peer, require_evm_peer}
use hyper_leaf.Lockbox as Box
use hyper_leaf.Lockbox.{Lockbox}
use hyper_leaf.Lockbox.Invariant.{IsValid}
use hyper_leaf.Lockbox.Outcomes.{Fits, FailsWith, unlock_outcome}
use hyper_leaf.Program.State.{lockbox}
use hyper_leaf.Program.Runtime.{Runtime}
use hyper_leaf.Program.Pool.{jito_mint_pubkey, read_jito_rate, require_token_account}
use hyper_leaf.Program.MsgCodec
use hyper_leaf.Program.Calm.{
  Calm, >>=-Calm, require-Calm, answered-Calm, outcome-Calm, read_jito_rate-Calm,
  require_token_account-Calm, decode-Calm, solana_peer-Calm, transfer_u64-Calm, transfer_fee-Calm,
  create_ata-Calm, done-Calm, program_check-Calm,
}
use hyper_leaf.Program.Errors.{done, refused, answered, from_result}
use hyper_leaf.Program.World.{
  World, run_box, outcome, transfer_u64, transfer_fee, create_ata_idempotent,
}
use hyper_leaf.Program.LzReceive
use hyper_leaf.Program.LzReceive.{LzReceive, LzReceiveParams}
use hyper_leaf.Program.LzReceive.Admitted.{accept-Accepted}
use hyper_leaf.Program.Calm.{Any, weaken}

receipt_ends :
    (tag : Bytes) (shares l s : ℕ) (b : Lockbox)
    → FailsWith Any (Box.unlock shares l s b).0
    → FailsWith Any (Box.lz_receive tag listing_tag shares l s b).0
unfolding Box.lz_receive
receipt_ends tag shares l s b h = ground arith

module _ (rt : Runtime) where
  recipient_account-Calm :
      (accounts : LzReceive) (to : Bytes) (t : rt.Tokens)
      → Calm (LzReceive.recipient_account rt accounts to t)
  unfolding LzReceive.recipient_account
  recipient_account-Calm accounts to t = require-Calm (eq_bytes accounts.recipient to) _ _ λ _.
      require-Calm (eq_bytes accounts.recipient_ata (rt.find_ata to jito_mint_pubkey)) _ _ λ _.
        >>=-Calm
          (create_ata_idempotent rt t accounts.recipient_ata accounts.recipient accounts.jito_mint
            accounts.associated_token_program)
          _
          (create_ata-Calm rt t accounts.recipient_ata accounts.recipient accounts.jito_mint
            accounts.associated_token_program)
          λ created _.
            >>=-Calm
              (require_token_account rt.token_program_id (rt.info created accounts.recipient_ata)
                jito_mint_pubkey to)
              _
              (require_token_account-Calm rt.token_program_id
                (rt.info created accounts.recipient_ata) jito_mint_pubkey to)
              λ _ _. done-Calm _

  clear_message-Calm :
      (accounts : LzReceive) (params : LzReceiveParams) (w : World rt)
      → rt.clear_min_accounts ≤ accounts.remaining
      → Calm (LzReceive.clear_message rt accounts params w)
  unfolding LzReceive.clear_message
  clear_message-Calm accounts params w enough = ground (arith, answered-Calm {A = rt.Endpoint})

  accept-Calm :
      (accounts : LzReceive) (params : LzReceiveParams) (w : World rt)
      → rt.clear_min_accounts ≤ accounts.remaining
      → Calm (LzReceive.accept rt accounts params w)
  unfolding LzReceive.accept
  accept-Calm accounts params w enough = require-Calm (params.src_eid == Ix.dest_eid) _ _ λ _.
      >>=-Calm (LzReceive.clear_message rt accounts params w) _
        (clear_message-Calm accounts params w enough)
        λ _ _.
          >>=-Calm (MsgCodec.decode params.message) _ (decode-Calm params.message)
            λ (tag, to, shares) _.
              >>=-Calm (from_result (require_solana_peer to)) _ (solana_peer-Calm to) λ _ _.
                >>=-Calm (LzReceive.recipient_account rt accounts to w.tokens) _
                  (recipient_account-Calm accounts to w.tokens) λ _ _. done-Calm _

  payout-Calm :
      (accounts : LzReceive) (tag : Bytes) (shares : ℕ) (w : World rt)
      → IsValid (lockbox w.store)
      → Fits (lockbox w.store)
      → Calm (LzReceive.payout rt accounts tag shares w)
  unfolding LzReceive.payout run_box
  payout-Calm accounts tag shares w valid fits =
      let receive = Box.lz_receive tag listing_tag shares in
      >>=-Calm (read_jito_rate accounts.jito_pool) _ (read_jito_rate-Calm accounts.jito_pool)
        λ (l, s) _.
          >>=-Calm (outcome (receive l s (lockbox w.store))) _
            (outcome-Calm Any (receive l s (lockbox w.store)) (
              receipt_ends tag shares l s (lockbox w.store)
                (weaken _ _ (unlock_outcome shares l s (lockbox w.store) valid fits))))
            λ ((atoms, _), box) _.
              >>=-Calm
                (transfer_fee rt w.tokens accounts.escrow_ata accounts.harvest_ata
                  (box.harvest_atoms - w.store.harvest_atoms))
                _
                (transfer_fee-Calm rt w.tokens accounts.escrow_ata accounts.harvest_ata
                  (box.harvest_atoms - w.store.harvest_atoms))
                λ charged _.
                  >>=-Calm
                    (transfer_u64 rt charged accounts.escrow_ata accounts.recipient_ata rt.store_key
                      atoms)
                    _
                    (transfer_u64-Calm rt charged accounts.escrow_ata accounts.recipient_ata
                      rt.store_key atoms)
                    λ _ _. done-Calm _

  pub lz_receive-Calm :
      (accounts : LzReceive) (params : LzReceiveParams) (w : World rt)
      → IsValid (lockbox w.store)
      → Fits (lockbox w.store)
      → rt.clear_min_accounts ≤ accounts.remaining
      → Calm (LzReceive.handle rt accounts params w)
  unfolding LzReceive.handle LzReceive.apply
  lz_receive-Calm accounts params w valid fits enough =
      let program = eq_bytes accounts.associated_token_program rt.associated_token_program_id in
      >>=-Calm (answered (w.peers params.src_eid)) _ (answered-Calm (w.peers params.src_eid))
        λ peer _. require-Calm (eq_bytes params.sender peer.peer_address) _ _ λ _.
          require-Calm (eq_bytes accounts.escrow_ata w.store.escrow_ata) _ _ λ _.
            require-Calm (eq_bytes accounts.harvest_ata w.store.harvest_ata) _ _ λ _.
              require-Calm (eq_bytes accounts.jito_mint jito_mint_pubkey) _ _ λ _.
                >>=-Calm (if program then done tt else refused) _ (program_check-Calm program)
                  λ _ _.
                    >>=-Calm (LzReceive.accept rt accounts params w) _
                      (accept-Calm accounts params w enough)
                      λ (tag, shares, m) accepted.
                        let kept =
                          (accept-Accepted rt accounts params w tag shares m accepted).store_kept in
                        payout-Calm accounts tag shares m
                          (subst (λ x. IsValid (lockbox x)) (sym kept) valid)
                          (subst (λ x. Fits (lockbox x)) (sym kept) fits)
