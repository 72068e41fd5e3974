-- ===== src/Program/Entry/Panics/Sent.antt =====
-- The panics that a lock could meet (instructions/lock.rs).
use hyper_leaf.Common.{ℕ, ◌+◌, ◌*◌, ◌<◌, arith, none, ◌-◌}
use hyper_leaf.Bytes.{Bytes, eq_bytes}
use hyper_leaf.Outcome.{u128_size}
use hyper_leaf.Rate.{listing_tag}
use hyper_leaf.Ix.Payload.{lock_payload}
use hyper_leaf.Lockbox as Box
use hyper_leaf.Lockbox.{Lockbox}
use hyper_leaf.Lockbox.Invariant.{IsValid}
use hyper_leaf.Lockbox.Outcomes.{Fits, FailsWith, lock_outcome}
use hyper_leaf.Program.State.{Store, PeerConfig, lockbox}
use hyper_leaf.Program.Runtime.{Runtime, SendParams}
use hyper_leaf.Program.Pool.{jito_mint_pubkey, read_jito_rate}
use hyper_leaf.Program.Options.{combine_options}
use hyper_leaf.Program.Calm.{
  Calm, >>=-Calm, require-Calm, answered-Calm, outcome-Calm, read_jito_rate-Calm, transfer_u64-Calm,
  transfer_fee-Calm, done-Calm, combine_options-Calm,
}
use hyper_leaf.Program.Errors.{answered}
use hyper_leaf.Program.World.{World, run_box, outcome, transfer_u64, transfer_fee}
use hyper_leaf.Program.Lock
use hyper_leaf.Program.Lock.{Lock, LockParams}
use hyper_leaf.Program.Calm.{Any, weaken}

payload_ends :
    (to : Bytes) (atoms l s : ℕ) (b : Lockbox)
    → FailsWith Any (Box.lock atoms l s b).0
    → FailsWith Any (lock_payload listing_tag to atoms l s b).0
unfolding lock_payload
payload_ends to atoms l s b h = ground arith

module _ (rt : Runtime) where
  deposit-Calm :
      (accounts : Lock) (params : LockParams) (w : World rt)
      → IsValid (lockbox w.store)
      → Fits (lockbox w.store)
      → w.store.escrow_atoms + params.atoms < u128_size
      → w.store.total_shares + params.atoms * w.store.total_shares < u128_size
      → Calm (Lock.deposit rt accounts params w)
  unfolding Lock.deposit run_box lockbox
  deposit-Calm accounts params w valid fits room room' =
      let pay = lock_payload listing_tag params.evm_to params.atoms in
      >>=-Calm (read_jito_rate accounts.jito_pool) _ (read_jito_rate-Calm accounts.jito_pool)
        λ (l, s) _.
          >>=-Calm (outcome (pay l s (lockbox w.store))) _
            (outcome-Calm Any (pay l s (lockbox w.store)) (
              payload_ends params.evm_to params.atoms l s (lockbox w.store) (
                weaken _ _
                  (lock_outcome params.atoms l s (lockbox w.store) valid fits room room'))))
            λ (_, box) _.
              >>=-Calm
                (transfer_u64 rt w.tokens accounts.user_ata accounts.escrow_ata accounts.user
                  params.atoms)
                _
                (transfer_u64-Calm rt w.tokens accounts.user_ata accounts.escrow_ata accounts.user
                  params.atoms)
                λ paid _.
                  >>=-Calm
                    (transfer_fee rt paid accounts.escrow_ata accounts.harvest_ata
                      (box.harvest_atoms - w.store.harvest_atoms))
                    _
                    (transfer_fee-Calm rt paid accounts.escrow_ata accounts.harvest_ata
                      (box.harvest_atoms - w.store.harvest_atoms))
                    λ _ _. done-Calm _

  check_route-Calm :
      (params : LockParams) (store : Store) (peer : PeerConfig)
      → Calm (Lock.check_route params store peer)
  unfolding Lock.check_route
  check_route-Calm params store peer = ground arith

  dispatch-Calm :
      (params : LockParams) (peer : PeerConfig) (message : Bytes) (w : World rt)
      → Calm (Lock.dispatch rt params peer message w)
  unfolding Lock.dispatch
  dispatch-Calm params peer message w =
      >>=-Calm (combine_options rt peer.enforced_options none params.options) _
        (combine_options-Calm rt peer.enforced_options none params.options)
        λ options _.
          let sending : SendParams = record {
            dst_eid = params.dst_eid;
            receiver = peer.peer_address;
            message = message;
            options = options;
            native_fee = params.native_fee;
            lz_token_fee = params.lz_token_fee;
          } in
          >>=-Calm (answered (rt.send w.endpoint sending)) _
            (answered-Calm (rt.send w.endpoint sending)) λ _ _. done-Calm _

  pub lock-Calm :
      (accounts : Lock) (params : LockParams) (w : World rt)
      → IsValid (lockbox w.store)
      → Fits (lockbox w.store)
      → w.store.escrow_atoms + params.atoms < u128_size
      → w.store.total_shares + params.atoms * w.store.total_shares < u128_size
      → Calm (Lock.handle rt accounts params w)
  unfolding Lock.handle Lock.apply
  lock-Calm accounts params w valid fits room room' =
      let user = rt.token w.tokens accounts.user_ata in
      >>=-Calm (answered (w.peers params.dst_eid)) _ (answered-Calm (w.peers params.dst_eid))
        λ peer _. require-Calm (eq_bytes user.mint jito_mint_pubkey) _ _ λ _.
          require-Calm (eq_bytes user.owner accounts.user) _ _ λ _.
            require-Calm (eq_bytes accounts.escrow_ata w.store.escrow_ata) _ _ λ _.
              require-Calm (eq_bytes accounts.harvest_ata w.store.harvest_ata) _ _ λ _.
                >>=-Calm (Lock.check_route params w.store peer) _
                  (check_route-Calm params w.store peer)
                  λ _ _.
                    >>=-Calm (Lock.deposit rt accounts params w) _
                      (deposit-Calm accounts params w valid fits room room')
                      λ (message, w') _. dispatch-Calm params peer message w'
