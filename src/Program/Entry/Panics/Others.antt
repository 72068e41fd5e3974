-- ===== src/Program/Entry/Panics/Others.antt =====
-- The panics that the harvests and the admin's instructions could meet.
use hyper_leaf.Common.{ℕ, ◌<◌, arith, String, not, ◌&&◌, ◌==◌, ltb}
use hyper_leaf.Bytes.{eq_bytes, zeros}
use hyper_leaf.Outcome.{u64_size}
use hyper_leaf.Ix
use hyper_leaf.Ix.{require_solana_peer, require_evm_peer}
use hyper_leaf.Lockbox as Box
use hyper_leaf.Lockbox.{Lockbox}
use hyper_leaf.Lockbox.Invariant.{IsValid}
use hyper_leaf.Lockbox.Outcomes.{Fits, harvest_rate_outcome}
use hyper_leaf.Program.State.{Pubkey, SideDest, PeerConfig, lockbox}
use hyper_leaf.Program.Runtime.{Runtime}
use hyper_leaf.Program.Pool.{jito_mint_pubkey, read_jito_rate}
use hyper_leaf.Program.Calm.{
  Calm, >>=-Calm, require-Calm, answered-Calm, outcome-Calm, read_jito_rate-Calm, evm_peer-Calm,
  side_amount-Calm, transfer_fee-Calm, done-Calm, side_mint-Calm,
}
use hyper_leaf.Program.Errors.{answered, from_result}
use hyper_leaf.Program.World.{World, run_box, outcome, transfer_fee}
use hyper_leaf.Program.World.Moves.{amount}
use hyper_leaf.Program.HarvestRate
use hyper_leaf.Program.HarvestRate.{HarvestRate}
use hyper_leaf.Program.Halt
use hyper_leaf.Program.SetPeerConfig
use hyper_leaf.Program.SetPeerConfig.{PeerConfigParam}
use hyper_leaf.Program.SetHarvestOtherDest
use hyper_leaf.Program.SetHarvestOtherDest.{SetHarvestOtherDestParams}
use hyper_leaf.Program.HarvestOther
use hyper_leaf.Program.HarvestOther.{HarvestOther}

module _ (rt : Runtime) where
  pub harvest_rate-Calm :
      (accounts : HarvestRate) (w : World rt)
      → IsValid (lockbox w.store)
      → Fits (lockbox w.store)
      → Calm (HarvestRate.handle rt accounts w)
  unfolding HarvestRate.handle HarvestRate.apply run_box
  harvest_rate-Calm accounts w valid fits =
      require-Calm (eq_bytes accounts.escrow_ata w.store.escrow_ata) _ _ λ _.
        require-Calm (eq_bytes accounts.harvest_ata w.store.harvest_ata) _ _ λ _.
          >>=-Calm (read_jito_rate accounts.jito_pool) _ (read_jito_rate-Calm accounts.jito_pool)
            λ (l, s) _.
              >>=-Calm (outcome (Box.harvest_rate l s (lockbox w.store))) _
                (outcome-Calm _ (Box.harvest_rate l s (lockbox w.store))
                  (harvest_rate_outcome l s (lockbox w.store) valid fits))
                λ (fee, box) _.
                  >>=-Calm (transfer_fee rt w.tokens accounts.escrow_ata accounts.harvest_ata fee) _
                    (transfer_fee-Calm rt w.tokens accounts.escrow_ata accounts.harvest_ata fee)
                    λ _ _. done-Calm _

  pub halt-Calm : (admin : Pubkey) (w : World rt) → Calm (Halt.handle rt admin w)
  unfolding Halt.handle run_box Box.halt outcome
  halt-Calm admin w = require-Calm (eq_bytes admin w.store.admin) _ _ λ _. done-Calm _

  configure-Calm :
      (config : PeerConfigParam) (peer : PeerConfig) (w : World rt)
      → Calm (SetPeerConfig.configure rt config peer w)
  unfolding SetPeerConfig.configure
  configure-Calm (PeerConfigParam.peer_address address) peer w =
      >>=-Calm (from_result (require_evm_peer address)) _ (evm_peer-Calm address) λ _ _.
        require-Calm
          (not (
            not (eq_bytes w.store.dest_peer (zeros 32))
            && not (eq_bytes w.store.dest_peer address)))
          _ _ λ _. done-Calm _
  configure-Calm (PeerConfigParam.enforced_options send send_and_call) peer w =
      >>=-Calm (answered (rt.assert_type_3 send)) _ (answered-Calm (rt.assert_type_3 send)) λ _ _.
        >>=-Calm (answered (rt.assert_type_3 send_and_call)) _
          (answered-Calm (rt.assert_type_3 send_and_call)) λ _ _. done-Calm _

  pub set_peer-Calm :
      (admin : Pubkey) (bump eid : ℕ) (config : PeerConfigParam) (w : World rt)
      → Calm (SetPeerConfig.handle rt admin bump eid config w)
  unfolding SetPeerConfig.handle
  set_peer-Calm admin bump eid config w =
      let peer = SetPeerConfig.peer_or_blank (w.peers eid) in
      require-Calm (eq_bytes admin w.store.admin) _ _ λ _.
        require-Calm (eid == Ix.dest_eid) _ _ λ _.
          >>=-Calm (SetPeerConfig.configure rt config peer w) _ (configure-Calm config peer w)
            λ _ _. done-Calm _

  pub set_dest-Calm :
      (admin : Pubkey) (bump : ℕ) (params : SetHarvestOtherDestParams) (w : World rt)
      → Calm (SetHarvestOtherDest.handle rt admin bump params w)
  unfolding SetHarvestOtherDest.handle
  set_dest-Calm admin bump params w =
      require-Calm (eq_bytes admin w.store.admin) _ _
        λ _. require-Calm (not (eq_bytes params.mint jito_mint_pubkey)) _ _ λ _. done-Calm _

  pay-Calm : (t : rt.Tokens) (from to : Pubkey) (n : ℕ) → Calm (HarvestOther.pay rt t from to n)
  unfolding HarvestOther.pay
  pay-Calm t from to n = ground (arith, answered-Calm (rt.transfer t from to rt.store_key n))

  check_dest-Calm :
      (w : World rt) (ata mint owner : Pubkey) → Calm (HarvestOther.check_dest rt w ata mint owner)
  unfolding HarvestOther.check_dest
  check_dest-Calm w ata mint owner = ground arith

  side_apply-Calm :
      (to_string : Pubkey → String) (accounts : HarvestOther) (mint : Pubkey) (dest : SideDest)
      (w : World rt)
      → amount rt w.tokens accounts.side_ata < u64_size
      → Calm (HarvestOther.apply rt to_string accounts mint dest w)
  unfolding HarvestOther.apply
  side_apply-Calm to_string accounts mint dest w small =
      let balance = (rt.token w.tokens accounts.side_ata).amount in
      >>=-Calm (from_result (Box.harvest_other (to_string mint))) _
        (side_mint-Calm (to_string mint))
        λ _ _.
          require-Calm
            (Box.side_dest_policy_ok (rt.token w.tokens accounts.fee_ata).owner
              (rt.token w.tokens accounts.rest_ata).owner dest.fee_owner dest.rest_owner)
            _ _
            λ _.
              >>=-Calm (from_result (Box.harvest_other_amount balance)) _
                (side_amount-Calm balance (omega arith))
                λ (fee, rest) _. require-Calm (ltb fee u64_size) _ _ λ _.
                  require-Calm (ltb rest u64_size) _ _ λ _.
                    >>=-Calm (HarvestOther.pay rt w.tokens accounts.side_ata accounts.fee_ata fee) _
                      (pay-Calm w.tokens accounts.side_ata accounts.fee_ata fee)
                      λ charged _.
                        >>=-Calm
                          (HarvestOther.pay rt charged accounts.side_ata accounts.rest_ata rest) _
                          (pay-Calm charged accounts.side_ata accounts.rest_ata rest)
                          λ _ _. done-Calm _

  pub side_harvest-Calm :
      (to_string : Pubkey → String) (accounts : HarvestOther) (mint : Pubkey) (w : World rt)
      → amount rt w.tokens accounts.side_ata < u64_size
      → Calm (HarvestOther.handle rt to_string accounts mint w)
  unfolding HarvestOther.handle
  side_harvest-Calm to_string accounts mint w small =
      let side = rt.token w.tokens accounts.side_ata in
      >>=-Calm (answered (w.side_dests mint)) _ (answered-Calm (w.side_dests mint)) λ dest _.
        require-Calm (eq_bytes dest.mint mint) _ _ λ _.
          require-Calm (eq_bytes side.owner rt.store_key) _ _ λ _.
            require-Calm (eq_bytes side.mint mint) _ _ λ _.
              >>=-Calm (HarvestOther.check_dest rt w accounts.fee_ata mint dest.fee_owner) _
                (check_dest-Calm w accounts.fee_ata mint dest.fee_owner)
                λ _ _.
                  >>=-Calm (HarvestOther.check_dest rt w accounts.rest_ata mint dest.rest_owner) _
                    (check_dest-Calm w accounts.rest_ata mint dest.rest_owner)
                    λ _ _. side_apply-Calm to_string accounts mint dest w small
