-- ===== src/Program/Entry/Effect/Executed.antt =====
-- Each instruction that goes through has one of the effects.
use hyper_leaf.Common.{ℕ, ◌≡◌, refl, sym, ap, subst, not, String, ◌≢◌}
use hyper_leaf.Bytes.{eq_bytes}
use hyper_leaf.Lockbox as Box
use hyper_leaf.Lockbox.{Lockbox}
use hyper_leaf.Program.State.{Pubkey, PeerConfig, lockbox}
use hyper_leaf.Program.Runtime.{Runtime}
use hyper_leaf.Program.Pool.{jito_mint_pubkey, read_jito_rate}
use hyper_leaf.Program.Errors.{
  Reply, done, fail, aborted, refused, bad_token_account, unauthorized, harvest_inner, >>=-eq-done,
  require-eq-done, done-injective,
}
use hyper_leaf.Program.World.{World, run_box, transfer_fee}
use hyper_leaf.Program.World.Moves.{run_box-eq-done}
use hyper_leaf.Program.HarvestRate
use hyper_leaf.Program.HarvestRate.{HarvestRate}
use hyper_leaf.Program.Halt
use hyper_leaf.Program.SetPeerConfig.Frozen.{Configured, address_set, options_set, handle-SetPeer}
use hyper_leaf.Program.SetHarvestOtherDest
use hyper_leaf.Program.SetHarvestOtherDest.{SetHarvestOtherDestParams}
use hyper_leaf.Program.HarvestOther.Split.{handle_side_keeps}
use hyper_leaf.Program.Entry.{Instruction, execute, committed}
use hyper_leaf.Program.Entry.Kept.{Kept, set_peer-Kept}
use hyper_leaf.Program.Entry.Effect.{
  Effect, IsSilent, to_harvest, to_halt, peer_config, side_harvest, side_dest, harvested, stopped,
  configured, same-Effect,
}
use hyper_leaf.Program.Entry.Effect.Crossing.{lock-Effect, lz_receive-Effect}

harvest_rate-Effect :
    (rt : Runtime) (accounts : HarvestRate) (w w' : World rt)
    → HarvestRate.handle rt accounts w ≡ done w'
    → Effect rt (Instruction.harvest_rate accounts) w w'
unfolding HarvestRate.handle HarvestRate.apply
harvest_rate-Effect rt accounts w w' h =
    let (_, h1) =
      require-eq-done (eq_bytes accounts.escrow_ata w.store.escrow_ata) bad_token_account _ h in
    let (_, h2) =
      require-eq-done (eq_bytes accounts.harvest_ata w.store.harvest_ata) bad_token_account _ h1 in
    let ((l, s), read, h3) = >>=-eq-done (read_jito_rate accounts.jito_pool) _ h2 in
    let ((fee, box), ran, h4) = >>=-eq-done (run_box (Box.harvest_rate l s) w.store) _ h3 in
    let (_, _, h5) =
      >>=-eq-done (transfer_fee rt w.tokens accounts.escrow_ata accounts.harvest_ata fee) _ h4 in
    let result = sym (done-injective h5) in
    harvested l s fee box (run_box-eq-done (Box.harvest_rate l s) w.store ran)
      (ap (λ (x : World rt). x.store) result) (ap (λ (x : World rt). x.endpoint) result)
      (to_harvest read)
      (ap (λ (x : World rt). x.peers) result, ap (λ (x : World rt). x.side_dests) result)

halt-Effect :
    (rt : Runtime) (admin : Pubkey) (w w' : World rt)
    → Halt.handle rt admin w ≡ done w'
    → Effect rt (Instruction.halt admin) w w'
unfolding Halt.handle
halt-Effect rt admin w w' h =
    let (_, h1) = require-eq-done (eq_bytes admin w.store.admin) unauthorized _ h in
    let ((_, box), ran, h2) = >>=-eq-done (run_box Box.halt w.store) _ h1 in
    let result = sym (done-injective h2) in
    stopped box (run_box-eq-done Box.halt w.store ran) (ap (λ (x : World rt). x.store) result)
      (ap (λ (x : World rt). x.endpoint) result) to_halt
      (ap (λ (x : World rt). x.peers) result, ap (λ (x : World rt). x.side_dests) result)

-- A peer that is configured.
Configured-Effect :
    (rt : Runtime) (ix : Instruction) (w w' : World rt) {peer peer' : PeerConfig}
    → Configured w.store w'.store peer peer'
    → w'.endpoint ≡ w.endpoint
    → IsSilent ix
    → Effect rt ix w w'
unfolding lockbox
Configured-Effect rt ix w w' (address_set address _ free same _) quiet silent =
    configured (ap lockbox same)
      (subst (Kept w.store) (sym same) (set_peer-Kept w.store address free)) quiet silent
Configured-Effect rt ix w w' (options_set same _) quiet silent =
    same-Effect rt ix w w' same quiet silent

set_harvest_other_dest-Effect :
    (rt : Runtime) (admin : Pubkey) (bump : ℕ) (params : SetHarvestOtherDestParams)
    (w w' : World rt)
    → SetHarvestOtherDest.handle rt admin bump params w ≡ done w'
    → Effect rt (Instruction.set_harvest_other_dest admin bump params) w w'
unfolding SetHarvestOtherDest.handle
set_harvest_other_dest-Effect rt admin bump params w w' h =
    let (_, h1) = require-eq-done (eq_bytes admin w.store.admin) unauthorized _ h in
    let (_, h2) =
      require-eq-done (not (eq_bytes params.mint jito_mint_pubkey)) harvest_inner _ h1 in
    let result = sym (done-injective h2) in
    same-Effect rt (Instruction.set_harvest_other_dest admin bump params) w w'
      (ap (λ (x : World rt). x.store) result) (ap (λ (x : World rt). x.endpoint) result) side_dest

execute-Effect :
    (rt : Runtime) (to_string : Pubkey → String) (ix : Instruction) (w w' : World rt)
    → execute rt to_string ix w ≡ done w'
    → Effect rt ix w w'
unfolding execute
execute-Effect rt to_string (Instruction.set_peer_config admin bump eid config) w w' h =
    let k = handle-SetPeer rt admin bump eid config w w' h in
    Configured-Effect rt (Instruction.set_peer_config admin bump eid config) w w' k.configured
      k.endpoint_kept peer_config
execute-Effect rt to_string (Instruction.halt admin) w w' h = halt-Effect rt admin w w' h
execute-Effect rt to_string (Instruction.harvest_rate accounts) w w' h =
    harvest_rate-Effect rt accounts w w' h
execute-Effect rt to_string (Instruction.harvest_other accounts mint) w w' h =
    same-Effect rt (Instruction.harvest_other accounts mint) w w'
      (handle_side_keeps rt to_string accounts mint w w' h).0
      (handle_side_keeps rt to_string accounts mint w w' h).1 side_harvest
execute-Effect rt to_string (Instruction.set_harvest_other_dest admin bump params) w w' h =
    set_harvest_other_dest-Effect rt admin bump params w w' h
execute-Effect rt to_string (Instruction.lock accounts params) w w' h =
    lock-Effect rt accounts params w w' h
execute-Effect rt to_string (Instruction.lz_receive accounts params) w w' h =
    lz_receive-Effect rt accounts params w w' h

pub committed_outcomes :
    {A : Type 0} (a : A) (r : Reply A) (P : A → Type 0)
    → (((a' : A) → r ≢ done a') → P a)
    → ((a' : A) → r ≡ done a' → P a')
    → P (committed a r)
unfolding committed
committed_outcomes a (done a') P undone carried = carried a' refl
committed_outcomes a (fail _) P undone carried = undone (λ a' e. cc)
committed_outcomes a refused P undone carried = undone (λ a' e. cc)
committed_outcomes a aborted P undone carried = undone (λ a' e. cc)

-- What a transaction of one instruction leaves: the state as it was when the instruction does not
-- go through, and otherwise one with an effect.
pub transaction_outcomes :
    (rt : Runtime) (to_string : Pubkey → String) (ix : Instruction) (w : World rt)
    (P : World rt → Type 0)
    → (((w' : World rt) → execute rt to_string ix w ≢ done w') → P w)
    → ((w' : World rt) → execute rt to_string ix w ≡ done w' → Effect rt ix w w' → P w')
    → P (committed w (execute rt to_string ix w))
transaction_outcomes rt to_string ix w P undone carried =
    committed_outcomes w (execute rt to_string ix w) P undone
      (λ w' ran. carried w' ran (execute-Effect rt to_string ix w w' ran))

pub transaction_cases :
    (rt : Runtime) (to_string : Pubkey → String) (ix : Instruction) (w : World rt)
    (P : World rt → Type 0)
    → P w
    → ((w' : World rt) → Effect rt ix w w' → P w')
    → P (committed w (execute rt to_string ix w))
transaction_cases rt to_string ix w P undone carried =
    transaction_outcomes rt to_string ix w P (λ _. undone) (λ w' ran. carried w')
