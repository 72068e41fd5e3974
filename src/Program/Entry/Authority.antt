-- ===== src/Program/Entry/Authority.antt =====
-- Who may change what: the signers of the admin's instructions.
use hyper_leaf.Common.{◌≡◌, ◌≢◌, refl, sym, ap, subst, ◌∙◌, String, List, [], ◌∷◌, All}
use hyper_leaf.Bytes.{eq_bytes, eq_bytes→eq}
use hyper_leaf.Lockbox.{Lockbox}
use hyper_leaf.Lockbox.Harvest.{harvest_rate-Settled}
use hyper_leaf.Lockbox.Lock.{lock-Locked}
use hyper_leaf.Lockbox.Unlock.{unlock-Unlocked}
use hyper_leaf.Lockbox.Vault.Calls.{Call}
use hyper_leaf.Program.State.{Pubkey, Store, lockbox, apply_lockbox}
use hyper_leaf.Program.Runtime.{Runtime}
use hyper_leaf.Program.Errors.{done, unauthorized, require-eq-done}
use hyper_leaf.Program.World.{World, KeepsRoutes}
use hyper_leaf.Program.Halt
use hyper_leaf.Program.SetPeerConfig
use hyper_leaf.Program.SetHarvestOtherDest
use hyper_leaf.Program.HarvestOther.Split.{handle_side_keeps}
use hyper_leaf.Program.Entry.{Instruction, execute, committed, transact}
use hyper_leaf.Program.Entry.Effect.{
  Effect, Asks, IsSilent, to_lock, to_redeem, to_harvest, to_halt, peer_config, side_harvest,
  side_dest, locked, received, harvested, stopped, configured,
}
use hyper_leaf.Program.Entry.Effect.Executed.{transaction_outcomes}

-- An instruction that the admin did not sign, where it asks for the admin's signature.
abbrev pub IsForeign : Pubkey → Instruction → Type 0
IsForeign admin (Instruction.halt signer) = signer ≢ admin
IsForeign admin (Instruction.set_peer_config signer _ _ _) = signer ≢ admin
IsForeign admin (Instruction.set_harvest_other_dest signer _ _) = signer ≢ admin
IsForeign admin (Instruction.lock _ _) = Unit
IsForeign admin (Instruction.lz_receive _ _) = Unit
IsForeign admin (Instruction.harvest_rate _) = Unit
IsForeign admin (Instruction.harvest_other _ _) = Unit

-- What is the admin's to change.
pub record Governed (rt : Runtime) (w w' : World rt) : Type 0 where
  pub admin : w'.store.admin ≡ w.store.admin
  pub halted : w'.store.halted ≡ w.store.halted
  pub dest_peer : w'.store.dest_peer ≡ w.store.dest_peer
  pub routes : KeepsRoutes rt w w'

Governed-refl : (rt : Runtime) (w : World rt) → Governed rt w w
Governed-refl rt w = record { admin = refl; halted = refl; dest_peer = refl; routes = (refl, refl) }

Governed-trans :
    (rt : Runtime) (w m w' : World rt) → Governed rt w m → Governed rt m w' → Governed rt w w'
Governed-trans rt w m w' k k' = record {
  admin = k'.admin ∙ k.admin;
  halted = k'.halted ∙ k.halted;
  dest_peer = k'.dest_peer ∙ k.dest_peer;
  routes = (k'.routes.0 ∙ k.routes.0, k'.routes.1 ∙ k.routes.1);
}

-- Counters that are written back leave the rest of the store.
written_back :
    (rt : Runtime) (w w' : World rt) (box : Lockbox)
    → w'.store ≡ apply_lockbox box w.store
    → box.halted ≡ w.store.halted
    → KeepsRoutes rt w w'
    → Governed rt w w'
unfolding apply_lockbox
written_back rt w w' box after same routes = record {
  admin = ap (λ (x : Store). x.admin) after;
  halted = ap (λ (x : Store). x.halted) after ∙ same;
  dest_peer = ap (λ (x : Store). x.dest_peer) after;
  routes = routes;
}

Asks-halt :
    (ix : Instruction) (c : Call)
    → Asks ix c
    → c ≡ Call.halt
    → (s : Pubkey) × (ix ≡ Instruction.halt s)
Asks-halt ix c (to_lock _) e = cc
Asks-halt ix c (to_redeem _ _ _ _) e = cc
Asks-halt ix c (to_harvest _) e = cc
Asks-halt ix c (to_halt {admin = s}) e = (s, refl)

module _ (rt : Runtime) (to_string : Pubkey → String) where
  halt_signed :
      (ix : Instruction) (signer : Pubkey) (w w' : World rt)
      → ix ≡ Instruction.halt signer
      → execute rt to_string ix w ≡ done w'
      → IsForeign w.store.admin ix
      → Governed rt w w'
  unfolding execute Halt.handle
  halt_signed ix signer w w' same ran foreign =
      let h = subst (λ x. execute rt to_string x w ≡ done w') same ran in
      let (by, _) = require-eq-done (eq_bytes signer w.store.admin) unauthorized _ h in
      let other : signer ≢ w.store.admin = subst (IsForeign w.store.admin) same foreign in
      absurd (other (eq_bytes→eq signer w.store.admin by))

  silent-Governed :
      (ix : Instruction) (w w' : World rt)
      → IsSilent ix
      → execute rt to_string ix w ≡ done w'
      → IsForeign w.store.admin ix
      → Governed rt w w'
  unfolding execute SetPeerConfig.handle SetHarvestOtherDest.handle
  silent-Governed ix w w' (peer_config {admin = s}) ran foreign =
      let (by, _) = require-eq-done (eq_bytes s w.store.admin) unauthorized _ ran in
      absurd (foreign (eq_bytes→eq s w.store.admin by))
  silent-Governed ix w w' (side_dest {admin = s}) ran foreign =
      let (by, _) = require-eq-done (eq_bytes s w.store.admin) unauthorized _ ran in
      absurd (foreign (eq_bytes→eq s w.store.admin by))
  silent-Governed ix w w' (side_harvest {accounts = accounts} {mint = mint}) ran foreign =
      let (same, _, routes) = handle_side_keeps rt to_string accounts mint w w' ran in
      record {
        admin = ap (λ (x : Store). x.admin) same;
        halted = ap (λ (x : Store). x.halted) same;
        dest_peer = ap (λ (x : Store). x.dest_peer) same;
        routes = routes;
      }

  Effect-Governed :
      (ix : Instruction) (w w' : World rt)
      → execute rt to_string ix w ≡ done w'
      → IsForeign w.store.admin ix
      → Effect rt ix w w'
      → Governed rt w w'
  unfolding lockbox
  Effect-Governed ix w w' ran foreign
        (locked atoms l s shares fee box _ _ booked after _ _ _ _ routes) =
      let k = lock-Locked atoms l s (lockbox w.store) shares fee box booked in
      written_back rt w w' box after (k.minted.halted ∙ k.settled.halted) routes
  Effect-Governed ix w w' ran foreign
        (received shares l s atoms fee box _ _ _ booked after _ _ _ routes) =
      let k = unlock-Unlocked shares l s (lockbox w.store) atoms fee box booked in
      written_back rt w w' box after (k.redeemed.halted ∙ k.settled.halted) routes
  Effect-Governed ix w w' ran foreign (harvested l s fee box booked after _ _ routes) =
      let k = harvest_rate-Settled l s (lockbox w.store) fee box booked in
      written_back rt w w' box after k.halted routes
  Effect-Governed ix w w' ran foreign (stopped box _ _ _ asks _) =
      let (signer, same) = Asks-halt ix Call.halt asks refl in
      halt_signed ix signer w w' same ran foreign
  Effect-Governed ix w w' ran foreign (configured _ _ _ silent) =
      silent-Governed ix w w' silent ran foreign

-- Only the admin governs: over any transactions in which the admin of the store signs no halt, no
-- configuration of a peer and no registration of a side destination, whoever else does, the
-- admin, the halt flag, the store's peer, the configured peers and the registered destinations
-- are at the end what they were at the start.
pub transact-Governed :
    (rt : Runtime) (to_string : Pubkey → String) (instructions : List Instruction) (w : World rt)
    → All (IsForeign w.store.admin) instructions
    → Governed rt w (transact rt to_string instructions w)
unfolding transact
transact-Governed rt to_string [] w foreign = Governed-refl rt w
transact-Governed rt to_string (ix ∷ rest) w (foreign, others) =
    let m = committed w (execute rt to_string ix w) in
    let first =
      transaction_outcomes rt to_string ix w (Governed rt w) (λ _. Governed-refl rt w)
        (λ x ran effect. Effect-Governed rt to_string ix w x ran foreign effect) in
    Governed-trans rt w m (transact rt to_string rest m) first (
      transact-Governed rt to_string rest m
        (subst (λ a. All (IsForeign a) rest) (sym first.admin) others))
