-- ===== src/Program/Lock/Bridged.antt =====
-- A whole lock instruction, with the constraints on its accounts.
use hyper_leaf.Common.{
  ◌≡◌, ◌≢◌, ◌⊎◌, inl, inr, sym, ap, ap₂, subst, ◌∙◌, arith, some, ==_iff, ◌==◌, length, if-cases,
}
use hyper_leaf.Bytes.{Bytes, eq_bytes, eq_bytes→eq, zeros}
use hyper_leaf.Ix
use hyper_leaf.Lockbox.Lock.{lock-Locked}
use hyper_leaf.Lockbox.Invariant.{IsValid, lock-IsValid}
use hyper_leaf.Program.State.{Store, PeerConfig, lockbox}
use hyper_leaf.Program.Runtime.{Runtime}
use hyper_leaf.Program.Pool.{jito_mint_pubkey}
use hyper_leaf.Program.Errors.{
  done, bad_mint, bad_peer, bad_token_account, require, answered, >>=-eq-done, require-eq-done,
  require_done,
}
use hyper_leaf.Program.World.{World}
use hyper_leaf.Program.World.Moves.{amount, answered-eq-done}
use hyper_leaf.Program.World.Solvent.{Solvent}
use hyper_leaf.Program.Lock.{Lock, LockParams, check_route, deposit, apply, handle}
use hyper_leaf.Program.Lock.Sent.{Deposited, Dispatched, deposit-Deposited, dispatch-Dispatched}

-- The route that a lock may take: to the one destination, and to the frozen peer if there is one.
pub record Routed (params : LockParams) (store : Store) (peer : PeerConfig) : Type 0 where
  pub destination : params.dst_eid ≡ Ix.dest_eid
  pub frozen : (store.dest_peer ≡ zeros 32) ⊎ (peer.peer_address ≡ store.dest_peer)

check_route-Routed :
    (params : LockParams) (store : Store) (peer : PeerConfig)
    → check_route params store peer ≡ done tt
    → Routed params store peer
unfolding check_route
check_route-Routed params store peer h =
    let (there, h1) = require-eq-done (params.dst_eid == Ix.dest_eid) bad_peer _ h in
    record {
      destination = (==_iff params.dst_eid Ix.dest_eid).0 there;
      frozen =
          elim (if-cases (eq_bytes store.dest_peer (zeros 32)) (done tt)
            (require (eq_bytes peer.peer_address store.dest_peer) bad_peer) h1) [
              | inl (unset, _) ↦ inl (eq_bytes→eq store.dest_peer (zeros 32) unset)
              | inr (_, k) ↦ inr (
                  eq_bytes→eq peer.peer_address store.dest_peer
                    (require_done (eq_bytes peer.peer_address store.dest_peer) bad_peer k))
            ];
    }

-- A lock that goes through took its route, deposited, and sent the message of that deposit.
pub record Bridged (rt : Runtime) (accounts : Lock) (params : LockParams) (w w' : World rt)
    : Type 0 where
  pub peer : PeerConfig
  pub found : w.peers params.dst_eid ≡ some peer
  pub routed : Routed params w.store peer
  pub own_ata : (rt.token w.tokens accounts.user_ata).owner ≡ accounts.user
  pub jito_ata : (rt.token w.tokens accounts.user_ata).mint ≡ jito_mint_pubkey
  pub escrow_ata : accounts.escrow_ata ≡ w.store.escrow_ata
  pub harvest_ata : accounts.harvest_ata ≡ w.store.harvest_ata
  pub message : Bytes
  pub middle : World rt
  pub deposited : Deposited rt accounts params message w middle
  pub dispatched : Dispatched rt params peer message middle w'

-- A lock instruction that goes through went to the one destination, whose configured peer is the
-- frozen one if there is one; the user's account is of the user and of JitoSOL; the lockbox was
-- locked at the rate read from the pool; the atoms moved from the user to the escrow account and
-- the booked fee from there to the harvest account, and no other balance changed; and the message
-- sent to the peer decodes to the listing tag, the EVM recipient and the minted shares. It is
-- assumed that the recipient has 32 bytes and that the user's account and the harvest account are
-- not the escrow account.
pub handle-Bridged :
    (rt : Runtime) (accounts : Lock) (params : LockParams) (w w' : World rt)
    → length params.evm_to ≡ 32
    → accounts.user_ata ≢ w.store.escrow_ata
    → w.store.escrow_ata ≢ w.store.harvest_ata
    → handle rt accounts params w ≡ done w'
    → Bridged rt accounts params w w'
unfolding handle apply
handle-Bridged rt accounts params w w' wide apart₁ apart₂ h =
    let (peer, found, h1) = >>=-eq-done (answered (w.peers params.dst_eid)) _ h in
    let (mint_ok, h2) =
      require-eq-done (eq_bytes (rt.token w.tokens accounts.user_ata).mint jito_mint_pubkey)
        bad_mint _ h1 in
    let (owner_ok, h3) =
      require-eq-done (eq_bytes (rt.token w.tokens accounts.user_ata).owner accounts.user)
        bad_token_account _ h2 in
    let (escrow_ok, h4) =
      require-eq-done (eq_bytes accounts.escrow_ata w.store.escrow_ata) bad_token_account _ h3 in
    let (harvest_ok, h5) =
      require-eq-done (eq_bytes accounts.harvest_ata w.store.harvest_ata) bad_token_account _ h4 in
    let (unit, route_ok, h6) = >>=-eq-done (check_route params w.store peer) _ h5 in
    let ((message, middle), deposit_ok, h7) = >>=-eq-done (deposit rt accounts params w) _ h6 in
    let escrow = eq_bytes→eq accounts.escrow_ata w.store.escrow_ata escrow_ok in
    let harvest = eq_bytes→eq accounts.harvest_ata w.store.harvest_ata harvest_ok in
    record {
      peer = peer;
      found = answered-eq-done (w.peers params.dst_eid) found;
      routed = check_route-Routed params w.store peer route_ok;
      own_ata = eq_bytes→eq (rt.token w.tokens accounts.user_ata).owner accounts.user owner_ok;
      jito_ata = eq_bytes→eq (rt.token w.tokens accounts.user_ata).mint jito_mint_pubkey mint_ok;
      escrow_ata = escrow;
      harvest_ata = harvest;
      message = message;
      middle = middle;
      deposited =
          deposit-Deposited rt accounts params w message middle wide
            (subst (λ k. accounts.user_ata ≢ k) (sym escrow) apart₁)
            (λ same. apart₂ (sym escrow ∙ same ∙ harvest)) deposit_ok;
      dispatched = dispatch-Dispatched rt params peer message middle w' h7;
    }

-- A lock keeps the lockbox valid and the escrow account funded.
pub handle_lock-Solvent :
    (rt : Runtime) (accounts : Lock) (params : LockParams) (w w' : World rt)
    → length params.evm_to ≡ 32
    → accounts.user_ata ≢ w.store.escrow_ata
    → w.store.escrow_ata ≢ w.store.harvest_ata
    → Solvent rt w
    → handle rt accounts params w ≡ done w'
    → Solvent rt w'
unfolding lockbox
handle_lock-Solvent rt accounts params w w' wide apart₁ apart₂ s h =
    let k = handle-Bridged rt accounts params w w' wide apart₁ apart₂ h in
    let d = k.deposited in
    let box =
      lock-Locked params.atoms d.lamports d.supply (lockbox w.store) d.shares d.fee
        (lockbox k.middle.store) d.locked in
    let e = ap (amount rt w.tokens) k.escrow_ata in
    let account =
      ap (λ (x : Store). x.escrow_ata) k.dispatched.store_kept ∙ d.escrow_kept ∙ sym k.escrow_ata in
    let e' : amount rt w'.tokens w'.store.escrow_ata
        ≡ amount rt k.middle.tokens accounts.escrow_ata =
      ap₂ (amount rt) k.dispatched.tokens_kept account in
    let atoms' = ap (λ (x : Store). x.escrow_atoms) k.dispatched.store_kept in
    record {
      valid =
          subst (λ x. IsValid (lockbox x)) (sym k.dispatched.store_kept)
            (lock-IsValid params.atoms d.lamports d.supply (lockbox w.store) (d.shares, d.fee)
              (lockbox k.middle.store) d.locked s.valid);
      funded = omega (
        arith, s.funded, e, e', atoms', d.paid.got, d.fee_moved.paid, box.settled.escrow,
        box.minted.escrow,
      );
    }
