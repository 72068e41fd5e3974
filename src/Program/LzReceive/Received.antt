-- ===== src/Program/LzReceive/Received.antt =====
-- A whole inbound instruction, with the constraints on its accounts.
use hyper_leaf.Common.{
  ℕ, ◌≡◌, ◌≢◌, refl, sym, ap, subst, ◌∙◌, arith, some, if◌then◌else◌, Bool, true, false,
}
use hyper_leaf.Bytes.{Bytes, eq_bytes, eq_bytes→eq}
use hyper_leaf.Rate.{listing_tag}
use hyper_leaf.Lockbox.Trace.{lz_receive-unlock}
use hyper_leaf.Lockbox.Unlock.{unlock-Unlocked}
use hyper_leaf.Lockbox.Invariant.{IsValid, unlock-IsValid}
use hyper_leaf.Program.State.{Store, PeerConfig, lockbox}
use hyper_leaf.Program.Runtime.{Runtime}
use hyper_leaf.Program.Pool.{jito_mint_pubkey}
use hyper_leaf.Program.Errors.{
  Reply, done, refused, bad_mint, bad_peer, bad_token_account, answered, >>=-eq-done,
  require-eq-done,
}
use hyper_leaf.Program.World.{World}
use hyper_leaf.Program.World.Moves.{amount, answered-eq-done}
use hyper_leaf.Program.World.Solvent.{Solvent}
use hyper_leaf.Program.LzReceive.{LzReceive, LzReceiveParams, accept, apply, handle}
use hyper_leaf.Program.LzReceive.Admitted.{Accepted, accept-Accepted}
use hyper_leaf.Program.LzReceive.PaidOut.{PaidOut, payout-PaidOut}

-- An inbound instruction that goes through was sent by the configured peer, was accepted, and
-- paid out.
pub record Delivered (rt : Runtime) (accounts : LzReceive) (params : LzReceiveParams)
    (w w' : World rt) : Type 0 where
  pub peer : PeerConfig
  pub found : w.peers params.src_eid ≡ some peer
  pub sender : params.sender ≡ peer.peer_address
  pub escrow_ata : accounts.escrow_ata ≡ w.store.escrow_ata
  pub harvest_ata : accounts.harvest_ata ≡ w.store.harvest_ata
  pub jito_mint : accounts.jito_mint ≡ jito_mint_pubkey
  pub ata_program : accounts.associated_token_program ≡ rt.associated_token_program_id
  pub tag : Bytes
  pub shares : ℕ
  pub middle : World rt
  pub accepted : Accepted rt accounts params w tag shares middle
  pub paid_out : PaidOut rt accounts tag shares middle w'

-- A test that had to hold for an instruction to go on.
passed :
    (t : Bool) → ◌≡◌ {A = Reply (Unit {0})} (if t then done tt else refused) (done tt) → t ≡ true
passed true h = refl
passed false h = cc

-- An inbound instruction that goes through came from the configured peer at the one destination
-- and was cleared by the endpoint; its message decodes to a tag, a recipient that is a Solana key
-- and shares; the recipient's account is its associated one; the shares were redeemed at the rate
-- read from the pool; and the booked fee moved from the escrow to the harvest account and the
-- atoms from the escrow to the recipient, with no other balance changed. It is assumed that the
-- recipient's and the harvest account are not the escrow account.
pub handle-Delivered :
    (rt : Runtime) (accounts : LzReceive) (params : LzReceiveParams) (w w' : World rt)
    → accounts.recipient_ata ≢ w.store.escrow_ata
    → w.store.escrow_ata ≢ w.store.harvest_ata
    → handle rt accounts params w ≡ done w'
    → Delivered rt accounts params w w'
unfolding handle apply
handle-Delivered rt accounts params w w' apart₁ apart₂ h =
    let (peer, found, h1) = >>=-eq-done (answered (w.peers params.src_eid)) _ h in
    let (sender_ok, h2) =
      require-eq-done (eq_bytes params.sender peer.peer_address) bad_peer _ h1 in
    let (escrow_ok, h3) =
      require-eq-done (eq_bytes accounts.escrow_ata w.store.escrow_ata) bad_token_account _ h2 in
    let (harvest_ok, h4) =
      require-eq-done (eq_bytes accounts.harvest_ata w.store.harvest_ata) bad_token_account _ h3 in
    let (mint_ok, h5) =
      require-eq-done (eq_bytes accounts.jito_mint jito_mint_pubkey) bad_mint _ h4 in
    let (_, program_ok, h6) =
      >>=-eq-done
        (if eq_bytes accounts.associated_token_program rt.associated_token_program_id
          then done tt
          else refused)
        _ h5 in
    let ((tag, shares, middle), accept_ok, h7) = >>=-eq-done (accept rt accounts params w) _ h6 in
    let escrow = eq_bytes→eq accounts.escrow_ata w.store.escrow_ata escrow_ok in
    let harvest = eq_bytes→eq accounts.harvest_ata w.store.harvest_ata harvest_ok in
    record {
      peer = peer;
      found = answered-eq-done (w.peers params.src_eid) found;
      sender = eq_bytes→eq params.sender peer.peer_address sender_ok;
      escrow_ata = escrow;
      harvest_ata = harvest;
      jito_mint = eq_bytes→eq accounts.jito_mint jito_mint_pubkey mint_ok;
      ata_program = eq_bytes→eq accounts.associated_token_program rt.associated_token_program_id (
          passed (eq_bytes accounts.associated_token_program rt.associated_token_program_id)
            program_ok);
      tag = tag;
      shares = shares;
      middle = middle;
      accepted = accept-Accepted rt accounts params w tag shares middle accept_ok;
      paid_out =
          payout-PaidOut rt accounts tag shares middle w' (λ same. apart₁ (same ∙ escrow))
            (λ same. apart₂ (sym escrow ∙ same ∙ harvest)) h7;
    }

-- An inbound instruction keeps the lockbox valid and the escrow account funded.
pub handle_lz_receive-Solvent :
    (rt : Runtime) (accounts : LzReceive) (params : LzReceiveParams) (w w' : World rt)
    → accounts.recipient_ata ≢ w.store.escrow_ata
    → w.store.escrow_ata ≢ w.store.harvest_ata
    → Solvent rt w
    → handle rt accounts params w ≡ done w'
    → Solvent rt w'
unfolding lockbox
handle_lz_receive-Solvent rt accounts params w w' apart₁ apart₂ s h =
    let k = handle-Delivered rt accounts params w w' apart₁ apart₂ h in
    let p = k.paid_out in
    let opened =
      lz_receive-unlock k.tag listing_tag k.shares p.lamports p.supply (lockbox k.middle.store)
        (p.atoms, p.fee) (lockbox w'.store) p.received in
    let box =
      unlock-Unlocked k.shares p.lamports p.supply (lockbox k.middle.store) p.atoms p.fee
        (lockbox w'.store) opened in
    let e = ap (amount rt w.tokens) k.escrow_ata in
    let created = k.accepted.ready.balances accounts.escrow_ata in
    let account =
      p.escrow_kept ∙ ap (λ (x : Store). x.escrow_ata) k.accepted.store_kept ∙ sym k.escrow_ata in
    let e' = ap (amount rt w'.tokens) account in
    let atoms' = ap (λ (x : Store). x.escrow_atoms) k.accepted.store_kept in
    record {
      valid =
          unlock-IsValid k.shares p.lamports p.supply (lockbox k.middle.store) (p.atoms, p.fee)
            (lockbox w'.store) opened
            (subst (λ x. IsValid (lockbox x)) (sym k.accepted.store_kept) s.valid);
      funded = omega (
        arith, s.funded, e, e', atoms', created, p.paid.paid, p.fee_moved.paid, box.settled.escrow,
        box.redeemed.escrow,
      );
    }
