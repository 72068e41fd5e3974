-- ===== src/Program/Entry/Effect/Crossing.antt =====
-- A lock and an inbound message: one method of the lockbox and one message each.
use hyper_leaf.Common.{ℕ, ◌-◌, ◌≡◌, sym, ap, subst, ◌∙◌, if◌then◌else◌, some}
use hyper_leaf.Bytes.{Bytes, eq_bytes}
use hyper_leaf.Outcome.{ok}
use hyper_leaf.Rate.{listing_tag}
use hyper_leaf.Bridge.{encode_bridge}
use hyper_leaf.Ix.Payload.{lock_payload, lock_payload-lock}
use hyper_leaf.Lockbox as Box
use hyper_leaf.Lockbox.{Lockbox}
use hyper_leaf.Lockbox.Trace.{lz_receive-unlock}
use hyper_leaf.Program.State.{lockbox, apply_lockbox}
use hyper_leaf.Program.Runtime.{Runtime, SendParams, ClearParams}
use hyper_leaf.Program.Pool.{jito_mint_pubkey, read_jito_rate}
use hyper_leaf.Program.Errors.{
  done, refused, bad_mint, bad_peer, bad_token_account, answered, >>=-eq-done, require-eq-done,
  done-injective,
}
use hyper_leaf.Program.World.{KeepsRoutes, World, run_box, transfer_u64, transfer_fee}
use hyper_leaf.Program.World.Moves.{run_box-eq-done}
use hyper_leaf.Program.Lock
use hyper_leaf.Program.Lock.{Lock, LockParams}
use hyper_leaf.Program.Lock.Sent.{dispatch-Dispatched}
use hyper_leaf.Program.LzReceive
use hyper_leaf.Program.LzReceive.{LzReceive, LzReceiveParams}
use hyper_leaf.Program.LzReceive.Admitted.{Cleared, accept-Accepted}
use hyper_leaf.Program.Entry.{Instruction}
use hyper_leaf.Program.Entry.Effect.{Effect, locked, received, to_lock, to_redeem}

-- What a deposit leaves and what it says.
record Booked (rt : Runtime) (accounts : Lock) (params : LockParams) (w : World rt)
    (message : Bytes) (w' : World rt) : Type 0 where
  l : ℕ
  s : ℕ
  shares : ℕ
  fee : ℕ
  box : Lockbox
  read : read_jito_rate accounts.jito_pool ≡ done (l, s)
  ran : Box.lock params.atoms l s (lockbox w.store) ≡ (ok (shares, fee), box)
  says : message ≡ encode_bridge listing_tag params.evm_to shares
  after : w'.store ≡ apply_lockbox box w.store
  quiet : w'.endpoint ≡ w.endpoint
  routes : KeepsRoutes rt w w'

deposit-Booked :
    (rt : Runtime) (accounts : Lock) (params : LockParams) (w : World rt) (message : Bytes)
    (w' : World rt)
    → Lock.deposit rt accounts params w ≡ done (message, w')
    → Booked rt accounts params w message w'
unfolding Lock.deposit
deposit-Booked rt accounts params w message w' h =
    let ((l, s), read, h1) = >>=-eq-done (read_jito_rate accounts.jito_pool) _ h in
    let pay = lock_payload listing_tag params.evm_to params.atoms l s in
    let (((sent, shares), box), ran, h2) = >>=-eq-done (run_box pay w.store) _ h1 in
    let (between, _, h3) =
      >>=-eq-done
        (transfer_u64 rt w.tokens accounts.user_ata accounts.escrow_ata accounts.user params.atoms)
        _ h2 in
    let (_, _, h4) =
      >>=-eq-done
        (transfer_fee rt between accounts.escrow_ata accounts.harvest_ata
          (box.harvest_atoms - w.store.harvest_atoms))
        _ h3 in
    let (fee, ran_lock, _, says) =
      lock_payload-lock listing_tag params.evm_to params.atoms l s (lockbox w.store) sent shares box
        (run_box-eq-done pay w.store ran) in
    let result = sym (done-injective h4) in
    record {
      l = l;
      s = s;
      shares = shares;
      fee = fee;
      box = box;
      read = read;
      ran = ran_lock;
      says = ap (λ (r : Bytes × World rt). r.0) result ∙ sym says;
      after = ap (λ (r : Bytes × World rt). r.1.store) result;
      quiet = ap (λ (r : Bytes × World rt). r.1.endpoint) result;
      routes = (
        ap (λ (r : Bytes × World rt). r.1.peers) result,
        ap (λ (r : Bytes × World rt). r.1.side_dests) result,
      );
    }

pub lock-Effect :
    (rt : Runtime) (accounts : Lock) (params : LockParams) (w w' : World rt)
    → Lock.handle rt accounts params w ≡ done w'
    → Effect rt (Instruction.lock accounts params) w w'
unfolding Lock.handle Lock.apply
lock-Effect rt accounts params w w' h =
    let (peer, _, h1) = >>=-eq-done (answered (w.peers params.dst_eid)) _ h in
    let (_, h2) =
      require-eq-done (eq_bytes (rt.token w.tokens accounts.user_ata).mint jito_mint_pubkey)
        bad_mint _ h1 in
    let (_, h3) =
      require-eq-done (eq_bytes (rt.token w.tokens accounts.user_ata).owner accounts.user)
        bad_token_account _ h2 in
    let (_, h4) =
      require-eq-done (eq_bytes accounts.escrow_ata w.store.escrow_ata) bad_token_account _ h3 in
    let (_, h5) =
      require-eq-done (eq_bytes accounts.harvest_ata w.store.harvest_ata) bad_token_account _ h4 in
    let (_, _, h6) = >>=-eq-done (Lock.check_route params w.store peer) _ h5 in
    let ((message, m), deposited, h7) = >>=-eq-done (Lock.deposit rt accounts params w) _ h6 in
    let sent = dispatch-Dispatched rt params peer message m w' h7 in
    let k = deposit-Booked rt accounts params w message m deposited in
    let sending : SendParams = record {
      dst_eid = params.dst_eid;
      receiver = peer.peer_address;
      message = message;
      options = sent.options;
      native_fee = params.native_fee;
      lz_token_fee = params.lz_token_fee;
    } in
    locked params.atoms k.l k.s k.shares k.fee k.box params.evm_to sending k.ran
      (sent.store_kept ∙ k.after)
      (subst (λ e. rt.send e sending ≡ some w'.endpoint) k.quiet sent.sent) k.says (λ wide. wide)
      (to_lock k.read) (sent.routes_kept.0 ∙ k.routes.0, sent.routes_kept.1 ∙ k.routes.1)

-- What an inbound message leaves of the store that it was accepted with.
record Redeemed (rt : Runtime) (accounts : LzReceive) (shares : ℕ) (w w' : World rt) : Type 0 where
  l : ℕ
  s : ℕ
  atoms : ℕ
  fee : ℕ
  box : Lockbox
  read : read_jito_rate accounts.jito_pool ≡ done (l, s)
  ran : Box.unlock shares l s (lockbox w.store) ≡ (ok (atoms, fee), box)
  after : w'.store ≡ apply_lockbox box w.store
  quiet : w'.endpoint ≡ w.endpoint
  routes : KeepsRoutes rt w w'

payout-Redeemed :
    (rt : Runtime) (accounts : LzReceive) (tag : Bytes) (shares : ℕ) (w w' : World rt)
    → LzReceive.payout rt accounts tag shares w ≡ done w'
    → Redeemed rt accounts shares w w'
unfolding LzReceive.payout
payout-Redeemed rt accounts tag shares w w' h =
    let ((l, s), read, h1) = >>=-eq-done (read_jito_rate accounts.jito_pool) _ h in
    let receive = Box.lz_receive tag listing_tag shares l s in
    let (((atoms, fee), box), ran, h2) = >>=-eq-done (run_box receive w.store) _ h1 in
    let (between, _, h3) =
      >>=-eq-done
        (transfer_fee rt w.tokens accounts.escrow_ata accounts.harvest_ata
          (box.harvest_atoms - w.store.harvest_atoms))
        _ h2 in
    let (_, _, h4) =
      >>=-eq-done
        (transfer_u64 rt between accounts.escrow_ata accounts.recipient_ata rt.store_key atoms) _
        h3 in
    let result = sym (done-injective h4) in
    record {
      l = l;
      s = s;
      atoms = atoms;
      fee = fee;
      box = box;
      read = read;
      ran =
          lz_receive-unlock tag listing_tag shares l s (lockbox w.store) (atoms, fee) box
            (run_box-eq-done receive w.store ran);
      after = ap (λ (x : World rt). x.store) result;
      quiet = ap (λ (x : World rt). x.endpoint) result;
      routes = (ap (λ (x : World rt). x.peers) result, ap (λ (x : World rt). x.side_dests) result);
    }

pub lz_receive-Effect :
    (rt : Runtime) (accounts : LzReceive) (params : LzReceiveParams) (w w' : World rt)
    → LzReceive.handle rt accounts params w ≡ done w'
    → Effect rt (Instruction.lz_receive accounts params) w w'
unfolding LzReceive.handle LzReceive.apply Cleared
lz_receive-Effect rt accounts params w w' h =
    let (peer, _, h1) = >>=-eq-done (answered (w.peers params.src_eid)) _ h in
    let (_, h2) = require-eq-done (eq_bytes params.sender peer.peer_address) bad_peer _ h1 in
    let (_, h3) =
      require-eq-done (eq_bytes accounts.escrow_ata w.store.escrow_ata) bad_token_account _ h2 in
    let (_, h4) =
      require-eq-done (eq_bytes accounts.harvest_ata w.store.harvest_ata) bad_token_account _ h3 in
    let (_, h5) = require-eq-done (eq_bytes accounts.jito_mint jito_mint_pubkey) bad_mint _ h4 in
    let (_, _, h6) =
      >>=-eq-done
        (if eq_bytes accounts.associated_token_program rt.associated_token_program_id
          then done tt
          else refused)
        _ h5 in
    let ((tag, shares, m), accepted, h7) =
      >>=-eq-done (LzReceive.accept rt accounts params w) _ h6 in
    let a = accept-Accepted rt accounts params w tag shares m accepted in
    let k = payout-Redeemed rt accounts tag shares m w' h7 in
    let clearing : ClearParams = record {
      receiver = rt.store_key;
      src_eid = params.src_eid;
      sender = params.sender;
      nonce = params.nonce;
      guid = params.guid;
      message = params.message;
    } in
    received shares k.l k.s k.atoms k.fee k.box tag a.to clearing
      (subst (λ x. Box.unlock shares k.l k.s (lockbox x) ≡ (ok (k.atoms, k.fee), k.box))
        a.store_kept k.ran)
      (subst (λ x. w'.store ≡ apply_lockbox k.box x) a.store_kept k.after)
      (subst (λ e. rt.clear w.endpoint clearing ≡ some e) (sym k.quiet) a.cleared) a.says
      (to_redeem tag a.to a.decoded k.read)
      (k.routes.0 ∙ a.routes_kept.0, k.routes.1 ∙ a.routes_kept.1)
