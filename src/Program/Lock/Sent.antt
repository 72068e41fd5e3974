-- ===== src/Program/Lock/Sent.antt =====
-- What a lock that goes through does: to the books, to the token balances and across the bridge.
use hyper_leaf.Common.{ℕ, ◌-◌, ◌≡◌, ◌≢◌, refl, ap, subst, arith, none, some, length}
use hyper_leaf.Bytes.{Bytes}
use hyper_leaf.Outcome.{ok}
use hyper_leaf.Rate.{listing_tag}
use hyper_leaf.Bridge.{decode_bridge}
use hyper_leaf.Ix.{require_evm_peer}
use hyper_leaf.Ix.Payload.{lock_payload, lock_payload_sound}
use hyper_leaf.Lockbox
use hyper_leaf.Lockbox.{Lockbox, harvest_rate}
use hyper_leaf.Lockbox.Lock.{lock-Locked}
use hyper_leaf.Program.State.{PeerConfig, lockbox, apply_lockbox}
use hyper_leaf.Program.Runtime.{Runtime}
use hyper_leaf.Program.Pool.{read_jito_rate}
use hyper_leaf.Program.Options.{combine_options}
use hyper_leaf.Program.Errors.{done, answered, >>=-eq-done, done-injective}
use hyper_leaf.Program.World.{KeepsRoutes, World, run_box, transfer_u64, transfer_fee}
use hyper_leaf.Program.World.Moves.{
  Moved, answered-eq-done, run_box-eq-done, transfer_u64-Moved, transfer_fee-Moved,
}
use hyper_leaf.Program.Lock.{Lock, LockParams, deposit, dispatch}

-- The books are locked at the rate that was read, and the tokens follow the books: the atoms from
-- the user to the escrow account, then the fee from there to the harvest account.
pub record Deposited (rt : Runtime) (accounts : Lock) (params : LockParams) (message : Bytes)
    (w w' : World rt) : Type 0 where
  pub lamports : ℕ
  pub supply : ℕ
  pub shares : ℕ
  pub fee : ℕ
  pub rate_read : read_jito_rate accounts.jito_pool ≡ done (lamports, supply)
  pub locked :
      Lockbox.lock params.atoms lamports supply (lockbox w.store)
      ≡ (ok (shares, fee), lockbox w'.store)
  pub to_evm : require_evm_peer params.evm_to ≡ ok tt
  pub says : decode_bridge message ≡ some (listing_tag, params.evm_to, shares)
  pub between : rt.Tokens
  pub paid : Moved rt w.tokens accounts.user_ata accounts.escrow_ata params.atoms between
  pub fee_moved : Moved rt between accounts.escrow_ata accounts.harvest_ata fee w'.tokens
  pub escrow_kept : w'.store.escrow_ata ≡ w.store.escrow_ata
  pub harvest_kept : w'.store.harvest_ata ≡ w.store.harvest_ata
  pub endpoint_kept : w'.endpoint ≡ w.endpoint

-- The fee that is moved is the fee that was booked.
booked_fee :
    (atoms l s : ℕ) (b : Lockbox) (shares fee : ℕ) (b' : Lockbox)
    → Lockbox.lock atoms l s b ≡ (ok (shares, fee), b')
    → b'.harvest_atoms - b.harvest_atoms ≡ fee
booked_fee atoms l s b shares fee b' h =
    let k = lock-Locked atoms l s b shares fee b' h in
    omega (arith, k.settled.harvest, k.minted.harvest)

pub deposit-Deposited :
    (rt : Runtime) (accounts : Lock) (params : LockParams) (w : World rt) (message : Bytes)
    (w' : World rt)
    → length params.evm_to ≡ 32
    → accounts.user_ata ≢ accounts.escrow_ata
    → accounts.escrow_ata ≢ accounts.harvest_ata
    → deposit rt accounts params w ≡ done (message, w')
    → Deposited rt accounts params message w w'
unfolding deposit apply_lockbox lockbox
deposit-Deposited rt accounts params w message w' wide apart₁ apart₂ h =
    let ((l, s), read, h1) = >>=-eq-done (read_jito_rate accounts.jito_pool) _ h in
    let pay = lock_payload listing_tag params.evm_to params.atoms l s in
    let (((sent, shares), box), ran, h2) = >>=-eq-done (run_box pay w.store) _ h1 in
    let (between, paid, h3) =
      >>=-eq-done
        (transfer_u64 rt w.tokens accounts.user_ata accounts.escrow_ata accounts.user params.atoms)
        _ h2 in
    let (tokens, fee_paid, h4) =
      >>=-eq-done
        (transfer_fee rt between accounts.escrow_ata accounts.harvest_ata
          (box.harvest_atoms - w.store.harvest_atoms))
        _ h3 in
    let (fee, locked, to_evm, says) =
      lock_payload_sound listing_tag params.evm_to params.atoms l s (lockbox w.store) sent shares
        box refl wide (run_box-eq-done pay w.store ran) in
    let result = done-injective h4 in
    let fee_due = booked_fee params.atoms l s (lockbox w.store) shares fee box locked in
    rw (← ap (λ (r : Bytes × World rt). r.0) result, ← ap (λ (r : Bytes × World rt). r.1) result)
      (record {
        lamports = l;
        supply = s;
        shares = shares;
        fee = fee;
        rate_read = read;
        locked = locked;
        to_evm = to_evm;
        says = says;
        between = between;
        paid =
            transfer_u64-Moved rt w.tokens accounts.user_ata accounts.escrow_ata accounts.user
              params.atoms between apart₁ paid;
        fee_moved =
            subst (λ n. Moved rt between accounts.escrow_ata accounts.harvest_ata n tokens) fee_due
              (transfer_fee-Moved rt between accounts.escrow_ata accounts.harvest_ata
                (box.harvest_atoms - w.store.harvest_atoms) tokens apart₂ fee_paid);
        escrow_kept = refl;
        harvest_kept = refl;
        endpoint_kept = refl;
      })

-- A dispatch that goes through has sent one message to the peer and changed nothing else.
pub record Dispatched (rt : Runtime) (params : LockParams) (peer : PeerConfig) (message : Bytes)
    (w w' : World rt) : Type 0 where
  pub options : Bytes
  pub combined : combine_options rt peer.enforced_options none params.options ≡ done options
  pub sent :
      rt.send w.endpoint (record {
        dst_eid = params.dst_eid;
        receiver = peer.peer_address;
        message = message;
        options = options;
        native_fee = params.native_fee;
        lz_token_fee = params.lz_token_fee;
      })
      ≡ some w'.endpoint
  pub store_kept : w'.store ≡ w.store
  pub tokens_kept : w'.tokens ≡ w.tokens
  pub routes_kept : KeepsRoutes rt w w'

pub dispatch-Dispatched :
    (rt : Runtime) (params : LockParams) (peer : PeerConfig) (message : Bytes) (w w' : World rt)
    → dispatch rt params peer message w ≡ done w'
    → Dispatched rt params peer message w w'
unfolding dispatch
dispatch-Dispatched rt params peer message w w' h =
    let (options, combined, h1) =
      >>=-eq-done (combine_options rt peer.enforced_options none params.options) _ h in
    let (endpoint, sent, h2) = >>=-eq-done (answered (rt.send w.endpoint _)) _ h1 in
    rw (← done-injective h2) (record {
      options = options;
      combined = combined;
      sent = answered-eq-done (rt.send w.endpoint _) sent;
      store_kept = refl;
      tokens_kept = refl;
      routes_kept = (refl, refl);
    })
