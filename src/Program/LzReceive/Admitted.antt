-- ===== src/Program/LzReceive/Admitted.antt =====
-- Which messages an inbound instruction goes on with.
use hyper_leaf.Common.{
  ℕ, ◌≡◌, inl, inr, refl, sym, ap, ◌∙◌, Option, some, none, ==_iff, ◌==◌, length, if-cases, ltb,
}
use hyper_leaf.Bytes.{Bytes, eq_bytes, eq_bytes→eq}
use hyper_leaf.Outcome.{ok}
use hyper_leaf.Bridge.{decode_bridge}
use hyper_leaf.Ix
use hyper_leaf.Ix.{require_solana_peer}
use hyper_leaf.Program.MsgCodec
use hyper_leaf.Program.State.{Pubkey}
use hyper_leaf.Program.Runtime.{Runtime}
use hyper_leaf.Program.Pool.{jito_mint_pubkey, require_token_account}
use hyper_leaf.Program.Errors.{
  done, fail, aborted, bad_eid, bad_token_account, invalid_message, answered, from_result,
  from_result-eq-done, >>=-eq-done, require-eq-done, done-injective,
}
use hyper_leaf.Program.World.{KeepsRoutes, World, create_ata_idempotent}
use hyper_leaf.Program.World.Moves.{amount, answered-eq-done}
use hyper_leaf.Program.LzReceive.{
  LzReceive, LzReceiveParams, clear_message, recipient_account, accept,
}

-- A message that the program decodes is one that the bridge decodes, to the same parts.
MsgCodec_decode_sound :
    (message : Bytes) (m : Bytes × Bytes × ℕ)
    → MsgCodec.decode message ≡ done m
    → decode_bridge message ≡ some m
unfolding MsgCodec.decode
MsgCodec_decode_sound message m h =
    let (_, h1) = require-eq-done (length message == 96) invalid_message _ h in
    go (decode_bridge message) h1
  where
    go :
        (o : Option (Bytes × Bytes × ℕ))
        → elim o [ some x ↦ done x | none ↦ fail invalid_message ] ≡ done m
        → o ≡ some m
    go (some x) k = ap some (done-injective k)
    go none k = cc

-- The endpoint has cleared the message as one for the store from the given sender.
unfoldable pub Cleared : (rt : Runtime) → LzReceiveParams → rt.Endpoint → rt.Endpoint → Type 0
Cleared rt params before after =
    rt.clear before (record {
      receiver = rt.store_key;
      src_eid = params.src_eid;
      sender = params.sender;
      nonce = params.nonce;
      guid = params.guid;
      message = params.message;
    })
    ≡ some after

clear_message-Cleared :
    (rt : Runtime) (accounts : LzReceive) (params : LzReceiveParams) (w : World rt)
    (endpoint : rt.Endpoint)
    → clear_message rt accounts params w ≡ done endpoint
    → Cleared rt params w.endpoint endpoint
unfolding clear_message Cleared
clear_message-Cleared rt accounts params w endpoint h =
    elim (if-cases (ltb accounts.remaining rt.clear_min_accounts) aborted
      (answered (rt.clear w.endpoint _)) h) [
        | inl (_, k) ↦ cc
        | inr (_, k) ↦ answered-eq-done (rt.clear w.endpoint _) k
      ]

-- The recipient's account is the associated one of the recipient, and no balance has changed.
pub record Ready (rt : Runtime) (accounts : LzReceive) (to : Bytes) (t t' : rt.Tokens)
    : Type 0 where
  pub recipient : accounts.recipient ≡ to
  pub ata : accounts.recipient_ata ≡ rt.find_ata to jito_mint_pubkey
  pub balances : (k : Pubkey) → amount rt t' k ≡ amount rt t k

recipient_account-Ready :
    (rt : Runtime) (accounts : LzReceive) (to : Bytes) (t t' : rt.Tokens)
    → recipient_account rt accounts to t ≡ done t'
    → Ready rt accounts to t t'
unfolding recipient_account create_ata_idempotent
recipient_account-Ready rt accounts to t t' h =
    let (who, h1) = require-eq-done (eq_bytes accounts.recipient to) bad_token_account _ h in
    let (which, h2) =
      require-eq-done (eq_bytes accounts.recipient_ata (rt.find_ata to jito_mint_pubkey))
        bad_token_account _ h1 in
    let (created, made, h3) =
      >>=-eq-done
        (create_ata_idempotent rt t accounts.recipient_ata accounts.recipient accounts.jito_mint
          accounts.associated_token_program)
        _ h2 in
    let (checked, _, h4) =
      >>=-eq-done
        (require_token_account rt.token_program_id (rt.info created accounts.recipient_ata)
          jito_mint_pubkey to)
        _ h3 in
    let (_, h5) =
      require-eq-done (eq_bytes accounts.associated_token_program rt.associated_token_program_id)
        bad_token_account _ made in
    let answer =
      answered-eq-done
        (rt.create_ata t accounts.recipient_ata accounts.recipient accounts.jito_mint) h5 in
    record {
      recipient = eq_bytes→eq accounts.recipient to who;
      ata = eq_bytes→eq accounts.recipient_ata (rt.find_ata to jito_mint_pubkey) which;
      balances = λ k.
          ap (λ x. amount rt x k) (sym (done-injective h4))
          ∙ rt.create_ata_keeps t accounts.recipient_ata accounts.recipient accounts.jito_mint
              created k answer;
    }

-- A message that is gone on with comes from the one peer chain, has been cleared, and carries the
-- tag and the shares, for a recipient that is a Solana key.
pub record Accepted (rt : Runtime) (accounts : LzReceive) (params : LzReceiveParams) (w : World rt)
    (tag : Bytes) (shares : ℕ) (w' : World rt) : Type 0 where
  pub source : params.src_eid ≡ Ix.dest_eid
  pub cleared : Cleared rt params w.endpoint w'.endpoint
  pub to : Bytes
  pub decoded : MsgCodec.decode params.message ≡ done (tag, to, shares)
  pub says : decode_bridge params.message ≡ some (tag, to, shares)
  pub to_solana : require_solana_peer to ≡ ok tt
  pub ready : Ready rt accounts to w.tokens w'.tokens
  pub store_kept : w'.store ≡ w.store
  pub routes_kept : KeepsRoutes rt w w'

pub accept-Accepted :
    (rt : Runtime) (accounts : LzReceive) (params : LzReceiveParams) (w : World rt) (tag : Bytes)
    (shares : ℕ) (w' : World rt)
    → accept rt accounts params w ≡ done (tag, shares, w')
    → Accepted rt accounts params w tag shares w'
unfolding accept
accept-Accepted rt accounts params w tag shares w' h =
    let (from, h1) = require-eq-done (params.src_eid == Ix.dest_eid) bad_eid _ h in
    let (endpoint, cleared, h2) = >>=-eq-done (clear_message rt accounts params w) _ h1 in
    let ((tag₀, to, shares₀), said, h3) = >>=-eq-done (MsgCodec.decode params.message) _ h2 in
    let (_, solana, h4) = >>=-eq-done (from_result (require_solana_peer to)) _ h3 in
    let (tokens, ready, h5) = >>=-eq-done (recipient_account rt accounts to w.tokens) _ h4 in
    let result = done-injective h5 in
    rw
      (
        ← ap (λ (r : Bytes × ℕ × World rt). r.0) result,
        ← ap (λ (r : Bytes × ℕ × World rt). r.1) result,
        ← ap (λ (r : Bytes × ℕ × World rt). r.2) result,
      )
      (record {
        source = (==_iff params.src_eid Ix.dest_eid).0 from;
        cleared = clear_message-Cleared rt accounts params w endpoint cleared;
        to = to;
        decoded = said;
        says = MsgCodec_decode_sound params.message (tag₀, to, shares₀) said;
        to_solana = from_result-eq-done (require_solana_peer to) solana;
        ready = recipient_account-Ready rt accounts to w.tokens tokens ready;
        store_kept = refl;
        routes_kept = (refl, refl);
      })
