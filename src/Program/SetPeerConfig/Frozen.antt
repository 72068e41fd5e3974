-- ===== src/Program/SetPeerConfig/Frozen.antt =====
-- Who may set the peer, to what, and how often.
use hyper_leaf.Common.{
  ℕ, ◌≡◌, ◌⊎◌, inl, inr, sym, ap, Option, some, Bool, true, not, ◌&&◌, ==_iff, ◌==◌, arith,
}
use hyper_leaf.Bytes.{Bytes, eq_bytes, eq_bytes→eq, zeros}
use hyper_leaf.Outcome.{ok}
use hyper_leaf.Ix
use hyper_leaf.Ix.{require_evm_peer}
use hyper_leaf.Program.State.{Pubkey, Store, PeerConfig}
use hyper_leaf.Program.Runtime.{Runtime}
use hyper_leaf.Program.Errors.{
  done, bad_eid, peer_frozen, unauthorized, answered, from_result, from_result-eq-done, >>=-eq-done,
  require-eq-done, done-injective,
}
use hyper_leaf.Program.World.{World}
use hyper_leaf.Program.SetPeerConfig.{
  PeerConfigParam, peer_or_blank, set_peer_at, configure, handle,
}

-- What a configuration does to the store and to the peer.
pub data Configured (before after : Store) (peer peer' : PeerConfig) : Type 0 where
  address_set :
      (address : Bytes)
      → require_evm_peer address ≡ ok tt
      → (before.dest_peer ≡ zeros 32) ⊎ (before.dest_peer ≡ address)
      → after ≡ record before { dest_peer = address }
      → peer'.peer_address ≡ address
      → Configured before after peer peer'
  options_set :
      after ≡ before → peer'.peer_address ≡ peer.peer_address → Configured before after peer peer'

frozen_guard : (t u : Bool) → not (not t && not u) ≡ true → (t ≡ true) ⊎ (u ≡ true)
frozen_guard t u h = ground arith

configure-Configured :
    (rt : Runtime) (config : PeerConfigParam) (peer : PeerConfig) (w : World rt)
    (peer' : PeerConfig) (w' : World rt)
    → configure rt config peer w ≡ done (peer', w')
    → Configured w.store w'.store peer peer' × (w'.tokens ≡ w.tokens) × (w'.endpoint ≡ w.endpoint)
unfolding configure
configure-Configured rt (PeerConfigParam.peer_address address) peer w peer' w' h =
    let (_, evm, h1) = >>=-eq-done (from_result (require_evm_peer address)) _ h in
    let (free, h2) =
      require-eq-done
        (not
          (not (eq_bytes w.store.dest_peer (zeros 32)) && not (eq_bytes w.store.dest_peer address)))
        peer_frozen _ h1 in
    let result = done-injective h2 in
    (
      address_set address (from_result-eq-done (require_evm_peer address) evm)
          (elim (frozen_guard (eq_bytes w.store.dest_peer (zeros 32))
            (eq_bytes w.store.dest_peer address) free) [
              | inl unset ↦ inl (eq_bytes→eq w.store.dest_peer (zeros 32) unset)
              | inr same ↦ inr (eq_bytes→eq w.store.dest_peer address same)
            ])
          (sym (ap (λ (r : PeerConfig × World rt). r.1.store) result))
          (sym (ap (λ (r : PeerConfig × World rt). r.0.peer_address) result)),
      sym (ap (λ (r : PeerConfig × World rt). r.1.tokens) result),
      sym (ap (λ (r : PeerConfig × World rt). r.1.endpoint) result),
    )
configure-Configured rt (PeerConfigParam.enforced_options send send_and_call) peer w peer' w' h =
    let (_, _, h1) = >>=-eq-done (answered (rt.assert_type_3 send)) _ h in
    let (_, _, h2) = >>=-eq-done (answered (rt.assert_type_3 send_and_call)) _ h1 in
    let result = done-injective h2 in
    (
      options_set (sym (ap (λ (r : PeerConfig × World rt). r.1.store) result))
          (sym (ap (λ (r : PeerConfig × World rt). r.0.peer_address) result)),
      sym (ap (λ (r : PeerConfig × World rt). r.1.tokens) result),
      sym (ap (λ (r : PeerConfig × World rt). r.1.endpoint) result),
    )

Configured-bump :
    (before after : Store) (peer peer' : PeerConfig) (bump : ℕ)
    → Configured before after peer peer'
    → Configured before after peer (record peer' { bump = bump })
Configured-bump before after peer peer' bump (address_set address evm free same written) =
    address_set address evm free same written
Configured-bump before after peer peer' bump (options_set same kept) = options_set same kept

set_peer_at_same :
    (eid : ℕ) (peer : PeerConfig) (peers : ℕ → Option PeerConfig)
    → set_peer_at eid peer peers eid ≡ some peer
unfolding set_peer_at
set_peer_at_same eid peer peers = ground arith

-- A configuration that is carried out was asked for by the admin, for the one destination.
pub record SetPeer (rt : Runtime) (admin : Pubkey) (eid : ℕ) (w w' : World rt) : Type 0 where
  pub by_admin : admin ≡ w.store.admin
  pub destination : eid ≡ Ix.dest_eid
  pub peer : PeerConfig
  pub written : w'.peers eid ≡ some peer
  pub configured : Configured w.store w'.store (peer_or_blank (w.peers eid)) peer
  pub tokens_kept : w'.tokens ≡ w.tokens
  pub endpoint_kept : w'.endpoint ≡ w.endpoint

-- A configuration that is carried out was asked for by the admin for the one destination, and
-- moves no tokens. Either it sets the peer, in the store and in the peer's account, to an EVM
-- address, when the store had none or the same one; or it leaves the store and the peer's address
-- alone.
pub handle-SetPeer :
    (rt : Runtime) (admin : Pubkey) (bump eid : ℕ) (config : PeerConfigParam) (w w' : World rt)
    → handle rt admin bump eid config w ≡ done w'
    → SetPeer rt admin eid w w'
unfolding handle
handle-SetPeer rt admin bump eid config w w' h =
    let (signed, h1) = require-eq-done (eq_bytes admin w.store.admin) unauthorized _ h in
    let (there, h2) = require-eq-done (eid == Ix.dest_eid) bad_eid _ h1 in
    let ((peer, m), set, h3) =
      >>=-eq-done (configure rt config (peer_or_blank (w.peers eid)) w) _ h2 in
    let (k, kept, quiet) =
      configure-Configured rt config (peer_or_blank (w.peers eid)) w peer m set in
    rw (← done-injective h3) (record {
      by_admin = eq_bytes→eq admin w.store.admin signed;
      destination = (==_iff eid Ix.dest_eid).0 there;
      peer = record peer { bump = bump };
      written = set_peer_at_same eid (record peer { bump = bump }) m.peers;
      configured = Configured-bump w.store m.store (peer_or_blank (w.peers eid)) peer bump k;
      tokens_kept = kept;
      endpoint_kept = quiet;
    })
