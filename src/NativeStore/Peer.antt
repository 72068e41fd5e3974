-- ===== src/NativeStore/Peer.antt =====
-- The frozen peer of the native store: once set, it cannot be changed.
use hyper_leaf.Common.{ℕ, ◌≡◌, ◌≢◌, ◌⊎◌, inl, inr, arith, sym, ◌∙◌, ap, Bool, true, not, ◌&&◌, drop}
use hyper_leaf.Bytes.{Bytes, zeros, eq_bytes, eq_bytes→eq}
use hyper_leaf.Outcome.{Result, ok, bad_peer, require, ◌>>◌, >>=-eq-ok, require-eq-ok, ok-injective}
use hyper_leaf.Rate.{listing_tag}
use hyper_leaf.Lockbox.{new}
use hyper_leaf.Ix.{dest_eid, require_evm_peer}
use hyper_leaf.Ix.Peers.{require_evm_peer_iff}
use hyper_leaf.NativeStore.{Store, init, set_peer}

frozen_guard : (t u : Bool) → not (not t && not u) ≡ true → (t ≡ true) ⊎ (u ≡ true)
frozen_guard t u h = ground arith

-- An EVM peer is not the zero array.
evm_peer-ne-zeros : (peer : Bytes) → require_evm_peer peer ≡ ok tt → peer ≢ zeros 32
evm_peer-ne-zeros peer h e = ((require_evm_peer_iff peer).0 h).1 (ap (drop 12) e)

-- A change of the peer that is accepted is to an EVM peer, from no peer or from the same one, and
-- changes nothing else.
set_peer-eq-ok :
    (peer : Bytes) (s s' : Store)
    → set_peer peer s ≡ ok s'
    → (require_evm_peer peer ≡ ok tt)
      × ((s.dest_peer ≡ zeros 32) ⊎ (s.dest_peer ≡ peer))
      × (s' ≡ record s { dest_peer = peer })
unfolding set_peer
set_peer-eq-ok peer s s' h =
    let unset = eq_bytes s.dest_peer (zeros 32) in
    let same = eq_bytes s.dest_peer peer in
    let written : Store = record s { dest_peer = peer } in
    let rest : Result Store = require (not (not unset && not same)) bad_peer >> ok written in
    let (_, evm, h₁) = >>=-eq-ok (require_evm_peer peer) (λ _. rest) h in
    let (passed, h₂) = require-eq-ok (not (not unset && not same)) bad_peer (ok written) h₁ in
    (
      evm,
      elim (frozen_guard unset same passed) [
        | inl t ↦ inl (eq_bytes→eq s.dest_peer (zeros 32) t)
        | inr t ↦ inr (eq_bytes→eq s.dest_peer peer t)
      ],
      sym (ok-injective h₂),
    )

-- A store that `init` made has an EVM peer, the given one, and every later change of the peer
-- that is accepted is to the same peer and leaves the store as it is.
pub init_peer_frozen :
    (bump cap : ℕ) (peer other : Bytes) (s s' : Store)
    → init bump peer cap ≡ ok s
    → set_peer other s ≡ ok s'
    → (require_evm_peer peer ≡ ok tt) × (s.dest_peer ≡ peer) × (other ≡ peer) × (s' ≡ s)
unfolding init
init_peer_frozen bump cap peer other s s' h k =
    let made : Store = record {
      bump = bump;
      dest_eid = dest_eid;
      dest_peer = peer;
      listing_tag = listing_tag;
      box = new cap;
    } in
    let (_, evm, h₁) = >>=-eq-ok (require_evm_peer peer) (λ _. ok made) h in
    let is_made : made ≡ s = ok-injective h₁ in
    let is_peer : s.dest_peer ≡ peer = sym (ap (λ (x : Store). x.dest_peer) is_made) in
    let (_, free, written) = set_peer-eq-ok other s s' k in
    let same : other ≡ peer = elim free [
      | inl unset ↦ absurd (evm_peer-ne-zeros peer evm (sym is_peer ∙ unset))
      | inr set ↦ sym set ∙ is_peer
    ] in
    (
      evm,
      is_peer,
      same,
      written ∙ ap (λ (p : Bytes). record s { dest_peer = p }) (same ∙ sym is_peer),
    )
