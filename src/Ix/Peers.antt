-- ===== src/Ix/Peers.antt =====
-- The two kinds of peers: an EVM address, left-padded to 32 bytes, and a Solana key.
use hyper_leaf.Common.{◌≡◌, ◌≢◌, ◌↔◌, arith, take, drop, Bool, true, false, not, ◌||◌}
use hyper_leaf.Bytes.{Bytes, zeros, eq_bytes, eq_bytes-ne, eq_bytes_iff}
use hyper_leaf.Outcome.{ok, require, bad_peer}
use hyper_leaf.Ix.{require_evm_peer, require_solana_peer}

-- The guards, over their tests.
evm_guard :
    (t u : Bool) → (require (not (not t || u)) bad_peer ≡ ok tt) ↔ ((t ≡ true) × (u ≡ false))
evm_guard t u = ground arith

solana_guard :
    (t u : Bool) → (require (not (t || u)) bad_peer ≡ ok tt) ↔ ((t ≡ false) × (u ≡ false))
solana_guard t u = ground arith

-- An array is a peer on HyperEVM exactly if its first twelve bytes are zero and the other twenty
-- are not all zero.
pub require_evm_peer_iff :
    (peer : Bytes)
    → (require_evm_peer peer ≡ ok tt) ↔ ((take 12 peer ≡ zeros 12) × (drop 12 peer ≢ zeros 20))
unfolding require_evm_peer
require_evm_peer_iff peer =
    let guard =
      evm_guard (eq_bytes (take 12 peer) (zeros 12)) (eq_bytes (drop 12 peer) (zeros 20)) in
    let padded = eq_bytes_iff (take 12 peer) (zeros 12) in
    let address = eq_bytes-ne (drop 12 peer) (zeros 20) in
    (
      λ h. (padded.0 (guard.0 h).0, address.0 (guard.0 h).1),
      λ h. guard.1 (padded.1 h.0, address.1 h.1),
    )

-- An array is a peer on Solana exactly if it is not zero, and neither are its first twelve bytes.
require_solana_peer_iff :
    (peer : Bytes)
    → (require_solana_peer peer ≡ ok tt) ↔ ((peer ≢ zeros 32) × (take 12 peer ≢ zeros 12))
unfolding require_solana_peer
require_solana_peer_iff peer =
    let guard = solana_guard (eq_bytes peer (zeros 32)) (eq_bytes (take 12 peer) (zeros 12)) in
    let nonzero = eq_bytes-ne peer (zeros 32) in
    let unpadded = eq_bytes-ne (take 12 peer) (zeros 12) in
    (
      λ h. (nonzero.0 (guard.0 h).0, unpadded.0 (guard.0 h).1),
      λ h. guard.1 (nonzero.1 h.0, unpadded.1 h.1),
    )

-- No array passes for a peer on both chains.
peer_kinds_exclusive :
    (peer : Bytes) → ¬ ((require_evm_peer peer ≡ ok tt) × (require_solana_peer peer ≡ ok tt))
peer_kinds_exclusive peer (evm, solana) =
    ((require_solana_peer_iff peer).0 solana).1 ((require_evm_peer_iff peer).0 evm).0
