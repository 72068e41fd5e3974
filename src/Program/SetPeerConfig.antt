-- ===== src/Program/SetPeerConfig.antt =====
-- instructions/set_peer_config.rs: the admin sets the peer, which is then frozen, or the options
-- enforced on messages to it.
pub mod Frozen
use hyper_leaf.Common.{ℕ, Option, some, none, Bool, not, ◌&&◌, if◌then◌else◌, ◌==◌}
use hyper_leaf.Bytes.{Bytes, eq_bytes, zeros}
use hyper_leaf.Ix
use hyper_leaf.Ix.{require_evm_peer}
use hyper_leaf.Program.State.{Pubkey, PeerConfig, blank_peer}
use hyper_leaf.Program.Runtime.{Runtime}
use hyper_leaf.Program.Errors.{
  Reply, done, bad_eid, peer_frozen, unauthorized, require, answered, from_result, ◌>>=◌, ◌>>◌,
}
use hyper_leaf.Program.World.{World}

pub data PeerConfigParam : Type 0 where
  peer_address : Bytes → PeerConfigParam
  enforced_options : Bytes → Bytes → PeerConfigParam

-- `init_if_needed`
unfoldable pub peer_or_blank : Option PeerConfig → PeerConfig
peer_or_blank (some peer) = peer
peer_or_blank none = blank_peer

-- The peers once the account of one endpoint id is written.
unfoldable pub set_peer_at : ℕ → PeerConfig → (ℕ → Option PeerConfig) → ℕ → Option PeerConfig
set_peer_at eid peer peers other = if other == eid then some peer else peers other

module _ (rt : Runtime) where
  unfoldable pub configure : PeerConfigParam → PeerConfig → World rt → Reply (PeerConfig × World rt)
  configure (PeerConfigParam.peer_address address) peer w = do
    from_result (require_evm_peer address)
    require
        (not
          (not (eq_bytes w.store.dest_peer (zeros 32)) && not (eq_bytes w.store.dest_peer address)))
        peer_frozen
    done (
      record peer { peer_address = address },
      record w { store = record w.store { dest_peer = address } },
    )
  configure (PeerConfigParam.enforced_options send send_and_call) peer w = do
    answered (rt.assert_type_3 send)
    answered (rt.assert_type_3 send_and_call)
    done (
      record peer { enforced_options = record { send = send; send_and_call = send_and_call } },
      w,
    )

  -- `admin` has signed; `bump` is the one that the peer's address was derived with. Anchor makes a
  -- peer's account that is missing before it compares the signer: the making, which the signer
  -- pays, is taken to succeed, and a failure of either undoes the transaction.
  unfoldable pub handle : Pubkey → ℕ → ℕ → PeerConfigParam → World rt → Reply (World rt)
  handle admin bump remote_eid config w = do
    require (eq_bytes admin w.store.admin) unauthorized
    require (remote_eid == Ix.dest_eid) bad_eid
    (peer, w') ← configure config (peer_or_blank (w.peers remote_eid)) w
    done (record w' { peers = set_peer_at remote_eid (record peer { bump = bump }) w'.peers })
