-- ===== src/Program/Lock/Passes.antt =====
-- The parts of `lock` on the branch that goes through.
use hyper_leaf.Common.{ℕ, ◌-◌, ◌≡◌, ◌≢◌, ◌⊎◌, inl, inr, refl, none, some, ==_iff}
use hyper_leaf.Bytes.{Bytes, zeros, eq_bytes_iff, eq_bytes-ne}
use hyper_leaf.Outcome.{ok}
use hyper_leaf.Rate.{listing_tag}
use hyper_leaf.Bridge.{encode_bridge}
use hyper_leaf.Ix
use hyper_leaf.Ix.{require_evm_peer}
use hyper_leaf.Ix.Payload.{lock_payload}
use hyper_leaf.Lockbox.{Lockbox}
use hyper_leaf.Program.State.{Store, PeerConfig, lockbox, apply_lockbox}
use hyper_leaf.Program.Runtime.{Runtime}
use hyper_leaf.Program.Pool.{read_jito_rate}
use hyper_leaf.Program.Options.{combine_options}
use hyper_leaf.Program.Errors.{done}
use hyper_leaf.Program.World.{World, run_box, outcome, transfer_u64, transfer_fee}
use hyper_leaf.Program.Lock.{Lock, LockParams, check_route, deposit, dispatch}

-- The books and the tokens of a deposit, step by step.
pub deposit_steps :
    (rt : Runtime) (accounts : Lock) (params : LockParams) (l s shares fee : ℕ) (w : World rt)
    (box : Lockbox) (t t' : rt.Tokens)
    → read_jito_rate accounts.jito_pool ≡ done (l, s)
    → lock_payload listing_tag params.evm_to params.atoms l s (lockbox w.store)
      ≡ (ok (encode_bridge listing_tag params.evm_to shares, shares), box)
    → box.harvest_atoms - w.store.harvest_atoms ≡ fee
    → transfer_u64 rt w.tokens accounts.user_ata accounts.escrow_ata accounts.user params.atoms
      ≡ done t
    → transfer_fee rt t accounts.escrow_ata accounts.harvest_ata fee ≡ done t'
    → deposit rt accounts params w
      ≡ done (
        encode_bridge listing_tag params.evm_to shares,
        record w { store = apply_lockbox box w.store; tokens = t' },
      )
unfolding deposit run_box outcome
deposit_steps rt accounts params l s shares fee w box t t' read ran due paid charged =
    rw (read, ran, due, paid, charged) refl

pub route_passes :
    (params : LockParams) (store : Store) (peer : PeerConfig)
    → params.dst_eid ≡ Ix.dest_eid
    → (store.dest_peer ≡ zeros 32)
      ⊎ ((store.dest_peer ≢ zeros 32) × (peer.peer_address ≡ store.dest_peer))
    → check_route params store peer ≡ done tt
unfolding check_route
route_passes params store peer there frozen =
    let here = (==_iff params.dst_eid Ix.dest_eid).1 there in
    elim frozen [
      | inl unset ↦ rw (here, (eq_bytes_iff store.dest_peer (zeros 32)).1 unset) refl
      | inr (set, same) ↦
          rw
            (
              here,
              (eq_bytes-ne store.dest_peer (zeros 32)).1 set,
              (eq_bytes_iff peer.peer_address store.dest_peer).1 same,
            )
            refl
    ]

pub dispatched :
    (rt : Runtime) (params : LockParams) (peer : PeerConfig) (message options : Bytes)
    (w : World rt) (endpoint : rt.Endpoint)
    → combine_options rt peer.enforced_options none params.options ≡ done options
    → rt.send w.endpoint (record {
      dst_eid = params.dst_eid;
      receiver = peer.peer_address;
      message = message;
      options = options;
      native_fee = params.native_fee;
      lz_token_fee = params.lz_token_fee;
    })
      ≡ some endpoint
    → dispatch rt params peer message w ≡ done (record w { endpoint = endpoint })
unfolding dispatch
dispatched rt params peer message options w endpoint combined sent = rw (combined, sent) refl
