-- ===== src/NativeStore/Examples.antt =====
-- A store, written and read back, and its peer, frozen from the start.
use hyper_leaf.Common.{◌≡◌, refl, arith, All, replicate, false, ◌++◌}
use hyper_leaf.Bytes.{
  Bytes, IsByte, zeros, eq_bytes, are_bytes, are_bytes-IsByte, le_bytes, write_all, copy_at,
}
use hyper_leaf.Outcome.{ok}
use hyper_leaf.Rate.{listing_tag}
use hyper_leaf.Ix.{require_evm_peer}
use hyper_leaf.Lockbox
use hyper_leaf.NativeStore.{Store, init, set_peer, encode, decode}
use hyper_leaf.NativeStore.RoundTrip.{IsStore, decode-encode_store}
use hyper_leaf.NativeStore.Peer.{init_peer_frozen}

abbrev peer : Bytes
peer = zeros 12 ++ replicate 20 0x11

peer_bytes : All IsByte peer
unfolding are_bytes
peer_bytes = are_bytes-IsByte peer refl

abbrev sample : Store
sample = record {
  bump = 254;
  dest_eid = 30_367;
  dest_peer = peer;
  listing_tag = listing_tag;
  box = record {
    last_accounted = 10;
    last_rate = 2_000_000_000_000_000_000;
    total_shares = 10_000_000_000;
    deposit_cap_atoms = 99;
    escrow_atoms = 11;
    harvest_atoms = 1;
    halted = false;
  };
}

sample-IsStore : IsStore sample
sample-IsStore = record {
  dest_eid = ground arith;
  dest_peer = refl;
  tag = refl;
  box = record {
    last_accounted = ground arith;
    last_rate = ground arith;
    total_shares = ground arith;
    deposit_cap_atoms = ground arith;
    escrow_atoms = ground arith;
    harvest_atoms = ground arith;
  };
}

decode-encode_store_example : decode (encode sample) ≡ ok sample
decode-encode_store_example = decode-encode_store sample sample-IsStore

abbrev layout : Bytes
layout = encode sample

layout_bytes : All IsByte layout
unfolding are_bytes encode le_bytes write_all copy_at
layout_bytes = are_bytes-IsByte layout refl

abbrev fresh : Store
fresh = record {
  bump = 254;
  dest_eid = 30_367;
  dest_peer = peer;
  listing_tag = listing_tag;
  box = Lockbox.new 99;
}

init_run : init 254 peer 99 ≡ ok fresh
unfolding init require_evm_peer eq_bytes
init_run = refl

set_run : set_peer peer fresh ≡ ok fresh
unfolding set_peer require_evm_peer eq_bytes
set_run = refl

init_peer_frozen_example :
    (require_evm_peer peer ≡ ok tt) × (fresh.dest_peer ≡ peer) × (peer ≡ peer) × (fresh ≡ fresh)
init_peer_frozen_example = init_peer_frozen 254 99 peer peer fresh fresh init_run set_run
