-- ===== src/NativeStore.antt =====
-- solana/leaf-jito-rate/src/store.rs: the 167-byte layout of the store, and its frozen peer.
pub mod RoundTrip
pub mod Peer
mod Examples
use hyper_leaf.Common.{
  ℕ, Bool, true, false, not, ◌&&◌, ◌||◌, List, [], ◌∷◌, length, get_or, ltb, ◌==◌, if◌then◌else◌,
}
use hyper_leaf.Bytes.{Bytes, zeros, chunk, eq_bytes, le_bytes, from_le_bytes, write_all}
use hyper_leaf.Outcome.{Result, Error, ok, err, bad_peer, wrong_listing, require, ◌>>=◌, ◌>>◌}
use hyper_leaf.Rate.{listing_tag}
use hyper_leaf.Lockbox.{Lockbox, new}
use hyper_leaf.Ix.{dest_eid, require_evm_peer}

abbrev pub version : ℕ
version = 1

abbrev pub store_len : ℕ
store_len = 167

pub record Store : Type 0 where
  pub bump : ℕ
  pub dest_eid : ℕ
  pub dest_peer : Bytes
  pub listing_tag : Bytes
  pub box : Lockbox

-- `Store::init`
unfoldable pub init : ℕ → Bytes → ℕ → Result Store
init bump peer deposit_cap_atoms = do
  require_evm_peer peer
  ok (record {
    bump = bump;
    dest_eid = dest_eid;
    dest_peer = peer;
    listing_tag = listing_tag;
    box = new deposit_cap_atoms;
  })

unfoldable pub set_peer : Bytes → Store → Result Store
set_peer peer s = do
  require_evm_peer peer
  require (not (not (eq_bytes s.dest_peer (zeros 32)) && not (eq_bytes s.dest_peer peer))) bad_peer
  ok (record s { dest_peer = peer })

-- `u8::from(flag)`
abbrev pub flag_byte : Bool → ℕ
flag_byte true = 1
flag_byte false = 0

-- The assignments of `encode`, in their order.
abbrev pub store_fields : Store → List (ℕ × Bytes)
store_fields s =
    (0, version ∷ [])
    ∷ (1, s.bump ∷ [])
    ∷ (2, flag_byte s.box.halted ∷ [])
    ∷ (3, le_bytes 4 s.dest_eid)
    ∷ (7, s.dest_peer)
    ∷ (39, s.listing_tag)
    ∷ (71, le_bytes 16 s.box.last_accounted)
    ∷ (87, le_bytes 16 s.box.last_rate)
    ∷ (103, le_bytes 16 s.box.total_shares)
    ∷ (119, le_bytes 16 s.box.deposit_cap_atoms)
    ∷ (135, le_bytes 16 s.box.escrow_atoms)
    ∷ (151, le_bytes 16 s.box.harvest_atoms)
    ∷ []

unfoldable pub encode : Store → Bytes
encode s = write_all (zeros store_len) (store_fields s)

unfoldable pub read_u128 : Bytes → ℕ → ℕ
read_u128 d off = from_le_bytes (chunk d off 16)

-- The fields as `decode` reads them.
abbrev pub contents_of : Bytes → Store
unfolding read_u128
contents_of d = record {
  bump = get_or d 1 0;
  dest_eid = from_le_bytes (chunk d 3 4);
  dest_peer = chunk d 7 32;
  listing_tag = chunk d 39 32;
  box = record {
    last_accounted = read_u128 d 71;
    last_rate = read_u128 d 87;
    total_shares = read_u128 d 103;
    deposit_cap_atoms = read_u128 d 119;
    escrow_atoms = read_u128 d 135;
    harvest_atoms = read_u128 d 151;
    halted = not (get_or d 2 0 == 0);
  };
}

-- `decode` behind its first guard.
abbrev pub tagged_part : Bytes → Result Store
unfolding read_u128
tagged_part d = do require (eq_bytes (chunk d 39 32) listing_tag) wrong_listing; ok (contents_of d)

unfoldable pub decode : Bytes → Result Store
unfolding read_u128
decode d = do
  require (not (ltb (length d) store_len || not (get_or d 0 0 == version))) Error.zero
  tagged_part d
