-- ===== src/Program/State.antt =====
-- state/store.rs, state/peer_config.rs, state/side_dest.rs: the accounts that the program keeps.
use hyper_leaf.Common.{ℕ, Bool, []}
use hyper_leaf.Bytes.{Bytes, zeros}
use hyper_leaf.Lockbox.{Lockbox}
use hyper_leaf.NativeStore

-- A public key is its 32 bytes.
abbrev pub Pubkey : Type 0
Pubkey = Bytes

pub record Store : Type 0 where
  pub admin : Pubkey
  pub bump : ℕ
  pub endpoint_program : Pubkey
  pub dest_eid : ℕ
  pub dest_peer : Bytes
  pub listing_tag : Bytes
  pub last_accounted : ℕ
  pub last_rate : ℕ
  pub total_shares : ℕ
  pub deposit_cap_atoms : ℕ
  pub escrow_atoms : ℕ
  pub harvest_atoms : ℕ
  pub halted : Bool
  pub escrow_ata : Pubkey
  pub harvest_ata : Pubkey

-- `Store::lockbox`
unfoldable pub lockbox : Store → Lockbox
lockbox s = record {
  last_accounted = s.last_accounted;
  last_rate = s.last_rate;
  total_shares = s.total_shares;
  deposit_cap_atoms = s.deposit_cap_atoms;
  escrow_atoms = s.escrow_atoms;
  harvest_atoms = s.harvest_atoms;
  halted = s.halted;
}

-- `Store::apply_lockbox`
unfoldable pub apply_lockbox : Lockbox → Store → Store
apply_lockbox b s = record s {
  last_accounted = b.last_accounted;
  last_rate = b.last_rate;
  total_shares = b.total_shares;
  deposit_cap_atoms = b.deposit_cap_atoms;
  escrow_atoms = b.escrow_atoms;
  harvest_atoms = b.harvest_atoms;
  halted = b.halted;
}

-- `Store::lockbox_encode`
unfoldable lockbox_encode : Store → Bytes
unfolding lockbox
lockbox_encode s = NativeStore.encode (record {
  bump = s.bump;
  dest_eid = s.dest_eid;
  dest_peer = s.dest_peer;
  listing_tag = s.listing_tag;
  box = lockbox s;
})

pub record LzReceiveTypesAccounts : Type 0 where
  pub store : Pubkey
  pub alt : Pubkey
  pub bump : ℕ

pub record EnforcedOptions : Type 0 where
  pub send : Bytes
  pub send_and_call : Bytes

pub record PeerConfig : Type 0 where
  pub peer_address : Bytes
  pub enforced_options : EnforcedOptions
  pub bump : ℕ

-- A freshly created `PeerConfig` account.
abbrev pub blank_peer : PeerConfig
blank_peer = record {
  peer_address = zeros 32;
  enforced_options = record { send = []; send_and_call = [] };
  bump = 0;
}

pub record SideDest : Type 0 where
  pub mint : Pubkey
  pub fee_owner : Pubkey
  pub rest_owner : Pubkey
  pub bump : ℕ
