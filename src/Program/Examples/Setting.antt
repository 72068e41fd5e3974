-- ===== src/Program/Examples/Setting.antt =====
-- A store with deposits on the concrete ledger, and the pool at a risen rate.
use hyper_leaf.Common.{ℕ, ◌≢◌, refl, Option, none, some, false, if◌then◌else◌, [], ◌++◌, replicate}
use hyper_leaf.Bytes.{Bytes, zeros, eq_bytes, eq_bytes-ne}
use hyper_leaf.Rate.{jito_mint_bytes, listing_tag}
use hyper_leaf.StakePool.{encode_pool}
use hyper_leaf.Ix
use hyper_leaf.Program.State.{Pubkey, Store, PeerConfig, blank_peer}
use hyper_leaf.Program.Runtime.{AccountInfo}
use hyper_leaf.Program.Pool.{jito_pool_pubkey, stake_pool_program_pubkey}
use hyper_leaf.Program.World.{World}
use hyper_leaf.Program.Examples.Ledger.{Accounts, ata_of, with_amount, ledger, store_address}

abbrev pub admin : Pubkey
admin = replicate 32 1

abbrev pub user : Pubkey
user = replicate 32 2

abbrev pub escrow : Pubkey
escrow = replicate 32 3

abbrev pub harvest : Pubkey
harvest = replicate 32 8

abbrev pub user_ata : Pubkey
user_ata = replicate 32 10

abbrev pub evm_peer : Bytes
evm_peer = zeros 12 ++ replicate 20 0x11

abbrev pub evm_user : Bytes
evm_user = zeros 12 ++ replicate 20 0x22

-- The accounts at the start: the user has a thousand atoms.
abbrev pub accounts : Accounts
accounts k =
    if eq_bytes k user_ata
    then record { mint = jito_mint_bytes; owner = user; amount = 1_000_000 }
    else if eq_bytes k escrow
    then record { mint = jito_mint_bytes; owner = store_address; amount = 0 }
    else if eq_bytes k (ata_of user jito_mint_bytes)
    then record { mint = jito_mint_bytes; owner = user; amount = 0 }
    else record { mint = jito_mint_bytes; owner = admin; amount = 0 }

-- A store with a million atoms locked at the rate 1, and the pool at the rate 1.1.
abbrev pub store : Store
store = record {
  admin = admin;
  bump = 254;
  endpoint_program = replicate 32 4;
  dest_eid = Ix.dest_eid;
  dest_peer = evm_peer;
  listing_tag = listing_tag;
  last_accounted = 1_100_000;
  last_rate = 1_000_000_000_000_000_000;
  total_shares = 1_100_000_000_000_000;
  deposit_cap_atoms = 0;
  escrow_atoms = 1_100_000;
  harvest_atoms = 0;
  halted = false;
  escrow_ata = escrow;
  harvest_ata = harvest;
}

abbrev pub pool : AccountInfo
pool = record {
  key = jito_pool_pubkey;
  owner = stake_pool_program_pubkey;
  bytes = encode_pool jito_mint_bytes 1_100_000_000 1_000_000_000;
}

abbrev pub peers : ℕ → Option PeerConfig
peers eid = some (record blank_peer { peer_address = evm_peer })

abbrev pub world : World ledger
world = record {
  store = store;
  peers = peers;
  side_dests = λ mint. none;
  tokens = with_amount escrow 1_100_000 accounts;
  endpoint = [];
}

abbrev pub no_pool_rise : AccountInfo
no_pool_rise = record pool { bytes = encode_pool jito_mint_bytes 1_000_000_000 1_000_000_000 }

pub apart : world.store.escrow_ata ≢ world.store.harvest_ata
unfolding eq_bytes
apart = (eq_bytes-ne escrow harvest).0 refl
