-- ===== src/Program/Examples/Runs.antt =====
-- A harvest, a lock and an inbound message on the concrete ledger.
use hyper_leaf.Common.{◌≡◌, ◌≢◌, refl, [], ◌∷◌}
use hyper_leaf.Bytes.{
  zeros, eq_bytes, eq_bytes-ne, le_bytes, be_bytes, from_be_bytes, from_le_bytes, write_all,
  copy_at,
}
use hyper_leaf.Rate.{listing_tag, rate, book_retain_fee, shares_from_atoms, atoms_from_shares}
use hyper_leaf.Bridge.{encode_bridge, decode_bridge, amount_word}
use hyper_leaf.StakePool.{parse_pool, encode_pool}
use hyper_leaf.TokenAccount
use hyper_leaf.Ix
use hyper_leaf.Ix.Payload.{lock_payload}
use hyper_leaf.Lockbox
use hyper_leaf.Program.State.{lockbox, apply_lockbox}
use hyper_leaf.Program.Pool.{jito_mint_pubkey, read_jito_rate, require_token_account}
use hyper_leaf.Program.Errors.{done}
use hyper_leaf.Program.Options.{combine_options}
use hyper_leaf.Program.World.{
  World, run_box, outcome, transfer_u64, transfer_fee, create_ata_idempotent,
}
use hyper_leaf.Program.HarvestRate
use hyper_leaf.Program.HarvestRate.{HarvestRate}
use hyper_leaf.Program.HarvestRate.Solvent.{Harvested, handle-Harvested}
use hyper_leaf.Program.Lock
use hyper_leaf.Program.Lock.{Lock, LockParams}
use hyper_leaf.Program.Lock.Bridged.{Bridged, handle-Bridged}
use hyper_leaf.Program.LzReceive
use hyper_leaf.Program.LzReceive.{LzReceive, LzReceiveParams}
use hyper_leaf.Program.LzReceive.Received.{Delivered, handle-Delivered}
use hyper_leaf.Program.MsgCodec
use hyper_leaf.Program.Examples.Ledger.{ata_of, ata_program, with_amount, move_amount, ledger}
use hyper_leaf.Program.Examples.Setting.{
  user, escrow, harvest, user_ata, evm_peer, evm_user, accounts, store, pool, world, apart,
  no_pool_rise,
}

abbrev harvested : World ledger
harvested = record world {
  store = record store {
    last_accounted = 1_099_000;
    last_rate = 1_100_000_000_000_000_000;
    escrow_atoms = 1_099_000;
    harvest_atoms = 1_000;
  };
  tokens =
      with_amount harvest 1_000
        (with_amount escrow 1_099_000 (with_amount escrow 1_100_000 accounts));
}

abbrev harvest_accounts : HarvestRate
harvest_accounts = record { jito_pool = pool; escrow_ata = escrow; harvest_ata = harvest }

harvest_run : HarvestRate.handle ledger harvest_accounts world ≡ done harvested
unfolding HarvestRate.handle HarvestRate.apply read_jito_rate parse_pool encode_pool write_all
    copy_at le_bytes from_le_bytes eq_bytes run_box outcome lockbox apply_lockbox
    Lockbox.harvest_rate Lockbox.settle rate book_retain_fee transfer_fee transfer_u64 move_amount
    with_amount
harvest_run = refl

handle-Harvested_example : Harvested ledger harvest_accounts world harvested
handle-Harvested_example =
    handle-Harvested ledger harvest_accounts world harvested apart harvest_run

abbrev pub lock_accounts : Lock
lock_accounts = record {
  user = user;
  jito_pool = no_pool_rise;
  user_ata = user_ata;
  escrow_ata = escrow;
  harvest_ata = harvest;
}

abbrev pub lock_params : LockParams
lock_params = record {
  dst_eid = Ix.dest_eid;
  atoms = 1_000;
  evm_to = evm_user;
  options = [];
  native_fee = 5;
  lz_token_fee = 0;
}

abbrev pub locked : World ledger
locked = record world {
  store = record store {
    last_accounted = 1_101_000;
    total_shares = 1_101_000_000_000_000;
    escrow_atoms = 1_101_000;
  };
  tokens =
      with_amount escrow 1_101_000
        (with_amount user_ata 999_000 (with_amount escrow 1_100_000 accounts));
  endpoint = encode_bridge listing_tag evm_user 1_000_000_000_000 ∷ [];
}

pub lock_run : Lock.handle ledger lock_accounts lock_params world ≡ done locked
unfolding Lock.handle Lock.apply Lock.check_route Lock.deposit Lock.dispatch combine_options
    lock_payload Lockbox.lock Lockbox.mint shares_from_atoms read_jito_rate parse_pool encode_pool
    write_all copy_at le_bytes from_le_bytes eq_bytes run_box outcome lockbox apply_lockbox
    Lockbox.harvest_rate Lockbox.settle rate book_retain_fee transfer_fee transfer_u64 move_amount
    with_amount
lock_run = refl

pub user_apart : lock_accounts.user_ata ≢ world.store.escrow_ata
unfolding eq_bytes
user_apart = (eq_bytes-ne user_ata escrow).0 refl

handle-Bridged_example : Bridged ledger lock_accounts lock_params world locked
handle-Bridged_example =
    handle-Bridged ledger lock_accounts lock_params world locked refl user_apart apart lock_run

abbrev pub receive_accounts : LzReceive
receive_accounts = record {
  jito_pool = pool;
  escrow_ata = escrow;
  harvest_ata = harvest;
  recipient = user;
  recipient_ata = ata_of user jito_mint_pubkey;
  jito_mint = jito_mint_pubkey;
  associated_token_program = ata_program;
  remaining = 8;
}

abbrev pub receive_params : LzReceiveParams
receive_params = record {
  src_eid = Ix.dest_eid;
  sender = evm_peer;
  nonce = 1;
  guid = zeros 32;
  message = encode_bridge listing_tag user 100_000_000_000_000;
}

abbrev pub received : World ledger
received = record world {
  store = record store {
    last_accounted = 999_091;
    last_rate = 1_100_000_000_000_000_000;
    total_shares = 1_000_000_000_000_000;
    escrow_atoms = 999_091;
    harvest_atoms = 1_000;
  };
  tokens = with_amount (ata_of user jito_mint_pubkey) 99_909 (
      with_amount escrow 999_091 (
        with_amount harvest 1_000
          (with_amount escrow 1_099_000 (with_amount escrow 1_100_000 accounts))));
}

pub receive_run : LzReceive.handle ledger receive_accounts receive_params world ≡ done received
unfolding LzReceive.handle LzReceive.apply LzReceive.accept LzReceive.payout LzReceive.clear_message
    LzReceive.recipient_account create_ata_idempotent require_token_account TokenAccount.parse
    TokenAccount.encode MsgCodec.decode decode_bridge encode_bridge amount_word be_bytes
    from_be_bytes Ix.require_solana_peer Lockbox.lz_receive Lockbox.unlock Lockbox.redeem
    atoms_from_shares read_jito_rate parse_pool encode_pool write_all copy_at le_bytes from_le_bytes
    eq_bytes run_box outcome lockbox apply_lockbox Lockbox.harvest_rate Lockbox.settle rate
    book_retain_fee transfer_fee transfer_u64 move_amount with_amount
receive_run = refl

pub recipient_apart : receive_accounts.recipient_ata ≢ world.store.escrow_ata
unfolding eq_bytes
recipient_apart = (eq_bytes-ne (ata_of user jito_mint_pubkey) escrow).0 refl

handle-Delivered_example : Delivered ledger receive_accounts receive_params world received
handle-Delivered_example =
    handle-Delivered ledger receive_accounts receive_params world received recipient_apart apart
      receive_run
