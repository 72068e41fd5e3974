-- ===== src/Program/Examples/Trips.antt =====
-- A quote, an account list, a round trip over the bridge and transactions on the concrete ledger.
use hyper_leaf.Common.{◌+◌, ◌≤◌, ◌≡◌, ◌≢◌, inr, refl, arith, false, List, [], ◌∷◌, ◌++◌}
use hyper_leaf.Bytes.{
  zeros, eq_bytes, eq_bytes-ne, le_bytes, be_bytes, from_be_bytes, from_le_bytes, write_all,
  copy_at,
}
use hyper_leaf.Rate.{listing_tag, rate, book_retain_fee, atoms_from_shares}
use hyper_leaf.Bridge.{encode_bridge, decode_bridge, amount_word}
use hyper_leaf.StakePool.{parse_pool, encode_pool}
use hyper_leaf.TokenAccount
use hyper_leaf.Ix
use hyper_leaf.Lockbox
use hyper_leaf.Program.State.{lockbox, apply_lockbox}
use hyper_leaf.Program.Pool.{jito_mint_pubkey, read_jito_rate, require_token_account}
use hyper_leaf.Program.Pool.Sound.{RateSource, read_jito_rate-RateSource}
use hyper_leaf.Program.Errors.{done}
use hyper_leaf.Program.Options.{combine_options}
use hyper_leaf.Program.World.{
  World, run_box, outcome, transfer_u64, transfer_fee, create_ata_idempotent,
}
use hyper_leaf.Program.World.Moves.{amount}
use hyper_leaf.Program.World.Solvent.{Solvent}
use hyper_leaf.Program.Lock.Bridged.{Bridged}
use hyper_leaf.Program.LzReceive
use hyper_leaf.Program.LzReceive.{LzReceive, LzReceiveParams}
use hyper_leaf.Program.MsgCodec
use hyper_leaf.Program.QuoteLock
use hyper_leaf.Program.QuoteLock.{QuoteLockParams, saturating_mul}
use hyper_leaf.Program.QuoteLock.Provisional.{Quoted, quote_lock-Quoted}
use hyper_leaf.Program.SetPeerConfig.{PeerConfigParam}
use hyper_leaf.Program.TypesV2
use hyper_leaf.Program.TypesV2.Listed.{refs_of, answer_for, handle_types-handle_lz_receive}
use hyper_leaf.Program.Entry.{Instruction, transact}
use hyper_leaf.Program.Entry.Kept.{Kept}
use hyper_leaf.Program.Entry.Configuration.{transact-Kept}
use hyper_leaf.Program.Entry.Authority.{Governed, transact-Governed}
use hyper_leaf.Program.Entry.RoundTrip.{lz_receive-lock-le}
use hyper_leaf.Program.Examples.Ledger.{ledger, move_amount, with_amount, ata_of}
use hyper_leaf.Program.Examples.Setting.{
  admin, user, escrow, harvest, evm_user, world, apart, no_pool_rise, pool,
}
use hyper_leaf.Program.Examples.Runs.{
  lock_accounts, lock_params, locked, lock_run, user_apart, receive_accounts, receive_params,
  received, receive_run, recipient_apart,
}
use hyper_leaf.Program.Examples.Admin.{to_string}

handle_types-handle_lz_receive_example :
    TypesV2.handle ledger [] receive_params world
    ≡ answer_for ledger [] (
        refs_of ledger receive_accounts receive_params
        ++ ledger.accounts_for_clear ledger.store_key receive_params.src_eid receive_params.sender
            receive_params.nonce)
handle_types-handle_lz_receive_example =
    handle_types-handle_lz_receive ledger receive_accounts receive_params world received []
      recipient_apart apart receive_run

pub pool_run : read_jito_rate pool ≡ done (1_100_000_000, 1_000_000_000)
unfolding read_jito_rate parse_pool encode_pool write_all copy_at le_bytes from_le_bytes eq_bytes
pool_run = refl

read_jito_rate-RateSource_example : RateSource pool 1_100_000_000 1_000_000_000
read_jito_rate-RateSource_example =
    read_jito_rate-RateSource pool 1_100_000_000 1_000_000_000 pool_run

-- A quote for the lock of the runs.
abbrev quote_params : QuoteLockParams
quote_params = record {
  dst_eid = Ix.dest_eid;
  receiver = zeros 32;
  atoms = 1_000;
  evm_to = evm_user;
  options = [];
  pay_in_lz_token = false;
}

quote_run : QuoteLock.handle ledger quote_params world ≡ done (1, 0)
unfolding QuoteLock.handle combine_options
quote_run = refl

quote_lock-Quoted_example :
    (k : Bridged ledger lock_accounts lock_params world locked) × Quoted ledger quote_params world
      (1, 0)
      k.message
      k.dispatched.options
      k.deposited.shares
quote_lock-Quoted_example =
    quote_lock-Quoted ledger lock_accounts lock_params world locked quote_params (1, 0) refl
      user_apart apart refl refl refl refl lock_run quote_run

-- The shares of the lock come back at the same rate, for the account that the ledger derives.
abbrev pub return_accounts : LzReceive
return_accounts = record receive_accounts { jito_pool = no_pool_rise }

abbrev pub return_params : LzReceiveParams
return_params = record receive_params { message = encode_bridge listing_tag user 1_000_000_000_000 }

abbrev pub returned : World ledger
returned = record locked {
  store = record locked.store {
    last_accounted = 1_100_000;
    total_shares = 1_100_000_000_000_000;
    escrow_atoms = 1_100_000;
  };
  tokens =
      with_amount (ata_of user jito_mint_pubkey) 1_000 (with_amount escrow 1_100_000 locked.tokens);
}

pub return_run : LzReceive.handle ledger return_accounts return_params locked ≡ done returned
unfolding LzReceive.handle LzReceive.apply LzReceive.accept LzReceive.payout LzReceive.clear_message
    LzReceive.recipient_account create_ata_idempotent require_token_account TokenAccount.parse
    TokenAccount.encode MsgCodec.decode decode_bridge encode_bridge amount_word be_bytes
    from_be_bytes Ix.require_solana_peer Lockbox.lz_receive Lockbox.unlock Lockbox.redeem
    atoms_from_shares read_jito_rate parse_pool encode_pool write_all copy_at le_bytes from_le_bytes
    eq_bytes run_box outcome lockbox apply_lockbox Lockbox.harvest_rate Lockbox.settle rate
    book_retain_fee transfer_fee transfer_u64 move_amount with_amount
return_run = refl

pub return_message :
    MsgCodec.decode return_params.message ≡ done (listing_tag, user, 1_000_000_000_000)
unfolding MsgCodec.decode decode_bridge encode_bridge amount_word be_bytes from_be_bytes eq_bytes
    write_all
return_message = refl

pub return_apart : return_accounts.recipient_ata ≢ world.store.harvest_ata
unfolding eq_bytes
return_apart = (eq_bytes-ne (ata_of user jito_mint_pubkey) harvest).0 refl

pub world-Solvent : Solvent ledger world
unfolding lockbox eq_bytes with_amount
world-Solvent = record {
  valid = record { cash = omega arith; shares = inr (omega arith, omega arith) };
  funded = omega arith;
}

lz_receive-lock-le_example :
    amount ledger returned.tokens return_accounts.recipient_ata
    ≤ amount ledger locked.tokens return_accounts.recipient_ata + 1_000
lz_receive-lock-le_example =
    lz_receive-lock-le ledger lock_accounts lock_params world locked return_accounts return_params
      listing_tag user 1_000_000_000_000 returned refl user_apart apart recipient_apart return_apart
      world-Solvent lock_run refl return_message return_run

-- The admin halts the deposits, a lock is refused for it, and an inbound message is not.
abbrev pub transactions : List Instruction
transactions =
    Instruction.halt admin
    ∷ Instruction.lock lock_accounts lock_params
    ∷ Instruction.lz_receive receive_accounts receive_params
    ∷ []

transact-Kept_example : Kept world.store (transact ledger to_string transactions world).store
transact-Kept_example = transact-Kept ledger to_string transactions world

user_other : user ≢ world.store.admin
unfolding eq_bytes
user_other = (eq_bytes-ne user admin).0 refl

-- A user tries the three instructions of the admin, and locks.
abbrev attempts : List Instruction
attempts =
    Instruction.halt user
    ∷ Instruction.set_peer_config user 253 30_367 (PeerConfigParam.peer_address evm_user)
    ∷ Instruction.set_harvest_other_dest user 253
        (record { mint = user; fee_owner = user; rest_owner = user })
    ∷ Instruction.lock lock_accounts lock_params
    ∷ []

transact-Governed_example : Governed ledger world (transact ledger to_string attempts world)
transact-Governed_example =
    transact-Governed ledger to_string attempts world
      (user_other, (user_other, (user_other, (tt, tt))))
