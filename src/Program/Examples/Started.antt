-- ===== src/Program/Examples/Started.antt =====
-- A store that is created and the first deposit into it, on the concrete ledger.
use hyper_leaf.Common.{◌≡◌, ◌≢◌, refl, [], ◌∷◌}
use hyper_leaf.Bytes.{eq_bytes, eq_bytes-ne, le_bytes, from_le_bytes, write_all, copy_at}
use hyper_leaf.Rate.{listing_tag, rate, book_retain_fee, shares_from_atoms}
use hyper_leaf.Bridge.{encode_bridge}
use hyper_leaf.StakePool.{parse_pool, encode_pool}
use hyper_leaf.Ix.Payload.{lock_payload}
use hyper_leaf.Lockbox
use hyper_leaf.Program.State.{lockbox, apply_lockbox}
use hyper_leaf.Program.Pool.{read_jito_rate}
use hyper_leaf.Program.Errors.{done}
use hyper_leaf.Program.Options.{combine_options}
use hyper_leaf.Program.World.{World, run_box, outcome, transfer_u64, transfer_fee}
use hyper_leaf.Program.Lock
use hyper_leaf.Program.Trace.{here, next, locked}
use hyper_leaf.Program.Safe.{Safe}
use hyper_leaf.Program.Trace.Start.{Run-Safe_from_init}
use hyper_leaf.Program.Examples.Ledger.{ledger, with_amount, move_amount, store_address}
use hyper_leaf.Program.Examples.Setting.{admin, escrow, user_ata, evm_user, accounts, world}
use hyper_leaf.Program.Examples.Runs.{lock_accounts, lock_params, user_apart}
use hyper_leaf.Program.Examples.Admin.{
  opening, opening_params, types_accounts, opened, open_run, to_string, jito_printed,
}

abbrev started : World ledger
started = record world { store = opened; tokens = accounts }

abbrev deposited : World ledger
deposited = record started {
  store = record opened {
    last_accounted = 1_000;
    last_rate = 1_000_000_000_000_000_000;
    total_shares = 1_000_000_000_000;
    escrow_atoms = 1_000;
  };
  tokens = with_amount escrow 1_000 (with_amount user_ata 999_000 accounts);
  endpoint = encode_bridge listing_tag evm_user 1_000_000_000_000 ∷ [];
}

deposit_run : Lock.handle ledger lock_accounts lock_params started ≡ done deposited
unfolding Lock.handle Lock.apply Lock.check_route Lock.deposit Lock.dispatch combine_options
    lock_payload Lockbox.lock Lockbox.mint shares_from_atoms read_jito_rate parse_pool encode_pool
    write_all copy_at le_bytes from_le_bytes eq_bytes run_box outcome lockbox apply_lockbox
    Lockbox.harvest_rate Lockbox.settle rate book_retain_fee transfer_fee transfer_u64 move_amount
    with_amount
deposit_run = refl

payer_apart : admin ≢ store_address
unfolding eq_bytes
payer_apart = (eq_bytes-ne admin store_address).0 refl

escrow_read : opening.escrow_ata ≡ ledger.info accounts opening.escrow_ata.key
unfolding eq_bytes
escrow_read = refl

harvest_read : opening.harvest_ata ≡ ledger.info accounts opening.harvest_ata.key
unfolding eq_bytes
harvest_read = refl

Run-Safe_from_init_example : Safe ledger deposited
Run-Safe_from_init_example =
    Run-Safe_from_init ledger to_string opening opening_params [] types_accounts started deposited
      jito_printed payer_apart escrow_read harvest_read open_run
      (next here (locked lock_accounts lock_params refl user_apart deposit_run))
