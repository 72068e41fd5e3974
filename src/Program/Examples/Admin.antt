-- ===== src/Program/Examples/Admin.antt =====
-- The instructions of the admin and a harvest of a side token on the concrete ledger, and a
-- history of the program.
use hyper_leaf.Common.{◌≡◌, ◌≢◌, inr, refl, arith, some, true, [], replicate, String, if◌then◌else◌}
use hyper_leaf.Bytes.{zeros, eq_bytes, eq_bytes-ne, le_bytes, from_le_bytes, write_all, copy_at}
use hyper_leaf.Rate.{jito_mint_bytes}
use hyper_leaf.TokenAccount
use hyper_leaf.Ix.{require_evm_peer}
use hyper_leaf.Lockbox
use hyper_leaf.Program.State.{
  Pubkey, Store, SideDest, LzReceiveTypesAccounts, blank_peer, lockbox, apply_lockbox,
}
use hyper_leaf.Program.Pool.{jito_mint_pubkey, require_token_account}
use hyper_leaf.Program.Errors.{done}
use hyper_leaf.Program.World.{World, run_box, outcome}
use hyper_leaf.Program.Halt
use hyper_leaf.Program.SetPeerConfig
use hyper_leaf.Program.SetPeerConfig.{PeerConfigParam, set_peer_at, peer_or_blank}
use hyper_leaf.Program.SetPeerConfig.Frozen.{SetPeer, handle-SetPeer}
use hyper_leaf.Program.InitStore
use hyper_leaf.Program.InitStore.{InitStore, InitStoreParams}
use hyper_leaf.Program.InitStore.Opened.{Opened, handle-Opened}
use hyper_leaf.Program.HarvestOther
use hyper_leaf.Program.HarvestOther.{HarvestOther}
use hyper_leaf.Program.HarvestOther.Split.{SideHarvested, handle-SideHarvested}
use hyper_leaf.Program.Trace.{here, next, halted, Run-Safe}
use hyper_leaf.Program.Safe.{Safe}
use hyper_leaf.Program.Examples.Ledger.{
  Accounts, with_amount, move_amount, ledger, store_address, token_program, ata_of,
}
use hyper_leaf.Program.Examples.Setting.{
  admin, escrow, harvest, evm_peer, accounts, store, world, apart,
}

-- The peer is frozen already, so that only the same address is accepted.
abbrev peer_written : World ledger
peer_written = record world {
  peers =
      set_peer_at 30_367 (record blank_peer { peer_address = evm_peer; bump = 253 }) world.peers;
}

peer_run :
    SetPeerConfig.handle ledger admin 253 30_367 (PeerConfigParam.peer_address evm_peer) world
    ≡ done peer_written
unfolding SetPeerConfig.handle SetPeerConfig.configure peer_or_blank require_evm_peer eq_bytes
peer_run = refl

handle-SetPeer_example : SetPeer ledger admin 30_367 world peer_written
handle-SetPeer_example =
    handle-SetPeer ledger admin 253 30_367 (PeerConfigParam.peer_address evm_peer) world
      peer_written peer_run

-- A store that is created with its two accounts.
abbrev pub opening : InitStore
opening = record {
  payer = admin;
  admin = admin;
  escrow_ata = record {
    key = escrow;
    owner = token_program;
    bytes = TokenAccount.encode jito_mint_bytes store_address 0;
  };
  harvest_ata = record {
    key = harvest;
    owner = token_program;
    bytes = TokenAccount.encode jito_mint_bytes admin 0;
  };
  store_bump = 254;
  types_bump = 252;
}

abbrev pub opening_params : InitStoreParams
opening_params = record { deposit_cap_atoms = 0; dest_peer = evm_peer }

abbrev pub types_accounts : LzReceiveTypesAccounts
types_accounts = record { store = store_address; alt = zeros 32; bump = 252 }

abbrev pub opened : Store
opened = record store { last_accounted = 0; last_rate = 0; total_shares = 0; escrow_atoms = 0 }

pub open_run : InitStore.handle ledger opening opening_params [] ≡ done (opened, types_accounts, [])
unfolding InitStore.handle InitStore.check_accounts InitStore.new_store apply_lockbox Lockbox.new
    require_evm_peer require_token_account TokenAccount.parse TokenAccount.encode write_all copy_at
    le_bytes from_le_bytes eq_bytes
open_run = refl

handle-Opened_example : Opened ledger opening opening_params opened
handle-Opened_example =
    handle-Opened ledger opening opening_params [] opened types_accounts [] open_run

-- A side token, of which the store holds a balance.
abbrev side_mint : Pubkey
side_mint = replicate 32 40

abbrev side_ata : Pubkey
side_ata = replicate 32 41

abbrev fee_owner : Pubkey
fee_owner = replicate 32 42

abbrev rest_owner : Pubkey
rest_owner = replicate 32 43

abbrev side_dest : SideDest
side_dest = record { mint = side_mint; fee_owner = fee_owner; rest_owner = rest_owner; bump = 251 }

abbrev side_accounts : Accounts
side_accounts k =
    if eq_bytes k side_ata
    then record { mint = side_mint; owner = store_address; amount = 12_345 }
    else if eq_bytes k (ata_of fee_owner side_mint)
    then record { mint = side_mint; owner = fee_owner; amount = 0 }
    else if eq_bytes k (ata_of rest_owner side_mint)
    then record { mint = side_mint; owner = rest_owner; amount = 0 }
    else accounts k

abbrev side_world : World ledger
side_world = record world { side_dests = λ mint. some side_dest; tokens = side_accounts }

abbrev side_harvest : HarvestOther
side_harvest = record {
  side_ata = side_ata;
  fee_ata = ata_of fee_owner side_mint;
  rest_ata = ata_of rest_owner side_mint;
}

-- Printed addresses, here of the JitoSOL mint and of any other.
abbrev pub to_string : Pubkey → String
to_string key = if eq_bytes key jito_mint_pubkey then Lockbox.jito_mint else "other"

abbrev side_after : World ledger
side_after = record side_world {
  tokens = with_amount (ata_of rest_owner side_mint) 12_222 (
      with_amount side_ata 0
        (with_amount (ata_of fee_owner side_mint) 123 (with_amount side_ata 12_222 side_accounts)));
}

side_run : HarvestOther.handle ledger to_string side_harvest side_mint side_world ≡ done side_after
unfolding HarvestOther.handle HarvestOther.check_dest HarvestOther.apply HarvestOther.pay
    Lockbox.harvest_other Lockbox.side_dest_policy_ok Lockbox.harvest_other_amount eq_bytes
    move_amount with_amount
side_run = refl

pub jito_printed : to_string jito_mint_pubkey ≡ Lockbox.jito_mint
unfolding eq_bytes
jito_printed = refl

fee_apart : side_harvest.side_ata ≢ side_harvest.fee_ata
unfolding eq_bytes
fee_apart = (eq_bytes-ne side_ata (ata_of fee_owner side_mint)).0 refl

rest_apart : side_harvest.side_ata ≢ side_harvest.rest_ata
unfolding eq_bytes
rest_apart = (eq_bytes-ne side_ata (ata_of rest_owner side_mint)).0 refl

handle-SideHarvested_example : SideHarvested ledger side_harvest side_mint side_world side_after
handle-SideHarvested_example =
    handle-SideHarvested ledger to_string side_harvest side_mint side_world side_after jito_printed
      fee_apart rest_apart side_run

-- A history of one transaction: the admin halts the deposits.
abbrev stopped : World ledger
stopped = record world { store = record store { halted = true } }

halt_run : Halt.handle ledger admin world ≡ done stopped
unfolding Halt.handle run_box outcome Lockbox.halt lockbox apply_lockbox eq_bytes
halt_run = refl

world-Safe : Safe ledger world
unfolding lockbox eq_bytes with_amount
world-Safe = record {
  solvent = record {
    valid = record { cash = omega arith; shares = inr (omega arith, omega arith) };
    funded = omega arith;
  };
  apart = apart;
}

Run-Safe_example : Safe ledger stopped
Run-Safe_example =
    Run-Safe ledger to_string world stopped jito_printed (next here (halted admin halt_run))
      world-Safe
