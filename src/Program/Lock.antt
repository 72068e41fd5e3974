-- ===== src/Program/Lock.antt =====
-- instructions/lock.rs: a user deposits JitoSOL and the minted shares are sent across the bridge.
pub mod Sent
pub mod Bridged
pub mod Passes
pub mod Sendable
use hyper_leaf.Common.{ℕ, ◌-◌, none, Bool, true, if◌then◌else◌, not, ◌==◌}
use hyper_leaf.Bytes.{Bytes, eq_bytes, zeros}
use hyper_leaf.Rate.{listing_tag}
use hyper_leaf.Ix
use hyper_leaf.Ix.Payload.{lock_payload}
use hyper_leaf.Lockbox.{Lockbox}
use hyper_leaf.Program.State.{Pubkey, Store, PeerConfig, apply_lockbox}
use hyper_leaf.Program.Runtime.{Runtime, AccountInfo, SendParams}
use hyper_leaf.Program.Pool.{jito_mint_pubkey, read_jito_rate}
use hyper_leaf.Program.Options.{combine_options}
use hyper_leaf.Program.Errors.{
  Reply, done, bad_mint, bad_peer, bad_token_account, require, answered, ◌>>=◌, ◌>>◌,
}
use hyper_leaf.Program.World.{World, run_box, transfer_u64, transfer_fee}

pub record Lock : Type 0 where
  pub user : Pubkey
  pub jito_pool : AccountInfo
  pub user_ata : Pubkey
  pub escrow_ata : Pubkey
  pub harvest_ata : Pubkey

pub record LockParams : Type 0 where
  pub dst_eid : ℕ
  pub atoms : ℕ
  pub evm_to : Bytes
  pub options : Bytes
  pub native_fee : ℕ
  pub lz_token_fee : ℕ

-- `params.dst_eid` has to be the one destination, and the peer has to be the frozen one when
-- there is one.
unfoldable pub check_route : LockParams → Store → PeerConfig → Reply (Unit {0})
check_route params store peer = do
  require (params.dst_eid == Ix.dest_eid) bad_peer
  if eq_bytes store.dest_peer (zeros 32)
      then done tt
      else require (eq_bytes peer.peer_address store.dest_peer) bad_peer

module _ (rt : Runtime) where
  -- The books are settled and written back; then the user's atoms go to the escrow and the fee
  -- that was booked goes on to the harvest account.
  unfoldable pub deposit : Lock → LockParams → World rt → Reply (Bytes × World rt)
  deposit accounts params w = do
    (lamports, supply) ← read_jito_rate accounts.jito_pool
    ((message, shares), box) ←
        run_box (lock_payload listing_tag params.evm_to params.atoms lamports supply) w.store
    let fee_now = box.harvest_atoms - w.store.harvest_atoms
    paid ← transfer_u64 rt w.tokens accounts.user_ata accounts.escrow_ata accounts.user params.atoms
    tokens ← transfer_fee rt paid accounts.escrow_ata accounts.harvest_ata fee_now
    done (message, record w { store = apply_lockbox box w.store; tokens = tokens })

  -- The message goes to the configured peer.
  unfoldable pub dispatch : LockParams → PeerConfig → Bytes → World rt → Reply (World rt)
  dispatch params peer message w = do
    options ← combine_options rt peer.enforced_options none params.options
    endpoint ← answered (
        rt.send w.endpoint (record {
          dst_eid = params.dst_eid;
          receiver = peer.peer_address;
          message = message;
          options = options;
          native_fee = params.native_fee;
          lz_token_fee = params.lz_token_fee;
        }))
    done (record w { endpoint = endpoint })

  unfoldable pub apply : Lock → LockParams → World rt → PeerConfig → Reply (World rt)
  apply accounts params w peer = do
    check_route params w.store peer
    (message, w') ← deposit accounts params w
    dispatch params peer message w'

  -- The constraints on the accounts, and then the instruction.
  unfoldable pub handle : Lock → LockParams → World rt → Reply (World rt)
  handle accounts params w = do
    peer ← answered (w.peers params.dst_eid)
    require (eq_bytes (rt.token w.tokens accounts.user_ata).mint jito_mint_pubkey) bad_mint
    require (eq_bytes (rt.token w.tokens accounts.user_ata).owner accounts.user) bad_token_account
    require (eq_bytes accounts.escrow_ata w.store.escrow_ata) bad_token_account
    require (eq_bytes accounts.harvest_ata w.store.harvest_ata) bad_token_account
    apply accounts params w peer
