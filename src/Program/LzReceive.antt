-- ===== src/Program/LzReceive.antt =====
-- instructions/lz_receive.rs: a message from the other chain redeems shares for its recipient.
pub mod Admitted
pub mod PaidOut
pub mod Received
pub mod Paid
use hyper_leaf.Common.{ℕ, ◌-◌, Option, Bool, true, if◌then◌else◌, not, ◌==◌, ltb}
use hyper_leaf.Bytes.{Bytes, eq_bytes}
use hyper_leaf.Rate.{listing_tag}
use hyper_leaf.Ix
use hyper_leaf.Ix.{require_solana_peer}
use hyper_leaf.Lockbox
use hyper_leaf.Lockbox.{Lockbox}
use hyper_leaf.Program.State.{Pubkey, Store, PeerConfig, apply_lockbox}
use hyper_leaf.Program.Runtime.{Runtime, AccountInfo, ClearParams}
use hyper_leaf.Program.Pool.{jito_mint_pubkey, read_jito_rate, require_token_account}
use hyper_leaf.Program.MsgCodec
use hyper_leaf.Program.Errors.{
  Reply, done, refused, aborted, bad_eid, bad_mint, bad_peer, bad_token_account, require, answered,
  from_result, ◌>>=◌, ◌>>◌,
}
use hyper_leaf.Program.World.{World, run_box, transfer_u64, transfer_fee, create_ata_idempotent}

-- `remaining` is how many further accounts the caller passed.
pub record LzReceive : Type 0 where
  pub jito_pool : AccountInfo
  pub escrow_ata : Pubkey
  pub harvest_ata : Pubkey
  pub recipient : Pubkey
  pub recipient_ata : Pubkey
  pub jito_mint : Pubkey
  pub associated_token_program : Pubkey
  pub remaining : ℕ

pub record LzReceiveParams : Type 0 where
  pub src_eid : ℕ
  pub sender : Bytes
  pub nonce : ℕ
  pub guid : Bytes
  pub message : Bytes

module _ (rt : Runtime) where
  -- `clear` at the endpoint, with the slice of the remaining accounts that it takes.
  unfoldable pub clear_message : LzReceive → LzReceiveParams → World rt → Reply rt.Endpoint
  clear_message accounts params w =
      if ltb accounts.remaining rt.clear_min_accounts
      then aborted
      else answered (
          rt.clear w.endpoint (record {
            receiver = rt.store_key;
            src_eid = params.src_eid;
            sender = params.sender;
            nonce = params.nonce;
            guid = params.guid;
            message = params.message;
          }))

  -- The recipient's account is the associated one; it is created if need be, and checked.
  unfoldable pub recipient_account : LzReceive → Bytes → rt.Tokens → Reply rt.Tokens
  recipient_account accounts to tokens = do
    require (eq_bytes accounts.recipient to) bad_token_account
    require (eq_bytes accounts.recipient_ata (rt.find_ata to jito_mint_pubkey)) bad_token_account
    created ←
        create_ata_idempotent rt tokens accounts.recipient_ata accounts.recipient accounts.jito_mint
          accounts.associated_token_program
    _amount ←
        require_token_account rt.token_program_id (rt.info created accounts.recipient_ata)
          jito_mint_pubkey to
    done created

  -- The message is cleared, read and its recipient's account made ready; its tag and shares.
  unfoldable pub accept : LzReceive → LzReceiveParams → World rt → Reply (Bytes × ℕ × World rt)
  accept accounts params w = do
    require (params.src_eid == Ix.dest_eid) bad_eid
    endpoint ← clear_message accounts params w
    (tag, to, shares) ← MsgCodec.decode params.message
    from_result (require_solana_peer to)
    tokens ← recipient_account accounts to w.tokens
    done (tag, shares, record w { tokens = tokens; endpoint = endpoint })

  -- The books are settled and written back; the fee and then the atoms leave the escrow.
  unfoldable pub payout : LzReceive → Bytes → ℕ → World rt → Reply (World rt)
  payout accounts tag shares w = do
    (lamports, supply) ← read_jito_rate accounts.jito_pool
    ((atoms, _fee), box) ←
        run_box (Lockbox.lz_receive tag listing_tag shares lamports supply) w.store
    let fee_now = box.harvest_atoms - w.store.harvest_atoms
    charged ← transfer_fee rt w.tokens accounts.escrow_ata accounts.harvest_ata fee_now
    tokens ← transfer_u64 rt charged accounts.escrow_ata accounts.recipient_ata rt.store_key atoms
    done (record w { store = apply_lockbox box w.store; tokens = tokens })

  unfoldable pub apply : LzReceive → LzReceiveParams → World rt → Reply (World rt)
  apply accounts params w = do
    (tag, shares, w') ← accept accounts params w
    payout accounts tag shares w'

  -- The constraints on the accounts, and then the instruction.
  unfoldable pub handle : LzReceive → LzReceiveParams → World rt → Reply (World rt)
  handle accounts params w = do
    peer ← answered (w.peers params.src_eid)
    require (eq_bytes params.sender peer.peer_address) bad_peer
    require (eq_bytes accounts.escrow_ata w.store.escrow_ata) bad_token_account
    require (eq_bytes accounts.harvest_ata w.store.harvest_ata) bad_token_account
    require (eq_bytes accounts.jito_mint jito_mint_pubkey) bad_mint
    (if eq_bytes accounts.associated_token_program rt.associated_token_program_id
        then done tt
        else refused)
    apply accounts params w
