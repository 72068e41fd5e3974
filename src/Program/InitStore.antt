-- ===== src/Program/InitStore.antt =====
-- instructions/init_store.rs: the store is created, once, by its admin.
pub mod Opened
use hyper_leaf.Common.{ℕ, Option, some, none, Bool}
use hyper_leaf.Bytes.{Bytes, eq_bytes, zeros}
use hyper_leaf.Rate.{listing_tag}
use hyper_leaf.Ix
use hyper_leaf.Ix.{require_evm_peer}
use hyper_leaf.TokenAccount
use hyper_leaf.Lockbox
use hyper_leaf.Program.State.{Pubkey, Store, LzReceiveTypesAccounts, apply_lockbox}
use hyper_leaf.Program.Runtime.{Runtime, AccountInfo}
use hyper_leaf.Program.Pool.{jito_mint_pubkey, require_token_account}
use hyper_leaf.Program.Errors.{
  Reply, done, bad_mint, bad_token_account, unauthorized, require, answered, from_result, or_fail,
  ◌>>=◌, ◌>>◌,
}

-- The bumps are those that the two created accounts were derived with.
pub record InitStore : Type 0 where
  pub payer : Pubkey
  pub admin : Pubkey
  pub escrow_ata : AccountInfo
  pub harvest_ata : AccountInfo
  pub store_bump : ℕ
  pub types_bump : ℕ

pub record InitStoreParams : Type 0 where
  pub deposit_cap_atoms : ℕ
  pub dest_peer : Bytes

module _ (rt : Runtime) where
  -- The escrow account has to be the store's, the harvest account the admin's, both of JitoSOL.
  unfoldable pub check_accounts : InitStore → InitStoreParams → Reply (Unit {0})
  check_accounts accounts params = do
    require (eq_bytes accounts.payer accounts.admin) unauthorized
    from_result (require_evm_peer params.dest_peer)
    _amount ←
        require_token_account rt.token_program_id accounts.escrow_ata jito_mint_pubkey rt.store_key
    (h_mint, h_owner, _amount') ←
        or_fail (TokenAccount.parse accounts.harvest_ata.bytes) bad_token_account
    require (eq_bytes h_mint jito_mint_pubkey) bad_mint
    require (eq_bytes h_owner accounts.admin) bad_token_account

  -- The fields of the store as they are assigned.
  unfoldable pub new_store : InitStore → InitStoreParams → Store
  new_store accounts params = apply_lockbox (Lockbox.new params.deposit_cap_atoms) (record {
    admin = accounts.admin;
    bump = accounts.store_bump;
    endpoint_program = rt.endpoint_id;
    dest_eid = Ix.dest_eid;
    dest_peer = params.dest_peer;
    listing_tag = listing_tag;
    last_accounted = 0;
    last_rate = 0;
    total_shares = 0;
    deposit_cap_atoms = 0;
    escrow_atoms = 0;
    harvest_atoms = 0;
    halted = Bool.false;
    escrow_ata = accounts.escrow_ata.key;
    harvest_ata = accounts.harvest_ata.key;
  })

  -- The accounts that are created, and the endpoint with the store registered under its admin.
  unfoldable pub handle :
      InitStore
      → InitStoreParams
      → rt.Endpoint
      → Reply (Store × LzReceiveTypesAccounts × rt.Endpoint)
  handle accounts params endpoint = do
    check_accounts accounts params
    registered ← answered (rt.register_oapp endpoint accounts.admin)
    done (
      new_store accounts params,
      record { store = rt.store_key; alt = zeros 32; bump = accounts.types_bump },
      registered,
    )
