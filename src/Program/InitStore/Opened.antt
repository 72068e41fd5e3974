-- ===== src/Program/InitStore/Opened.antt =====
-- What a store is once it is created.
use hyper_leaf.Common.{ℕ, ◌≡◌, refl, sym, ap, ap₂, ◌∙◌}
use hyper_leaf.Bytes.{Bytes, eq_bytes, eq_bytes→eq}
use hyper_leaf.Outcome
use hyper_leaf.Outcome.{Result, ok}
use hyper_leaf.Ix
use hyper_leaf.Ix.{require_evm_peer}
use hyper_leaf.TokenAccount
use hyper_leaf.Lockbox
use hyper_leaf.Lockbox.{Lockbox}
use hyper_leaf.Program.State.{Pubkey, Store, LzReceiveTypesAccounts, lockbox, apply_lockbox}
use hyper_leaf.Program.Runtime.{Runtime, AccountInfo}
use hyper_leaf.Program.Pool.{jito_mint_pubkey, require_token_account}
use hyper_leaf.Program.Errors.{
  LeafJitoError, done, bad_mint, bad_token_account, unauthorized, require_done, answered,
  from_result, from_result-eq-done, or_fail, >>=-eq-done, require-eq-done, done-injective,
}
use hyper_leaf.Program.InitStore.{InitStore, InitStoreParams, check_accounts, new_store, handle}

or_fail-eq-done :
    {A : Type 0} (r : Result A) (e : LeafJitoError) {a : A} → or_fail r e ≡ done a → r ≡ ok a
or_fail-eq-done (Outcome.ok b) e h = ap Outcome.ok (done-injective h)
or_fail-eq-done (Outcome.err _) e h = cc
or_fail-eq-done Outcome.panic e h = cc

-- A token account that passes the check: a JitoSOL account of the given owner, as the token
-- program lays it out.
pub record HeldBy (bytes : Bytes) (owner : Pubkey) : Type 0 where
  pub amount : ℕ
  pub parsed : TokenAccount.parse bytes ≡ ok (jito_mint_pubkey, owner, amount)

require_token_account-HeldBy :
    (program : Pubkey) (ata : AccountInfo) (owner : Pubkey) (n : ℕ)
    → require_token_account program ata jito_mint_pubkey owner ≡ done n
    → (ata.owner ≡ program) × HeldBy ata.bytes owner
unfolding require_token_account
require_token_account-HeldBy program ata owner n h =
    let (by, h1) = require-eq-done (eq_bytes ata.owner program) bad_token_account _ h in
    let ((mint, who, amount), parsed, h2) =
      >>=-eq-done (or_fail (TokenAccount.parse ata.bytes) bad_token_account) _ h1 in
    let (m, h3) = require-eq-done (eq_bytes mint jito_mint_pubkey) bad_mint _ h2 in
    let (o, _) = require-eq-done (eq_bytes who owner) bad_token_account _ h3 in
    (
      eq_bytes→eq ata.owner program by,
      record {
        amount = amount;
        parsed =
            or_fail-eq-done (TokenAccount.parse ata.bytes) bad_token_account parsed
            ∙ ap₂ (λ (x y : Bytes). ok (x, y, amount)) (eq_bytes→eq mint jito_mint_pubkey m)
                (eq_bytes→eq who owner o);
      },
    )

-- A store that is created belongs to the payer, has an empty lockbox with the given cap, an EVM
-- peer at the one destination, the store's own escrow account and the admin's harvest account.
pub record Opened (rt : Runtime) (accounts : InitStore) (params : InitStoreParams) (store : Store)
    : Type 0 where
  pub admin : store.admin ≡ accounts.payer
  pub box : lockbox store ≡ Lockbox.new params.deposit_cap_atoms
  pub destination : store.dest_eid ≡ Ix.dest_eid
  pub peer : store.dest_peer ≡ params.dest_peer
  pub evm : require_evm_peer params.dest_peer ≡ ok tt
  pub escrow_ata : store.escrow_ata ≡ accounts.escrow_ata.key
  pub escrow_program : accounts.escrow_ata.owner ≡ rt.token_program_id
  pub escrow_owner : HeldBy accounts.escrow_ata.bytes rt.store_key
  pub harvest_ata : store.harvest_ata ≡ accounts.harvest_ata.key
  pub harvest_owner : HeldBy accounts.harvest_ata.bytes store.admin

-- A store that is created belongs to the payer and has a new lockbox with the given cap, the one
-- destination and an EVM peer; its escrow account is a JitoSOL account of the token program that
-- is owned by the store, and its harvest account reads as a JitoSOL account of the admin.
pub handle-Opened :
    (rt : Runtime) (accounts : InitStore) (params : InitStoreParams) (endpoint : rt.Endpoint)
    (store : Store) (types : LzReceiveTypesAccounts) (endpoint' : rt.Endpoint)
    → handle rt accounts params endpoint ≡ done (store, types, endpoint')
    → Opened rt accounts params store
unfolding handle check_accounts new_store apply_lockbox lockbox
handle-Opened rt accounts params endpoint store types endpoint' h =
    let (_, checked, h1) = >>=-eq-done (check_accounts rt accounts params) _ h in
    let (payer, c1) =
      require-eq-done (eq_bytes accounts.payer accounts.admin) unauthorized _ checked in
    let (_, evm, c2) = >>=-eq-done (from_result (require_evm_peer params.dest_peer)) _ c1 in
    let (n, escrow, c3) =
      >>=-eq-done
        (require_token_account rt.token_program_id accounts.escrow_ata jito_mint_pubkey
          rt.store_key)
        _ c2 in
    let ((mint, owner, amount), parsed, c4) =
      >>=-eq-done (or_fail (TokenAccount.parse accounts.harvest_ata.bytes) bad_token_account) _
        c3 in
    let (m, c5) = require-eq-done (eq_bytes mint jito_mint_pubkey) bad_mint _ c4 in
    let o = require_done (eq_bytes owner accounts.admin) bad_token_account c5 in
    let (by, held) =
      require_token_account-HeldBy rt.token_program_id accounts.escrow_ata rt.store_key n escrow in
    let (registered, _, h2) =
      >>=-eq-done (answered (rt.register_oapp endpoint accounts.admin)) _ h1 in
    rw (← ap (λ (r : Store × LzReceiveTypesAccounts × rt.Endpoint). r.0) (done-injective h2))
      (record {
        admin = sym (eq_bytes→eq accounts.payer accounts.admin payer);
        box = refl;
        destination = refl;
        peer = refl;
        evm = from_result-eq-done (require_evm_peer params.dest_peer) evm;
        escrow_ata = refl;
        escrow_program = by;
        escrow_owner = held;
        harvest_ata = refl;
        harvest_owner = record {
          amount = amount;
          parsed =
              or_fail-eq-done (TokenAccount.parse accounts.harvest_ata.bytes) bad_token_account
                parsed
              ∙ ap₂ (λ (x y : Bytes). ok (x, y, amount)) (eq_bytes→eq mint jito_mint_pubkey m)
                  (eq_bytes→eq owner accounts.admin o);
        };
      })
