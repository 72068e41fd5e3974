-- ===== src/Program/TypesV2.antt =====
-- instructions/lz_receive_types_v2.rs: the accounts with which an executor has to call lz_receive.
pub mod Listed
use hyper_leaf.Common.{ℕ, Bool, true, false, List, [], ◌∷◌, ◌++◌}
use hyper_leaf.Program.State.{Pubkey}
use hyper_leaf.Program.Runtime.{Runtime, AccountMetaRef}
use hyper_leaf.Program.Pool.{jito_pool_pubkey, jito_mint_pubkey}
use hyper_leaf.Program.MsgCodec
use hyper_leaf.Program.Errors.{Reply, done, answered, ◌>>=◌}
use hyper_leaf.Program.World.{World}
use hyper_leaf.Program.LzReceive.{LzReceiveParams}

-- The instructions that an executor runs; the code lists the one.
pub data ExecutorInstruction (rt : Runtime) : Type 0 where
  lz_receive : (accounts : rt.CompactAccounts) → ExecutorInstruction rt

pub record LzReceiveTypesV2Result (rt : Runtime) : Type 0 where
  pub context_version : ℕ
  pub alts : List Pubkey
  pub instructions : List (ExecutorInstruction rt)

module _ (rt : Runtime) where
  abbrev pub ref : Pubkey → Bool → AccountMetaRef rt.Locator
  ref key is_writable = record { pubkey = rt.address_locator key; is_writable = is_writable }

  -- The twelve accounts of lz_receive, in its order, for a recipient.
  unfoldable pub account_list :
      World rt → LzReceiveParams → Pubkey → List (AccountMetaRef rt.Locator)
  account_list w params recipient =
      record { pubkey = rt.payer_locator; is_writable = true }
      ∷ ref rt.store_key true
      ∷ ref (rt.peer_key params.src_eid) false
      ∷ ref jito_pool_pubkey false
      ∷ ref w.store.escrow_ata true
      ∷ ref w.store.harvest_ata true
      ∷ ref recipient false
      ∷ ref (rt.find_ata recipient jito_mint_pubkey) true
      ∷ ref jito_mint_pubkey false
      ∷ ref rt.token_program_id false
      ∷ ref rt.associated_token_program_id false
      ∷ ref rt.system_program_id false
      ∷ []

  -- `remaining` are the keys of the lookup tables that the executor passed.
  unfoldable pub handle :
      List Pubkey → LzReceiveParams → World rt → Reply (LzReceiveTypesV2Result rt)
  unfolding account_list
  handle remaining params w = do
    (_tag, to, _shares) ← MsgCodec.decode params.message
    let accounts =
        account_list w params to
        ++ rt.accounts_for_clear rt.store_key params.src_eid params.sender params.nonce
    compact ← answered (rt.compact_accounts remaining accounts)
    done (record {
      context_version = rt.execution_context_version;
      alts = remaining;
      instructions = ExecutorInstruction.lz_receive compact ∷ [];
    })
