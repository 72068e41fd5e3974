-- ===== src/Program/LifeCycle.antt =====
-- lib.rs of the program, from before its store exists: every entry point, those that read only
-- included.
pub mod Created
use hyper_leaf.Common.{ℕ, none, List, [], ◌∷◌, String}
use hyper_leaf.Program.State.{Pubkey, LzReceiveTypesAccounts}
use hyper_leaf.Program.Runtime.{Runtime}
use hyper_leaf.Program.Errors.{Reply, done, refused, ◌>>=◌}
use hyper_leaf.Program.World.{World}
use hyper_leaf.Program.InitStore
use hyper_leaf.Program.InitStore.{InitStore, InitStoreParams}
use hyper_leaf.Program.QuoteLock
use hyper_leaf.Program.QuoteLock.{QuoteLockParams}
use hyper_leaf.Program.LzReceive.{LzReceiveParams}
use hyper_leaf.Program.TypesInfo
use hyper_leaf.Program.TypesV2
use hyper_leaf.Program.TypesV2.{LzReceiveTypesV2Result}
use hyper_leaf.Program.Entry.{Instruction, execute, committed}

-- Before and after the store and its companion account are created.
pub data Stage (rt : Runtime) : Type 0 where
  vacant : (tokens : rt.Tokens) (endpoint : rt.Endpoint) → Stage rt
  opened : (w : World rt) (types : LzReceiveTypesAccounts) → Stage rt

pub data EntryPoint : Type 0 where
  init_store : (accounts : InitStore) (params : InitStoreParams) → EntryPoint
  call : (ix : Instruction) → EntryPoint

-- The entry points that change no account, and what they return.
pub data Query : Type 0 where
  quote_lock : (params : QuoteLockParams) → Query
  lz_receive_types_v2 : (remaining : List Pubkey) (params : LzReceiveParams) → Query
  lz_receive_types_info : Query

pub data Answer (rt : Runtime) : Type 0 where
  fees : (fee : ℕ × ℕ) → Answer rt
  call_accounts : (result : LzReceiveTypesV2Result rt) → Answer rt
  lookup : (info : ℕ × List Pubkey) → Answer rt

module _ (rt : Runtime) where
  -- The store and its companion are `init` accounts of `init_store`: Anchor creates them, and the
  -- creation of an account that exists is refused before the instruction runs. The peers and side
  -- destinations of a new store are not there. Any other entry point needs the store.
  unfoldable pub enter : (Pubkey → String) → EntryPoint → Stage rt → Reply (Stage rt)
  enter to_string (init_store accounts params) (vacant tokens endpoint) = do
    (store, types, registered) ← InitStore.handle rt accounts params endpoint
    let w : World rt = record {
      store = store;
      peers = λ eid. none;
      side_dests = λ mint. none;
      tokens = tokens;
      endpoint = registered;
    }
    done (opened w types)
  enter to_string (init_store accounts params) (opened w types) = refused
  enter to_string (call ix) (vacant tokens endpoint) = refused
  enter to_string (call ix) (opened w types) = do
    w' ← execute rt to_string ix w
    done (opened w' types)

  unfoldable pub ask : Query → Stage rt → Reply (Answer rt)
  ask query (vacant tokens endpoint) = refused
  ask (quote_lock params) (opened w types) = do fee ← QuoteLock.handle rt params w; done (fees fee)
  ask (lz_receive_types_v2 remaining params) (opened w types) = do
    result ← TypesV2.handle rt remaining params w
    done (call_accounts result)
  ask lz_receive_types_info (opened w types) = done (lookup (TypesInfo.handle rt types))

  -- Transactions in a row, from any stage.
  unfoldable pub live : (Pubkey → String) → List EntryPoint → Stage rt → Stage rt
  unfolding enter committed
  live to_string [] stage = stage
  live to_string (e ∷ rest) stage = live to_string rest (committed stage (enter to_string e stage))
