-- ===== src/Program/LifeCycle/Created.antt =====
-- The call that creates the store, and what the calls around it do.
use hyper_leaf.Common.{◌≡◌, ◌≢◌, refl, sym, ap, ◌∙◌, none, String, List, [], ◌∷◌, ◌++◌, All}
use hyper_leaf.Program.State.{Pubkey, Store, LzReceiveTypesAccounts}
use hyper_leaf.Program.Runtime.{Runtime}
use hyper_leaf.Program.Errors.{
  Reply, done, fail, refused, aborted, ◌>>=◌, >>=-eq-done, done-injective,
}
use hyper_leaf.Program.World.{World}
use hyper_leaf.Program.InitStore
use hyper_leaf.Program.InitStore.{InitStore, InitStoreParams}
use hyper_leaf.Program.InitStore.Opened.{Opened, handle-Opened}
use hyper_leaf.Program.Entry.{Instruction, execute, committed, transact}
use hyper_leaf.Program.Entry.Kept.{Kept}
use hyper_leaf.Program.Entry.Configuration.{transact-Kept}
use hyper_leaf.Program.Entry.Effect.Executed.{committed_outcomes}
use hyper_leaf.Program.LifeCycle.{Stage, vacant, opened, EntryPoint, init_store, call, enter, live}

-- The instructions among the calls.
abbrev pub instructions_of : List EntryPoint → List Instruction
instructions_of [] = []
instructions_of (init_store _ _ ∷ rest) = instructions_of rest
instructions_of (call ix ∷ rest) = ix ∷ instructions_of rest

module _ (rt : Runtime) where
  -- The accounts when the store has just been made: no peers and no side destinations yet.
  abbrev pub around : Store → rt.Tokens → rt.Endpoint → World rt
  around store tokens endpoint = record {
    store = store;
    peers = λ eid. none;
    side_dests = λ mint. none;
    tokens = tokens;
    endpoint = endpoint;
  }

  -- A call that does not go through.
  abbrev pub Fails : (Pubkey → String) → Stage rt → EntryPoint → Type 0
  Fails to_string stage e = (next : Stage rt) → enter rt to_string e stage ≢ done next

  -- Either every call failed, or one `init_store` made the store: those before it failed, and after
  -- it only the instructions on the store did anything, each `init_store` being without effect.
  pub data Created (to_string : Pubkey → String) (calls : List EntryPoint) (tokens : rt.Tokens)
      (endpoint : rt.Endpoint) (stage : Stage rt) : Type 0 where
    not_yet :
        All (Fails to_string (vacant tokens endpoint)) calls
        → stage ≡ vacant tokens endpoint
        → Created to_string calls tokens endpoint stage
    once :
        (before : List EntryPoint) (accounts : InitStore) (params : InitStoreParams)
        (rest : List EntryPoint) (store : Store) (types : LzReceiveTypesAccounts)
        (registered : rt.Endpoint)
        → calls ≡ before ++ (init_store accounts params ∷ rest)
        → All (Fails to_string (vacant tokens endpoint)) before
        → InitStore.handle rt accounts params endpoint ≡ done (store, types, registered)
        → Opened rt accounts params store
        → Kept store
            (transact rt to_string (instructions_of rest) (around store tokens registered)).store
        → stage
          ≡ opened
              (transact rt to_string (instructions_of rest) (around store tokens registered))
              types
        → Created to_string calls tokens endpoint stage

  committed_call :
      (w : World rt) (types : LzReceiveTypesAccounts) (r : Reply (World rt))
      → committed (opened w types) (r >>= λ w'. done (opened w' types))
        ≡ opened (committed w r) types
  unfolding committed
  committed_call w types (done w') = refl
  committed_call w types (fail _) = refl
  committed_call w types refused = refl
  committed_call w types aborted = refl

  live_open :
      (to_string : Pubkey → String) (calls : List EntryPoint) (w : World rt)
      (types : LzReceiveTypesAccounts)
      → live rt to_string calls (opened w types)
        ≡ opened (transact rt to_string (instructions_of calls) w) types
  unfolding live transact enter
  live_open to_string [] w types = refl
  live_open to_string (init_store accounts params ∷ rest) w types =
      unfold committed in live_open to_string rest w types
  live_open to_string (call ix ∷ rest) w types =
      ap (live rt to_string rest) (committed_call w types (execute rt to_string ix w))
      ∙ live_open to_string rest (committed w (execute rt to_string ix w)) types

  -- One more call that failed, before the others.
  failed-Created :
      (to_string : Pubkey → String) (e : EntryPoint) (calls : List EntryPoint) (tokens : rt.Tokens)
      (endpoint : rt.Endpoint) (stage : Stage rt)
      → Fails to_string (vacant tokens endpoint) e
      → Created to_string calls tokens endpoint stage
      → Created to_string (e ∷ calls) tokens endpoint stage
  failed-Created to_string e calls tokens endpoint stage fails (not_yet all same) =
      not_yet (fails, all) same
  failed-Created to_string e calls tokens endpoint stage fails
        (once before accounts params rest store types registered split all made is_open kept end) =
      once (e ∷ before) accounts params rest store types registered
        (ap (λ (x : List EntryPoint). e ∷ x) split) (fails, all) made is_open kept end

  init_store-Created :
      (to_string : Pubkey → String) (accounts : InitStore) (params : InitStoreParams)
      (rest : List EntryPoint) (tokens : rt.Tokens) (endpoint : rt.Endpoint) (stage : Stage rt)
      → enter rt to_string (init_store accounts params) (vacant tokens endpoint) ≡ done stage
      → Created to_string
          (init_store accounts params ∷ rest)
          tokens
          endpoint
          (live rt to_string rest stage)
  unfolding enter
  init_store-Created to_string accounts params rest tokens endpoint stage ran =
      let ((store, types, registered), made, result) =
        >>=-eq-done (InitStore.handle rt accounts params endpoint) _ ran in
      let w = around store tokens registered in
      once [] accounts params rest store types registered refl tt made
        (handle-Opened rt accounts params endpoint store types registered made)
        (transact-Kept rt to_string (instructions_of rest) w)
        (ap (live rt to_string rest) (sym (done-injective result))
          ∙ live_open to_string rest w types)

  enter-Created :
      (to_string : Pubkey → String) (e : EntryPoint) (rest : List EntryPoint) (tokens : rt.Tokens)
      (endpoint : rt.Endpoint) (stage : Stage rt)
      → enter rt to_string e (vacant tokens endpoint) ≡ done stage
      → Created to_string (e ∷ rest) tokens endpoint (live rt to_string rest stage)
  unfolding enter
  enter-Created to_string (init_store accounts params) rest tokens endpoint stage ran =
      init_store-Created to_string accounts params rest tokens endpoint stage ran
  enter-Created to_string (call ix) rest tokens endpoint stage ran = cc

-- The store is created at most once: over any calls of the entry points, from before it exists,
-- either every call fails and nothing is created; or those before one `init_store` fail, this one
-- makes a store as `Opened` says, and the end is what the instructions among the calls after it
-- make, one transaction each, of the new store without peers or side destinations, so that any
-- further `init_store` has no effect. The configuration of the store is then kept.
pub live-Created :
    (rt : Runtime) (to_string : Pubkey → String) (calls : List EntryPoint) (tokens : rt.Tokens)
    (endpoint : rt.Endpoint)
    → Created rt to_string calls tokens endpoint (live rt to_string calls (vacant tokens endpoint))
unfolding live
live-Created rt to_string [] tokens endpoint = not_yet tt refl
live-Created rt to_string (e ∷ rest) tokens endpoint =
    let start = vacant tokens endpoint in
    let more = live-Created rt to_string rest tokens endpoint in
    committed_outcomes start (enter rt to_string e start)
      (λ x. Created rt to_string (e ∷ rest) tokens endpoint (live rt to_string rest x))
      (λ fails.
        failed-Created rt to_string e rest tokens endpoint (live rt to_string rest start) fails
          more)
      (λ stage ran. enter-Created rt to_string e rest tokens endpoint stage ran)
