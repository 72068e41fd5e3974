-- ===== src/Program/Lock/Sendable.antt =====
-- That a deposit which the lockbox can take goes through and is sent.
use hyper_leaf.Common.{
  ℕ, ◌+◌, ◌-◌, ◌*◌, ◌≤◌, ◌<◌, ◌≡◌, ◌≢◌, ◌⊎◌, sym, subst, arith, none, some, false,
}
use hyper_leaf.Bytes.{Bytes, zeros, eq_bytes_iff}
use hyper_leaf.Outcome.{ok, u64_size}
use hyper_leaf.Rate.{listing_tag}
use hyper_leaf.Bridge.{encode_bridge}
use hyper_leaf.Ix
use hyper_leaf.Ix.{require_evm_peer}
use hyper_leaf.Ix.Payload.{lock_payload_of_lock}
use hyper_leaf.Lockbox.Lock.{lock-Locked}
use hyper_leaf.Lockbox.Vault.Calls.{Call}
use hyper_leaf.Lockbox.Vault.Complete.{CallFits}
use hyper_leaf.Lockbox.Vault.Enter.{lock_succeeds}
use hyper_leaf.Program.State.{Store, PeerConfig, lockbox, apply_lockbox}
use hyper_leaf.Program.Runtime.{Runtime}
use hyper_leaf.Program.Pool.{jito_mint_pubkey}
use hyper_leaf.Program.Pool.Sound.{RateSource, read_jito_rate_of_RateSource}
use hyper_leaf.Program.Options.{combine_options}
use hyper_leaf.Program.Errors.{done}
use hyper_leaf.Program.World.{World}
use hyper_leaf.Program.World.Moves.{amount, transfer_u64-Moved}
use hyper_leaf.Program.World.Payments.{Payments, charge_succeeds, pay_succeeds}
use hyper_leaf.Program.World.Solvent.{Solvent}
use hyper_leaf.Program.Lock.{Lock, LockParams, deposit, apply, handle}
use hyper_leaf.Program.Lock.Passes.{deposit_steps, route_passes, dispatched}

-- The accounts, the pool and the endpoint are ready for a deposit.
pub record Sendable (rt : Runtime) (accounts : Lock) (params : LockParams) (l s : ℕ) (w : World rt)
    : Type 0 where
  pub peer : PeerConfig
  pub found : w.peers params.dst_eid ≡ some peer
  pub mint : (rt.token w.tokens accounts.user_ata).mint ≡ jito_mint_pubkey
  pub owner : (rt.token w.tokens accounts.user_ata).owner ≡ accounts.user
  pub escrow_ata : accounts.escrow_ata ≡ w.store.escrow_ata
  pub harvest_ata : accounts.harvest_ata ≡ w.store.harvest_ata
  pub dst_eid : params.dst_eid ≡ Ix.dest_eid
  pub frozen :
      (w.store.dest_peer ≡ zeros 32)
      ⊎ ((w.store.dest_peer ≢ zeros 32) × (peer.peer_address ≡ w.store.dest_peer))
  pub source : RateSource accounts.jito_pool l s
  pub to_evm : require_evm_peer params.evm_to ≡ ok tt
  pub options : Bytes
  pub combined : combine_options rt peer.enforced_options none params.options ≡ done options
  pub sends :
      (message : Bytes)
      → (endpoint : rt.Endpoint) × (rt.send w.endpoint (record {
        dst_eid = params.dst_eid;
        receiver = peer.peer_address;
        message = message;
        options = options;
        native_fee = params.native_fee;
        lz_token_fee = params.lz_token_fee;
      })
          ≡ some endpoint)

-- The deposit itself.
deposit_succeeds :
    (rt : Runtime) (p : Payments rt) (accounts : Lock) (params : LockParams) (l s : ℕ)
    (w : World rt)
    → Sendable rt accounts params l s w
    → accounts.user_ata ≢ accounts.escrow_ata
    → p.InOrder w.tokens accounts.user_ata accounts.escrow_ata accounts.user
    → p.InOrder w.tokens accounts.escrow_ata accounts.harvest_ata rt.store_key
    → Solvent rt w
    → CallFits (Call.lock params.atoms l s) (lockbox w.store)
    → 0 < s
    → w.store.last_accounted < u64_size
    → params.atoms < u64_size
    → params.atoms ≤ amount rt w.tokens accounts.user_ata
    → w.store.halted ≡ false
    → 0 < params.atoms
    → (w.store.deposit_cap_atoms ≡ 0)
      ⊎ (w.store.last_accounted + params.atoms ≤ w.store.deposit_cap_atoms)
    → (w.store.total_shares ≡ 0) ⊎ (w.store.last_accounted ≤ params.atoms * w.store.total_shares)
    → (message : Bytes) × (store : Store) × (tokens : rt.Tokens) × (deposit rt accounts params w
        ≡ done (message, record w { store = store; tokens = tokens }))
unfolding lockbox
deposit_succeeds rt p accounts params l s w k apart first second solvent fits supply small
      small_atoms has running some_atoms within enough =
    let b = lockbox w.store in
    let (shares, fee, box, ran, _, one_percent) =
      lock_succeeds params.atoms l s b solvent.valid fits supply running some_atoms within enough in
    let locked = lock-Locked params.atoms l s b shares fee box ran in
    let payload =
      lock_payload_of_lock listing_tag params.evm_to params.atoms l s b shares fee box k.to_evm
        ran in
    let due : box.harvest_atoms - w.store.harvest_atoms ≡ fee =
      omega (arith, locked.settled.harvest, locked.minted.harvest) in
    let (t, paid, keeps) =
      pay_succeeds rt p w.tokens accounts.user_ata accounts.escrow_ata accounts.user params.atoms
        first has small_atoms in
    let moved =
      transfer_u64-Moved rt w.tokens accounts.user_ata accounts.escrow_ata accounts.user
        params.atoms t apart paid in
    let held : w.store.escrow_atoms ≤ amount rt w.tokens accounts.escrow_ata =
      subst (λ a. w.store.escrow_atoms ≤ amount rt w.tokens a) (sym k.escrow_ata) solvent.funded in
    let order = keeps accounts.escrow_ata accounts.harvest_ata rt.store_key second in
    let (t', charged, _) =
      charge_succeeds rt p t accounts.escrow_ata accounts.harvest_ata accounts.harvest_ata fee order
        order (omega (arith, held, locked.settled.escrow, moved.got))
        (omega (arith, one_percent, small)) in
    (
      encode_bridge listing_tag params.evm_to shares,
      apply_lockbox box w.store,
      t',
      deposit_steps rt accounts params l s shares fee w box t t'
          (read_jito_rate_of_RateSource accounts.jito_pool l s k.source) payload due paid charged,
    )

-- A deposit that the lockbox can take goes through: into a solvent store that is not halted, of
-- positive atoms that the user holds, within the cap and worth at least a share, with the
-- canonical pool at any rate with a supply. It is assumed that the accounts, the destination and
-- the peer are the configured ones, that the recipient is an EVM address, that the token program
-- carries out transfers of what an account holds, that the endpoint takes the message, that the
-- atoms fit a u64, and that the products fit a u128.
pub handle-lock_succeeds :
    (rt : Runtime) (p : Payments rt) (accounts : Lock) (params : LockParams) (l s : ℕ)
    (w : World rt)
    → Sendable rt accounts params l s w
    → accounts.user_ata ≢ accounts.escrow_ata
    → p.InOrder w.tokens accounts.user_ata accounts.escrow_ata accounts.user
    → p.InOrder w.tokens accounts.escrow_ata accounts.harvest_ata rt.store_key
    → Solvent rt w
    → CallFits (Call.lock params.atoms l s) (lockbox w.store)
    → 0 < s
    → w.store.last_accounted < u64_size
    → params.atoms < u64_size
    → params.atoms ≤ amount rt w.tokens accounts.user_ata
    → w.store.halted ≡ false
    → 0 < params.atoms
    → (w.store.deposit_cap_atoms ≡ 0)
      ⊎ (w.store.last_accounted + params.atoms ≤ w.store.deposit_cap_atoms)
    → (w.store.total_shares ≡ 0) ⊎ (w.store.last_accounted ≤ params.atoms * w.store.total_shares)
    → (w' : World rt) × (handle rt accounts params w ≡ done w')
unfolding handle apply
handle-lock_succeeds rt p accounts params l s w k apart first second solvent fits supply small
      small_atoms has running some_atoms within enough =
    let (message, store, tokens, deposited) =
      deposit_succeeds rt p accounts params l s w k apart first second solvent fits supply small
        small_atoms has running some_atoms within enough in
    let (endpoint, sent) = k.sends message in
    let m : World rt = record w { store = store; tokens = tokens } in
    (
      record m { endpoint = endpoint },
      rw
          (
            k.found,
            (eq_bytes_iff (rt.token w.tokens accounts.user_ata).mint jito_mint_pubkey).1 k.mint,
            (eq_bytes_iff (rt.token w.tokens accounts.user_ata).owner accounts.user).1 k.owner,
            (eq_bytes_iff accounts.escrow_ata w.store.escrow_ata).1 k.escrow_ata,
            (eq_bytes_iff accounts.harvest_ata w.store.harvest_ata).1 k.harvest_ata,
            route_passes params w.store k.peer k.dst_eid k.frozen,
            deposited,
          )
          (dispatched rt params k.peer message k.options m endpoint k.combined sent),
    )
