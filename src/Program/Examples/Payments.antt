-- ===== src/Program/Examples/Payments.antt =====
-- The transfers of the concrete ledger, and an inbound message that is paid on it.
use hyper_leaf.Common.{
  ◌≢◌, inr, none, ◌∷◌, ℕ, ◌+◌, ◌-◌, ◌≤◌, ◌≡◌, refl, ap, ◌∙◌, arith, some, [], false, ltb,
}
use hyper_leaf.Bytes.{
  zeros, eq_bytes-ne, eq_bytes, eq_bytes_refl, le_bytes, be_bytes, from_be_bytes, from_le_bytes,
  write_all, copy_at,
}
use hyper_leaf.Outcome.{ok}
use hyper_leaf.Rate.{listing_tag}
use hyper_leaf.Bridge.{encode_bridge, decode_bridge, amount_word}
use hyper_leaf.TokenAccount
use hyper_leaf.Ix
use hyper_leaf.Lockbox.Vault.Calls.{Call}
use hyper_leaf.Lockbox.Vault.Complete.{CallFits}
use hyper_leaf.Program.State.{Pubkey, blank_peer, lockbox}
use hyper_leaf.StakePool.{parse_pool, encode_pool}
use hyper_leaf.Program.Options.{combine_options}
use hyper_leaf.Program.Pool.{jito_mint_pubkey, read_jito_rate, require_token_account}
use hyper_leaf.Program.Pool.Sound.{read_jito_rate-RateSource}
use hyper_leaf.Program.Errors.{done}
use hyper_leaf.Program.World.{World, create_ata_idempotent}
use hyper_leaf.Program.Lock
use hyper_leaf.Program.Lock.Sendable.{Sendable, handle-lock_succeeds}
use hyper_leaf.Program.LzReceive
use hyper_leaf.Program.World.Payments.{Payments}
use hyper_leaf.Program.LzReceive.Paid.{Deliverable, handle_succeeds}
use hyper_leaf.Program.MsgCodec
use hyper_leaf.Program.Examples.Ledger.{
  Accounts, with_amount, move_amount, moved, ledger, store_address,
}
use hyper_leaf.Program.Examples.Setting.{user, evm_peer, pool, no_pool_rise, world, apart}
use hyper_leaf.Program.Examples.Runs.{
  lock_accounts, lock_params, user_apart, receive_accounts, receive_params,
}
use hyper_leaf.Program.Examples.Trips.{pool_run, world-Solvent}

owner_kept : (key k : Pubkey) (n : ℕ) (t : Accounts) → (with_amount key n t k).owner ≡ (t k).owner
unfolding with_amount
owner_kept key k n t = ground arith

move_succeeds :
    (t : Accounts) (from to signer : Pubkey) (n : ℕ)
    → (t from).owner ≡ signer
    → n ≤ (t from).amount
    → (t' : Accounts) × (move_amount t from to signer n ≡ some t')
unfolding move_amount
move_succeeds t from to signer n owner enough =
    let short : ltb (t from).amount n ≡ false = ground arith in
    let less = with_amount from ((t from).amount - n) t in
    (with_amount to ((less to).amount + n) less, rw (short, owner, eq_bytes_refl signer) refl)

move_keeps :
    (t : Accounts) (from to signer other : Pubkey) (n : ℕ) (t' : Accounts)
    → move_amount t from to signer n ≡ some t'
    → (t' other).owner ≡ (t other).owner
move_keeps t from to signer other n t' h =
    let left = (t from).amount - n in
    let less = with_amount from left t in
    let (_, result) = moved t from to signer n t' h in
    ap (λ (f : Accounts). (f other).owner) result
    ∙ owner_kept to other ((less to).amount + n) less
    ∙ owner_kept from other left t

-- The accounts of the store pay.
abbrev ledger_payments : Payments ledger
ledger_payments = record {
  InOrder = λ t from to signer. (t from).owner ≡ signer;
  pays = λ t from to signer n owner enough. move_succeeds t from to signer n owner enough;
  stays = λ t from to signer other to' signer' n t' owner h.
      move_keeps t from to signer other n t' h ∙ owner;
}

cleared : LzReceive.clear_message ledger receive_accounts receive_params world ≡ done []
unfolding LzReceive.clear_message
cleared = refl

says : MsgCodec.decode receive_params.message ≡ done (listing_tag, user, 100_000_000_000_000)
unfolding MsgCodec.decode decode_bridge encode_bridge amount_word be_bytes from_be_bytes write_all
    eq_bytes
says = refl

solana : Ix.require_solana_peer user ≡ ok tt
unfolding Ix.require_solana_peer eq_bytes
solana = refl

ready : LzReceive.recipient_account ledger receive_accounts user world.tokens ≡ done world.tokens
unfolding LzReceive.recipient_account create_ata_idempotent require_token_account TokenAccount.parse
    TokenAccount.encode write_all copy_at le_bytes from_le_bytes eq_bytes with_amount
ready = refl

receive-Deliverable :
    Deliverable ledger receive_accounts receive_params 100_000_000_000_000 world world
receive-Deliverable = record {
  peer = record blank_peer { peer_address = evm_peer };
  found = refl;
  sender = refl;
  escrow_ata = refl;
  harvest_ata = refl;
  jito_mint = refl;
  ata_program = refl;
  src_eid = refl;
  endpoint = [];
  cleared = cleared;
  to = user;
  says = says;
  solana = solana;
  tokens = world.tokens;
  ready = ready;
  after = refl;
}

escrow_owner : (world.tokens world.store.escrow_ata).owner ≡ store_address
unfolding with_amount eq_bytes
escrow_owner = refl

receive-CallFits :
    CallFits (Call.unlock 100_000_000_000_000 1_100_000_000 1_000_000_000) (lockbox world.store)
unfolding lockbox
receive-CallFits = ground arith

handle_succeeds_example :
    (w' : World ledger) × (LzReceive.handle ledger receive_accounts receive_params world ≡ done w')
handle_succeeds_example =
    handle_succeeds ledger ledger_payments receive_accounts receive_params 100_000_000_000_000
      1_100_000_000 1_000_000_000 world world receive-Deliverable
      (read_jito_rate-RateSource pool 1_100_000_000 1_000_000_000 pool_run) apart escrow_owner
      escrow_owner world-Solvent receive-CallFits (omega arith) (omega arith) (omega arith)
      (omega arith) (omega arith)

-- The user's deposit of the runs.
deposit_pool_run : read_jito_rate no_pool_rise ≡ done (1_000_000_000, 1_000_000_000)
unfolding read_jito_rate parse_pool encode_pool write_all copy_at le_bytes from_le_bytes eq_bytes
deposit_pool_run = refl

user_owner : (world.tokens lock_accounts.user_ata).owner ≡ user
unfolding with_amount eq_bytes
user_owner = refl

user_mint : (world.tokens lock_accounts.user_ata).mint ≡ jito_mint_pubkey
unfolding with_amount eq_bytes
user_mint = refl

peer_set : world.store.dest_peer ≢ zeros 32
unfolding eq_bytes
peer_set = (eq_bytes-ne evm_peer (zeros 32)).0 refl

evm_recipient : Ix.require_evm_peer lock_params.evm_to ≡ ok tt
unfolding Ix.require_evm_peer eq_bytes
evm_recipient = refl

no_options : combine_options ledger blank_peer.enforced_options none lock_params.options ≡ done []
unfolding combine_options
no_options = refl

lock-Sendable : Sendable ledger lock_accounts lock_params 1_000_000_000 1_000_000_000 world
lock-Sendable = record {
  peer = record blank_peer { peer_address = evm_peer };
  found = refl;
  mint = user_mint;
  owner = user_owner;
  escrow_ata = refl;
  harvest_ata = refl;
  dst_eid = refl;
  frozen = inr (peer_set, refl);
  source = read_jito_rate-RateSource no_pool_rise 1_000_000_000 1_000_000_000 deposit_pool_run;
  to_evm = evm_recipient;
  options = [];
  combined = no_options;
  sends = λ message. (message ∷ world.endpoint, refl);
}

lock-CallFits : CallFits (Call.lock 1_000 1_000_000_000 1_000_000_000) (lockbox world.store)
unfolding lockbox
lock-CallFits = ground arith

user_has : 1_000 ≤ (world.tokens lock_accounts.user_ata).amount
unfolding with_amount eq_bytes
user_has = omega arith

handle-lock_succeeds_example :
    (w' : World ledger) × (Lock.handle ledger lock_accounts lock_params world ≡ done w')
handle-lock_succeeds_example =
    handle-lock_succeeds ledger ledger_payments lock_accounts lock_params 1_000_000_000
      1_000_000_000 world lock-Sendable user_apart user_owner escrow_owner world-Solvent
      lock-CallFits (omega arith) (omega arith) (omega arith) user_has refl (omega arith)
      (omega arith) (omega arith)
