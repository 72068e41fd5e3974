-- ===== src/Program/LzReceive/Paid.antt =====
-- That an inbound message which the program accepts is paid.
use hyper_leaf.Common.{
  ℕ, ◌-◌, ◌*◌, ◌≤◌, ◌<◌, ◌≡◌, ◌≢◌, refl, sym, ap, subst, ◌∙◌, arith, some, ==_iff,
}
use hyper_leaf.Bytes.{Bytes, eq_bytes, eq_bytes_iff}
use hyper_leaf.Outcome.{ok, u64_size}
use hyper_leaf.Rate.{listing_tag}
use hyper_leaf.Ix
use hyper_leaf.Ix.{require_solana_peer}
use hyper_leaf.Lockbox.Invariant.{IsValid}
use hyper_leaf.Lockbox as Box
use hyper_leaf.Lockbox.{Lockbox}
use hyper_leaf.Lockbox.Unlock.{unlock-Unlocked}
use hyper_leaf.Lockbox.Vault.Calls.{Call}
use hyper_leaf.Lockbox.Vault.Complete.{CallFits}
use hyper_leaf.Lockbox.Vault.Exit.{unlock_succeeds}
use hyper_leaf.Program.State.{Store, PeerConfig, lockbox, apply_lockbox}
use hyper_leaf.Program.Runtime.{Runtime}
use hyper_leaf.Program.Pool.{jito_mint_pubkey, read_jito_rate}
use hyper_leaf.Program.Pool.Sound.{RateSource, read_jito_rate_of_RateSource}
use hyper_leaf.Program.MsgCodec
use hyper_leaf.Program.Errors.{done}
use hyper_leaf.Program.World.{World, run_box, outcome, transfer_u64, transfer_fee}
use hyper_leaf.Program.World.Moves.{amount, transfer_fee-Moved}
use hyper_leaf.Program.World.Payments.{Payments, charge_succeeds, pay_succeeds}
use hyper_leaf.Program.World.Solvent.{Solvent}
use hyper_leaf.Program.LzReceive.{
  LzReceive, LzReceiveParams, clear_message, recipient_account, accept, payout, apply, handle,
}
use hyper_leaf.Program.LzReceive.Admitted.{accept-Accepted}

-- The listing's own tag leads to a redemption.
own_tag :
    (shares l s : ℕ) (b : Lockbox)
    → Box.lz_receive listing_tag listing_tag shares l s b ≡ Box.unlock shares l s b
unfolding Box.lz_receive eq_bytes
own_tag shares l s b = refl

payout_steps :
    (rt : Runtime) (accounts : LzReceive) (shares l s atoms fee : ℕ) (w : World rt) (b' : Lockbox)
    (t t' : rt.Tokens)
    → read_jito_rate accounts.jito_pool ≡ done (l, s)
    → Box.lz_receive listing_tag listing_tag shares l s (lockbox w.store) ≡ (ok (atoms, fee), b')
    → b'.harvest_atoms - w.store.harvest_atoms ≡ fee
    → transfer_fee rt w.tokens accounts.escrow_ata accounts.harvest_ata fee ≡ done t
    → transfer_u64 rt t accounts.escrow_ata accounts.recipient_ata rt.store_key atoms ≡ done t'
    → payout rt accounts listing_tag shares w
      ≡ done (record w { store = apply_lockbox b' w.store; tokens = t' })
unfolding payout run_box outcome
payout_steps rt accounts shares l s atoms fee w b' t t' read received due charged paid =
    rw (read, received, due, charged, paid) refl

payout_succeeds :
    (rt : Runtime) (p : Payments rt) (accounts : LzReceive) (shares l s : ℕ) (w : World rt)
    → RateSource accounts.jito_pool l s
    → accounts.escrow_ata ≡ w.store.escrow_ata
    → accounts.escrow_ata ≢ accounts.harvest_ata
    → p.InOrder w.tokens accounts.escrow_ata accounts.harvest_ata rt.store_key
    → p.InOrder w.tokens accounts.escrow_ata accounts.recipient_ata rt.store_key
    → Solvent rt w
    → CallFits (Call.unlock shares l s) (lockbox w.store)
    → 0 < s
    → w.store.last_accounted < u64_size
    → 0 < shares
    → shares ≤ w.store.total_shares
    → w.store.total_shares * 100 ≤ shares * w.store.last_accounted * 99
    → (w' : World rt) × (payout rt accounts listing_tag shares w ≡ done w')
unfolding lockbox
payout_succeeds rt p accounts shares l s w source at apart first second solvent fits supply small
      some_shares owned worth =
    let b = lockbox w.store in
    let (atoms, fee, b', ran, _, _) =
      unlock_succeeds shares l s b solvent.valid fits supply owned worth some_shares in
    let k = unlock-Unlocked shares l s b atoms fee b' ran in
    let received = own_tag shares l s b ∙ ran in
    let due : b'.harvest_atoms - w.store.harvest_atoms ≡ fee =
      omega (arith, k.settled.harvest, k.redeemed.harvest) in
    let held : w.store.escrow_atoms ≤ amount rt w.tokens accounts.escrow_ata =
      subst (λ a. w.store.escrow_atoms ≤ amount rt w.tokens a) (sym at) solvent.funded in
    let (t, charged, order) =
      charge_succeeds rt p w.tokens accounts.escrow_ata accounts.harvest_ata accounts.recipient_ata
        fee first second (omega (arith, held, k.settled.escrow))
        (omega (arith, k.settled.accounted, small)) in
    let moved =
      transfer_fee-Moved rt w.tokens accounts.escrow_ata accounts.harvest_ata fee t apart charged in
    let (t', paid, _) =
      pay_succeeds rt p t accounts.escrow_ata accounts.recipient_ata rt.store_key atoms order
        (omega (arith, moved.paid, held, k.settled.escrow, k.redeemed.escrow))
        (omega (arith, k.settled.accounted, k.redeemed.accounted, small)) in
    (
      record w { store = apply_lockbox b' w.store; tokens = t' },
      payout_steps rt accounts shares l s atoms fee w b' t t'
          (read_jito_rate_of_RateSource accounts.jito_pool l s source) received due charged paid,
    )

-- A message from the configured peer, called with the accounts of the store and an account of its
-- recipient that is in place, which the endpoint clears.
pub record Deliverable (rt : Runtime) (accounts : LzReceive) (params : LzReceiveParams) (shares : ℕ)
    (w m : World rt) : Type 0 where
  pub peer : PeerConfig
  pub found : w.peers params.src_eid ≡ some peer
  pub sender : params.sender ≡ peer.peer_address
  pub escrow_ata : accounts.escrow_ata ≡ w.store.escrow_ata
  pub harvest_ata : accounts.harvest_ata ≡ w.store.harvest_ata
  pub jito_mint : accounts.jito_mint ≡ jito_mint_pubkey
  pub ata_program : accounts.associated_token_program ≡ rt.associated_token_program_id
  pub src_eid : params.src_eid ≡ Ix.dest_eid
  pub endpoint : rt.Endpoint
  pub cleared : clear_message rt accounts params w ≡ done endpoint
  pub to : Bytes
  pub says : MsgCodec.decode params.message ≡ done (listing_tag, to, shares)
  pub solana : require_solana_peer to ≡ ok tt
  pub tokens : rt.Tokens
  pub ready : recipient_account rt accounts to w.tokens ≡ done tokens
  pub after : m ≡ record w { tokens = tokens; endpoint = endpoint }

accept_succeeds :
    (rt : Runtime) (accounts : LzReceive) (params : LzReceiveParams) (shares : ℕ) (w m : World rt)
    → Deliverable rt accounts params shares w m
    → accept rt accounts params w ≡ done (listing_tag, shares, m)
unfolding accept
accept_succeeds rt accounts params shares w m k =
    rw
      (
        (==_iff params.src_eid Ix.dest_eid).1 k.src_eid,
        k.cleared,
        k.says,
        k.solana,
        k.ready,
        k.after,
      )
      refl

-- An inbound message is paid, also when the store is halted: from a solvent store with its two
-- accounts apart, a message of the configured peer that the endpoint clears, and that redeems a
-- positive part of the shares worth an atom once one percent is taken off, goes through with the
-- canonical pool at any rate with a supply. It is assumed that the recipient is a Solana key with
-- its account in place, that the token program carries out transfers of what the escrow account
-- holds to the harvest account and to the recipient, that the accounted atoms fit a u64, and that
-- the products fit a u128.
pub handle_succeeds :
    (rt : Runtime) (p : Payments rt) (accounts : LzReceive) (params : LzReceiveParams)
    (shares l s : ℕ) (w m : World rt)
    → Deliverable rt accounts params shares w m
    → RateSource accounts.jito_pool l s
    → w.store.escrow_ata ≢ w.store.harvest_ata
    → p.InOrder m.tokens accounts.escrow_ata accounts.harvest_ata rt.store_key
    → p.InOrder m.tokens accounts.escrow_ata accounts.recipient_ata rt.store_key
    → Solvent rt w
    → CallFits (Call.unlock shares l s) (lockbox w.store)
    → 0 < s
    → w.store.last_accounted < u64_size
    → 0 < shares
    → shares ≤ w.store.total_shares
    → w.store.total_shares * 100 ≤ shares * w.store.last_accounted * 99
    → (w' : World rt) × (handle rt accounts params w ≡ done w')
unfolding handle apply lockbox
handle_succeeds rt p accounts params shares l s w m k source apart first second solvent fits supply
      small some_shares owned worth =
    let accepted = accept_succeeds rt accounts params shares w m k in
    let a = accept-Accepted rt accounts params w listing_tag shares m accepted in
    let same : w.store ≡ m.store = sym a.store_kept in
    let still : Solvent rt m = record {
      valid = subst (λ x. IsValid (lockbox x)) same solvent.valid;
      funded = omega (
        arith,
        solvent.funded,
        a.ready.balances w.store.escrow_ata,
        ap (λ (x : Store). x.escrow_atoms) same,
        ap (λ (x : Store). amount rt m.tokens x.escrow_ata) same,
      );
    } in
    let apart' : accounts.escrow_ata ≢ accounts.harvest_ata =
      λ e. apart (sym k.escrow_ata ∙ e ∙ k.harvest_ata) in
    let total = ap (λ (x : Store). x.total_shares) same in
    let held = ap (λ (x : Store). x.last_accounted) same in
    let (w', paid) =
      payout_succeeds rt p accounts shares l s m source
        (k.escrow_ata ∙ ap (λ (x : Store). x.escrow_ata) same) apart' first second still
        (subst (λ x. CallFits (Call.unlock shares l s) (lockbox x)) same fits) supply
        (omega (arith, small, held)) some_shares (omega (arith, owned, total))
        (subst (λ (x : Store). x.total_shares * 100 ≤ shares * x.last_accounted * 99) same worth) in
    (
      w',
      rw
          (
            k.found,
            (eq_bytes_iff params.sender k.peer.peer_address).1 k.sender,
            (eq_bytes_iff accounts.escrow_ata w.store.escrow_ata).1 k.escrow_ata,
            (eq_bytes_iff accounts.harvest_ata w.store.harvest_ata).1 k.harvest_ata,
            (eq_bytes_iff accounts.jito_mint jito_mint_pubkey).1 k.jito_mint,
            (eq_bytes_iff accounts.associated_token_program rt.associated_token_program_id).1
                k.ata_program,
            accepted,
          )
          paid,
    )
