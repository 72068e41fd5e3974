-- ===== src/Program/Entry/RoundTrip.antt =====
-- A lock followed by the inbound message for the shares that it minted.
use hyper_leaf.Common.{ℕ, ◌+◌, ◌≤◌, ◌≡◌, ◌≢◌, sym, ap, subst, ◌∙◌, arith, length}
use hyper_leaf.Bytes.{Bytes}
use hyper_leaf.Outcome.{ok}
use hyper_leaf.Rate.{listing_tag}
use hyper_leaf.Lockbox as Box
use hyper_leaf.Lockbox.Lock.{lock-Locked}
use hyper_leaf.Lockbox.Price.{unlock-lock-le}
use hyper_leaf.Lockbox.Trace.{lz_receive-unlock}
use hyper_leaf.Program.State.{Store, lockbox}
use hyper_leaf.Program.Runtime.{Runtime}
use hyper_leaf.Program.MsgCodec
use hyper_leaf.Program.Errors.{done, done-injective}
use hyper_leaf.Program.World.{World}
use hyper_leaf.Program.World.Moves.{amount}
use hyper_leaf.Program.World.Solvent.{Solvent}
use hyper_leaf.Program.Lock
use hyper_leaf.Program.Lock.{Lock, LockParams}
use hyper_leaf.Program.Lock.Bridged.{handle-Bridged}
use hyper_leaf.Program.LzReceive
use hyper_leaf.Program.LzReceive.{LzReceive, LzReceiveParams}
use hyper_leaf.Program.LzReceive.Received.{handle-Delivered}
use hyper_leaf.Program.LzReceive.PaidOut.{payment}

-- Bridging there and back does not gain: after a lock from a solvent store, an inbound message
-- that redeems the minted shares right afterwards raises the balance of its recipient by at most
-- the atoms that were locked, at whatever rates the two instructions read the pool. It is assumed
-- that the EVM recipient has 32 bytes, that the user's and the harvest account are not the escrow
-- account, and that the recipient's account is neither of the two.
pub lz_receive-lock-le :
    (rt : Runtime) (accounts : Lock) (params : LockParams) (w w₁ : World rt) (inbound : LzReceive)
    (message : LzReceiveParams) (tag to : Bytes) (shares : ℕ) (w₂ : World rt)
    → length params.evm_to ≡ 32
    → accounts.user_ata ≢ w.store.escrow_ata
    → w.store.escrow_ata ≢ w.store.harvest_ata
    → inbound.recipient_ata ≢ w.store.escrow_ata
    → inbound.recipient_ata ≢ w.store.harvest_ata
    → Solvent rt w
    → Lock.handle rt accounts params w ≡ done w₁
    → w₁.store.total_shares ≡ w.store.total_shares + shares
    → MsgCodec.decode message.message ≡ done (tag, to, shares)
    → LzReceive.handle rt inbound message w₁ ≡ done w₂
    → amount rt w₂.tokens inbound.recipient_ata
      ≤ amount rt w₁.tokens inbound.recipient_ata + params.atoms
unfolding lockbox
lz_receive-lock-le rt accounts params w w₁ inbound message tag to shares w₂ wide own apart ne₁ ne₂
      solvent h minted decoded h' =
    let k = handle-Bridged rt accounts params w w₁ wide own apart h in
    let d = k.deposited in
    let at₁ = k.dispatched.store_kept in
    let escrow₁ : w₁.store.escrow_ata ≡ w.store.escrow_ata =
      ap (λ (s : Store). s.escrow_ata) at₁ ∙ d.escrow_kept in
    let harvest₁ : w₁.store.harvest_ata ≡ w.store.harvest_ata =
      ap (λ (s : Store). s.harvest_ata) at₁ ∙ d.harvest_kept in
    let k' =
      handle-Delivered rt inbound message w₁ w₂ (λ same. ne₁ (same ∙ escrow₁))
        (λ same. apart (sym escrow₁ ∙ same ∙ harvest₁)) h' in
    let p = k'.paid_out in
    let parts = done-injective (sym k'.accepted.decoded ∙ decoded) in
    let received : k'.shares ≡ shares = ap (λ (m : Bytes × Bytes × ℕ). m.2) parts in
    let box =
      lock-Locked params.atoms d.lamports d.supply (lockbox w.store) d.shares d.fee
        (lockbox k.middle.store) d.locked in
    let total = ap (λ (s : Store). s.total_shares) at₁ in
    let same_shares : d.shares ≡ k'.shares =
      omega (arith, received, minted, total, box.minted.total, box.settled.shares) in
    let middle : k'.middle.store ≡ k.middle.store = k'.accepted.store_kept ∙ at₁ in
    let unlocked =
      lz_receive-unlock k'.tag listing_tag k'.shares p.lamports p.supply (lockbox k'.middle.store)
        (p.atoms, p.fee) (lockbox w₂.store) p.received in
    let unlocked' : Box.unlock d.shares p.lamports p.supply (lockbox k.middle.store)
        ≡ (ok (p.atoms, p.fee), lockbox w₂.store) =
      subst
        (λ n.
          Box.unlock n p.lamports p.supply (lockbox k.middle.store)
          ≡ (ok (p.atoms, p.fee), lockbox w₂.store))
        (sym same_shares)
        (subst
          (λ s.
            Box.unlock k'.shares p.lamports p.supply (lockbox s)
            ≡ (ok (p.atoms, p.fee), lockbox w₂.store))
          middle unlocked) in
    let bounded =
      unlock-lock-le params.atoms d.lamports d.supply p.lamports p.supply (lockbox w.store) d.shares
        d.fee (lockbox k.middle.store) p.atoms p.fee (lockbox w₂.store) solvent.valid d.locked
        unlocked' in
    let got =
      payment rt inbound k'.tag k'.shares k'.middle w₂ p
        (λ same. ne₁ (same ∙ k'.escrow_ata ∙ escrow₁))
        (λ same. ne₂ (same ∙ k'.harvest_ata ∙ harvest₁)) in
    omega (arith, got, bounded, k'.accepted.ready.balances inbound.recipient_ata)
