-- ===== src/Program/Entry/Holder.antt =====
-- What a holder of shares is paid after any transactions of others.
use hyper_leaf.Common.{ℕ, ◌+◌, ◌*◌, ◌<◌, ◌⊎◌, ◌≡◌, ◌≢◌, sym, ap, subst, ◌∙◌, arith, String, List}
use hyper_leaf.Bytes.{Bytes}
use hyper_leaf.Outcome.{ok}
use hyper_leaf.Rate.{listing_tag}
use hyper_leaf.Lockbox as Box
use hyper_leaf.Lockbox.Trace.{lz_receive-unlock}
use hyper_leaf.Lockbox.Vault.Calls.{Call, Permits}
use hyper_leaf.Lockbox.Vault.Refines.{perform-Permits}
use hyper_leaf.Lockbox.Vault.Worth.{redeemed_worth, fetched-IsPaid}
use hyper_leaf.Program.State.{Pubkey, Store, lockbox}
use hyper_leaf.Program.Runtime.{Runtime}
use hyper_leaf.Program.MsgCodec
use hyper_leaf.Program.Errors.{done, done-injective}
use hyper_leaf.Program.World.{World}
use hyper_leaf.Program.World.Moves.{amount}
use hyper_leaf.Program.LzReceive
use hyper_leaf.Program.LzReceive.{LzReceive, LzReceiveParams}
use hyper_leaf.Program.LzReceive.Received.{handle-Delivered}
use hyper_leaf.Program.LzReceive.PaidOut.{payment}
use hyper_leaf.Program.Entry.{Instruction, transact}
use hyper_leaf.Program.Entry.Configuration.{transact-Kept}
use hyper_leaf.Program.Entry.Refines.{vault, unlock_performed}
use hyper_leaf.Program.Entry.Worth.{Outstanding, transact_worth, Outstanding-now, Outstanding-after}

-- A redemption that an inbound instruction makes, as a step of the vault.
redemption_permitted :
    (shares l s atoms fee : ℕ) (tag : Bytes) (before middle after : Store)
    → middle ≡ before
    → Box.lz_receive tag listing_tag shares l s (lockbox middle) ≡ (ok (atoms, fee), lockbox after)
    → Permits (vault before) (Call.unlock shares l s) (atoms, fee) (vault after)
redemption_permitted shares l s atoms fee tag before middle after same h =
    let unlocked =
      lz_receive-unlock tag listing_tag shares l s (lockbox middle) (atoms, fee) (lockbox after)
        h in
    subst (λ (x : Store). Permits (vault x) (Call.unlock shares l s) (atoms, fee) (vault after))
      same
      (perform-Permits (Call.unlock shares l s) (lockbox middle) (atoms, fee) (lockbox after)
        (unlock_performed shares l s (atoms, fee) (lockbox middle) (lockbox after) unlocked))

-- Nobody can dilute a holder: over any transactions that call the entry points on an existing
-- store, in any order and by anyone, with shares outstanding before each and at the end, an
-- inbound message for some shares that then goes through pays its recipient atoms such that one
-- atom more is worth more than these shares were at the start, in the base asset at the
-- high-water marks; where the mark at the end is zero, they were worth nothing. It is assumed
-- that the escrow, the harvest and the recipient's account differ.
pub holder_paid :
    (rt : Runtime) (to_string : Pubkey → String) (instructions : List Instruction) (w : World rt)
    (inbound : LzReceive) (message : LzReceiveParams) (tag to : Bytes) (shares : ℕ) (w' : World rt)
    → Outstanding rt to_string instructions w
    → w.store.escrow_ata ≢ w.store.harvest_ata
    → inbound.recipient_ata ≢ w.store.escrow_ata
    → inbound.recipient_ata ≢ w.store.harvest_ata
    → MsgCodec.decode message.message ≡ done (tag, to, shares)
    → LzReceive.handle rt inbound message (transact rt to_string instructions w) ≡ done w'
    → (atoms : ℕ) × (amount rt w'.tokens inbound.recipient_ata
        ≡ amount rt (transact rt to_string instructions w).tokens inbound.recipient_ata + atoms)
      × (((w'.store.last_rate ≡ 0) × (shares * (w.store.last_accounted * w.store.last_rate) ≡ 0))
          ⊎ (shares * (w.store.last_accounted * w.store.last_rate)
              < (atoms + 1) * (w'.store.last_rate * w.store.total_shares)))
unfolding lockbox
holder_paid rt to_string instructions w inbound message tag to shares w' held apart ne₁ ne₂ decoded
      h =
    let m = transact rt to_string instructions w in
    let kept = transact-Kept rt to_string instructions w in
    let k =
      handle-Delivered rt inbound message m w' (λ same. ne₁ (same ∙ kept.escrow_ata))
        (λ same. apart (sym kept.escrow_ata ∙ same ∙ kept.harvest_ata)) h in
    let p = k.paid_out in
    let parts = done-injective (sym k.accepted.decoded ∙ decoded) in
    let same : k.shares ≡ shares = ap (λ (x : Bytes × Bytes × ℕ). x.2) parts in
    let got =
      payment rt inbound k.tag k.shares k.middle w' p
        (λ e. ne₁ (e ∙ k.escrow_ata ∙ kept.escrow_ata))
        (λ e. ne₂ (e ∙ k.harvest_ata ∙ kept.harvest_ata)) in
    let permitted =
      redemption_permitted k.shares p.lamports p.supply p.atoms p.fee k.tag m.store k.middle.store
        w'.store k.accepted.store_kept p.received in
    let fetched =
      redeemed_worth (vault m.store) k.shares p.lamports p.supply p.atoms p.fee (vault w'.store)
        permitted in
    let bound =
      fetched-IsPaid (vault w.store) (vault m.store) k.shares p.atoms w'.store.last_rate
        (Outstanding-now rt to_string instructions w held)
        (Outstanding-after rt to_string instructions w held)
        (transact_worth rt to_string instructions w held) fetched in
    (p.atoms, omega (arith, got, k.accepted.ready.balances inbound.recipient_ata), rw same at bound)
