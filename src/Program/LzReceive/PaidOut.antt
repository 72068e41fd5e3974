-- ===== src/Program/LzReceive/PaidOut.antt =====
-- What an inbound message pays out.
use hyper_leaf.Common.{ℕ, ◌-◌, ◌≡◌, ◌≢◌, inl, inr, ◌+◌, refl, sym, subst, arith}
use hyper_leaf.Bytes.{Bytes}
use hyper_leaf.Outcome.{ok}
use hyper_leaf.Rate.{listing_tag}
use hyper_leaf.Lockbox
use hyper_leaf.Lockbox.{Lockbox}
use hyper_leaf.Lockbox.Trace.{lz_receive-unlock}
use hyper_leaf.Lockbox.Unlock.{unlock-Unlocked}
use hyper_leaf.Program.State.{lockbox, apply_lockbox}
use hyper_leaf.Program.Runtime.{Runtime}
use hyper_leaf.Program.Pool.{read_jito_rate}
use hyper_leaf.Program.Errors.{done, >>=-eq-done, done-injective}
use hyper_leaf.Program.World.{World, run_box, transfer_u64, transfer_fee}
use hyper_leaf.Program.World.Moves.{
  amount, Moved, run_box-eq-done, transfer_u64-Moved, transfer_fee-Moved,
}
use hyper_leaf.Program.LzReceive.{LzReceive, payout}

-- The shares are redeemed at the rate that was read, and the tokens follow the books: the fee
-- from the escrow to the harvest account, then the atoms from the escrow to the recipient.
pub record PaidOut (rt : Runtime) (accounts : LzReceive) (tag : Bytes) (shares : ℕ)
    (w w' : World rt) : Type 0 where
  pub lamports : ℕ
  pub supply : ℕ
  pub atoms : ℕ
  pub fee : ℕ
  pub rate_read : read_jito_rate accounts.jito_pool ≡ done (lamports, supply)
  pub received :
      Lockbox.lz_receive tag listing_tag shares lamports supply (lockbox w.store)
      ≡ (ok (atoms, fee), lockbox w'.store)
  pub between : rt.Tokens
  pub fee_moved : Moved rt w.tokens accounts.escrow_ata accounts.harvest_ata fee between
  pub paid : Moved rt between accounts.escrow_ata accounts.recipient_ata atoms w'.tokens
  pub escrow_kept : w'.store.escrow_ata ≡ w.store.escrow_ata
  pub harvest_kept : w'.store.harvest_ata ≡ w.store.harvest_ata
  pub endpoint_kept : w'.endpoint ≡ w.endpoint

-- The fee that is moved is the fee that was booked.
booked_fee :
    (tag : Bytes) (shares l s : ℕ) (b : Lockbox) (atoms fee : ℕ) (b' : Lockbox)
    → Lockbox.lz_receive tag listing_tag shares l s b ≡ (ok (atoms, fee), b')
    → b'.harvest_atoms - b.harvest_atoms ≡ fee
booked_fee tag shares l s b atoms fee b' h =
    let k =
      unlock-Unlocked shares l s b atoms fee b'
        (lz_receive-unlock tag listing_tag shares l s b (atoms, fee) b' h) in
    omega (arith, k.settled.harvest, k.redeemed.harvest)

pub payout-PaidOut :
    (rt : Runtime) (accounts : LzReceive) (tag : Bytes) (shares : ℕ) (w w' : World rt)
    → accounts.recipient_ata ≢ accounts.escrow_ata
    → accounts.escrow_ata ≢ accounts.harvest_ata
    → payout rt accounts tag shares w ≡ done w'
    → PaidOut rt accounts tag shares w w'
unfolding payout apply_lockbox lockbox
payout-PaidOut rt accounts tag shares w w' apart₁ apart₂ h =
    let ((l, s), read, h1) = >>=-eq-done (read_jito_rate accounts.jito_pool) _ h in
    let receive = Lockbox.lz_receive tag listing_tag shares l s in
    let (((atoms, fee), box), ran, h2) = >>=-eq-done (run_box receive w.store) _ h1 in
    let (between, fee_paid, h3) =
      >>=-eq-done
        (transfer_fee rt w.tokens accounts.escrow_ata accounts.harvest_ata
          (box.harvest_atoms - w.store.harvest_atoms))
        _ h2 in
    let (tokens, paid, h4) =
      >>=-eq-done
        (transfer_u64 rt between accounts.escrow_ata accounts.recipient_ata rt.store_key atoms) _
        h3 in
    let received = run_box-eq-done receive w.store ran in
    let fee_due = booked_fee tag shares l s (lockbox w.store) atoms fee box received in
    rw (← done-injective h4) (record {
      lamports = l;
      supply = s;
      atoms = atoms;
      fee = fee;
      rate_read = read;
      received = received;
      between = between;
      fee_moved =
          subst (λ n. Moved rt w.tokens accounts.escrow_ata accounts.harvest_ata n between) fee_due
            (transfer_fee-Moved rt w.tokens accounts.escrow_ata accounts.harvest_ata
              (box.harvest_atoms - w.store.harvest_atoms) between apart₂ fee_paid);
      paid =
          transfer_u64-Moved rt between accounts.escrow_ata accounts.recipient_ata rt.store_key
            atoms tokens (λ same. apart₁ (sym same)) paid;
      escrow_kept = refl;
      harvest_kept = refl;
      endpoint_kept = refl;
    })

-- What a payment from the escrow adds to the recipient, who is not the harvest account.
pub payment :
    (rt : Runtime) (a : LzReceive) (tag : Bytes) (shares : ℕ) (w w' : World rt)
    (k : PaidOut rt a tag shares w w')
    → a.recipient_ata ≢ a.escrow_ata
    → a.recipient_ata ≢ a.harvest_ata
    → amount rt w'.tokens a.recipient_ata ≡ amount rt w.tokens a.recipient_ata + k.atoms
payment rt a tag shares w w' k ne₁ ne₂ = elim (k.fee_moved.others a.recipient_ata) [
  | inl same ↦ absurd (ne₁ same)
  | inr (inl same) ↦ absurd (ne₂ same)
  | inr (inr same) ↦ omega (arith, k.paid.got, same)
]
