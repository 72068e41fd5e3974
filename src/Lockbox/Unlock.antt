-- ===== src/Lockbox/Unlock.antt =====
-- What `unlock` does to the lockbox.
use hyper_leaf.Common.{ℕ, ◌+◌, ◌*◌, ◌/◌, ◌≤◌, ◌<◌, ◌≡◌, arith}
use hyper_leaf.Outcome.{ok}
use hyper_leaf.Rate.{atoms_from_shares}
use hyper_leaf.Lockbox.{Lockbox, redeem, unlock, harvest_rate}
use hyper_leaf.Lockbox.Harvest.{Settled, harvest_rate-Settled}

-- A redemption of `shares` for `atoms`: the proportional part of the accounted atoms, rounded
-- down, leaves both books.
pub record Redeemed (b : Lockbox) (shares atoms : ℕ) (b' : Lockbox) : Type 0 where
  pub accounted : b'.last_accounted + atoms ≡ b.last_accounted
  pub escrow : b'.escrow_atoms + atoms ≡ b.escrow_atoms
  pub total : b'.total_shares + shares ≡ b.total_shares
  pub rate : b'.last_rate ≡ b.last_rate
  pub harvest : b'.harvest_atoms ≡ b.harvest_atoms
  pub cap : b'.deposit_cap_atoms ≡ b.deposit_cap_atoms
  pub halted : b'.halted ≡ b.halted
  pub some_atoms : 0 < atoms
  pub price : atoms ≡ shares * b.last_accounted / b.total_shares
  pub some_shares : 0 < shares
  pub cash : b'.last_accounted ≤ b'.escrow_atoms

redeem-Redeemed :
    (shares : ℕ) (b : Lockbox) (atoms : ℕ) (b' : Lockbox)
    → redeem shares b ≡ (ok atoms, b')
    → Redeemed b shares atoms b'
unfolding redeem atoms_from_shares
redeem-Redeemed shares b atoms b' h = ground arith

-- An `unlock` that succeeds settles the fee, which takes the lockbox to `m`, and then redeems at
-- what `m` holds.
pub record Unlocked (b m : Lockbox) (shares atoms fee : ℕ) (b' : Lockbox) : Type 0 where
  pub settled : Settled b fee m
  pub redeemed : Redeemed m shares atoms b'

-- An unlock that succeeds settles the fee, and then pays the rounded-down proportion of the
-- accounted atoms, at least one, which leaves both books while the shares are burnt; nothing else
-- changes.
pub unlock-Unlocked :
    (shares l s : ℕ) (b : Lockbox) (atoms fee : ℕ) (b' : Lockbox)
    → unlock shares l s b ≡ (ok (atoms, fee), b')
    → Unlocked b (harvest_rate l s b).1 shares atoms fee b'
unfolding unlock
unlock-Unlocked shares l s b atoms fee b' h =
    let m : Lockbox = (harvest_rate l s b).1 in
    let ran : harvest_rate l s b ≡ (ok fee, m) = ground arith in
    let went_on : redeem shares m ≡ (ok atoms, b') = ground arith in
    record {
      settled = harvest_rate-Settled l s b fee m ran;
      redeemed = redeem-Redeemed shares m atoms b' went_on;
    }
