-- ===== src/Lockbox/Lock.antt =====
-- What `lock` does to the lockbox.
use hyper_leaf.Common.{ℕ, ◌+◌, ◌*◌, ◌/◌, ◌≤◌, ◌<◌, ◌≡◌, ◌⊎◌, arith, false}
use hyper_leaf.Outcome.{ok, u128_size}
use hyper_leaf.Rate.{share_scale, shares_from_atoms}
use hyper_leaf.Lockbox.{Lockbox, mint, lock, harvest_rate}
use hyper_leaf.Lockbox.Harvest.{Settled, harvest_rate-Settled}

-- A deposit of `atoms` for `shares`: both books grow by the atoms, the shares by what was minted;
-- the first deposit is minted at the fixed scale, any other at most in proportion.
pub record Minted (b : Lockbox) (atoms shares : ℕ) (b' : Lockbox) : Type 0 where
  pub accounted : b'.last_accounted ≡ b.last_accounted + atoms
  pub escrow : b'.escrow_atoms ≡ b.escrow_atoms + atoms
  pub total : b'.total_shares ≡ b.total_shares + shares
  pub rate : b'.last_rate ≡ b.last_rate
  pub harvest : b'.harvest_atoms ≡ b.harvest_atoms
  pub cap : b'.deposit_cap_atoms ≡ b.deposit_cap_atoms
  pub halted : b'.halted ≡ b.halted
  pub some_shares : 0 < shares
  pub fits : b'.total_shares < u128_size
  pub accounted_fits : b'.last_accounted < u128_size
  pub escrow_fits : b'.escrow_atoms < u128_size
  pub backed : (b.total_shares ≡ 0) ⊎ (0 < b.last_accounted)
  pub price :
      ((b.total_shares ≡ 0) × (shares ≡ atoms * share_scale))
      ⊎ ((0 < b.total_shares) × (shares ≡ atoms * b.total_shares / b.last_accounted))
  pub within : (b.deposit_cap_atoms ≡ 0) ⊎ (b.last_accounted + atoms ≤ b.deposit_cap_atoms)
  pub cash : b'.last_accounted ≤ b'.escrow_atoms

mint-Minted :
    (atoms : ℕ) (b : Lockbox) (shares : ℕ) (b' : Lockbox)
    → mint atoms b ≡ (ok shares, b')
    → Minted b atoms shares b'
unfolding mint shares_from_atoms
mint-Minted atoms b shares b' h = ground arith

-- A `lock` that succeeds was not halted and of a positive amount: it settles the fee, which takes
-- the lockbox to `m`, and then mints at what `m` holds.
pub record Locked (b m : Lockbox) (atoms shares fee : ℕ) (b' : Lockbox) : Type 0 where
  pub settled : Settled b fee m
  pub minted : Minted m atoms shares b'
  pub open_for_deposits : b.halted ≡ false
  pub some_atoms : 0 < atoms

-- A lock that succeeds was of a positive amount and not halted; it settles the fee, and then both
-- books grow by the atoms and the shares by what was minted, which is the fixed scale for the
-- first deposit and the rounded-down proportion for any other; the result is within the cap and
-- backed, the two books and the shares each fit a u128, and nothing else changes.
pub lock-Locked :
    (atoms l s : ℕ) (b : Lockbox) (shares fee : ℕ) (b' : Lockbox)
    → lock atoms l s b ≡ (ok (shares, fee), b')
    → Locked b (harvest_rate l s b).1 atoms shares fee b'
unfolding lock
lock-Locked atoms l s b shares fee b' h =
    let m : Lockbox = (harvest_rate l s b).1 in
    let ran : harvest_rate l s b ≡ (ok fee, m) = ground arith in
    let went_on : mint atoms m ≡ (ok shares, b') = ground arith in
    record {
      settled = harvest_rate-Settled l s b fee m ran;
      minted = mint-Minted atoms m shares b' went_on;
      open_for_deposits = ground arith;
      some_atoms = ground arith;
    }
