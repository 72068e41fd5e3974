-- ===== src/Lockbox/Examples.antt =====
-- Runs of the lockbox on concrete amounts, after the tests of solana/leaf-jito-rate/src/lockbox.rs.
use hyper_leaf.Common.{ℕ, ◌+◌, ◌≤◌, ◌<◌, ◌≡◌, ◌⊎◌, inl, inr, refl, true, false, arith}
use hyper_leaf.Outcome.{ok, Error, insufficient, bad_rate, math_overflow, cap}
use hyper_leaf.Rate.{book_retain_fee, rate, shares_from_atoms, atoms_from_shares}
use hyper_leaf.Lockbox.{
  Lockbox, ◌>>=◌, new, lock, unlock, harvest_rate, mint, redeem, settle, halt, donate,
}
use hyper_leaf.Lockbox.Lock.{Locked, lock-Locked}
use hyper_leaf.Lockbox.Unlock.{Unlocked, unlock-Unlocked}
use hyper_leaf.Lockbox.Invariant.{IsValid}
use hyper_leaf.Lockbox.Neutral.{end_of, harvest_first}
use hyper_leaf.Lockbox.Price.{unlock-lock-le}
use hyper_leaf.Lockbox.Outcomes.{FailsWith, unlock_outcome, lock_outcome}
use hyper_leaf.Lockbox.Trace.{here, next, locked, stopped, Run-IsValid}

-- `lock_mints_18dp_shares`, `harvest_then_unlock_is_less_than_deposit`
session :
    (do
      (shares, fee) ← lock 100_000_000_000 1_000_000_000 1_000_000_000
      fee2 ← harvest_rate 1_100_000_000 1_000_000_000
      unlock shares 1_100_000_000 1_000_000_000)
      (new 1_000_000_000_000)
    ≡ (
      ok (99_909_090_910, 0),
      record {
        last_accounted = 0;
        last_rate = 1_100_000_000_000_000_000;
        total_shares = 0;
        deposit_cap_atoms = 1_000_000_000_000;
        escrow_atoms = 0;
        harvest_atoms = 90_909_090;
        halted = false;
      },
    )
unfolding new lock unlock mint redeem harvest_rate settle rate book_retain_fee shares_from_atoms
    atoms_from_shares
session = refl

-- A lockbox with a hundred JitoSOL in it, at the rate 1.
abbrev deposited : Lockbox
deposited = record {
  last_accounted = 100_000_000_000;
  last_rate = 1_000_000_000_000_000_000;
  total_shares = 100_000_000_000_000_000_000;
  deposit_cap_atoms = 0;
  escrow_atoms = 100_000_000_000;
  harvest_atoms = 0;
  halted = false;
}

deposited-IsValid : IsValid deposited
deposited-IsValid = record { cash = omega arith; shares = inr (omega arith, omega arith) }

-- The same after a harvest at the rate 1.1.
abbrev after_rise : Lockbox
after_rise = record deposited {
  last_accounted = 99_909_090_910;
  last_rate = 1_100_000_000_000_000_000;
  escrow_atoms = 99_909_090_910;
  harvest_atoms = 90_909_090;
}

harvest_run : harvest_rate 1_100_000_000 1_000_000_000 deposited ≡ (ok 90_909_090, after_rise)
unfolding harvest_rate settle rate book_retain_fee
harvest_run = refl

abbrev emptied : Lockbox
emptied = record after_rise { last_accounted = 0; total_shares = 0; escrow_atoms = 0 }

unlock_run :
    unlock 100_000_000_000_000_000_000 1_100_000_000 1_000_000_000 deposited
    ≡ (ok (99_909_090_910, 90_909_090), emptied)
unfolding unlock redeem harvest_rate settle rate book_retain_fee atoms_from_shares
unlock_run = refl

lock_run :
    lock 100_000_000_000 1_000_000_000 1_000_000_000 (new 0)
    ≡ (ok (100_000_000_000_000_000_000, 0), deposited)
unfolding new lock mint harvest_rate settle rate book_retain_fee shares_from_atoms
lock_run = refl

new_box-IsValid : IsValid (new 0)
unfolding new
new_box-IsValid = record { cash = omega arith; shares = inl (refl, refl) }

lock-Locked_example :
    Locked
      (new 0)
      (harvest_rate 1_000_000_000 1_000_000_000 (new 0)).1
      100_000_000_000
      100_000_000_000_000_000_000
      0
      deposited
lock-Locked_example =
    lock-Locked 100_000_000_000 1_000_000_000 1_000_000_000 (new 0) 100_000_000_000_000_000_000 0
      deposited lock_run

unlock-Unlocked_example :
    Unlocked deposited
      (harvest_rate 1_100_000_000 1_000_000_000 deposited).1
      100_000_000_000_000_000_000
      99_909_090_910
      90_909_090
      emptied
unlock-Unlocked_example =
    unlock-Unlocked 100_000_000_000_000_000_000 1_100_000_000 1_000_000_000 deposited 99_909_090_910
      90_909_090 emptied unlock_run

unlock-lock-le_example : 99_909_090_910 ≤ 100_000_000_000
unlock-lock-le_example =
    unlock-lock-le 100_000_000_000 1_000_000_000 1_000_000_000 1_100_000_000 1_000_000_000 (new 0)
      100_000_000_000_000_000_000 0 deposited 99_909_090_910 90_909_090 emptied new_box-IsValid
      lock_run unlock_run

abbrev some_supply : ℕ
some_supply = 10

abbrev some_shares : ℕ
some_shares = 1_000

abbrev no_cap : ℕ
no_cap = 0

unlock_outcome_example :
    FailsWith
      (λ e.
        ((e ≡ insufficient) × ((some_shares ≡ 0) ⊎ (deposited.total_shares < some_shares)))
        ⊎ (((e ≡ bad_rate) × (some_supply ≡ 0)) ⊎ ((e ≡ Error.zero) ⊎ (e ≡ math_overflow))))
      (unlock some_shares 10 some_supply deposited).0
unlock_outcome_example =
    unlock_outcome some_shares 10 some_supply deposited deposited-IsValid (ground arith)

lock_outcome_example :
    FailsWith
      (λ e.
        ((e ≡ Error.halted) × (deposited.halted ≡ true))
        ⊎ (((e ≡ bad_rate) × (some_supply ≡ 0))
            ⊎ ((e ≡ cap) ⊎ ((e ≡ Error.zero) ⊎ (e ≡ math_overflow)))))
      (lock 1_000 10 some_supply deposited).0
lock_outcome_example =
    lock_outcome 1_000 10 some_supply deposited deposited-IsValid (ground arith) (ground arith)
      (ground arith)

abbrev stopped_box : Lockbox
stopped_box = record deposited { halted = true }

halt_run : halt deposited ≡ (ok tt, stopped_box)
unfolding halt
halt_run = refl

Run-IsValid_example :
    IsValid stopped_box
    × (stopped_box.escrow_atoms + stopped_box.harvest_atoms + 0 ≡ 100_000_000_000)
    × (stopped_box.deposit_cap_atoms ≡ no_cap)
    × ((no_cap ≡ 0) ⊎ (stopped_box.last_accounted ≤ no_cap))
Run-IsValid_example = Run-IsValid no_cap 100_000_000_000 0 stopped_box (
    next
      (next here 100_000_000_000 0
        (locked 1_000_000_000 1_000_000_000 100_000_000_000_000_000_000 0 lock_run refl) refl refl)
      0 0 (stopped halt_run refl refl) refl refl)

abbrev with_gift : Lockbox
with_gift = record stopped_box { escrow_atoms = 100_000_000_005 }

donate_run : donate 5 stopped_box ≡ (ok tt, with_gift)
unfolding donate
donate_run = refl

harvest_first_example :
    (end_of (lock 5_000 1_100_000_000 1_000_000_000 after_rise)
      ≡ end_of (lock 5_000 1_100_000_000 1_000_000_000 deposited))
    × (end_of (unlock 7_000_000_000 1_100_000_000 1_000_000_000 after_rise)
        ≡ end_of (unlock 7_000_000_000 1_100_000_000 1_000_000_000 deposited))
    × (harvest_rate 1_100_000_000 1_000_000_000 after_rise ≡ (ok 0, after_rise))
harvest_first_example =
    harvest_first 5_000 7_000_000_000 1_100_000_000 1_000_000_000 90_909_090 deposited after_rise
      deposited-IsValid harvest_run
