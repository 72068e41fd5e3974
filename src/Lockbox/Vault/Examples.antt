-- ===== src/Lockbox/Vault/Examples.antt =====
-- The abstract vault at concrete amounts.
use hyper_leaf.Common.{ℕ, ◌-◌, ◌*◌, ◌≤◌, ◌≡◌, inr, refl, true, arith, List, [], ◌∷◌, IsFloor}
use hyper_leaf.Outcome.{ok}
use hyper_leaf.Lockbox as Box
use hyper_leaf.Lockbox.{Lockbox, new}
use hyper_leaf.Lockbox.Invariant.{IsValid}
use hyper_leaf.Lockbox.Vault.{Vault, no_gain}
use hyper_leaf.Lockbox.Vault.Calls.{Call, perform, view, Permits, Allows, history, unlocked}
use hyper_leaf.Lockbox.Vault.Refines.{history-Allows}
use hyper_leaf.Lockbox.Vault.Complete.{CallFits, perform_of_Permits}
use hyper_leaf.Lockbox.Vault.Exit.{unlock_succeeds}

-- A deposit, a halt, a deposit that is refused for it, and a redemption.
abbrev calls : List Call
calls =
    Call.lock 1_000 10 10 ∷ Call.halt ∷ Call.lock 5 10 10 ∷ Call.unlock 400_000_000_000 10 10 ∷ []

history-Allows_example :
    Allows (view (new 0)) (history calls (new 0)).0 (view (history calls (new 0)).1)
history-Allows_example = history-Allows calls (new 0)

abbrev held : Lockbox
held = record {
  last_accounted = 1_000;
  last_rate = 1_000_000_000_000_000_000;
  total_shares = 1_000_000_000_000;
  deposit_cap_atoms = 0;
  escrow_atoms = 1_000;
  harvest_atoms = 0;
  halted = true;
}

held-IsValid : IsValid held
held-IsValid = record { cash = omega arith; shares = inr (omega arith, omega arith) }

abbrev exit : Call
exit = Call.unlock 400_000_000_000 10 10

exit-CallFits : CallFits exit held
exit-CallFits = ground arith

abbrev left : Vault
left = record (view held) { assets = 600; shares = 600_000_000_000 }

exit-Permits : Permits (view held) exit (400, 0) left
exit-Permits =
    unlocked 1_000_000_000_000_000_000 (view held) (omega arith, ground arith)
      (no_gain (omega arith) (inr (omega arith, omega arith)) refl refl)
      (record {
        some_shares = omega arith;
        owned = omega arith;
        some_atoms = omega arith;
        price = ground arith;
        after = refl;
      })

perform_of_Permits_example :
    (b' : Lockbox) × (perform exit held ≡ (ok (400, 0), b')) × (view b' ≡ left)
perform_of_Permits_example =
    perform_of_Permits exit held (400, 0) left held-IsValid exit-CallFits exit-Permits

unlock_succeeds_example :
    (atoms : ℕ) × (fee : ℕ) × (b' : Lockbox) × (Box.unlock 400_000_000_000 10 10 held
      ≡ (ok (atoms, fee), b'))
    × IsFloor atoms (400_000_000_000 * (1_000 - fee)) 1_000_000_000_000
    × (fee * 100 ≤ 1_000)
unlock_succeeds_example =
    unlock_succeeds 400_000_000_000 10 10 held held-IsValid exit-CallFits (omega arith)
      (omega arith) (omega arith) (omega arith)
