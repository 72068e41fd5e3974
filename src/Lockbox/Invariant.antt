-- ===== src/Lockbox/Invariant.antt =====
-- The invariant of the lockbox, and that every operation keeps it.
use hyper_leaf.Common.{ℕ, ◌≤◌, ◌<◌, ◌≡◌, ◌⊎◌, arith, mul-div-lt_whole, mul-div_whole}
use hyper_leaf.Outcome.{ok}
use hyper_leaf.Lockbox.{Lockbox, new, harvest_rate, lock, unlock, donate, halt}
use hyper_leaf.Lockbox.Harvest.{Settled, harvest_rate-Settled}
use hyper_leaf.Lockbox.Lock.{Minted, lock-Locked}
use hyper_leaf.Lockbox.Unlock.{Redeemed, unlock-Unlocked}

-- The escrow covers the accounted atoms, and there are shares exactly when atoms are accounted.
pub record IsValid (b : Lockbox) : Type 0 where
  pub cash : b.last_accounted ≤ b.escrow_atoms
  pub shares :
      ((b.total_shares ≡ 0) × (b.last_accounted ≡ 0))
      ⊎ ((0 < b.total_shares) × (0 < b.last_accounted))

pub new-IsValid : (cap : ℕ) → IsValid (new cap)
unfolding new
new-IsValid cap = ground arith

pub Settled-IsValid :
    (b : Lockbox) (fee : ℕ) (b' : Lockbox) → Settled b fee b' → IsValid b → IsValid b'
Settled-IsValid b fee b' s v = omega arith

Minted-IsValid :
    (b : Lockbox) (atoms shares : ℕ) (b' : Lockbox)
    → Minted b atoms shares b'
    → 0 < atoms
    → IsValid b'
Minted-IsValid b atoms shares b' m pos = record { cash = m.cash; shares = omega arith }

Redeemed-IsValid :
    (b : Lockbox) (shares atoms : ℕ) (b' : Lockbox)
    → Redeemed b shares atoms b'
    → IsValid b
    → IsValid b'
Redeemed-IsValid b shares atoms b' r v = ground (
  arith,
  mul-div-lt_whole shares b.last_accounted b.total_shares,
  mul-div_whole b.total_shares b.last_accounted,
)

-- Every operation that succeeds keeps the invariant.
harvest_rate-IsValid :
    (l s : ℕ) (b : Lockbox) (fee : ℕ) (b' : Lockbox)
    → harvest_rate l s b ≡ (ok fee, b')
    → IsValid b
    → IsValid b'
harvest_rate-IsValid l s b fee b' h v =
    Settled-IsValid b fee b' (harvest_rate-Settled l s b fee b' h) v

pub lock-IsValid :
    (atoms l s : ℕ) (b : Lockbox) (r : ℕ × ℕ) (b' : Lockbox)
    → lock atoms l s b ≡ (ok r, b')
    → IsValid b
    → IsValid b'
lock-IsValid atoms l s b (shares, fee) b' h v =
    let k = lock-Locked atoms l s b shares fee b' h in
    Minted-IsValid (harvest_rate l s b).1 atoms shares b' k.minted k.some_atoms

pub unlock-IsValid :
    (shares l s : ℕ) (b : Lockbox) (r : ℕ × ℕ) (b' : Lockbox)
    → unlock shares l s b ≡ (ok r, b')
    → IsValid b
    → IsValid b'
unlock-IsValid shares l s b (atoms, fee) b' h v =
    let k = unlock-Unlocked shares l s b atoms fee b' h in
    Redeemed-IsValid (harvest_rate l s b).1 shares atoms b' k.redeemed
      (Settled-IsValid b fee (harvest_rate l s b).1 k.settled v)

donate-IsValid : (atoms : ℕ) (b : Lockbox) → IsValid b → IsValid (donate atoms b).1
unfolding donate
donate-IsValid atoms b v = ground arith

pub halt-IsValid : (b : Lockbox) → IsValid b → IsValid (halt b).1
unfolding halt
halt-IsValid b v = ground arith
