-- ===== src/Lockbox/Vault.antt =====
-- An abstract vault, the contract of lockbox.rs: what is held for the shares, without the token
-- balance that backs it, over unbounded numbers, with floors said by inequalities.
pub mod Calls
pub mod Accrue
pub mod Settle
pub mod Trade
pub mod Refines
pub mod Complete
pub mod Accrues
pub mod Exit
pub mod Enter
pub mod Worth
pub mod Examples
use hyper_leaf.Common.{ℕ, ◌+◌, ◌-◌, ◌*◌, ◌≤◌, ◌<◌, ◌≡◌, ◌⊎◌, Bool, false, true, IsFloor}

pub record Vault : Type 0 where
  pub assets : ℕ
  pub shares : ℕ
  pub mark : ℕ
  pub fees : ℕ
  pub cap : ℕ
  pub closed : Bool

-- The price of the staked token, in units of 10 ^ -18.
abbrev pub IsRate : ℕ → ℕ → ℕ → Type 0
IsRate r lamports supply = (0 < supply) × IsFloor r (lamports * 1_000_000_000_000_000_000) supply

-- The price is read, and one percent of the gain since the high-water mark is put aside.
pub data Accrual (r : ℕ) (v : Vault) (fee : ℕ) (v' : Vault) : Type 0 where
  first_reading : v.mark ≡ 0 → fee ≡ 0 → v' ≡ record v { mark = r } → Accrual r v fee v'
  nothing_held :
      0 < v.mark → v.assets ≡ 0 → 0 < r → fee ≡ 0 → v' ≡ record v { mark = r } → Accrual r v fee v'
  no_gain :
      0 < v.mark → (r ≡ 0) ⊎ ((0 < v.assets) × (r ≤ v.mark)) → fee ≡ 0 → v' ≡ v → Accrual r v fee v'
  gain :
      (gained : ℕ)
      → 0 < v.mark
      → 0 < v.assets
      → v.mark < r
      → IsFloor gained (v.assets * (r - v.mark)) r
      → IsFloor fee gained 100
      → v' ≡ record v { assets = v.assets - fee; mark = r; fees = v.fees + fee }
      → Accrual r v fee v'

-- The first shares come at the fixed scale, later ones in proportion, rounded down, and at least
-- one; the cap is kept.
pub record Deposit (v : Vault) (atoms shares : ℕ) (v' : Vault) : Type 0 where
  pub is_open : v.closed ≡ false
  pub some_atoms : 0 < atoms
  pub some_shares : 0 < shares
  pub price :
      ((v.shares ≡ 0) × (shares ≡ atoms * 1_000_000_000))
      ⊎ ((0 < v.shares) × (0 < v.assets) × IsFloor shares (atoms * v.shares) v.assets)
  pub within : (v.cap ≡ 0) ⊎ (v.assets + atoms ≤ v.cap)
  pub after : v' ≡ record v { assets = v.assets + atoms; shares = v.shares + shares }

-- Shares fetch their part of the assets, rounded down, and at least one atom.
pub record Redemption (v : Vault) (shares atoms : ℕ) (v' : Vault) : Type 0 where
  pub some_shares : 0 < shares
  pub owned : shares ≤ v.shares
  pub some_atoms : 0 < atoms
  pub price : IsFloor atoms (shares * v.assets) v.shares
  pub after : v' ≡ record v { assets = v.assets - atoms; shares = v.shares - shares }

-- Vaults with the same fields are the same.
pub Vault-ext :
    (v v' : Vault)
    → v.assets ≡ v'.assets
    → v.shares ≡ v'.shares
    → v.mark ≡ v'.mark
    → v.fees ≡ v'.fees
    → v.cap ≡ v'.cap
    → v.closed ≡ v'.closed
    → v ≡ v'
Vault-ext v v' a s m f c d =
    λ i. record { assets = a i; shares = s i; mark = m i; fees = f i; cap = c i; closed = d i }
