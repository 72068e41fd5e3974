-- ===== src/Lockbox/Vault/Accrues.antt =====
-- That the abstract vault can always settle its fee.
use native.Mathlib.Decide.{ℕ_discrete, dec_lt}
use hyper_leaf.Common.{ℕ, ◌+◌, ◌-◌, ◌*◌, ◌/◌, ◌≤◌, ◌<◌, ◌≡◌, inl, inr, refl, arith, div-IsFloor}
use hyper_leaf.Rate.Fee.{surplus, surplus-le}
use hyper_leaf.Lockbox.Vault.{Vault, Accrual, first_reading, nothing_held, no_gain, gain}

-- At any price the fee can accrue, and most is left: the vault keeps its shares, its cap and 99
-- percent of the assets.
pub record Accrues (r : ℕ) (v : Vault) : Type 0 where
  pub fee : ℕ
  pub after : Vault
  pub accrual : Accrual r v fee after
  pub same_shares : after.shares ≡ v.shares
  pub same_cap : after.cap ≡ v.cap
  pub same_closed : after.closed ≡ v.closed
  pub paid : after.assets + fee ≡ v.assets
  pub one_percent : fee * 100 ≤ v.assets

Accrues-held : (r : ℕ) (v : Vault) → 0 < v.assets → Accrues r v
Accrues-held r v held = elim (ℕ_discrete v.mark 0) [
  | yes unset ↦ record {
    fee = 0;
    after = record v { mark = r };
    accrual = first_reading unset refl refl;
    same_shares = refl;
    same_cap = refl;
    same_closed = refl;
    paid = omega arith;
    one_percent = omega arith;
  }
  | no set ↦ elim (dec_lt v.mark r) [
    | yes rise ↦
        let gained = surplus v.assets v.mark r in
        let least = surplus-le v.assets v.mark r (omega arith) in
        record {
          fee = gained / 100;
          after = record v {
            assets = v.assets - gained / 100;
            mark = r;
            fees = v.fees + gained / 100;
          };
          accrual =
              gain gained (omega arith) held rise
                (div-IsFloor (v.assets * (r - v.mark)) r (omega arith))
                (div-IsFloor gained 100 (omega arith)) refl;
          same_shares = refl;
          same_cap = refl;
          same_closed = refl;
          paid = omega arith;
          one_percent = omega arith;
        }
    | no fall ↦ record {
      fee = 0;
      after = v;
      accrual = no_gain (omega arith) (inr (held, omega arith)) refl refl;
      same_shares = refl;
      same_cap = refl;
      same_closed = refl;
      paid = omega arith;
      one_percent = omega arith;
    }
  ]
]

-- A settlement that takes nothing.
without_fee :
    (r : ℕ) (v m : Vault)
    → Accrual r v 0 m
    → m.shares ≡ v.shares
    → m.cap ≡ v.cap
    → m.closed ≡ v.closed
    → m.assets ≡ v.assets
    → Accrues r v
without_fee r v m accrual shares cap closed assets = record {
  fee = 0;
  after = m;
  accrual = accrual;
  same_shares = shares;
  same_cap = cap;
  same_closed = closed;
  paid = omega arith;
  one_percent = omega arith;
}

Accrues-empty : (r : ℕ) (v : Vault) → v.assets ≡ 0 → Accrues r v
Accrues-empty r v none_held = elim (ℕ_discrete v.mark 0) [
  | yes unset ↦
      without_fee r v (record v { mark = r }) (first_reading unset refl refl) refl refl refl refl
  | no set ↦ elim (ℕ_discrete r 0) [
    | yes no_rate ↦
        without_fee r v v (no_gain (omega arith) (inl no_rate) refl refl) refl refl refl refl
    | no some_rate ↦
        without_fee r v (record v { mark = r })
          (nothing_held (omega arith) none_held (omega arith) refl refl) refl refl refl refl
  ]
]

pub accrues : (r : ℕ) (v : Vault) → Accrues r v
accrues r v = elim (ℕ_discrete v.assets 0) [
  | yes none_held ↦ Accrues-empty r v none_held
  | no held ↦ Accrues-held r v (omega arith)
]
