-- ===== src/Lockbox/Vault/Settle.antt =====
-- The accrual of the abstract vault, carried out by `harvest_rate` while the numbers fit.
use hyper_leaf.Common.{ℕ, ◌+◌, ◌-◌, ◌*◌, ◌/◌, ◌<◌, ◌≡◌, sym, arith, IsFloor-unique}
use hyper_leaf.Outcome.{ok, u128_size}
use hyper_leaf.Rate.{book_retain_fee}
use hyper_leaf.Rate.Fee.{surplus, surplus-le, book_retain_fee_rise}
use hyper_leaf.Lockbox.{Lockbox, settle, harvest_rate}
use hyper_leaf.Lockbox.Invariant.{IsValid}
use hyper_leaf.Lockbox.Outcomes.{Fits}
use hyper_leaf.Lockbox.Vault.{Vault, IsRate, Accrual, first_reading, nothing_held, no_gain, gain}
use hyper_leaf.Lockbox.Vault.Calls.{view}
use hyper_leaf.Lockbox.Vault.Accrue.{rate_of_IsRate}

-- The lockbox once a fee has accrued, as the vault `m` has it.
abbrev pub accrued : Lockbox → ℕ → Vault → Lockbox
accrued b fee m = record b {
  last_accounted = m.assets;
  last_rate = m.mark;
  escrow_atoms = b.escrow_atoms - fee;
  harvest_atoms = m.fees;
}

-- The gain since the mark can be computed.
abbrev pub GainFits : ℕ → Lockbox → Type 0
GainFits r b =
    (b.last_accounted * (r - b.last_rate) < u128_size) × (b.last_accounted * 100 < u128_size)

settle_gain :
    (r : ℕ) (b : Lockbox)
    → IsValid b
    → Fits b
    → GainFits r b
    → 0 < b.last_rate
    → 0 < b.last_accounted
    → b.last_rate < r
    → let fee = surplus b.last_accounted b.last_rate r / 100 in
      settle r b ≡ (
        ok fee,
        accrued b fee (record (view b) {
          assets = b.last_accounted - fee;
          mark = r;
          fees = b.harvest_atoms + fee;
        }),
      )
unfolding settle
settle_gain r b v f g set held rise =
    let la = b.last_accounted in
    let least = surplus-le la b.last_rate r (omega arith) in
    let booked = book_retain_fee_rise la b.last_rate r held set rise g.0 (omega arith) in
    ground arith

pub harvest_rate_of_Accrual :
    (l s r : ℕ) (b : Lockbox) (fee : ℕ) (m : Vault)
    → IsValid b
    → Fits b
    → GainFits r b
    → IsRate r l s
    → Accrual r (view b) fee m
    → harvest_rate l s b ≡ (ok fee, accrued b fee m)
unfolding harvest_rate
harvest_rate_of_Accrual l s r b fee m v f g is_rate (first_reading unset no_fee after) =
    let e = rate_of_IsRate l s r is_rate in rw (after, no_fee) (ground arith)
harvest_rate_of_Accrual l s r b fee m v f g is_rate
      (nothing_held set none_held some_rate no_fee after) =
    let e = rate_of_IsRate l s r is_rate in
    rw (after, no_fee) (unfold settle book_retain_fee in ground arith)
harvest_rate_of_Accrual l s r b fee m v f g is_rate (no_gain set dip no_fee after) =
    let e = rate_of_IsRate l s r is_rate in
    rw (after, no_fee) (unfold settle book_retain_fee in ground arith)
harvest_rate_of_Accrual l s r b fee m v f g is_rate
      (gain gained set held rise is_gain is_fee after) =
    let e = rate_of_IsRate l s r is_rate in
    let gained_is =
      IsFloor-unique gained (b.last_accounted * (r - b.last_rate)) r (omega arith) is_gain in
    let fee_is = IsFloor-unique fee gained 100 (omega arith) is_fee in
    let total : fee ≡ surplus b.last_accounted b.last_rate r / 100 = sym (rw gained_is fee_is) in
    rw (after, total) (ground (arith, settle_gain r b v f g set held rise))
