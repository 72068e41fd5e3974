-- ===== src/Lockbox/Vault/Complete.antt =====
-- What the abstract vault permits, the lockbox carries out, while the numbers fit the machine.
use native.Mathlib.Nat.{mul-le-mul_left}
use hyper_leaf.Common.{
  ℕ, ◌+◌, ◌*◌, ◌/◌, ◌≤◌, ◌<◌, ◌≡◌, refl, sym, subst, arith, true, IsFloor-unique,
}
use hyper_leaf.Outcome.{ok, u128_size}
use hyper_leaf.Lockbox as Box
use hyper_leaf.Lockbox.{Lockbox}
use hyper_leaf.Lockbox.Harvest.{harvest_rate-Settled}
use hyper_leaf.Lockbox.Invariant.{IsValid, Settled-IsValid}
use hyper_leaf.Lockbox.Outcomes.{Fits}
use hyper_leaf.Lockbox.Vault.{
  Vault, IsRate, Accrual, first_reading, nothing_held, no_gain, gain, Deposit, Redemption,
}
use hyper_leaf.Lockbox.Vault.Calls.{
  Call, perform, view, Permits, locked, unlocked, harvested, donated, halted,
}
use hyper_leaf.Lockbox.Vault.Settle.{accrued, GainFits, harvest_rate_of_Accrual}
use hyper_leaf.Lockbox.Vault.Trade.{
  deposited, redeemed, MintFits, mint_of_Deposit, redeem_of_Redemption,
}

-- The numbers that a call computes fit a u128.
abbrev pub CallFits : Call → Lockbox → Type 0
CallFits (Call.lock atoms l s) b =
    Fits b × GainFits (l * 1_000_000_000_000_000_000 / s) b × MintFits atoms b
CallFits (Call.unlock shares l s) b =
    Fits b
    × GainFits (l * 1_000_000_000_000_000_000 / s) b
    × (shares * b.last_accounted < u128_size)
CallFits (Call.harvest l s) b = Fits b × GainFits (l * 1_000_000_000_000_000_000 / s) b
CallFits (Call.donate atoms) b = b.escrow_atoms + atoms < u128_size
CallFits Call.halt b = Unit {0}

-- The lockbox after an accrual is seen as the vault after it.
view-accrued :
    (r : ℕ) (b : Lockbox) (fee : ℕ) (m : Vault)
    → Accrual r (view b) fee m
    → view (accrued b fee m) ≡ m
view-accrued r b fee m (first_reading _ _ after) = rw after refl
view-accrued r b fee m (nothing_held _ _ _ _ after) = rw after refl
view-accrued r b fee m (no_gain _ _ _ after) = rw after refl
view-accrued r b fee m (gain _ _ _ _ _ _ after) = rw after refl

-- A settlement that the vault permits is carried out, and leaves a valid lockbox.
record Ran (l s : ℕ) (b : Lockbox) (fee : ℕ) (m : Vault) : Type 0 where
  ran : Box.harvest_rate l s b ≡ (ok fee, accrued b fee m)
  valid : IsValid (accrued b fee m)
  seen : view (accrued b fee m) ≡ m
  less : m.assets ≤ b.last_accounted

settled :
    (l s r : ℕ) (b : Lockbox) (fee : ℕ) (m : Vault)
    → IsValid b
    → Fits b
    → GainFits (l * 1_000_000_000_000_000_000 / s) b
    → IsRate r l s
    → Accrual r (view b) fee m
    → Ran l s b fee m
settled l s r b fee m v f g is_rate accrual =
    let same = IsFloor-unique r (l * 1_000_000_000_000_000_000) s is_rate.0 is_rate.1 in
    let ran =
      harvest_rate_of_Accrual l s r b fee m v f (subst (λ k. GainFits k b) same g) is_rate
        accrual in
    let k = harvest_rate-Settled l s b fee (accrued b fee m) ran in
    record {
      ran = ran;
      valid = Settled-IsValid b fee (accrued b fee m) k v;
      seen = view-accrued r b fee m accrual;
      less = omega (arith, k.accounted);
    }

view-deposited :
    (b : Lockbox) (atoms shares : ℕ) (v' : Vault)
    → Deposit (view b) atoms shares v'
    → view (deposited b atoms v') ≡ v'
view-deposited b atoms shares v' d = rw d.after refl

view-redeemed :
    (b : Lockbox) (shares atoms : ℕ) (v' : Vault)
    → Redemption (view b) shares atoms v'
    → view (redeemed b atoms v') ≡ v'
view-redeemed b shares atoms v' d = rw d.after refl

-- Whatever the abstract vault permits, the code does: from a valid lockbox with amounts that fit
-- a u128 in the products that the call takes, a call is carried out with each answer that the
-- vault permits, and is then seen as the vault after the step.
pub perform_of_Permits :
    (c : Call) (b : Lockbox) (x : ℕ × ℕ) (v' : Vault)
    → IsValid b
    → CallFits c b
    → Permits (view b) c x v'
    → (b' : Lockbox) × (perform c b ≡ (ok x, b')) × (view b' ≡ v')
unfolding perform
perform_of_Permits (Call.lock atoms l s) b x v' v f
      (locked {shares = shares} {fee = fee} r m is_rate accrual deposit) =
    let k = settled l s r b fee m v f.0 f.1 is_rate accrual in
    let box = accrued b fee m in
    let d = subst (λ y. Deposit y atoms shares v') (sym k.seen) deposit in
    let minted = mint_of_Deposit atoms box shares v' k.valid (omega (arith, f.2)) d in
    let is_open = d.is_open in
    (
      deposited box atoms v',
      unfold Box.lock in ground (arith, k.ran, minted, d.some_atoms),
      view-deposited box atoms shares v' d,
    )
perform_of_Permits (Call.unlock shares l s) b x v' v f
      (unlocked {atoms = atoms} {fee = fee} r m is_rate accrual redemption) =
    let k = settled l s r b fee m v f.0 f.1 is_rate accrual in
    let box = accrued b fee m in
    let d = subst (λ y. Redemption y shares atoms v') (sym k.seen) redemption in
    let small : shares * m.assets < u128_size = omega (arith, f.2, mul-le-mul_left shares k.less) in
    let paid = redeem_of_Redemption shares box atoms v' k.valid small d in
    (
      redeemed box atoms v',
      unfold Box.unlock in ground (arith, k.ran, paid, d.some_shares, d.owned),
      view-redeemed box shares atoms v' d,
    )
perform_of_Permits (Call.harvest l s) b x v' v f (harvested {fee = fee} r is_rate accrual) =
    let k = settled l s r b fee v' v f.0 f.1 is_rate accrual in
    (accrued b fee v', ground (arith, k.ran), k.seen)
perform_of_Permits (Call.donate atoms) b x v' v f (donated same) = (
  record b { escrow_atoms = b.escrow_atoms + atoms },
  unfold Box.donate in ground arith,
  sym same,
)
perform_of_Permits Call.halt b x v' v f (halted same) =
    (record b { halted = true }, unfold Box.halt in ground arith, sym same)
