-- ===== src/Lockbox/Vault/Exit.antt =====
-- Holders can always leave: what is needed for a redemption to succeed.
use native.Mathlib.Nat.{mul-le-mul_left, le-div_iff_mul-le}
use hyper_leaf.Common.{
  ℕ, ◌+◌, ◌-◌, ◌*◌, ◌/◌, ◌≤◌, ◌<◌, ◌≡◌, refl, subst, arith, IsFloor, div-IsFloor,
}
use hyper_leaf.Outcome.{ok}
use hyper_leaf.Lockbox as Box
use hyper_leaf.Lockbox.{Lockbox}
use hyper_leaf.Lockbox.Invariant.{IsValid}
use hyper_leaf.Lockbox.Vault.{Redemption}
use hyper_leaf.Lockbox.Vault.Accrues.{accrues}
use hyper_leaf.Lockbox.Vault.Calls.{Call, perform, view, unlocked}
use hyper_leaf.Lockbox.Vault.Complete.{CallFits, perform_of_Permits}

-- What is worth an atom when one percent is taken off is worth one after the fee.
worth_left :
    (n held left fee t : ℕ)
    → left + fee ≡ held
    → fee * 100 ≤ held
    → t * 100 ≤ n * held * 99
    → t ≤ n * left
worth_left n held left fee t paid part worth =
    let most : n * (held * 99) ≤ n * (left * 100) = mul-le-mul_left n (omega arith) in omega arith

-- From a valid lockbox, halted or not, at any reading of a pool that has a supply, a positive
-- part of the shares that is worth an atom once one percent is taken off can be redeemed: the
-- call succeeds and pays the rounded-down part of what is accounted less a fee of at most one
-- percent, provided that the products fit a u128.
pub unlock_succeeds :
    (shares l s : ℕ) (b : Lockbox)
    → IsValid b
    → CallFits (Call.unlock shares l s) b
    → 0 < s
    → shares ≤ b.total_shares
    → b.total_shares * 100 ≤ shares * b.last_accounted * 99
    → 0 < shares
    → (atoms : ℕ) × (fee : ℕ) × (b' : Lockbox) × (Box.unlock shares l s b ≡ (ok (atoms, fee), b'))
      × IsFloor atoms (shares * (b.last_accounted - fee)) b.total_shares
      × (fee * 100 ≤ b.last_accounted)
unfolding perform
unlock_succeeds shares l s b v f supply owned worth some_shares =
    let r = l * 1_000_000_000_000_000_000 / s in
    let held : 0 < b.last_accounted = omega (arith, v.shares) in
    let k = accrues r (view b) in
    let m = k.after in
    let n = shares * m.assets in
    let atoms = n / m.shares in
    let some_total : 0 < m.shares = omega (arith, k.same_shares) in
    let floor : IsFloor atoms n m.shares = div-IsFloor n m.shares some_total in
    let some_atoms : 0 < atoms = (le-div_iff_mul-le some_total).1 (
      omega (
        arith,
        worth_left shares b.last_accounted m.assets k.fee b.total_shares k.paid k.one_percent worth,
        k.same_shares,
      )) in
    let redemption : Redemption m shares atoms
        (record m { assets = m.assets - atoms; shares = m.shares - shares }) =
      record {
        some_shares = some_shares;
        owned = omega (arith, k.same_shares);
        some_atoms = some_atoms;
        price = floor;
        after = refl;
      } in
    let (b', ran, _) =
      perform_of_Permits (Call.unlock shares l s) b (atoms, k.fee) _ v f
        (unlocked r m (supply, div-IsFloor (l * 1_000_000_000_000_000_000) s supply) k.accrual
          redemption) in
    let left : m.assets ≡ b.last_accounted - k.fee = omega (arith, k.paid) in
    let price =
      subst (λ a. IsFloor atoms (shares * a) b.total_shares) left
        (subst (λ t. IsFloor atoms n t) k.same_shares floor) in
    (atoms, k.fee, b', ran, price, k.one_percent)
