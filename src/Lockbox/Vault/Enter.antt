-- ===== src/Lockbox/Vault/Enter.antt =====
-- Depositors can always enter: what is needed for a deposit to succeed.
use native.Mathlib.Nat.{le-div_iff_mul-le}
use hyper_leaf.Common.{
  ℕ, ◌+◌, ◌-◌, ◌*◌, ◌/◌, ◌≤◌, ◌<◌, ◌≡◌, ◌⊎◌, inl, inr, refl, sym, subst, ◌∙◌, arith, false, IsFloor,
  div-IsFloor,
}
use hyper_leaf.Outcome.{ok}
use hyper_leaf.Lockbox as Box
use hyper_leaf.Lockbox.{Lockbox}
use hyper_leaf.Lockbox.Invariant.{IsValid}
use hyper_leaf.Lockbox.Vault.{Deposit}
use hyper_leaf.Lockbox.Vault.Accrues.{accrues}
use hyper_leaf.Lockbox.Vault.Calls.{Call, perform, view, locked}
use hyper_leaf.Lockbox.Vault.Complete.{CallFits, perform_of_Permits}

-- What a deposit mints once the fee is taken.
abbrev pub Price : (atoms total assets shares : ℕ) → Type 0
Price atoms total assets shares =
    ((total ≡ 0) × (shares ≡ atoms * 1_000_000_000))
    ⊎ ((0 < total) × (0 < assets) × IsFloor shares (atoms * total) assets)

-- A number of shares at that price, and at least one.
priced :
    (atoms total assets : ℕ)
    → 0 < atoms
    → (total ≡ 0) ⊎ ((0 < total) × (0 < assets) × (assets ≤ atoms * total))
    → (shares : ℕ) × (0 < shares) × Price atoms total assets shares
priced atoms total assets some_atoms h = elim h [
  | inl none_yet ↦ (atoms * 1_000_000_000, omega arith, inl (none_yet, refl))
  | inr (some_yet, held, enough) ↦ (
    atoms * total / assets,
    (le-div_iff_mul-le held).1 (omega arith),
    inr (some_yet, held, div-IsFloor (atoms * total) assets held),
  )
]

pub lock_succeeds :
    (atoms l s : ℕ) (b : Lockbox)
    → IsValid b
    → CallFits (Call.lock atoms l s) b
    → 0 < s
    → b.halted ≡ false
    → 0 < atoms
    → (b.deposit_cap_atoms ≡ 0) ⊎ (b.last_accounted + atoms ≤ b.deposit_cap_atoms)
    → (b.total_shares ≡ 0) ⊎ (b.last_accounted ≤ atoms * b.total_shares)
    → (shares : ℕ) × (fee : ℕ) × (b' : Lockbox) × (Box.lock atoms l s b ≡ (ok (shares, fee), b'))
      × Price atoms b.total_shares (b.last_accounted - fee) shares
      × (fee * 100 ≤ b.last_accounted)
unfolding perform
lock_succeeds atoms l s b v f supply running some_atoms within enough =
    let r = l * 1_000_000_000_000_000_000 / s in
    let k = accrues r (view b) in
    let m = k.after in
    let ready : (b.total_shares ≡ 0)
        ⊎ ((0 < b.total_shares) × (0 < m.assets) × (m.assets ≤ atoms * b.total_shares)) =
      omega (arith, k.paid, k.one_percent, v.shares, enough) in
    let (shares, some_shares, price) = priced atoms b.total_shares m.assets some_atoms ready in
    let deposit : Deposit m atoms shares
        (record m { assets = m.assets + atoms; shares = m.shares + shares }) =
      record {
        is_open = k.same_closed ∙ running;
        some_atoms = some_atoms;
        some_shares = some_shares;
        price = subst (λ t. Price atoms t m.assets shares) (sym k.same_shares) price;
        within = omega (arith, within, k.same_cap, k.paid);
        after = refl;
      } in
    let (b', ran, _) =
      perform_of_Permits (Call.lock atoms l s) b (shares, k.fee) _ v f
        (locked r m (supply, div-IsFloor (l * 1_000_000_000_000_000_000) s supply) k.accrual
          deposit) in
    let left : m.assets ≡ b.last_accounted - k.fee = omega (arith, k.paid) in
    (
      shares,
      k.fee,
      b',
      ran,
      subst (λ a. Price atoms b.total_shares a shares) left price,
      k.one_percent,
    )
