-- ===== src/Lockbox/Vault/Worth.antt =====
-- What a share of the abstract vault is worth at the high-water mark, over its steps.
use native.Mathlib.Decide.{ℕ_discrete}
use native.Mathlib.Nat.{
  mul-pos, lt_of_mul-lt-mul_right, mul-le-mul_left, mul-le-mul_right, le_of_mul-le-mul_right,
  le_trans,
}
use hyper_leaf.Common.{ℕ, ◌+◌, ◌-◌, ◌*◌, ◌≤◌, ◌<◌, ◌≡◌, ◌⊎◌, inl, inr, refl, ap, arith}
use hyper_leaf.Lockbox.Vault.{
  Vault, Accrual, first_reading, nothing_held, no_gain, gain, Deposit, Redemption,
}
use hyper_leaf.Lockbox.Vault.Calls.{Call, Permits, locked, unlocked, harvested, donated, halted}

-- The value of all assets in the base asset, at the mark.
abbrev pub value : Vault → ℕ
value v = v.assets * v.mark

-- A share is worth in `v'` at least what it is worth in `v`.
abbrev pub KeepsWorth : Vault → Vault → Type 0
KeepsWorth v v' = value v * v'.shares ≤ value v' * v.shares

-- With shares in the middle, worths compare in a row.
chain-le : (a s b t c u : ℕ) → 0 < t → a * t ≤ b * s → b * u ≤ c * t → a * u ≤ c * s
chain-le a s b t c u some_shares first second =
    let one : a * t * u ≤ b * s * u = mul-le-mul_right u first in
    let two : s * (b * u) ≤ s * (c * t) = mul-le-mul_left s second in
    le_of_mul-le-mul_right (omega arith) some_shares

pub KeepsWorth-trans :
    (v m v' : Vault) → 0 < m.shares → KeepsWorth v m → KeepsWorth m v' → KeepsWorth v v'
KeepsWorth-trans v m v' some_shares first second =
    chain-le (value v) v.shares (value m) m.shares (value v') v'.shares some_shares first second

-- What is left after one percent of the gain is worth more at the new mark.
gain-le :
    (left fee gained mark rise : ℕ)
    → gained * (mark + rise) ≤ (left + fee) * rise
    → fee * 100 ≤ gained
    → (left + fee) * mark ≤ left * (mark + rise)
gain-le left fee gained mark rise part hundredth =
    let scaled : fee * 100 * (mark + rise) ≤ gained * (mark + rise) =
      mul-le-mul_right (mark + rise) hundredth in
    omega arith

fee-le :
    (assets fee gained mark r : ℕ)
    → mark < r
    → gained * r ≤ assets * (r - mark)
    → fee * 100 ≤ gained
    → fee ≤ assets
fee-le assets fee gained mark r rise part hundredth =
    let most : assets * (r - mark) ≤ assets * r = mul-le-mul_left assets (omega arith) in
    let less : gained ≤ assets = le_of_mul-le-mul_right (le_trans part most) (omega arith) in
    omega arith

gained_value-le :
    (assets fee gained mark r : ℕ)
    → mark < r
    → gained * r ≤ assets * (r - mark)
    → fee * 100 ≤ gained
    → assets * mark ≤ (assets - fee) * r
gained_value-le assets fee gained mark r rise part hundredth =
    let whole : assets - fee + fee ≡ assets =
      omega (arith, fee-le assets fee gained mark r rise part hundredth) in
    let risen : mark + (r - mark) ≡ r = omega arith in
    let part' : gained * (mark + (r - mark)) ≤ (assets - fee + fee) * (r - mark) =
      rw (whole, risen) part in
    let done = gain-le (assets - fee) fee gained mark (r - mark) part' hundredth in
    rw whole at (rw risen at done)

-- The value does not fall when the fee is settled.
Accrual-value :
    (r : ℕ) (v : Vault) (fee : ℕ) (m : Vault)
    → Accrual r v fee m
    → (value v ≤ value m) × (m.shares ≡ v.shares)
Accrual-value r v fee m (first_reading unset no_fee after) = rw (after, unset) (omega arith, refl)
Accrual-value r v fee m (nothing_held set none_held some_rate no_fee after) =
    rw (after, none_held) (omega arith, refl)
Accrual-value r v fee m (no_gain set dip no_fee after) = rw after (omega arith, refl)
Accrual-value r v fee m (gain gained set held rise part hundredth after) =
    rw after (gained_value-le v.assets fee gained v.mark r rise part.0 hundredth.0, refl)

grow-le :
    (assets mark shares atoms minted : ℕ)
    → minted * assets ≤ atoms * shares
    → assets * mark * (shares + minted) ≤ (assets + atoms) * mark * shares
grow-le assets mark shares atoms minted price =
    let scaled : minted * assets * mark ≤ atoms * shares * mark = mul-le-mul_right mark price in
    omega arith

Deposit-worth :
    (v : Vault) (atoms shares : ℕ) (v' : Vault)
    → 0 < v.shares
    → Deposit v atoms shares v'
    → KeepsWorth v v'
Deposit-worth v atoms shares v' outstanding d = elim d.price [
  | inl (none_yet, _) ↦ absurd (omega arith)
  | inr (_, _, floor) ↦ rw d.after (grow-le v.assets v.mark v.shares atoms shares floor.0)
]

shrink-le :
    (left atoms mark kept burnt : ℕ)
    → atoms * (kept + burnt) ≤ burnt * (left + atoms)
    → (left + atoms) * mark * kept ≤ left * mark * (kept + burnt)
shrink-le left atoms mark kept burnt price =
    let scaled : atoms * (kept + burnt) * mark ≤ burnt * (left + atoms) * mark =
      mul-le-mul_right mark price in
    omega arith

-- A redemption pays at most what is held.
paid-le :
    (assets shares atoms burnt : ℕ)
    → 0 < shares
    → burnt ≤ shares
    → atoms * shares ≤ burnt * assets
    → atoms ≤ assets
paid-le assets shares atoms burnt outstanding owned price =
    let most : burnt * assets ≤ shares * assets = mul-le-mul_right assets owned in
    le_of_mul-le-mul_right (omega arith) outstanding

Redemption-worth :
    (v : Vault) (shares atoms : ℕ) (v' : Vault)
    → 0 < v.shares
    → Redemption v shares atoms v'
    → KeepsWorth v v'
Redemption-worth v shares atoms v' outstanding d =
    let all_atoms : v.assets - atoms + atoms ≡ v.assets =
      omega (arith, paid-le v.assets v.shares atoms shares outstanding d.owned d.price.0) in
    let all_shares : v.shares - shares + shares ≡ v.shares = omega (arith, d.owned) in
    let price : atoms * (v.shares - shares + shares) ≤ shares * (v.assets - atoms + atoms) =
      rw (all_atoms, all_shares) d.price.0 in
    let done = shrink-le (v.assets - atoms) atoms v.mark (v.shares - shares) shares price in
    rw d.after (rw all_atoms at (rw all_shares at done))

-- A settlement first, and then a trade.
settled_worth :
    (r : ℕ) (v : Vault) (fee : ℕ) (m v' : Vault)
    → 0 < v.shares
    → Accrual r v fee m
    → (0 < m.shares → KeepsWorth m v')
    → KeepsWorth v v'
settled_worth r v fee m v' outstanding accrual trade =
    let (more, same) = Accrual-value r v fee m accrual in
    let still : 0 < m.shares = omega arith in
    KeepsWorth-trans v m v' still (rw same (mul-le-mul_right v.shares more)) (trade still)

-- No step that the vault permits lowers the worth of a share.
pub Permits-worth :
    (v : Vault) (c : Call) (x : ℕ × ℕ) (v' : Vault)
    → 0 < v.shares
    → Permits v c x v'
    → KeepsWorth v v'
Permits-worth v c x v' outstanding
      (locked {atoms = atoms} {shares = shares} {fee = fee} r m _ accrual d) =
    settled_worth r v fee m v' outstanding accrual
      (λ still. Deposit-worth m atoms shares v' still d)
Permits-worth v c x v' outstanding
      (unlocked {shares = shares} {atoms = atoms} {fee = fee} r m _ accrual d) =
    settled_worth r v fee m v' outstanding accrual
      (λ still. Redemption-worth m shares atoms v' still d)
Permits-worth v c x v' outstanding (harvested {fee = fee} r _ accrual) =
    settled_worth r v fee v' v' outstanding accrual (λ still. omega arith)
Permits-worth v c x v' outstanding (donated same) = rw same (omega arith)
Permits-worth v c x v' outstanding (halted same) = rw same (omega arith)

-- What shares fetch, at the mark after the call, is what they were worth before it, but for less
-- than an atom.
pub redeemed_worth :
    (v : Vault) (shares l s atoms fee : ℕ) (v' : Vault)
    → Permits v (Call.unlock shares l s) (atoms, fee) v'
    → shares * value v + v'.mark ≤ (atoms + 1) * (v'.mark * v.shares)
redeemed_worth v shares l s atoms fee v' (unlocked r m _ accrual d) =
    let (more, same) = Accrual-value r v fee m accrual in
    let mark : v'.mark ≡ m.mark = ap (λ (y : Vault). y.mark) d.after in
    let one : shares * value v ≤ shares * value m = mul-le-mul_left shares more in
    let two : (shares * m.assets + 1) * m.mark ≤ (atoms + 1) * m.shares * m.mark =
      mul-le-mul_right m.mark (omega (arith, d.price.1)) in
    rw (mark, ← same) (omega arith)

-- `worth`, at some mark, is less than an atom above `atoms` for each share of `shares`; at a mark
-- of zero nothing has a worth.
abbrev pub IsPaid : (worth atoms mark shares : ℕ) → Type 0
IsPaid worth atoms mark shares =
    ((mark ≡ 0) × (worth ≡ 0)) ⊎ (worth < (atoms + 1) * (mark * shares))

-- The same, against what the shares were worth some steps before.
pub fetched-IsPaid :
    (v m : Vault) (shares atoms mark : ℕ)
    → 0 < v.shares
    → 0 < m.shares
    → KeepsWorth v m
    → shares * value m + mark ≤ (atoms + 1) * (mark * m.shares)
    → IsPaid (shares * value v) atoms mark v.shares
fetched-IsPaid v m shares atoms mark before outstanding kept fetched =
    let one : shares * (value v * m.shares) ≤ shares * (value m * v.shares) =
      mul-le-mul_left shares kept in
    let two : (shares * value m + mark) * v.shares ≤ (atoms + 1) * (mark * m.shares) * v.shares =
      mul-le-mul_right v.shares fetched in
    elim (ℕ_discrete mark 0) [
      | yes unset ↦
          let empty : shares * value m ≤ 0 = omega (arith, rw unset at fetched) in
          let none_then : shares * value m * v.shares ≤ 0 * v.shares =
            mul-le-mul_right v.shares empty in
          let none_left : shares * value v * m.shares ≤ 0 * m.shares = omega arith in
          let least : shares * value v ≤ 0 = le_of_mul-le-mul_right none_left outstanding in
          inl (unset, omega arith)
      | no set ↦
          let some : 0 < mark * v.shares = mul-pos (omega arith) before in
          let three : shares * value v * m.shares < (atoms + 1) * (mark * v.shares) * m.shares =
            omega arith in
          inr (lt_of_mul-lt-mul_right m.shares three)
    ]
