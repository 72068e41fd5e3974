-- ===== src/Lockbox/Outcomes.antt =====
-- How the operations of a valid lockbox end: which errors can be met, and why none of them is a
-- lack of cash or a panic.
use native.Mathlib.Nat.{div-le_self}
use hyper_leaf.Common.{ℕ, ◌+◌, ◌*◌, ◌/◌, ◌≤◌, ◌<◌, ◌≡◌, ◌⊎◌, arith, refl, true, mul-div-le_whole}
use hyper_leaf.Outcome.{
  Result, Error, ok, err, panic, bad_rate, math_overflow, insufficient, halted, cap, u128_size,
}
use hyper_leaf.Rate.{rate, atoms_from_shares, shares_from_atoms}
use hyper_leaf.Rate.Fee.{book_retain_fee-Booked}
use hyper_leaf.Lockbox.{Lockbox, settle, harvest_rate, mint, lock, redeem, unlock}
use hyper_leaf.Lockbox.Harvest.{harvest_rate-Settled}
use hyper_leaf.Lockbox.Invariant.{IsValid, Settled-IsValid}

-- The atoms of the two accounts together fit a u128.
abbrev pub Fits : Lockbox → Type 0
Fits b = b.escrow_atoms + b.harvest_atoms < u128_size

abbrev pub FailsWith : {A : Type 0} → (Error → Type 0) → Result A → Type 0
FailsWith P (ok a) = Unit {0}
FailsWith P (err e) = P e
FailsWith P panic = ⊥

settle_outcome :
    (r : ℕ) (b : Lockbox) → IsValid b → Fits b → FailsWith (λ e. e ≡ math_overflow) (settle r b).0
unfolding settle
settle_outcome r b v f = ground (arith, book_retain_fee-Booked b.last_accounted b.last_rate r)

-- A harvest of a valid lockbox whose atoms fit a u128 does not panic, and fails only with
-- `bad_rate`, where the pool has no supply, or with `math_overflow`.
pub harvest_rate_outcome :
    (l s : ℕ) (b : Lockbox)
    → IsValid b
    → Fits b
    → FailsWith (λ e. ((e ≡ bad_rate) × (s ≡ 0)) ⊎ (e ≡ math_overflow)) (harvest_rate l s b).0
unfolding harvest_rate rate
harvest_rate_outcome l s b v f =
    ground (arith, settle_outcome (l * 1_000_000_000_000_000_000 / s) b)

-- What a harvest that succeeds leaves for the operation that follows it.
abbrev Kept : Lockbox → Result ℕ × Lockbox → Type 0
Kept b (ok fee, m) =
    IsValid m × (m.total_shares ≡ b.total_shares) × (m.escrow_atoms ≤ b.escrow_atoms)
Kept b (err e, m) = Unit {0}
Kept b (panic, m) = Unit {0}

harvest-Kept : (l s : ℕ) (b : Lockbox) → IsValid b → Kept b (harvest_rate l s b)
harvest-Kept l s b v = go (harvest_rate l s b) refl
  where
    go : (r : Result ℕ × Lockbox) → harvest_rate l s b ≡ r → Kept b r
    go (ok fee, m) e =
        let k = harvest_rate-Settled l s b fee m e in
        (Settled-IsValid b fee m k v, k.shares, omega (arith, k.escrow))
    go (err e', m) e = tt
    go (panic, m) e = tt

redeem_outcome :
    (shares : ℕ) (b : Lockbox)
    → IsValid b
    → 0 < shares
    → shares ≤ b.total_shares
    → FailsWith (λ e. (e ≡ Error.zero) ⊎ (e ≡ math_overflow)) (redeem shares b).0
unfolding redeem atoms_from_shares
redeem_outcome shares b v pos within =
    ground (arith, mul-div-le_whole shares b.last_accounted b.total_shares)

mint_outcome :
    (atoms : ℕ) (b : Lockbox)
    → IsValid b
    → 0 < atoms
    → b.escrow_atoms + atoms < u128_size
    → b.total_shares + atoms * b.total_shares < u128_size
    → FailsWith (λ e. (e ≡ Error.zero) ⊎ (e ≡ cap)) (mint atoms b).0
unfolding mint shares_from_atoms
mint_outcome atoms b v pos fits fits' =
    ground (arith, div-le_self (atoms * b.total_shares) b.last_accounted)

-- A redemption from a valid lockbox whose atoms fit a u128 never panics, halted or not, and fails
-- only with `insufficient`, without shares or with more than there are, with `bad_rate`, where
-- the pool has no supply, with `zero` or with `math_overflow`.
pub unlock_outcome :
    (shares l s : ℕ) (b : Lockbox)
    → IsValid b
    → Fits b
    → FailsWith
        (λ e.
          ((e ≡ insufficient) × ((shares ≡ 0) ⊎ (b.total_shares < shares)))
          ⊎ (((e ≡ bad_rate) × (s ≡ 0)) ⊎ ((e ≡ Error.zero) ⊎ (e ≡ math_overflow))))
        (unlock shares l s b).0
unfolding unlock
unlock_outcome shares l s b v f =
    let m : Lockbox = (harvest_rate l s b).1 in
    ground (arith, harvest_rate_outcome l s b v f, harvest-Kept l s b v, redeem_outcome shares m)

-- A deposit into a valid lockbox whose atoms fit a u128, also with the deposit, never panics
-- while the shares and the product of the deposit and the shares fit one together; it fails only
-- with `halted`, when it is, with `bad_rate`, where the pool has no supply, with `cap`, with
-- `zero` or with `math_overflow`.
pub lock_outcome :
    (atoms l s : ℕ) (b : Lockbox)
    → IsValid b
    → Fits b
    → b.escrow_atoms + atoms < u128_size
    → b.total_shares + atoms * b.total_shares < u128_size
    → FailsWith
        (λ e.
          ((e ≡ halted) × (b.halted ≡ true))
          ⊎ (((e ≡ bad_rate) × (s ≡ 0)) ⊎ ((e ≡ cap) ⊎ ((e ≡ Error.zero) ⊎ (e ≡ math_overflow)))))
        (lock atoms l s b).0
unfolding lock
lock_outcome atoms l s b v f fits fits' =
    let m : Lockbox = (harvest_rate l s b).1 in
    ground (arith, harvest_rate_outcome l s b v f, harvest-Kept l s b v, mint_outcome atoms m)
