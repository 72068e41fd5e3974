-- ===== src/Lockbox/Vault/Accrue.antt =====
-- `harvest_rate` is the accrual of the abstract vault, both ways.
use hyper_leaf.Common.{
  ℕ, ◌+◌, ◌-◌, ◌*◌, ◌/◌, ◌≤◌, ◌<◌, ◌≡◌, ◌⊎◌, inl, inr, arith, some, Option-cases, div-IsFloor,
  IsFloor-unique,
}
use native.Mathlib.Decide.{ℕ_discrete}
use hyper_leaf.Outcome.{ok}
use hyper_leaf.Rate.{rate, book_retain_fee}
use hyper_leaf.Rate.Fee.{surplus, surplus-le}
use hyper_leaf.Lockbox.{Lockbox, settle, harvest_rate}
use hyper_leaf.Lockbox.Vault.{
  Vault-ext, IsRate, Accrual, first_reading, nothing_held, no_gain, gain,
}
use hyper_leaf.Lockbox.Vault.Calls.{view}

rate-IsRate : (l s r : ℕ) → rate l s ≡ some r → IsRate r l s
unfolding rate
rate-IsRate l s r h = ground (arith, div-IsFloor (l * 1_000_000_000_000_000_000) s)

pub rate_of_IsRate : (l s r : ℕ) → IsRate r l s → rate l s ≡ some r
unfolding rate
rate_of_IsRate l s r h = ground (arith, IsFloor-unique r (l * 1_000_000_000_000_000_000) s)

-- The cases of a booking.
abbrev Cases : ℕ → ℕ → ℕ → ℕ → ℕ → ℕ → Type 0
Cases la lr nr fee next mark =
    ((nr ≡ 0) × (fee ≡ 0) × (next ≡ la) × (mark ≡ lr))
    ⊎ (((0 < nr) × ((lr ≡ 0) ⊎ (la ≡ 0)) × (fee ≡ 0) × (next ≡ la) × (mark ≡ nr))
        ⊎ (((0 < lr) × (0 < la) × (nr ≤ lr) × (fee ≡ 0) × (next ≡ la) × (mark ≡ lr))
            ⊎ ((0 < lr)
                × (0 < la)
                × (lr < nr)
                × (fee ≡ surplus la lr nr / 100)
                × (next + fee ≡ la)
                × (mark ≡ nr))))

book_retain_fee-Cases :
    (la lr nr fee next mark : ℕ)
    → book_retain_fee la lr nr ≡ ok (fee, next, mark)
    → Cases la lr nr fee next mark
unfolding book_retain_fee
book_retain_fee-Cases la lr nr fee next mark h = ground (arith, surplus-le la lr nr)

-- A settlement, by the cases of its booking.
settle-Accrual :
    (r : ℕ) (b : Lockbox) (fee : ℕ) (b' : Lockbox)
    → 0 < b.last_rate
    → settle r b ≡ (ok fee, b')
    → Accrual r (view b) fee (view b')
unfolding settle
settle-Accrual r b fee b' set h =
    let booked : book_retain_fee b.last_accounted b.last_rate r
        ≡ ok (fee, b'.last_accounted, b'.last_rate) =
      ground arith in
    let harvest : b'.harvest_atoms ≡ b.harvest_atoms + fee = ground arith in
    let shares : b'.total_shares ≡ b.total_shares = ground arith in
    let cap : b'.deposit_cap_atoms ≡ b.deposit_cap_atoms = ground arith in
    let halted : b'.halted ≡ b.halted = ground arith in
    elim (book_retain_fee-Cases b.last_accounted b.last_rate r fee b'.last_accounted b'.last_rate
      booked) [
        | inl (no_rate, no_fee, next, mark) ↦
            no_gain set (inl no_rate) no_fee
              (Vault-ext (view b') (view b) next shares mark (omega arith) cap halted)
        | inr (inl (some_rate, none_held, no_fee, next, mark)) ↦
            nothing_held set (omega arith) some_rate no_fee (
              Vault-ext (view b') (record (view b) { mark = r }) next shares mark (omega arith) cap
                halted)
        | inr (inr (inl (_, held, dip, no_fee, next, mark))) ↦
            no_gain set (inr (held, dip)) no_fee
              (Vault-ext (view b') (view b) next shares mark (omega arith) cap halted)
        | inr (inr (inr (_, held, rise, is_fee, next, mark))) ↦
            let gained = surplus b.last_accounted b.last_rate r in
            gain gained set held rise
              (div-IsFloor (b.last_accounted * (r - b.last_rate)) r (omega arith))
              (rw is_fee (div-IsFloor gained 100 (omega arith)))
              (Vault-ext (view b')
                (record (view b) {
                  assets = b.last_accounted - fee;
                  mark = r;
                  fees = b.harvest_atoms + fee;
                })
                (omega arith) shares mark harvest cap halted)
      ]

pub harvest_rate-Accrual :
    (l s : ℕ) (b : Lockbox) (fee : ℕ) (b' : Lockbox)
    → harvest_rate l s b ≡ (ok fee, b')
    → (r : ℕ) × IsRate r l s × Accrual r (view b) fee (view b')
unfolding harvest_rate
harvest_rate-Accrual l s b fee b' h = elim (Option-cases (rate l s)) [
  | inl no_rate ↦ ground arith
  | inr (r, e) ↦ (
    r,
    rate-IsRate l s r e,
    elim (ℕ_discrete b.last_rate 0) [
      | yes unset ↦ first_reading unset (ground arith) (
          Vault-ext (view b') (record (view b) { mark = r }) (ground arith) (ground arith)
            (ground arith) (ground arith) (ground arith) (ground arith))
      | no set ↦ settle-Accrual r b fee b' (omega arith) (ground arith)
    ],
  )
]
