-- ===== src/Lockbox/Neutral.antt =====
-- A harvest that comes first changes nothing for the call that follows at the same reading.
use hyper_leaf.Common.{
  ℕ, ◌<◌, ◌≡◌, inl, inr, refl, ◌∙◌, arith, true, false, leb, ltb, ◌==◌, ◌||◌, Option-cases,
  Bool-cases,
}
use hyper_leaf.Outcome.{Result, ok, err, panic}
use native.Mathlib.Decide.{ℕ_discrete}
use hyper_leaf.Rate.{rate, book_retain_fee}
use hyper_leaf.Lockbox.{Lockbox, pure, resume, settle, harvest_rate, mint, redeem, lock, unlock}
use hyper_leaf.Lockbox.Harvest.{harvest_rate-Settled}
use hyper_leaf.Lockbox.Invariant.{IsValid}

-- A booking repeated at the same rate.
book_again :
    (la lr r fee next mark : ℕ)
    → 0 < lr
    → book_retain_fee la lr r ≡ ok (fee, next, mark)
    → book_retain_fee next mark r ≡ ok (0, next, mark)
unfolding book_retain_fee
book_again la lr r fee next mark set h = ground arith

settle_again :
    (r fee : ℕ) (b b' : Lockbox)
    → 0 < b.last_rate
    → settle r b ≡ (ok fee, b')
    → settle r b' ≡ (ok 0, b')
unfolding settle
settle_again r fee b b' set h =
    let booked : book_retain_fee b.last_accounted b.last_rate r
        ≡ ok (fee, b'.last_accounted, b'.last_rate) =
      ground arith in
    let cash : leb b'.last_accounted b'.escrow_atoms ≡ true = ground arith in
    rw
      (
        book_again b.last_accounted b.last_rate r fee b'.last_accounted b'.last_rate set booked,
        cash,
      )
      refl

settle_mark :
    (r fee : ℕ) (b b' : Lockbox) → 0 < b.last_rate → settle r b ≡ (ok fee, b') → 0 < b'.last_rate
unfolding settle book_retain_fee
settle_mark r fee b b' set h = ground arith

-- A first reading, and the same again.
first_again :
    (r : ℕ) (b : Lockbox)
    → IsValid b
    → b.last_rate ≡ 0
    → 0 < r
    → settle r (record b { last_rate = r }) ≡ (ok 0, record b { last_rate = r })
unfolding settle book_retain_fee
first_again r b v unset some_rate =
    let cash : leb b.last_accounted b.escrow_atoms ≡ true = ground (arith, v.cash) in ground arith

harvest_again :
    (l s fee : ℕ) (b b' : Lockbox)
    → IsValid b
    → harvest_rate l s b ≡ (ok fee, b')
    → harvest_rate l s b' ≡ (ok 0, b')
unfolding harvest_rate
harvest_again l s fee b b' v h = elim (Option-cases (rate l s)) [
  | inl no_rate ↦ ground arith
  | inr (r, e) ↦ elim (ℕ_discrete b.last_rate 0) [
    | yes unset ↦ ground (arith, first_again r b v unset)
    | no set ↦
        ground (arith, settle_again r fee b b' (omega arith), settle_mark r fee b b' (omega arith))
  ]
]

-- How a call ends: the amount and the lockbox, or the failure, after which it is undone.
abbrev pub end_of : Result (ℕ × ℕ) × Lockbox → Result (ℕ × Lockbox)
end_of (ok (amount, fee), b) = ok (amount, b)
end_of (err e, _) = err e
end_of (panic, _) = panic

traded :
    (fee fee' : ℕ) (x : Result ℕ × Lockbox)
    → end_of (resume (λ n. pure (n, fee)) x) ≡ end_of (resume (λ n. pure (n, fee')) x)
traded fee fee' (ok n, b) = refl
traded fee fee' (err e, b) = refl
traded fee fee' (panic, b) = refl

-- A deposit and a redemption that get past their guards.
lock_runs :
    (atoms l s fee : ℕ) (b m : Lockbox)
    → b.halted ≡ false
    → (atoms == 0) ≡ false
    → harvest_rate l s b ≡ (ok fee, m)
    → lock atoms l s b ≡ resume (λ n. pure (n, fee)) (mint atoms m)
unfolding lock
lock_runs atoms l s fee b m running something ran = simp (running, something, ran)

unlock_runs :
    (shares l s fee : ℕ) (b m : Lockbox)
    → (shares == 0 || ltb b.total_shares shares) ≡ false
    → harvest_rate l s b ≡ (ok fee, m)
    → unlock shares l s b ≡ resume (λ n. pure (n, fee)) (redeem shares m)
unfolding unlock
unlock_runs shares l s fee b m owned ran = simp (owned, ran)

lock_after :
    (atoms l s fee : ℕ) (b m : Lockbox)
    → m.halted ≡ b.halted
    → harvest_rate l s b ≡ (ok fee, m)
    → harvest_rate l s m ≡ (ok 0, m)
    → end_of (lock atoms l s m) ≡ end_of (lock atoms l s b)
lock_after atoms l s fee b m same ran again = elim (Bool-cases b.halted) [
  | inl stopped ↦ unfold lock in simp (same, stopped)
  | inr running ↦ elim (Bool-cases (atoms == 0)) [
    | inl nothing ↦ unfold lock in simp (same, running, nothing)
    | inr something ↦
        rw
          (
            lock_runs atoms l s 0 m m (same ∙ running) something again,
            lock_runs atoms l s fee b m running something ran,
          )
          (traded 0 fee (mint atoms m))
  ]
]

unlock_after :
    (shares l s fee : ℕ) (b m : Lockbox)
    → m.total_shares ≡ b.total_shares
    → harvest_rate l s b ≡ (ok fee, m)
    → harvest_rate l s m ≡ (ok 0, m)
    → end_of (unlock shares l s m) ≡ end_of (unlock shares l s b)
unlock_after shares l s fee b m same ran again =
    elim (Bool-cases (shares == 0 || ltb b.total_shares shares)) [
      | inl refused ↦ unfold unlock in simp (same, refused)
      | inr owned ↦
          rw
            (
              unlock_runs shares l s 0 m m (rw same owned) again,
              unlock_runs shares l s fee b m owned ran,
            )
            (traded 0 fee (redeem shares m))
    ]

-- Harvesting first, which anyone may do, changes nothing for others: from a valid lockbox whose
-- harvest succeeds, a deposit and a redemption at the same reading end after the harvest as they
-- do without it, with the same amount and the same lockbox or the same failure, and a second
-- harvest takes no fee and changes nothing.
pub harvest_first :
    (atoms shares l s fee : ℕ) (b m : Lockbox)
    → IsValid b
    → harvest_rate l s b ≡ (ok fee, m)
    → (end_of (lock atoms l s m) ≡ end_of (lock atoms l s b))
      × (end_of (unlock shares l s m) ≡ end_of (unlock shares l s b))
      × (harvest_rate l s m ≡ (ok 0, m))
harvest_first atoms shares l s fee b m v ran =
    let again = harvest_again l s fee b m v ran in
    let k = harvest_rate-Settled l s b fee m ran in
    (
      lock_after atoms l s fee b m k.halted ran again,
      unlock_after shares l s fee b m k.shares ran again,
      again,
    )
