-- ===== src/Rate/Fee.antt =====
-- What `book_retain_fee` charges, and how the high-water mark moves.
use native.Mathlib.Nat.{mul_comm}
use hyper_leaf.Common.{ℕ, ◌+◌, ◌-◌, ◌*◌, ◌/◌, ◌≤◌, ◌<◌, ◌≡◌, ◌⊎◌, refl, arith, mul-div-le_whole}
use hyper_leaf.Outcome.{Result, ok, err, panic, math_overflow, u128_size}
use hyper_leaf.Rate.{book_retain_fee}

-- The holders' gain since the mark, in atoms, as docs/SOLANA_JITOSOL.md defines it.
abbrev pub surplus : ℕ → ℕ → ℕ → ℕ
surplus last_accounted last_rate new_rate = last_accounted * (new_rate - last_rate) / new_rate

pub surplus-le : (la lr nr : ℕ) → 0 < nr → surplus la lr nr ≤ la
surplus-le la lr nr pos = rw mul_comm (mul-div-le_whole (nr - lr) la nr pos (omega arith))

-- With atoms accounted and a mark set, above the mark the fee is one percent of the surplus,
-- rounded down, and the mark moves to the new rate, provided that both products fit a u128.
pub book_retain_fee_rise :
    (la lr nr : ℕ)
    → 0 < la
    → 0 < lr
    → lr < nr
    → la * (nr - lr) < u128_size
    → surplus la lr nr * 100 < u128_size
    → book_retain_fee la lr nr ≡ ok (surplus la lr nr / 100, la - surplus la lr nr / 100, nr)
unfolding book_retain_fee
book_retain_fee_rise la lr nr pa pl up fits fits' =
    ground (arith, surplus-le la lr nr (omega arith))

-- The fee that is due: one percent of the surplus over a mark that was set, rounded down, or
-- nothing without a rise.
abbrev pub IsDue : ℕ → ℕ → ℕ → ℕ → ℕ → Type 0
IsDue la lr nr fee mark =
    ((fee ≡ 0) × (mark ≡ lr) × ((nr ≡ 0) ⊎ ((0 < la) × (0 < lr) × (nr ≤ lr))))
    ⊎ (((fee ≡ 0) × (mark ≡ nr) × (0 < nr) × ((lr ≡ 0) ⊎ (la ≡ 0)))
        ⊎ ((fee ≡ surplus la lr nr / 100) × (mark ≡ nr) × (0 < la) × (0 < lr) × (lr < nr)))

-- What a booking has to satisfy, whether it succeeds or not.
abbrev pub Booked : ℕ → ℕ → ℕ → Result (ℕ × ℕ × ℕ) → Type 0
Booked la lr nr (ok (fee, next, mark)) =
    (fee + next ≡ la)
    × (fee * 100 ≤ la)
    × ((fee ≡ 0) ⊎ ((0 < lr) × (lr < nr) × (mark ≡ nr)))
    × ((la ≡ 0) ⊎ (lr ≤ mark))
    × IsDue la lr nr fee mark
Booked la lr nr (err e) =
    (e ≡ math_overflow)
    × (0 < lr)
    × (lr < nr)
    × ((u128_size ≤ la * (nr - lr)) ⊎ (u128_size ≤ surplus la lr nr * 100))
Booked la lr nr panic = ⊥

-- A booking that succeeds takes the fee that is due: with atoms accounted, above a mark that is
-- set the fee is one percent of the surplus, rounded down, and the mark moves to the new rate;
-- there is no fee, and the mark stays, at a rate of zero and, with atoms and a mark, without a
-- rise; and there is none, and the mark is the new rate, at any other rate without a mark or
-- without atoms. The fee and the remainder add up to what was accounted, of which the fee is at
-- most one percent. A booking fails only with `math_overflow`, above a mark that is set, where
-- the product with the rise or the surplus times 100 does not fit a u128.
pub book_retain_fee-Booked : (la lr nr : ℕ) → Booked la lr nr (book_retain_fee la lr nr)
unfolding book_retain_fee
book_retain_fee-Booked la lr nr = ground (arith, surplus-le la lr nr)

-- With atoms accounted and a mark set, a rate at or below the mark books nothing.
book_retain_fee_no_rise :
    (la lr low : ℕ) → 0 < la → 0 < lr → low ≤ lr → book_retain_fee la lr low ≡ ok (0, la, lr)
unfolding book_retain_fee
book_retain_fee_no_rise la lr low pa pl dip = ground arith

-- With atoms accounted and a mark set, booking a rate at or below the mark succeeds without a
-- fee, and what is booked after it at any rate is what would have been booked without it.
book_retain_fee_dip :
    (la lr low nr : ℕ)
    → 0 < la
    → 0 < lr
    → low ≤ lr
    → (s : ℕ × ℕ × ℕ) × (book_retain_fee la lr low ≡ ok s)
      × (s.0 ≡ 0)
      × (book_retain_fee s.1 s.2 nr ≡ book_retain_fee la lr nr)
book_retain_fee_dip la lr low nr pa pl dip =
    ((0, la, lr), book_retain_fee_no_rise la lr low pa pl dip, refl, refl)
