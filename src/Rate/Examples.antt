-- ===== src/Rate/Examples.antt =====
-- Runs of the fee of solana/leaf-jito-rate/src/lib.rs on concrete amounts.
use hyper_leaf.Common.{◌*◌, ◌/◌, ◌-◌, ◌≡◌, refl}
use hyper_leaf.Outcome.{ok}
use hyper_leaf.Rate.{rate_scale, book_retain_fee}
use hyper_leaf.Rate.Fee.{Booked, book_retain_fee-Booked}

-- A rise of a tenth on a hundred JitoSOL.
retain_one_percent :
    book_retain_fee 100_000_000_000 rate_scale (rate_scale * 11 / 10)
    ≡ ok (90_909_090, 100_000_000_000 - 90_909_090, rate_scale * 11 / 10)
unfolding book_retain_fee
retain_one_percent = refl

book_retain_fee-Booked_example : Booked 1_100_000 10 11 (book_retain_fee 1_100_000 10 11)
book_retain_fee-Booked_example = book_retain_fee-Booked 1_100_000 10 11
