-- ===== src/Lockbox/Harvest.antt =====
-- What `harvest_rate` does to the lockbox.
use hyper_leaf.Common.{ℕ, ◌+◌, ◌*◌, ◌≤◌, ◌≡◌, ◌⊎◌, inl, inr, arith, Option-cases}
use hyper_leaf.Outcome.{ok}
use hyper_leaf.Rate.{rate}
use hyper_leaf.Rate.Fee.{book_retain_fee-Booked}
use hyper_leaf.Lockbox.{Lockbox, settle, harvest_rate}

-- A settlement of the fee: it has left the accounted atoms and the escrow for the harvest
-- account, at most one percent of what was accounted; the shares, the cap and the halt flag are
-- unchanged; and the high-water mark has not fallen, unless nothing was accounted.
pub record Settled (b : Lockbox) (fee : ℕ) (b' : Lockbox) : Type 0 where
  pub accounted : b'.last_accounted + fee ≡ b.last_accounted
  pub escrow : b'.escrow_atoms + fee ≡ b.escrow_atoms
  pub harvest : b'.harvest_atoms ≡ b.harvest_atoms + fee
  pub shares : b'.total_shares ≡ b.total_shares
  pub cap : b'.deposit_cap_atoms ≡ b.deposit_cap_atoms
  pub halted : b'.halted ≡ b.halted
  pub one_percent : fee * 100 ≤ b.last_accounted
  pub mark : (b.last_accounted ≡ 0) ⊎ (b.last_rate ≤ b'.last_rate)

settle-Settled :
    (r : ℕ) (b : Lockbox) (fee : ℕ) (b' : Lockbox) → settle r b ≡ (ok fee, b') → Settled b fee b'
unfolding settle
settle-Settled r b fee b' h = ground (arith, book_retain_fee-Booked b.last_accounted b.last_rate r)

-- A harvest that succeeds takes the fee that it returns out of the accounted atoms and the escrow
-- and adds it to the harvest account; the fee is at most one percent of what was accounted; the
-- shares, the cap and the halt flag do not change, and the mark does not fall, unless nothing was
-- accounted.
pub harvest_rate-Settled :
    (l s : ℕ) (b : Lockbox) (fee : ℕ) (b' : Lockbox)
    → harvest_rate l s b ≡ (ok fee, b')
    → Settled b fee b'
unfolding harvest_rate
harvest_rate-Settled l s b fee b' h = elim (Option-cases (rate l s)) [
  | inl no_rate ↦ ground arith
  | inr (r, e) ↦ ground (arith, settle-Settled r b fee b')
]
