-- ===== src/Lockbox/Policy.antt =====
-- The rules beside the books: side tokens, their destinations, forbidden programs, the listing
-- tag of an inbound message, and what a halt stops.
use text.Mathlib.TextEquality.{eq_iff}
use hyper_leaf.Common.{
  ℕ, suc, ◌+◌, ◌-◌, ◌*◌, ◌/◌, ◌≤◌, ◌<◌, ◌≡◌, ◌≢◌, ◌⊎◌, ◌↔◌, inl, inr, refl, arith, String, true,
  Option-cases,
}
use hyper_leaf.Bytes.{Bytes, zeros, eq_bytes_iff}
use hyper_leaf.Outcome.{ok, err, wrong_listing, u64_size, Result, halted}
use hyper_leaf.Rate.{rate}
use hyper_leaf.Lockbox.{
  Lockbox, harvest_other_amount, side_dest_policy_ok, lz_receive, lock, unlock, halt,
  require_no_cpi, stake_pool_program, interceptor, vault_program, restaking_program, settle, redeem,
  harvest_rate,
}

-- A positive balance that is a u64 splits without overflow: the two parts add up to it, and the
-- fee is one percent of it, rounded down.
harvest_other_amount_split :
    (atoms : ℕ)
    → 0 < atoms
    → atoms < u64_size
    → (fee : ℕ) × (rest : ℕ) × (harvest_other_amount atoms ≡ ok (fee, rest))
      × (fee + rest ≡ atoms)
      × (fee * 100 ≤ atoms)
      × (atoms < suc fee * 100)
unfolding harvest_other_amount
harvest_other_amount_split atoms pos fits =
    let fee = atoms * 100 / 10_000 in
    (fee, atoms - fee, ground arith, omega arith, omega arith, omega arith)

-- A program may be called exactly if it is none of the four forbidden ones.
require_no_cpi_iff :
    (program : String)
    → (require_no_cpi program ≡ ok tt) ↔ (
        (program ≢ stake_pool_program)
        × (program ≢ interceptor)
        × (program ≢ vault_program)
        × (program ≢ restaking_program))
unfolding require_no_cpi
require_no_cpi_iff program = ground (
  arith,
  eq_iff program stake_pool_program,
  eq_iff program interceptor,
  eq_iff program vault_program,
  eq_iff program restaking_program,
)

-- An inbound message acts exactly as `unlock` if its tag is the expected one and is not zero, and
-- otherwise is refused with the lockbox unchanged.
lz_receive_tag :
    (tag expected : Bytes) (shares l s : ℕ) (b : Lockbox)
    → ((tag ≡ expected)
        × (tag ≢ zeros 32)
        × (lz_receive tag expected shares l s b ≡ unlock shares l s b))
      ⊎ (((tag ≢ expected) ⊎ (tag ≡ zeros 32))
          × (lz_receive tag expected shares l s b ≡ (err wrong_listing, b)))
unfolding lz_receive
lz_receive_tag tag expected shares l s b =
    ground (arith, eq_bytes_iff tag expected, eq_bytes_iff tag (zeros 32))

-- The policy holds exactly if both accounts belong to the registered owners.
side_dest_policy_ok_iff :
    (fee_owner rest_owner registered_fee registered_rest : Bytes)
    → (side_dest_policy_ok fee_owner rest_owner registered_fee registered_rest ≡ true)
      ↔ ((fee_owner ≡ registered_fee) × (rest_owner ≡ registered_rest))
unfolding side_dest_policy_ok
side_dest_policy_ok_iff f r rf rr = ground (arith, eq_bytes_iff f rf, eq_bytes_iff r rr)

abbrev halted_too : {A : Type 0} → Result A × Lockbox → Result A × Lockbox
halted_too (r, b) = (r, record b { halted = true })

settle-halt :
    (r : ℕ) (b : Lockbox) → settle r (record b { halted = true }) ≡ halted_too (settle r b)
unfolding settle
settle-halt r b = ground arith

harvest_rate-halt :
    (l s : ℕ) (b : Lockbox)
    → harvest_rate l s (record b { halted = true }) ≡ halted_too (harvest_rate l s b)
unfolding harvest_rate
harvest_rate-halt l s b = elim (Option-cases (rate l s)) [
  | inl no_rate ↦ ground arith
  | inr (r, e) ↦ ground (arith, settle-halt r b)
]

redeem-halt :
    (shares : ℕ) (b : Lockbox)
    → redeem shares (record b { halted = true }) ≡ halted_too (redeem shares b)
unfolding redeem
redeem-halt shares b = ground arith

-- A redemption does not look at the halt flag: halting first and then redeeming ends in the same
-- result and the same books as redeeming first and halting then.
unlock-halt :
    (shares l s : ℕ) (b : Lockbox)
    → unlock shares l s (halt b).1 ≡ ((unlock shares l s b).0, (halt (unlock shares l s b).1).1)
unfolding unlock halt
unlock-halt shares l s b =
    ground (arith, harvest_rate-halt l s b, redeem-halt shares (harvest_rate l s b).1)

-- A halted lockbox refuses every deposit and stays as it is.
lock_halted : (atoms l s : ℕ) (b : Lockbox) → lock atoms l s (halt b).1 ≡ (err halted, (halt b).1)
unfolding lock halt
lock_halted atoms l s b = refl
