-- ===== src/Program/HarvestOther/Split.antt =====
-- What a harvest of a side token pays, to whom, and that it is never the locked token.
use hyper_leaf.Common.{
  ℕ, ◌+◌, ◌*◌, ◌≡◌, ◌≢◌, inl, inr, refl, sym, ap, ◌∙◌, some, String, ltb, if-cases, arith, ◌/◌, ◌-◌,
  IsFloor, div-IsFloor,
}
use text.Mathlib.TextEquality.{eq_iff}
use hyper_leaf.Bytes.{eq_bytes, eq_bytes→eq}
use hyper_leaf.Outcome.{ok, u64_size}
use hyper_leaf.Lockbox
use hyper_leaf.Program.State.{Pubkey, SideDest}
use hyper_leaf.Program.Runtime.{Runtime}
use hyper_leaf.Program.Pool.{jito_mint_pubkey}
use hyper_leaf.Program.Errors.{
  done, bad_mint, bad_token_account, math_overflow, require_done, answered, from_result,
  from_result-eq-done, >>=-eq-done, require-eq-done, done-injective,
}
use hyper_leaf.Program.World.{KeepsRoutes, World}
use hyper_leaf.Program.World.Moves.{amount, Moved, answered-eq-done, transfer-Moved, Moved-none}
use hyper_leaf.Program.HarvestOther.{HarvestOther, pay, apply, check_dest, handle}

pay-Moved :
    (rt : Runtime) (t : rt.Tokens) (from to : Pubkey) (n : ℕ) (t' : rt.Tokens)
    → from ≢ to
    → pay rt t from to n ≡ done t'
    → Moved rt t from to n t'
unfolding pay
pay-Moved rt t from to n t' ne h =
    elim (if-cases (ltb 0 n) (answered (rt.transfer t from to rt.store_key n)) (done t) h) [
      | inl (_, k) ↦
          transfer-Moved rt t from to rt.store_key n t' ne
            (answered-eq-done (rt.transfer t from to rt.store_key n) k)
      | inr (none_due, k) ↦ Moved-none rt t from to n t' (ground arith) (done-injective k)
    ]

-- An accepted destination is the associated account of its owner for the mint.
pub record Destination (rt : Runtime) (w : World rt) (ata mint owner : Pubkey) : Type 0 where
  pub mint_is : (rt.token w.tokens ata).mint ≡ mint
  pub owner_is : (rt.token w.tokens ata).owner ≡ owner
  pub address : ata ≡ rt.find_ata owner mint

check_dest-Destination :
    (rt : Runtime) (w : World rt) (ata mint owner : Pubkey)
    → check_dest rt w ata mint owner ≡ done tt
    → Destination rt w ata mint owner
unfolding check_dest
check_dest-Destination rt w ata mint owner h =
    let (m, h1) = require-eq-done (eq_bytes (rt.token w.tokens ata).mint mint) bad_mint _ h in
    let (o, h2) =
      require-eq-done (eq_bytes (rt.token w.tokens ata).owner owner) bad_token_account _ h1 in
    record {
      mint_is = eq_bytes→eq (rt.token w.tokens ata).mint mint m;
      owner_is = eq_bytes→eq (rt.token w.tokens ata).owner owner o;
      address =
          eq_bytes→eq ata (rt.find_ata owner mint)
            (require_done (eq_bytes ata (rt.find_ata owner mint)) bad_token_account h2);
    }

-- A harvest that is carried out empties the side account: one percent, rounded down, goes to the
-- registered fee owner and the rest to the registered other owner. The store does not change.
pub record SideHarvested (rt : Runtime) (accounts : HarvestOther) (mint : Pubkey) (w w' : World rt)
    : Type 0 where
  pub side_dest : SideDest
  pub registered : w.side_dests mint ≡ some side_dest
  pub fee_to : Destination rt w accounts.fee_ata mint side_dest.fee_owner
  pub rest_to : Destination rt w accounts.rest_ata mint side_dest.rest_owner
  pub fee : ℕ
  pub rest : ℕ
  pub whole : fee + rest ≡ amount rt w.tokens accounts.side_ata
  pub one_percent : IsFloor fee (amount rt w.tokens accounts.side_ata) 100
  pub between : rt.Tokens
  pub fee_moved : Moved rt w.tokens accounts.side_ata accounts.fee_ata fee between
  pub rest_moved : Moved rt between accounts.side_ata accounts.rest_ata rest w'.tokens
  pub emptied : amount rt w'.tokens accounts.side_ata ≡ 0
  pub store_kept : w'.store ≡ w.store
  pub not_jito : mint ≢ jito_mint_pubkey

split_amount :
    (atoms fee rest : ℕ)
    → Lockbox.harvest_other_amount atoms ≡ ok (fee, rest)
    → (fee + rest ≡ atoms) × IsFloor fee atoms 100
unfolding Lockbox.harvest_other_amount
split_amount atoms fee rest h =
    let floor = div-IsFloor (atoms * 100) 10_000 (omega arith) in
    let part : fee ≡ atoms * 100 / 10_000 = ground arith in
    let left : rest ≡ atoms - fee = ground arith in (omega arith, (omega arith, omega arith))

not_inner : (mint : String) → Lockbox.harvest_other mint ≡ ok tt → mint ≢ Lockbox.jito_mint
unfolding Lockbox.harvest_other
not_inner mint h = ground (arith, eq_iff mint Lockbox.jito_mint)

-- A harvest of a side token that is carried out empties the side account: one percent, rounded
-- down, goes to the associated account of the registered fee owner and the rest to that of the
-- registered other owner; the store does not change, and the mint is not JitoSOL. It is assumed
-- that the JitoSOL mint prints as its address and that the side account is neither of the two
-- destinations.
pub handle-SideHarvested :
    (rt : Runtime) (to_string : Pubkey → String) (accounts : HarvestOther) (mint : Pubkey)
    (w w' : World rt)
    → to_string jito_mint_pubkey ≡ Lockbox.jito_mint
    → accounts.side_ata ≢ accounts.fee_ata
    → accounts.side_ata ≢ accounts.rest_ata
    → handle rt to_string accounts mint w ≡ done w'
    → SideHarvested rt accounts mint w w'
unfolding handle apply
handle-SideHarvested rt to_string accounts mint w w' text apart₁ apart₂ h =
    let (side_dest, found, h1) = >>=-eq-done (answered (w.side_dests mint)) _ h in
    let (_, h2) = require-eq-done (eq_bytes side_dest.mint mint) bad_mint _ h1 in
    let (_, h3) =
      require-eq-done (eq_bytes (rt.token w.tokens accounts.side_ata).owner rt.store_key)
        bad_token_account _ h2 in
    let (_, h4) =
      require-eq-done (eq_bytes (rt.token w.tokens accounts.side_ata).mint mint) bad_mint _ h3 in
    let (_, fee_dest, h5) =
      >>=-eq-done (check_dest rt w accounts.fee_ata mint side_dest.fee_owner) _ h4 in
    let (_, rest_dest, h6) =
      >>=-eq-done (check_dest rt w accounts.rest_ata mint side_dest.rest_owner) _ h5 in
    let (_, side, h7) = >>=-eq-done (from_result (Lockbox.harvest_other (to_string mint))) _ h6 in
    let (_, h8) = require-eq-done (Lockbox.side_dest_policy_ok _ _ _ _) bad_token_account _ h7 in
    let atoms = (rt.token w.tokens accounts.side_ata).amount in
    let ((fee, rest), split, h9) =
      >>=-eq-done (from_result (Lockbox.harvest_other_amount atoms)) _ h8 in
    let (_, h10) = require-eq-done (ltb fee u64_size) math_overflow _ h9 in
    let (_, h11) = require-eq-done (ltb rest u64_size) math_overflow _ h10 in
    let (between, fee_paid, h12) =
      >>=-eq-done (pay rt w.tokens accounts.side_ata accounts.fee_ata fee) _ h11 in
    let (tokens, rest_paid, h13) =
      >>=-eq-done (pay rt between accounts.side_ata accounts.rest_ata rest) _ h12 in
    let (whole, part) =
      split_amount atoms fee rest
        (from_result-eq-done (Lockbox.harvest_other_amount atoms) split) in
    let fee_moved =
      pay-Moved rt w.tokens accounts.side_ata accounts.fee_ata fee between apart₁ fee_paid in
    let rest_moved =
      pay-Moved rt between accounts.side_ata accounts.rest_ata rest tokens apart₂ rest_paid in
    let other =
      not_inner (to_string mint)
        (from_result-eq-done (Lockbox.harvest_other (to_string mint)) side) in
    rw (← done-injective h13) (record {
      side_dest = side_dest;
      registered = answered-eq-done (w.side_dests mint) found;
      fee_to = check_dest-Destination rt w accounts.fee_ata mint side_dest.fee_owner fee_dest;
      rest_to = check_dest-Destination rt w accounts.rest_ata mint side_dest.rest_owner rest_dest;
      fee = fee;
      rest = rest;
      whole = whole;
      one_percent = part;
      between = between;
      fee_moved = fee_moved;
      rest_moved = rest_moved;
      emptied = omega (arith, whole, fee_moved.paid, rest_moved.paid);
      store_kept = refl;
      not_jito = λ same. other (ap to_string same ∙ text);
    })

-- The store is left alone whatever accounts are passed.
pub handle_side_keeps :
    (rt : Runtime) (to_string : Pubkey → String) (accounts : HarvestOther) (mint : Pubkey)
    (w w' : World rt)
    → handle rt to_string accounts mint w ≡ done w'
    → (w'.store ≡ w.store) × (w'.endpoint ≡ w.endpoint) × KeepsRoutes rt w w'
unfolding handle apply
handle_side_keeps rt to_string accounts mint w w' h =
    let (side_dest, _, h1) = >>=-eq-done (answered (w.side_dests mint)) _ h in
    let (_, h2) = require-eq-done (eq_bytes side_dest.mint mint) bad_mint _ h1 in
    let (_, h3) =
      require-eq-done (eq_bytes (rt.token w.tokens accounts.side_ata).owner rt.store_key)
        bad_token_account _ h2 in
    let (_, h4) =
      require-eq-done (eq_bytes (rt.token w.tokens accounts.side_ata).mint mint) bad_mint _ h3 in
    let (_, _, h5) = >>=-eq-done (check_dest rt w accounts.fee_ata mint side_dest.fee_owner) _ h4 in
    let (_, _, h6) =
      >>=-eq-done (check_dest rt w accounts.rest_ata mint side_dest.rest_owner) _ h5 in
    let (_, _, h7) = >>=-eq-done (from_result (Lockbox.harvest_other (to_string mint))) _ h6 in
    let (_, h8) = require-eq-done (Lockbox.side_dest_policy_ok _ _ _ _) bad_token_account _ h7 in
    let atoms = (rt.token w.tokens accounts.side_ata).amount in
    let ((fee, rest), _, h9) =
      >>=-eq-done (from_result (Lockbox.harvest_other_amount atoms)) _ h8 in
    let (_, h10) = require-eq-done (ltb fee u64_size) math_overflow _ h9 in
    let (_, h11) = require-eq-done (ltb rest u64_size) math_overflow _ h10 in
    let (between, _, h12) =
      >>=-eq-done (pay rt w.tokens accounts.side_ata accounts.fee_ata fee) _ h11 in
    let (_, _, h13) = >>=-eq-done (pay rt between accounts.side_ata accounts.rest_ata rest) _ h12 in
    let result = sym (done-injective h13) in
    (
      ap (λ (x : World rt). x.store) result,
      ap (λ (x : World rt). x.endpoint) result,
      (ap (λ (x : World rt). x.peers) result, ap (λ (x : World rt). x.side_dests) result),
    )
