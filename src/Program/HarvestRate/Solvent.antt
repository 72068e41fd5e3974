-- ===== src/Program/HarvestRate/Solvent.antt =====
-- A harvest moves exactly the fee that it books.
use hyper_leaf.Common.{ℕ, ◌≡◌, ◌≢◌, refl, sym, ap₂, ◌∙◌, arith, ap}
use hyper_leaf.Bytes.{eq_bytes, eq_bytes→eq}
use hyper_leaf.Lockbox.{harvest_rate}
use hyper_leaf.Lockbox.Harvest.{Settled, harvest_rate-Settled}
use hyper_leaf.Lockbox.Invariant.{Settled-IsValid}
use hyper_leaf.Lockbox.Vault.{IsRate, Accrual}
use hyper_leaf.Lockbox.Vault.Calls.{view}
use hyper_leaf.Lockbox.Vault.Accrue.{harvest_rate-Accrual}
use hyper_leaf.Program.State.{lockbox, apply_lockbox}
use hyper_leaf.Program.Runtime.{Runtime}
use hyper_leaf.Program.Pool.{read_jito_rate}
use hyper_leaf.Program.Errors.{
  done, bad_token_account, >>=-eq-done, require-eq-done, done-injective,
}
use hyper_leaf.Program.World.{World, run_box, transfer_fee}
use hyper_leaf.Program.World.Moves.{amount, Moved, run_box-eq-done, transfer_fee-Moved}
use hyper_leaf.Program.World.Solvent.{Solvent, lockbox-apply_lockbox}
use hyper_leaf.Program.HarvestRate.{HarvestRate, apply, handle}

-- A harvest that is carried out has read a rate from the pool, settled the books at it and moved
-- the fee, and nothing else, from the escrow account to the harvest account.
pub record Harvested (rt : Runtime) (accounts : HarvestRate) (w w' : World rt) : Type 0 where
  pub lamports : ℕ
  pub supply : ℕ
  pub fee : ℕ
  pub rate_read : read_jito_rate accounts.jito_pool ≡ done (lamports, supply)
  pub rate : ℕ
  pub is_rate : IsRate rate lamports supply
  pub accrual : Accrual rate (view (lockbox w.store)) fee (view (lockbox w'.store))
  pub settled : Settled (lockbox w.store) fee (lockbox w'.store)
  pub moved : Moved rt w.tokens w.store.escrow_ata w.store.harvest_ata fee w'.tokens
  pub escrow_kept : w'.store.escrow_ata ≡ w.store.escrow_ata
  pub harvest_kept : w'.store.harvest_ata ≡ w.store.harvest_ata

apply-Harvested :
    (rt : Runtime) (accounts : HarvestRate) (w w' : World rt)
    → accounts.escrow_ata ≡ w.store.escrow_ata
    → accounts.harvest_ata ≡ w.store.harvest_ata
    → w.store.escrow_ata ≢ w.store.harvest_ata
    → apply rt accounts w ≡ done w'
    → Harvested rt accounts w w'
unfolding apply apply_lockbox
apply-Harvested rt accounts w w' escrow harvest apart h =
    let ((l, s), read, h1) = >>=-eq-done (read_jito_rate accounts.jito_pool) _ h in
    let ((fee, box), ran, h2) = >>=-eq-done (run_box (harvest_rate l s) w.store) _ h1 in
    let (tokens, paid, h3) =
      >>=-eq-done (transfer_fee rt w.tokens accounts.escrow_ata accounts.harvest_ata fee) _ h2 in
    let result = done-injective h3 in
    let (r, is_rate, accrual) =
      harvest_rate-Accrual l s (lockbox w.store) fee box
        (run_box-eq-done (harvest_rate l s) w.store ran) in
    let books =
      harvest_rate-Settled l s (lockbox w.store) fee box
        (run_box-eq-done (harvest_rate l s) w.store ran) in
    let sent : transfer_fee rt w.tokens w.store.escrow_ata w.store.harvest_ata fee ≡ done tokens =
      ap₂ (λ e k. transfer_fee rt w.tokens e k fee) (sym escrow) (sym harvest) ∙ paid in
    let moved =
      transfer_fee-Moved rt w.tokens w.store.escrow_ata w.store.harvest_ata fee tokens apart sent in
    rw (← result) (record {
      lamports = l;
      supply = s;
      fee = fee;
      rate_read = read;
      rate = r;
      is_rate = is_rate;
      accrual = rw (lockbox-apply_lockbox box w.store) accrual;
      settled = rw (lockbox-apply_lockbox box w.store) books;
      moved = moved;
      escrow_kept = refl;
      harvest_kept = refl;
    })

-- A harvest that is carried out read a rate from the pool: the books took the step of the
-- abstract vault that settles the fee at that rate, lamports per pool token rounded down at 18
-- decimals, and exactly that fee moved from the escrow to the harvest account, with no other
-- balance changed, provided that the two accounts differ.
pub handle-Harvested :
    (rt : Runtime) (accounts : HarvestRate) (w w' : World rt)
    → w.store.escrow_ata ≢ w.store.harvest_ata
    → handle rt accounts w ≡ done w'
    → Harvested rt accounts w w'
unfolding handle
handle-Harvested rt accounts w w' apart h =
    let (escrow, h1) =
      require-eq-done (eq_bytes accounts.escrow_ata w.store.escrow_ata) bad_token_account _ h in
    let (harvest, h2) =
      require-eq-done (eq_bytes accounts.harvest_ata w.store.harvest_ata) bad_token_account _ h1 in
    apply-Harvested rt accounts w w' (eq_bytes→eq accounts.escrow_ata w.store.escrow_ata escrow)
      (eq_bytes→eq accounts.harvest_ata w.store.harvest_ata harvest) apart h2

pub handle-Solvent :
    (rt : Runtime) (accounts : HarvestRate) (w w' : World rt)
    → w.store.escrow_ata ≢ w.store.harvest_ata
    → Solvent rt w
    → handle rt accounts w ≡ done w'
    → Solvent rt w'
unfolding lockbox
handle-Solvent rt accounts w w' apart s h =
    let k = handle-Harvested rt accounts w w' apart h in
    let kept = ap (amount rt w'.tokens) k.escrow_kept in
    let paid = k.moved.paid in
    let booked = k.settled.escrow in
    let held = s.funded in
    record {
      valid = Settled-IsValid (lockbox w.store) k.fee (lockbox w'.store) k.settled s.valid;
      funded = omega arith;
    }
