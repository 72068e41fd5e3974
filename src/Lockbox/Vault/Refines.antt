-- ===== src/Lockbox/Vault/Refines.antt =====
-- Every call that the lockbox carries out is one that the abstract vault permits, with the same
-- answer; and so is every history of calls.
use hyper_leaf.Common.{ℕ, ◌≡◌, refl, sym, subst, arith, List, [], ◌∷◌, false, true}
use hyper_leaf.Outcome.{Result, ok, err, panic}
use hyper_leaf.Lockbox as Box
use hyper_leaf.Lockbox.{Lockbox, Action, ⊤, pure, >>=-eq-ok}
use hyper_leaf.Lockbox.Lock.{lock-Locked}
use hyper_leaf.Lockbox.Unlock.{unlock-Unlocked}
use hyper_leaf.Lockbox.Vault.{Vault-ext}
use hyper_leaf.Lockbox.Vault.Calls.{
  Call, perform, view, Permits, locked, unlocked, harvested, donated, halted, Allows, finished,
  answered, recorded, history,
}
use hyper_leaf.Lockbox.Vault.Accrue.{harvest_rate-Accrual}
use hyper_leaf.Lockbox.Vault.Trade.{Minted-Deposit, Redeemed-Redemption}

-- Before a `lock` or an `unlock` goes on, the fee is settled.
lock-ran :
    (atoms l s : ℕ) (b : Lockbox) (shares fee : ℕ) (b' : Lockbox)
    → Box.lock atoms l s b ≡ (ok (shares, fee), b')
    → Box.harvest_rate l s b ≡ (ok fee, (Box.harvest_rate l s b).1)
unfolding Box.lock
lock-ran atoms l s b shares fee b' h = ground arith

unlock-ran :
    (shares l s : ℕ) (b : Lockbox) (atoms fee : ℕ) (b' : Lockbox)
    → Box.unlock shares l s b ≡ (ok (atoms, fee), b')
    → Box.harvest_rate l s b ≡ (ok fee, (Box.harvest_rate l s b).1)
unfolding Box.unlock
unlock-ran shares l s b atoms fee b' h = ground arith

harvest-ran :
    (l s : ℕ) (b : Lockbox) (x : ℕ × ℕ) (b' : Lockbox)
    → perform (Call.harvest l s) b ≡ (ok x, b')
    → (x.0 ≡ 0) × (Box.harvest_rate l s b ≡ (ok x.1, b'))
unfolding perform
harvest-ran l s b x b' h = ground arith

-- A call that succeeds is permitted, with what it returned.
pub perform-Permits :
    (c : Call) (b : Lockbox) (x : ℕ × ℕ) (b' : Lockbox)
    → perform c b ≡ (ok x, b')
    → Permits (view b) c x (view b')
unfolding perform
perform-Permits (Call.lock atoms l s) b (shares, fee) b' h =
    let m : Lockbox = (Box.harvest_rate l s b).1 in
    let k = lock-Locked atoms l s b shares fee b' h in
    let (r, is_rate, accrual) =
      harvest_rate-Accrual l s b fee m (lock-ran atoms l s b shares fee b' h) in
    let is_open : m.halted ≡ false = ground (arith, k.settled.halted, k.open_for_deposits) in
    locked r (view m) is_rate accrual
      (Minted-Deposit m atoms shares b' k.minted is_open k.some_atoms)
perform-Permits (Call.unlock shares l s) b (atoms, fee) b' h =
    let m : Lockbox = (Box.harvest_rate l s b).1 in
    let k = unlock-Unlocked shares l s b atoms fee b' h in
    let (r, is_rate, accrual) =
      harvest_rate-Accrual l s b fee m (unlock-ran shares l s b atoms fee b' h) in
    unlocked r (view m) is_rate accrual (Redeemed-Redemption m shares atoms b' k.redeemed)
perform-Permits (Call.harvest l s) b (none_minted, fee) b' h =
    let (nothing, ran) = harvest-ran l s b (none_minted, fee) b' h in
    let (r, is_rate, accrual) = harvest_rate-Accrual l s b fee b' ran in
    subst (λ n. Permits (view b) (Call.harvest l s) (n, fee) (view b')) (sym nothing)
      (harvested r is_rate accrual)
perform-Permits (Call.donate atoms) b x b' h =
    let nothing : x ≡ (0, 0) = unfold Box.donate in ground arith in
    let same : view b' ≡ view b =
      unfold Box.donate in
      Vault-ext (view b') (view b) (ground arith) (ground arith) (ground arith) (ground arith)
        (ground arith) (ground arith) in
    subst (λ y. Permits (view b) (Call.donate atoms) y (view b')) (sym nothing) (donated same)
perform-Permits Call.halt b x b' h =
    let nothing : x ≡ (0, 0) = unfold Box.halt in ground arith in
    let same : view b' ≡ record (view b) { closed = true } =
      unfold Box.halt in
      Vault-ext (view b') (record (view b) { closed = true }) (ground arith) (ground arith)
        (ground arith) (ground arith) (ground arith) (ground arith) in
    subst (λ y. Permits (view b) Call.halt y (view b')) (sym nothing) (halted same)

-- A call after a history: carried out and recorded, or undone.
attempt-Allows :
    (c : Call) (b : Lockbox) (end : Result (ℕ × ℕ) × Lockbox)
    (rest : Lockbox → List (Call × (ℕ × ℕ)) × Lockbox)
    → perform c b ≡ end
    → ((m : Lockbox) → Allows (view m) (rest m).0 (view (rest m).1))
    → Allows (view b) (recorded c b end rest).0 (view (recorded c b end rest).1)
unfolding recorded
attempt-Allows c b (ok x, m) rest e ih = answered (view m) (perform-Permits c b x m e) (ih m)
attempt-Allows c b (err e', m) rest e ih = ih b
attempt-Allows c b (panic, m) rest e ih = ih b

-- The lockbox refines the abstract vault, which knows neither the escrow nor machine integers: of
-- any list of deposits, redemptions, harvests, donations and halts, from any lockbox, those that
-- are carried out are, in turn and with the amounts that they return, steps that the vault
-- permits from the view of the lockbox at the start to its view at the end. A call that fails
-- leaves no step.
pub history-Allows :
    (calls : List Call) (b : Lockbox)
    → Allows (view b) (history calls b).0 (view (history calls b).1)
unfolding history
history-Allows [] b = finished refl
history-Allows (c ∷ calls) b =
    attempt-Allows c b (perform c b) (history calls) refl (history-Allows calls)
