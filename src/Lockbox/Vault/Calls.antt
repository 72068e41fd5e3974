-- ===== src/Lockbox/Vault/Calls.antt =====
-- The calls of the lockbox as data, what the abstract vault permits of each, and what each does.
use hyper_leaf.Common.{ℕ, ◌≡◌, true, List, [], ◌∷◌}
use hyper_leaf.Outcome.{Result, ok, err, panic}
use hyper_leaf.Lockbox as Box
use hyper_leaf.Lockbox.{Lockbox, Action, ⊤, pure, ◌>>=◌, ◌>>◌}
use hyper_leaf.Lockbox.Vault.{Vault, IsRate, Accrual, Deposit, Redemption}

pub data Call : Type 0 where
  lock : (atoms lamports supply : ℕ) → Call
  unlock : (shares lamports supply : ℕ) → Call
  harvest : (lamports supply : ℕ) → Call
  donate : (atoms : ℕ) → Call
  halt : Call

-- What a call returns: the shares minted or the atoms paid, and the fee.
unfoldable pub perform : Call → Action (ℕ × ℕ)
perform (Call.lock atoms l s) = Box.lock atoms l s
perform (Call.unlock shares l s) = Box.unlock shares l s
perform (Call.harvest l s) = do fee ← Box.harvest_rate l s; pure (0, fee)
perform (Call.donate atoms) = do Box.donate atoms; pure (0, 0)
perform Call.halt = do Box.halt; pure (0, 0)

-- The abstract view of a lockbox forgets the escrow.
abbrev pub view : Lockbox → Vault
view b = record {
  assets = b.last_accounted;
  shares = b.total_shares;
  mark = b.last_rate;
  fees = b.harvest_atoms;
  cap = b.deposit_cap_atoms;
  closed = b.halted;
}

-- A deposit and a redemption are priced once the fee has accrued at the price that is read. A
-- donation is not seen.
pub data Permits (v : Vault) : Call → ℕ × ℕ → Vault → Type 0 where
  locked :
      {atoms l s shares fee : ℕ} {v' : Vault} (r : ℕ) (m : Vault)
      → IsRate r l s
      → Accrual r v fee m
      → Deposit m atoms shares v'
      → Permits v (Call.lock atoms l s) (shares, fee) v'
  unlocked :
      {shares l s atoms fee : ℕ} {v' : Vault} (r : ℕ) (m : Vault)
      → IsRate r l s
      → Accrual r v fee m
      → Redemption m shares atoms v'
      → Permits v (Call.unlock shares l s) (atoms, fee) v'
  harvested :
      {l s fee : ℕ} {v' : Vault} (r : ℕ)
      → IsRate r l s
      → Accrual r v fee v'
      → Permits v (Call.harvest l s) (0, fee) v'
  donated : {atoms : ℕ} {v' : Vault} → v' ≡ v → Permits v (Call.donate atoms) (0, 0) v'
  halted : {v' : Vault} → v' ≡ record v { closed = true } → Permits v Call.halt (0, 0) v'

-- Answered calls in a row, all permitted.
pub data Allows : Vault → List (Call × (ℕ × ℕ)) → Vault → Type 0 where
  finished : {v v' : Vault} → v' ≡ v → Allows v [] v'
  answered :
      {c : Call} {x : ℕ × ℕ} {done : List (Call × (ℕ × ℕ))} {v v' : Vault} (m : Vault)
      → Permits v c x m
      → Allows m done v'
      → Allows v ((c, x) ∷ done) v'

-- A call that failed is undone and leaves no record.
unfoldable pub recorded :
    Call
    → Lockbox
    → Result (ℕ × ℕ) × Lockbox
    → (Lockbox → List (Call × (ℕ × ℕ)) × Lockbox)
    → List (Call × (ℕ × ℕ)) × Lockbox
recorded c b (ok x, m) rest = let (done, left) = rest m in ((c, x) ∷ done, left)
recorded c b (err e, m) rest = rest b
recorded c b (panic, m) rest = rest b

-- The calls of a history in turn: those that were carried out, with their answers.
unfoldable pub history : List Call → Lockbox → List (Call × (ℕ × ℕ)) × Lockbox
unfolding perform recorded
history [] b = ([], b)
history (c ∷ calls) b = recorded c b (perform c b) (history calls)
