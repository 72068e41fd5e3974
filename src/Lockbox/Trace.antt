-- ===== src/Lockbox/Trace.antt =====
-- Histories of the lockbox: its operations as steps of a relation, each with the atoms that it
-- takes in and pays out. An operation that fails leaves no step, since the transaction is undone.
use hyper_leaf.Common.{ℕ, ◌+◌, ◌≤◌, ◌≡◌, ◌⊎◌, refl, ◌∙◌, arith, true, false}
use hyper_leaf.Bytes.{Bytes}
use hyper_leaf.Outcome.{ok}
use hyper_leaf.Lockbox.{Lockbox, new, harvest_rate, lock, unlock, lz_receive, donate, halt}
use hyper_leaf.Lockbox.Harvest.{harvest_rate-Settled}
use hyper_leaf.Lockbox.Lock.{lock-Locked}
use hyper_leaf.Lockbox.Unlock.{unlock-Unlocked}
use hyper_leaf.Lockbox.Invariant.{
  IsValid, new-IsValid, Settled-IsValid, lock-IsValid, unlock-IsValid,
}

-- One operation that succeeds, from `b` to `b'`, taking `paid_in` atoms and paying `paid_out`.
pub data Step (b : Lockbox) (paid_in paid_out : ℕ) (b' : Lockbox) : Type 0 where
  locked :
      (l s shares fee : ℕ)
      → lock paid_in l s b ≡ (ok (shares, fee), b')
      → paid_out ≡ 0
      → Step b paid_in paid_out b'
  received :
      (tag expected : Bytes) (shares l s fee : ℕ)
      → lz_receive tag expected shares l s b ≡ (ok (paid_out, fee), b')
      → paid_in ≡ 0
      → Step b paid_in paid_out b'
  harvested :
      (l s fee : ℕ)
      → harvest_rate l s b ≡ (ok fee, b')
      → paid_in ≡ 0
      → paid_out ≡ 0
      → Step b paid_in paid_out b'
  donated : donate paid_in b ≡ (ok tt, b') → paid_out ≡ 0 → Step b paid_in paid_out b'
  stopped : halt b ≡ (ok tt, b') → paid_in ≡ 0 → paid_out ≡ 0 → Step b paid_in paid_out b'

-- A history from `b`, with the atoms taken in and paid out so far.
pub data Run (b : Lockbox) : ℕ → ℕ → Lockbox → Type 0 where
  here : Run b 0 0 b
  next :
      {i o i' o' : ℕ} {m b' : Lockbox}
      → Run b i o m
      → (j p : ℕ) → Step m j p b'
      → i' ≡ i + j
      → o' ≡ o + p
      → Run b i' o' b'

pub lz_receive-unlock :
    (tag expected : Bytes) (shares l s : ℕ) (b : Lockbox) (r : ℕ × ℕ) (b' : Lockbox)
    → lz_receive tag expected shares l s b ≡ (ok r, b')
    → unlock shares l s b ≡ (ok r, b')
unfolding lz_receive
lz_receive-unlock tag expected shares l s b r b' h = ground arith

-- What a step does to the books.
pub record Moves (b : Lockbox) (paid_in paid_out : ℕ) (b' : Lockbox) : Type 0 where
  pub atoms :
      b'.escrow_atoms + b'.harvest_atoms + paid_out ≡ b.escrow_atoms + b.harvest_atoms + paid_in
  pub harvest : b.harvest_atoms ≤ b'.harvest_atoms
  pub cap : b'.deposit_cap_atoms ≡ b.deposit_cap_atoms
  pub limit :
      (b.deposit_cap_atoms ≡ 0)
      ⊎ ((b'.last_accounted ≤ b.last_accounted) ⊎ (b'.last_accounted ≤ b.deposit_cap_atoms))
  pub stays_halted : (b.halted ≡ false) ⊎ (b'.halted ≡ true)
  pub no_minting : (b.halted ≡ false) ⊎ (b'.total_shares ≤ b.total_shares)

Step-Moves : {b : Lockbox} {j p : ℕ} {b' : Lockbox} → Step b j p b' → Moves b j p b'
Step-Moves {b} {j} {p} {b'} (locked l s shares fee h e) =
    let k = lock-Locked j l s b shares fee b' h in
    ground (arith, k.settled, k.minted, k.open_for_deposits)
Step-Moves {b} {j} {p} {b'} (received tag expected shares l s fee h e) =
    let k =
      unlock-Unlocked shares l s b p fee b'
        (lz_receive-unlock tag expected shares l s b (p, fee) b' h) in
    ground (arith, k.settled, k.redeemed)
Step-Moves {b} {j} {p} {b'} (harvested l s fee h e e') =
    ground (arith, harvest_rate-Settled l s b fee b' h)
Step-Moves {b} {j} {p} {b'} (donated h e) = unfold donate in ground arith
Step-Moves {b} {j} {p} {b'} (stopped h e e') = unfold halt in ground arith

Step-IsValid : {b : Lockbox} {j p : ℕ} {b' : Lockbox} → Step b j p b' → IsValid b → IsValid b'
Step-IsValid {b} {j} {p} {b'} (locked l s shares fee h e) v =
    lock-IsValid j l s b (shares, fee) b' h v
Step-IsValid {b} {j} {p} {b'} (received tag expected shares l s fee h e) v =
    unlock-IsValid shares l s b (p, fee) b'
      (lz_receive-unlock tag expected shares l s b (p, fee) b' h) v
Step-IsValid {b} {j} {p} {b'} (harvested l s fee h e e') v =
    Settled-IsValid b fee b' (harvest_rate-Settled l s b fee b' h) v
Step-IsValid (donated h e) v = unfold donate in ground arith
Step-IsValid (stopped h e e') v = unfold halt in ground arith

-- After any history of successful locks, inbound redemptions, harvests, donations and halts from
-- a new lockbox, the invariant holds; what the two accounts hold and what was paid out is what
-- was taken in; the cap is the initial one, and what is accounted is within it, unless it is 0.
pub Run-IsValid :
    (cap i o : ℕ) (b : Lockbox)
    → Run (new cap) i o b
    → IsValid b
      × (b.escrow_atoms + b.harvest_atoms + o ≡ i)
      × (b.deposit_cap_atoms ≡ cap)
      × ((cap ≡ 0) ⊎ (b.last_accounted ≤ cap))
unfolding new
Run-IsValid cap i o b here = (new-IsValid cap, omega arith, refl, omega arith)
Run-IsValid cap i o b (next {i = i₀} {o = o₀} {m = m} r j p st e e') =
    let (v, atoms, same, limit) = Run-IsValid cap i₀ o₀ m r in
    let k = Step-Moves st in
    (Step-IsValid st v, omega (arith, k.atoms), k.cap ∙ same, ground (arith, k.limit))

-- The halt is for good: after any history from a halted lockbox it is halted still, and there are
-- at most as many shares as when it was halted.
Run-halted :
    (b : Lockbox) (i o : ℕ) (b' : Lockbox)
    → b.halted ≡ true
    → Run b i o b'
    → (b'.halted ≡ true) × (b'.total_shares ≤ b.total_shares)
Run-halted b i o b' h here = (h, omega arith)
Run-halted b i o b' h (next {i = i₀} {o = o₀} {m = m} r j p st e e') =
    let (still, fewer) = Run-halted b i₀ o₀ m h r in
    let k = Step-Moves st in (ground (arith, k.stays_halted), ground (arith, k.no_minting))
