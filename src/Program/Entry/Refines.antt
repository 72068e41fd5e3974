-- ===== src/Program/Entry/Refines.antt =====
-- The program against the abstract vault: over any transactions the counters of the store take
-- steps of the vault.
use hyper_leaf.Common.{ℕ, ◌≡◌, ◌≢◌, refl, sym, ap, ◌∙◌, subst, String, List, [], ◌∷◌}
use hyper_leaf.Outcome.{ok}
use hyper_leaf.Lockbox as Box
use hyper_leaf.Lockbox.{Lockbox}
use hyper_leaf.Lockbox.Vault.{Vault}
use hyper_leaf.Lockbox.Vault.Calls.{Call, perform, view, Permits, Allows, answered}
use hyper_leaf.Lockbox.Vault.Refines.{perform-Permits}
use hyper_leaf.Program.State.{Pubkey, Store, lockbox, apply_lockbox}
use hyper_leaf.Program.Runtime.{Runtime}
use hyper_leaf.Program.Errors.{done}
use hyper_leaf.Program.World.{World}
use hyper_leaf.Program.World.Solvent.{lockbox-apply_lockbox}
use hyper_leaf.Program.Entry.{Instruction, execute, committed, transact}
use hyper_leaf.Program.Entry.Effect.{
  Effect, Asks, IsSilent, locked, received, harvested, stopped, configured,
}
use hyper_leaf.Program.Entry.Effect.Executed.{transaction_outcomes}

-- The store as a vault.
abbrev pub vault : Store → Vault
vault s = view (lockbox s)

-- A store into which the counters were written back is seen as they are.
written :
    (s s' : Store) (c : Call) (x : ℕ × ℕ) (box : Lockbox)
    → perform c (lockbox s) ≡ (ok x, box)
    → s' ≡ apply_lockbox box s
    → Permits (vault s) c x (vault s')
written s s' c x box ran after =
    subst (λ (b : Lockbox). Permits (vault s) c x (view b))
      (sym (ap lockbox after ∙ lockbox-apply_lockbox box s))
      (perform-Permits c (lockbox s) x box ran)

harvest_performed :
    (l s fee : ℕ) (b b' : Lockbox)
    → Box.harvest_rate l s b ≡ (ok fee, b')
    → perform (Call.harvest l s) b ≡ (ok (0, fee), b')
unfolding perform
harvest_performed l s fee b b' h = rw h refl

halt_performed : (b b' : Lockbox) → Box.halt b ≡ (ok tt, b') → perform Call.halt b ≡ (ok (0, 0), b')
unfolding perform
halt_performed b b' h = rw h refl

call_performed :
    (atoms l s : ℕ) (x : ℕ × ℕ) (b b' : Lockbox)
    → Box.lock atoms l s b ≡ (ok x, b')
    → perform (Call.lock atoms l s) b ≡ (ok x, b')
unfolding perform
call_performed atoms l s x b b' h = h

pub unlock_performed :
    (shares l s : ℕ) (x : ℕ × ℕ) (b b' : Lockbox)
    → Box.unlock shares l s b ≡ (ok x, b')
    → perform (Call.unlock shares l s) b ≡ (ok x, b')
unfolding perform
unlock_performed shares l s x b b' h = h

-- An effect is one step of the vault, which the instruction asks for, or leaves it.
pub data Stepped (ix : Instruction) (s s' : Store) : Type 0 where
  stepped : (c : Call) (x : ℕ × ℕ) → Asks ix c → Permits (vault s) c x (vault s') → Stepped ix s s'
  left : IsSilent ix → vault s' ≡ vault s → Stepped ix s s'

pub Effect-Stepped :
    (rt : Runtime) (ix : Instruction) (w w' : World rt)
    → Effect rt ix w w'
    → Stepped ix w.store w'.store
Effect-Stepped rt ix w w' (locked atoms l s shares fee box _ _ ran after _ _ _ asks _) =
    stepped (Call.lock atoms l s) (shares, fee) asks
      (written w.store w'.store (Call.lock atoms l s) (shares, fee) box
        (call_performed atoms l s (shares, fee) (lockbox w.store) box ran) after)
Effect-Stepped rt ix w w' (received shares l s atoms fee box _ _ _ ran after _ _ asks _) =
    stepped (Call.unlock shares l s) (atoms, fee) asks
      (written w.store w'.store (Call.unlock shares l s) (atoms, fee) box
        (unlock_performed shares l s (atoms, fee) (lockbox w.store) box ran) after)
Effect-Stepped rt ix w w' (harvested l s fee box ran after _ asks _) =
    stepped (Call.harvest l s) (0, fee) asks
      (written w.store w'.store (Call.harvest l s) (0, fee) box
        (harvest_performed l s fee (lockbox w.store) box ran) after)
Effect-Stepped rt ix w w' (stopped box ran after _ asks _) =
    stepped Call.halt (0, 0) asks
      (written w.store w'.store Call.halt (0, 0) box (halt_performed (lockbox w.store) box ran)
        after)
Effect-Stepped rt ix w w' (configured same _ _ silent) = left silent (ap view same)

-- The answered calls are, in turn, those that the instructions ask for which go through.
pub data Served (rt : Runtime) (to_string : Pubkey → String)
    : List Instruction → World rt → List (Call × (ℕ × ℕ)) → Type 0 where
  finished : {w : World rt} → Served rt to_string [] w []
  asked :
      {ix : Instruction} {rest : List Instruction} {w : World rt} {c : Call} {x : ℕ × ℕ}
      {answers : List (Call × (ℕ × ℕ))} (w' : World rt)
      → execute rt to_string ix w ≡ done w'
      → Asks ix c
      → Served rt to_string rest w' answers
      → Served rt to_string (ix ∷ rest) w ((c, x) ∷ answers)
  silent :
      {ix : Instruction} {rest : List Instruction} {w : World rt} {answers : List (Call × (ℕ × ℕ))}
      (w' : World rt)
      → execute rt to_string ix w ≡ done w'
      → IsSilent ix
      → Served rt to_string rest w' answers
      → Served rt to_string (ix ∷ rest) w answers
  undone :
      {ix : Instruction} {rest : List Instruction} {w : World rt} {answers : List (Call × (ℕ × ℕ))}
      → ((w' : World rt) → execute rt to_string ix w ≢ done w')
      → Served rt to_string rest w answers
      → Served rt to_string (ix ∷ rest) w answers

-- The calls that transactions make, and the end of the transactions.
record Refined (rt : Runtime) (to_string : Pubkey → String) (instructions : List Instruction)
    (w end : World rt) : Type 0 where
  answers : List (Call × (ℕ × ℕ))
  served : Served rt to_string instructions w answers
  allows : Allows (vault w.store) answers (vault end.store)

step-Refined :
    (rt : Runtime) (to_string : Pubkey → String) (ix : Instruction) (rest : List Instruction)
    (w m end : World rt)
    → execute rt to_string ix w ≡ done m
    → Stepped ix w.store m.store
    → Refined rt to_string rest m end
    → Refined rt to_string (ix ∷ rest) w end
step-Refined rt to_string ix rest w m end ran (stepped c x asks permitted) k = record {
  answers = (c, x) ∷ k.answers;
  served = asked m ran asks k.served;
  allows = answered (vault m.store) permitted k.allows;
}
step-Refined rt to_string ix rest w m end ran (left quiet same) k = record {
  answers = k.answers;
  served = silent m ran quiet k.served;
  allows = subst (λ v. Allows v k.answers (vault end.store)) same k.allows;
}

transact-Refined :
    (rt : Runtime) (to_string : Pubkey → String) (instructions : List Instruction) (w : World rt)
    → Refined rt to_string instructions w (transact rt to_string instructions w)
unfolding transact
transact-Refined rt to_string [] w = record {
  answers = [];
  served = finished;
  allows = Allows.finished refl;
}
transact-Refined rt to_string (ix ∷ rest) w =
    let m = committed w (execute rt to_string ix w) in
    let end = transact rt to_string rest m in
    let first =
      transaction_outcomes rt to_string ix w
        (λ x. Refined rt to_string rest x end → Refined rt to_string (ix ∷ rest) w end)
        (λ fails k. record {
          answers = k.answers;
          served = undone fails k.served;
          allows = k.allows;
        })
        (λ x ran effect.
          step-Refined rt to_string ix rest w x end ran (Effect-Stepped rt ix w x effect)) in
    first (transact-Refined rt to_string rest m)

-- The program refines the abstract vault: over any transactions on an existing store, the
-- counters of the store, seen as a vault, go from the first state to the last by calls that the
-- vault permits; and these are, in turn, the calls of the instructions that go through: for a
-- lock a deposit of its atoms, for an inbound message a redemption of the shares that it says,
-- for a harvest of the rate a harvest, each at the reading of the pool that the instruction
-- names, for a halt a halt, and none for the other instructions.
pub transact-Allows :
    (rt : Runtime) (to_string : Pubkey → String) (instructions : List Instruction) (w : World rt)
    → (answers : List (Call × (ℕ × ℕ))) × Served rt to_string instructions w answers
      × Allows (vault w.store) answers (vault (transact rt to_string instructions w).store)
transact-Allows rt to_string instructions w =
    let k = transact-Refined rt to_string instructions w in (k.answers, k.served, k.allows)
