-- ===== src/Program/Entry/Worth.antt =====
-- What a share is worth at the high-water mark, over any transactions.
use hyper_leaf.Common.{◌<◌, sym, subst, arith, String, List, [], ◌∷◌}
use hyper_leaf.Lockbox.Vault.Worth.{KeepsWorth, KeepsWorth-trans, Permits-worth}
use hyper_leaf.Program.State.{Pubkey, Store, lockbox}
use hyper_leaf.Program.Runtime.{Runtime}
use hyper_leaf.Program.World.{World}
use hyper_leaf.Program.Entry.{Instruction, execute, committed, transact}
use hyper_leaf.Program.Entry.Effect.Executed.{transaction_cases}
use hyper_leaf.Program.Entry.Refines.{vault, Stepped, stepped, left, Effect-Stepped}

-- Somebody holds shares all the while: before each transaction and after the last.
abbrev pub Outstanding : (rt : Runtime) → (Pubkey → String) → List Instruction → World rt → Type 0
Outstanding rt to_string [] w = 0 < w.store.total_shares
Outstanding rt to_string (ix ∷ rest) w =
    (0 < w.store.total_shares)
    × Outstanding rt to_string rest (committed w (execute rt to_string ix w))

Stepped-worth :
    (ix : Instruction) (s s' : Store)
    → 0 < s.total_shares
    → Stepped ix s s'
    → KeepsWorth (vault s) (vault s')
unfolding lockbox
Stepped-worth ix s s' outstanding (stepped c x _ permitted) =
    Permits-worth (vault s) c x (vault s') outstanding permitted
Stepped-worth ix s s' outstanding (left _ same) =
    subst (KeepsWorth (vault s)) (sym same) (omega arith)

pub Outstanding-now :
    (rt : Runtime) (to_string : Pubkey → String) (instructions : List Instruction) (w : World rt)
    → Outstanding rt to_string instructions w
    → 0 < w.store.total_shares
Outstanding-now rt to_string [] w held = held
Outstanding-now rt to_string (ix ∷ rest) w held = held.0

-- No transactions lower the worth of a share: over any that call the entry points on an existing
-- store, with shares outstanding before each and at the end, the accounted atoms at the
-- high-water mark, per share, are at the end at least what they were at the start.
pub transact_worth :
    (rt : Runtime) (to_string : Pubkey → String) (instructions : List Instruction) (w : World rt)
    → Outstanding rt to_string instructions w
    → KeepsWorth (vault w.store) (vault (transact rt to_string instructions w).store)
unfolding transact lockbox
transact_worth rt to_string [] w held = omega arith
transact_worth rt to_string (ix ∷ rest) w (held, still) =
    let m = committed w (execute rt to_string ix w) in
    let first =
      transaction_cases rt to_string ix w (λ x. KeepsWorth (vault w.store) (vault x.store))
        (omega arith)
        (λ x effect. Stepped-worth ix w.store x.store held (Effect-Stepped rt ix w x effect)) in
    KeepsWorth-trans (vault w.store) (vault m.store) (vault (transact rt to_string rest m).store)
      (Outstanding-now rt to_string rest m still) first (transact_worth rt to_string rest m still)

pub Outstanding-after :
    (rt : Runtime) (to_string : Pubkey → String) (instructions : List Instruction) (w : World rt)
    → Outstanding rt to_string instructions w
    → 0 < (transact rt to_string instructions w).store.total_shares
unfolding transact
Outstanding-after rt to_string [] w held = held
Outstanding-after rt to_string (ix ∷ rest) w held =
    Outstanding-after rt to_string rest (committed w (execute rt to_string ix w)) held.1
