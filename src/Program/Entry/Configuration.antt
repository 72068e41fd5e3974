-- ===== src/Program/Entry/Configuration.antt =====
-- No instruction, and so no list of transactions, changes the configuration of the store.
use hyper_leaf.Common.{String, List, [], ◌∷◌}
use hyper_leaf.Program.State.{Pubkey}
use hyper_leaf.Program.Runtime.{Runtime}
use hyper_leaf.Program.World.{World}
use hyper_leaf.Program.Entry.{Instruction, execute, committed, transact}
use hyper_leaf.Program.Entry.Kept.{Kept, Kept-refl, Kept-trans}
use hyper_leaf.Program.Entry.Steps.{Effect-Kept}
use hyper_leaf.Program.Entry.Effect.Executed.{transaction_cases}

-- Over any transactions that call the entry points on an existing store, in any order and by
-- anyone, where one that fails is undone: the admin, the bump, the endpoint, the destination, the
-- listing tag, the cap and the two token accounts of the store stay as they are; a peer that is
-- set stays the same; and a store that is halted stays halted.
pub transact-Kept :
    (rt : Runtime) (to_string : Pubkey → String) (instructions : List Instruction) (w : World rt)
    → Kept w.store (transact rt to_string instructions w).store
unfolding transact
transact-Kept rt to_string [] w = Kept-refl w.store
transact-Kept rt to_string (ix ∷ rest) w =
    let m = committed w (execute rt to_string ix w) in
    Kept-trans w.store m.store (transact rt to_string rest m).store
      (transaction_cases rt to_string ix w (λ x. Kept w.store x.store) (Kept-refl w.store)
        (Effect-Kept rt ix w))
      (transact-Kept rt to_string rest m)
