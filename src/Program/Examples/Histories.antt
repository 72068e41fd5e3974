-- ===== src/Program/Examples/Histories.antt =====
-- Transactions on the concrete ledger, from before the store exists and on an existing store.
use hyper_leaf.Common.{ℕ, ◌+◌, ◌*◌, ◌<◌, ◌≡◌, ◌⊎◌, refl, sym, subst, arith, List, [], ◌∷◌}
use hyper_leaf.Rate.{listing_tag}
use hyper_leaf.Lockbox.Vault.Calls.{Call, Allows}
use hyper_leaf.Lockbox.Vault.Worth.{KeepsWorth}
use hyper_leaf.Program.Errors.{done}
use hyper_leaf.Program.World.{World}
use hyper_leaf.Program.World.Moves.{amount}
use hyper_leaf.Program.LzReceive
use hyper_leaf.Program.Entry.{Instruction, execute, committed, transact}
use hyper_leaf.Program.Entry.Refines.{vault, Served, transact-Allows}
use hyper_leaf.Program.Entry.Worth.{Outstanding, transact_worth}
use hyper_leaf.Program.Entry.Holder.{holder_paid}
use hyper_leaf.Program.Entry.Traffic.{Traffic, transact-Traffic}
use hyper_leaf.Program.Calm.{Calm}
use hyper_leaf.Program.State.{lockbox}
use hyper_leaf.Program.Entry.Panics.{execute-Calm}
use hyper_leaf.Program.LifeCycle.{EntryPoint, vacant, init_store, call, live}
use hyper_leaf.Program.LifeCycle.Created.{Created, live-Created}
use hyper_leaf.Program.Examples.Ledger.{ledger}
use hyper_leaf.Program.Examples.Setting.{user, accounts, world, apart}
use hyper_leaf.Program.Examples.Runs.{lock_accounts, lock_params, locked, lock_run, recipient_apart}
use hyper_leaf.Program.Examples.Admin.{opening, opening_params, to_string}
use hyper_leaf.Program.Examples.Trips.{
  transactions, return_accounts, return_params, returned, return_run, return_message, return_apart,
  world-Solvent,
}

transact-Allows_example :
    (answers : List (Call × (ℕ × ℕ))) × Served ledger to_string transactions world answers
    × Allows
        (vault world.store)
        answers
        (vault (transact ledger to_string transactions world).store)
transact-Allows_example = transact-Allows ledger to_string transactions world

transact-Traffic_example :
    (out : ℕ) × (back : ℕ) × Traffic ledger world.endpoint out back
      (transact ledger to_string transactions world).endpoint
    × ((transact ledger to_string transactions world).store.total_shares + back
        ≡ world.store.total_shares + out)
transact-Traffic_example =
    transact-Traffic ledger to_string transactions world (tt, (refl, (tt, tt)))

-- The user's deposit alone.
abbrev deposits : List Instruction
deposits = Instruction.lock lock_accounts lock_params ∷ []

after_deposit :
    committed world (execute ledger to_string (Instruction.lock lock_accounts lock_params) world)
    ≡ locked
unfolding execute committed
after_deposit = rw lock_run refl

deposited : transact ledger to_string deposits world ≡ locked
unfolding transact
deposited = after_deposit

deposits-Outstanding : Outstanding ledger to_string deposits world
deposits-Outstanding = (
  omega arith,
  subst (λ (w : World ledger). 0 < w.store.total_shares) (sym after_deposit) (omega arith),
)

transact_worth_example :
    KeepsWorth (vault world.store) (vault (transact ledger to_string deposits world).store)
transact_worth_example = transact_worth ledger to_string deposits world deposits-Outstanding

holder_run :
    LzReceive.handle ledger return_accounts return_params (transact ledger to_string deposits world)
    ≡ done returned
holder_run = rw deposited return_run

holder_paid_example :
    (atoms : ℕ) × (amount ledger returned.tokens return_accounts.recipient_ata
      ≡ amount ledger
          (transact ledger to_string deposits world).tokens
          return_accounts.recipient_ata
        + atoms)
    × (((returned.store.last_rate ≡ 0)
          × (1_000_000_000_000 * (world.store.last_accounted * world.store.last_rate) ≡ 0))
        ⊎ (1_000_000_000_000 * (world.store.last_accounted * world.store.last_rate)
            < (atoms + 1) * (returned.store.last_rate * world.store.total_shares)))
holder_paid_example =
    holder_paid ledger to_string deposits world return_accounts return_params listing_tag user
      1_000_000_000_000 returned deposits-Outstanding apart recipient_apart return_apart
      return_message holder_run

-- The store is created, a second creation is refused, and the user deposits.
abbrev calls : List EntryPoint
calls =
    init_store opening opening_params
    ∷ init_store opening opening_params
    ∷ call (Instruction.lock lock_accounts lock_params)
    ∷ []

live-Created_example :
    Created ledger to_string calls accounts [] (live ledger to_string calls (vacant accounts []))
live-Created_example = live-Created ledger to_string calls accounts []

execute-Calm_example :
    Calm (execute ledger to_string (Instruction.lock lock_accounts lock_params) world)
unfolding lockbox
execute-Calm_example =
    execute-Calm ledger to_string (Instruction.lock lock_accounts lock_params) world
      world-Solvent.valid (omega arith) (omega arith, omega arith)
