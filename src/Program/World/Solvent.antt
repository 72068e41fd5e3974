-- ===== src/Program/World/Solvent.antt =====
-- The token account of the escrow against the books of the store.
use hyper_leaf.Common.{◌≤◌, ◌≡◌, refl}
use hyper_leaf.Lockbox.{Lockbox}
use hyper_leaf.Lockbox.Invariant.{IsValid}
use hyper_leaf.Program.State.{Store, lockbox, apply_lockbox}
use hyper_leaf.Program.Runtime.{Runtime}
use hyper_leaf.Program.World.{World}
use hyper_leaf.Program.World.Moves.{amount}

-- The lockbox is in its invariant, and the escrow account holds at least what the books say.
pub record Solvent (rt : Runtime) (w : World rt) : Type 0 where
  pub valid : IsValid (lockbox w.store)
  pub funded : w.store.escrow_atoms ≤ amount rt w.tokens w.store.escrow_ata

pub lockbox-apply_lockbox : (b : Lockbox) (s : Store) → lockbox (apply_lockbox b s) ≡ b
unfolding lockbox apply_lockbox
lockbox-apply_lockbox b s = refl
