-- ===== src/Program/Entry/Steps.antt =====
-- What each effect keeps of the configuration of the store.
use hyper_leaf.Common.{◌≡◌, inr, sym, subst, ◌∙◌, arith}
use hyper_leaf.Outcome.{ok}
use hyper_leaf.Lockbox as Box
use hyper_leaf.Lockbox.{Lockbox}
use hyper_leaf.Lockbox.Harvest.{harvest_rate-Settled}
use hyper_leaf.Lockbox.Lock.{lock-Locked}
use hyper_leaf.Lockbox.Unlock.{unlock-Unlocked}
use hyper_leaf.Program.State.{Store, lockbox, apply_lockbox}
use hyper_leaf.Program.Runtime.{Runtime}
use hyper_leaf.Program.World.{World}
use hyper_leaf.Program.Entry.{Instruction}
use hyper_leaf.Program.Entry.Kept.{Kept, apply_lockbox-Kept}
use hyper_leaf.Program.Entry.Effect.{Effect, locked, received, harvested, stopped, configured}

-- The books after a method of the lockbox.
unchanged :
    (s : Store) (b : Lockbox)
    → b.deposit_cap_atoms ≡ (lockbox s).deposit_cap_atoms
    → b.halted ≡ (lockbox s).halted
    → Kept s (apply_lockbox b s)
unfolding lockbox
unchanged s b cap halted = apply_lockbox-Kept b s cap (ground arith)

-- The store after a halt.
stopped-Kept :
    (s : Store) (b : Lockbox) → Box.halt (lockbox s) ≡ (ok tt, b) → Kept s (apply_lockbox b s)
unfolding Box.halt lockbox
stopped-Kept s b h = apply_lockbox-Kept b s (ground arith) (inr (ground arith))

pub Effect-Kept :
    (rt : Runtime) (ix : Instruction) (w w' : World rt) → Effect rt ix w w' → Kept w.store w'.store
Effect-Kept rt ix w w' (locked atoms l s shares fee box _ _ ran after _ _ _ _ _) =
    let k = lock-Locked atoms l s (lockbox w.store) shares fee box ran in
    subst (Kept w.store) (sym after)
      (unchanged w.store box (k.minted.cap ∙ k.settled.cap) (k.minted.halted ∙ k.settled.halted))
Effect-Kept rt ix w w' (received shares l s atoms fee box _ _ _ ran after _ _ _ _) =
    let k = unlock-Unlocked shares l s (lockbox w.store) atoms fee box ran in
    subst (Kept w.store) (sym after) (
      unchanged w.store box (k.redeemed.cap ∙ k.settled.cap) (k.redeemed.halted ∙ k.settled.halted))
Effect-Kept rt ix w w' (harvested l s fee box ran after _ _ _) =
    let k = harvest_rate-Settled l s (lockbox w.store) fee box ran in
    subst (Kept w.store) (sym after) (unchanged w.store box k.cap k.halted)
Effect-Kept rt ix w w' (stopped box ran after _ _ _) =
    subst (Kept w.store) (sym after) (stopped-Kept w.store box ran)
Effect-Kept rt ix w w' (configured _ kept _ _) = kept
