-- ===== src/Program/Safe.antt =====
-- The safe states of the program, and what the admin's instructions do to them.
use hyper_leaf.Common.{ℕ, ◌≤◌, ◌≡◌, ◌≢◌, inl, inr, sym, ap, ap₂, subst, ◌∙◌, arith, not}
use hyper_leaf.Bytes.{eq_bytes}
use hyper_leaf.Lockbox
use hyper_leaf.Lockbox.Invariant.{IsValid, halt-IsValid}
use hyper_leaf.Program.State.{Pubkey, Store, PeerConfig, lockbox, apply_lockbox}
use hyper_leaf.Program.Runtime.{Runtime}
use hyper_leaf.Program.Pool.{jito_mint_pubkey}
use hyper_leaf.Program.Errors.{done, unauthorized, harvest_inner, require-eq-done, done-injective}
use hyper_leaf.Program.World.{World, run_box, outcome}
use hyper_leaf.Program.World.Moves.{amount, Moved}
use hyper_leaf.Program.World.Solvent.{Solvent}
use hyper_leaf.Program.Halt
use hyper_leaf.Program.SetPeerConfig.Frozen.{Configured, address_set, options_set}
use hyper_leaf.Program.SetHarvestOtherDest
use hyper_leaf.Program.SetHarvestOtherDest.{SetHarvestOtherDestParams}

-- The state between two transactions: solvent, with the two accounts of the store apart.
pub record Safe (rt : Runtime) (w : World rt) : Type 0 where
  pub solvent : Solvent rt w
  pub apart : w.store.escrow_ata ≢ w.store.harvest_ata

-- A transaction after which the store is the same and the escrow account holds no less.
pub same_store :
    (rt : Runtime) (w w' : World rt)
    → w'.store ≡ w.store
    → amount rt w.tokens w.store.escrow_ata ≤ amount rt w'.tokens w.store.escrow_ata
    → Safe rt w
    → Safe rt w'
same_store rt w w' same more s =
    let held = ap (λ (x : Store). amount rt w'.tokens x.escrow_ata) same in
    let booked = ap (λ (x : Store). x.escrow_atoms) same in
    record {
      solvent = record {
        valid = subst (λ x. IsValid (lockbox x)) (sym same) s.solvent.valid;
        funded = omega (arith, s.solvent.funded, held, booked, more);
      };
      apart = subst (λ (x : Store). x.escrow_ata ≢ x.harvest_ata) (sym same) s.apart;
    }

-- The two accounts are still apart.
pub still_apart :
    (before after : Store)
    → after.escrow_ata ≡ before.escrow_ata
    → after.harvest_ata ≡ before.harvest_ata
    → before.escrow_ata ≢ before.harvest_ata
    → after.escrow_ata ≢ after.harvest_ata
still_apart before after e h apart = λ same. apart (sym e ∙ same ∙ h)

-- A movement of tokens out of another account leaves the escrow account with no less.
pub not_less :
    (rt : Runtime) (t : rt.Tokens) (from to : Pubkey) (n : ℕ) (t' : rt.Tokens) (k : Pubkey)
    → from ≢ k
    → Moved rt t from to n t'
    → amount rt t k ≤ amount rt t' k
not_less rt t from to n t' k ne moved = elim (moved.others k) [
  | inl same ↦ absurd (ne (sym same))
  | inr (inl same) ↦ omega (arith, moved.got, ap (amount rt t) same, ap (amount rt t') same)
  | inr (inr same) ↦ omega (arith, same)
]

pub halt-Safe :
    (rt : Runtime) (admin : Pubkey) (w w' : World rt)
    → Halt.handle rt admin w ≡ done w'
    → Safe rt w
    → Safe rt w'
unfolding Halt.handle run_box outcome Lockbox.halt apply_lockbox lockbox
halt-Safe rt admin w w' h s =
    let (_, h1) = require-eq-done (eq_bytes admin w.store.admin) unauthorized _ h in
    rw (← done-injective h1) (record {
      solvent = record {
        valid = halt-IsValid (lockbox w.store) s.solvent.valid;
        funded = s.solvent.funded;
      };
      apart = s.apart;
    })

pub peer_set-Safe :
    (rt : Runtime) (w w' : World rt) {before after : PeerConfig}
    → Configured w.store w'.store before after
    → w'.tokens ≡ w.tokens
    → Safe rt w
    → Safe rt w'
unfolding lockbox
peer_set-Safe rt w w' (address_set address evm free same written) kept s =
    let e = ap (λ (x : Store). x.escrow_ata) same in
    let held = ap₂ (amount rt) kept e in
    let booked = ap (λ (x : Store). x.escrow_atoms) same in
    record {
      solvent = record {
        valid = subst (λ x. IsValid (lockbox x)) (sym same) s.solvent.valid;
        funded = omega (arith, s.solvent.funded, held, booked);
      };
      apart = still_apart w.store w'.store e (ap (λ (x : Store). x.harvest_ata) same) s.apart;
    }
peer_set-Safe rt w w' (options_set same address_kept) kept s =
    let held = ap (λ t. amount rt t w.store.escrow_ata) kept in
    same_store rt w w' same (omega (arith, held)) s

pub dest_set-Safe :
    (rt : Runtime) (admin : Pubkey) (bump : ℕ) (params : SetHarvestOtherDestParams)
    (w w' : World rt)
    → SetHarvestOtherDest.handle rt admin bump params w ≡ done w'
    → Safe rt w
    → Safe rt w'
unfolding SetHarvestOtherDest.handle
dest_set-Safe rt admin bump params w w' h s =
    let (_, h1) = require-eq-done (eq_bytes admin w.store.admin) unauthorized _ h in
    let (_, h2) =
      require-eq-done (not (eq_bytes params.mint jito_mint_pubkey)) harvest_inner _ h1 in
    let result = done-injective h2 in
    same_store rt w w' (sym (ap (λ (x : World rt). x.store) result))
      (omega (arith, ap (λ (x : World rt). amount rt x.tokens w.store.escrow_ata) result)) s
