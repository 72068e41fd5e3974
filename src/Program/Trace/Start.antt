-- ===== src/Program/Trace/Start.antt =====
-- From the creation of the store on: `init_store` makes a safe state.
use hyper_leaf.Common.{ℕ, ◌≡◌, ◌≢◌, inl, refl, sym, ap, subst, ◌∙◌, arith, String}
use hyper_leaf.Bytes.{Bytes}
use hyper_leaf.Outcome.{ok}
use hyper_leaf.Lockbox
use hyper_leaf.Lockbox.{Lockbox}
use hyper_leaf.Lockbox.Invariant.{IsValid}
use hyper_leaf.Program.State.{Pubkey, LzReceiveTypesAccounts, lockbox}
use hyper_leaf.Program.Runtime.{Runtime, AccountInfo}
use hyper_leaf.Program.Pool.{jito_mint_pubkey}
use hyper_leaf.Program.Errors.{done}
use hyper_leaf.Program.World.{World}
use hyper_leaf.Program.InitStore
use hyper_leaf.Program.InitStore.{InitStore, InitStoreParams}
use hyper_leaf.Program.InitStore.Opened.{HeldBy, Opened, handle-Opened}
use hyper_leaf.Program.Trace.{Run, Run-Safe}
use hyper_leaf.Program.Safe.{Safe}

-- Data that reads as an account of two owners.
held_once : (bytes : Bytes) (a b : Pubkey) → HeldBy bytes a → HeldBy bytes b → a ≡ b
held_once bytes a b h k =
    let same : ok (jito_mint_pubkey, a, h.amount) ≡ ok (jito_mint_pubkey, b, k.amount) =
      sym h.parsed ∙ k.parsed in
    cc

new-IsValid : (cap : ℕ) → IsValid (Lockbox.new cap)
unfolding Lockbox.new
new-IsValid cap = record { cash = omega arith; shares = inl (refl, refl) }

new_empty : (cap : ℕ) → (Lockbox.new cap).escrow_atoms ≡ 0
unfolding Lockbox.new
new_empty cap = refl

-- A store as `init_store` leaves it, with the token accounts as the instruction read them.
Opened-Safe :
    (rt : Runtime) (accounts : InitStore) (params : InitStoreParams) (w : World rt)
    → accounts.payer ≢ rt.store_key
    → accounts.escrow_ata ≡ rt.info w.tokens accounts.escrow_ata.key
    → accounts.harvest_ata ≡ rt.info w.tokens accounts.harvest_ata.key
    → Opened rt accounts params w.store
    → Safe rt w
unfolding lockbox
Opened-Safe rt accounts params w other escrow_read harvest_read k =
    let empty : w.store.escrow_atoms ≡ 0 =
      ap (λ (b : Lockbox). b.escrow_atoms) k.box ∙ new_empty params.deposit_cap_atoms in
    record {
      solvent = record {
        valid = subst IsValid (sym k.box) (new-IsValid params.deposit_cap_atoms);
        funded = omega (arith, empty);
      };
      apart = λ same.
          let one : accounts.escrow_ata.key ≡ accounts.harvest_ata.key =
            sym k.escrow_ata ∙ same ∙ k.harvest_ata in
          let info : accounts.escrow_ata ≡ accounts.harvest_ata =
            escrow_read ∙ ap (rt.info w.tokens) one ∙ sym harvest_read in
          let held = subst (λ (a : AccountInfo). HeldBy a.bytes rt.store_key) info k.escrow_owner in
          other (
            sym k.admin
            ∙ sym (
                held_once accounts.harvest_ata.bytes rt.store_key w.store.admin held
                  k.harvest_owner));
    }

-- From its creation on the program stays safe: after `init_store` and any history of the
-- instructions on the store and of transactions of others, as in `Run-Safe`, the lockbox is in
-- its invariant, the escrow account holds at least what the books say, and the escrow and harvest
-- accounts differ. It is assumed that the payer is not the store, that `init_store` read the two
-- accounts as the token program holds them, and that the JitoSOL mint prints as its address.
pub Run-Safe_from_init :
    (rt : Runtime) (to_string : Pubkey → String) (accounts : InitStore) (params : InitStoreParams)
    (endpoint : rt.Endpoint) (types : LzReceiveTypesAccounts) (w w' : World rt)
    → to_string jito_mint_pubkey ≡ Lockbox.jito_mint
    → accounts.payer ≢ rt.store_key
    → accounts.escrow_ata ≡ rt.info w.tokens accounts.escrow_ata.key
    → accounts.harvest_ata ≡ rt.info w.tokens accounts.harvest_ata.key
    → InitStore.handle rt accounts params endpoint ≡ done (w.store, types, w.endpoint)
    → Run rt to_string w w'
    → Safe rt w'
Run-Safe_from_init rt to_string accounts params endpoint types w w' text other escrow_read
      harvest_read opened run =
    Run-Safe rt to_string w w' text run (
      Opened-Safe rt accounts params w other escrow_read harvest_read
        (handle-Opened rt accounts params endpoint w.store types w.endpoint opened))
