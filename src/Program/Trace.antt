-- ===== src/Program/Trace.antt =====
-- Histories of the program: its instructions as steps of a relation, between transactions of
-- other programs, which cannot take tokens out of the escrow account.
pub mod Start
use hyper_leaf.Common.{
  ℕ, ◌≤◌, ◌≡◌, ◌≢◌, inl, inr, sym, ap, ap₂, subst, ◌∙◌, arith, String, length, not,
}
use hyper_leaf.Bytes.{eq_bytes}
use hyper_leaf.Lockbox
use hyper_leaf.Lockbox.Invariant.{IsValid, halt-IsValid}
use hyper_leaf.Program.State.{Pubkey, Store, PeerConfig, lockbox, apply_lockbox}
use hyper_leaf.Program.Runtime.{Runtime}
use hyper_leaf.Program.Pool.{jito_mint_pubkey}
use hyper_leaf.Program.Errors.{done, unauthorized, harvest_inner, require-eq-done, done-injective}
use hyper_leaf.Program.World.{World, run_box, outcome}
use hyper_leaf.Program.World.Moves.{amount, Moved}
use hyper_leaf.Program.World.Solvent.{Solvent}
use hyper_leaf.Program.HarvestRate
use hyper_leaf.Program.HarvestRate.{HarvestRate}
use hyper_leaf.Program.HarvestRate.Solvent.{handle-Harvested, handle-Solvent}
use hyper_leaf.Program.Lock
use hyper_leaf.Program.Lock.{Lock, LockParams}
use hyper_leaf.Program.Lock.Bridged.{handle-Bridged, handle_lock-Solvent}
use hyper_leaf.Program.LzReceive
use hyper_leaf.Program.LzReceive.{LzReceive, LzReceiveParams}
use hyper_leaf.Program.LzReceive.Received.{handle-Delivered, handle_lz_receive-Solvent}
use hyper_leaf.Program.Halt
use hyper_leaf.Program.SetPeerConfig
use hyper_leaf.Program.SetPeerConfig.{PeerConfigParam}
use hyper_leaf.Program.SetPeerConfig.Frozen.{Configured, address_set, options_set, handle-SetPeer}
use hyper_leaf.Program.SetHarvestOtherDest
use hyper_leaf.Program.SetHarvestOtherDest.{SetHarvestOtherDestParams}
use hyper_leaf.Program.HarvestOther
use hyper_leaf.Program.HarvestOther.{HarvestOther}
use hyper_leaf.Program.HarvestOther.Split.{handle-SideHarvested}
use hyper_leaf.Program.Safe.{
  Safe, same_store, still_apart, not_less, halt-Safe, peer_set-Safe, dest_set-Safe,
}

-- One transaction. The accounts that a user names are not the escrow account: it is the store's,
-- so that no user signs for it.
pub data Step (rt : Runtime) (to_string : Pubkey → String) (w w' : World rt) : Type 0 where
  locked :
      (accounts : Lock) (params : LockParams)
      → length params.evm_to ≡ 32
      → accounts.user_ata ≢ w.store.escrow_ata
      → Lock.handle rt accounts params w ≡ done w'
      → Step rt to_string w w'
  received :
      (accounts : LzReceive) (params : LzReceiveParams)
      → accounts.recipient_ata ≢ w.store.escrow_ata
      → LzReceive.handle rt accounts params w ≡ done w'
      → Step rt to_string w w'
  harvested :
      (accounts : HarvestRate) → HarvestRate.handle rt accounts w ≡ done w' → Step rt to_string w w'
  side_harvested :
      (accounts : HarvestOther) (mint : Pubkey)
      → accounts.side_ata ≢ accounts.fee_ata
      → accounts.side_ata ≢ accounts.rest_ata
      → accounts.side_ata ≢ w.store.escrow_ata
      → HarvestOther.handle rt to_string accounts mint w ≡ done w'
      → Step rt to_string w w'
  halted : (admin : Pubkey) → Halt.handle rt admin w ≡ done w' → Step rt to_string w w'
  peer_set :
      (admin : Pubkey) (bump eid : ℕ) (config : PeerConfigParam)
      → SetPeerConfig.handle rt admin bump eid config w ≡ done w'
      → Step rt to_string w w'
  dest_set :
      (admin : Pubkey) (bump : ℕ) (params : SetHarvestOtherDestParams)
      → SetHarvestOtherDest.handle rt admin bump params w ≡ done w'
      → Step rt to_string w w'
  elsewhere :
      w'.store ≡ w.store
      → amount rt w.tokens w.store.escrow_ata ≤ amount rt w'.tokens w.store.escrow_ata
      → Step rt to_string w w'

pub data Run (rt : Runtime) (to_string : Pubkey → String) (w : World rt) : World rt → Type 0 where
  here : Run rt to_string w w
  next : {m w' : World rt} → Run rt to_string w m → Step rt to_string m w' → Run rt to_string w w'

Step-Safe :
    (rt : Runtime) (to_string : Pubkey → String) (w w' : World rt)
    → to_string jito_mint_pubkey ≡ Lockbox.jito_mint
    → Step rt to_string w w'
    → Safe rt w
    → Safe rt w'
Step-Safe rt to_string w w' text (locked accounts params wide own h) s =
    let k = handle-Bridged rt accounts params w w' wide own s.apart h in
    record {
      solvent = handle_lock-Solvent rt accounts params w w' wide own s.apart s.solvent h;
      apart =
          still_apart w.store w'.store
            (ap (λ (x : Store). x.escrow_ata) k.dispatched.store_kept ∙ k.deposited.escrow_kept)
            (ap (λ (x : Store). x.harvest_ata) k.dispatched.store_kept ∙ k.deposited.harvest_kept)
            s.apart;
    }
Step-Safe rt to_string w w' text (received accounts params own h) s =
    let k = handle-Delivered rt accounts params w w' own s.apart h in
    record {
      solvent = handle_lz_receive-Solvent rt accounts params w w' own s.apart s.solvent h;
      apart =
          still_apart w.store w'.store
            (k.paid_out.escrow_kept ∙ ap (λ (x : Store). x.escrow_ata) k.accepted.store_kept)
            (k.paid_out.harvest_kept ∙ ap (λ (x : Store). x.harvest_ata) k.accepted.store_kept)
            s.apart;
    }
Step-Safe rt to_string w w' text (harvested accounts h) s =
    let k = handle-Harvested rt accounts w w' s.apart h in
    record {
      solvent = handle-Solvent rt accounts w w' s.apart s.solvent h;
      apart = still_apart w.store w'.store k.escrow_kept k.harvest_kept s.apart;
    }
Step-Safe rt to_string w w' text (side_harvested accounts mint ne₁ ne₂ own h) s =
    let k = handle-SideHarvested rt to_string accounts mint w w' text ne₁ ne₂ h in
    let escrow = w.store.escrow_ata in
    same_store rt w w' k.store_kept
      (omega (
        arith,
        not_less rt w.tokens accounts.side_ata accounts.fee_ata k.fee k.between escrow own
            k.fee_moved,
        not_less rt k.between accounts.side_ata accounts.rest_ata k.rest w'.tokens escrow own
            k.rest_moved,
      ))
      s
Step-Safe rt to_string w w' text (halted admin h) s = halt-Safe rt admin w w' h s
Step-Safe rt to_string w w' text (peer_set admin bump eid config h) s =
    let k = handle-SetPeer rt admin bump eid config w w' h in
    peer_set-Safe rt w w' k.configured k.tokens_kept s
Step-Safe rt to_string w w' text (dest_set admin bump params h) s =
    dest_set-Safe rt admin bump params w w' h s
Step-Safe rt to_string w w' text (elsewhere same more) s = same_store rt w w' same more s

-- After any history from a safe state the state is safe: the lockbox is in its invariant, the
-- escrow account holds at least what the books of the store say, and the escrow and harvest
-- accounts differ. A history consists of locks, inbound messages, harvests of the rate and of
-- side tokens, the admin's instructions, and transactions of others that leave the store alone
-- and do not lower the escrow account; a user's, a recipient's and a side account are not the
-- escrow account, and a side account is not one of its two destinations. It is assumed that the
-- JitoSOL mint prints as its address.
pub Run-Safe :
    (rt : Runtime) (to_string : Pubkey → String) (w w' : World rt)
    → to_string jito_mint_pubkey ≡ Lockbox.jito_mint
    → Run rt to_string w w'
    → Safe rt w
    → Safe rt w'
Run-Safe rt to_string w w' text here s = s
Run-Safe rt to_string w w' text (next {m = m} r st) s =
    Step-Safe rt to_string m w' text st (Run-Safe rt to_string w m text r s)
