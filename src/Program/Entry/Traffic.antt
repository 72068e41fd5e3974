-- ===== src/Program/Entry/Traffic.antt =====
-- The messages over the bridge against the shares in the books.
use hyper_leaf.Common.{
  ℕ, ◌+◌, ◌<◌, ◌≡◌, refl, ap, ◌∙◌, subst, arith, some, All, String, List, [], ◌∷◌,
}
use hyper_leaf.Bytes.{Bytes}
use hyper_leaf.Outcome.{ok, u128_size}
use hyper_leaf.Rate.{listing_tag}
use hyper_leaf.Bridge.{decode_bridge}
use hyper_leaf.Bridge.RoundTrip.{decode_bridge-encode_bridge}
use hyper_leaf.Lockbox as Box
use hyper_leaf.Lockbox.{Lockbox}
use hyper_leaf.Lockbox.Harvest.{harvest_rate-Settled}
use hyper_leaf.Lockbox.Lock.{lock-Locked}
use hyper_leaf.Lockbox.Unlock.{unlock-Unlocked}
use hyper_leaf.Program.State.{Pubkey, Store, lockbox, apply_lockbox}
use hyper_leaf.Program.Runtime.{Runtime, SendParams, ClearParams}
use hyper_leaf.Program.World.{World}
use hyper_leaf.Program.World.Solvent.{lockbox-apply_lockbox}
use hyper_leaf.Program.Entry.{Instruction, execute, committed, transact}
use hyper_leaf.Program.Entry.Effect.{
  Effect, IsTyped, locked, received, harvested, stopped, configured,
}
use hyper_leaf.Program.Entry.Effect.Executed.{transaction_cases}

-- What has gone through the endpoint: the shares in the messages that it took, and those in the
-- messages that it cleared.
pub data Traffic (rt : Runtime) : rt.Endpoint → ℕ → ℕ → rt.Endpoint → Type 0 where
  silence : {e e' : rt.Endpoint} → e' ≡ e → Traffic rt e 0 0 e'
  sent :
      {e m e' : rt.Endpoint} {out back out' : ℕ} (sending : SendParams) (to : Bytes) (shares : ℕ)
      → rt.send e sending ≡ some m
      → decode_bridge sending.message ≡ some (listing_tag, to, shares)
      → Traffic rt m out back e'
      → out' ≡ shares + out
      → Traffic rt e out' back e'
  cleared :
      {e m e' : rt.Endpoint} {out back back' : ℕ} (clearing : ClearParams) (tag to : Bytes)
      (shares : ℕ)
      → rt.clear e clearing ≡ some m
      → decode_bridge clearing.message ≡ some (tag, to, shares)
      → Traffic rt m out back e'
      → back' ≡ shares + back
      → Traffic rt e out back' e'

-- The total of the shares in the store.
total_after :
    (s s' : Store) (box : Lockbox) → s' ≡ apply_lockbox box s → s'.total_shares ≡ box.total_shares
unfolding lockbox
total_after s s' box after =
    ap (λ (b : Lockbox). b.total_shares) (ap lockbox after ∙ lockbox-apply_lockbox box s)

halt_total : (b b' : Lockbox) → Box.halt b ≡ (ok tt, b') → b'.total_shares ≡ b.total_shares
unfolding Box.halt
halt_total b b' h = ground arith

-- Some traffic, which balances the books.
record Balanced (rt : Runtime) (w w' : World rt) : Type 0 where
  out : ℕ
  back : ℕ
  traffic : Traffic rt w.endpoint out back w'.endpoint
  books : w'.store.total_shares + back ≡ w.store.total_shares + out

-- Nothing sent or cleared, and then the rest.
same_before :
    (rt : Runtime) (w m w' : World rt)
    → m.endpoint ≡ w.endpoint
    → m.store.total_shares ≡ w.store.total_shares
    → Balanced rt m w'
    → Balanced rt w w'
same_before rt w m w' quiet same k = record {
  out = k.out;
  back = k.back;
  traffic = subst (λ e. Traffic rt e k.out k.back w'.endpoint) quiet k.traffic;
  books = omega (arith, k.books, same);
}

-- One effect before the rest.
before :
    (rt : Runtime) (ix : Instruction) (w m w' : World rt)
    → IsTyped ix
    → Effect rt ix w m
    → Balanced rt m w'
    → Balanced rt w w'
unfolding lockbox
before rt ix w m w' typed (locked atoms l s shares fee box to sending ran after send says wide _ _)
      k =
    let b = lock-Locked atoms l s (lockbox w.store) shares fee box ran in
    let small : shares < u128_size = omega (arith, b.minted.fits, b.minted.total) in
    let decoded : decode_bridge sending.message ≡ some (listing_tag, to, shares) =
      ap decode_bridge says
      ∙ decode_bridge-encode_bridge listing_tag to shares refl (wide typed) small in
    record {
      out = shares + k.out;
      back = k.back;
      traffic = sent sending to shares send decoded k.traffic refl;
      books =
          omega (
            arith,
            k.books,
            total_after w.store m.store box after,
            b.minted.total,
            b.settled.shares,
          );
    }
before rt ix w m w' typed
      (received shares l s atoms fee box tag to clearing ran after clear says _ _) k =
    let b = unlock-Unlocked shares l s (lockbox w.store) atoms fee box ran in
    record {
      out = k.out;
      back = shares + k.back;
      traffic = cleared clearing tag to shares clear says k.traffic refl;
      books = omega (
        arith,
        k.books,
        total_after w.store m.store box after,
        b.redeemed.total,
        b.settled.shares,
      );
    }
before rt ix w m w' typed (harvested l s fee box ran after quiet _ _) k =
    let b = harvest_rate-Settled l s (lockbox w.store) fee box ran in
    same_before rt w m w' quiet (total_after w.store m.store box after ∙ b.shares) k
before rt ix w m w' typed (stopped box ran after quiet _ _) k =
    same_before rt w m w' quiet
      (total_after w.store m.store box after ∙ halt_total (lockbox w.store) box ran) k
before rt ix w m w' typed (configured same _ quiet _) k =
    same_before rt w m w' quiet (ap (λ (b : Lockbox). b.total_shares) same) k

transact-Balanced :
    (rt : Runtime) (to_string : Pubkey → String) (instructions : List Instruction) (w : World rt)
    → All IsTyped instructions
    → Balanced rt w (transact rt to_string instructions w)
unfolding transact
transact-Balanced rt to_string [] w typed = record {
  out = 0;
  back = 0;
  traffic = silence refl;
  books = refl;
}
transact-Balanced rt to_string (ix ∷ rest) w (typed, more) =
    let m = committed w (execute rt to_string ix w) in
    let end = transact rt to_string rest m in
    let first =
      transaction_cases rt to_string ix w (λ x. Balanced rt x end → Balanced rt w end) (λ k. k)
        (λ x effect. before rt ix w x end typed effect) in
    first (transact-Balanced rt to_string rest m more)

-- The books agree with the bridge: over any transactions on an existing store, whose EVM
-- recipients have 32 bytes, the endpoint has taken messages that decode to the listing tag and
-- some shares, and cleared messages that decode to some shares, and the total at the end plus the
-- shares that came back is the total at the start plus the shares that went out.
pub transact-Traffic :
    (rt : Runtime) (to_string : Pubkey → String) (instructions : List Instruction) (w : World rt)
    → All IsTyped instructions
    → (out : ℕ) × (back : ℕ) × Traffic rt w.endpoint out back
        (transact rt to_string instructions w).endpoint
      × ((transact rt to_string instructions w).store.total_shares + back
          ≡ w.store.total_shares + out)
transact-Traffic rt to_string instructions w typed =
    let k = transact-Balanced rt to_string instructions w typed in
    (k.out, k.back, k.traffic, k.books)
