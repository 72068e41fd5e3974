-- ===== src/Program/World/Payments.antt =====
-- Transfers that the token program carries out.
use hyper_leaf.Common.{ℕ, ◌≤◌, ◌<◌, ◌≡◌, inl, inr, refl, arith, some, true, ltb, Bool-cases}
use hyper_leaf.Outcome.{u64_size}
use hyper_leaf.Program.State.{Pubkey}
use hyper_leaf.Program.Runtime.{Runtime}
use hyper_leaf.Program.Errors.{done}
use hyper_leaf.Program.World.{transfer_u64, transfer_fee}
use hyper_leaf.Program.World.Moves.{amount}

-- Which transfers the token program carries out: those of an amount that the account holds, between
-- accounts that it finds in order for the signer (of one mint, neither frozen, the first the
-- signer's, with room in the second), and it leaves such accounts in order.
pub record Payments (rt : Runtime) : Type 1 where
  pub InOrder : rt.Tokens → Pubkey → Pubkey → Pubkey → Type 0
  pub pays :
      (t : rt.Tokens) (from to signer : Pubkey) (n : ℕ)
      → InOrder t from to signer
      → n ≤ amount rt t from
      → (t' : rt.Tokens) × (rt.transfer t from to signer n ≡ some t')
  pub stays :
      (t : rt.Tokens) (from to signer other to' signer' : Pubkey) (n : ℕ) (t' : rt.Tokens)
      → InOrder t other to' signer'
      → rt.transfer t from to signer n ≡ some t'
      → InOrder t' other to' signer'

pub charge_succeeds :
    (rt : Runtime) (p : Payments rt) (t : rt.Tokens) (escrow harvest recipient : Pubkey) (fee : ℕ)
    → p.InOrder t escrow harvest rt.store_key
    → p.InOrder t escrow recipient rt.store_key
    → fee ≤ amount rt t escrow
    → fee < u64_size
    → (t' : rt.Tokens) × (transfer_fee rt t escrow harvest fee ≡ done t')
      × p.InOrder t' escrow recipient rt.store_key
unfolding transfer_fee transfer_u64
charge_succeeds rt p t escrow harvest recipient fee first second enough small =
    let (t', moved) = p.pays t escrow harvest rt.store_key fee first enough in
    let fits : ltb fee u64_size ≡ true = ground arith in
    elim (Bool-cases (ltb 0 fee)) [
      | inl due ↦ (
        t',
        rw (due, fits, moved) refl,
        p.stays t escrow harvest rt.store_key escrow recipient rt.store_key fee t' second moved,
      )
      | inr none_due ↦ (t, rw none_due refl, second)
    ]

pub pay_succeeds :
    (rt : Runtime) (p : Payments rt) (t : rt.Tokens) (from to signer : Pubkey) (n : ℕ)
    → p.InOrder t from to signer
    → n ≤ amount rt t from
    → n < u64_size
    → (t' : rt.Tokens) × (transfer_u64 rt t from to signer n ≡ done t')
      × ((other to' signer' : Pubkey)
          → p.InOrder t other to' signer'
          → p.InOrder t' other to' signer')
unfolding transfer_u64
pay_succeeds rt p t from to signer n order enough small =
    let (t', moved) = p.pays t from to signer n order enough in
    let fits : ltb n u64_size ≡ true = ground arith in
    (
      t',
      rw (fits, moved) refl,
      λ other to' signer' o. p.stays t from to signer other to' signer' n t' o moved,
    )
