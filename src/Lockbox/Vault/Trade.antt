-- ===== src/Lockbox/Vault/Trade.antt =====
-- `mint` and `redeem` are the deposit and the redemption of the abstract vault, both ways.
use native.Mathlib.Nat.{mul-le-mul_left}
use hyper_leaf.Common.{
  ℕ, ◌+◌, ◌-◌, ◌*◌, ◌≤◌, ◌<◌, ◌≡◌, ◌⊎◌, inl, inr, arith, false, div-IsFloor, IsFloor-unique,
  mul-div-le_whole,
}
use hyper_leaf.Outcome.{ok, u128_size}
use hyper_leaf.Rate.{shares_from_atoms, atoms_from_shares}
use hyper_leaf.Lockbox.{Lockbox, mint, redeem}
use hyper_leaf.Lockbox.Lock.{Minted}
use hyper_leaf.Lockbox.Unlock.{Redeemed}
use hyper_leaf.Lockbox.Invariant.{IsValid}
use hyper_leaf.Lockbox.Vault.{Vault, Vault-ext, Deposit, Redemption}
use hyper_leaf.Lockbox.Vault.Calls.{view}

pub Minted-Deposit :
    (b : Lockbox) (atoms shares : ℕ) (b' : Lockbox)
    → Minted b atoms shares b'
    → b.halted ≡ false
    → 0 < atoms
    → Deposit (view b) atoms shares (view b')
Minted-Deposit b atoms shares b' m is_open some_atoms =
    let held : (b.total_shares ≡ 0) ⊎ (0 < b.last_accounted) = m.backed in
    record {
      is_open = is_open;
      some_atoms = some_atoms;
      some_shares = m.some_shares;
      price = elim m.price [
        | inl first ↦ inl first
        | inr (some_yet, part) ↦
            let backed : 0 < b.last_accounted = omega arith in
            inr (
              some_yet,
              backed,
              rw part (div-IsFloor (atoms * b.total_shares) b.last_accounted backed),
            )
      ];
      within = m.within;
      after = Vault-ext (view b') _ m.accounted m.total m.rate m.harvest m.cap m.halted;
    }

pub Redeemed-Redemption :
    (b : Lockbox) (shares atoms : ℕ) (b' : Lockbox)
    → Redeemed b shares atoms b'
    → Redemption (view b) shares atoms (view b')
Redeemed-Redemption b shares atoms b' r = record {
  some_shares = r.some_shares;
  owned = omega (arith, r.total);
  some_atoms = r.some_atoms;
  price = rw r.price (
      div-IsFloor (shares * b.last_accounted) b.total_shares
        (omega (arith, r.total, r.some_shares)));
  after =
      Vault-ext (view b') _ (omega (arith, r.accounted)) (omega (arith, r.total)) r.rate r.harvest
        r.cap r.halted;
}

-- The lockbox after a deposit, as the vault `v` has it.
abbrev pub deposited : Lockbox → ℕ → Vault → Lockbox
deposited b atoms v = record b {
  last_accounted = v.assets;
  total_shares = v.shares;
  escrow_atoms = b.escrow_atoms + atoms;
}

abbrev pub MintFits : ℕ → Lockbox → Type 0
MintFits atoms b =
    (b.escrow_atoms + atoms < u128_size)
    × (b.total_shares + atoms * (b.total_shares + 1_000_000_000) < u128_size)

-- A deposit mints at most this many shares.
shares-le :
    (b : Lockbox) (atoms shares : ℕ) (v' : Vault)
    → Deposit (view b) atoms shares v'
    → shares ≤ atoms * (b.total_shares + 1_000_000_000)
shares-le b atoms shares v' d = elim d.price [
  | inl (none_yet, scaled) ↦ rw (scaled, none_yet) (omega arith)
  | inr (some_yet, held, floor) ↦
      let least : shares * 1 ≤ shares * b.last_accounted = mul-le-mul_left shares held in
      omega (arith, least, floor.0)
]

pub mint_of_Deposit :
    (atoms : ℕ) (b : Lockbox) (shares : ℕ) (v' : Vault)
    → IsValid b
    → MintFits atoms b
    → Deposit (view b) atoms shares v'
    → mint atoms b ≡ (ok shares, deposited b atoms v')
unfolding mint shares_from_atoms
mint_of_Deposit atoms b shares v' v f d =
    let fits : b.total_shares + shares < u128_size =
      omega (arith, shares-le b atoms shares v' d, f.1) in
    elim d.price [
      | inl (none_yet, scaled) ↦ rw d.after (ground arith)
      | inr (some_yet, held, floor) ↦
          let part = IsFloor-unique shares (atoms * b.total_shares) b.last_accounted held floor in
          rw d.after (ground arith)
    ]

-- The lockbox after a redemption, as the vault `v` has it.
abbrev pub redeemed : Lockbox → ℕ → Vault → Lockbox
redeemed b atoms v = record b {
  last_accounted = v.assets;
  total_shares = v.shares;
  escrow_atoms = b.escrow_atoms - atoms;
}

pub redeem_of_Redemption :
    (shares : ℕ) (b : Lockbox) (atoms : ℕ) (v' : Vault)
    → IsValid b
    → shares * b.last_accounted < u128_size
    → Redemption (view b) shares atoms v'
    → redeem shares b ≡ (ok atoms, redeemed b atoms v')
unfolding redeem atoms_from_shares
redeem_of_Redemption shares b atoms v' v f d =
    let part =
      IsFloor-unique atoms (shares * b.last_accounted) b.total_shares
        (omega (arith, d.some_shares, d.owned)) d.price in
    let within =
      mul-div-le_whole shares b.last_accounted b.total_shares
        (omega (arith, d.some_shares, d.owned)) d.owned in
    rw d.after (ground arith)
