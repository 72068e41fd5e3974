-- ===== src/Program/Entry/Kept.antt =====
-- What no instruction changes in the store, and what it changes in one direction only.
use hyper_leaf.Common.{◌≡◌, ◌⊎◌, inl, inr, refl, sym, ◌∙◌, arith, true, false}
use hyper_leaf.Bytes.{Bytes, zeros}
use hyper_leaf.Lockbox.{Lockbox}
use hyper_leaf.Program.State.{Store, apply_lockbox}

-- The configuration is fixed, a peer that is set is frozen, and a halt is for good.
pub record Kept (s s' : Store) : Type 0 where
  pub admin : s'.admin ≡ s.admin
  pub bump : s'.bump ≡ s.bump
  pub endpoint_program : s'.endpoint_program ≡ s.endpoint_program
  pub dest_eid : s'.dest_eid ≡ s.dest_eid
  pub listing_tag : s'.listing_tag ≡ s.listing_tag
  pub cap : s'.deposit_cap_atoms ≡ s.deposit_cap_atoms
  pub escrow_ata : s'.escrow_ata ≡ s.escrow_ata
  pub harvest_ata : s'.harvest_ata ≡ s.harvest_ata
  pub peer : (s.dest_peer ≡ zeros 32) ⊎ (s'.dest_peer ≡ s.dest_peer)
  pub halted : (s.halted ≡ false) ⊎ (s'.halted ≡ true)

halt_state : (s : Store) → (s.halted ≡ false) ⊎ (s.halted ≡ true)
halt_state s = ground arith

pub Kept-refl : (s : Store) → Kept s s
Kept-refl s = record {
  admin = refl;
  bump = refl;
  endpoint_program = refl;
  dest_eid = refl;
  listing_tag = refl;
  cap = refl;
  escrow_ata = refl;
  harvest_ata = refl;
  peer = inr refl;
  halted = halt_state s;
}

pub Kept-trans : (s m s' : Store) → Kept s m → Kept m s' → Kept s s'
Kept-trans s m s' k k' = record {
  admin = k'.admin ∙ k.admin;
  bump = k'.bump ∙ k.bump;
  endpoint_program = k'.endpoint_program ∙ k.endpoint_program;
  dest_eid = k'.dest_eid ∙ k.dest_eid;
  listing_tag = k'.listing_tag ∙ k.listing_tag;
  cap = k'.cap ∙ k.cap;
  escrow_ata = k'.escrow_ata ∙ k.escrow_ata;
  harvest_ata = k'.harvest_ata ∙ k.harvest_ata;
  peer = elim k.peer [
    | inl unset ↦ inl unset
    | inr same ↦ elim k'.peer [
      | inl unset ↦ inl (sym same ∙ unset)
      | inr same' ↦ inr (same' ∙ same)
    ]
  ];
  halted = elim k.halted [
    | inl running ↦ inl running
    | inr stopped ↦ elim k'.halted [ inl running ↦ cc | inr stopped' ↦ inr stopped' ]
  ];
}

-- A lockbox that is written back keeps what it kept of the cap and the halt.
pub apply_lockbox-Kept :
    (b : Lockbox) (s : Store)
    → b.deposit_cap_atoms ≡ s.deposit_cap_atoms
    → (s.halted ≡ false) ⊎ (b.halted ≡ true)
    → Kept s (apply_lockbox b s)
unfolding apply_lockbox
apply_lockbox-Kept b s cap halted = record {
  admin = refl;
  bump = refl;
  endpoint_program = refl;
  dest_eid = refl;
  listing_tag = refl;
  cap = cap;
  escrow_ata = refl;
  harvest_ata = refl;
  peer = inr refl;
  halted = halted;
}

-- A peer that is set where there was none, or the same one again.
pub set_peer-Kept :
    (s : Store) (address : Bytes)
    → (s.dest_peer ≡ zeros 32) ⊎ (s.dest_peer ≡ address)
    → Kept s (record s { dest_peer = address })
set_peer-Kept s address free = record {
  admin = refl;
  bump = refl;
  endpoint_program = refl;
  dest_eid = refl;
  listing_tag = refl;
  cap = refl;
  escrow_ata = refl;
  harvest_ata = refl;
  peer = elim free [ inl unset ↦ inl unset | inr frozen ↦ inr (sym frozen) ];
  halted = halt_state s;
}
