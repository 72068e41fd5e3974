-- ===== src/Program/World/Moves.antt =====
-- What the shared steps do to the token balances.
use hyper_leaf.Common.{
  ℕ, ◌+◌, ◌≡◌, ◌≢◌, ◌⊎◌, inl, inr, refl, arith, ap, Option, some, none, ltb, if-cases, Bool-cases,
}
use hyper_leaf.Bytes.{eq_bytes, eq_bytes→eq, eq_bytes-ne}
use hyper_leaf.Outcome
use hyper_leaf.Outcome.{Result, u64_size}
use hyper_leaf.Lockbox.{Lockbox, Action}
use hyper_leaf.Program.State.{Pubkey, Store, lockbox}
use hyper_leaf.Program.Runtime.{Runtime}
use hyper_leaf.Program.Errors.{done, math_overflow, require-eq-done, answered, done-injective}
use hyper_leaf.Program.World.{outcome, run_box, transfer_u64, transfer_fee}

pub answered-eq-done {ℓ} : {A : Type ℓ} (o : Option A) {a : A} → answered o ≡ done a → o ≡ some a
answered-eq-done (some b) h = ap some (done-injective h)
answered-eq-done none h = cc

outcome-eq-done :
    {A : Type 0} (x : Result A × Lockbox) {a : A} {b : Lockbox}
    → outcome x ≡ done (a, b)
    → x ≡ (Outcome.ok a, b)
unfolding outcome
outcome-eq-done (Outcome.ok a', b') k = cc
outcome-eq-done (Outcome.err e, b') k = cc
outcome-eq-done (Outcome.panic, b') k = cc

-- A lockbox method that an instruction went on from succeeded on the store's counters.
pub run_box-eq-done :
    {A : Type 0} (m : Action A) (s : Store) {a : A} {b : Lockbox}
    → run_box m s ≡ done (a, b)
    → m (lockbox s) ≡ (Outcome.ok a, b)
unfolding run_box
run_box-eq-done m s h = outcome-eq-done (m (lockbox s)) h

same_key : (k k' : Pubkey) → (k ≡ k') ⊎ (k ≢ k')
same_key k k' = elim (Bool-cases (eq_bytes k k')) [
  | inl e ↦ inl (eq_bytes→eq k k' e)
  | inr e ↦ inr ((eq_bytes-ne k k').0 e)
]

module _ (rt : Runtime) where
  abbrev pub amount : rt.Tokens → Pubkey → ℕ
  amount t k = (rt.token t k).amount

  -- `n` tokens have gone from one account to another.
  pub record Moved (t : rt.Tokens) (from to : Pubkey) (n : ℕ) (t' : rt.Tokens) : Type 0 where
    pub paid : amount t' from + n ≡ amount t from
    pub got : amount t' to ≡ amount t to + n
    pub others : (k : Pubkey) → (k ≡ from) ⊎ ((k ≡ to) ⊎ (amount t' k ≡ amount t k))

  pub transfer-Moved :
      (t : rt.Tokens) (from to authority : Pubkey) (n : ℕ) (t' : rt.Tokens)
      → from ≢ to
      → rt.transfer t from to authority n ≡ some t'
      → Moved t from to n t'
  transfer-Moved t from to authority n t' ne moved = record {
    paid = rt.transfer_from t from to authority n t' ne moved;
    got = rt.transfer_to t from to authority n t' ne moved;
    others = λ k. elim (same_key k from) [
      | inl f ↦ inl f
      | inr f ↦ elim (same_key k to) [
        | inl g ↦ inr (inl g)
        | inr g ↦ inr (inr (rt.transfer_other t from to authority n t' k f g moved))
      ]
    ];
  }

  pub Moved-none :
      (t : rt.Tokens) (from to : Pubkey) (n : ℕ) (t' : rt.Tokens)
      → n ≡ 0
      → t ≡ t'
      → Moved t from to n t'
  Moved-none t from to n t' no_fee same =
      rw (← same, no_fee)
        (record { paid = omega arith; got = omega arith; others = λ k. inr (inr refl) })

  pub transfer_u64-Moved :
      (t : rt.Tokens) (from to authority : Pubkey) (n : ℕ) (t' : rt.Tokens)
      → from ≢ to
      → transfer_u64 rt t from to authority n ≡ done t'
      → Moved t from to n t'
  unfolding transfer_u64
  transfer_u64-Moved t from to authority n t' ne h =
      let (_, k) =
        require-eq-done (ltb n u64_size) math_overflow
          (answered (rt.transfer t from to authority n)) h in
      transfer-Moved t from to authority n t' ne
        (answered-eq-done (rt.transfer t from to authority n) k)

  pub transfer_fee-Moved :
      (t : rt.Tokens) (escrow harvest : Pubkey) (n : ℕ) (t' : rt.Tokens)
      → escrow ≢ harvest
      → transfer_fee rt t escrow harvest n ≡ done t'
      → Moved t escrow harvest n t'
  unfolding transfer_fee
  transfer_fee-Moved t escrow harvest n t' ne h =
      elim (if-cases (ltb 0 n) (transfer_u64 rt t escrow harvest rt.store_key n) (done t) h) [
        | inl (_, k) ↦ transfer_u64-Moved t escrow harvest rt.store_key n t' ne k
        | inr (none_due, k) ↦ Moved-none t escrow harvest n t' (ground arith) (done-injective k)
      ]
