-- ===== src/Ix/Payload.antt =====
-- `lock_payload` of solana/leaf-jito-rate/src/ix.rs: a deposit and its 96-byte message.
use hyper_leaf.Common.{
  ℕ, ◌≡◌, ◌∙◌, ap, ap₂, ◌<◌, subst, arith, Bool, not, ◌||◌, some, take, drop, length,
}
use hyper_leaf.Bytes.{Bytes, zeros, eq_bytes}
use hyper_leaf.Outcome
use hyper_leaf.Outcome.{u128_size, Result, ok, bad_peer}
use hyper_leaf.Bridge.{encode_bridge, decode_bridge}
use hyper_leaf.Bridge.RoundTrip.{decode_bridge-encode_bridge}
use hyper_leaf.Lockbox.{Lockbox, Action, require, pure, ◌>>=◌, ◌>>◌, lock, >>=-eq-ok, require-eq-ok}
use hyper_leaf.Lockbox.Lock.{lock-Locked}
use hyper_leaf.Ix.{require_evm_peer}

-- The message and the shares minted.
unfoldable pub lock_payload : Bytes → Bytes → ℕ → ℕ → ℕ → Action (Bytes × ℕ)
lock_payload tag evm_to atoms total_lamports pool_token_supply = do
  require (not (not (eq_bytes (take 12 evm_to) (zeros 12)) || eq_bytes (drop 12 evm_to) (zeros 20)))
      bad_peer
  (shares, _fee) ← lock atoms total_lamports pool_token_supply
  pure (encode_bridge tag evm_to shares, shares)

-- A payload that is produced deposits: it is for an EVM recipient, and the lockbox ends as `lock`
-- leaves it, with the shares that `lock` mints and the message that says so.
pub lock_payload-lock :
    (tag evm_to : Bytes) (atoms l s : ℕ) (b : Lockbox) (message : Bytes) (shares : ℕ) (b' : Lockbox)
    → lock_payload tag evm_to atoms l s b ≡ (ok (message, shares), b')
    → (fee : ℕ) × (lock atoms l s b ≡ (ok (shares, fee), b'))
      × (require_evm_peer evm_to ≡ ok tt)
      × (encode_bridge tag evm_to shares ≡ message)
unfolding lock_payload require_evm_peer
lock_payload-lock tag evm_to atoms l s b message shares b' h =
    let padded = eq_bytes (take 12 evm_to) (zeros 12) in
    let empty = eq_bytes (drop 12 evm_to) (zeros 20) in
    let send : ℕ × ℕ → Action (Bytes × ℕ) = λ p. pure (encode_bridge tag evm_to p.0, p.0) in
    let (passed, h₁) =
      require-eq-ok (not (not padded || empty)) bad_peer (lock atoms l s >>= send) b h in
    let ((minted, fee), m, locked, h₂) = >>=-eq-ok (lock atoms l s) send b h₁ in
    let same_state : m ≡ b' = ap (λ (x : Result (Bytes × ℕ) × Lockbox). x.1) h₂ in
    let same = Outcome.ok-injective (ap (λ (x : Result (Bytes × ℕ) × Lockbox). x.0) h₂) in
    let is_message : encode_bridge tag evm_to minted ≡ message = ap (λ (p : Bytes × ℕ). p.0) same in
    let is_shares : minted ≡ shares = ap (λ (p : Bytes × ℕ). p.1) same in
    (
      fee,
      locked ∙ ap₂ (λ (n : ℕ) (x : Lockbox). (ok (n, fee), x)) is_shares same_state,
      ap (λ (t : Bool). Outcome.require t bad_peer) passed,
      subst (λ n. encode_bridge tag evm_to n ≡ message) is_shares is_message,
    )

-- A deposit to an EVM recipient is a payload.
pub lock_payload_of_lock :
    (tag evm_to : Bytes) (atoms l s : ℕ) (b : Lockbox) (shares fee : ℕ) (b' : Lockbox)
    → require_evm_peer evm_to ≡ ok tt
    → lock atoms l s b ≡ (ok (shares, fee), b')
    → lock_payload tag evm_to atoms l s b ≡ (ok (encode_bridge tag evm_to shares, shares), b')
unfolding lock_payload require_evm_peer
lock_payload_of_lock tag evm_to atoms l s b shares fee b' evm locked = ground (arith, evm, locked)

-- A payload that is produced, for a tag and a recipient of 32 bytes, deposits: the lockbox ends
-- as `lock` leaves it, with the shares that `lock` mints; the recipient is an EVM address,
-- left-padded; and the message decodes to the tag, the recipient and those shares.
pub lock_payload_sound :
    (tag evm_to : Bytes) (atoms l s : ℕ) (b : Lockbox) (message : Bytes) (shares : ℕ) (b' : Lockbox)
    → length tag ≡ 32
    → length evm_to ≡ 32
    → lock_payload tag evm_to atoms l s b ≡ (ok (message, shares), b')
    → (fee : ℕ) × (lock atoms l s b ≡ (ok (shares, fee), b'))
      × (require_evm_peer evm_to ≡ ok tt)
      × (decode_bridge message ≡ some (tag, evm_to, shares))
lock_payload_sound tag evm_to atoms l s b message shares b' lt lo h =
    let (fee, locked, evm, is_message) =
      lock_payload-lock tag evm_to atoms l s b message shares b' h in
    let k = lock-Locked atoms l s b shares fee b' locked in
    let small : shares < u128_size = omega (arith, k.minted.fits, k.minted.total) in
    (
      fee,
      locked,
      evm,
      subst (λ m. decode_bridge m ≡ some (tag, evm_to, shares)) is_message
          (decode_bridge-encode_bridge tag evm_to shares lt lo small),
    )
