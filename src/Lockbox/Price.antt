-- ===== src/Lockbox/Price.antt =====
-- What a share is worth: `last_accounted / total_shares`, compared by cross multiplication.
use native.Mathlib.Nat.{div-mul-le_self, mul-le-mul_left}
use hyper_leaf.Common.{
  ℕ, ◌+◌, ◌*◌, ◌/◌, ◌≤◌, ◌<◌, ◌≡◌, inl, inr, arith, ◌∙◌, div-le_of, mul-div_whole,
}
use hyper_leaf.Outcome.{ok}
use hyper_leaf.Lockbox.{Lockbox, harvest_rate, lock, unlock}
use hyper_leaf.Lockbox.Lock.{Minted, lock-Locked}
use hyper_leaf.Lockbox.Unlock.{Redeemed, unlock-Unlocked}
use hyper_leaf.Lockbox.Invariant.{IsValid, Settled-IsValid}

-- A share is worth in `b'` at least what it is worth in `b`.
abbrev WorthAtLeast : Lockbox → Lockbox → Type 0
WorthAtLeast b b' = b.last_accounted * b'.total_shares ≤ b'.last_accounted * b.total_shares

grow_worth : (la t a n : ℕ) → n * la ≤ a * t → la * (t + n) ≤ (la + a) * t
grow_worth la t a n h = omega arith

shrink_worth : (la t a n : ℕ) → a * (t + n) ≤ n * (la + a) → (la + a) * t ≤ la * (t + n)
shrink_worth la t a n h = omega arith

-- The shares minted are at most in proportion to the atoms.
Minted-le :
    (b : Lockbox) (atoms shares : ℕ) (b' : Lockbox)
    → Minted b atoms shares b'
    → IsValid b
    → shares * b.last_accounted ≤ atoms * b.total_shares
Minted-le b atoms shares b' m v = elim m.price [
  | inl (none_yet, scaled) ↦
      let empty : b.last_accounted ≡ 0 = omega arith in rw empty (omega arith)
  | inr (some_yet, part) ↦ rw part (div-mul-le_self (atoms * b.total_shares) b.last_accounted)
]

-- The atoms paid are at most in proportion to the shares.
Redeemed-le :
    (b : Lockbox) (shares atoms : ℕ) (b' : Lockbox)
    → Redeemed b shares atoms b'
    → atoms * b.total_shares ≤ shares * b.last_accounted
Redeemed-le b shares atoms b' r =
    rw r.price (div-mul-le_self (shares * b.last_accounted) b.total_shares)

Minted-worth :
    (b : Lockbox) (atoms shares : ℕ) (b' : Lockbox)
    → Minted b atoms shares b'
    → IsValid b
    → WorthAtLeast b b'
Minted-worth b atoms shares b' m v =
    rw (m.accounted, m.total)
      (grow_worth b.last_accounted b.total_shares atoms shares (Minted-le b atoms shares b' m v))

Redeemed-worth :
    (b : Lockbox) (shares atoms : ℕ) (b' : Lockbox) → Redeemed b shares atoms b' → WorthAtLeast b b'
Redeemed-worth b shares atoms b' r =
    let paid : atoms * (b'.total_shares + shares) ≤ shares * (b'.last_accounted + atoms) =
      rw (r.total, r.accounted) (Redeemed-le b shares atoms b' r) in
    rw (← r.accounted, ← r.total) (shrink_worth b'.last_accounted b'.total_shares atoms shares paid)

-- A successful deposit into a valid lockbox does not dilute the holders: once the fee is settled,
-- a share is worth at least as much after the minting as before it.
lock_worth :
    (atoms l s : ℕ) (b : Lockbox) (shares fee : ℕ) (b' : Lockbox)
    → lock atoms l s b ≡ (ok (shares, fee), b')
    → IsValid b
    → WorthAtLeast (harvest_rate l s b).1 b'
lock_worth atoms l s b shares fee b' h v =
    let m : Lockbox = (harvest_rate l s b).1 in
    let k = lock-Locked atoms l s b shares fee b' h in
    Minted-worth m atoms shares b' k.minted (Settled-IsValid b fee m k.settled v)

-- A successful redemption does not take from those who stay: once the fee is settled, a share is
-- worth at least as much after it as before it.
unlock_worth :
    (shares l s : ℕ) (b : Lockbox) (atoms fee : ℕ) (b' : Lockbox)
    → unlock shares l s b ≡ (ok (atoms, fee), b')
    → WorthAtLeast (harvest_rate l s b).1 b'
unlock_worth shares l s b atoms fee b' h =
    let k = unlock-Unlocked shares l s b atoms fee b' h in
    Redeemed-worth (harvest_rate l s b).1 shares atoms b' k.redeemed

-- What `n` shares fetch is at most what was paid for them, if the price has not risen.
fetch-le :
    (la t paid n held : ℕ)
    → 0 < n
    → n * la ≤ paid * t
    → held ≤ la + paid
    → n * held / (t + n) ≤ paid
fetch-le la t paid n held pos bought h =
    let most : n * held ≤ n * (la + paid) = mul-le-mul_left n h in
    div-le_of (n * held) (t + n) paid (omega arith) (omega arith)

-- Whoever deposits into a valid lockbox and redeems the minted shares with nothing in between
-- gets at most the deposit back, at whatever rates the two calls read the pool.
pub unlock-lock-le :
    (deposit l s l' s' : ℕ) (b : Lockbox) (shares fee : ℕ) (b' : Lockbox) (atoms fee' : ℕ)
    (b'' : Lockbox)
    → IsValid b
    → lock deposit l s b ≡ (ok (shares, fee), b')
    → unlock shares l' s' b' ≡ (ok (atoms, fee'), b'')
    → atoms ≤ deposit
unlock-lock-le deposit l s l' s' b shares fee b' atoms fee' b'' v h h' =
    let m : Lockbox = (harvest_rate l s b).1 in
    let m' : Lockbox = (harvest_rate l' s' b').1 in
    let k = lock-Locked deposit l s b shares fee b' h in
    let k' = unlock-Unlocked shares l' s' b' atoms fee' b'' h' in
    let bought = Minted-le m deposit shares b' k.minted (Settled-IsValid b fee m k.settled v) in
    let total : m'.total_shares ≡ m.total_shares + shares = k'.settled.shares ∙ k.minted.total in
    let held : m'.last_accounted ≤ m.last_accounted + deposit =
      omega (arith, k'.settled.accounted, k.minted.accounted) in
    rw (k'.redeemed.price, total)
      (fetch-le m.last_accounted m.total_shares deposit shares m'.last_accounted
        k'.redeemed.some_shares bought held)

-- A redemption of all shares that succeeds pays all accounted atoms that are left when the fee is
-- settled, and leaves neither shares nor accounted atoms behind.
unlock_all :
    (l s : ℕ) (b : Lockbox) (atoms fee : ℕ) (b' : Lockbox)
    → unlock b.total_shares l s b ≡ (ok (atoms, fee), b')
    → (atoms + fee ≡ b.last_accounted) × (b'.total_shares ≡ 0) × (b'.last_accounted ≡ 0)
unlock_all l s b atoms fee b' h =
    let m : Lockbox = (harvest_rate l s b).1 in
    let k = unlock-Unlocked b.total_shares l s b atoms fee b' h in
    let same : m.total_shares ≡ b.total_shares = k.settled.shares in
    let whole : atoms ≡ m.last_accounted =
      k.redeemed.price
      ∙ rw same (mul-div_whole b.total_shares m.last_accounted k.redeemed.some_shares) in
    omega (arith, k.settled.accounted, k.redeemed.accounted, k.redeemed.total)
