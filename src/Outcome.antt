-- ===== src/Outcome.antt =====
-- How a call of the rate crate ends: `Result` of `lockbox::Error`, and the panic of a checked
-- machine operation (the workspace builds with `overflow-checks = true`, and a panic aborts the
-- transaction).
use hyper_leaf.Common.{
  ℕ, ◌+◌, ◌-◌, ◌*◌, ◌^◌, ◌≡◌, refl, Bool, true, false, Option, none, some, ltb, leb, if◌then◌else◌,
}

pub data Error : Type 0 where
  halted zero cap bad_rate insufficient harvest_inner forbidden_cpi bad_mint lz_only bad_peer :
      Error
  wrong_listing underbacked math_overflow bad_eid : Error

-- The ways in which a call ends: it aborts, it returns an error, or it returns a value.
pub data Result {ℓ} (T : Type ℓ) : Type ℓ where
  panic : Result T
  err : (reason : Error) → Result T
  ok : (value : T) → Result T

-- `?` on a result, with what follows it.
abbrev pub ◌>>=◌ {ℓ κ} : {S : Type ℓ} {T : Type κ} → Result S → (S → Result T) → Result T
panic >>= next = panic
err reason >>= next = err reason
ok value >>= next = next value

abbrev pub ◌>>◌ {κ} : {T : Type κ} → Result (Unit {0}) → Result T → Result T
first >> second = first >>= λ done. second

infixl 5 ◌>>=◌ ◌>>◌
-- `require!(test, error)`, and an early `return Err(error)` on the opposite test.
abbrev pub require : Bool → Error → Result (Unit {0})
require true e = ok tt
require false e = err e

-- `ok_or`
abbrev pub ok_or {ℓ} : {A : Type ℓ} → Option A → Error → Result A
ok_or (some a) e = ok a
ok_or none e = err e

abbrev pub u64_size : ℕ
u64_size = 2 ^ 64

abbrev pub u128_size : ℕ
u128_size = 2 ^ 128

-- `a + b`, `a - b` and `a * b` on u128 with overflow checks.
abbrev pub add_u128 : ℕ → ℕ → Result ℕ
add_u128 a b = if ltb (a + b) u128_size then ok (a + b) else panic

abbrev pub sub_u128 : ℕ → ℕ → Result ℕ
sub_u128 a b = if leb b a then ok (a - b) else panic

abbrev pub mul_u128 : ℕ → ℕ → Result ℕ
mul_u128 a b = if ltb (a * b) u128_size then ok (a * b) else panic

-- `a.checked_mul(b)` on u128.
abbrev pub checked_mul : ℕ → ℕ → Option ℕ
checked_mul a b = if ltb (a * b) u128_size then some (a * b) else none

-- What `?` went on from, when the whole succeeded.
pub >>=-eq-ok {ℓ κ} :
    {S : Type ℓ} {T : Type κ} (m : Result S) (next : S → Result T) {result : T}
    → (m >>= next) ≡ ok result
    → (value : S) × (m ≡ ok value) × (next value ≡ ok result)
>>=-eq-ok panic next h = cc
>>=-eq-ok (err reason) next h = cc
>>=-eq-ok (ok value) next h = (value, refl, h)

-- Inversion of a guard that is passed.
pub require-eq-ok {ℓ} :
    {B : Type ℓ} (t : Bool) (e : Error) (k : Result B) {b : B}
    → (require t e >> k) ≡ ok b
    → (t ≡ true) × (k ≡ ok b)
require-eq-ok true e k h = (refl, h)
require-eq-ok false e k h = cc

pub ok-injective {ℓ} : {A : Type ℓ} {a b : A} → ok a ≡ ok b → a ≡ b
ok-injective h = cc
