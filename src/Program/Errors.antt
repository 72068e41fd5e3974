-- ===== src/Program/Errors.antt =====
-- errors.rs: the program's errors, and how an instruction ends.
use hyper_leaf.Common.{◌≡◌, refl, ap, Bool, true, false, Option, none, some}
use hyper_leaf.Outcome
use hyper_leaf.Outcome.{Result, Error}

pub data LeafJitoError : Type 0 where
  invalid_message unauthorized halted zero cap bad_rate insufficient harvest_inner : LeafJitoError
  forbidden_cpi bad_mint lz_only bad_peer wrong_listing underbacked : LeafJitoError
  bad_pool_account math_overflow bad_token_account peer_frozen bad_eid : LeafJitoError

-- An instruction ends with a value, with an error of its own, with an error of Anchor or of a
-- program that it calls, or with a panic. All but the first undo the transaction.
pub data Reply {ℓ} (A : Type ℓ) : Type ℓ where
  done : A → Reply A
  fail : LeafJitoError → Reply A
  refused : Reply A
  aborted : Reply A

abbrev pub ◌>>=◌ {ℓ κ} : {S : Type ℓ} {T : Type κ} → Reply S → (S → Reply T) → Reply T
aborted >>= next = aborted
refused >>= next = refused
fail reason >>= next = fail reason
done value >>= next = next value

abbrev pub ◌>>◌ {κ} : {T : Type κ} → Reply (Unit {0}) → Reply T → Reply T
first >> second = first >>= λ passed. second

infixl 5 ◌>>=◌ ◌>>◌
-- `require!`, `require_keys_eq!` and a constraint with an `@ error`.
abbrev pub require : Bool → LeafJitoError → Reply (Unit {0})
require true e = done tt
require false e = fail e

-- The answer of a program that is called, or of an account that has to exist.
abbrev pub answered {ℓ} : {A : Type ℓ} → Option A → Reply A
answered (some a) = done a
answered none = refused

-- `impl From<lockbox::Error> for LeafJitoError`
unfoldable from_rate : Error → LeafJitoError
from_rate Error.halted = halted
from_rate Error.zero = zero
from_rate Error.cap = cap
from_rate Error.bad_rate = bad_rate
from_rate Error.insufficient = insufficient
from_rate Error.harvest_inner = harvest_inner
from_rate Error.forbidden_cpi = forbidden_cpi
from_rate Error.bad_mint = bad_mint
from_rate Error.lz_only = lz_only
from_rate Error.bad_peer = bad_peer
from_rate Error.wrong_listing = wrong_listing
from_rate Error.underbacked = underbacked
from_rate Error.math_overflow = math_overflow
from_rate Error.bad_eid = bad_eid

-- `map_rate`
unfoldable pub map_rate : Error → LeafJitoError
map_rate Error.halted = halted
map_rate Error.zero = zero
map_rate Error.cap = cap
map_rate Error.bad_rate = bad_rate
map_rate Error.insufficient = insufficient
map_rate Error.harvest_inner = harvest_inner
map_rate Error.forbidden_cpi = forbidden_cpi
map_rate Error.bad_mint = bad_mint
map_rate Error.lz_only = lz_only
map_rate Error.bad_peer = bad_peer
map_rate Error.wrong_listing = wrong_listing
map_rate Error.underbacked = underbacked
map_rate Error.math_overflow = math_overflow
map_rate Error.bad_eid = bad_eid

-- `.map_err(map_rate)?`
abbrev pub from_result {ℓ} : {A : Type ℓ} → Result A → Reply A
from_result (Outcome.ok a) = done a
from_result (Outcome.err e) = fail (map_rate e)
from_result Outcome.panic = aborted

-- `.map_err(|_| error!(e))?`
abbrev pub or_fail {ℓ} : {A : Type ℓ} → Result A → LeafJitoError → Reply A
or_fail (Outcome.ok a) e = done a
or_fail (Outcome.err _) e = fail e
or_fail Outcome.panic e = aborted

pub >>=-eq-done {ℓ κ} :
    {S : Type ℓ} {T : Type κ} (m : Reply S) (next : S → Reply T) {result : T}
    → (m >>= next) ≡ done result
    → (value : S) × (m ≡ done value) × (next value ≡ done result)
>>=-eq-done aborted next h = cc
>>=-eq-done refused next h = cc
>>=-eq-done (fail reason) next h = cc
>>=-eq-done (done value) next h = (value, refl, h)

pub require-eq-done {ℓ} :
    {B : Type ℓ} (t : Bool) (e : LeafJitoError) (k : Reply B) {b : B}
    → (require t e >> k) ≡ done b
    → (t ≡ true) × (k ≡ done b)
require-eq-done true e k h = (refl, h)
require-eq-done false e k h = cc

pub done-injective {ℓ} : {A : Type ℓ} {a b : A} → done a ≡ done b → a ≡ b
done-injective h = cc

pub require_done : (t : Bool) (e : LeafJitoError) → require t e ≡ done tt → t ≡ true
require_done true e h = refl
require_done false e h = cc

pub from_result-eq-done :
    {A : Type 0} (r : Result A) {a : A} → from_result r ≡ done a → r ≡ Outcome.ok a
from_result-eq-done (Outcome.ok b) h = ap Outcome.ok (done-injective h)
from_result-eq-done (Outcome.err e) h = cc
from_result-eq-done Outcome.panic h = cc
