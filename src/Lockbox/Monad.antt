-- ===== src/Lockbox/Monad.antt =====
-- The fields of `Lockbox`, and its `&mut self` methods as actions on them.
use hyper_leaf.Common.{ℕ, ◌≡◌, refl, Bool, true, false}
use hyper_leaf.Outcome
use hyper_leaf.Outcome.{Result, Error, ok, err, panic}

pub record Lockbox : Type 0 where
  pub last_accounted : ℕ
  pub last_rate : ℕ
  pub total_shares : ℕ
  pub deposit_cap_atoms : ℕ
  pub escrow_atoms : ℕ
  pub harvest_atoms : ℕ
  pub halted : Bool

abbrev pub ⊤ : Type 0
⊤ = Unit

abbrev pub Action : Type 0 → Type 0
Action A = Lockbox → Result A × Lockbox

-- `&mut self` and `?`: what follows starts from the fields as the first part left them.
abbrev pub resume : {S T : Type 0} → (S → Action T) → Result S × Lockbox → Result T × Lockbox
resume next (panic, left) = (panic, left)
resume next (err e, left) = (err e, left)
resume next (ok value, left) = next value left

abbrev pub ◌>>=◌ : {S T : Type 0} → Action S → (S → Action T) → Action T
◌>>=◌ first next box = resume next (first box)

abbrev pub ◌>>◌ : {T : Type 0} → Action ⊤ → Action T → Action T
first >> second = first >>= λ done. second

infixl 5 ◌>>=◌ ◌>>◌
abbrev pub require : Bool → Error → Action ⊤
require t e box = (Outcome.require t e, box)

abbrev pub modify : (Lockbox → Lockbox) → Action ⊤
modify change box = (ok tt, change box)

abbrev pub get : Action Lockbox
get box = (ok box, box)

abbrev pub lift : {T : Type 0} → Result T → Action T
lift end box = (end, box)

abbrev pub pure : {T : Type 0} → T → Action T
pure value = lift (ok value)

-- What a sequence went on from, when the whole succeeded.
resume-eq-ok :
    {S T : Type 0} (next : S → Action T) (x : Result S × Lockbox) {r : T} {b' : Lockbox}
    → resume next x ≡ (ok r, b')
    → (value : S) × (m : Lockbox) × (x ≡ (ok value, m)) × (next value m ≡ (ok r, b'))
resume-eq-ok next (panic, m) h = cc
resume-eq-ok next (err e, m) h = cc
resume-eq-ok next (ok value, m) h = (value, m, refl, h)

pub >>=-eq-ok :
    {S T : Type 0} (first : Action S) (next : S → Action T) (b : Lockbox) {r : T} {b' : Lockbox}
    → (first >>= next) b ≡ (ok r, b')
    → (value : S) × (m : Lockbox) × (first b ≡ (ok value, m)) × (next value m ≡ (ok r, b'))
>>=-eq-ok first next b h = resume-eq-ok next (first b) h

pub require-eq-ok :
    {B : Type 0} (t : Bool) (e : Error) (k : Action B) (b : Lockbox) {r : B} {b' : Lockbox}
    → (require t e >> k) b ≡ (ok r, b')
    → (t ≡ true) × (k b ≡ (ok r, b'))
require-eq-ok true e k b h = (refl, h)
require-eq-ok false e k b h = cc
