-- ===== src/Common/Division.antt =====
-- Floor division of a product: the facts that the share and fee computations rest on.
use Prim.Native.Nat.{ℕ, ◌+◌, ◌*◌, ◌/◌, ◌≤◌, ◌<◌}
use native.Mathlib.Nat.{div-mul-le_self, mul-div_cancel_left, le_of_mul-le-mul_right, le_trans}
use native.Mathlib.Nat.{div-lt_iff_lt-mul, le-div_iff_mul-le}
use mathlib.Core.Path.{◌≡◌}
use native.Mathlib.Omega.{arith}

-- A quotient is at most `k` when the dividend is at most `k` divisors.
pub div-le_of : (n s k : ℕ) → 0 < s → n ≤ k * s → n / s ≤ k
div-le_of n s k pos h = le_of_mul-le-mul_right (le_trans (div-mul-le_self n s) h) pos

-- The part `a` of `s` taken of `t` is at most `t`.
pub mul-div-le_whole : (a t s : ℕ) → 0 < s → a ≤ s → a * t / s ≤ t
mul-div-le_whole a t s pos h = div-le_of (a * t) s t pos (grind arith)

-- It is less than `t` for a proper part.
pub mul-div-lt_whole : (a t s : ℕ) → 0 < t → a < s → a * t / s < t
mul-div-lt_whole a t s pos h = (div-lt_iff_lt-mul (omega arith)).1 (grind arith)

-- The whole of `s` taken of `t` is `t`.
pub mul-div_whole : (s t : ℕ) → 0 < s → s * t / s ≡ t
mul-div_whole s t pos = mul-div_cancel_left t pos

-- `q` is the floor of `n / d`, said without a division.
abbrev pub IsFloor : ℕ → ℕ → ℕ → Type 0
IsFloor q n d = (q * d ≤ n) × (n < (q + 1) * d)

pub div-IsFloor : (n d : ℕ) → 0 < d → IsFloor (n / d) n d
div-IsFloor n d pos = (div-mul-le_self n d, (div-lt_iff_lt-mul pos).0 (omega arith))

-- There is one floor.
pub IsFloor-unique : (q n d : ℕ) → 0 < d → IsFloor q n d → n / d ≡ q
IsFloor-unique q n d pos f =
    let low : q ≤ n / d = (le-div_iff_mul-le pos).1 f.0 in
    let high : n / d < q + 1 = (div-lt_iff_lt-mul pos).1 f.1 in omega arith
