-- ===== src/Bytes/Words.antt =====
-- The byte forms of an integer and back, for every width.
use Prim.Native.Nat.{zero}
use native.Mathlib.Nat.{pow-suc}
use mathlib.Core.List.{reverse-reverse, reverse_aux}
use hyper_leaf.Common.{
  ℕ, suc, ◌+◌, ◌*◌, ◌/◌, ◌%◌, ◌^◌, ◌<◌, ◌≡◌, refl, ap, arith, [], ◌∷◌, reverse, length,
  length-replicate, All,
}
use hyper_leaf.Bytes.{Bytes, IsByte, zeros, le_bytes, from_le_bytes, be_bytes, from_be_bytes}

pow-suc_256 : (n : ℕ) → 256 ^ suc n ≡ 256 * 256 ^ n
pow-suc_256 n = omega (arith, pow-suc 256 n)

pub length-le_bytes : (n v : ℕ) → length (le_bytes n v) ≡ n
unfolding le_bytes
length-le_bytes zero v = refl
length-le_bytes (suc n) v = ap suc (length-le_bytes n (v / 256))

le_bytes-IsByte : (n v : ℕ) → All IsByte (le_bytes n v)
unfolding le_bytes
le_bytes-IsByte zero v = tt
le_bytes-IsByte (suc n) v = (omega arith, le_bytes-IsByte n (v / 256))

-- An integer of `n` bytes comes back from its little-endian form.
pub from_le_bytes-le_bytes : (n v : ℕ) → v < 256 ^ n → from_le_bytes (le_bytes n v) ≡ v
unfolding from_le_bytes le_bytes
from_le_bytes-le_bytes zero v h = omega arith
from_le_bytes-le_bytes (suc n) v h =
    omega (arith, from_le_bytes-le_bytes n (v / 256) (omega (arith, pow-suc_256 n)))

-- What is read back is an integer of as many bytes.
pub from_le_bytes-lt : (bs : Bytes) → All IsByte bs → from_le_bytes bs < 256 ^ length bs
unfolding from_le_bytes
from_le_bytes-lt [] h = omega arith
from_le_bytes-lt (b ∷ bs) h = omega (arith, pow-suc_256 (length bs), from_le_bytes-lt bs h.1)

-- Bytes come back from the integer that they stand for.
pub le_bytes-from_le_bytes :
    (bs : Bytes) → All IsByte bs → le_bytes (length bs) (from_le_bytes bs) ≡ bs
unfolding from_le_bytes le_bytes
le_bytes-from_le_bytes [] h = refl
le_bytes-from_le_bytes (b ∷ bs) h =
    let rest = from_le_bytes bs in
    let low : (b + 256 * rest) % 256 ≡ b = omega arith in
    let high : (b + 256 * rest) / 256 ≡ rest = omega arith in
    rw (low, high, le_bytes-from_le_bytes bs h.1)

length-reverse_aux : (xs ys : Bytes) → length (reverse_aux xs ys) ≡ length xs + length ys
length-reverse_aux [] ys = omega arith
length-reverse_aux (x ∷ xs) ys = omega (arith, length-reverse_aux xs (x ∷ ys))

length-reverse : (xs : Bytes) → length (reverse xs) ≡ length xs
length-reverse xs = omega (arith, length-reverse_aux xs [])

All-reverse_aux : (xs ys : Bytes) → All IsByte xs → All IsByte ys → All IsByte (reverse_aux xs ys)
All-reverse_aux [] ys h k = k
All-reverse_aux (x ∷ xs) ys h k = All-reverse_aux xs (x ∷ ys) h.1 (h.0, k)

pub from_be_bytes-lt : (bs : Bytes) → All IsByte bs → from_be_bytes bs < 256 ^ length bs
unfolding from_be_bytes
from_be_bytes-lt bs h =
    rw (← length-reverse bs) (from_le_bytes-lt (reverse bs) (All-reverse_aux bs [] h tt))

be_bytes-IsByte : (n v : ℕ) → All IsByte (be_bytes n v)
unfolding be_bytes
be_bytes-IsByte n v = All-reverse_aux (le_bytes n v) [] (le_bytes-IsByte n v) tt

pub length-be_bytes : (n v : ℕ) → length (be_bytes n v) ≡ n
unfolding be_bytes
length-be_bytes n v = omega (arith, length-reverse (le_bytes n v), length-le_bytes n v)

pub from_be_bytes-be_bytes : (n v : ℕ) → v < 256 ^ n → from_be_bytes (be_bytes n v) ≡ v
unfolding from_be_bytes be_bytes
from_be_bytes-be_bytes n v h = rw (reverse-reverse, from_le_bytes-le_bytes n v h)

pub be_bytes-from_be_bytes :
    (bs : Bytes) → All IsByte bs → be_bytes (length bs) (from_be_bytes bs) ≡ bs
unfolding from_be_bytes be_bytes
be_bytes-from_be_bytes bs h =
    rw (← length-reverse bs, le_bytes-from_le_bytes (reverse bs) (All-reverse_aux bs [] h tt))
      (reverse-reverse bs)

pub length-zeros : (n : ℕ) → length (zeros n) ≡ n
length-zeros n = length-replicate n 0
