-- ===== src/Bytes.antt =====
-- Byte arrays and slices of the Rust code: `[u8; N]` and `&[u8]` are lists of numbers below 256,
-- `to_le_bytes`, `from_le_bytes`, `to_be_bytes` and `from_be_bytes` of an N-byte integer are
-- written out, and `d[o..o + n].copy_from_slice(s)` is `copy_at`.
pub mod Words
pub mod Slices
pub mod Layout
use hyper_leaf.Common.{
  ℕ, suc, ◌+◌, ◌*◌, ◌/◌, ◌%◌, ◌<◌, ◌≡◌, ◌↔◌, ◌≢◌, inl, inr, ap, Bool-cases, refl, arith, Bool, true,
  false, ◌&&◌, List, [], ◌∷◌, ◌++◌, reverse, length, take, drop, replicate, All, ◌==◌, ltb,
}
use Prim.Native.Nat.{zero}

abbrev pub Bytes : Type 0
Bytes = List ℕ

abbrev pub IsByte : ℕ → Type 0
IsByte b = b < 256

-- A value of the type `[u8; n]`.
abbrev pub IsArray : ℕ → Bytes → Type 0
IsArray n bs = (length bs ≡ n) × All IsByte bs

-- `==` on byte slices.
unfoldable pub eq_bytes : Bytes → Bytes → Bool
eq_bytes [] [] = true
eq_bytes [] (_ ∷ _) = false
eq_bytes (_ ∷ _) [] = false
eq_bytes (x ∷ xs) (y ∷ ys) = x == y && eq_bytes xs ys

pub eq_bytes→eq : (xs ys : Bytes) → eq_bytes xs ys ≡ true → xs ≡ ys
unfolding eq_bytes
eq_bytes→eq [] [] h = refl
eq_bytes→eq [] (_ ∷ _) h = cc
eq_bytes→eq (_ ∷ _) [] h = cc
eq_bytes→eq (x ∷ xs) (y ∷ ys) h = ground (arith, eq_bytes→eq xs ys)

pub eq_bytes_refl : (xs : Bytes) → eq_bytes xs xs ≡ true
unfolding eq_bytes
eq_bytes_refl [] = refl
eq_bytes_refl (x ∷ xs) = ground (arith, eq_bytes_refl xs)

pub eq_bytes_iff : (xs ys : Bytes) → (eq_bytes xs ys ≡ true) ↔ (xs ≡ ys)
eq_bytes_iff xs ys = (eq_bytes→eq xs ys, λ e. rw e (eq_bytes_refl ys))

pub eq_bytes-ne : (xs ys : Bytes) → (eq_bytes xs ys ≡ false) ↔ (xs ≢ ys)
eq_bytes-ne xs ys = (
  λ h e. cc (eq_bytes_refl xs, ap (eq_bytes xs) e),
  λ h. elim (Bool-cases (eq_bytes xs ys)) [
    | inl same ↦ absurd (h (eq_bytes→eq xs ys same))
    | inr other ↦ other
  ],
)

-- `[0u8; n]`
abbrev pub zeros : ℕ → Bytes
zeros n = replicate n 0

-- `&d[off..off + n]`
abbrev pub chunk : Bytes → ℕ → ℕ → Bytes
chunk d off n = take n (drop off d)

-- `v.to_le_bytes()` of an integer of `n` bytes.
unfoldable pub le_bytes : ℕ → ℕ → Bytes
le_bytes zero v = []
le_bytes (suc n) v = (v % 256) ∷ le_bytes n (v / 256)

-- `from_le_bytes`
unfoldable pub from_le_bytes : Bytes → ℕ
from_le_bytes [] = 0
from_le_bytes (b ∷ bs) = b + 256 * from_le_bytes bs

-- `v.to_be_bytes()` of an integer of `n` bytes.
unfoldable pub be_bytes : ℕ → ℕ → Bytes
unfolding le_bytes
be_bytes n v = reverse (le_bytes n v)

-- `from_be_bytes`
unfoldable pub from_be_bytes : Bytes → ℕ
unfolding from_le_bytes
from_be_bytes bs = from_le_bytes (reverse bs)

-- `d[off..off + s.len()].copy_from_slice(s)`
unfoldable pub copy_at : Bytes → ℕ → Bytes → Bytes
copy_at d off s = take off d ++ (s ++ drop (off + length s) d)

-- Such assignments one after the other, each an offset and the bytes copied there.
unfoldable pub write_all : Bytes → List (ℕ × Bytes) → Bytes
unfolding copy_at
write_all d [] = d
write_all d ((off, s) ∷ ws) = write_all (copy_at d off s) ws

-- The test that all entries are bytes.
unfoldable pub are_bytes : Bytes → Bool
are_bytes [] = true
are_bytes (x ∷ xs) = ltb x 256 && are_bytes xs

pub are_bytes-IsByte : (xs : Bytes) → are_bytes xs ≡ true → All IsByte xs
unfolding are_bytes
are_bytes-IsByte [] h = tt
are_bytes-IsByte (x ∷ xs) h = ground (arith, are_bytes-IsByte xs)
