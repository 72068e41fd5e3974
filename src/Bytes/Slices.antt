-- ===== src/Bytes/Slices.antt =====
-- Slices of byte arrays: slices of slices, neighbouring slices, and the bytes and words in them.
use native.Mathlib.Nat.{add-zero, add-suc}
use Prim.Native.Nat.{zero}
use hyper_leaf.Common.{
  ℕ, suc, ◌+◌, ◌^◌, ◌≤◌, ◌<◌, ◌≡◌, refl, ◌∙◌, ap, arith, [], ◌∷◌, ◌++◌, length, take, drop,
  length-take, length-drop, subst, get_or, take-append_take, drop_nil, All,
}
use hyper_leaf.Bytes.Words.{from_le_bytes-lt}
use hyper_leaf.Bytes.{Bytes, IsByte, IsArray, from_le_bytes, chunk}

-- Reading inside of what was read.
take-take_le : (k n : ℕ) (xs : Bytes) → k ≤ n → take k (take n xs) ≡ take k xs
take-take_le zero n xs h = refl
take-take_le (suc k) zero xs h = absurd (omega arith)
take-take_le (suc k) (suc n) [] h = refl
take-take_le (suc k) (suc n) (x ∷ xs) h =
    ap (λ (t : Bytes). x ∷ t) (take-take_le k n xs (omega arith))

chunk-take : (o k n : ℕ) (xs : Bytes) → o + k ≤ n → chunk (take n xs) o k ≡ chunk xs o k
chunk-take zero k n xs h = take-take_le k n xs (omega arith)
chunk-take (suc o) k zero xs h = absurd (omega arith)
chunk-take (suc o) k (suc n) [] h = refl
chunk-take (suc o) k (suc n) (x ∷ xs) h = chunk-take o k n xs (omega arith)

drop-drop : (o m : ℕ) (xs : Bytes) → drop m (drop o xs) ≡ drop (m + o) xs
drop-drop zero m xs = rw (add-zero m)
drop-drop (suc o) m [] = rw (drop_nil m, drop_nil (m + suc o))
drop-drop (suc o) m (x ∷ xs) = rw (add-suc m o) (drop-drop o m xs)

pub chunk-chunk :
    (o n o' k : ℕ) (xs : Bytes) → o' + k ≤ n → chunk (chunk xs o n) o' k ≡ chunk xs (o' + o) k
chunk-chunk o n o' k xs h = chunk-take o' k n (drop o xs) h ∙ ap (take k) (drop-drop o o' xs)

-- Two neighbouring readings join.
pub chunk-append_chunk :
    (xs : Bytes) (o n m : ℕ) → chunk xs o n ++ chunk xs (n + o) m ≡ chunk xs o (n + m)
chunk-append_chunk xs o n m = rw (← drop-drop o n xs) (take-append_take n m (drop o xs))

pub length-chunk : (xs : Bytes) (o n : ℕ) → o + n ≤ length xs → length (chunk xs o n) ≡ n
length-chunk xs o n h = omega (arith, length-take n (drop o xs), length-drop o xs)

-- One byte, read by its index.
pub get_or-chunk : (xs : Bytes) (o b : ℕ) → chunk xs o 1 ≡ b ∷ [] → get_or xs o 0 ≡ b
get_or-chunk [] zero b e = cc
get_or-chunk [] (suc o) b e = cc
get_or-chunk (x ∷ xs) zero b e = cc
get_or-chunk (x ∷ xs) (suc o) b e = get_or-chunk xs o b e

All-take : (n : ℕ) (xs : Bytes) → All IsByte xs → All IsByte (take n xs)
All-take zero xs h = tt
All-take (suc n) [] h = tt
All-take (suc n) (x ∷ xs) h = (h.0, All-take n xs h.1)

All-drop : (n : ℕ) (xs : Bytes) → All IsByte xs → All IsByte (drop n xs)
All-drop zero xs h = h
All-drop (suc n) [] h = tt
All-drop (suc n) (x ∷ xs) h = All-drop n xs h.1

-- What is read from bytes is an array of bytes.
pub chunk-IsArray :
    (xs : Bytes) (o n : ℕ) → All IsByte xs → o + n ≤ length xs → IsArray n (chunk xs o n)
chunk-IsArray xs o n h fits = (length-chunk xs o n fits, All-take n (drop o xs) (All-drop o xs h))

-- An integer of `k` bytes read from bytes is in range.
pub chunk_word-lt :
    (k : ℕ) (xs : Bytes) (o : ℕ)
    → All IsByte xs
    → o + k ≤ length xs
    → from_le_bytes (chunk xs o k) < 256 ^ k
chunk_word-lt k xs o h fits =
    let a = chunk-IsArray xs o k h fits in
    subst (λ w. from_le_bytes (chunk xs o k) < 256 ^ w) a.0 (from_le_bytes-lt (chunk xs o k) a.1)
