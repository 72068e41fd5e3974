-- ===== src/Bytes/Layout.antt =====
-- Records in fixed byte layouts: what a sequence of copies into a buffer leaves in it.
use mathlib.Core.List.{append-nil, append_assoc}
use mathlib.Core.Option.{some-injective}
use Prim.Native.Nat.{zero}
use hyper_leaf.Common.{
  ℕ, suc, ◌+◌, ◌≤◌, ◌≡◌, refl, ◌∙◌, ap, arith, some, List, [], ◌∷◌, ◌++◌, length, take, drop,
  get_elem?, length-append, length-take, length-drop, take-append_self, subst, take_all,
}
use hyper_leaf.Bytes.{Bytes, chunk, copy_at, write_all}

-- The copies lie one behind the other, from `lo` on and below `n`.
abbrev pub Fits : ℕ → ℕ → List (ℕ × Bytes) → Type 0
Fits lo n [] = lo ≤ n
Fits lo n ((off, s) ∷ ws) = (lo ≤ off) × Fits (off + length s) n ws

Fits-le : (lo n : ℕ) (ws : List (ℕ × Bytes)) → Fits lo n ws → lo ≤ n
Fits-le lo n [] h = h
Fits-le lo n ((off, s) ∷ ws) h = omega (arith, Fits-le (off + length s) n ws h.1)

length-copy_at :
    (d : Bytes) (off : ℕ) (s : Bytes)
    → off + length s ≤ length d
    → length (copy_at d off s) ≡ length d
unfolding copy_at
length-copy_at d off s h = omega (
  arith,
  length-append (take off d) (s ++ drop (off + length s) d),
  length-append s (drop (off + length s) d),
  length-take off d,
  length-drop (off + length s) d,
)

drop-take_append :
    (d : Bytes) (off : ℕ) (r : Bytes) → off ≤ length d → drop off (take off d ++ r) ≡ r
drop-take_append d zero r h = refl
drop-take_append [] (suc off) r h = absurd (omega arith)
drop-take_append (x ∷ d) (suc off) r h = drop-take_append d off r (omega arith)

chunk-copy_at_self :
    (d : Bytes) (off : ℕ) (s : Bytes) → off ≤ length d → chunk (copy_at d off s) off (length s) ≡ s
unfolding copy_at
chunk-copy_at_self d off s h =
    ap (take (length s)) (drop-take_append d off (s ++ drop (off + length s) d) h)
    ∙ take-append_self s (drop (off + length s) d)

take-take_append :
    (k off : ℕ) (d r : Bytes) → k ≤ off → off ≤ length d → take k (take off d ++ r) ≡ take k d
take-take_append zero off d r h l = refl
take-take_append (suc k) zero d r h l = absurd (omega arith)
take-take_append (suc k) (suc off) [] r h l = absurd (omega arith)
take-take_append (suc k) (suc off) (x ∷ d) r h l =
    ap (λ (t : Bytes). x ∷ t) (take-take_append k off d r (omega arith) (omega arith))

chunk-take_append :
    (o k off : ℕ) (d r : Bytes)
    → o + k ≤ off
    → off ≤ length d
    → chunk (take off d ++ r) o k ≡ chunk d o k
chunk-take_append zero k off d r h l = take-take_append k off d r (omega arith) l
chunk-take_append (suc o) k zero d r h l = absurd (omega arith)
chunk-take_append (suc o) k (suc off) [] r h l = absurd (omega arith)
chunk-take_append (suc o) k (suc off) (x ∷ d) r h l =
    chunk-take_append o k off d r (omega arith) (omega arith)

-- A copy leaves what lies before it.
chunk-copy_at_before :
    (d : Bytes) (off : ℕ) (s : Bytes) (o k : ℕ)
    → o + k ≤ off
    → off ≤ length d
    → chunk (copy_at d off s) o k ≡ chunk d o k
unfolding copy_at
chunk-copy_at_before d off s o k h l =
    chunk-take_append o k off d (s ++ drop (off + length s) d) h l

module _ (n : ℕ) where
  -- Copies that fit keep the buffer's length.
  pub length-write_all :
      (ws : List (ℕ × Bytes)) (lo : ℕ) (d : Bytes)
      → Fits lo n ws
      → length d ≡ n
      → length (write_all d ws) ≡ n
  unfolding write_all
  length-write_all [] lo d f e = e
  length-write_all ((off, s) ∷ ws) lo d f e =
      let fit : off + length s ≤ n = Fits-le (off + length s) n ws f.1 in
      length-write_all ws (off + length s) (copy_at d off s) f.1
        (length-copy_at d off s (omega arith) ∙ e)

  -- What lies before the first of them stays.
  pub chunk-write_all_before :
      (ws : List (ℕ × Bytes)) (lo : ℕ) (d : Bytes) (o k : ℕ)
      → Fits lo n ws
      → length d ≡ n
      → o + k ≤ lo
      → chunk (write_all d ws) o k ≡ chunk d o k
  unfolding write_all
  chunk-write_all_before [] lo d o k f e h = refl
  chunk-write_all_before ((off, s) ∷ ws) lo d o k f e h =
      let fit : off + length s ≤ n = Fits-le (off + length s) n ws f.1 in
      chunk-write_all_before ws (off + length s) (copy_at d off s) o k f.1
        (length-copy_at d off s (omega arith) ∙ e) (omega arith)
      ∙ chunk-copy_at_before d off s o k (omega arith) (omega arith)

  -- Each of them is read back where it was written.
  pub chunk-write_all :
      (ws : List (ℕ × Bytes)) (i : ℕ) (lo : ℕ) (d : Bytes) (o : ℕ) (s : Bytes)
      → get_elem? ws i ≡ some (o, s)
      → Fits lo n ws
      → length d ≡ n
      → chunk (write_all d ws) o (length s) ≡ s
  unfolding write_all
  chunk-write_all [] i lo d o s g f e = cc
  chunk-write_all ((off, t) ∷ ws) zero lo d o s g f e =
      let fit : off + length t ≤ n = Fits-le (off + length t) n ws f.1 in
      subst (λ p. chunk (write_all (copy_at d off t) ws) p.0 (length p.1) ≡ p.1)
        (some-injective (off, t) (o, s) g)
        (chunk-write_all_before ws (off + length t) (copy_at d off t) off (length t) f.1
            (length-copy_at d off t (omega arith) ∙ e) (omega arith)
          ∙ chunk-copy_at_self d off t (omega arith))
  chunk-write_all ((off, t) ∷ ws) (suc i) lo d o s g f e =
      let fit : off + length t ≤ n = Fits-le (off + length t) n ws f.1 in
      chunk-write_all ws i (off + length t) (copy_at d off t) o s g f.1
        (length-copy_at d off t (omega arith) ∙ e)

-- The copies lie without gaps from `lo` to `n`.
abbrev pub Tiles : ℕ → ℕ → List (ℕ × Bytes) → Type 0
Tiles lo n [] = lo ≡ n
Tiles lo n ((off, s) ∷ ws) = (lo ≡ off) × Tiles (off + length s) n ws

abbrev contents : List (ℕ × Bytes) → Bytes
contents [] = []
contents ((off, s) ∷ ws) = s ++ contents ws

Tiles-le : (lo n : ℕ) (ws : List (ℕ × Bytes)) → Tiles lo n ws → lo ≤ n
Tiles-le lo n [] h = omega arith
Tiles-le lo n ((off, s) ∷ ws) h = omega (arith, Tiles-le (off + length s) n ws h.1)

take-copy_at :
    (d : Bytes) (off : ℕ) (s : Bytes)
    → off ≤ length d
    → take (off + length s) (copy_at d off s) ≡ take off d ++ s
unfolding copy_at
take-copy_at d off s h =
    let r = drop (off + length s) d in
    let len : length (take off d ++ s) ≡ off + length s =
      omega (arith, length-append (take off d) s, length-take off d) in
    rw (← append_assoc (take off d) s r) (
      subst (λ k. take k ((take off d ++ s) ++ r) ≡ take off d ++ s) len
        (take-append_self (take off d ++ s) r))

-- Copies that tile a buffer leave what they copied, one behind the other.
pub write_all_tiled :
    (n : ℕ) (ws : List (ℕ × Bytes)) (lo : ℕ) (d : Bytes)
    → Tiles lo n ws
    → length d ≡ n
    → write_all d ws ≡ take lo d ++ contents ws
unfolding write_all
write_all_tiled n [] lo d t e = rw (append-nil, t, ← e, take_all)
write_all_tiled n ((off, s) ∷ ws) lo d t e =
    let fit : off + length s ≤ n = Tiles-le (off + length s) n ws t.1 in
    write_all_tiled n ws (off + length s) (copy_at d off s) t.1
      (length-copy_at d off s (omega arith) ∙ e)
    ∙ rw (take-copy_at d off s (omega arith), t.0) (append_assoc (take off d) s (contents ws))

-- Each copy is read back, at its width.
pub read-write_all :
    (n : ℕ) (ws : List (ℕ × Bytes)) (i lo k : ℕ) (d : Bytes) (o : ℕ) (s : Bytes)
    → get_elem? ws i ≡ some (o, s)
    → length s ≡ k
    → Fits lo n ws
    → length d ≡ n
    → chunk (write_all d ws) o k ≡ s
read-write_all n ws i lo k d o s g l f e =
    subst (λ w. chunk (write_all d ws) o w ≡ s) l (chunk-write_all n ws i lo d o s g f e)
