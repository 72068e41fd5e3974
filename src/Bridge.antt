-- ===== src/Bridge.antt =====
-- `encode_bridge` and `decode_bridge` of solana/leaf-jito-rate/src/lib.rs: the 96-byte message
-- `abi.encode(listingTag, bytes32(to), uint256 shares)`.
pub mod RoundTrip
mod Examples
use hyper_leaf.Common.{
  ℕ, ◌-◌, Bool, true, false, not, Option, some, none, List, [], ◌∷◌, length, ◌==◌, if◌then◌else◌,
}
use hyper_leaf.Bytes.{Bytes, zeros, chunk, eq_bytes, be_bytes, from_be_bytes, write_all}

-- `amt` of `encode_bridge`: the u128 at the end of 32 bytes.
unfoldable pub amount_word : ℕ → Bytes
amount_word amount = let be = be_bytes 16 amount in write_all (zeros 32) ((32 - length be, be) ∷ [])

unfoldable pub encode_bridge : Bytes → Bytes → ℕ → Bytes
encode_bridge tag to amount =
    write_all (zeros 96) ((0, tag) ∷ (32, to) ∷ (64, amount_word amount) ∷ [])

unfoldable pub decode_bridge : Bytes → Option (Bytes × Bytes × ℕ)
decode_bridge buf =
    if not (length buf == 96)
    then none
    else if not (eq_bytes (chunk buf 64 16) (zeros 16))
    then none
    else some (chunk buf 0 32, chunk buf 32 32, from_be_bytes (chunk buf 80 16))
