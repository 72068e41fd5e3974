-- ===== src/Ix.antt =====
-- solana/leaf-jito-rate/src/ix.rs: the instruction codec, the shape of a peer on either chain,
-- and the message of a `lock`.
pub mod RoundTrip
pub mod Peers
pub mod Payload
mod Examples
use Prim.Native.Nat.{zero}
use hyper_leaf.Common.{
  ℕ, suc, Bool, not, ◌&&◌, ◌||◌, List, [], ◌∷◌, ◌++◌, length, take, drop, ◌==◌, if◌then◌else◌,
}
use hyper_leaf.Bytes.{Bytes, zeros, chunk, eq_bytes, le_bytes, from_le_bytes}
use hyper_leaf.Outcome.{Result, Error, ok, err, lz_only, bad_peer, require, ◌>>=◌, ◌>>◌}

abbrev pub op_init : ℕ
op_init = 0

abbrev pub op_lock : ℕ
op_lock = 1

abbrev pub op_harvest_rate : ℕ
op_harvest_rate = 2

abbrev pub op_harvest_other : ℕ
op_harvest_other = 3

abbrev pub op_halt : ℕ
op_halt = 4

abbrev pub op_lz_receive : ℕ
op_lz_receive = 5

abbrev pub dest_eid : ℕ
dest_eid = 30367

pub data Ix : Type 0 where
  init : ℕ → Bytes → Ix
  lock : ℕ → Bytes → Ix
  harvest_rate : Ix
  harvest_other : Bytes → Ix
  halt : Ix

unfoldable pub encode : Ix → Bytes
encode (init deposit_cap_atoms dest_peer) = op_init ∷ (le_bytes 16 deposit_cap_atoms ++ dest_peer)
encode (lock atoms evm_to) = op_lock ∷ (le_bytes 16 atoms ++ evm_to)
encode harvest_rate = op_harvest_rate ∷ []
encode (harvest_other mint) = op_harvest_other ∷ mint
encode halt = op_halt ∷ []

-- The arms of `decode`, at the first byte and the whole input.
unfoldable pub decode_op : ℕ → Bytes → Result Ix
decode_op op bytes =
    if op == op_init
    then (do
      require (length bytes == 49) Error.zero
      ok (init (from_le_bytes (chunk bytes 1 16)) (chunk bytes 17 32)))
    else if op == op_lock
    then (do
      require (length bytes == 49) Error.zero
      ok (lock (from_le_bytes (chunk bytes 1 16)) (chunk bytes 17 32)))
    else if op == op_harvest_rate
    then (do require (length bytes == 1) Error.zero; ok harvest_rate)
    else if op == op_harvest_other
    then (do require (length bytes == 33) Error.zero; ok (harvest_other (chunk bytes 1 32)))
    else if op == op_halt
    then (do require (length bytes == 1) Error.zero; ok halt)
    else if op == op_lz_receive
    then err lz_only
    else err Error.zero

unfoldable pub decode : Bytes → Result Ix
decode [] = err Error.zero
decode (op ∷ rest) = decode_op op (op ∷ rest)

unfoldable pub require_evm_peer : Bytes → Result (Unit {0})
require_evm_peer peer =
    require (not (not (eq_bytes (take 12 peer) (zeros 12)) || eq_bytes (drop 12 peer) (zeros 20)))
      bad_peer

unfoldable pub require_solana_peer : Bytes → Result (Unit {0})
require_solana_peer peer =
    require (not (eq_bytes peer (zeros 32) || eq_bytes (take 12 peer) (zeros 12))) bad_peer
