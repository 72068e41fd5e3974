-- ===== src/Program/Calm.antt =====
-- Panics of the steps that instructions share: the checks, the readings and the transfers.
use hyper_leaf.Common.{
  ℕ, ◌*◌, ◌<◌, ◌≡◌, ◌≢◌, refl, arith, Bool, true, false, Option, String, if◌then◌else◌, none, some,
  length, ◌==◌, ltb,
}
use hyper_leaf.Bytes.{Bytes, eq_bytes}
use hyper_leaf.Outcome
use hyper_leaf.Outcome.{Result, Error, u128_size, u64_size}
use hyper_leaf.Bridge.{decode_bridge}
use hyper_leaf.Ix.{require_solana_peer, require_evm_peer}
use hyper_leaf.StakePool
use hyper_leaf.TokenAccount
use hyper_leaf.Lockbox as Box
use hyper_leaf.Lockbox.{Lockbox}
use hyper_leaf.Lockbox.Outcomes.{FailsWith}
use hyper_leaf.Program.State.{Pubkey, EnforcedOptions}
use hyper_leaf.Program.Runtime.{Runtime, AccountInfo}
use hyper_leaf.Program.Pool.{read_jito_rate, require_token_account}
use hyper_leaf.Program.MsgCodec
use hyper_leaf.Program.Options.{combine_options}
use hyper_leaf.Program.Errors.{
  LeafJitoError, Reply, done, fail, refused, aborted, require, answered, from_result, ◌>>=◌, ◌>>◌,
}
use hyper_leaf.Program.World.{outcome, transfer_u64, transfer_fee, create_ata_idempotent}

abbrev pub Calm : {A : Type 0} → Reply A → Type 0
Calm r = r ≢ aborted

abbrev pub Any : Error → Type 0
Any e = Unit {0}

-- Not a panic, whatever the error.
pub weaken : {A : Type 0} (P : Error → Type 0) (r : Result A) → FailsWith P r → FailsWith Any r
weaken P (Result.ok a) h = tt
weaken P (Result.err e) h = tt
weaken P Result.panic h = h

pub done-Calm : {A : Type 0} (a : A) → Calm (done a)
done-Calm a = λ e. cc

pub >>=-Calm :
    {S T : Type 0} (m : Reply S) (next : S → Reply T)
    → Calm m
    → ((s : S) → m ≡ done s → Calm (next s))
    → Calm (m >>= next)
>>=-Calm (done s) next calm after = after s refl
>>=-Calm (fail _) next calm after = λ e. cc
>>=-Calm refused next calm after = λ e. cc
>>=-Calm aborted next calm after = λ e. calm refl

pub require-Calm :
    {T : Type 0} (t : Bool) (e : LeafJitoError) (next : Reply T)
    → (t ≡ true → Calm next)
    → Calm (require t e >> next)
require-Calm true e next after = after refl
require-Calm false e next after = λ e. cc

pub answered-Calm : {A : Type 0} (o : Option A) → Calm (answered o)
answered-Calm (some a) = λ e. cc
answered-Calm none = λ e. cc

pub outcome-Calm :
    {A : Type 0} (P : Error → Type 0) (end : Result A × Lockbox)
    → FailsWith P end.0
    → Calm (outcome end)
unfolding outcome
outcome-Calm P (Outcome.ok a, b) h = λ e. cc
outcome-Calm P (Outcome.err _, b) h = λ e. cc
outcome-Calm P (Outcome.panic, b) h = λ e. h

pub from_result-Calm :
    {A : Type 0} (P : Error → Type 0) (r : Result A) → FailsWith P r → Calm (from_result r)
from_result-Calm P (Outcome.ok a) h = λ e. cc
from_result-Calm P (Outcome.err _) h = λ e. cc
from_result-Calm P Outcome.panic h = λ e. h

pub read_jito_rate-Calm : (pool : AccountInfo) → Calm (read_jito_rate pool)
unfolding read_jito_rate StakePool.parse_pool
read_jito_rate-Calm pool = ground arith

pub require_token_account-Calm :
    (program : Pubkey) (ata : AccountInfo) (mint owner : Pubkey)
    → Calm (require_token_account program ata mint owner)
unfolding require_token_account TokenAccount.parse
require_token_account-Calm program ata mint owner = ground arith

pub decode-Calm : (message : Bytes) → Calm (MsgCodec.decode message)
unfolding MsgCodec.decode
decode-Calm message = go (length message == 96) (decode_bridge message)
  where
    go :
        (t : Bool) (m : Option (Bytes × Bytes × ℕ))
        → Calm (
            require t LeafJitoError.invalid_message
            >> elim m [ some x ↦ done x | none ↦ fail LeafJitoError.invalid_message ])
    go true (some x) = λ e. cc
    go true none = λ e. cc
    go false m = λ e. cc

pub solana_peer-Calm : (peer : Bytes) → Calm (from_result (require_solana_peer peer))
unfolding require_solana_peer
solana_peer-Calm peer = ground arith

pub evm_peer-Calm : (peer : Bytes) → Calm (from_result (require_evm_peer peer))
unfolding require_evm_peer
evm_peer-Calm peer = ground arith

pub side_mint-Calm : (mint : String) → Calm (from_result (Box.harvest_other mint))
unfolding Box.harvest_other
side_mint-Calm mint = ground arith

pub program_check-Calm : (same : Bool) → Calm {A = Unit {0}} (if same then done tt else refused)
program_check-Calm true = done-Calm tt
program_check-Calm false = λ e. cc

pub side_amount-Calm :
    (atoms : ℕ) → atoms * 100 < u128_size → Calm (from_result (Box.harvest_other_amount atoms))
unfolding Box.harvest_other_amount
side_amount-Calm atoms fits = ground arith

module _ (rt : Runtime) where
  pub transfer_u64-Calm :
      (t : rt.Tokens) (from to authority : Pubkey) (n : ℕ)
      → Calm (transfer_u64 rt t from to authority n)
  unfolding transfer_u64
  transfer_u64-Calm t from to authority n =
      require-Calm (ltb n u64_size) _ _ (λ small. answered-Calm (rt.transfer t from to authority n))

  pub transfer_fee-Calm :
      (t : rt.Tokens) (from to : Pubkey) (n : ℕ) → Calm (transfer_fee rt t from to n)
  unfolding transfer_fee
  transfer_fee-Calm t from to n = ground (arith, transfer_u64-Calm t from to rt.store_key n)

  pub create_ata-Calm :
      (t : rt.Tokens) (ata authority mint program : Pubkey)
      → Calm (create_ata_idempotent rt t ata authority mint program)
  unfolding create_ata_idempotent
  create_ata-Calm t ata authority mint program =
      require-Calm (eq_bytes program rt.associated_token_program_id) _ _
        (λ same. answered-Calm (rt.create_ata t ata authority mint))

  pub combine_options-Calm :
      (options : EnforcedOptions) (compose : Option Bytes) (extra : Bytes)
      → Calm (combine_options rt options compose extra)
  unfolding combine_options
  combine_options-Calm options compose extra = answered-Calm _
