-- ===== src/Program/QuoteLock.antt =====
-- instructions/quote_lock.rs: what the endpoint asks for the message of a lock.
pub mod Provisional
use hyper_leaf.Common.{ℕ, ◌*◌, ◌-◌, Bool, Option, none, ltb, ◌==◌, if◌then◌else◌}
use hyper_leaf.Bytes.{Bytes}
use hyper_leaf.Outcome.{u128_size}
use hyper_leaf.Rate.{listing_tag, share_scale}
use hyper_leaf.Ix
use hyper_leaf.Program.Runtime.{Runtime}
use hyper_leaf.Program.MsgCodec
use hyper_leaf.Program.Options.{combine_options}
use hyper_leaf.Program.Errors.{Reply, bad_eid, require, answered, ◌>>=◌, ◌>>◌}
use hyper_leaf.Program.World.{World}

pub record QuoteLockParams : Type 0 where
  pub dst_eid : ℕ
  pub receiver : Bytes
  pub atoms : ℕ
  pub evm_to : Bytes
  pub options : Bytes
  pub pay_in_lz_token : Bool

-- `a.saturating_mul(b)` on u128
unfoldable pub saturating_mul : ℕ → ℕ → ℕ
saturating_mul a b = if ltb (a * b) u128_size then a * b else u128_size - 1

-- The message that is quoted: its amount is a placeholder.
unfoldable pub provisional : QuoteLockParams → Bytes
unfolding saturating_mul
provisional params =
    MsgCodec.encode listing_tag params.evm_to (saturating_mul params.atoms share_scale)

-- The fee in the native token and in the endpoint's token.
unfoldable pub handle : (rt : Runtime) → QuoteLockParams → World rt → Reply (ℕ × ℕ)
handle rt params w = do
  peer ← answered (w.peers params.dst_eid)
  require (params.dst_eid == Ix.dest_eid) bad_eid
  options ← combine_options rt peer.enforced_options none params.options
  answered (
      rt.quote w.endpoint (record {
        sender = rt.store_key;
        dst_eid = params.dst_eid;
        receiver = params.receiver;
        message = provisional params;
        pay_in_lz_token = params.pay_in_lz_token;
        options = options;
      }))
