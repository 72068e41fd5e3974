-- ===== src/Program/QuoteLock/Provisional.antt =====
-- The message that is quoted against the message that a lock sends.
use hyper_leaf.Common.{
  ℕ, ◌*◌, ◌<◌, ◌≡◌, ◌≢◌, ◌⊎◌, inl, inr, refl, sym, ap, ap₂, subst, ==_iff, ◌∙◌, arith, none, some,
  length, ◌==◌,
}
use hyper_leaf.Bytes.{Bytes}
use hyper_leaf.Outcome.{ok, u128_size}
use hyper_leaf.Rate.{listing_tag, share_scale}
use hyper_leaf.Bridge.{decode_bridge}
use hyper_leaf.Bridge.RoundTrip.{length-encode_bridge, decode_bridge-encode_bridge}
use hyper_leaf.Ix
use hyper_leaf.Lockbox as Box
use hyper_leaf.Lockbox.Lock.{lock-Locked}
use hyper_leaf.Program.State.{PeerConfig, lockbox}
use hyper_leaf.Program.Runtime.{Runtime}
use hyper_leaf.Program.MsgCodec
use hyper_leaf.Program.Options.{combine_options}
use hyper_leaf.Program.Errors.{
  done, bad_eid, answered, >>=-eq-done, require-eq-done, done-injective,
}
use hyper_leaf.Program.World.{World}
use hyper_leaf.Program.World.Moves.{answered-eq-done}
use hyper_leaf.Program.Lock
use hyper_leaf.Program.Lock.{Lock, LockParams}
use hyper_leaf.Program.Lock.Bridged.{Bridged, handle-Bridged}
use hyper_leaf.Program.QuoteLock.{QuoteLockParams, saturating_mul, provisional, handle}

some-injective : {A : Type 0} {a b : A} → some a ≡ some b → a ≡ b
some-injective h = cc

saturating_mul-lt : (a b : ℕ) → saturating_mul a b < u128_size
unfolding saturating_mul
saturating_mul-lt a b = ground arith

-- The product itself, where it fits.
saturating_mul_fits : (a b : ℕ) → a * b < u128_size → saturating_mul a b ≡ a * b
unfolding saturating_mul
saturating_mul_fits a b h = ground arith

provisional_says :
    (params : QuoteLockParams)
    → length params.evm_to ≡ 32
    → decode_bridge (provisional params)
      ≡ some (listing_tag, params.evm_to, saturating_mul params.atoms share_scale)
unfolding provisional MsgCodec.encode
provisional_says params wide =
    decode_bridge-encode_bridge listing_tag params.evm_to (saturating_mul params.atoms share_scale)
      refl wide (saturating_mul-lt params.atoms share_scale)

-- What was quoted, beside what was sent for the same parameters: the same options, a message of
-- the same length with the same tag and recipient, and for the first deposit the same amount.
pub record Quoted (rt : Runtime) (q : QuoteLockParams) (w : World rt) (fee : ℕ × ℕ)
    (sent options : Bytes) (shares : ℕ) : Type 0 where
  pub destination : q.dst_eid ≡ Ix.dest_eid
  pub quoted :
      rt.quote w.endpoint (record {
        sender = rt.store_key;
        dst_eid = q.dst_eid;
        receiver = q.receiver;
        message = provisional q;
        pay_in_lz_token = q.pay_in_lz_token;
        options = options;
      })
      ≡ some fee
  pub size : length (provisional q) ≡ 96
  pub amount : ℕ
  pub says : decode_bridge (provisional q) ≡ some (listing_tag, q.evm_to, amount)
  pub sent_says : decode_bridge sent ≡ some (listing_tag, q.evm_to, shares)
  pub first : (0 < w.store.total_shares) ⊎ (amount ≡ shares)

length-provisional : (q : QuoteLockParams) → length q.evm_to ≡ 32 → length (provisional q) ≡ 96
unfolding provisional MsgCodec.encode
length-provisional q wide =
    length-encode_bridge listing_tag q.evm_to (saturating_mul q.atoms share_scale) refl wide

-- The shares of a first deposit.
first_shares :
    (atoms l s : ℕ) (b : Box.Lockbox) (shares fee : ℕ) (b' : Box.Lockbox)
    → Box.lock atoms l s b ≡ (ok (shares, fee), b')
    → (0 < b.total_shares) ⊎ (saturating_mul atoms share_scale ≡ shares)
first_shares atoms l s b shares fee b' h =
    let k = lock-Locked atoms l s b shares fee b' h in
    elim k.minted.price [
      | inl (none_yet, scaled) ↦
          let small : atoms * share_scale < u128_size =
            omega (arith, scaled, k.minted.fits, k.minted.total) in
          inr (saturating_mul_fits atoms share_scale small ∙ sym scaled)
      | inr (some_yet, _) ↦ inl (omega (arith, k.settled.shares, some_yet))
    ]

-- A quote and a lock of the same parameters in the same state, which both go through, agree on
-- what is priced: the endpoint was asked with the options with which the message is sent and with
-- a message of 96 bytes, with the same tag and recipient as the one sent; for the first deposit
-- the amount is the same too. It is assumed that the recipient has 32 bytes and that the user's
-- account and the harvest account are not the escrow account.
pub quote_lock-Quoted :
    (rt : Runtime) (accounts : Lock) (params : LockParams) (w w' : World rt) (q : QuoteLockParams)
    (fee : ℕ × ℕ)
    → length params.evm_to ≡ 32
    → accounts.user_ata ≢ w.store.escrow_ata
    → w.store.escrow_ata ≢ w.store.harvest_ata
    → q.dst_eid ≡ params.dst_eid
    → q.atoms ≡ params.atoms
    → q.evm_to ≡ params.evm_to
    → q.options ≡ params.options
    → Lock.handle rt accounts params w ≡ done w'
    → handle rt q w ≡ done fee
    → (k : Bridged rt accounts params w w') × Quoted rt q w fee k.message k.dispatched.options
        k.deposited.shares
unfolding handle lockbox
quote_lock-Quoted rt accounts params w w' q fee wide apart₁ apart₂ eid atoms to extra locked h =
    let k = handle-Bridged rt accounts params w w' wide apart₁ apart₂ locked in
    let d = k.deposited in
    let (peer, found, h1) = >>=-eq-done (answered (w.peers q.dst_eid)) _ h in
    let (there, h2) = require-eq-done (q.dst_eid == Ix.dest_eid) bad_eid _ h1 in
    let (options, combined, h3) =
      >>=-eq-done (combine_options rt peer.enforced_options none q.options) _ h2 in
    let same_peer : peer ≡ k.peer =
      some-injective
        (sym (answered-eq-done (w.peers q.dst_eid) found) ∙ ap w.peers eid ∙ k.found) in
    let same_options : options ≡ k.dispatched.options = done-injective (
      sym combined
      ∙ ap₂ (λ (p : PeerConfig) (o : Bytes). combine_options rt p.enforced_options none o) same_peer
          extra
      ∙ k.dispatched.combined) in
    let wide_too = ap length to ∙ wide in
    (
      k,
      record {
        destination = (==_iff q.dst_eid Ix.dest_eid).0 there;
        quoted =
            subst
              (λ o.
                rt.quote w.endpoint (record {
                  sender = rt.store_key;
                  dst_eid = q.dst_eid;
                  receiver = q.receiver;
                  message = provisional q;
                  pay_in_lz_token = q.pay_in_lz_token;
                  options = o;
                })
                ≡ some fee)
              same_options (answered-eq-done (rt.quote w.endpoint _) h3);
        size = length-provisional q wide_too;
        amount = saturating_mul q.atoms share_scale;
        says = provisional_says q wide_too;
        sent_says =
            subst (λ t. decode_bridge k.message ≡ some (listing_tag, t, d.shares)) (sym to) d.says;
        first =
            subst (λ n. (0 < w.store.total_shares) ⊎ (saturating_mul n share_scale ≡ d.shares))
              (sym atoms)
              (first_shares params.atoms d.lamports d.supply (lockbox w.store) d.shares d.fee
                (lockbox k.middle.store) d.locked);
      },
    )
