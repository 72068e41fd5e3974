-- ===== src/Ix/Examples.antt =====
-- Instructions and peers, after the tests of solana/leaf-jito-rate/src/ix.rs.
use hyper_leaf.Common.{◌≡◌, refl, arith, All, replicate, false, ◌++◌}
use hyper_leaf.Bytes.{Bytes, IsByte, zeros, eq_bytes, are_bytes, are_bytes-IsByte, le_bytes}
use hyper_leaf.Outcome.{ok}
use hyper_leaf.Rate.{listing_tag, rate, book_retain_fee, shares_from_atoms}
use hyper_leaf.Bridge.{encode_bridge}
use hyper_leaf.Lockbox
use hyper_leaf.Lockbox.{Lockbox}
use hyper_leaf.Ix.{lock, encode, decode}
use hyper_leaf.Ix.RoundTrip.{IsIx, decode-encode, encode-decode}
use hyper_leaf.Ix.Payload.{lock_payload}

abbrev evm_address : Bytes
evm_address = zeros 12 ++ replicate 20 0x22

evm_address_bytes : All IsByte evm_address
unfolding are_bytes
evm_address_bytes = are_bytes-IsByte evm_address refl

decode-encode_example : decode (encode (lock 77 evm_address)) ≡ ok (lock 77 evm_address)
decode-encode_example =
    decode-encode (lock 77 evm_address) (ground arith, (refl, evm_address_bytes))

abbrev wire : Bytes
wire = encode (lock 77 evm_address)

wire_bytes : All IsByte wire
unfolding are_bytes encode le_bytes
wire_bytes = are_bytes-IsByte wire refl

encode-decode_example : IsIx (lock 77 evm_address) × (encode (lock 77 evm_address) ≡ wire)
encode-decode_example = encode-decode wire (lock 77 evm_address) wire_bytes decode-encode_example

abbrev message : Bytes
message = encode_bridge listing_tag evm_address 5_000_000_000_000

abbrev deposited : Lockbox
deposited = record {
  last_accounted = 5_000;
  last_rate = 1_000_000_000_000_000_000;
  total_shares = 5_000_000_000_000;
  deposit_cap_atoms = 0;
  escrow_atoms = 5_000;
  harvest_atoms = 0;
  halted = false;
}

payload_run :
    lock_payload listing_tag evm_address 5_000 7 7 (Lockbox.new 0)
    ≡ (ok (message, 5_000_000_000_000), deposited)
unfolding lock_payload Lockbox.new Lockbox.lock Lockbox.mint Lockbox.harvest_rate Lockbox.settle
    rate book_retain_fee shares_from_atoms eq_bytes
payload_run = refl
