-- ===== src/Bridge/Examples.antt =====
-- A message of the bridge, byte for byte.
use hyper_leaf.Common.{◌≡◌, ◌<◌, refl, arith, some, replicate, All}
use hyper_leaf.Bytes.{
  Bytes, IsByte, IsArray, are_bytes, are_bytes-IsByte, write_all, copy_at, be_bytes, le_bytes,
}
use hyper_leaf.Outcome.{u128_size}
use hyper_leaf.Rate.{listing_tag}
use hyper_leaf.Bridge.{amount_word, encode_bridge, decode_bridge}
use hyper_leaf.Bridge.RoundTrip.{decode_bridge-encode_bridge, encode_bridge-decode_bridge}

abbrev recipient : Bytes
recipient = replicate 32 0x11

abbrev message : Bytes
message = encode_bridge listing_tag recipient 1_000_000

decode_bridge-encode_bridge_example :
    decode_bridge (encode_bridge listing_tag recipient 1_000_000)
    ≡ some (listing_tag, recipient, 1_000_000)
decode_bridge-encode_bridge_example =
    decode_bridge-encode_bridge listing_tag recipient 1_000_000 refl refl (ground arith)

message_bytes : All IsByte message
unfolding are_bytes encode_bridge amount_word write_all copy_at be_bytes le_bytes
message_bytes = are_bytes-IsByte message refl

encode_bridge-decode_bridge_example :
    IsArray 32 listing_tag
    × IsArray 32 recipient
    × (1_000_000 < u128_size)
    × (encode_bridge listing_tag recipient 1_000_000 ≡ message)
encode_bridge-decode_bridge_example =
    encode_bridge-decode_bridge message listing_tag recipient 1_000_000 message_bytes
      decode_bridge-encode_bridge_example
