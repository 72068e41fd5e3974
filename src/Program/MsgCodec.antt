-- ===== src/Program/MsgCodec.antt =====
-- msg_codec.rs: the bridge message behind the program's errors.
use hyper_leaf.Common.{ℕ, none, some, length, ◌==◌}
use hyper_leaf.Bytes.{Bytes}
use hyper_leaf.Bridge.{encode_bridge, decode_bridge}
use hyper_leaf.Program.Errors.{Reply, done, fail, invalid_message, require, ◌>>◌}

unfoldable pub encode : Bytes → Bytes → ℕ → Bytes
encode tag to shares = encode_bridge tag to shares

unfoldable pub decode : Bytes → Reply (Bytes × Bytes × ℕ)
decode message = do
  require (length message == 96) invalid_message
  elim (decode_bridge message) [ some m ↦ done m | none ↦ fail invalid_message ]
