-- ===== src/Program/Options.antt =====
-- `EnforcedOptions::combine_options` of state/peer_config.rs, over the helper of the endpoint's
-- library.
use hyper_leaf.Common.{Option, some, none}
use hyper_leaf.Bytes.{Bytes}
use hyper_leaf.Program.State.{EnforcedOptions}
use hyper_leaf.Program.Runtime.{Runtime}
use hyper_leaf.Program.Errors.{Reply, answered}

-- The enforced options of a message, by whether it composes a call.
unfoldable enforced_for : EnforcedOptions → Option Bytes → Bytes
enforced_for options none = options.send
enforced_for options (some _) = options.send_and_call

unfoldable pub combine_options :
    (rt : Runtime) → EnforcedOptions → Option Bytes → Bytes → Reply Bytes
unfolding enforced_for
combine_options rt options compose_msg extra_options =
    answered (rt.combine_options (enforced_for options compose_msg) extra_options)
