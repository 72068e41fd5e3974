-- ===== src/Program/TypesInfo.antt =====
-- instructions/lz_receive_types_info.rs: which accounts an executor needs to ask for the list.
use hyper_leaf.Common.{ℕ, List, [], ◌∷◌, if◌then◌else◌}
use hyper_leaf.Bytes.{eq_bytes, zeros}
use hyper_leaf.Program.State.{Pubkey, LzReceiveTypesAccounts}
use hyper_leaf.Program.Runtime.{Runtime}

-- The version, and the store with its lookup table if there is one.
unfoldable pub handle : Runtime → LzReceiveTypesAccounts → ℕ × List Pubkey
handle rt r = (
  rt.lz_receive_types_version,
  if eq_bytes r.alt (zeros 32) then r.store ∷ [] else r.store ∷ r.alt ∷ [],
)
