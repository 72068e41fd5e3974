-- ===== src/Program/Halt.antt =====
-- instructions/halt.rs: the admin stops deposits.
use hyper_leaf.Bytes.{eq_bytes}
use hyper_leaf.Lockbox
use hyper_leaf.Program.State.{Pubkey, apply_lockbox}
use hyper_leaf.Program.Runtime.{Runtime}
use hyper_leaf.Program.Errors.{Reply, done, unauthorized, require, ◌>>=◌, ◌>>◌}
use hyper_leaf.Program.World.{World, run_box}

-- `admin` has signed.
unfoldable pub handle : (rt : Runtime) → Pubkey → World rt → Reply (World rt)
handle rt admin w = do
  require (eq_bytes admin w.store.admin) unauthorized
  (_, box) ← run_box Lockbox.halt w.store
  done (record w { store = apply_lockbox box w.store })
