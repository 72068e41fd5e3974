-- ===== src/Program/SetHarvestOtherDest.antt =====
-- instructions/set_harvest_other_dest.rs: the admin registers where a side token goes.
use hyper_leaf.Common.{ℕ, Option, some, not, if◌then◌else◌}
use hyper_leaf.Bytes.{eq_bytes}
use hyper_leaf.Program.State.{Pubkey, SideDest}
use hyper_leaf.Program.Runtime.{Runtime}
use hyper_leaf.Program.Pool.{jito_mint_pubkey}
use hyper_leaf.Program.Errors.{Reply, done, unauthorized, harvest_inner, require, ◌>>◌}
use hyper_leaf.Program.World.{World}

pub record SetHarvestOtherDestParams : Type 0 where
  pub mint : Pubkey
  pub fee_owner : Pubkey
  pub rest_owner : Pubkey

unfoldable pub set_dest_at :
    Pubkey → SideDest → (Pubkey → Option SideDest) → Pubkey → Option SideDest
set_dest_at mint dest dests other = if eq_bytes other mint then some dest else dests other

-- `admin` has signed; `bump` is the one that the account's address was derived with. Anchor makes
-- an account that is missing before it compares the signer: the making is taken to succeed, and a
-- failure of either undoes the transaction.
unfoldable pub handle :
    (rt : Runtime) → Pubkey → ℕ → SetHarvestOtherDestParams → World rt → Reply (World rt)
handle rt admin bump params w = do
  require (eq_bytes admin w.store.admin) unauthorized
  require (not (eq_bytes params.mint jito_mint_pubkey)) harvest_inner
  done (record w {
    side_dests =
        set_dest_at params.mint
          (record {
            mint = params.mint;
            fee_owner = params.fee_owner;
            rest_owner = params.rest_owner;
            bump = bump;
          })
          w.side_dests;
  })
