-- ===== src/Program.antt =====
-- The Anchor program under solana/leaf-jito/programs/leaf_jito/src: its errors, its accounts, what
-- it takes from outside, and one module for each instruction.
pub mod Errors
pub mod Calm
pub mod Runtime
pub mod State
pub mod Pool
pub mod MsgCodec
pub mod World
pub mod HarvestRate
pub mod Lock
pub mod LzReceive
pub mod Halt
pub mod SetPeerConfig
pub mod SetHarvestOtherDest
pub mod InitStore
pub mod HarvestOther
pub mod Safe
pub mod Trace
pub mod Examples
pub mod Options
pub mod QuoteLock
pub mod TypesInfo
pub mod TypesV2
pub mod Entry
pub mod LifeCycle
