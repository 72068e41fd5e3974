-- ===== src/Lib.antt =====
-- The Solana side of HyperLeaf: a lockbox that takes JitoSOL, mints shares on HyperEVM over
-- LayerZero, keeps one percent of the yield, and pays out against shares that come back.
--
-- The parts. The crate solana/leaf-jito-rate/src holds the arithmetic (lib.rs), the state machine
-- of the lockbox (lockbox.rs), the byte layouts (store.rs, stake_pool.rs, token.rs) and the codec
-- of instructions and payloads (ix.rs). The Anchor program in
-- solana/leaf-jito/programs/leaf_jito/src keeps a store account with the counters of the lockbox.
-- An instruction copies them into a lockbox (`Store::lockbox`), calls a method of the crate, writes
-- them back (`Store::apply_lockbox`) and moves the tokens that the books say.
--
-- The files.
--   Common, Bytes         tests on numbers, lists, quotients; byte arrays and slices
--   Outcome               `Result` with the crate's `Error` and panics; u64 and u128 arithmetic
--   Rate                  lib.rs: rate, shares_from_atoms, atoms_from_shares, book_retain_fee
--   Bridge                lib.rs: encode_bridge, decode_bridge
--   Lockbox               lockbox.rs; Lockbox/Monad has its state and its actions, the other files
--                         below it are about what the methods do
--   Lockbox/Vault         an abstract vault as the contract of lockbox.rs: relations on unbounded
--                         numbers with floors said by inequalities, without the escrow
--   StakePool, TokenAccount, NativeStore, Ix
--                         stake_pool.rs, token.rs, store.rs, ix.rs
--   Program/Errors, State, Pool, MsgCodec
--                         errors.rs, state/, pool.rs, msg_codec.rs of the Anchor program
--   Program/Runtime       what the program takes from outside
--   Program/World         the accounts that instructions read and write, and their shared steps
--   Program/HarvestRate, Lock, LzReceive, Halt, SetPeerConfig, SetHarvestOtherDest, InitStore,
--   HarvestOther          the instructions: `handle` is the constraints on the accounts followed by
--                         the `apply` of the source
--   Program/Options       `combine_options` of state/peer_config.rs
--   Program/QuoteLock, TypesInfo, TypesV2
--                         the read-only instructions quote_lock.rs, lz_receive_types_info.rs and
--                         lz_receive_types_v2.rs
--   Program/Entry         lib.rs: the entry points on an existing store, and transactions of them
--   Program/Calm          the steps that instructions share, and their panics
--   Program/LifeCycle     lib.rs: all entry points, from before the store exists
--   Program/Safe          the states in which the books are backed
--   Program/Trace         histories of the program, from any safe state and from `init_store`
--   Examples              runs on concrete inputs
--
-- How the code is modelled. A `&mut self` method is a function from the fields to a result and
-- the fields as it left them, also when it fails. A result is a value, an `Error` or a panic:
-- the workspace sets overflow-checks, so that an unchecked sum or product that leaves u128
-- panics, while a checked one gives the error of the source. Numbers are natural numbers; bytes
-- are numbers below 256, and arrays are lists, with the range of a slice written out. The code
-- has no loops of its own, so that no fuel is needed.
-- An instruction of the program ends with a value, an error of its own, an error of a program
-- that it calls, or a panic; all but the first undo the transaction. Accounts at addresses
-- derived from seeds are found by their seeds.
--
-- Parameters. `Runtime` holds the SPL token program, the associated token program, the LayerZero
-- endpoint with its option helpers, the lists of accounts that its library makes for an executor,
-- the derivation of associated token and peer addresses, and program ids. Its laws are that a
-- transfer between two different accounts takes the amount from one, adds it to the other and
-- leaves the rest, and that the creation of an associated account changes no balance. Which
-- transfers the token program carries out is a parameter of its own, `Payments` of
-- Program/World/Payments, used where an instruction is shown to go through. The printing of a key
-- in base 58 is a parameter of `harvest_other`.
--
-- Not modelled: Anchor's decoding of instruction data and account serialisation, its checks of
-- the owner and the type of an account, the rent of the accounts that it makes, the copy of the
-- crate under solana/leaf-jito/leaf-jito-rate, which is the same code, and everything outside
-- the Rust code: the Solidity contracts under src/, the keeper, the scripts and the documents.
pub mod Common
pub mod Bytes
pub mod Outcome
pub mod Rate
pub mod Bridge
pub mod Lockbox
pub mod StakePool
pub mod TokenAccount
pub mod Ix
pub mod NativeStore
pub mod Program
