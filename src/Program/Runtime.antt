-- ===== src/Program/Runtime.antt =====
-- What the program takes from outside: the SPL token program, the LayerZero endpoint and its
-- option helpers, the derivation of associated token addresses, and the program ids. The laws of
-- `transfer` are what the SPL token program documents of a transfer between two accounts.
use hyper_leaf.Common.{ℕ, ◌+◌, ◌≡◌, ◌≢◌, Option, some, Bool, List}
use hyper_leaf.Bytes.{Bytes}
use hyper_leaf.Program.State.{Pubkey}

-- An account of which the program reads the key, the owning program and the data.
pub record AccountInfo : Type 0 where
  pub key : Pubkey
  pub owner : Pubkey
  pub bytes : Bytes

-- The fields of an SPL token account that the program reads.
pub record TokenAccount : Type 0 where
  pub mint : Pubkey
  pub owner : Pubkey
  pub amount : ℕ

pub record SendParams : Type 0 where
  pub dst_eid : ℕ
  pub receiver : Bytes
  pub message : Bytes
  pub options : Bytes
  pub native_fee : ℕ
  pub lz_token_fee : ℕ

pub record ClearParams : Type 0 where
  pub receiver : Pubkey
  pub src_eid : ℕ
  pub sender : Bytes
  pub nonce : ℕ
  pub guid : Bytes
  pub message : Bytes

pub record QuoteParams : Type 0 where
  pub sender : Pubkey
  pub dst_eid : ℕ
  pub receiver : Bytes
  pub message : Bytes
  pub pay_in_lz_token : Bool
  pub options : Bytes

-- An account in the list that an executor is given: where it is found, and whether it is written.
pub record AccountMetaRef (Locator : Type 0) : Type 0 where
  pub pubkey : Locator
  pub is_writable : Bool

pub record Runtime : Type 1 where
  pub Tokens : Type 0
  pub token : Tokens → Pubkey → TokenAccount
  pub transfer : Tokens → Pubkey → Pubkey → Pubkey → ℕ → Option Tokens
  pub transfer_from :
      (t : Tokens) (from to authority : Pubkey) (n : ℕ) (t' : Tokens)
      → from ≢ to
      → transfer t from to authority n ≡ some t'
      → (token t' from).amount + n ≡ (token t from).amount
  pub transfer_to :
      (t : Tokens) (from to authority : Pubkey) (n : ℕ) (t' : Tokens)
      → from ≢ to
      → transfer t from to authority n ≡ some t'
      → (token t' to).amount ≡ (token t to).amount + n
  pub transfer_other :
      (t : Tokens) (from to authority : Pubkey) (n : ℕ) (t' : Tokens) (k : Pubkey)
      → k ≢ from
      → k ≢ to
      → transfer t from to authority n ≡ some t'
      → (token t' k).amount ≡ (token t k).amount
  -- `CreateIdempotent` of the associated token program, for a wallet and a mint.
  pub create_ata : Tokens → Pubkey → Pubkey → Pubkey → Option Tokens
  pub create_ata_keeps :
      (t : Tokens) (ata wallet mint : Pubkey) (t' : Tokens) (k : Pubkey)
      → create_ata t ata wallet mint ≡ some t'
      → (token t' k).amount ≡ (token t k).amount
  -- A token account as raw account data.
  pub info : Tokens → Pubkey → AccountInfo
  pub Endpoint : Type 0
  pub register_oapp : Endpoint → Pubkey → Option Endpoint
  pub send : Endpoint → SendParams → Option Endpoint
  pub clear : Endpoint → ClearParams → Option Endpoint
  pub clear_min_accounts : ℕ
  pub quote : Endpoint → QuoteParams → Option (ℕ × ℕ)
  -- The addresses in an executor's list, the accounts that `clear` takes, and the list made compact
  -- by lookup tables.
  pub Locator : Type 0
  pub payer_locator : Locator
  pub address_locator : Pubkey → Locator
  pub accounts_for_clear : Pubkey → ℕ → Bytes → ℕ → List (AccountMetaRef Locator)
  pub CompactAccounts : Type 0
  pub compact_accounts : List Pubkey → List (AccountMetaRef Locator) → Option CompactAccounts
  pub execution_context_version : ℕ
  pub lz_receive_types_version : ℕ
  -- The address of the peer account of an endpoint id.
  pub peer_key : ℕ → Pubkey
  pub combine_options : Bytes → Bytes → Option Bytes
  pub assert_type_3 : Bytes → Option (Unit {0})
  pub find_ata : Pubkey → Pubkey → Pubkey
  pub store_key : Pubkey
  pub endpoint_id : Pubkey
  pub token_program_id : Pubkey
  pub associated_token_program_id : Pubkey
  pub system_program_id : Pubkey
