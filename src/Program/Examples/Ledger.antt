-- ===== src/Program/Examples/Ledger.antt =====
-- A concrete runtime: token accounts in a function of their keys, an endpoint that lists what it
-- was sent, and no options of its own.
use hyper_leaf.Common.{
  ℕ, ◌+◌, ◌-◌, ◌≤◌, ◌≡◌, ◌≢◌, refl, ap, sym, arith, false, Option, none, some, ltb, if◌then◌else◌,
  List, [], ◌∷◌, ◌++◌, replicate,
}
use hyper_leaf.Bytes.{Bytes, zeros, eq_bytes, eq_bytes-ne, eq_bytes_refl}
use hyper_leaf.TokenAccount
use hyper_leaf.Program.State.{Pubkey}
use hyper_leaf.Program.Runtime.{Runtime, AccountMetaRef, TokenAccount}

abbrev pub Accounts : Type 0
Accounts = Pubkey → TokenAccount

-- The account of one key with another amount.
unfoldable pub with_amount : Pubkey → ℕ → Accounts → Accounts
with_amount key n t k = if eq_bytes k key then (record (t k) { amount = n }) else t k

unfoldable pub move_amount : Accounts → Pubkey → Pubkey → Pubkey → ℕ → Option Accounts
unfolding with_amount
move_amount t from to authority n =
    if ltb (t from).amount n
    then none
    else if eq_bytes (t from).owner authority
    then (let less = with_amount from ((t from).amount - n) t in
        some (with_amount to ((less to).amount + n) less))
    else none

amount_here : (key : Pubkey) (n : ℕ) (t : Accounts) → (with_amount key n t key).amount ≡ n
unfolding with_amount
amount_here key n t = rw (eq_bytes_refl key) refl

amount_there :
    (key k : Pubkey) (n : ℕ) (t : Accounts)
    → k ≢ key
    → (with_amount key n t k).amount ≡ (t k).amount
unfolding with_amount
amount_there key k n t ne = rw ((eq_bytes-ne k key).1 ne) refl

-- What a movement that is carried out has done.
pub moved :
    (t : Accounts) (from to authority : Pubkey) (n : ℕ) (t' : Accounts)
    → move_amount t from to authority n ≡ some t'
    → (n ≤ (t from).amount)
      × (t'
          ≡ with_amount to
              ((with_amount from ((t from).amount - n) t to).amount + n)
              (with_amount from ((t from).amount - n) t))
unfolding move_amount
moved t from to authority n t' h = ground arith

pub moved_from :
    (t : Accounts) (from to authority : Pubkey) (n : ℕ) (t' : Accounts)
    → from ≢ to
    → move_amount t from to authority n ≡ some t'
    → (t' from).amount + n ≡ (t from).amount
moved_from t from to authority n t' ne h =
    let (enough, result) = moved t from to authority n t' h in
    let left = (t from).amount - n in
    let less = with_amount from left t in
    let at_from = ap (λ (f : Accounts). (f from).amount) result in
    omega (
      arith,
      enough,
      at_from,
      amount_there to from ((less to).amount + n) less ne,
      amount_here from left t,
    )

pub moved_to :
    (t : Accounts) (from to authority : Pubkey) (n : ℕ) (t' : Accounts)
    → from ≢ to
    → move_amount t from to authority n ≡ some t'
    → (t' to).amount ≡ (t to).amount + n
moved_to t from to authority n t' ne h =
    let (enough, result) = moved t from to authority n t' h in
    let left = (t from).amount - n in
    let less = with_amount from left t in
    let at_to = ap (λ (f : Accounts). (f to).amount) result in
    omega (
      arith,
      at_to,
      amount_here to ((less to).amount + n) less,
      amount_there from to left t (λ e. ne (sym e)),
    )

pub moved_other :
    (t : Accounts) (from to authority : Pubkey) (n : ℕ) (t' : Accounts) (k : Pubkey)
    → k ≢ from
    → k ≢ to
    → move_amount t from to authority n ≡ some t'
    → (t' k).amount ≡ (t k).amount
moved_other t from to authority n t' k f g h =
    let (enough, result) = moved t from to authority n t' h in
    let left = (t from).amount - n in
    let less = with_amount from left t in
    let at_k = ap (λ (x : Accounts). (x k).amount) result in
    omega
      (arith, at_k, amount_there to k ((less to).amount + n) less g, amount_there from k left t f)

pub created_same :
    (t : Accounts) (ata wallet mint : Pubkey) (t' : Accounts) (k : Pubkey)
    → some t ≡ some t'
    → (t' k).amount ≡ (t k).amount
created_same t ata wallet mint t' k h =
    let same : t ≡ t' = cc in ap (λ (x : Accounts). (x k).amount) (sym same)

abbrev pub store_address : Pubkey
store_address = replicate 32 7

abbrev pub token_program : Pubkey
token_program = replicate 32 6

abbrev pub ata_program : Pubkey
ata_program = replicate 32 5

-- The associated account of a wallet, here told apart by the first byte of the wallet alone.
abbrev pub ata_of : Pubkey → Pubkey → Pubkey
ata_of wallet mint = 99 ∷ wallet

abbrev pub ledger : Runtime
ledger = record {
  Tokens = Accounts;
  token = λ t k. t k;
  transfer = move_amount;
  transfer_from = moved_from;
  transfer_to = moved_to;
  transfer_other = moved_other;
  create_ata = λ t ata wallet mint. some t;
  create_ata_keeps = created_same;
  info = λ t k. record {
    key = k;
    owner = token_program;
    bytes = TokenAccount.encode (t k).mint (t k).owner (t k).amount;
  };
  Endpoint = List Bytes;
  register_oapp = λ e delegate. some e;
  send = λ e params. some (params.message ∷ e);
  clear = λ e params. some e;
  clear_min_accounts = 8;
  quote = λ e params. some (1, 0);
  Locator = List ℕ;
  payer_locator = [];
  address_locator = λ k. k;
  accounts_for_clear = λ key eid sender nonce. record { pubkey = key; is_writable = false } ∷ [];
  CompactAccounts = List (AccountMetaRef (List ℕ));
  compact_accounts = λ alts refs. some refs;
  execution_context_version = 1;
  lz_receive_types_version = 2;
  peer_key = λ eid. 98 ∷ eid ∷ [];
  combine_options = λ enforced extra. some (enforced ++ extra);
  assert_type_3 = λ options. some tt;
  find_ata = ata_of;
  store_key = store_address;
  endpoint_id = replicate 32 4;
  token_program_id = token_program;
  associated_token_program_id = ata_program;
  system_program_id = zeros 32;
}
