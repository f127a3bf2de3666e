-- ===== src/OpenOrders/Query.antt =====
-- Finding and loading open orders accounts: pyserum/open_orders_account.py, and
-- pyserum/async_open_orders_account.py, which differs by awaiting each call.
use pyserum.Base.{
  ℕ, ◌+◌, Bool, true, false, List, [], ◌∷◌, Result, ok, err, type_error, ◌>>=◌, map_result,
}
use pyserum.Base.Bytes.{Bytes}
use pyserum.Construct.{Construct}
use pyserum.Solana.{PublicKeys}
use pyserum.Layouts.OpenOrders.{open_orders_layout}
use pyserum.Net.Json.{Json, bool, number, string, get, first, truth, elements}
use pyserum.Net.Client.{Texts, ProgramAccountsArgs}
use pyserum.Net.Utils.{decode_text}
use pyserum.OpenOrders.{OpenOrdersAccount, from_bytes}

pub record ProgramAccount (Key : Type 0) : Type 0 where
  pub public_key : Key
  pub data_bytes : Bytes
  pub is_executablable : Bool
  pub lamports : ℕ
  pub owner : Key

module _ (keys : PublicKeys) (texts : Texts keys) where
  open keys use {PublicKey}
  open texts use {text_of_key, read_key, read_int}

  -- int(x)
  unfoldable pub read_number : Json → Result ℕ
  read_number (number n) = ok n
  read_number (bool b) = ok (elim b [ true ↦ 1 | false ↦ 0 ])
  read_number (string s) = read_int s
  read_number _ = err type_error

  -- The body of the loop in _process_get_program_accounts_resp.
  unfoldable pub read_program_account : Json → Result (ProgramAccount PublicKey)
  unfolding read_number
  read_program_account account = do
    details ← get "account" account
    pubkey ← get "pubkey" account
    public_key ← read_key pubkey
    field ← get "data" details
    encoded ← first field
    data_bytes ← decode_text keys texts encoded
    executable ← get "executable" details
    owner_field ← get "owner" details
    owner ← read_key owner_field
    lamports_field ← get "lamports" details
    lamports ← read_number lamports_field
    ok (record {
      public_key = public_key;
      data_bytes = data_bytes;
      is_executablable = truth executable;
      lamports = lamports;
      owner = owner;
    })

  -- _process_get_program_accounts_resp
  unfoldable pub process_get_program_accounts_resp :
      ⦃lib : Construct⦄ → Json → Result (List (OpenOrdersAccount PublicKey))
  unfolding read_program_account
  process_get_program_accounts_resp resp = do
    result ← get "result" resp
    found ← elements result
    accounts ← map_result read_program_account found
    map_result
        (λ (account : ProgramAccount PublicKey).
          from_bytes keys account.public_key account.data_bytes)
        accounts

  -- _build_get_program_accounts_args
  unfoldable pub build_get_program_accounts_args :
      ⦃lib : Construct⦄ {Commitment : Type 0}
      → PublicKey
      → PublicKey
      → PublicKey
      → Commitment
      → Result (ProgramAccountsArgs PublicKey Commitment)
  build_get_program_accounts_args market program_id owner commitment = do
    data_size ← open_orders_layout.sizeof
    ok (record {
      program_id = program_id;
      commitment = commitment;
      encoding = "base64";
      data_size = data_size;
      memcmp_opts =
          record { offset = 5 + 8; bytes = text_of_key market }
          ∷ record { offset = 5 + 8 + 32; bytes = text_of_key owner }
          ∷ [];
    })
