-- ===== src/Net/Client.antt =====
-- The solana package's clients and texts as parameters, with what the code relies on as laws.
use Prim.Native.String.{String}
use pyserum.Base.{ℕ, ◌≡◌, List, Result, ok}
use pyserum.Base.Bytes.{Bytes}
use pyserum.Solana.{PublicKeys, TransactionInstruction}
use pyserum.Net.Json.{Json, string}
use pyserum.Net.Action.{Action}

-- Keys and bytes as texts. `read_key` is the constructor PublicKey at what a server answered,
-- `read_base64` is base64.decodebytes(s.encode("ascii")), and `read_int` is `int` at a text. A server
-- writes bytes by `write_base64`.
pub record Texts (keys : PublicKeys) : Type 0 where
  pub text_of_key : keys.PublicKey → String
  pub key_bytes_of_text : String → Bytes
  pub read_key : Json → Result keys.PublicKey
  pub read_base64 : String → Result Bytes
  pub write_base64 : Bytes → String
  pub read_int : String → Result ℕ
  pub read_key-string : (k : keys.PublicKey) → read_key (string (text_of_key k)) ≡ ok k
  pub key_bytes_of_text-text_of_key :
      (k : keys.PublicKey) → key_bytes_of_text (text_of_key k) ≡ keys.key_bytes k
  pub read_base64-write_base64 : (b : Bytes) → read_base64 (write_base64 b) ≡ ok b

-- MemcmpOpts: the account's bytes from `offset` on must be the ones that the text stands for.
pub record MemcmpOpts : Type 0 where
  pub offset : ℕ
  pub bytes : String

-- The arguments of get_program_accounts; `data_slice` is always None.
pub record ProgramAccountsArgs (Key Commitment : Type 0) : Type 0 where
  pub program_id : Key
  pub commitment : Commitment
  pub encoding : String
  pub data_size : ℕ
  pub memcmp_opts : List MemcmpOpts

-- A Transaction is the list of its instructions, to which `add` appends one.
abbrev pub Transaction : Type 0 → Type 0
Transaction Key = List (TransactionInstruction Key)

-- solana.rpc.api.Client, or solana.rpc.async_api.AsyncClient where each call is awaited at once. The
-- world is the server's state and the source of random keys: `new_keypair` is `Keypair()`.
pub record Client (keys : PublicKeys) : Type 1 where
  pub World : Type 0
  pub Keypair : Type 0
  pub Commitment : Type 0
  pub TxOpts : Type 0
  pub recent : Commitment
  pub owner_key : Keypair → keys.PublicKey
  pub new_keypair : World → Keypair × World
  pub get_account_info : keys.PublicKey → Action World Json
  pub get_program_accounts : ProgramAccountsArgs keys.PublicKey Commitment → Action World Json
  pub get_minimum_balance_for_rent_exemption : ℕ → Action World Json
  pub send_transaction : Transaction keys.PublicKey → List Keypair → TxOpts → Action World Json
