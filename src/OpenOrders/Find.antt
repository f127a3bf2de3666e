-- ===== src/OpenOrders/Find.antt =====
-- The class OpenOrdersAccount of pyserum/open_orders_account.py: what asks a server.
use Prim.Native.String.{String}
use pyserum.Base.{List}
use pyserum.Construct.{Construct}
use pyserum.Solana.{PublicKeys}
use pyserum.Net.Action.{Action, lift, ◌>>=◌}
use pyserum.Net.Client.{Texts, Client}
use pyserum.Net.Fetch.{load_bytes_data}
use pyserum.Net.Json.{string}
use pyserum.OpenOrders.{OpenOrdersAccount, from_bytes}
use pyserum.OpenOrders.Query.{build_get_program_accounts_args, process_get_program_accounts_resp}

module _ (keys : PublicKeys) (texts : Texts keys) (client : Client keys) ⦃lib : Construct⦄ where
  open keys use {PublicKey}
  open client use {World, Commitment, get_program_accounts}

  unfoldable pub find_for_market_and_owner :
      PublicKey
      → PublicKey
      → PublicKey
      → Commitment
      → Action World (List (OpenOrdersAccount PublicKey))
  find_for_market_and_owner market owner program_id commitment = do
    args ← lift (build_get_program_accounts_args keys texts market program_id owner commitment)
    resp ← get_program_accounts args
    lift (process_get_program_accounts_resp keys texts resp)

  unfoldable pub load : String → Action World (OpenOrdersAccount PublicKey)
  load address = do
    addr_pub_key ← lift (texts.read_key (string address))
    bytes_data ← load_bytes_data keys texts client addr_pub_key
    lift (from_bytes keys addr_pub_key bytes_data)
