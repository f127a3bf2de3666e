-- ===== src/Net/Fetch.antt =====
-- The functions of pyserum/utils.py that ask a server. Those of pyserum/async_utils.py differ by
-- awaiting each call.
use pyserum.Base.{ℕ, ok, if◌then◌else◌}
use pyserum.Base.Bytes.{Bytes}
use pyserum.Construct.{Construct}
use pyserum.Solana.{PublicKeys}
use pyserum.Net.Action.{Action, lift, ◌>>=◌}
use pyserum.Net.Client.{Texts, Client}
use pyserum.Net.Utils.{parse_bytes_data, parse_mint_decimals}

module _ (keys : PublicKeys) (texts : Texts keys) (client : Client keys) where
  open keys use {PublicKey, same_key}
  open client use {World, get_account_info}

  unfoldable pub load_bytes_data : PublicKey → Action World Bytes
  load_bytes_data addr = do res ← get_account_info addr; lift (parse_bytes_data keys texts res)

  unfoldable pub get_mint_decimals :
      ⦃lib : Construct⦄ (wrapped_sol_mint : PublicKey) → PublicKey → Action World ℕ
  get_mint_decimals wrapped_sol_mint mint_pub_key =
      if same_key mint_pub_key wrapped_sol_mint
      then lift (ok 9)
      else (load_bytes_data mint_pub_key >>= λ bytes_data. lift (parse_mint_decimals bytes_data))
