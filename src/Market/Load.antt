-- ===== src/Market/Load.antt =====
-- MarketState.load of pyserum/market/state.py; async_load differs by awaiting each call.
use pyserum.Base.{ok}
use pyserum.Construct.{Construct}
use pyserum.Solana.{PublicKeys}
use pyserum.Net.Action.{Action, lift, ◌>>=◌}
use pyserum.Net.Client.{Texts, Client}
use pyserum.Net.Fetch.{load_bytes_data, get_mint_decimals}
use pyserum.Market.State.{MarketState, make_parsed_market}

module _ (keys : PublicKeys) (texts : Texts keys) (client : Client keys) ⦃lib : Construct⦄
    (wrapped_sol_mint : keys.PublicKey) where
  open keys use {PublicKey, public_key}
  open client use {World}

  unfoldable pub load : PublicKey → PublicKey → Action World (MarketState PublicKey)
  load market_address program_id = do
    bytes_data ← load_bytes_data keys texts client market_address
    parsed_market ← lift (make_parsed_market bytes_data)
    base_mint_decimals ←
        get_mint_decimals keys texts client wrapped_sol_mint (public_key parsed_market.base_mint)
    quote_mint_decimals ←
        get_mint_decimals keys texts client wrapped_sol_mint (public_key parsed_market.quote_mint)
    lift (
        ok (record {
          decoded = parsed_market;
          program_id = program_id;
          base_mint_decimals = base_mint_decimals;
          quote_mint_decimals = quote_mint_decimals;
        }))
