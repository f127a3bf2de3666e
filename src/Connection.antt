-- ===== src/Connection.antt =====
-- The parsing of the lists of markets and of tokens in pyserum/connection.py, which
-- pyserum/async_connection.py shares. The answers come from web pages.
use pyserum.Base.{List, [], ◌∷◌, Result, ok, ◌>>=◌, map_result, if◌then◌else◌}
use pyserum.Solana.{PublicKeys}
use pyserum.Net.Json.{Json, get, truth, elements}
use pyserum.Net.Client.{Texts}

-- The fields of a market are what the page has, as its constructor converts nothing.
pub record MarketInfo : Type 0 where
  pub name : Json
  pub address : Json
  pub program_id : Json

pub record TokenInfo (Key : Type 0) : Type 0 where
  pub name : Json
  pub address : Key

-- The element that the comprehension of parse_live_markets makes.
unfoldable pub read_market : Json → Result MarketInfo
read_market m = do
  name ← get "name" m
  address ← get "address" m
  program_id ← get "programId" m
  ok (record { name = name; address = address; program_id = program_id })

-- A market is read only where it is not deprecated.
unfoldable pub read_live : List Json → Result (List MarketInfo)
unfolding read_market
read_live [] = ok []
read_live (m ∷ ms) =
    let rest = read_live ms in
    get "deprecated" m >>= λ deprecated.
    if truth deprecated
    then rest
    else (read_market m >>= λ market. rest >>= λ markets. ok (market ∷ markets))

unfoldable pub parse_live_markets : Json → Result (List MarketInfo)
unfolding read_live
parse_live_markets data_list = do ms ← elements data_list; read_live ms

module _ (keys : PublicKeys) (texts : Texts keys) where
  open keys use {PublicKey}

  unfoldable pub parse_token_mints : Json → Result (List (TokenInfo PublicKey))
  parse_token_mints data_list = do
    ts ← elements data_list
    map_result
        (λ (t : Json). do
          name ← get "name" t
          address_text ← get "address" t
          address ← texts.read_key address_text
          ok (record { name = name; address = address }))
        ts
