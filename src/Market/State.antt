-- ===== src/Market/State.antt =====
-- The class MarketState of pyserum/market/state.py, without what reads from the network.
use pyserum.Base.{ℕ, ◌*◌, ◌^◌, not, ◌||◌, ℤ, Result, ok, err, invalid_market, ◌>>=◌, if◌then◌else◌}
use pyserum.Base.Bytes.{Bytes}
use pyserum.Construct.{Construct}
use pyserum.Floats.{Floats}
use pyserum.Solana.{PublicKeys}
use pyserum.Layouts.AccountFlags.{AccountFlags}
use pyserum.Layouts.Market.{MarketContainer, market_layout}

pub record MarketState (Key : Type 0) : Type 0 where
  pub decoded : MarketContainer
  pub program_id : Key
  pub base_mint_decimals : ℕ
  pub quote_mint_decimals : ℕ

-- MarketState._make_parsed_market
unfoldable pub make_parsed_market : ⦃lib : Construct⦄ → Bytes → Result MarketContainer
make_parsed_market bytes_data = do
  (parsed_market, rest) ← market_layout.parse bytes_data
  if not parsed_market.account_flags.initialized || not parsed_market.account_flags.market
      then err invalid_market
      else ok parsed_market

module _ {Key : Type 0} where
  -- MarketState.from_bytes
  unfoldable pub from_bytes : ⦃lib : Construct⦄ → Key → ℕ → ℕ → Bytes → Result (MarketState Key)
  from_bytes program_id base_mint_decimals quote_mint_decimals buffer = do
    (parsed_market, rest) ← market_layout.parse buffer
    if not parsed_market.account_flags.initialized || not parsed_market.account_flags.market
        then err invalid_market
        else ok (record {
          decoded = parsed_market;
          program_id = program_id;
          base_mint_decimals = base_mint_decimals;
          quote_mint_decimals = quote_mint_decimals;
        })

  -- account_flags
  unfoldable pub account_flags : MarketState Key → AccountFlags
  account_flags s = s.decoded.account_flags

  unfoldable pub base_spl_token_multiplier : MarketState Key → ℕ
  base_spl_token_multiplier s = 10 ^ s.base_mint_decimals

  unfoldable pub quote_spl_token_multiplier : MarketState Key → ℕ
  quote_spl_token_multiplier s = 10 ^ s.quote_mint_decimals

  unfoldable pub base_lot_size : MarketState Key → ℕ
  base_lot_size s = s.decoded.base_lot_size

  unfoldable pub quote_lot_size : MarketState Key → ℕ
  quote_lot_size s = s.decoded.quote_lot_size

-- The accessors that wrap a key of the account.
module _ (keys : PublicKeys) where
  open keys use {PublicKey, public_key}

  unfoldable pub public_key_of : MarketState PublicKey → PublicKey
  public_key_of s = public_key s.decoded.own_address

  unfoldable pub asks : MarketState PublicKey → PublicKey
  asks s = public_key s.decoded.asks

  unfoldable pub bids : MarketState PublicKey → PublicKey
  bids s = public_key s.decoded.bids

  unfoldable pub event_queue : MarketState PublicKey → PublicKey
  event_queue s = public_key s.decoded.event_queue

  unfoldable pub request_queue : MarketState PublicKey → PublicKey
  request_queue s = public_key s.decoded.request_queue

  unfoldable pub base_mint : MarketState PublicKey → PublicKey
  base_mint s = public_key s.decoded.base_mint

  unfoldable pub quote_mint : MarketState PublicKey → PublicKey
  quote_mint s = public_key s.decoded.quote_mint

  unfoldable pub base_vault : MarketState PublicKey → PublicKey
  base_vault s = public_key s.decoded.base_vault

  unfoldable pub quote_vault : MarketState PublicKey → PublicKey
  quote_vault s = public_key s.decoded.quote_vault

-- Between lots and numbers.
module _ (floats : Floats) {Key : Type 0} where
  open floats use {Float, of_int, true_div, mul_int, div_int, signed_div, round, floor, truncate}

  unfoldable pub base_spl_size_to_number : MarketState Key → ℕ → Result Float
  unfolding base_spl_token_multiplier
  base_spl_size_to_number s size = true_div size (base_spl_token_multiplier s)

  unfoldable pub quote_spl_size_to_number : MarketState Key → ℕ → Result Float
  unfolding quote_spl_token_multiplier
  quote_spl_size_to_number s size = true_div size (quote_spl_token_multiplier s)

  unfoldable pub price_lots_to_number : MarketState Key → ℕ → Result Float
  unfolding quote_lot_size base_spl_token_multiplier base_lot_size quote_spl_token_multiplier
  price_lots_to_number s price = do
    lots ← of_int (price * quote_lot_size s * base_spl_token_multiplier s)
    div_int lots (base_lot_size s * quote_spl_token_multiplier s)

  unfoldable pub price_number_to_lots : MarketState Key → Float → Result ℤ
  unfolding quote_lot_size base_spl_token_multiplier base_lot_size quote_spl_token_multiplier
  price_number_to_lots s price = do
    quoted ← mul_int price (quote_spl_token_multiplier s)
    scaled ← mul_int quoted (base_lot_size s)
    lots ← div_int scaled (base_spl_token_multiplier s * quote_lot_size s)
    round lots

  unfoldable pub base_size_lots_to_number : MarketState Key → ℕ → Result Float
  unfolding base_spl_token_multiplier base_lot_size
  base_size_lots_to_number s size = do
    scaled ← of_int (size * base_lot_size s)
    div_int scaled (base_spl_token_multiplier s)

  unfoldable pub base_size_number_to_lots : MarketState Key → Float → Result ℤ
  unfolding base_spl_token_multiplier base_lot_size
  base_size_number_to_lots s size = do
    scaled ← mul_int size (base_spl_token_multiplier s)
    units ← floor scaled
    lots ← signed_div units (base_lot_size s)
    truncate lots

  unfoldable pub quote_size_lots_to_number : MarketState Key → ℕ → Result Float
  unfolding quote_spl_token_multiplier quote_lot_size
  quote_size_lots_to_number s size = do
    scaled ← of_int (size * quote_lot_size s)
    div_int scaled (quote_spl_token_multiplier s)

  unfoldable pub quote_size_number_to_lots : MarketState Key → Float → Result ℤ
  unfolding quote_spl_token_multiplier quote_lot_size
  quote_size_number_to_lots s size = do
    scaled ← mul_int size (quote_spl_token_multiplier s)
    units ← floor scaled
    lots ← signed_div units (quote_lot_size s)
    truncate lots
