-- ===== src/Core/Defs.antt =====
-- The class MarketCore of pyserum/market/core.py: its state, the choice of the queue, and the parsing
-- of order books and of fills.
use pyserum.Base.{
  ℕ, ◌*◌, Bool, true, false, ◌&&◌, ◌||◌, some, List, [], ◌∷◌, ◌++◌, ℤ, pos, Result, ok, ◌>>=◌,
  map_result, ltb, if◌then◌else◌,
}
use pyserum.Base.Bytes.{Bytes}
use pyserum.Base.Signed.{◌+ℤ◌, ◌-ℤ◌, times, negate}
use pyserum.Construct.{Construct}
use pyserum.Market.{MarketState, base_spl_token_multiplier, quote_spl_token_multiplier}
use pyserum.OpenOrders.{OpenOrdersAccount}
use pyserum.OrderBook
use pyserum.OrderBook.{OrderBook, Order, Side, buy, sell, orders}
use pyserum.Queue.{Event, decode_event_queue}
use pyserum.Core.Packages.{Packages}
use text.Mathlib.Text.{◌==◌ as ◌is◌}

pub record MarketCore (Key : Type 0) : Type 0 where
  pub state : MarketState Key
  pub force_use_request_queue : Bool

pub record FilledOrder (Float : Type 0) : Type 0 where
  pub order_id : ℕ
  pub side : Side
  pub price : Float
  pub size : Float
  pub fee_cost : ℤ

-- [x for x in xs if test(x)]
abbrev pub filter {ℓ} : {A : Type ℓ} → (A → Bool) → List A → List A
filter test [] = []
filter test (x ∷ xs) = let rest = filter test xs in if test x then x ∷ rest else rest

-- The price before fees in parse_fill_event, for an event's quantities.
unfoldable pub price_before_fees : Bool → Bool → ℕ → ℕ → ℤ
price_before_fees true maker released fee =
    if maker then pos released +ℤ pos fee else pos released -ℤ pos fee
price_before_fees false maker released fee =
    if maker then pos released -ℤ pos fee else pos released +ℤ pos fee

module _ (packages : Packages) where
  open packages use {keys, wallets, floats, texts}
  open keys use {PublicKey}
  open wallets use {equals_method, dex_version_1, dex_version_1', dex_version_2}
  open floats use {Float, true_div, signed_div}
  open texts use {text_of_key}

  -- _use_request_queue. It compares the method `program_id` itself, which it does not call.
  unfoldable pub use_request_queue : MarketCore PublicKey → Bool
  use_request_queue core =
      equals_method dex_version_1
      || equals_method dex_version_1'
      || equals_method dex_version_2
      || core.force_use_request_queue

  -- _parse_bids_or_asks
  unfoldable pub parse_bids_or_asks :
      ⦃lib : Construct⦄ → MarketCore PublicKey → Bytes → Result (OrderBook PublicKey)
  parse_bids_or_asks core bytes_data = OrderBook.from_bytes keys core.state bytes_data

  -- str(address) in open_orders_addresses
  unfoldable pub has_address : List (OpenOrdersAccount PublicKey) → PublicKey → Bool
  has_address [] address = false
  has_address (account ∷ accounts) address =
      text_of_key account.address is text_of_key address || has_address accounts address

  -- _parse_orders_for_owner: the bids are iterated over before the asks.
  unfoldable pub parse_orders_for_owner :
      ℕ
      → OrderBook PublicKey
      → OrderBook PublicKey
      → List (OpenOrdersAccount PublicKey)
      → Result (List (Order PublicKey Float))
  unfolding has_address
  parse_orders_for_owner fuel bids asks [] = ok []
  parse_orders_for_owner fuel bids asks (account ∷ accounts) = do
    bid_orders ← orders floats fuel bids
    ask_orders ← orders floats fuel asks
    ok (
        filter
          (λ (o : Order PublicKey Float). has_address (account ∷ accounts) o.open_order_address)
          (bid_orders ++ ask_orders))

  unfoldable pub parse_fill_event :
      MarketCore PublicKey → Event PublicKey → Result (FilledOrder Float)
  unfolding price_before_fees base_spl_token_multiplier quote_spl_token_multiplier
  parse_fill_event core event = do
    let before_fees =
        price_before_fees event.event_flags.bid event.event_flags.maker
          event.native_quantity_released event.native_fee_or_rebate
    price ←
        signed_div (times before_fees (base_spl_token_multiplier core.state))
          (quote_spl_token_multiplier core.state * event.native_quantity_paid)
    size ← true_div event.native_quantity_paid (base_spl_token_multiplier core.state)
    ok (record {
      order_id = event.order_id;
      side = if event.event_flags.bid then buy else sell;
      price = price;
      size = size;
      fee_cost =
          if event.event_flags.maker
          then pos event.native_fee_or_rebate
          else negate (pos event.native_fee_or_rebate);
    })

  -- The condition of the comprehension in _parse_fills.
  unfoldable pub is_fill : Event PublicKey → Bool
  is_fill event = event.event_flags.fill && ltb 0 event.native_quantity_paid

  unfoldable pub parse_fills :
      ⦃lib : Construct⦄ → MarketCore PublicKey → Bytes → ℤ → Result (List (FilledOrder Float))
  unfolding parse_fill_event is_fill
  parse_fills core bytes_data limit = do
    events ← decode_event_queue keys bytes_data (some limit)
    map_result (parse_fill_event core) (filter is_fill events)
