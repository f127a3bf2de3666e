-- ===== src/Core/Placed.antt =====
-- The instruction for a new order that pyserum/market/core.py makes, and when it makes none.
use pyserum.Base.{
  ℕ, ◌*◌, ◌^◌, ◌<◌, ◌≡◌, refl, sym, true≢false, if◌then◌else◌, Bool, true, false, ◌||◌, Option,
  none, some, ℤ, pos, negsuc, arith, ok, err, ◌>>=◌, size_too_small, price_too_small,
}
use pyserum.Construct.{Construct}
use pyserum.Instructions.Current.{decode_new_order_v3-new_order_v3}
use pyserum.Instructions.Decode.{decode_new_order_v3}
use pyserum.Instructions.Params.{NewOrderV3Params}
use pyserum.Market.{
  public_key_of, request_queue, event_queue, bids, asks, base_vault, quote_vault, quote_lot_size,
  price_number_to_lots, base_size_number_to_lots,
}
use pyserum.OrderBook.{Side, buy, sell}
use pyserum.Core.Packages.{Packages}
use pyserum.Core.Defs.{MarketCore, use_request_queue}
use pyserum.Core.Instruct.{side_number, new_order_v3_params, make_place_order_instruction}

side_number_small : (side : Side) → side_number side < 256 ^ 4
side_number_small buy = omega arith
side_number_small sell = omega arith

abbrev pub is_negative : ℤ → Bool
is_negative (pos n) = false
is_negative (negsuc n) = true

module _ (packages : Packages) ⦃lib : Construct⦄ where
  open packages use {keys, programs, floats, wallets}
  open keys use {PublicKey, public_key}
  open floats use {Float}
  open wallets use {no_method_is_a_key, dex_version_1, dex_version_1', dex_version_2}

  -- The market's own program does not matter to the choice of the queue: the request queue is used
  -- exactly if the caller forces it.
  use_request_queue_forced :
      (core : MarketCore PublicKey) → use_request_queue packages core ≡ core.force_use_request_queue
  unfolding use_request_queue
  use_request_queue_forced core =
      rw
        (
          no_method_is_a_key dex_version_1,
          no_method_is_a_key dex_version_1',
          no_method_is_a_key dex_version_2,
        )
        refl

  -- What an order is in lots, with what the instruction can hold.
  pub record OrderFits (core : MarketCore PublicKey) (limit_price max_quantity : Float)
      (order_type client_id price_lots size_lots : ℕ) : Type 0 where
    pub size_in_lots : base_size_number_to_lots floats core.state max_quantity ≡ ok (pos size_lots)
    pub price_in_lots : price_number_to_lots floats core.state limit_price ≡ ok (pos price_lots)
    pub price_fits : price_lots < 256 ^ 8
    pub size_fits : size_lots < 256 ^ 8
    pub quote_fits : size_lots * quote_lot_size core.state * price_lots < 256 ^ 8
    pub type_fits : order_type < 3
    pub id_fits : client_id < 256 ^ 8

  -- An order in lots with the market's accounts: at most its price times its size in quote units is
  -- paid, and against the owner's own orders it is decremented.
  abbrev pub placed_order :
      MarketCore PublicKey
      → PublicKey
      → PublicKey
      → ℕ
      → Side
      → ℕ
      → ℕ
      → ℕ
      → PublicKey
      → NewOrderV3Params PublicKey
  placed_order core payer owner order_type side price_lots size_lots client_id open_orders =
      let m = core.state.decoded in
      record {
        market = public_key m.own_address;
        open_orders = open_orders;
        payer = payer;
        owner = owner;
        request_queue = public_key m.request_queue;
        event_queue = public_key m.event_queue;
        bids = public_key m.bids;
        asks = public_key m.asks;
        base_vault = public_key m.base_vault;
        quote_vault = public_key m.quote_vault;
        side = elim side [ buy ↦ 0 | sell ↦ 1 ];
        limit_price = price_lots;
        max_base_quantity = size_lots;
        max_quote_quantity = size_lots * m.quote_lot_size * price_lots;
        order_type = order_type;
        self_trade_behavior = 0;
        limit = some 65535;
        client_id = client_id;
        program_id = programs.default_dex_program;
        fee_discount_pubkey = none;
      }

  module _ (core : MarketCore PublicKey) (payer owner : PublicKey) (order_type : ℕ) (side : Side)
      (limit_price max_quantity : Float) (client_id : ℕ) (open_orders : PublicKey)
      (discount : Option PublicKey) where
    -- If the request queue is not forced, and an order's price, size, and their product in quote
    -- units are natural numbers of 64 bits, with an order type of the three, then the instruction for
    -- the order can be made, and decoding it gives the market's accounts and the order in lots, but for
    -- the program and the discount. A size or a price of 0 lots is not refused.
    pub decode_new_order_v3-make_place_order_instruction :
        (price_lots size_lots : ℕ)
        → core.force_use_request_queue ≡ false
        → OrderFits core limit_price max_quantity order_type client_id price_lots size_lots
        → (make_place_order_instruction packages core payer owner order_type side limit_price
              max_quantity client_id open_orders discount
            >>= decode_new_order_v3 keys programs)
          ≡ ok (
              placed_order core payer owner order_type side price_lots size_lots client_id
                open_orders)
    unfolding make_place_order_instruction new_order_v3_params public_key_of request_queue
        event_queue bids asks base_vault quote_vault quote_lot_size
    decode_new_order_v3-make_place_order_instruction price_lots size_lots unforced h =
        rw (h.size_in_lots, h.price_in_lots, use_request_queue_forced core, unforced)
          (decode_new_order_v3-new_order_v3 keys programs
            (new_order_v3_params packages core payer owner order_type side price_lots size_lots
              client_id open_orders discount)
            (record {
              side = side_number_small side;
              limit_price = h.price_fits;
              max_base_quantity = h.size_fits;
              max_quote_quantity = h.quote_fits;
              self_trade_behavior = omega arith;
              order_type = h.type_fits;
              client_id = h.id_fits;
            }))

    -- If a size and a price can be converted to lots, and one of them is negative, then the order is
    -- refused, for either queue: because of its size if that is negative, else because of its price.
    pub make_place_order_instruction-negative :
        (size price : ℤ)
        → base_size_number_to_lots floats core.state max_quantity ≡ ok size
        → price_number_to_lots floats core.state limit_price ≡ ok price
        → (is_negative size || is_negative price) ≡ true
        → make_place_order_instruction packages core payer owner order_type side limit_price
            max_quantity client_id open_orders discount
          ≡ err (if is_negative size then size_too_small else price_too_small)
    unfolding make_place_order_instruction
    make_place_order_instruction-negative (negsuc n) price sized priced negative = rw sized refl
    make_place_order_instruction-negative (pos n) (negsuc m) sized priced negative =
        rw (sized, priced) refl
    make_place_order_instruction-negative (pos n) (pos m) sized priced negative =
        elim (true≢false (sym negative)) [ ]
