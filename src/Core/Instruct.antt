-- ===== src/Core/Instruct.antt =====
-- The methods of MarketCore in pyserum/market/core.py that make an instruction. Of the owner's keypair
-- they use only the public key, which is what they take here.
use pyserum.Base.{
  ℕ, ◌*◌, Option, some, ℤ, pos, negsuc, Error, size_too_small, price_too_small,
  base_wallet_is_vault, quote_wallet_is_vault, Result, ok, err, ◌>>=◌, if◌then◌else◌,
}
use pyserum.Construct.{Construct}
use pyserum.Solana.{TransactionInstruction}
use pyserum.Market.{
  public_key_of, asks, bids, event_queue, request_queue, base_vault, quote_vault, quote_lot_size,
  price_number_to_lots, base_size_number_to_lots,
}
use pyserum.Layouts.OpenOrders.{open_orders_layout}
use pyserum.OpenOrders.{OpenOrdersAccount}
use pyserum.OrderBook.{Order, Side, buy, sell}
use pyserum.Instructions.Params.{NewOrderParams, NewOrderV3Params}
use pyserum.Instructions.Build.{
  new_order, new_order_v3, cancel_order, cancel_order_v2, cancel_order_by_client_id,
  cancel_order_by_client_id_v2, match_orders, settle_funds,
}
use pyserum.Core.Packages.{Packages}
use pyserum.Core.Defs.{MarketCore, use_request_queue}

-- The number of a member of Side.
abbrev pub side_number : Side → ℕ
side_number buy = 0
side_number sell = 1

-- `if lots < 0: raise`, and the lots, which are a natural number from there on.
abbrev pub at_least_zero : ℤ → Error → Result ℕ
at_least_zero (pos n) e = ok n
at_least_zero (negsuc n) e = err e

module _ (packages : Packages) ⦃lib : Construct⦄ where
  open packages use {keys, programs, wallets, floats}
  open keys use {PublicKey, same_key}
  open floats use {Float}

  -- The parameters of the instruction that make_place_order_instruction makes for either version of
  -- the program, from lots. They are those of the source's calls of the conversions, each of which is
  -- made two or three times with the same result.
  unfoldable pub new_order_params :
      MarketCore PublicKey
      → PublicKey
      → PublicKey
      → ℕ
      → Side
      → ℕ
      → ℕ
      → ℕ
      → PublicKey
      → NewOrderParams PublicKey
  new_order_params core payer owner order_type side price_lots size_lots client_id open_orders =
      record {
        market = public_key_of keys core.state;
        open_orders = open_orders;
        payer = payer;
        owner = owner;
        request_queue = request_queue keys core.state;
        base_vault = base_vault keys core.state;
        quote_vault = quote_vault keys core.state;
        side = side_number side;
        limit_price = price_lots;
        max_quantity = size_lots;
        order_type = order_type;
        client_id = client_id;
        program_id = core.state.program_id;
      }

  unfoldable pub new_order_v3_params :
      MarketCore PublicKey
      → PublicKey
      → PublicKey
      → ℕ
      → Side
      → ℕ
      → ℕ
      → ℕ
      → PublicKey
      → Option PublicKey
      → NewOrderV3Params PublicKey
  new_order_v3_params core payer owner order_type side price_lots size_lots client_id open_orders
        discount =
      record {
        market = public_key_of keys core.state;
        open_orders = open_orders;
        payer = payer;
        owner = owner;
        request_queue = request_queue keys core.state;
        event_queue = event_queue keys core.state;
        bids = bids keys core.state;
        asks = asks keys core.state;
        base_vault = base_vault keys core.state;
        quote_vault = quote_vault keys core.state;
        side = side_number side;
        limit_price = price_lots;
        max_base_quantity = size_lots;
        max_quote_quantity = size_lots * quote_lot_size core.state * price_lots;
        order_type = order_type;
        self_trade_behavior = 0;
        limit = some 65535;
        client_id = client_id;
        program_id = core.state.program_id;
        fee_discount_pubkey = discount;
      }

  unfoldable pub make_place_order_instruction :
      MarketCore PublicKey
      → PublicKey
      → PublicKey
      → ℕ
      → Side
      → Float
      → Float
      → ℕ
      → PublicKey
      → Option PublicKey
      → Result (TransactionInstruction PublicKey)
  unfolding new_order_params new_order_v3_params
  make_place_order_instruction core payer owner order_type side limit_price max_quantity client_id
        open_orders discount =
      do
        size ← base_size_number_to_lots floats core.state max_quantity
        size_lots ← at_least_zero size size_too_small
        price ← price_number_to_lots floats core.state limit_price
        price_lots ← at_least_zero price price_too_small
        if use_request_queue packages core
            then new_order keys programs (
                new_order_params core payer owner order_type side price_lots size_lots client_id
                  open_orders)
            else new_order_v3 keys programs (
                new_order_v3_params core payer owner order_type side price_lots size_lots client_id
                  open_orders discount)

  unfoldable pub make_cancel_order_by_client_id_instruction :
      MarketCore PublicKey → PublicKey → PublicKey → ℕ → Result (TransactionInstruction PublicKey)
  make_cancel_order_by_client_id_instruction core owner open_orders client_id =
      if use_request_queue packages core
      then cancel_order_by_client_id keys programs (record {
        market = public_key_of keys core.state;
        owner = owner;
        open_orders = open_orders;
        request_queue = request_queue keys core.state;
        client_id = client_id;
        program_id = core.state.program_id;
      })
      else cancel_order_by_client_id_v2 keys programs (record {
        market = public_key_of keys core.state;
        owner = owner;
        open_orders = open_orders;
        bids = bids keys core.state;
        asks = asks keys core.state;
        event_queue = event_queue keys core.state;
        client_id = client_id;
        program_id = core.state.program_id;
      })

  unfoldable pub make_cancel_order_instruction :
      MarketCore PublicKey
      → PublicKey
      → Order PublicKey Float
      → Result (TransactionInstruction PublicKey)
  make_cancel_order_instruction core owner order =
      if use_request_queue packages core
      then cancel_order keys programs (record {
        market = public_key_of keys core.state;
        owner = owner;
        open_orders = order.open_order_address;
        request_queue = request_queue keys core.state;
        side = side_number order.side;
        order_id = order.order_id;
        open_orders_slot = order.open_order_slot;
        program_id = core.state.program_id;
      })
      else cancel_order_v2 keys programs (record {
        market = public_key_of keys core.state;
        owner = owner;
        open_orders = order.open_order_address;
        bids = bids keys core.state;
        asks = asks keys core.state;
        event_queue = event_queue keys core.state;
        side = side_number order.side;
        order_id = order.order_id;
        open_orders_slot = order.open_order_slot;
        program_id = core.state.program_id;
      })

  unfoldable pub make_match_orders_instruction :
      MarketCore PublicKey → ℕ → Result (TransactionInstruction PublicKey)
  make_match_orders_instruction core limit = match_orders keys programs (record {
    market = public_key_of keys core.state;
    request_queue = request_queue keys core.state;
    event_queue = event_queue keys core.state;
    bids = bids keys core.state;
    asks = asks keys core.state;
    base_vault = base_vault keys core.state;
    quote_vault = quote_vault keys core.state;
    limit = limit;
    program_id = core.state.program_id;
  })

  unfoldable pub make_settle_funds_instruction :
      MarketCore PublicKey
      → OpenOrdersAccount PublicKey
      → PublicKey
      → PublicKey
      → PublicKey
      → Result (TransactionInstruction PublicKey)
  make_settle_funds_instruction core open_orders base_wallet quote_wallet vault_signer =
      if same_key base_wallet (base_vault keys core.state)
      then err base_wallet_is_vault
      else if same_key quote_wallet (quote_vault keys core.state)
      then err quote_wallet_is_vault
      else settle_funds keys programs (record {
        market = public_key_of keys core.state;
        open_orders = open_orders.address;
        owner = open_orders.owner;
        base_vault = base_vault keys core.state;
        quote_vault = quote_vault keys core.state;
        base_wallet = base_wallet;
        quote_wallet = quote_wallet;
        vault_signer = vault_signer;
        program_id = core.state.program_id;
      })

  -- make_create_account_instruction of pyserum/open_orders_account.py
  unfoldable pub make_create_account_instruction :
      PublicKey → PublicKey → ℕ → PublicKey → Result (TransactionInstruction PublicKey)
  make_create_account_instruction owner_address new_account_address lamports program_id = do
    space ← open_orders_layout.sizeof
    wallets.create_account (record {
      from_pubkey = owner_address;
      new_account_pubkey = new_account_address;
      lamports = lamports;
      space = space;
      program_id = program_id;
    })
