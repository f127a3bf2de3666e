-- ===== src/Tests/Instructions.antt =====
-- The theorems on instructions at concrete parameters.
use pyserum.Base.{[], ◌≡◌, some, none, true, replicate, ◌∷◌, ok, ◌>>=◌, arith}
use pyserum.Solana.{TransactionInstruction, meta}
use pyserum.Instructions.Params.{
  InitializeMarketParams, NewOrderParams, MatchOrdersParams, CancelOrderParams, SettleFundsParams,
  CancelOrderByClientIdParams, CancelOrderByClientIdV2Params, NewOrderV3Params, CancelOrderV2Params,
}
use pyserum.Instructions.Build.{
  initialize_market, new_order, match_orders, cancel_order, settle_funds, cancel_order_by_client_id,
  cancel_order_by_client_id_v2, new_order_v3,
}
use pyserum.Instructions.Decode.{
  decode_initialize_market, decode_new_order, decode_match_orders, decode_cancel_order,
  decode_settle_funds, decode_cancel_order_by_client_id, decode_cancel_order_by_client_id_v2,
  decode_new_order_v3,
}
use pyserum.Instructions.Decoded.{
  decode_initialize_market-initialize_market, decode_new_order-new_order,
  decode_match_orders-match_orders, decode_cancel_order-cancel_order,
  decode_settle_funds-settle_funds, decode_cancel_order_by_client_id-cancel_order_by_client_id,
  decode_cancel_order_by_client_id_v2-cancel_order_by_client_id_v2,
}
use pyserum.Instructions.Current.{decode_new_order_v3-new_order_v3}
use pyserum.Instructions.ConsumeEvents.{
  ConsumeEventsParams, consume_events, decode_consume_events, decode_consume_events-consume_events,
}
use pyserum.Tests.Concrete.{concrete, test_keys, test_programs}

abbrev initialize_market_params : InitializeMarketParams test_keys.PublicKey
initialize_market_params = record {
  market = 1;
  request_queue = 2;
  event_queue = 3;
  bids = 4;
  asks = 5;
  base_vault = 6;
  quote_vault = 7;
  base_mint = 8;
  quote_mint = 9;
  base_lot_size = 1;
  quote_lot_size = 2;
  fee_rate_bps = 3;
  vault_signer_nonce = 4;
  quote_dust_threshold = 5;
  program_id = 100;
}

decode_initialize_market-initialize_market_example :
    (initialize_market test_keys test_programs ⦃lib = concrete⦄ initialize_market_params
      >>= decode_initialize_market test_keys test_programs ⦃lib = concrete⦄)
    ≡ ok initialize_market_params
decode_initialize_market-initialize_market_example =
    decode_initialize_market-initialize_market test_keys test_programs ⦃lib = concrete⦄
      initialize_market_params
      (record {
        base_lot_size = omega arith;
        quote_lot_size = omega arith;
        fee_rate_bps = omega arith;
        vault_signer_nonce = omega arith;
        quote_dust_threshold = omega arith;
      })

abbrev new_order_params : NewOrderParams test_keys.PublicKey
new_order_params = record {
  market = 1;
  open_orders = 2;
  payer = 3;
  owner = 4;
  request_queue = 5;
  base_vault = 6;
  quote_vault = 7;
  side = 0;
  limit_price = 2;
  max_quantity = 3;
  order_type = 4;
  client_id = 5;
  program_id = 100;
}

decode_new_order-new_order_example :
    (new_order test_keys test_programs ⦃lib = concrete⦄ new_order_params
      >>= decode_new_order test_keys test_programs ⦃lib = concrete⦄)
    ≡ ok (record {
      market = 1;
      open_orders = 2;
      payer = 3;
      owner = 4;
      request_queue = 5;
      base_vault = 6;
      quote_vault = 7;
      side = 0;
      limit_price = 2;
      max_quantity = 3;
      order_type = 4;
      client_id = 5;
      program_id = 200;
    })
decode_new_order-new_order_example =
    decode_new_order-new_order test_keys test_programs ⦃lib = concrete⦄ new_order_params (record {
      side = omega arith;
      limit_price = omega arith;
      max_quantity = omega arith;
      order_type = omega arith;
      client_id = omega arith;
    })

abbrev match_orders_params : MatchOrdersParams test_keys.PublicKey
match_orders_params = record {
  market = 1;
  request_queue = 2;
  event_queue = 3;
  bids = 4;
  asks = 5;
  base_vault = 6;
  quote_vault = 7;
  limit = 1;
  program_id = 100;
}

decode_match_orders-match_orders_example :
    (match_orders test_keys test_programs ⦃lib = concrete⦄ match_orders_params
      >>= decode_match_orders test_keys test_programs ⦃lib = concrete⦄)
    ≡ ok (record {
      market = 1;
      request_queue = 2;
      event_queue = 3;
      bids = 4;
      asks = 5;
      base_vault = 6;
      quote_vault = 7;
      limit = 1;
      program_id = 200;
    })
decode_match_orders-match_orders_example =
    decode_match_orders-match_orders test_keys test_programs ⦃lib = concrete⦄ match_orders_params
      (record { limit = omega arith })

abbrev cancel_order_params : CancelOrderParams test_keys.PublicKey
cancel_order_params = record {
  market = 1;
  open_orders = 2;
  owner = 3;
  request_queue = 4;
  side = 0;
  order_id = 2;
  open_orders_slot = 3;
  program_id = 100;
}

decode_cancel_order-cancel_order_example :
    (cancel_order test_keys test_programs ⦃lib = concrete⦄ cancel_order_params
      >>= decode_cancel_order test_keys test_programs ⦃lib = concrete⦄)
    ≡ ok (record {
      market = 1;
      open_orders = 2;
      owner = 3;
      request_queue = 4;
      side = 0;
      order_id = 2;
      open_orders_slot = 3;
      program_id = 200;
    })
decode_cancel_order-cancel_order_example =
    decode_cancel_order-cancel_order test_keys test_programs ⦃lib = concrete⦄ cancel_order_params
      (record { side = omega arith; order_id = omega arith; open_orders_slot = omega arith })

abbrev settle_funds_params : SettleFundsParams test_keys.PublicKey
settle_funds_params = record {
  market = 1;
  open_orders = 2;
  owner = 3;
  base_vault = 4;
  quote_vault = 5;
  base_wallet = 6;
  quote_wallet = 7;
  vault_signer = 8;
  program_id = 100;
}

decode_settle_funds-settle_funds_example :
    (settle_funds test_keys test_programs ⦃lib = concrete⦄ settle_funds_params
      >>= decode_settle_funds test_keys test_programs ⦃lib = concrete⦄)
    ≡ ok (record {
      market = 1;
      open_orders = 2;
      owner = 3;
      base_vault = 4;
      quote_vault = 5;
      base_wallet = 6;
      quote_wallet = 7;
      vault_signer = 8;
      program_id = 200;
    })
decode_settle_funds-settle_funds_example =
    decode_settle_funds-settle_funds test_keys test_programs ⦃lib = concrete⦄ settle_funds_params

abbrev cancel_order_by_client_id_params : CancelOrderByClientIdParams test_keys.PublicKey
cancel_order_by_client_id_params = record {
  market = 1;
  open_orders = 2;
  owner = 3;
  request_queue = 4;
  client_id = 1;
  program_id = 100;
}

decode_cancel_order_by_client_id-cancel_order_by_client_id_example :
    (cancel_order_by_client_id test_keys test_programs ⦃lib = concrete⦄
        cancel_order_by_client_id_params
      >>= decode_cancel_order_by_client_id test_keys test_programs ⦃lib = concrete⦄)
    ≡ ok (record {
      market = 1;
      open_orders = 2;
      owner = 3;
      request_queue = 4;
      client_id = 1;
      program_id = 200;
    })
decode_cancel_order_by_client_id-cancel_order_by_client_id_example =
    decode_cancel_order_by_client_id-cancel_order_by_client_id test_keys test_programs
      ⦃lib = concrete⦄ cancel_order_by_client_id_params (record { client_id = omega arith })

abbrev cancel_order_by_client_id_v2_params : CancelOrderByClientIdV2Params test_keys.PublicKey
cancel_order_by_client_id_v2_params = record {
  market = 1;
  bids = 2;
  asks = 3;
  event_queue = 4;
  open_orders = 5;
  owner = 6;
  client_id = 1;
  program_id = 100;
}

decode_cancel_order_by_client_id_v2-cancel_order_by_client_id_v2_example :
    (cancel_order_by_client_id_v2 test_keys test_programs ⦃lib = concrete⦄
        cancel_order_by_client_id_v2_params
      >>= decode_cancel_order_by_client_id_v2 test_keys test_programs ⦃lib = concrete⦄)
    ≡ ok (record {
      market = 1;
      bids = 2;
      asks = 3;
      event_queue = 4;
      open_orders = 5;
      owner = 6;
      client_id = 1;
      program_id = 200;
    })
decode_cancel_order_by_client_id_v2-cancel_order_by_client_id_v2_example =
    decode_cancel_order_by_client_id_v2-cancel_order_by_client_id_v2 test_keys test_programs
      ⦃lib = concrete⦄ cancel_order_by_client_id_v2_params (record { client_id = omega arith })

abbrev v3_params : NewOrderV3Params test_keys.PublicKey
v3_params = record {
  market = 1;
  open_orders = 2;
  payer = 3;
  owner = 4;
  request_queue = 5;
  event_queue = 6;
  bids = 7;
  asks = 8;
  base_vault = 9;
  quote_vault = 10;
  side = 1;
  limit_price = 5;
  max_base_quantity = 6;
  max_quote_quantity = 7;
  order_type = 2;
  self_trade_behavior = 1;
  limit = some 10;
  client_id = 8;
  program_id = 100;
  fee_discount_pubkey = some 9;
}

decode_new_order_v3-new_order_v3_example :
    (new_order_v3 test_keys test_programs ⦃lib = concrete⦄ v3_params
      >>= decode_new_order_v3 test_keys test_programs ⦃lib = concrete⦄)
    ≡ ok (record {
      market = 1;
      open_orders = 2;
      payer = 3;
      owner = 4;
      request_queue = 5;
      event_queue = 6;
      bids = 7;
      asks = 8;
      base_vault = 9;
      quote_vault = 10;
      side = 1;
      limit_price = 5;
      max_base_quantity = 6;
      max_quote_quantity = 7;
      order_type = 2;
      self_trade_behavior = 1;
      limit = some 65535;
      client_id = 8;
      program_id = 200;
      fee_discount_pubkey = none;
    })
decode_new_order_v3-new_order_v3_example =
    decode_new_order_v3-new_order_v3 test_keys test_programs ⦃lib = concrete⦄ v3_params (record {
      side = omega arith;
      limit_price = omega arith;
      max_base_quantity = omega arith;
      max_quote_quantity = omega arith;
      self_trade_behavior = omega arith;
      order_type = omega arith;
      client_id = omega arith;
    })

abbrev v2_instruction : TransactionInstruction test_keys.PublicKey
v2_instruction = record {
  keys = replicate 6 (meta 1 true true);
  program_id = 100;
  data_bytes = 0 ∷ 11 ∷ replicate 23 0;
}

abbrev v2_params : CancelOrderV2Params test_keys.PublicKey
v2_params = record {
  market = 1;
  bids = 2;
  asks = 3;
  event_queue = 4;
  open_orders = 5;
  owner = 6;
  side = 0;
  order_id = 7;
  open_orders_slot = 8;
  program_id = 100;
}

abbrev consume_events_params : ConsumeEventsParams test_keys.PublicKey
consume_events_params = record {
  market = 1;
  event_queue = 2;
  open_orders_accounts = 3 ∷ 4 ∷ 5 ∷ [];
  limit = 10;
  program_id = 100;
}

decode_consume_events-consume_events_example :
    (consume_events test_keys test_programs ⦃lib = concrete⦄ consume_events_params
      >>= decode_consume_events test_keys test_programs ⦃lib = concrete⦄)
    ≡ ok (record {
      market = 1;
      event_queue = 2;
      open_orders_accounts = 3 ∷ 4 ∷ 5 ∷ [];
      limit = 10;
      program_id = 200;
    })
decode_consume_events-consume_events_example =
    decode_consume_events-consume_events test_keys test_programs ⦃lib = concrete⦄
      consume_events_params (omega arith)
