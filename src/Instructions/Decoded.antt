-- ===== src/Instructions/Decoded.antt =====
-- Decoding an instruction that was built gives its parameters back.
use pyserum.Base.{◌^◌, ◌<◌, ◌≡◌, refl, ok, ◌>>=◌, arith, ltb-true}
use pyserum.Base.Bytes.{low_bytes, length-low_bytes, from_bytes-low_bytes, to_bytes}
use pyserum.Construct.{Construct}
use pyserum.Construct.RoundTrips.{uint-RoundTrips, bytes-RoundTrips, pass-RoundTrips, ◌⨟ᵣ◌}
use pyserum.Solana.{PublicKeys, Programs}
use pyserum.Instructions.Layout.{
  args_layout, no_args, as_no_args, initialize_market_args, as_initialize_market,
  initialize_market_layout, new_order_args, as_new_order, new_order_layout, match_orders_args,
  as_match_orders, match_orders_layout, cancel_order_args, as_cancel_order, cancel_order_layout,
  cancel_order_by_client_id_args, as_cancel_order_by_client_id, cancel_order_by_client_id_layout,
  cancel_order_by_client_id_v2_args, as_cancel_order_by_client_id_v2,
  cancel_order_by_client_id_v2_layout,
}
use pyserum.Instructions.Params.{
  InitializeMarketParams, NewOrderParams, MatchOrdersParams, CancelOrderParams, SettleFundsParams,
  CancelOrderByClientIdParams, CancelOrderByClientIdV2Params,
}
use pyserum.Instructions.Build.{
  initialize_market_accounts, new_order_accounts, match_orders_accounts, cancel_order_accounts,
  settle_funds_accounts, cancel_order_by_client_id_accounts, cancel_order_by_client_id_v2_accounts,
  initialize_market, initialize_market_type, new_order, new_order_type, match_orders,
  match_order_type, cancel_order, cancel_order_type, settle_funds, settle_funds_type,
  cancel_order_by_client_id, cancel_order_by_client_id_type, cancel_order_by_client_id_v2,
  cancel_order_by_client_id_v2_type,
}
use pyserum.Instructions.Decode.{
  decode_initialize_market, decode_new_order, decode_match_orders, decode_cancel_order,
  decode_settle_funds, decode_cancel_order_by_client_id, decode_cancel_order_by_client_id_v2,
}
use pyserum.Instructions.Data.{choice-RoundTrips, instruct-parses}

pub record InitializeMarketFits {Key : Type 0} (params : InitializeMarketParams Key) : Type 0 where
  pub base_lot_size : params.base_lot_size < 256 ^ 8
  pub quote_lot_size : params.quote_lot_size < 256 ^ 8
  pub fee_rate_bps : params.fee_rate_bps < 256 ^ 2
  pub vault_signer_nonce : params.vault_signer_nonce < 256 ^ 8
  pub quote_dust_threshold : params.quote_dust_threshold < 256 ^ 8

pub record NewOrderFits {Key : Type 0} (params : NewOrderParams Key) : Type 0 where
  pub side : params.side < 256 ^ 4
  pub limit_price : params.limit_price < 256 ^ 8
  pub max_quantity : params.max_quantity < 256 ^ 8
  pub order_type : params.order_type < 256 ^ 4
  pub client_id : params.client_id < 256 ^ 8

pub record MatchOrdersFits {Key : Type 0} (params : MatchOrdersParams Key) : Type 0 where
  pub limit : params.limit < 256 ^ 2

pub record CancelOrderFits {Key : Type 0} (params : CancelOrderParams Key) : Type 0 where
  pub side : params.side < 2
  pub order_id : params.order_id < 256 ^ 16
  pub open_orders_slot : params.open_orders_slot < 256 ^ 1

pub record CancelOrderByClientIdFits {Key : Type 0} (params : CancelOrderByClientIdParams Key)
    : Type 0 where
  pub client_id : params.client_id < 256 ^ 8

pub record CancelOrderByClientIdV2Fits {Key : Type 0} (params : CancelOrderByClientIdV2Params Key)
    : Type 0 where
  pub client_id : params.client_id < 256 ^ 8

module _ (keys : PublicKeys) (programs : Programs keys) ⦃lib : Construct⦄ where
  open keys use {PublicKey, key_bytes, length-key_bytes}

  -- From parameters whose numbers fit their fields `initialize_market` builds an instruction, and
  -- decoding it gives the parameters back.
  pub decode_initialize_market-initialize_market :
      (params : InitializeMarketParams PublicKey)
      → InitializeMarketFits params
      → (initialize_market keys programs params >>= decode_initialize_market keys programs)
        ≡ ok params
  unfolding initialize_market decode_initialize_market args_layout initialize_market_layout
  decode_initialize_market-initialize_market params h =
      let (data', built, parsed) =
        instruct-parses keys programs initialize_market_type _ params.program_id
          (initialize_market_accounts keys programs params)
          (choice-RoundTrips initialize_market_args as_initialize_market refl (
            uint-RoundTrips 8 params.base_lot_size h.base_lot_size
            ⨟ᵣ uint-RoundTrips 8 params.quote_lot_size h.quote_lot_size
            ⨟ᵣ uint-RoundTrips 2 params.fee_rate_bps h.fee_rate_bps
            ⨟ᵣ uint-RoundTrips 8 params.vault_signer_nonce h.vault_signer_nonce
            ⨟ᵣ uint-RoundTrips 8 params.quote_dust_threshold h.quote_dust_threshold))
          (omega arith) in
      rw (built, parsed) refl

  -- From parameters whose numbers fit their fields `new_order` builds an instruction,
  -- and decoding it gives the parameters back, but for the program, which is the default one.
  pub decode_new_order-new_order :
      (params : NewOrderParams PublicKey)
      → NewOrderFits params
      → (new_order keys programs params >>= decode_new_order keys programs)
        ≡ ok (record {
          market = params.market;
          open_orders = params.open_orders;
          payer = params.payer;
          owner = params.owner;
          request_queue = params.request_queue;
          base_vault = params.base_vault;
          quote_vault = params.quote_vault;
          side = params.side;
          limit_price = params.limit_price;
          max_quantity = params.max_quantity;
          order_type = params.order_type;
          client_id = params.client_id;
          program_id = programs.default_dex_program;
        })
  unfolding new_order decode_new_order args_layout new_order_layout
  decode_new_order-new_order params h =
      let (data', built, parsed) =
        instruct-parses keys programs new_order_type _ params.program_id
          (new_order_accounts keys programs params)
          (choice-RoundTrips new_order_args as_new_order refl (
            uint-RoundTrips 4 params.side h.side
            ⨟ᵣ uint-RoundTrips 8 params.limit_price h.limit_price
            ⨟ᵣ uint-RoundTrips 8 params.max_quantity h.max_quantity
            ⨟ᵣ uint-RoundTrips 4 params.order_type h.order_type
            ⨟ᵣ uint-RoundTrips 8 params.client_id h.client_id))
          (omega arith) in
      rw (built, parsed) refl

  -- From parameters whose numbers fit their fields `match_orders` builds an instruction,
  -- and decoding it gives the parameters back, but for the program, which is the default one.
  pub decode_match_orders-match_orders :
      (params : MatchOrdersParams PublicKey)
      → MatchOrdersFits params
      → (match_orders keys programs params >>= decode_match_orders keys programs)
        ≡ ok (record {
          market = params.market;
          request_queue = params.request_queue;
          event_queue = params.event_queue;
          bids = params.bids;
          asks = params.asks;
          base_vault = params.base_vault;
          quote_vault = params.quote_vault;
          limit = params.limit;
          program_id = programs.default_dex_program;
        })
  unfolding match_orders decode_match_orders args_layout match_orders_layout
  decode_match_orders-match_orders params h =
      let (data', built, parsed) =
        instruct-parses keys programs match_order_type _ params.program_id
          (match_orders_accounts keys programs params)
          (choice-RoundTrips match_orders_args as_match_orders refl
            (uint-RoundTrips 2 params.limit h.limit))
          (omega arith) in
      rw (built, parsed) refl

  -- From parameters with a side, and with numbers that fit their fields, `cancel_order` builds an instruction,
  -- and decoding it gives the parameters back, but for the program, which is the default one.
  pub decode_cancel_order-cancel_order :
      (params : CancelOrderParams PublicKey)
      → CancelOrderFits params
      → (cancel_order keys programs params >>= decode_cancel_order keys programs)
        ≡ ok (record {
          market = params.market;
          open_orders = params.open_orders;
          owner = params.owner;
          request_queue = params.request_queue;
          side = params.side;
          order_id = params.order_id;
          open_orders_slot = params.open_orders_slot;
          program_id = programs.default_dex_program;
        })
  unfolding cancel_order decode_cancel_order args_layout cancel_order_layout to_bytes
  decode_cancel_order-cancel_order params h =
      let (data', built, parsed) =
        instruct-parses keys programs cancel_order_type _ params.program_id
          (cancel_order_accounts keys programs params)
          (choice-RoundTrips cancel_order_args as_cancel_order refl (
            uint-RoundTrips 4 params.side (omega (arith, h.side))
            ⨟ᵣ bytes-RoundTrips 16 (low_bytes 16 params.order_id)
                (length-low_bytes 16 params.order_id)
            ⨟ᵣ bytes-RoundTrips 32 (key_bytes params.open_orders)
                (length-key_bytes params.open_orders)
            ⨟ᵣ uint-RoundTrips 1 params.open_orders_slot h.open_orders_slot))
          (omega arith) in
      rw
        (
          ltb-true params.order_id (256 ^ 16) h.order_id,
          built,
          parsed,
          ltb-true params.side 2 h.side,
          from_bytes-low_bytes 16 params.order_id h.order_id,
        )
        refl

  -- From any parameters `settle_funds` builds an instruction,
  -- and decoding it gives the parameters back, but for the program, which is the default one.
  pub decode_settle_funds-settle_funds :
      (params : SettleFundsParams PublicKey)
      → (settle_funds keys programs params >>= decode_settle_funds keys programs)
        ≡ ok (record {
          market = params.market;
          open_orders = params.open_orders;
          owner = params.owner;
          base_vault = params.base_vault;
          quote_vault = params.quote_vault;
          base_wallet = params.base_wallet;
          quote_wallet = params.quote_wallet;
          vault_signer = params.vault_signer;
          program_id = programs.default_dex_program;
        })
  unfolding settle_funds decode_settle_funds args_layout
  decode_settle_funds-settle_funds params =
      let (data', built, parsed) =
        instruct-parses keys programs settle_funds_type _ params.program_id
          (settle_funds_accounts keys programs params)
          (choice-RoundTrips (λ _. no_args) as_no_args refl pass-RoundTrips) (omega arith) in
      rw built refl

  -- From parameters whose numbers fit their fields `cancel_order_by_client_id` builds an instruction,
  -- and decoding it gives the parameters back, but for the program, which is the default one.
  pub decode_cancel_order_by_client_id-cancel_order_by_client_id :
      (params : CancelOrderByClientIdParams PublicKey)
      → CancelOrderByClientIdFits params
      → (cancel_order_by_client_id keys programs params
          >>= decode_cancel_order_by_client_id keys programs)
        ≡ ok (record {
          market = params.market;
          open_orders = params.open_orders;
          owner = params.owner;
          request_queue = params.request_queue;
          client_id = params.client_id;
          program_id = programs.default_dex_program;
        })
  unfolding cancel_order_by_client_id decode_cancel_order_by_client_id args_layout
      cancel_order_by_client_id_layout
  decode_cancel_order_by_client_id-cancel_order_by_client_id params h =
      let (data', built, parsed) =
        instruct-parses keys programs cancel_order_by_client_id_type _ params.program_id
          (cancel_order_by_client_id_accounts keys programs params)
          (choice-RoundTrips cancel_order_by_client_id_args as_cancel_order_by_client_id refl
            (uint-RoundTrips 8 params.client_id h.client_id))
          (omega arith) in
      rw (built, parsed) refl

  -- From parameters whose numbers fit their fields `cancel_order_by_client_id_v2` builds an instruction,
  -- and decoding it gives the parameters back, but for the program, which is the default one.
  pub decode_cancel_order_by_client_id_v2-cancel_order_by_client_id_v2 :
      (params : CancelOrderByClientIdV2Params PublicKey)
      → CancelOrderByClientIdV2Fits params
      → (cancel_order_by_client_id_v2 keys programs params
          >>= decode_cancel_order_by_client_id_v2 keys programs)
        ≡ ok (record {
          market = params.market;
          bids = params.bids;
          asks = params.asks;
          event_queue = params.event_queue;
          open_orders = params.open_orders;
          owner = params.owner;
          client_id = params.client_id;
          program_id = programs.default_dex_program;
        })
  unfolding cancel_order_by_client_id_v2 decode_cancel_order_by_client_id_v2 args_layout
      cancel_order_by_client_id_v2_layout
  decode_cancel_order_by_client_id_v2-cancel_order_by_client_id_v2 params h =
      let (data', built, parsed) =
        instruct-parses keys programs cancel_order_by_client_id_v2_type _ params.program_id
          (cancel_order_by_client_id_v2_accounts keys programs params)
          (choice-RoundTrips cancel_order_by_client_id_v2_args as_cancel_order_by_client_id_v2 refl
            (uint-RoundTrips 8 params.client_id h.client_id))
          (omega arith) in
      rw (built, parsed) refl
