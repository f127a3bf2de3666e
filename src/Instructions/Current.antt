-- ===== src/Instructions/Current.antt =====
-- Building and decoding the instructions of the current version of the program that lose something.
use pyserum.Base.{◌^◌, ◌<◌, ◌≡◌, refl, none, some, ok, ◌>>=◌, arith, ltb-true}
use pyserum.Construct.{Construct}
use pyserum.Construct.RoundTrips.{uint-RoundTrips, ◌⨟ᵣ◌}
use pyserum.Solana.{PublicKeys, Programs}
use pyserum.Instructions.Layout.{
  args_layout, new_order_v3_args, as_new_order_v3, new_order_v3_layout,
}
use pyserum.Instructions.Params.{NewOrderV3Params, CancelOrderV2Params}
use pyserum.Instructions.Build.{new_order_v3, new_order_v3_type, new_order_v3_accounts}
use pyserum.Instructions.Decode.{decode_new_order_v3}
use pyserum.Instructions.Data.{choice-RoundTrips, instruct-parses}

pub record NewOrderV3Fits {Key : Type 0} (params : NewOrderV3Params Key) : Type 0 where
  pub side : params.side < 256 ^ 4
  pub limit_price : params.limit_price < 256 ^ 8
  pub max_base_quantity : params.max_base_quantity < 256 ^ 8
  pub max_quote_quantity : params.max_quote_quantity < 256 ^ 8
  pub self_trade_behavior : params.self_trade_behavior < 3
  pub order_type : params.order_type < 3
  pub client_id : params.client_id < 256 ^ 8

pub record CancelOrderV2Fits {Key : Type 0} (params : CancelOrderV2Params Key) : Type 0 where
  pub side : params.side < 2
  pub order_id : params.order_id < 256 ^ 16

module _ (keys : PublicKeys) (programs : Programs keys) ⦃lib : Construct⦄ where
  open keys use {PublicKey}

  -- From parameters with an order type, a self-trade behavior and numbers that fit their fields,
  -- `new_order_v3` builds an instruction, with or without an account for a discount, and decoding it
  -- gives the parameters back, but for the limit, which is 65535, the program, which is the default
  -- one, and the account for a discount, of which there is none.
  pub decode_new_order_v3-new_order_v3 :
      (params : NewOrderV3Params PublicKey)
      → NewOrderV3Fits params
      → (new_order_v3 keys programs params >>= decode_new_order_v3 keys programs)
        ≡ ok (record {
          market = params.market;
          open_orders = params.open_orders;
          payer = params.payer;
          owner = params.owner;
          request_queue = params.request_queue;
          event_queue = params.event_queue;
          bids = params.bids;
          asks = params.asks;
          base_vault = params.base_vault;
          quote_vault = params.quote_vault;
          side = params.side;
          limit_price = params.limit_price;
          max_base_quantity = params.max_base_quantity;
          max_quote_quantity = params.max_quote_quantity;
          order_type = params.order_type;
          self_trade_behavior = params.self_trade_behavior;
          limit = some 65535;
          client_id = params.client_id;
          program_id = programs.default_dex_program;
          fee_discount_pubkey = none;
        })
  unfolding new_order_v3 decode_new_order_v3 args_layout new_order_v3_layout
  decode_new_order_v3-new_order_v3 params h =
      let (data', built, parsed) =
        instruct-parses keys programs new_order_v3_type _ params.program_id
          (new_order_v3_accounts keys programs params)
          (choice-RoundTrips new_order_v3_args as_new_order_v3 refl (
            uint-RoundTrips 4 params.side h.side
            ⨟ᵣ uint-RoundTrips 8 params.limit_price h.limit_price
            ⨟ᵣ uint-RoundTrips 8 params.max_base_quantity h.max_base_quantity
            ⨟ᵣ uint-RoundTrips 8 params.max_quote_quantity h.max_quote_quantity
            ⨟ᵣ uint-RoundTrips 4 params.self_trade_behavior (omega (arith, h.self_trade_behavior))
            ⨟ᵣ uint-RoundTrips 4 params.order_type (omega (arith, h.order_type))
            ⨟ᵣ uint-RoundTrips 8 params.client_id h.client_id
            ⨟ᵣ uint-RoundTrips 2 65535 (omega arith)))
          (omega arith) in
      rw
        (
          built,
          parsed,
          ltb-true params.self_trade_behavior 3 h.self_trade_behavior,
          ltb-true params.order_type 3 h.order_type,
        )
        refl
