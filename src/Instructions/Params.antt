-- ===== src/Instructions/Params.antt =====
-- The named tuples of pyserum/instructions.py that hold the parameters of instructions. The members of
-- Side, OrderType and SelfTradeBehavior are their numbers, as an IntEnum's members are.
use pyserum.Base.{ℕ, Option}

pub record InitializeMarketParams (Key : Type 0) : Type 0 where
  pub market : Key
  pub request_queue : Key
  pub event_queue : Key
  pub bids : Key
  pub asks : Key
  pub base_vault : Key
  pub quote_vault : Key
  pub base_mint : Key
  pub quote_mint : Key
  pub base_lot_size : ℕ
  pub quote_lot_size : ℕ
  pub fee_rate_bps : ℕ
  pub vault_signer_nonce : ℕ
  pub quote_dust_threshold : ℕ
  pub program_id : Key

pub record NewOrderParams (Key : Type 0) : Type 0 where
  pub market : Key
  pub open_orders : Key
  pub payer : Key
  pub owner : Key
  pub request_queue : Key
  pub base_vault : Key
  pub quote_vault : Key
  pub side : ℕ
  pub limit_price : ℕ
  pub max_quantity : ℕ
  pub order_type : ℕ
  pub client_id : ℕ
  pub program_id : Key

pub record MatchOrdersParams (Key : Type 0) : Type 0 where
  pub market : Key
  pub request_queue : Key
  pub event_queue : Key
  pub bids : Key
  pub asks : Key
  pub base_vault : Key
  pub quote_vault : Key
  pub limit : ℕ
  pub program_id : Key

pub record CancelOrderParams (Key : Type 0) : Type 0 where
  pub market : Key
  pub open_orders : Key
  pub owner : Key
  pub request_queue : Key
  pub side : ℕ
  pub order_id : ℕ
  pub open_orders_slot : ℕ
  pub program_id : Key

pub record SettleFundsParams (Key : Type 0) : Type 0 where
  pub market : Key
  pub open_orders : Key
  pub owner : Key
  pub base_vault : Key
  pub quote_vault : Key
  pub base_wallet : Key
  pub quote_wallet : Key
  pub vault_signer : Key
  pub program_id : Key

pub record CancelOrderByClientIdParams (Key : Type 0) : Type 0 where
  pub market : Key
  pub open_orders : Key
  pub owner : Key
  pub request_queue : Key
  pub client_id : ℕ
  pub program_id : Key

pub record CancelOrderByClientIdV2Params (Key : Type 0) : Type 0 where
  pub market : Key
  pub bids : Key
  pub asks : Key
  pub event_queue : Key
  pub open_orders : Key
  pub owner : Key
  pub client_id : ℕ
  pub program_id : Key

pub record NewOrderV3Params (Key : Type 0) : Type 0 where
  pub market : Key
  pub open_orders : Key
  pub payer : Key
  pub owner : Key
  pub request_queue : Key
  pub event_queue : Key
  pub bids : Key
  pub asks : Key
  pub base_vault : Key
  pub quote_vault : Key
  pub side : ℕ
  pub limit_price : ℕ
  pub max_base_quantity : ℕ
  pub max_quote_quantity : ℕ
  pub order_type : ℕ
  pub self_trade_behavior : ℕ
  pub limit : Option ℕ
  pub client_id : ℕ
  pub program_id : Key
  pub fee_discount_pubkey : Option Key

pub record CancelOrderV2Params (Key : Type 0) : Type 0 where
  pub market : Key
  pub bids : Key
  pub asks : Key
  pub event_queue : Key
  pub open_orders : Key
  pub owner : Key
  pub side : ℕ
  pub order_id : ℕ
  pub open_orders_slot : ℕ
  pub program_id : Key
