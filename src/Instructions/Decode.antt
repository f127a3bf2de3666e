-- ===== src/Instructions/Decode.antt =====
-- The functions of pyserum/instructions.py that decode an instruction.
use pyserum.Base.{
  ℕ, none, some, get_elem?, length, or_raise, Result, ok, err, ◌>>=◌, ◌>>◌, ltb, index_error,
  value_error, attribute_error, if◌then◌else◌,
}
use pyserum.Base.Bytes
use pyserum.Base.Bytes.{Bytes}
use pyserum.Construct.{Construct}
use pyserum.Solana.{PublicKeys, Programs, TransactionInstruction}
use pyserum.Instructions.Layout.{
  Args, instructions_layout, as_initialize_market, as_new_order, as_match_orders, as_cancel_order,
  as_cancel_order_by_client_id, as_cancel_order_by_client_id_v2, as_new_order_v3,
  as_cancel_order_v2, open_orders_slot_of,
}
use pyserum.Instructions.Build.{
  InstructionType, type_number, account_count, initialize_market_type, new_order_type,
  match_order_type, cancel_order_type, cancel_order_by_client_id_type,
  cancel_order_by_client_id_v2_type, new_order_v3_type, cancel_order_v2_type,
}
use pyserum.Instructions.Params.{
  InitializeMarketParams, NewOrderParams, MatchOrdersParams, CancelOrderParams, SettleFundsParams,
  CancelOrderByClientIdParams, CancelOrderByClientIdV2Params, NewOrderV3Params, CancelOrderV2Params,
}

-- Side(n), OrderType(n) and SelfTradeBehavior(n): the first `size` numbers are members.
abbrev pub member : ℕ → ℕ → Result ℕ
member size n = if ltb n size then ok n else err value_error

module _ (keys : PublicKeys) (programs : Programs keys) ⦃lib : Construct⦄ where
  open keys use {PublicKey}

  -- __parse_and_validate_instruction, for what it returns: the arguments.
  unfoldable pub parse_and_validate_instruction :
      TransactionInstruction PublicKey → InstructionType → Result Args
  parse_and_validate_instruction instruction type = do
    programs.validate_instruction_keys (length instruction.keys) (account_count type)
    (container, rest) ← instructions_layout.parse instruction.data_bytes
    programs.validate_instruction_type container.instruction_type (type_number type)
    ok container.args

  -- instruction.keys[i].pubkey
  abbrev pub key_at : TransactionInstruction PublicKey → ℕ → Result PublicKey
  key_at instruction i = do
    account ← or_raise (get_elem? instruction.keys i) index_error
    ok account.pubkey

  unfoldable pub decode_initialize_market :
      TransactionInstruction PublicKey → Result (InitializeMarketParams PublicKey)
  unfolding parse_and_validate_instruction
  decode_initialize_market instruction = do
    args ← parse_and_validate_instruction instruction initialize_market_type
    (base_lot_size, (quote_lot_size, (fee_rate_bps, (vault_signer_nonce, quote_dust_threshold)))) ←
        or_raise (as_initialize_market args) attribute_error
    market ← key_at instruction 0
    request_queue ← key_at instruction 1
    event_queue ← key_at instruction 2
    bids ← key_at instruction 3
    asks ← key_at instruction 4
    base_vault ← key_at instruction 5
    quote_vault ← key_at instruction 6
    base_mint ← key_at instruction 7
    quote_mint ← key_at instruction 8
    ok (record {
      market = market;
      request_queue = request_queue;
      event_queue = event_queue;
      bids = bids;
      asks = asks;
      base_vault = base_vault;
      quote_vault = quote_vault;
      base_mint = base_mint;
      quote_mint = quote_mint;
      base_lot_size = base_lot_size;
      quote_lot_size = quote_lot_size;
      fee_rate_bps = fee_rate_bps;
      vault_signer_nonce = vault_signer_nonce;
      quote_dust_threshold = quote_dust_threshold;
      program_id = instruction.program_id;
    })

  unfoldable pub decode_new_order :
      TransactionInstruction PublicKey → Result (NewOrderParams PublicKey)
  unfolding parse_and_validate_instruction
  decode_new_order instruction = do
    args ← parse_and_validate_instruction instruction new_order_type
    (side, (limit_price, (max_quantity, (order_type, client_id)))) ←
        or_raise (as_new_order args) attribute_error
    market ← key_at instruction 0
    open_orders ← key_at instruction 1
    request_queue ← key_at instruction 2
    payer ← key_at instruction 3
    owner ← key_at instruction 4
    base_vault ← key_at instruction 5
    quote_vault ← key_at instruction 6
    ok (record {
      market = market;
      open_orders = open_orders;
      payer = payer;
      owner = owner;
      request_queue = request_queue;
      base_vault = base_vault;
      quote_vault = quote_vault;
      side = side;
      limit_price = limit_price;
      max_quantity = max_quantity;
      order_type = order_type;
      client_id = client_id;
      program_id = programs.default_dex_program;
    })

  unfoldable pub decode_match_orders :
      TransactionInstruction PublicKey → Result (MatchOrdersParams PublicKey)
  unfolding parse_and_validate_instruction
  decode_match_orders instruction = do
    args ← parse_and_validate_instruction instruction match_order_type
    limit ← or_raise (as_match_orders args) attribute_error
    market ← key_at instruction 0
    request_queue ← key_at instruction 1
    event_queue ← key_at instruction 2
    bids ← key_at instruction 3
    asks ← key_at instruction 4
    base_vault ← key_at instruction 5
    quote_vault ← key_at instruction 6
    ok (record {
      market = market;
      request_queue = request_queue;
      event_queue = event_queue;
      bids = bids;
      asks = asks;
      base_vault = base_vault;
      quote_vault = quote_vault;
      limit = limit;
      program_id = programs.default_dex_program;
    })

  unfoldable pub decode_cancel_order :
      TransactionInstruction PublicKey → Result (CancelOrderParams PublicKey)
  unfolding parse_and_validate_instruction
  decode_cancel_order instruction = do
    args ← parse_and_validate_instruction instruction cancel_order_type
    (side_number, (order_id_bytes, (open_orders_bytes, open_orders_slot))) ←
        or_raise (as_cancel_order args) attribute_error
    market ← key_at instruction 0
    open_orders ← key_at instruction 1
    request_queue ← key_at instruction 2
    owner ← key_at instruction 3
    side ← member 2 side_number
    ok (record {
      market = market;
      open_orders = open_orders;
      owner = owner;
      request_queue = request_queue;
      side = side;
      order_id = Bytes.from_bytes order_id_bytes;
      open_orders_slot = open_orders_slot;
      program_id = programs.default_dex_program;
    })

  unfoldable pub decode_settle_funds :
      TransactionInstruction PublicKey → Result (SettleFundsParams PublicKey)
  decode_settle_funds instruction = do
    market ← key_at instruction 0
    open_orders ← key_at instruction 1
    owner ← key_at instruction 2
    base_vault ← key_at instruction 3
    quote_vault ← key_at instruction 4
    base_wallet ← key_at instruction 5
    quote_wallet ← key_at instruction 6
    vault_signer ← key_at instruction 7
    ok (record {
      market = market;
      open_orders = open_orders;
      owner = owner;
      base_vault = base_vault;
      quote_vault = quote_vault;
      base_wallet = base_wallet;
      quote_wallet = quote_wallet;
      vault_signer = vault_signer;
      program_id = programs.default_dex_program;
    })

  unfoldable pub decode_cancel_order_by_client_id :
      TransactionInstruction PublicKey → Result (CancelOrderByClientIdParams PublicKey)
  unfolding parse_and_validate_instruction
  decode_cancel_order_by_client_id instruction = do
    args ← parse_and_validate_instruction instruction cancel_order_by_client_id_type
    client_id ← or_raise (as_cancel_order_by_client_id args) attribute_error
    market ← key_at instruction 0
    open_orders ← key_at instruction 1
    request_queue ← key_at instruction 2
    owner ← key_at instruction 3
    ok (record {
      market = market;
      open_orders = open_orders;
      owner = owner;
      request_queue = request_queue;
      client_id = client_id;
      program_id = programs.default_dex_program;
    })

  unfoldable pub decode_cancel_order_by_client_id_v2 :
      TransactionInstruction PublicKey → Result (CancelOrderByClientIdV2Params PublicKey)
  unfolding parse_and_validate_instruction
  decode_cancel_order_by_client_id_v2 instruction = do
    args ← parse_and_validate_instruction instruction cancel_order_by_client_id_v2_type
    client_id ← or_raise (as_cancel_order_by_client_id_v2 args) attribute_error
    market ← key_at instruction 0
    bids ← key_at instruction 1
    asks ← key_at instruction 2
    open_orders ← key_at instruction 3
    owner ← key_at instruction 4
    event_queue ← key_at instruction 5
    ok (record {
      market = market;
      bids = bids;
      asks = asks;
      event_queue = event_queue;
      open_orders = open_orders;
      owner = owner;
      client_id = client_id;
      program_id = programs.default_dex_program;
    })

  unfoldable pub decode_new_order_v3 :
      TransactionInstruction PublicKey → Result (NewOrderV3Params PublicKey)
  unfolding parse_and_validate_instruction
  decode_new_order_v3 instruction = do
    args ← parse_and_validate_instruction instruction new_order_v3_type
    (
      side,
      (
        limit_price,
        (
          max_base_quantity,
          (max_quote_quantity, (self_trade_behavior, (order_type, (client_id, limit)))),
        ),
      ),
    ) ←
        or_raise (as_new_order_v3 args) attribute_error
    market ← key_at instruction 0
    open_orders ← key_at instruction 1
    request_queue ← key_at instruction 2
    event_queue ← key_at instruction 3
    bids ← key_at instruction 4
    asks ← key_at instruction 5
    payer ← key_at instruction 6
    owner ← key_at instruction 7
    base_vault ← key_at instruction 8
    quote_vault ← key_at instruction 9
    behavior ← member 3 self_trade_behavior
    kind ← member 3 order_type
    ok (record {
      market = market;
      open_orders = open_orders;
      payer = payer;
      owner = owner;
      request_queue = request_queue;
      event_queue = event_queue;
      bids = bids;
      asks = asks;
      base_vault = base_vault;
      quote_vault = quote_vault;
      side = side;
      limit_price = limit_price;
      max_base_quantity = max_base_quantity;
      max_quote_quantity = max_quote_quantity;
      order_type = kind;
      self_trade_behavior = behavior;
      limit = some limit;
      client_id = client_id;
      program_id = programs.default_dex_program;
      fee_discount_pubkey = none;
    })

  -- The arguments have no field `open_orders_slot`.
  unfoldable pub decode_cancel_order_v2 :
      TransactionInstruction PublicKey → Result (CancelOrderV2Params PublicKey)
  unfolding parse_and_validate_instruction open_orders_slot_of
  decode_cancel_order_v2 instruction = do
    args ← parse_and_validate_instruction instruction cancel_order_v2_type
    (side_number, order_id_bytes) ← or_raise (as_cancel_order_v2 args) attribute_error
    market ← key_at instruction 0
    bids ← key_at instruction 1
    asks ← key_at instruction 2
    open_orders ← key_at instruction 3
    owner ← key_at instruction 4
    event_queue ← key_at instruction 5
    side ← member 2 side_number
    open_orders_slot ← or_raise (open_orders_slot_of args) attribute_error
    ok (record {
      market = market;
      bids = bids;
      asks = asks;
      open_orders = open_orders;
      owner = owner;
      event_queue = event_queue;
      side = side;
      order_id = Bytes.from_bytes order_id_bytes;
      open_orders_slot = open_orders_slot;
      program_id = programs.default_dex_program;
    })
