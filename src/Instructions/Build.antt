-- ===== src/Instructions/Build.antt =====
-- The functions of pyserum/instructions.py that build an instruction from its parameters.
use pyserum.Base.{ℕ, true, false, Option, none, some, List, [], ◌∷◌, Result, ok, ◌>>=◌}
use pyserum.Base.Bytes.{to_bytes}
use pyserum.Construct.{Construct}
use pyserum.Solana.{PublicKeys, Programs, AccountMeta, TransactionInstruction, meta}
use pyserum.Instructions.Layout.{
  Args, instructions_layout, no_args, initialize_market_args, new_order_args, match_orders_args,
  cancel_order_args, cancel_order_by_client_id_args, cancel_order_by_client_id_v2_args,
  new_order_v3_args, cancel_order_v2_args,
}
use pyserum.Instructions.Params.{
  InitializeMarketParams, NewOrderParams, MatchOrdersParams, CancelOrderParams, SettleFundsParams,
  CancelOrderByClientIdParams, CancelOrderByClientIdV2Params, NewOrderV3Params, CancelOrderV2Params,
}

-- The members of InstructionType, their numbers, and the numbers of keys that decoding asks for.
pub data InstructionType : Type 0 where
  initialize_market_type : InstructionType
  new_order_type : InstructionType
  match_order_type : InstructionType
  consume_events_type : InstructionType
  cancel_order_type : InstructionType
  settle_funds_type : InstructionType
  cancel_order_by_client_id_type : InstructionType
  new_order_v3_type : InstructionType
  cancel_order_v2_type : InstructionType
  cancel_order_by_client_id_v2_type : InstructionType

abbrev pub type_number : InstructionType → ℕ
type_number initialize_market_type = 0
type_number new_order_type = 1
type_number match_order_type = 2
type_number consume_events_type = 3
type_number cancel_order_type = 4
type_number settle_funds_type = 5
type_number cancel_order_by_client_id_type = 6
type_number new_order_v3_type = 10
type_number cancel_order_v2_type = 11
type_number cancel_order_by_client_id_v2_type = 12

abbrev pub account_count : InstructionType → ℕ
account_count initialize_market_type = 9
account_count new_order_type = 9
account_count match_order_type = 7
account_count consume_events_type = 2
account_count cancel_order_type = 4
account_count settle_funds_type = 9
account_count cancel_order_by_client_id_type = 4
account_count new_order_v3_type = 12
account_count cancel_order_v2_type = 6
account_count cancel_order_by_client_id_v2_type = 6

-- The accounts that the instructions name, each with its flags `is_signer` and `is_writable`.
module _ (keys : PublicKeys) (programs : Programs keys) where
  open keys use {PublicKey}

  abbrev pub initialize_market_accounts :
      InitializeMarketParams PublicKey → List (AccountMeta PublicKey)
  initialize_market_accounts params =
      meta params.market false false
      ∷ meta params.request_queue false true
      ∷ meta params.event_queue false true
      ∷ meta params.bids false true
      ∷ meta params.asks false true
      ∷ meta params.base_vault false true
      ∷ meta params.quote_vault false true
      ∷ meta params.base_mint false false
      ∷ meta params.quote_mint false false
      ∷ []

  abbrev pub new_order_accounts : NewOrderParams PublicKey → List (AccountMeta PublicKey)
  new_order_accounts params =
      meta params.market false true
      ∷ meta params.open_orders false true
      ∷ meta params.request_queue false true
      ∷ meta params.payer false true
      ∷ meta params.owner true false
      ∷ meta params.base_vault false true
      ∷ meta params.quote_vault false true
      ∷ meta programs.token_program false false
      ∷ meta programs.rent false false
      ∷ []

  abbrev pub match_orders_accounts : MatchOrdersParams PublicKey → List (AccountMeta PublicKey)
  match_orders_accounts params =
      meta params.market false true
      ∷ meta params.request_queue false true
      ∷ meta params.event_queue false true
      ∷ meta params.bids false true
      ∷ meta params.asks false true
      ∷ meta params.base_vault false true
      ∷ meta params.quote_vault false true
      ∷ []

  abbrev pub cancel_order_accounts : CancelOrderParams PublicKey → List (AccountMeta PublicKey)
  cancel_order_accounts params =
      meta params.market false false
      ∷ meta params.open_orders false true
      ∷ meta params.request_queue false true
      ∷ meta params.owner true false
      ∷ []

  abbrev pub settle_funds_accounts : SettleFundsParams PublicKey → List (AccountMeta PublicKey)
  settle_funds_accounts params =
      meta params.market false true
      ∷ meta params.open_orders false true
      ∷ meta params.owner true false
      ∷ meta params.base_vault false true
      ∷ meta params.quote_vault false true
      ∷ meta params.base_wallet false true
      ∷ meta params.quote_wallet false true
      ∷ meta params.vault_signer false false
      ∷ meta programs.token_program false false
      ∷ []

  abbrev pub cancel_order_by_client_id_accounts :
      CancelOrderByClientIdParams PublicKey → List (AccountMeta PublicKey)
  cancel_order_by_client_id_accounts params =
      meta params.market false false
      ∷ meta params.open_orders false true
      ∷ meta params.request_queue false true
      ∷ meta params.owner true false
      ∷ []

  abbrev pub cancel_order_v2_accounts : CancelOrderV2Params PublicKey → List (AccountMeta PublicKey)
  cancel_order_v2_accounts params =
      meta params.market false false
      ∷ meta params.bids false true
      ∷ meta params.asks false true
      ∷ meta params.open_orders false true
      ∷ meta params.owner true false
      ∷ meta params.event_queue false true
      ∷ []

  abbrev pub cancel_order_by_client_id_v2_accounts :
      CancelOrderByClientIdV2Params PublicKey → List (AccountMeta PublicKey)
  cancel_order_by_client_id_v2_accounts params =
      meta params.market false false
      ∷ meta params.bids false true
      ∷ meta params.asks false true
      ∷ meta params.open_orders false true
      ∷ meta params.owner true false
      ∷ meta params.event_queue false true
      ∷ []

  -- The account for a discount is appended where there is one.
  abbrev pub discount : Option PublicKey → List (AccountMeta PublicKey)
  discount none = []
  discount (some key) = meta key false false ∷ []

  abbrev pub new_order_v3_accounts : NewOrderV3Params PublicKey → List (AccountMeta PublicKey)
  new_order_v3_accounts params =
      meta params.market false true
      ∷ meta params.open_orders false true
      ∷ meta params.request_queue false true
      ∷ meta params.event_queue false true
      ∷ meta params.bids false true
      ∷ meta params.asks false true
      ∷ meta params.payer false true
      ∷ meta params.owner true false
      ∷ meta params.base_vault false true
      ∷ meta params.quote_vault false true
      ∷ meta programs.token_program false false
      ∷ meta programs.rent false false
      ∷ discount params.fee_discount_pubkey

module _ (keys : PublicKeys) (programs : Programs keys) ⦃lib : Construct⦄ where
  open keys use {PublicKey, key_bytes}

  -- A TransactionInstruction whose data is INSTRUCTIONS_LAYOUT.build of the arguments.
  unfoldable pub instruct :
      InstructionType
      → Args
      → PublicKey
      → List (AccountMeta PublicKey)
      → Result (TransactionInstruction PublicKey)
  instruct type args program_id accounts = do
    data' ← instructions_layout.build (record { instruction_type = type_number type; args = args })
    ok (record { keys = accounts; program_id = program_id; data_bytes = data' })

  unfoldable pub initialize_market :
      InitializeMarketParams PublicKey → Result (TransactionInstruction PublicKey)
  unfolding instruct
  initialize_market params =
      instruct initialize_market_type
        (initialize_market_args (
          params.base_lot_size,
          (
            params.quote_lot_size,
            (params.fee_rate_bps, (params.vault_signer_nonce, params.quote_dust_threshold)),
          ),
        ))
        params.program_id (initialize_market_accounts keys programs params)

  unfoldable pub new_order : NewOrderParams PublicKey → Result (TransactionInstruction PublicKey)
  unfolding instruct
  new_order params =
      instruct new_order_type
        (new_order_args (
          params.side,
          (params.limit_price, (params.max_quantity, (params.order_type, params.client_id))),
        ))
        params.program_id (new_order_accounts keys programs params)

  unfoldable pub match_orders :
      MatchOrdersParams PublicKey → Result (TransactionInstruction PublicKey)
  unfolding instruct
  match_orders params =
      instruct match_order_type (match_orders_args params.limit) params.program_id
        (match_orders_accounts keys programs params)

  unfoldable pub cancel_order :
      CancelOrderParams PublicKey → Result (TransactionInstruction PublicKey)
  unfolding instruct
  cancel_order params = do
    order_id ← to_bytes params.order_id 16
    instruct cancel_order_type
        (cancel_order_args
          (params.side, (order_id, (key_bytes params.open_orders, params.open_orders_slot))))
        params.program_id (cancel_order_accounts keys programs params)

  unfoldable pub settle_funds :
      SettleFundsParams PublicKey → Result (TransactionInstruction PublicKey)
  unfolding instruct
  settle_funds params =
      instruct settle_funds_type no_args params.program_id
        (settle_funds_accounts keys programs params)

  unfoldable pub cancel_order_by_client_id :
      CancelOrderByClientIdParams PublicKey → Result (TransactionInstruction PublicKey)
  unfolding instruct
  cancel_order_by_client_id params =
      instruct cancel_order_by_client_id_type (cancel_order_by_client_id_args params.client_id)
        params.program_id (cancel_order_by_client_id_accounts keys programs params)

  unfoldable pub cancel_order_by_client_id_v2 :
      CancelOrderByClientIdV2Params PublicKey → Result (TransactionInstruction PublicKey)
  unfolding instruct
  cancel_order_by_client_id_v2 params =
      instruct cancel_order_by_client_id_v2_type
        (cancel_order_by_client_id_v2_args params.client_id) params.program_id
        (cancel_order_by_client_id_v2_accounts keys programs params)

  -- The limit of the parameters is not used.
  unfoldable pub new_order_v3 :
      NewOrderV3Params PublicKey → Result (TransactionInstruction PublicKey)
  unfolding instruct
  new_order_v3 params =
      instruct new_order_v3_type
        (new_order_v3_args (
          params.side,
          (
            params.limit_price,
            (
              params.max_base_quantity,
              (
                params.max_quote_quantity,
                (params.self_trade_behavior, (params.order_type, (params.client_id, 65535))),
              ),
            ),
          ),
        ))
        params.program_id (new_order_v3_accounts keys programs params)

  unfoldable pub cancel_order_v2 :
      CancelOrderV2Params PublicKey → Result (TransactionInstruction PublicKey)
  unfolding instruct
  cancel_order_v2 params = do
    order_id ← to_bytes params.order_id 16
    instruct cancel_order_v2_type (cancel_order_v2_args (params.side, order_id)) params.program_id
        (cancel_order_v2_accounts keys programs params)
