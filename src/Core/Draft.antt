-- ===== src/Core/Draft.antt =====
-- The methods of MarketCore in pyserum/market/core.py that put a transaction together. A draft is the
-- transaction and the list of signers that the callers hand in and that the methods append to.
use pyserum.Base.{
  ℕ, Bool, true, false, ◌&&◌, ◌||◌, not, none, List, [], ◌∷◌, ◌++◌, invalid_payer, Result, ok, err,
  if◌then◌else◌,
}
use pyserum.Construct.{Construct}
use pyserum.Solana.{TransactionInstruction}
use pyserum.Market.{base_mint, quote_mint}
use pyserum.Net.Action.{Action, lift, ◌>>=◌}
use pyserum.Net.Client.{Transaction}
use pyserum.OpenOrders.{OpenOrdersAccount}
use pyserum.OrderBook.{Order, Side, buy, sell}
use pyserum.Core.Packages.{Packages}
use pyserum.Core.Defs.{MarketCore}
use pyserum.Core.Instruct.{
  make_create_account_instruction, make_place_order_instruction,
  make_cancel_order_by_client_id_instruction, make_cancel_order_instruction,
  make_match_orders_instruction,
}
use pyserum.Core.Wrapping.{get_lamport_need_for_sol_wrapping}

pub record Draft (Key Keypair : Type 0) : Type 0 where
  pub transaction : Transaction Key
  pub signers : List Keypair

-- transaction.add(instruction) and signers.append(signer)
module _ {Key Keypair : Type 0} where
  abbrev pub add : Draft Key Keypair → TransactionInstruction Key → Draft Key Keypair
  add draft instruction = record draft { transaction = draft.transaction ++ instruction ∷ [] }

  abbrev pub append_signer : Draft Key Keypair → Keypair → Draft Key Keypair
  append_signer draft signer = record draft { signers = draft.signers ++ signer ∷ [] }

abbrev pub is_buy : Side → Bool
is_buy buy = true
is_buy sell = false

module _ (packages : Packages) ⦃lib : Construct⦄ where
  open packages use {keys, programs, wallets, floats, client}
  open keys use {PublicKey, same_key, key_bytes}
  open wallets use {
    wrapped_sol_mint, account_len, create_account, initialize_account, close_account,
    create_program_address,
  }
  open floats use {Float}
  open client use {World, Keypair, owner_key, new_keypair}

  -- Keypair()
  abbrev pub fresh : Action World Keypair
  fresh w = let (pair, w') = new_keypair w in (ok pair, w')

  -- _prepare_new_oo_account
  unfoldable pub prepare_new_oo_account :
      MarketCore PublicKey
      → Keypair
      → ℕ
      → Draft PublicKey Keypair
      → Action World (PublicKey × Draft PublicKey Keypair)
  prepare_new_oo_account core owner balance_needed draft = do
    new_open_orders_account ← fresh
    let place_order_open_order_account = owner_key new_open_orders_account
    instruction ← lift (
        make_create_account_instruction packages (owner_key owner) place_order_open_order_account
          balance_needed core.state.program_id)
    lift (
        ok (
          place_order_open_order_account,
          append_signer (add draft instruction) new_open_orders_account,
        ))

  -- should_wrap_sol in _prepare_order_transaction
  unfoldable pub order_should_wrap_sol : MarketCore PublicKey → Side → Bool
  order_should_wrap_sol core side =
      (is_buy side && same_key (quote_mint keys core.state) wrapped_sol_mint)
      || (not (is_buy side) && same_key (base_mint keys core.state) wrapped_sol_mint)

  -- The account that holds wrapped SOL while a transaction runs.
  abbrev pub create_wrapped : PublicKey → PublicKey → ℕ → Result (TransactionInstruction PublicKey)
  create_wrapped owner account lamports = create_account (record {
    from_pubkey = owner;
    new_account_pubkey = account;
    lamports = lamports;
    space = account_len;
    program_id = programs.token_program;
  })

  abbrev pub initialize_wrapped : PublicKey → PublicKey → TransactionInstruction PublicKey
  initialize_wrapped owner account = initialize_account (record {
    account = account;
    mint = wrapped_sol_mint;
    owner = owner;
    program_id = programs.token_program;
  })

  abbrev pub close_wrapped : PublicKey → PublicKey → TransactionInstruction PublicKey
  close_wrapped owner account = close_account (record {
    account = account;
    owner = owner;
    dest = owner;
    program_id = programs.token_program;
  })

  -- What an order is made of: the arguments that place_order passes on.
  pub record OrderRequest : Type 0 where
    pub payer : PublicKey
    pub owner : Keypair
    pub order_type : ℕ
    pub side : Side
    pub limit_price : Float
    pub max_quantity : Float
    pub client_id : ℕ

  -- The call of make_place_order_instruction in _prepare_order_transaction, which gives no account for
  -- a discount.
  unfoldable pub place_instruction :
      MarketCore PublicKey
      → OrderRequest
      → PublicKey
      → PublicKey
      → Result (TransactionInstruction PublicKey)
  place_instruction core request payer open_order_account =
      make_place_order_instruction packages core payer (owner_key request.owner) request.order_type
        request.side request.limit_price request.max_quantity request.client_id open_order_account
        none

  -- _prepare_order_transaction after its checks, for an order that does not pay in SOL and for one that
  -- does.
  unfoldable pub draft_plain :
      MarketCore PublicKey
      → OrderRequest
      → PublicKey
      → Draft PublicKey Keypair
      → Action World (Draft PublicKey Keypair)
  unfolding place_instruction
  draft_plain core request open_order_account draft = do
    place ← lift (place_instruction core request request.payer open_order_account)
    lift (ok (add draft place))

  unfoldable pub draft_wrapped :
      MarketCore PublicKey
      → OrderRequest
      → List (OpenOrdersAccount PublicKey)
      → PublicKey
      → Draft PublicKey Keypair
      → Action World (Draft PublicKey Keypair)
  unfolding place_instruction
  draft_wrapped core request open_order_accounts open_order_account draft = do
    let owner = owner_key request.owner
    wrapped_sol_account ← fresh
    let payer = owner_key wrapped_sol_account
    let draft1 = append_signer draft wrapped_sol_account
    lamports ← lift (
        get_lamport_need_for_sol_wrapping floats request.limit_price request.max_quantity
          request.side open_order_accounts)
    created ← lift (create_wrapped owner payer lamports)
    let draft2 = add (add draft1 created) (initialize_wrapped owner payer)
    place ← lift (place_instruction core request payer open_order_account)
    lift (ok (add (add draft2 place) (close_wrapped owner payer)))

  unfoldable pub prepare_order_transaction :
      MarketCore PublicKey
      → OrderRequest
      → List (OpenOrdersAccount PublicKey)
      → PublicKey
      → Draft PublicKey Keypair
      → Action World (Draft PublicKey Keypair)
  unfolding order_should_wrap_sol draft_plain draft_wrapped
  prepare_order_transaction core request open_order_accounts open_order_account draft =
      if same_key request.payer (owner_key request.owner)
      then lift (err invalid_payer)
      else if order_should_wrap_sol core request.side
      then draft_wrapped core request open_order_accounts open_order_account draft
      else draft_plain core request open_order_account draft

  -- Transaction().add(instruction)
  abbrev single : Result (TransactionInstruction PublicKey) → Action World (Transaction PublicKey)
  single made = do instruction ← lift made; lift (ok (instruction ∷ []))

  unfoldable pub build_cancel_order_by_client_id_tx :
      MarketCore PublicKey → Keypair → PublicKey → ℕ → Action World (Transaction PublicKey)
  build_cancel_order_by_client_id_tx core owner open_orders_account client_id = single (
      make_cancel_order_by_client_id_instruction packages core (owner_key owner) open_orders_account
        client_id)

  unfoldable pub build_cancel_order_tx :
      MarketCore PublicKey → Keypair → Order PublicKey Float → Action World (Transaction PublicKey)
  build_cancel_order_tx core owner order =
      single (make_cancel_order_instruction packages core (owner_key owner) order)

  unfoldable pub build_match_orders_tx :
      MarketCore PublicKey → ℕ → Action World (Transaction PublicKey)
  build_match_orders_tx core limit = single (make_match_orders_instruction packages core limit)
