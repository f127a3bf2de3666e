-- ===== src/Clients/Defs.antt =====
-- The methods of the class Market in pyserum/market/market.py, and of AsyncMarket in
-- pyserum/market/async_market.py where it does not merely await each call. The connection is the
-- client of the packages.
use pyserum.Base.{ℕ, ℤ, Bool, true, false, none, List, [], ◌∷◌, Result, ok, err, type_error}
use pyserum.Construct.{Construct}
use pyserum.Market.{public_key_of, asks, bids, event_queue, request_queue}
use pyserum.Market.Load
use pyserum.Layouts.OpenOrders.{open_orders_layout}
use pyserum.Net.Action.{Action, lift, ◌>>=◌}
use pyserum.Net.Fetch.{load_bytes_data}
use pyserum.Net.Json.{Json, number, get}
use pyserum.OpenOrders.{OpenOrdersAccount}
use pyserum.OpenOrders.Find.{find_for_market_and_owner}
use pyserum.OrderBook.{OrderBook, Order}
use pyserum.Queue.{Event, Request, decode_event_queue, decode_request_queue}
use pyserum.Core.Packages.{Packages}
use pyserum.Core.Defs.{
  MarketCore, FilledOrder, parse_bids_or_asks, parse_orders_for_owner, parse_fills,
}
use pyserum.Core.Draft.{
  Draft, OrderRequest, prepare_new_oo_account, prepare_order_transaction,
  build_cancel_order_by_client_id_tx, build_cancel_order_tx, build_match_orders_tx,
}
use pyserum.Core.Settle.{settle_funds_should_wrap_sol, build_settle_funds_tx}

-- The lamports of an answer, for which the system program's instructions take numbers alone.
unfoldable pub as_lamports : Json → Result ℕ
as_lamports (number n) = ok n
as_lamports _ = err type_error

module _ (packages : Packages) ⦃lib : Construct⦄ where
  open packages use {keys, programs, wallets, floats, texts, client}
  open keys use {PublicKey}
  open floats use {Float}
  open client use {
    World, Keypair, TxOpts, recent, owner_key, get_minimum_balance_for_rent_exemption,
    send_transaction,
  }

  unfoldable pub load : PublicKey → PublicKey → Bool → Action World (MarketCore PublicKey)
  load market_address program_id force_use_request_queue = do
    state ← Load.load keys texts client wallets.wrapped_sol_mint market_address program_id
    lift (ok (record { state = state; force_use_request_queue = force_use_request_queue }))

  unfoldable pub find_open_orders_accounts_for_owner :
      MarketCore PublicKey → PublicKey → Action World (List (OpenOrdersAccount PublicKey))
  find_open_orders_accounts_for_owner core owner_address =
      find_for_market_and_owner keys texts client (public_key_of keys core.state) owner_address
        core.state.program_id recent

  unfoldable pub load_bids : MarketCore PublicKey → Action World (OrderBook PublicKey)
  load_bids core = do
    bytes_data ← load_bytes_data keys texts client (bids keys core.state)
    lift (parse_bids_or_asks packages core bytes_data)

  unfoldable pub load_asks : MarketCore PublicKey → Action World (OrderBook PublicKey)
  load_asks core = do
    bytes_data ← load_bytes_data keys texts client (asks keys core.state)
    lift (parse_bids_or_asks packages core bytes_data)

  unfoldable pub load_orders_for_owner :
      ℕ → MarketCore PublicKey → PublicKey → Action World (List (Order PublicKey Float))
  unfolding load_bids load_asks find_open_orders_accounts_for_owner
  load_orders_for_owner fuel core owner_address = do
    bids ← load_bids core
    asks ← load_asks core
    open_orders_accounts ← find_open_orders_accounts_for_owner core owner_address
    lift (parse_orders_for_owner packages fuel bids asks open_orders_accounts)

  unfoldable pub load_event_queue : MarketCore PublicKey → Action World (List (Event PublicKey))
  load_event_queue core = do
    bytes_data ← load_bytes_data keys texts client (event_queue keys core.state)
    lift (decode_event_queue keys bytes_data none)

  unfoldable pub load_request_queue : MarketCore PublicKey → Action World (List (Request PublicKey))
  load_request_queue core = do
    bytes_data ← load_bytes_data keys texts client (request_queue keys core.state)
    lift (decode_request_queue keys bytes_data none)

  unfoldable pub load_fills : MarketCore PublicKey → ℤ → Action World (List (FilledOrder Float))
  load_fills core limit = do
    bytes_data ← load_bytes_data keys texts client (event_queue keys core.state)
    lift (parse_fills packages core bytes_data limit)

  -- The account that place_order trades with: the first one found, or a new one, which
  -- _after_oo_mbfre_resp prepares.
  unfoldable pub choose_open_orders_account :
      MarketCore PublicKey
      → Keypair
      → List (OpenOrdersAccount PublicKey)
      → Draft PublicKey Keypair
      → Action World (PublicKey × Draft PublicKey Keypair)
  unfolding as_lamports
  choose_open_orders_account core owner (account ∷ accounts) draft =
      lift (ok (account.address, draft))
  choose_open_orders_account core owner [] draft = do
    space ← lift open_orders_layout.sizeof
    mbfre_resp ← get_minimum_balance_for_rent_exemption space
    result ← lift (get "result" mbfre_resp)
    balance_needed ← lift (as_lamports result)
    prepare_new_oo_account packages core owner balance_needed draft

  -- place_order up to the call of send_transaction.
  unfoldable pub draft_order :
      MarketCore PublicKey → OrderRequest packages → Action World (Draft PublicKey Keypair)
  unfolding find_open_orders_accounts_for_owner choose_open_orders_account
  draft_order core request = do
    open_order_accounts ← find_open_orders_accounts_for_owner core (owner_key request.owner)
    (account, draft) ←
        choose_open_orders_account core request.owner open_order_accounts
          (record { transaction = []; signers = request.owner ∷ [] })
    prepare_order_transaction packages core request open_order_accounts account draft

  unfoldable pub place_order :
      MarketCore PublicKey → OrderRequest packages → TxOpts → Action World Json
  unfolding draft_order
  place_order core request opts = do
    draft ← draft_order core request
    send_transaction draft.transaction draft.signers opts

  unfoldable pub cancel_order_by_client_id :
      MarketCore PublicKey → Keypair → PublicKey → ℕ → TxOpts → Action World Json
  cancel_order_by_client_id core owner open_orders_account client_id opts = do
    txs ← build_cancel_order_by_client_id_tx packages core owner open_orders_account client_id
    send_transaction txs (owner ∷ []) opts

  unfoldable pub cancel_order :
      MarketCore PublicKey → Keypair → Order PublicKey Float → TxOpts → Action World Json
  cancel_order core owner order opts = do
    txn ← build_cancel_order_tx packages core owner order
    send_transaction txn (owner ∷ []) opts

  unfoldable pub match_orders : MarketCore PublicKey → Keypair → ℕ → TxOpts → Action World Json
  match_orders core fee_payer limit opts = do
    txn ← build_match_orders_tx packages core limit
    send_transaction txn (fee_payer ∷ []) opts

  -- min_bal_for_rent_exemption in settle_funds
  unfoldable pub settle_rent : Bool → Action World ℕ
  unfolding as_lamports
  settle_rent false = lift (ok 0)
  settle_rent true = do
    mbfre_resp ← get_minimum_balance_for_rent_exemption 165
    result ← lift (get "result" mbfre_resp)
    lift (as_lamports result)

  -- settle_funds up to the call of send_transaction.
  unfoldable pub draft_settlement :
      MarketCore PublicKey
      → Keypair
      → OpenOrdersAccount PublicKey
      → PublicKey
      → PublicKey
      → Action World (Draft PublicKey Keypair)
  unfolding settle_rent
  draft_settlement core owner open_orders base_wallet quote_wallet = do
    let should_wrap_sol = settle_funds_should_wrap_sol packages core
    min_bal_for_rent_exemption ← settle_rent should_wrap_sol
    build_settle_funds_tx packages core owner (owner ∷ []) open_orders base_wallet quote_wallet
        min_bal_for_rent_exemption should_wrap_sol

  -- Market.settle_funds hands on the owner as the only signer.
  unfoldable pub settle_funds :
      MarketCore PublicKey
      → Keypair
      → OpenOrdersAccount PublicKey
      → PublicKey
      → PublicKey
      → TxOpts
      → Action World Json
  unfolding draft_settlement
  settle_funds core owner open_orders base_wallet quote_wallet opts = do
    draft ← draft_settlement core owner open_orders base_wallet quote_wallet
    send_transaction draft.transaction (owner ∷ []) opts

  -- AsyncMarket.settle_funds hands on all of them.
  unfoldable pub async_settle_funds :
      MarketCore PublicKey
      → Keypair
      → OpenOrdersAccount PublicKey
      → PublicKey
      → PublicKey
      → TxOpts
      → Action World Json
  unfolding draft_settlement
  async_settle_funds core owner open_orders base_wallet quote_wallet opts = do
    draft ← draft_settlement core owner open_orders base_wallet quote_wallet
    send_transaction draft.transaction draft.signers opts
