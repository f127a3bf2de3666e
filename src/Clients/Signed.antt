-- ===== src/Clients/Signed.antt =====
-- The transactions that the clients of pyserum/market/market.py and pyserum/market/async_market.py
-- send, and their signatures.
use pyserum.Base.{ℕ, ◌≡◌, inl, refl, subst, List, [], ◌∷◌, ok}
use pyserum.Construct.{Construct}
use pyserum.Layouts.OpenOrders.{open_orders_layout}
use pyserum.Net.Action.{lift, ◌>>=◌}
use pyserum.Net.Ensures.{Ensures, Ensures-any, Ensures-bind}
use pyserum.Net.Steps.{returns}
use pyserum.Net.Json.{Json, get}
use pyserum.OpenOrders.{OpenOrdersAccount}
use pyserum.Core.Packages.{Packages}
use pyserum.Core.Defs.{MarketCore}
use pyserum.Core.Draft.{Draft, OrderRequest, prepare_new_oo_account, prepare_order_transaction}
use pyserum.Core.Settle.{settle_funds_should_wrap_sol, build_settle_funds_tx}
use pyserum.Core.Signed.{
  IsSigned, prepare_new_oo_account-IsSigned, prepare_order_transaction-IsSigned,
}
use pyserum.Core.SettleSigned.{build_settle_funds_tx-IsSigned}
use pyserum.Clients.Defs.{
  as_lamports, find_open_orders_accounts_for_owner, choose_open_orders_account, draft_order,
  place_order, settle_rent, draft_settlement, async_settle_funds,
}

module _ (packages : Packages) ⦃lib : Construct⦄ where
  open packages use {keys, client}
  open keys use {PublicKey}
  open client use {
    World, Keypair, TxOpts, owner_key, get_minimum_balance_for_rent_exemption, send_transaction,
  }

  choose_open_orders_account-IsSigned :
      (core : MarketCore PublicKey) (owner : Keypair)
      (accounts : List (OpenOrdersAccount PublicKey)) (draft : Draft PublicKey Keypair) (w : World)
      → IsSigned packages owner draft
      → Ensures
          (λ (r : PublicKey × Draft PublicKey Keypair). IsSigned packages owner r.1)
          (choose_open_orders_account packages core owner accounts draft w).0
  unfolding choose_open_orders_account
  choose_open_orders_account-IsSigned core owner (account ∷ accounts) draft w h = h
  choose_open_orders_account-IsSigned core owner [] draft w h =
      let Q = λ (r : PublicKey × Draft PublicKey Keypair). IsSigned packages owner r.1 in
      let open_account =
        λ (balance : ℕ). prepare_new_oo_account packages core owner balance draft in
      let read_balance = λ (result : Json). lift (as_lamports result) >>= open_account in
      let read_result = λ (resp : Json). lift (get "result" resp) >>= read_balance in
      Ensures-bind (λ (_ : ℕ). Unit {0}) Q (lift open_orders_layout.sizeof)
        (λ space. get_minimum_balance_for_rent_exemption space >>= read_result) w
        (Ensures-any open_orders_layout.sizeof)
        λ space w1 _.
          Ensures-bind (λ (_ : Json). Unit {0}) Q (get_minimum_balance_for_rent_exemption space)
            read_result w1 (Ensures-any (get_minimum_balance_for_rent_exemption space w1).0)
            λ resp w2 _.
              Ensures-bind (λ (_ : Json). Unit {0}) Q (lift (get "result" resp)) read_balance w2
                (Ensures-any (get "result" resp))
                λ result w3 _.
                  Ensures-bind (λ (_ : ℕ). Unit {0}) Q (lift (as_lamports result)) open_account w3
                    (Ensures-any (as_lamports result))
                    λ balance w4 _.
                      prepare_new_oo_account-IsSigned packages core owner balance draft w4 h

  draft_order-IsSigned :
      (core : MarketCore PublicKey) (request : OrderRequest packages) (w : World)
      → Ensures (IsSigned packages request.owner) (draft_order packages core request w).0
  unfolding draft_order
  draft_order-IsSigned core request w =
      let find = find_open_orders_accounts_for_owner packages core (owner_key request.owner) in
      let fresh_draft : Draft PublicKey Keypair = record {
        transaction = [];
        signers = request.owner ∷ [];
      } in
      let rest =
        λ (accounts : List (OpenOrdersAccount PublicKey)) (r : PublicKey × Draft PublicKey Keypair).
          prepare_order_transaction packages core request accounts r.0 r.1 in
      let choose = λ (accounts : List (OpenOrdersAccount PublicKey)).
        choose_open_orders_account packages core request.owner accounts fresh_draft in
      Ensures-bind (λ (_ : List (OpenOrdersAccount PublicKey)). Unit {0})
        (IsSigned packages request.owner) find (λ accounts. choose accounts >>= rest accounts) w
        (Ensures-any (find w).0)
        λ accounts w' _.
          Ensures-bind
            (λ (r : PublicKey × Draft PublicKey Keypair). IsSigned packages request.owner r.1)
            (IsSigned packages request.owner) (choose accounts) (rest accounts) w'
            (choose_open_orders_account-IsSigned core request.owner accounts fresh_draft w'
              (record { signed = tt; owner_signs = inl refl }))
            λ r w'' h.
              prepare_order_transaction-IsSigned packages core request accounts r.0 r.1 w'' h

  draft_settlement-IsSigned :
      (core : MarketCore PublicKey) (owner : Keypair) (open_orders : OpenOrdersAccount PublicKey)
      (base_wallet quote_wallet : PublicKey) (w : World)
      → Ensures
          (IsSigned packages owner)
          (draft_settlement packages core owner open_orders base_wallet quote_wallet w).0
  unfolding draft_settlement
  draft_settlement-IsSigned core owner open_orders base_wallet quote_wallet w =
      let wrap = settle_funds_should_wrap_sol packages core in
      let settle = λ (rent : ℕ).
        build_settle_funds_tx packages core owner (owner ∷ []) open_orders base_wallet quote_wallet
          rent wrap in
      Ensures-bind (λ (_ : ℕ). Unit {0}) (IsSigned packages owner) (settle_rent packages wrap)
        settle w (Ensures-any (settle_rent packages wrap w).0)
        λ rent w' _.
          build_settle_funds_tx-IsSigned packages core owner (owner ∷ []) open_orders base_wallet
            quote_wallet rent wrap w' (record { signed = tt; owner_signs = inl refl })

  -- If `place_order` gets to the call of send_transaction, then what it sends is the drafted
  -- transaction with signers who sign all that its instructions ask for, the owner among them.
  pub place_order-IsSigned :
      (core : MarketCore PublicKey) (request : OrderRequest packages) (opts : TxOpts) (w w' : World)
      (draft : Draft PublicKey Keypair)
      → draft_order packages core request w ≡ (ok draft, w')
      → IsSigned packages request.owner draft
        × place_order packages core request opts w
          ≡ send_transaction draft.transaction draft.signers opts w'
  unfolding place_order
  place_order-IsSigned core request opts w w' draft drafted = (
    subst (λ r. Ensures (IsSigned packages request.owner) r.0) drafted
        (draft_order-IsSigned core request w),
    returns (draft_order packages core request) (λ d. send_transaction d.transaction d.signers opts)
        w w' draft drafted,
  )

  -- If the asynchronous client's `settle_funds` gets to the call of send_transaction, then what it
  -- sends has signers who sign all that its instructions ask for, the owner among them.
  pub async_settle_funds-IsSigned :
      (core : MarketCore PublicKey) (owner : Keypair) (open_orders : OpenOrdersAccount PublicKey)
      (base_wallet quote_wallet : PublicKey) (opts : TxOpts) (w w' : World)
      (draft : Draft PublicKey Keypair)
      → draft_settlement packages core owner open_orders base_wallet quote_wallet w ≡ (ok draft, w')
      → IsSigned packages owner draft
        × async_settle_funds packages core owner open_orders base_wallet quote_wallet opts w
          ≡ send_transaction draft.transaction draft.signers opts w'
  unfolding async_settle_funds
  async_settle_funds-IsSigned core owner open_orders base_wallet quote_wallet opts w w' draft
        drafted =
      (
        subst (λ r. Ensures (IsSigned packages owner) r.0) drafted
            (draft_settlement-IsSigned core owner open_orders base_wallet quote_wallet w),
        returns (draft_settlement packages core owner open_orders base_wallet quote_wallet)
            (λ d. send_transaction d.transaction d.signers opts) w w' draft drafted,
      )
