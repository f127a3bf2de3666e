-- ===== src/Clients/Orders.antt =====
-- The transaction that place_order of pyserum/market/market.py sends.
use pyserum.Base.{◌≡◌, refl, ◌∙◌, ℕ, true, false, List, [], ◌∷◌, ok, err, invalid_payer}
use pyserum.Construct.{Construct}
use pyserum.Layouts.OpenOrders.{open_orders_layout}
use pyserum.Layouts.OpenOrdersEncoding.{open_orders_layout-HasSize}
use pyserum.Net.Action.{Action, lift, ◌>>=◌}
use pyserum.Net.Json.{Json, string, number, object, field, end, get}
use pyserum.Net.Steps.{returns, returned, raises}
use pyserum.OpenOrders.{OpenOrdersAccount}
use pyserum.Solana.{TransactionInstruction}
use pyserum.Core.Packages.{Packages}
use pyserum.Core.Defs.{MarketCore}
use pyserum.Core.Wrapping.{get_lamport_need_for_sol_wrapping}
use pyserum.Core.Draft.{
  Draft, add, OrderRequest, place_instruction, create_wrapped, initialize_wrapped, close_wrapped,
  prepare_new_oo_account, order_should_wrap_sol, prepare_order_transaction,
}
use pyserum.Core.Drafts.{
  new_account, prepare_new_oo_account-new_account, prepare_order_transaction-plain,
  prepare_order_transaction-wrapped, prepare_order_transaction-own,
}
use pyserum.Clients.Defs.{
  as_lamports, find_open_orders_accounts_for_owner, choose_open_orders_account, draft_order,
  place_order,
}

-- The answer to the question for the lamports that keep an account.
abbrev pub rent_answer : ℕ → Json
rent_answer n = object (field "jsonrpc" (string "2.0") (field "result" (number n) end))

module _ (packages : Packages) ⦃lib : Construct⦄ where
  open packages use {keys, wallets, floats, client}
  open keys use {PublicKey, same_key}
  open client use {
    World, Keypair, TxOpts, owner_key, new_keypair, get_minimum_balance_for_rent_exemption,
    send_transaction,
  }

  module _ (core : MarketCore PublicKey) (request : OrderRequest packages) where
    abbrev pub find : Action World (List (OpenOrdersAccount PublicKey))
    find = find_open_orders_accounts_for_owner packages core (owner_key request.owner)

    abbrev pub empty_draft : Draft PublicKey Keypair
    empty_draft = record { transaction = []; signers = request.owner ∷ [] }

    abbrev choose :
        List (OpenOrdersAccount PublicKey) → Action World (PublicKey × Draft PublicKey Keypair)
    choose accounts = choose_open_orders_account packages core request.owner accounts empty_draft

    abbrev prepare :
        List (OpenOrdersAccount PublicKey)
        → PublicKey × Draft PublicKey Keypair
        → Action World (Draft PublicKey Keypair)
    prepare accounts r = prepare_order_transaction packages core request accounts r.0 r.1

    draft_order-choose :
        (w w1 w2 : World) (accounts : List (OpenOrdersAccount PublicKey)) (account : PublicKey)
        (draft : Draft PublicKey Keypair)
        → find w ≡ (ok accounts, w1)
        → choose accounts w1 ≡ (ok (account, draft), w2)
        → draft_order packages core request w ≡ prepare accounts (account, draft) w2
    unfolding draft_order
    draft_order-choose w w1 w2 accounts account draft found chosen =
        returns find (λ xs. choose xs >>= prepare xs) w w1 accounts found
        ∙ returns (choose accounts) (prepare accounts) w1 w2 (account, draft) chosen

    place_order-draft :
        (opts : TxOpts) (w w' : World) (draft : Draft PublicKey Keypair)
        → draft_order packages core request w ≡ (ok draft, w')
        → place_order packages core request opts w
          ≡ send_transaction draft.transaction draft.signers opts w'
    unfolding place_order
    place_order-draft opts w w' draft h =
        returns (draft_order packages core request)
          (λ d. send_transaction d.transaction d.signers opts) w w' draft h

    choose_first :
        (account : OpenOrdersAccount PublicKey) (accounts : List (OpenOrdersAccount PublicKey))
        (w : World)
        → choose (account ∷ accounts) w ≡ (ok (account.address, empty_draft), w)
    unfolding choose_open_orders_account
    choose_first account accounts w = refl

    -- The draft with a new account for open orders.
    abbrev opened_draft : Keypair → TransactionInstruction PublicKey → Draft PublicKey Keypair
    opened_draft new opened = record {
      transaction = opened ∷ [];
      signers = request.owner ∷ new ∷ [];
    }

    choose_new :
        (w1 w2 w3 : World) (balance : ℕ) (new : Keypair) (opened : TransactionInstruction PublicKey)
        → get_minimum_balance_for_rent_exemption 3228 w1 ≡ (ok (rent_answer balance), w2)
        → new_keypair w2 ≡ (new, w3)
        → wallets.create_account
            (new_account packages core (owner_key request.owner) (owner_key new) balance)
          ≡ ok opened
        → choose [] w1 ≡ (ok (owner_key new, opened_draft new opened), w3)
    unfolding choose_open_orders_account get as_lamports
    choose_new w1 w2 w3 balance new opened answered drawn made =
        let open_account =
          λ (n : ℕ). prepare_new_oo_account packages core request.owner n empty_draft in
        let read_result = λ (resp : Json).
          lift (get "result" resp) >>= λ result. lift (as_lamports result) >>= open_account in
        returned open_orders_layout.sizeof
          (λ space. get_minimum_balance_for_rent_exemption space >>= read_result) w1 3228
          (open_orders_layout-HasSize.run)
        ∙ returns (get_minimum_balance_for_rent_exemption 3228) read_result w1 w2 _ answered
        ∙ prepare_new_oo_account-new_account packages core request.owner balance empty_draft w2 w3
            new opened drawn made

    pub draft_order-existing :
        (w w1 : World) (account : OpenOrdersAccount PublicKey)
        (accounts : List (OpenOrdersAccount PublicKey)) (place : TransactionInstruction PublicKey)
        → find w ≡ (ok (account ∷ accounts), w1)
        → same_key request.payer (owner_key request.owner) ≡ false
        → order_should_wrap_sol packages core request.side ≡ false
        → place_instruction packages core request request.payer account.address ≡ ok place
        → draft_order packages core request w ≡ (ok (add empty_draft place), w1)
    draft_order-existing w w1 account accounts place found other plain placed =
        draft_order-choose w w1 w1 (account ∷ accounts) account.address empty_draft found
          (choose_first account accounts w1)
        ∙ prepare_order_transaction-plain packages core request (account ∷ accounts) account.address
            empty_draft w1 place other plain placed

    -- If the owner has accounts for open orders in the market, the payer is another account than the
    -- owner's, the order does not pay in SOL, and the order can be encoded for the first of those
    -- accounts, then `place_order` sends a transaction of just that instruction, which the owner signs.
    pub place_order-existing :
        (opts : TxOpts) (w w1 : World) (account : OpenOrdersAccount PublicKey)
        (accounts : List (OpenOrdersAccount PublicKey)) (place : TransactionInstruction PublicKey)
        → find w ≡ (ok (account ∷ accounts), w1)
        → same_key request.payer (owner_key request.owner) ≡ false
        → order_should_wrap_sol packages core request.side ≡ false
        → place_instruction packages core request request.payer account.address ≡ ok place
        → place_order packages core request opts w
          ≡ send_transaction (place ∷ []) (request.owner ∷ []) opts w1
    place_order-existing opts w w1 account accounts place found other plain placed =
        place_order-draft opts w w1 (add empty_draft place)
          (draft_order-existing w w1 account accounts place found other plain placed)

    -- If the owner has no account for open orders in the market, the order pays in SOL from an
    -- account that is not the owner's, and the instructions that make the two new accounts and place
    -- the order can be encoded, then `place_order` asks for the rent of such an account, draws
    -- a key for it and one for an account of wrapped SOL, and sends a transaction that makes the
    -- first, makes and initializes the second, places the order between the two, and closes the second,
    -- which the owner and the two new keys sign, in this order.
    pub place_order_new_wrapped :
        (opts : TxOpts) (w w1 w2 w3 w4 : World) (balance lamports : ℕ) (new wrapped : Keypair)
        (opened created place : TransactionInstruction PublicKey)
        → find w ≡ (ok [], w1)
        → get_minimum_balance_for_rent_exemption 3228 w1 ≡ (ok (rent_answer balance), w2)
        → new_keypair w2 ≡ (new, w3)
        → wallets.create_account
            (new_account packages core (owner_key request.owner) (owner_key new) balance)
          ≡ ok opened
        → new_keypair w3 ≡ (wrapped, w4)
        → same_key request.payer (owner_key request.owner) ≡ false
        → order_should_wrap_sol packages core request.side ≡ true
        → get_lamport_need_for_sol_wrapping floats {Key = PublicKey} request.limit_price
            request.max_quantity request.side []
          ≡ ok lamports
        → create_wrapped packages (owner_key request.owner) (owner_key wrapped) lamports
          ≡ ok created
        → place_instruction packages core request (owner_key wrapped) (owner_key new) ≡ ok place
        → place_order packages core request opts w
          ≡ send_transaction
              (opened
                ∷ created
                ∷ initialize_wrapped packages (owner_key request.owner) (owner_key wrapped)
                ∷ place
                ∷ close_wrapped packages (owner_key request.owner) (owner_key wrapped)
                ∷ [])
              (request.owner ∷ new ∷ wrapped ∷ [])
              opts
              w4
    place_order_new_wrapped opts w w1 w2 w3 w4 balance lamports new wrapped opened created place
          found answered drawn made drawn' other wrap need made' placed =
        place_order-draft opts w w4 _ (
          draft_order-choose w w1 w3 [] (owner_key new) (opened_draft new opened) found
            (choose_new w1 w2 w3 balance new opened answered drawn made)
          ∙ prepare_order_transaction-wrapped packages core request [] (owner_key new)
              (opened_draft new opened) w3 w4 wrapped lamports created place other wrap drawn' need
              made' placed)

    -- If the payer is the owner's own address, `place_order` sends nothing and raises, but only after
    -- it has looked for the owner's accounts.
    place_order-own :
        (opts : TxOpts) (w w1 : World) (account : OpenOrdersAccount PublicKey)
        (accounts : List (OpenOrdersAccount PublicKey))
        → find w ≡ (ok (account ∷ accounts), w1)
        → same_key request.payer (owner_key request.owner) ≡ true
        → place_order packages core request opts w ≡ (err invalid_payer, w1)
    unfolding place_order
    place_order-own opts w w1 account accounts found own =
        raises (draft_order packages core request)
          (λ d. send_transaction d.transaction d.signers opts) w w1 invalid_payer
          (draft_order-choose w w1 w1 (account ∷ accounts) account.address empty_draft found
              (choose_first account accounts w1)
            ∙ prepare_order_transaction-own packages core request (account ∷ accounts)
                account.address empty_draft w1 own)
