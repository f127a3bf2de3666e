-- ===== src/Core/Drafts.antt =====
-- Which instructions and signers the drafts of pyserum/market/core.py get.
use pyserum.Base.{ℕ, ◌≡◌, refl, ap, ◌∙◌, true, false, List, [], ◌∷◌, ◌++◌, ok, err, invalid_payer}
use pyserum.Construct.{Construct}
use pyserum.Layouts.OpenOrdersEncoding.{open_orders_layout-HasSize}
use pyserum.Net.Action.{lift, ◌>>=◌}
use pyserum.Net.Steps.{returns, returned}
use pyserum.Solana.{TransactionInstruction}
use pyserum.Wallets.{CreateAccountParams}
use pyserum.OpenOrders.{OpenOrdersAccount}
use pyserum.Core.Packages.{Packages}
use pyserum.Core.Defs.{MarketCore}
use pyserum.Core.Instruct.{make_create_account_instruction}
use pyserum.Core.Wrapping.{get_lamport_need_for_sol_wrapping}
use pyserum.Core.Draft.{
  Draft, add, append_signer, fresh, OrderRequest, place_instruction, create_wrapped,
  initialize_wrapped, close_wrapped, prepare_new_oo_account, order_should_wrap_sol, draft_plain,
  draft_wrapped, prepare_order_transaction,
}

module _ (packages : Packages) ⦃lib : Construct⦄ where
  open packages use {keys, wallets, floats, client}
  open keys use {PublicKey, same_key}
  open client use {World, Keypair, owner_key, new_keypair}

  pub fresh_draws :
      (w w' : World) (new : Keypair) → new_keypair w ≡ (new, w') → fresh packages w ≡ (ok new, w')
  fresh_draws w w' new h = ap (λ p. (ok p.0, p.1)) h

  -- What the new account for open orders is to be.
  abbrev pub new_account :
      MarketCore PublicKey → PublicKey → PublicKey → ℕ → CreateAccountParams PublicKey
  new_account core owner new lamports = record {
    from_pubkey = owner;
    new_account_pubkey = new;
    lamports = lamports;
    space = 3228;
    program_id = core.state.program_id;
  }

  pub prepare_new_oo_account-new_account :
      (core : MarketCore PublicKey) (owner : Keypair) (balance : ℕ)
      (draft : Draft PublicKey Keypair) (w w' : World) (new : Keypair)
      (opened : TransactionInstruction PublicKey)
      → new_keypair w ≡ (new, w')
      → wallets.create_account (new_account core (owner_key owner) (owner_key new) balance)
        ≡ ok opened
      → prepare_new_oo_account packages core owner balance draft w
        ≡ (ok (owner_key new, append_signer (add draft opened) new), w')
  unfolding prepare_new_oo_account make_create_account_instruction
  prepare_new_oo_account-new_account core owner balance draft w w' new opened h made =
      let create = λ (k : Keypair).
        make_create_account_instruction packages (owner_key owner) (owner_key k) balance
          core.state.program_id in
      returns (fresh packages)
        (λ k. lift (create k) >>= λ i.
          lift {W = World} (ok (owner_key k, append_signer (add draft i) k)))
        w w' new (fresh_draws w w' new h)
      ∙ returned (create new)
          (λ i. lift {W = World} (ok (owner_key new, append_signer (add draft i) new))) w' _
          (rw (open_orders_layout-HasSize.run) made)

  module _ (core : MarketCore PublicKey) (request : OrderRequest packages)
      (accounts : List (OpenOrdersAccount PublicKey)) (account : PublicKey)
      (draft : Draft PublicKey Keypair) (w : World) where
    pub prepare_order_transaction-plain :
        (place : TransactionInstruction PublicKey)
        → same_key request.payer (owner_key request.owner) ≡ false
        → order_should_wrap_sol packages core request.side ≡ false
        → place_instruction packages core request request.payer account ≡ ok place
        → prepare_order_transaction packages core request accounts account draft w
          ≡ (ok (add draft place), w)
    unfolding prepare_order_transaction draft_plain
    prepare_order_transaction-plain place other plain placed =
        rw (other, plain)
          (returned (place_instruction packages core request request.payer account)
            (λ i. lift {W = World} (ok (add draft i))) w place placed)

    -- The account for wrapped SOL is opened before the order is placed, and closed after it.
    abbrev pub wrapped_draft :
        Keypair
        → TransactionInstruction PublicKey
        → TransactionInstruction PublicKey
        → Draft PublicKey Keypair
    wrapped_draft wrapped created place =
        let owner = owner_key request.owner in
        let account = owner_key wrapped in
        record {
          transaction =
              ((((draft.transaction ++ created ∷ [])
                    ++ initialize_wrapped packages owner account ∷ [])
                  ++ place ∷ [])
                ++ close_wrapped packages owner account ∷ []);
          signers = draft.signers ++ wrapped ∷ [];
        }

    pub prepare_order_transaction-wrapped :
        (w' : World) (wrapped : Keypair) (lamports : ℕ)
        (created place : TransactionInstruction PublicKey)
        → same_key request.payer (owner_key request.owner) ≡ false
        → order_should_wrap_sol packages core request.side ≡ true
        → new_keypair w ≡ (wrapped, w')
        → get_lamport_need_for_sol_wrapping floats request.limit_price request.max_quantity
            request.side accounts
          ≡ ok lamports
        → create_wrapped packages (owner_key request.owner) (owner_key wrapped) lamports
          ≡ ok created
        → place_instruction packages core request (owner_key wrapped) account ≡ ok place
        → prepare_order_transaction packages core request accounts account draft w
          ≡ (ok (wrapped_draft wrapped created place), w')
    unfolding prepare_order_transaction draft_wrapped
    prepare_order_transaction-wrapped w' wrapped lamports created place other wrap drawn need made
          placed =
        let lamports_needed =
          get_lamport_need_for_sol_wrapping floats request.limit_price request.max_quantity
            request.side accounts in
        let finish = λ (k : Keypair) (i place : TransactionInstruction PublicKey).
          lift {W = World} (ok (wrapped_draft k i place)) in
        let put = λ (k : Keypair) (i : TransactionInstruction PublicKey).
          lift (place_instruction packages core request (owner_key k) account) >>= finish k i in
        let create = λ (k : Keypair) (n : ℕ).
          lift (create_wrapped packages (owner_key request.owner) (owner_key k) n) >>= put k in
        rw (other, wrap)
          (returns (fresh packages) (λ k. lift lamports_needed >>= create k) w w' wrapped
              (fresh_draws w w' wrapped drawn)
            ∙ returned lamports_needed (create wrapped) w' lamports need
            ∙ returned
                (create_wrapped packages (owner_key request.owner) (owner_key wrapped) lamports)
                (put wrapped) w' created made
            ∙ returned (place_instruction packages core request (owner_key wrapped) account)
                (finish wrapped created) w' place placed)

    pub prepare_order_transaction-own :
        same_key request.payer (owner_key request.owner) ≡ true
        → prepare_order_transaction packages core request accounts account draft w
          ≡ (err invalid_payer, w)
    unfolding prepare_order_transaction
    prepare_order_transaction-own own = rw own refl
