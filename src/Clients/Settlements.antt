-- ===== src/Clients/Settlements.antt =====
-- The transactions that settle_funds of pyserum/market/market.py and of
-- pyserum/market/async_market.py send.
use pyserum.Base.{
  ◌≡◌, ◌≢◌, refl, ◌∙◌, true≢false, inl, inr, ℕ, Bool, true, false, ◌||◌, none, some, List, [], ◌∷◌,
  Result, ok, subst, All, if◌then◌else◌,
}
use pyserum.Base.Bytes.{Bytes, to_bytes}
use pyserum.Construct.{Construct}
use pyserum.Market.{public_key_of, base_mint, quote_mint}
use pyserum.Net.Action.{lift, ◌>>=◌}
use pyserum.Net.Json.{get}
use pyserum.Net.Steps.{returns, returned}
use pyserum.OpenOrders.{OpenOrdersAccount}
use pyserum.Solana.{TransactionInstruction}
use pyserum.Core.Packages.{Packages}
use pyserum.Core.Defs.{MarketCore}
use pyserum.Core.Instruct.{make_settle_funds_instruction}
use pyserum.Core.Draft.{Draft, fresh, create_wrapped, initialize_wrapped, close_wrapped}
use pyserum.Core.Drafts.{fresh_draws}
use pyserum.Core.Settle.{
  settle_funds_should_wrap_sol, wallet_for, settle_instruction, settle_plain, settle_wrapped,
  build_settle_funds_tx,
}
use pyserum.Core.Signed.{IsAmong, SignsAll}
use pyserum.Clients.Defs.{
  as_lamports, settle_rent, draft_settlement, settle_funds, async_settle_funds,
}
use pyserum.Clients.Orders.{rent_answer}

or_false : (a b : Bool) → (a || b) ≡ false → (a ≡ false) × (b ≡ false)
or_false true b h = elim (true≢false h) [ ]
or_false false b h = (refl, h)

either :
    {A : Type 0} (b : Bool) (x y : A) → (if b then Result.ok x else ok y) ≡ ok (if b then x else y)
either true x y = refl
either false x y = refl

module _ (packages : Packages) ⦃lib : Construct⦄ where
  open packages use {keys, wallets, client}
  open keys use {PublicKey, same_key, key_bytes}
  open wallets use {wrapped_sol_mint, create_program_address, create_account_signers}
  open client use {
    World, Keypair, TxOpts, owner_key, new_keypair, get_minimum_balance_for_rent_exemption,
    send_transaction,
  }

  -- The wallet that an amount of a mint is settled to, with an account for wrapped SOL.
  abbrev pub settled_to : PublicKey → PublicKey → PublicKey → PublicKey
  settled_to mint wallet wrapped = if same_key mint wrapped_sol_mint then wrapped else wallet

  wallet_for_wrapped :
      (mint wallet wrapped : PublicKey)
      → wallet_for packages mint wallet (some wrapped) ≡ ok (settled_to mint wallet wrapped)
  unfolding wallet_for
  wallet_for_wrapped mint wallet wrapped = either (same_key mint wrapped_sol_mint) wrapped wallet

  missing_signer :
      (owner new : PublicKey) (rent : ℕ) (created : TransactionInstruction PublicKey)
      (instructions : List (TransactionInstruction PublicKey))
      → create_wrapped packages owner new rent ≡ ok created
      → SignsAll (owner ∷ []) (created ∷ instructions)
      → new ≢ owner
      → ⊥
  missing_signer owner new rent created instructions made (signs, _) other =
      let (_, (is_owner, _)) =
        subst (All (λ k. IsAmong k (owner ∷ []))) (create_account_signers _ created made) signs in
      elim is_owner [ inl e ↦ other e | inr absent ↦ absent ]

  module _ (core : MarketCore PublicKey) (owner : Keypair)
      (open_orders : OpenOrdersAccount PublicKey) (base_wallet quote_wallet : PublicKey) where
    -- The owner may settle, and there is a key that signs for the market's vaults.
    pub record MaySettle (vault_signer : PublicKey) : Type 0 where
      pub nonce : Bytes
      pub owns : same_key open_orders.owner (owner_key owner) ≡ true
      pub nonce_bytes : to_bytes core.state.decoded.vault_signer_nonce 8 ≡ ok nonce
      pub vault :
          create_program_address
            (key_bytes (public_key_of keys core.state) ∷ nonce ∷ [])
            core.state.program_id
          ≡ ok vault_signer

    settle_instruction_plain :
        (vault_signer : PublicKey) (settle : TransactionInstruction PublicKey) (w : World)
        → settle_funds_should_wrap_sol packages core ≡ false
        → make_settle_funds_instruction packages core open_orders base_wallet quote_wallet
            vault_signer
          ≡ ok settle
        → settle_instruction packages core open_orders base_wallet quote_wallet none vault_signer w
          ≡ (ok settle, w)
    unfolding settle_instruction settle_funds_should_wrap_sol wallet_for
    settle_instruction_plain vault_signer settle w plain made =
        let (quote_other, base_other) =
          or_false (same_key (quote_mint keys core.state) wrapped_sol_mint)
            (same_key (base_mint keys core.state) wrapped_sol_mint) plain in
        rw (base_other, quote_other, made) refl

    settle_instruction_wrapped :
        (vault_signer wrapped : PublicKey) (settle : TransactionInstruction PublicKey) (w : World)
        → make_settle_funds_instruction packages core open_orders
            (settled_to (base_mint keys core.state) base_wallet wrapped)
            (settled_to (quote_mint keys core.state) quote_wallet wrapped)
            vault_signer
          ≡ ok settle
        → settle_instruction packages core open_orders base_wallet quote_wallet
            (some wrapped)
            vault_signer
            w
          ≡ (ok settle, w)
    unfolding settle_instruction
    settle_instruction_wrapped vault_signer wrapped settle w made =
        rw
          (
            wallet_for_wrapped (base_mint keys core.state) base_wallet wrapped,
            wallet_for_wrapped (quote_mint keys core.state) quote_wallet wrapped,
            made,
          )
          refl

    module _ (w : World) (vault_signer : PublicKey) (may : MaySettle vault_signer) where
      build_settle_funds_tx-MaySettle :
          (signers : List Keypair) (rent : ℕ) (should_wrap_sol : Bool)
          → build_settle_funds_tx packages core owner signers open_orders base_wallet quote_wallet
              rent should_wrap_sol w
            ≡ (if should_wrap_sol
                  then settle_wrapped packages core owner open_orders base_wallet quote_wallet rent
                      vault_signer signers
                  else settle_plain packages core open_orders base_wallet quote_wallet vault_signer
                      signers)
                w
      unfolding build_settle_funds_tx
      build_settle_funds_tx-MaySettle signers rent should_wrap_sol =
          rw (may.owns, may.nonce_bytes, may.vault) refl

    -- Both clients' settlements go on with the same draft, but hand on other signers.
    pub record Sends (opts : TxOpts) (w w' : World) (draft : Draft PublicKey Keypair) : Type 0 where
      pub settles :
          settle_funds packages core owner open_orders base_wallet quote_wallet opts w
          ≡ send_transaction draft.transaction (owner ∷ []) opts w'
      pub settles_async :
          async_settle_funds packages core owner open_orders base_wallet quote_wallet opts w
          ≡ send_transaction draft.transaction draft.signers opts w'

    drafted-Sends :
        (opts : TxOpts) (w w' : World) (draft : Draft PublicKey Keypair)
        → draft_settlement packages core owner open_orders base_wallet quote_wallet w
          ≡ (ok draft, w')
        → Sends opts w w' draft
    unfolding settle_funds async_settle_funds
    drafted-Sends opts w w' draft h =
        let drafted = draft_settlement packages core owner open_orders base_wallet quote_wallet in
        record {
          settles =
              returns drafted (λ d. send_transaction d.transaction (owner ∷ []) opts) w w' draft h;
          settles_async =
              returns drafted (λ d. send_transaction d.transaction d.signers opts) w w' draft h;
        }

    pub draft_settlement_plain :
        (w : World) (vault_signer : PublicKey) (settle : TransactionInstruction PublicKey)
        → MaySettle vault_signer
        → settle_funds_should_wrap_sol packages core ≡ false
        → make_settle_funds_instruction packages core open_orders base_wallet quote_wallet
            vault_signer
          ≡ ok settle
        → draft_settlement packages core owner open_orders base_wallet quote_wallet w
          ≡ (ok (record { transaction = settle ∷ []; signers = owner ∷ [] }), w)
    unfolding draft_settlement settle_rent settle_plain
    draft_settlement_plain w vault_signer settle may plain made = rw plain (
        build_settle_funds_tx-MaySettle w vault_signer may (owner ∷ []) 0 false
        ∙ returns
            (settle_instruction packages core open_orders base_wallet quote_wallet none
              vault_signer)
            (λ i. lift {W = World} (ok (record { transaction = i ∷ []; signers = owner ∷ [] }))) w w
            settle (settle_instruction_plain vault_signer settle w plain made))

    -- If neither of the market's mints is that of wrapped SOL, the owner may settle, and the
    -- instruction can be made, then both clients send just the instruction that settles to the given
    -- wallets, which the owner signs.
    pub settle_funds_plain :
        (opts : TxOpts) (w : World) (vault_signer : PublicKey)
        (settle : TransactionInstruction PublicKey)
        → MaySettle vault_signer
        → settle_funds_should_wrap_sol packages core ≡ false
        → make_settle_funds_instruction packages core open_orders base_wallet quote_wallet
            vault_signer
          ≡ ok settle
        → Sends opts w w (record { transaction = settle ∷ []; signers = owner ∷ [] })
    settle_funds_plain opts w vault_signer settle may plain made =
        drafted-Sends opts w w _ (draft_settlement_plain w vault_signer settle may plain made)

    -- What settling sends with an account for wrapped SOL.
    abbrev pub wrapped_settlement :
        Keypair
        → TransactionInstruction PublicKey
        → TransactionInstruction PublicKey
        → Draft PublicKey Keypair
    wrapped_settlement wrapped created settle = record {
      transaction =
          created
          ∷ initialize_wrapped packages (owner_key owner) (owner_key wrapped)
          ∷ settle
          ∷ close_wrapped packages (owner_key owner) (owner_key wrapped)
          ∷ [];
      signers = owner ∷ wrapped ∷ [];
    }

    settle_rent-rent_answer :
        (w w' : World) (rent : ℕ)
        → get_minimum_balance_for_rent_exemption 165 w ≡ (ok (rent_answer rent), w')
        → settle_rent packages true w ≡ (ok rent, w')
    unfolding settle_rent get as_lamports
    settle_rent-rent_answer w w' rent h =
        returns (get_minimum_balance_for_rent_exemption 165)
          (λ resp. lift {W = World} (get "result" resp) >>= λ result. lift (as_lamports result)) w
          w' _ h

    -- If one of the market's mints is that of wrapped SOL, the owner may settle, the server tells the
    -- rent, and the instructions that make the new account and settle, with that account in place of
    -- the wallet of that mint, can be encoded, then both clients send the making and initializing of the account, the settling, and the closing
    -- of the account. The asynchronous client's signers are the owner and the new key. Those of the
    -- synchronous client are the owner alone, so that the new key's signature is missing, if it is
    -- another key than the owner's.
    pub settle_funds_wrapped :
        (opts : TxOpts) (w w1 w2 : World) (rent : ℕ) (wrapped : Keypair) (vault_signer : PublicKey)
        (created settle : TransactionInstruction PublicKey)
        → MaySettle vault_signer
        → settle_funds_should_wrap_sol packages core ≡ true
        → get_minimum_balance_for_rent_exemption 165 w ≡ (ok (rent_answer rent), w1)
        → new_keypair w1 ≡ (wrapped, w2)
        → create_wrapped packages (owner_key owner) (owner_key wrapped) rent ≡ ok created
        → make_settle_funds_instruction packages core open_orders
            (settled_to (base_mint keys core.state) base_wallet (owner_key wrapped))
            (settled_to (quote_mint keys core.state) quote_wallet (owner_key wrapped))
            vault_signer
          ≡ ok settle
        → owner_key wrapped ≢ owner_key owner
        → Sends opts w w2 (wrapped_settlement wrapped created settle)
          × ¬ SignsAll
              (owner_key owner ∷ [])
              (wrapped_settlement wrapped created settle).transaction
    unfolding draft_settlement settle_wrapped
    settle_funds_wrapped opts w w1 w2 rent wrapped vault_signer created settle may wrap answered
          drawn made' made other =
        let key = owner_key wrapped in
        let settled =
          settle_instruction packages core open_orders base_wallet quote_wallet (some key)
            vault_signer in
        let settle_with = λ (k : Keypair) (i : TransactionInstruction PublicKey).
          settle_instruction packages core open_orders base_wallet quote_wallet (some (owner_key k))
            vault_signer
          >>= λ s. lift {W = World} (ok (wrapped_settlement k i s)) in
        (
          drafted-Sends opts w w2 _ (
              rw wrap (
                returns (settle_rent packages true)
                  (λ n.
                    build_settle_funds_tx packages core owner (owner ∷ []) open_orders base_wallet
                      quote_wallet n true)
                  w w1 rent (settle_rent-rent_answer w w1 rent answered)
                ∙ build_settle_funds_tx-MaySettle w1 vault_signer may (owner ∷ []) rent true
                ∙ returns (fresh packages)
                    (λ k.
                      lift (create_wrapped packages (owner_key owner) (owner_key k) rent)
                      >>= settle_with k)
                    w1 w2 wrapped (fresh_draws packages w1 w2 wrapped drawn)
                ∙ returned (create_wrapped packages (owner_key owner) key rent)
                    (settle_with wrapped) w2 created made'
                ∙ returns settled
                    (λ i. lift {W = World} (ok (wrapped_settlement wrapped created i))) w2 w2 settle
                    (settle_instruction_wrapped vault_signer key settle w2 made))),
          λ signs.
              missing_signer (owner_key owner) key rent created
                (initialize_wrapped packages (owner_key owner) key
                  ∷ settle
                  ∷ close_wrapped packages (owner_key owner) key
                  ∷ [])
                made' signs other,
        )
