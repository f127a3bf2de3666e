-- ===== src/Core/SettleSigned.antt =====
-- The signers of the transaction that _build_settle_funds_tx of pyserum/market/core.py puts together.
use pyserum.Base.{
  ℕ, ◌≡◌, inl, inr, Bool, Option, none, some, List, [], ◌∷◌, ok, Bool-cases, subst, if◌then◌else◌,
}
use pyserum.Base.Bytes.{Bytes, to_bytes}
use pyserum.Construct.{Construct}
use pyserum.Solana.{TransactionInstruction}
use pyserum.Wallets.{signers_in}
use pyserum.Market.{public_key_of, base_mint, quote_mint}
use pyserum.Net.Action.{lift, ◌>>=◌}
use pyserum.Net.Ensures.{Ensures, Ensures-ok, Ensures-any, Ensures-bind}
use pyserum.OpenOrders.{OpenOrdersAccount}
use pyserum.Core.Packages.{Packages}
use pyserum.Core.Defs.{MarketCore}
use pyserum.Core.Instruct.{make_settle_funds_instruction}
use pyserum.Core.Draft.{
  Draft, add, append_signer, fresh, create_wrapped, initialize_wrapped, close_wrapped,
}
use pyserum.Core.Settle.{
  wallet_for, settle_instruction, settle_plain, settle_wrapped, build_settle_funds_tx,
}
use pyserum.Core.Signers.{SignedBy, make_settle_funds_instruction-SignedBy}
use pyserum.Core.Signed.{IsSigned, owner-IsSigned, wrap-IsSigned}

module _ (packages : Packages) ⦃lib : Construct⦄ where
  open packages use {keys, wallets, client}
  open keys use {PublicKey, same_key, key_bytes, same_key_iff}
  open wallets use {
    wrapped_sol_mint, create_program_address, create_account_signers, close_account_signers,
  }
  open client use {World, Keypair, owner_key}

  settle_instruction-SignedBy :
      (core : MarketCore PublicKey) (open_orders : OpenOrdersAccount PublicKey)
      (base_wallet quote_wallet : PublicKey) (wrapped : Option PublicKey) (vault_signer : PublicKey)
      (w : World)
      → Ensures
          (SignedBy open_orders.owner)
          (settle_instruction packages core open_orders base_wallet quote_wallet wrapped
            vault_signer w).0
  unfolding settle_instruction
  settle_instruction-SignedBy core open_orders base_wallet quote_wallet wrapped vault_signer w =
      let P = SignedBy open_orders.owner in
      let base = wallet_for packages (base_mint keys core.state) base_wallet wrapped in
      let quote = wallet_for packages (quote_mint keys core.state) quote_wallet wrapped in
      let settle = λ (b q : PublicKey).
        lift {W = World}
          (make_settle_funds_instruction packages core open_orders b q vault_signer) in
      Ensures-bind (λ (_ : PublicKey). Unit {0}) P (lift base) (λ b. lift quote >>= settle b) w
        (Ensures-any base)
        λ b w' _.
          Ensures-bind (λ (_ : PublicKey). Unit {0}) P (lift quote) (settle b) w'
            (Ensures-any quote)
            λ q w'' _.
              make_settle_funds_instruction-SignedBy packages core open_orders b q vault_signer

  settle_plain-IsSigned :
      (core : MarketCore PublicKey) (owner : Keypair) (open_orders : OpenOrdersAccount PublicKey)
      (base_wallet quote_wallet vault_signer : PublicKey) (signers : List Keypair) (w : World)
      → open_orders.owner ≡ owner_key owner
      → IsSigned packages owner (record { transaction = []; signers = signers })
      → Ensures
          (IsSigned packages owner)
          (settle_plain packages core open_orders base_wallet quote_wallet vault_signer signers w).0
  unfolding settle_plain
  settle_plain-IsSigned core owner open_orders base_wallet quote_wallet vault_signer signers w e h =
      Ensures-bind (SignedBy open_orders.owner) (IsSigned packages owner)
        (settle_instruction packages core open_orders base_wallet quote_wallet none vault_signer)
        (λ settle. lift (ok (record { transaction = settle ∷ []; signers = signers }))) w
        (settle_instruction-SignedBy core open_orders base_wallet quote_wallet none vault_signer w)
        λ settle w' by.
          owner-IsSigned packages owner (record { transaction = []; signers = signers }) settle h
            (subst (λ k. SignedBy k settle) e by)

  settle_wrapped-IsSigned :
      (core : MarketCore PublicKey) (owner : Keypair) (open_orders : OpenOrdersAccount PublicKey)
      (base_wallet quote_wallet : PublicKey) (rent : ℕ) (vault_signer : PublicKey)
      (signers : List Keypair) (w : World)
      → open_orders.owner ≡ owner_key owner
      → IsSigned packages owner (record { transaction = []; signers = signers })
      → Ensures
          (IsSigned packages owner)
          (settle_wrapped packages core owner open_orders base_wallet quote_wallet rent vault_signer
            signers w).0
  unfolding settle_wrapped
  settle_wrapped-IsSigned core owner open_orders base_wallet quote_wallet rent vault_signer signers
        w e h =
      let address = owner_key owner in
      let empty : Draft PublicKey Keypair = record { transaction = []; signers = signers } in
      let opened = λ (wrapped : Keypair) (created : TransactionInstruction PublicKey).
        add (add (append_signer empty wrapped) created)
          (initialize_wrapped packages address (owner_key wrapped)) in
      let settle = λ (wrapped : Keypair).
        settle_instruction packages core open_orders base_wallet quote_wallet
          (some (owner_key wrapped)) vault_signer in
      let finish = λ (wrapped : Keypair) (created instruction : TransactionInstruction PublicKey).
        lift {W = World} (
          ok (
            add (add (opened wrapped created) instruction)
              (close_wrapped packages address (owner_key wrapped)))) in
      let create =
        λ (wrapped : Keypair). create_wrapped packages address (owner_key wrapped) rent in
      let rest = λ (wrapped : Keypair) (created : TransactionInstruction PublicKey).
        settle wrapped >>= finish wrapped created in
      Ensures-bind (λ (_ : Keypair). Unit {0}) (IsSigned packages owner) (fresh packages)
        (λ wrapped. lift (create wrapped) >>= rest wrapped) w tt
        λ wrapped w' _.
          Ensures-bind (λ i. signers_in i.keys ≡ address ∷ owner_key wrapped ∷ [])
            (IsSigned packages owner) (lift (create wrapped)) (rest wrapped) w'
            (Ensures-ok _ (create wrapped) (create_account_signers _))
            λ created w'' made.
              Ensures-bind (SignedBy open_orders.owner) (IsSigned packages owner) (settle wrapped)
                (finish wrapped created) w''
                (settle_instruction-SignedBy core open_orders base_wallet quote_wallet
                  (some (owner_key wrapped)) vault_signer w'')
                λ instruction w3 by.
                  owner-IsSigned packages owner (add (opened wrapped created) instruction)
                    (close_wrapped packages address (owner_key wrapped))
                    (owner-IsSigned packages owner (opened wrapped created) instruction
                      (wrap-IsSigned packages owner empty wrapped created h made)
                      (subst (λ k. SignedBy k instruction) e by))
                    (close_account_signers _)

  -- Whatever the world, if `_build_settle_funds_tx` does not raise, its signers sign all that its
  -- transaction's instructions ask for, given that the owner is among those handed in.
  pub build_settle_funds_tx-IsSigned :
      (core : MarketCore PublicKey) (owner : Keypair) (signers : List Keypair)
      (open_orders : OpenOrdersAccount PublicKey) (base_wallet quote_wallet : PublicKey) (rent : ℕ)
      (should_wrap_sol : Bool) (w : World)
      → IsSigned packages owner (record { transaction = []; signers = signers })
      → Ensures
          (IsSigned packages owner)
          (build_settle_funds_tx packages core owner signers open_orders base_wallet quote_wallet
            rent should_wrap_sol w).0
  unfolding build_settle_funds_tx
  build_settle_funds_tx-IsSigned core owner signers open_orders base_wallet quote_wallet rent wrap w
        h =
      elim (Bool-cases (same_key open_orders.owner (owner_key owner))) [
        | inr other ↦ rw other tt
        | inl same ↦ rw same (
            let e = (same_key_iff open_orders.owner (owner_key owner)).0 same in
            let nonce = to_bytes core.state.decoded.vault_signer_nonce 8 in
            let vault = λ (n : Bytes).
              create_program_address (key_bytes (public_key_of keys core.state) ∷ n ∷ [])
                core.state.program_id in
            let rest = λ (v : PublicKey).
              if wrap
              then settle_wrapped packages core owner open_orders base_wallet quote_wallet rent v
                  signers
              else settle_plain packages core open_orders base_wallet quote_wallet v signers in
            Ensures-bind (λ (_ : Bytes). Unit {0}) (IsSigned packages owner) (lift nonce)
              (λ n. lift (vault n) >>= rest) w (Ensures-any nonce)
              λ n w' _.
                Ensures-bind (λ (_ : PublicKey). Unit {0}) (IsSigned packages owner)
                  (lift (vault n)) rest w' (Ensures-any (vault n))
                  λ v w'' _. elim (Bool-cases wrap) [
                    | inl wraps ↦ rw wraps (
                        settle_wrapped-IsSigned core owner open_orders base_wallet quote_wallet rent
                          v signers w'' e h)
                    | inr plain ↦ rw plain (
                        settle_plain-IsSigned core owner open_orders base_wallet quote_wallet v
                          signers w'' e h)
                  ])
      ]
