-- ===== src/Core/Settle.antt =====
-- The settling of funds in pyserum/market/core.py: the transaction that it puts together.
use pyserum.Base.{
  ℕ, Bool, not, ◌||◌, Option, none, some, List, [], ◌∷◌, ◌++◌, invalid_owner, unbound_local, Result,
  ok, err, or_raise, if◌then◌else◌,
}
use pyserum.Base.Bytes.{to_bytes}
use pyserum.Construct.{Construct}
use pyserum.Solana.{TransactionInstruction}
use pyserum.Market.{public_key_of, base_mint, quote_mint}
use pyserum.Net.Action.{Action, lift, ◌>>=◌}
use pyserum.OpenOrders.{OpenOrdersAccount}
use pyserum.Core.Packages.{Packages}
use pyserum.Core.Defs.{MarketCore}
use pyserum.Core.Instruct.{make_settle_funds_instruction}
use pyserum.Core.Draft.{Draft, fresh, create_wrapped, initialize_wrapped, close_wrapped}

module _ (packages : Packages) ⦃lib : Construct⦄ where
  open packages use {keys, programs, wallets, client}
  open keys use {PublicKey, same_key, key_bytes}
  open wallets use {wrapped_sol_mint, create_program_address}
  open client use {World, Keypair, owner_key}

  -- _settle_funds_should_wrap_sol
  unfoldable pub settle_funds_should_wrap_sol : MarketCore PublicKey → Bool
  settle_funds_should_wrap_sol core =
      same_key (quote_mint keys core.state) wrapped_sol_mint
      || same_key (base_mint keys core.state) wrapped_sol_mint

  -- wallet if mint != WRAPPED_SOL_MINT else wrapped_sol_account.public_key, where the local variable
  -- wrapped_sol_account may be unbound.
  unfoldable pub wallet_for : PublicKey → PublicKey → Option PublicKey → Result PublicKey
  wallet_for mint wallet wrapped =
      if same_key mint wrapped_sol_mint then or_raise wrapped unbound_local else ok wallet

  -- The call of make_settle_funds_instruction in _build_settle_funds_tx.
  unfoldable pub settle_instruction :
      MarketCore PublicKey
      → OpenOrdersAccount PublicKey
      → PublicKey
      → PublicKey
      → Option PublicKey
      → PublicKey
      → Action World (TransactionInstruction PublicKey)
  unfolding wallet_for
  settle_instruction core open_orders base_wallet quote_wallet wrapped vault_signer = do
    base ← lift (wallet_for (base_mint keys core.state) base_wallet wrapped)
    quote ← lift (wallet_for (quote_mint keys core.state) quote_wallet wrapped)
    lift (make_settle_funds_instruction packages core open_orders base quote vault_signer)

  -- _build_settle_funds_tx from the new transaction on, without and with an account for wrapped SOL.
  unfoldable pub settle_plain :
      MarketCore PublicKey
      → OpenOrdersAccount PublicKey
      → PublicKey
      → PublicKey
      → PublicKey
      → List Keypair
      → Action World (Draft PublicKey Keypair)
  unfolding settle_instruction
  settle_plain core open_orders base_wallet quote_wallet vault_signer signers = do
    settle ← settle_instruction core open_orders base_wallet quote_wallet none vault_signer
    lift (ok (record { transaction = settle ∷ []; signers = signers }))

  unfoldable pub settle_wrapped :
      MarketCore PublicKey
      → Keypair
      → OpenOrdersAccount PublicKey
      → PublicKey
      → PublicKey
      → ℕ
      → PublicKey
      → List Keypair
      → Action World (Draft PublicKey Keypair)
  unfolding settle_instruction
  settle_wrapped core owner open_orders base_wallet quote_wallet min_bal_for_rent_exemption
        vault_signer signers =
      do
        let owner_address = owner_key owner
        wrapped_sol_account ← fresh packages
        let wrapped = owner_key wrapped_sol_account
        created ← lift (create_wrapped packages owner_address wrapped min_bal_for_rent_exemption)
        settle ←
            settle_instruction core open_orders base_wallet quote_wallet (some wrapped) vault_signer
        lift (
            ok (record {
              transaction =
                  created
                  ∷ initialize_wrapped packages owner_address wrapped
                  ∷ settle
                  ∷ close_wrapped packages owner_address wrapped
                  ∷ [];
              signers = signers ++ wrapped_sol_account ∷ [];
            }))

  unfoldable pub build_settle_funds_tx :
      MarketCore PublicKey
      → Keypair
      → List Keypair
      → OpenOrdersAccount PublicKey
      → PublicKey
      → PublicKey
      → ℕ
      → Bool
      → Action World (Draft PublicKey Keypair)
  unfolding settle_plain settle_wrapped
  build_settle_funds_tx core owner signers open_orders base_wallet quote_wallet
        min_bal_for_rent_exemption should_wrap_sol =
      if not (same_key open_orders.owner (owner_key owner))
      then lift (err invalid_owner)
      else (lift (to_bytes core.state.decoded.vault_signer_nonce 8) >>= λ nonce.
          lift (
            create_program_address (key_bytes (public_key_of keys core.state) ∷ nonce ∷ [])
              core.state.program_id)
          >>= λ vault_signer.
              if should_wrap_sol
              then settle_wrapped core owner open_orders base_wallet quote_wallet
                  min_bal_for_rent_exemption vault_signer signers
              else settle_plain core open_orders base_wallet quote_wallet vault_signer signers)
