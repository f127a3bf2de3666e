-- ===== src/Core/Signers.antt =====
-- Who has to sign the instructions that pyserum/market/core.py makes.
use pyserum.Base.{
  ℕ, ◌≡◌, refl, Option, none, some, List, [], ◌∷◌, Result, ok, err, ◌>>=◌, Bool-cases, inl, inr,
}
use pyserum.Construct.{Construct}
use pyserum.Net.Ensures.{Ensures}
use pyserum.Solana.{PublicKeys, Programs, AccountMeta, TransactionInstruction}
use pyserum.Wallets.{signers_in}
use pyserum.Instructions.Layout.{
  Args, instructions_layout, no_args, new_order_args, new_order_v3_args,
}
use pyserum.Instructions.Params.{NewOrderParams, NewOrderV3Params, SettleFundsParams}
use pyserum.Instructions.Build.{
  InstructionType, type_number, instruct, new_order, new_order_v3, settle_funds, discount,
  new_order_type, new_order_v3_type, settle_funds_type, new_order_accounts, new_order_v3_accounts,
  settle_funds_accounts,
}
use pyserum.OpenOrders.{OpenOrdersAccount}
use pyserum.OrderBook.{Side}
use pyserum.Market.{base_vault, quote_vault, price_number_to_lots, base_size_number_to_lots}
use pyserum.Core.Packages.{Packages}
use pyserum.Core.Defs.{MarketCore, use_request_queue}
use pyserum.Core.Instruct.{
  at_least_zero, make_place_order_instruction, make_settle_funds_instruction,
}

-- An instruction that just one key has to sign.
abbrev pub SignedBy : {Key : Type 0} → Key → TransactionInstruction Key → Type 0
SignedBy key instruction = signers_in instruction.keys ≡ key ∷ []

pub after_any :
    {A B : Type 0} (Q : B → Type 0) (r : Result A) (next : A → Result B)
    → ((a : A) → Ensures Q (next a))
    → Ensures Q (r >>= next)
after_any Q (ok a) next f = f a
after_any Q (err e) next f = tt

module _ (keys : PublicKeys) (programs : Programs keys) ⦃lib : Construct⦄ where
  open keys use {PublicKey}

  instruct-SignedBy :
      (type : InstructionType) (args : Args) (program_id key : PublicKey)
      (accounts : List (AccountMeta PublicKey))
      → signers_in accounts ≡ key ∷ []
      → Ensures (SignedBy key) (instruct keys programs type args program_id accounts)
  unfolding instruct
  instruct-SignedBy type args program_id key accounts h =
      after_any (SignedBy key)
        (instructions_layout.build (record { instruction_type = type_number type; args = args }))
        (λ data'. ok (record { keys = accounts; program_id = program_id; data_bytes = data' }))
        (λ data'. h)

  new_order-SignedBy :
      (params : NewOrderParams PublicKey)
      → Ensures (SignedBy params.owner) (new_order keys programs params)
  unfolding new_order
  new_order-SignedBy params =
      instruct-SignedBy new_order_type
        (new_order_args (
          params.side,
          (params.limit_price, (params.max_quantity, (params.order_type, params.client_id))),
        ))
        params.program_id params.owner (new_order_accounts keys programs params) refl

  no_signer_in_discount : (d : Option PublicKey) → signers_in (discount keys programs d) ≡ []
  no_signer_in_discount none = refl
  no_signer_in_discount (some key) = refl

  new_order_v3-SignedBy :
      (params : NewOrderV3Params PublicKey)
      → Ensures (SignedBy params.owner) (new_order_v3 keys programs params)
  unfolding new_order_v3
  new_order_v3-SignedBy params =
      instruct-SignedBy new_order_v3_type
        (new_order_v3_args (
          params.side,
          (
            params.limit_price,
            (
              params.max_base_quantity,
              (
                params.max_quote_quantity,
                (params.self_trade_behavior, (params.order_type, (params.client_id, 65535))),
              ),
            ),
          ),
        ))
        params.program_id params.owner (new_order_v3_accounts keys programs params)
        (rw (no_signer_in_discount params.fee_discount_pubkey) refl)

  settle_funds-SignedBy :
      (params : SettleFundsParams PublicKey)
      → Ensures (SignedBy params.owner) (settle_funds keys programs params)
  unfolding settle_funds
  settle_funds-SignedBy params =
      instruct-SignedBy settle_funds_type no_args params.program_id params.owner
        (settle_funds_accounts keys programs params) refl

module _ (packages : Packages) ⦃lib : Construct⦄ where
  open packages use {keys, programs, floats}
  open keys use {PublicKey, same_key}
  open floats use {Float}

  -- The instruction that places an order has to be signed by its owner alone.
  pub make_place_order_instruction-SignedBy :
      (core : MarketCore PublicKey) (payer owner : PublicKey) (order_type : ℕ) (side : Side)
      (limit_price max_quantity : Float) (client_id : ℕ) (open_orders : PublicKey)
      (discount : Option PublicKey)
      → Ensures (SignedBy owner) (
          make_place_order_instruction packages core payer owner order_type side limit_price
            max_quantity client_id open_orders discount)
  unfolding make_place_order_instruction
  make_place_order_instruction-SignedBy core payer owner order_type side limit_price max_quantity
        client_id open_orders discount =
      after_any (SignedBy owner) (base_size_number_to_lots floats core.state max_quantity) _ λ size.
        after_any (SignedBy owner) (at_least_zero size _) _ λ size_lots.
          after_any (SignedBy owner) (price_number_to_lots floats core.state limit_price) _ λ price.
            after_any (SignedBy owner) (at_least_zero price _) _ λ price_lots.
              elim (Bool-cases (use_request_queue packages core)) [
                | inl old ↦ rw old (new_order-SignedBy keys programs _)
                | inr new ↦ rw new (new_order_v3-SignedBy keys programs _)
              ]

  -- The instruction that settles funds has to be signed by the owner of the open orders alone.
  pub make_settle_funds_instruction-SignedBy :
      (core : MarketCore PublicKey) (open_orders : OpenOrdersAccount PublicKey)
      (base_wallet quote_wallet vault_signer : PublicKey)
      → Ensures (SignedBy open_orders.owner) (
          make_settle_funds_instruction packages core open_orders base_wallet quote_wallet
            vault_signer)
  unfolding make_settle_funds_instruction
  make_settle_funds_instruction-SignedBy core open_orders base_wallet quote_wallet vault_signer =
      elim (Bool-cases (same_key base_wallet (base_vault keys core.state))) [
        | inl vault ↦ rw vault tt
        | inr other ↦ elim (Bool-cases (same_key quote_wallet (quote_vault keys core.state))) [
          | inl vault ↦ rw (other, vault) tt
          | inr other' ↦ rw (other, other') (settle_funds-SignedBy keys programs _)
        ]
      ]
