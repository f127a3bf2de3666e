-- ===== src/Tests/Settlements.antt =====
-- The theorems on settling funds at concrete markets.
use pyserum.Base.{ℕ, ◌≡◌, ◌≢◌, refl, true, false, [], ◌∷◌, ok, arith}
use pyserum.Base.Bytes.{low_bytes, to_bytes}
use pyserum.Solana.{TransactionInstruction}
use pyserum.Instructions.Decoded.{decode_settle_funds-settle_funds}
use pyserum.Market.{base_mint, quote_mint, base_vault, quote_vault}
use pyserum.Net.Json.{number}
use pyserum.Net.Steps.{went_on}
use pyserum.Core.Instruct.{make_settle_funds_instruction}
use pyserum.Core.Settle.{settle_funds_should_wrap_sol}
use pyserum.Core.Signed.{IsSigned, SignsAll}
use pyserum.Clients.Defs.{async_settle_funds}
use pyserum.Clients.Settlements.{
  MaySettle, Sends, draft_settlement_plain, settle_funds_plain, wrapped_settlement,
  settle_funds_wrapped,
}
use pyserum.Clients.Signed.{async_settle_funds-IsSigned}
use pyserum.Tests.Concrete.{concrete, test_keys, test_programs}
use pyserum.Tests.Server.{test_created}
use pyserum.Tests.Network.{network, test_core, sol_core, own_account}

settled :
    (i : TransactionInstruction ℕ) × (make_settle_funds_instruction network ⦃lib = concrete⦄
        test_core own_account 31 32 100
      ≡ ok i)
unfolding make_settle_funds_instruction base_vault quote_vault
settled =
    went_on _ _ _ (decode_settle_funds-settle_funds test_keys test_programs ⦃lib = concrete⦄ _)

sol_settled :
    (i : TransactionInstruction ℕ) × (make_settle_funds_instruction network ⦃lib = concrete⦄
        sol_core own_account 90 32 100
      ≡ ok i)
unfolding make_settle_funds_instruction base_vault quote_vault
sol_settled =
    went_on _ _ _ (decode_settle_funds-settle_funds test_keys test_programs ⦃lib = concrete⦄ _)

no_sol : settle_funds_should_wrap_sol network ⦃lib = concrete⦄ test_core ≡ false
unfolding settle_funds_should_wrap_sol base_mint quote_mint
no_sol = refl

has_sol : settle_funds_should_wrap_sol network ⦃lib = concrete⦄ sol_core ≡ true
unfolding settle_funds_should_wrap_sol base_mint quote_mint
has_sol = refl

owner_settles : MaySettle network ⦃lib = concrete⦄ test_core 2 own_account 31 32 100
unfolding to_bytes
owner_settles = record { nonce = low_bytes 8 2; owns = refl; nonce_bytes = refl; vault = refl }

owner_settles_sol : MaySettle network ⦃lib = concrete⦄ sol_core 2 own_account 31 32 100
unfolding to_bytes
owner_settles_sol = record { nonce = low_bytes 8 2; owns = refl; nonce_bytes = refl; vault = refl }

settle_funds_plain_example :
    Sends network ⦃lib = concrete⦄ test_core 2 own_account 31 32 7 90 90
      (record { transaction = settled.0 ∷ []; signers = 2 ∷ [] })
settle_funds_plain_example =
    settle_funds_plain network ⦃lib = concrete⦄ test_core 2 own_account 31 32 7 90 100 settled.0
      owner_settles no_sol settled.1

async_settle_funds-IsSigned_example :
    IsSigned network ⦃lib = concrete⦄ 2 (record { transaction = settled.0 ∷ []; signers = 2 ∷ [] })
    × (async_settle_funds network ⦃lib = concrete⦄ test_core 2 own_account 31 32 7 90
        ≡ (ok (number 1), 90))
async_settle_funds-IsSigned_example =
    async_settle_funds-IsSigned network ⦃lib = concrete⦄ test_core 2 own_account 31 32 7 90 90
      (record { transaction = settled.0 ∷ []; signers = 2 ∷ [] })
      (draft_settlement_plain network ⦃lib = concrete⦄ test_core 2 own_account 31 32 90 100
        settled.0 owner_settles no_sol settled.1)

other_key : (j k : ℕ) → j ≡ 90 → k ≡ 2 → j ≢ k
other_key j k ninety two e = omega (arith, ninety, two, e)

abbrev created_wrapped : TransactionInstruction ℕ
created_wrapped = test_created (record {
  from_pubkey = 2;
  new_account_pubkey = 90;
  lamports = 500;
  space = 165;
  program_id = test_programs.token_program;
})

settle_funds_wrapped_example :
    Sends network ⦃lib = concrete⦄ sol_core 2 own_account 31 32 7 90 91 (
      wrapped_settlement network ⦃lib = concrete⦄ sol_core 2 own_account 31 32 90 created_wrapped
        sol_settled.0)
    × ¬ SignsAll
        (2 ∷ [])
        (wrapped_settlement network ⦃lib = concrete⦄ sol_core 2 own_account 31 32 90 created_wrapped
          sol_settled.0).transaction
unfolding base_mint quote_mint
settle_funds_wrapped_example =
    settle_funds_wrapped network ⦃lib = concrete⦄ sol_core 2 own_account 31 32 7 90 90 91 500 90 100
      created_wrapped sol_settled.0 owner_settles_sol has_sol refl refl refl sol_settled.1
      (other_key 90 2 refl refl)
