-- ===== src/Tests/Orders.antt =====
-- The theorems on placing orders at a concrete market.
use pyserum.Base.{
  ℕ, ◌+◌, ◌≡◌, refl, true, false, [], ◌∷◌, none, pos, negsuc, ok, err, arith, inl, size_too_small,
  ◌>>=◌,
}
use pyserum.Base.Signed.{times}
use pyserum.Solana.{TransactionInstruction}
use pyserum.Layouts.OpenOrdersEncoding.{open_orders_layout-HasSize}
use pyserum.Market.{
  public_key_of, quote_mint, base_mint, quote_lot_size, base_lot_size, price_number_to_lots,
  base_size_number_to_lots, base_spl_token_multiplier, quote_spl_token_multiplier,
}
use pyserum.Construct.Sizes.{HasSize}
use pyserum.Core.Wrapping.{get_lamport_need_for_sol_wrapping}
use pyserum.Instructions.Decode.{decode_new_order_v3}
use pyserum.Net.Steps.{went_on}
use pyserum.Net.Json.{number}
use pyserum.OpenOrders.Query.{build_get_program_accounts_args}
use pyserum.OrderBook.{buy, sell}
use pyserum.Core.Draft.{place_instruction, order_should_wrap_sol, add, prepare_order_transaction}
use pyserum.Core.Instruct.{make_place_order_instruction}
use pyserum.Core.Placed.{
  OrderFits, placed_order, decode_new_order_v3-make_place_order_instruction,
  make_place_order_instruction-negative,
}
use pyserum.Core.Signed.{IsSigned, prepare_order_transaction-IsSigned}
use pyserum.Net.Ensures.{Ensures}
use pyserum.Clients.Defs.{place_order}
use pyserum.Clients.Loads.{Finds, find-Finds}
use pyserum.Clients.Orders.{find, draft_order-existing, place_order_new_wrapped, empty_draft}
use pyserum.Clients.Sent.{place_order-Finds}
use pyserum.Core.Signers.{SignedBy}
use pyserum.Clients.Signed.{place_order-IsSigned}
use pyserum.Tests.Accounts.{test_open_orders-Fits}
use pyserum.Tests.Concrete.{concrete, test_keys, test_floats, test_programs, signed_floats}
use pyserum.Tests.Data.{test_state}
use pyserum.Tests.Network.{
  network, signed_network, empty_network, test_core, sol_core, found_account, own_account,
  bid_request, ask_request,
}
use pyserum.Tests.Server.{test_texts}

order_lots : OrderFits network ⦃lib = concrete⦄ test_core 3 200 0 9 3 200
unfolding price_number_to_lots base_size_number_to_lots base_spl_token_multiplier
    quote_spl_token_multiplier quote_lot_size base_lot_size
order_lots = record {
  size_in_lots = refl;
  price_in_lots = refl;
  price_fits = omega arith;
  size_fits = omega arith;
  quote_fits = omega arith;
  type_fits = omega arith;
  id_fits = omega arith;
}

sol_lots : OrderFits empty_network ⦃lib = concrete⦄ sol_core 3 200 0 9 3 200
unfolding price_number_to_lots base_size_number_to_lots base_spl_token_multiplier
    quote_spl_token_multiplier quote_lot_size base_lot_size
sol_lots = record {
  size_in_lots = refl;
  price_in_lots = refl;
  price_fits = omega arith;
  size_fits = omega arith;
  quote_fits = omega arith;
  type_fits = omega arith;
  id_fits = omega arith;
}

placed :
    (i : TransactionInstruction ℕ) × (place_instruction network ⦃lib = concrete⦄ test_core
        bid_request 60 70
      ≡ ok i)
unfolding place_instruction
placed = went_on _ _ _ (
    decode_new_order_v3-make_place_order_instruction network ⦃lib = concrete⦄ test_core 60 50 0 buy
      3 200 9 70 none 3 200 refl order_lots)

sol_placed :
    (i : TransactionInstruction ℕ) × (place_instruction empty_network ⦃lib = concrete⦄ sol_core
        ask_request 89 88
      ≡ ok i)
unfolding place_instruction
sol_placed = went_on _ _ _ (
    decode_new_order_v3-make_place_order_instruction empty_network ⦃lib = concrete⦄ sol_core 89 50 0
      sell 3 200 9 88 none 3 200 refl sol_lots)

pub account_is_found : Finds network ⦃lib = concrete⦄ test_core 50 90 (found_account ∷ [])
unfolding build_get_program_accounts_args
account_is_found = record {
  args = record {
    program_id = 99;
    commitment = 0;
    encoding = "base64";
    data_size = 3228;
    memcmp_opts =
        record {
          offset = 5 + 8;
          bytes = test_texts.text_of_key (public_key_of test_keys test_core.state);
        }
        ∷ record { offset = 5 + 8 + 32; bytes = test_texts.text_of_key 50 }
        ∷ [];
  };
  asked = rw (HasSize.run (open_orders_layout-HasSize ⦃lib = concrete⦄)) refl;
  answers = refl;
  fit = (test_open_orders-Fits, tt);
}

nothing_is_found : Finds empty_network ⦃lib = concrete⦄ sol_core 50 88 []
unfolding build_get_program_accounts_args
nothing_is_found = record {
  args = record {
    program_id = 99;
    commitment = 0;
    encoding = "base64";
    data_size = 3228;
    memcmp_opts =
        record {
          offset = 5 + 8;
          bytes = test_texts.text_of_key (public_key_of test_keys sol_core.state);
        }
        ∷ record { offset = 5 + 8 + 32; bytes = test_texts.text_of_key 50 }
        ∷ [];
  };
  asked = rw (HasSize.run (open_orders_layout-HasSize ⦃lib = concrete⦄)) refl;
  answers = refl;
  fit = tt;
}

found_own : find network ⦃lib = concrete⦄ test_core bid_request 90 ≡ (ok (own_account ∷ []), 90)
found_own =
    find-Finds network ⦃lib = concrete⦄ test_core 50 90 (found_account ∷ []) account_is_found

found_none : find empty_network ⦃lib = concrete⦄ sol_core ask_request 88 ≡ (ok [], 88)
found_none = find-Finds empty_network ⦃lib = concrete⦄ sol_core 50 88 [] nothing_is_found

no_sol : order_should_wrap_sol network ⦃lib = concrete⦄ test_core buy ≡ false
unfolding order_should_wrap_sol quote_mint base_mint
no_sol = refl

pays_sol : order_should_wrap_sol empty_network ⦃lib = concrete⦄ sol_core sell ≡ true
unfolding order_should_wrap_sol quote_mint base_mint
pays_sol = refl

needs : get_lamport_need_for_sol_wrapping test_floats {Key = ℕ} 3 200 sell [] ≡ ok 200010000000
unfolding get_lamport_need_for_sol_wrapping
needs = refl

place_order-IsSigned_example :
    IsSigned network ⦃lib = concrete⦄ 50
      (add (empty_draft network ⦃lib = concrete⦄ test_core bid_request) placed.0)
    × (place_order network ⦃lib = concrete⦄ test_core bid_request 7 90 ≡ (ok (number 1), 90))
place_order-IsSigned_example =
    place_order-IsSigned network ⦃lib = concrete⦄ test_core bid_request 7 90 90
      (add (empty_draft network ⦃lib = concrete⦄ test_core bid_request) placed.0)
      (draft_order-existing network ⦃lib = concrete⦄ test_core bid_request 90 90 own_account []
        placed.0 found_own refl no_sol placed.1)

place_order_new_wrapped_example :
    place_order empty_network ⦃lib = concrete⦄ sol_core ask_request 7 88 ≡ (ok (number 3), 90)
place_order_new_wrapped_example =
    place_order_new_wrapped empty_network ⦃lib = concrete⦄ sol_core ask_request 7 88 88 88 89 90 500
      200010000000 88 89 _ _ sol_placed.0 found_none refl refl refl refl refl pays_sol needs refl
      sol_placed.1

prepare_order_transaction-IsSigned_example :
    Ensures
      (IsSigned network ⦃lib = concrete⦄ 50)
      (prepare_order_transaction network ⦃lib = concrete⦄ test_core bid_request [] 70
        (empty_draft network ⦃lib = concrete⦄ test_core bid_request)
        90).0
prepare_order_transaction-IsSigned_example =
    prepare_order_transaction-IsSigned network ⦃lib = concrete⦄ test_core bid_request [] 70
      (empty_draft network ⦃lib = concrete⦄ test_core bid_request) 90
      (record { signed = tt; owner_signs = inl refl })

decode_new_order_v3-make_place_order_instruction_example :
    (make_place_order_instruction network ⦃lib = concrete⦄ test_core 60 50 0 buy 3 200 9 70 none
      >>= decode_new_order_v3 test_keys test_programs ⦃lib = concrete⦄)
    ≡ ok (placed_order network ⦃lib = concrete⦄ test_core 60 50 0 buy 3 200 9 70)
decode_new_order_v3-make_place_order_instruction_example =
    decode_new_order_v3-make_place_order_instruction network ⦃lib = concrete⦄ test_core 60 50 0 buy
      3 200 9 70 none 3 200 refl order_lots

refused_lots :
    (base_size_number_to_lots signed_floats test_state (negsuc 0) ≡ ok (negsuc 0))
    × (price_number_to_lots signed_floats test_state (pos 3) ≡ ok (pos 3))
unfolding price_number_to_lots base_size_number_to_lots base_spl_token_multiplier
    quote_spl_token_multiplier quote_lot_size base_lot_size times
refused_lots = (refl, refl)

place_order-Finds_example :
    (place : TransactionInstruction ℕ) × (place_order network ⦃lib = concrete⦄ test_core bid_request
        7 90
      ≡ (ok (number 1), 90))
    × SignedBy 50 place
    × (decode_new_order_v3 test_keys test_programs ⦃lib = concrete⦄ place
        ≡ ok (placed_order network ⦃lib = concrete⦄ test_core 60 50 0 buy 3 200 9 70))
place_order-Finds_example =
    place_order-Finds network ⦃lib = concrete⦄ test_core bid_request 7 90 (found_account ∷ [])
      own_account [] 3 200 account_is_found refl refl no_sol refl order_lots

make_place_order_instruction-negative_example :
    make_place_order_instruction signed_network ⦃lib = concrete⦄ test_core 60 50 0 buy
      (pos 3)
      (negsuc 0)
      9
      70
      none
    ≡ err size_too_small
make_place_order_instruction-negative_example =
    make_place_order_instruction-negative signed_network ⦃lib = concrete⦄ test_core 60 50 0 buy
      (pos 3) (negsuc 0) 9 70 none (negsuc 0) (pos 3) refused_lots.0 refused_lots.1 refl
