-- ===== src/Tests/Loads.antt =====
-- The theorems on loading, on fills and on the answers of a server, at concrete accounts.
use pyserum.Base.{
  ℕ, ◌≡◌, refl, true, [], ◌∷◌, ◌++◌, ◌↔◌, ◌>>=◌, All, map, none, some, negsuc, ok, arith, pos,
  map_result,
}
use pyserum.Layouts.OpenOrdersEncoding.{encode_open_orders}
use pyserum.Market.{base_spl_token_multiplier, quote_spl_token_multiplier, event_queue}
use pyserum.Market.Load
use pyserum.Market.Loaded.{HasDecimals, other_mint, load-from_bytes}
use pyserum.Market
use pyserum.Net.Answers.{has_data, parse_bytes_data-Answers, Serves}
use pyserum.Net.Json.{Fields, number, string, array, cons, nil, end, object, field}
use pyserum.Net.Client.{ProgramAccountsArgs}
use pyserum.Net.Utils.{parse_bytes_data}
use pyserum.OpenOrders.Query.{build_get_program_accounts_args, process_get_program_accounts_resp}
use pyserum.OpenOrders.Answers.{
  found_answer, process_get_program_accounts_resp-found_answer,
  build_get_program_accounts_args-selects, Matches,
}
use pyserum.OrderBook.{buy, Order, order_of}
use pyserum.Queue.Kinds.{event_in, selected}
use pyserum.Core.Defs.{filter, has_address, parse_orders_for_owner}
use pyserum.Core.Lamports.{IsLeast, get_lamport_need_for_sol_wrapping-IsLeast}
use pyserum.Core.Signed.{IsAmong}
use pyserum.Slab.Tree.{leaves}
use pyserum.Core.Fills.{fill_in, was_paid}
use pyserum.Core.Owned.{parse_orders_for_owner-leaves}
use pyserum.Core.Wrapping.{get_lamport_need_for_sol_wrapping}
use pyserum.Clients.Defs.{load_event_queue, load_fills}
use pyserum.Clients.Loads.{load_event_queue-load_fills}
use pyserum.Tests.Accounts.{
  test_padding, open_orders_padding, test_header, event_slots, event_ring, test_open_orders,
  test_open_orders-Fits,
}
use pyserum.Tests.Concrete.{concrete, test_keys, test_floats}
use pyserum.Tests.Data.{
  test_book, test_tree, test_slab-IsSlabOf, market_padding, test_market, test_market-Fits,
  test_state,
}
use pyserum.Tests.Network.{
  network, test_core, found_account, own_account, market_account, queue_account,
}
use pyserum.Tests.Server.{test_texts}

events_are_served : Serves test_keys test_texts network.client 90 12 queue_account
events_are_served = record { answer = _; answers = refl; shape = has_data _ _ _ _ refl refl refl }

load_event_queue-load_fills_example :
    (load_event_queue network ⦃lib = concrete⦄ test_core 90
      ≡ (ok (map (event_in test_keys) (selected test_header event_slots none)), 90))
    × (load_fills network ⦃lib = concrete⦄ test_core (pos 2) 90 ≡ (
      map_result (fill_in network test_core) (
          filter
            (was_paid network)
            (map (event_in test_keys) (selected test_header event_slots (some 2)))),
      90,
    ))
    × (load_fills network ⦃lib = concrete⦄ test_core (negsuc 1) 90 ≡ (ok [], 90))
unfolding event_queue
load_event_queue-load_fills_example =
    load_event_queue-load_fills network ⦃lib = concrete⦄ test_core 90 test_padding test_header
      event_slots (7 ∷ []) 1 event_ring events_are_served

parse_orders_for_owner-leaves_example :
    (parse_orders_for_owner network 5 test_book test_book (own_account ∷ []) ≡ (
      map_result (order_of test_floats test_book) (leaves test_tree) >>= λ bid_orders.
      map_result (order_of test_floats test_book) (leaves test_tree) >>= λ ask_orders. ok (
        filter
          (λ (o : Order ℕ ℕ). has_address network (own_account ∷ []) o.open_order_address)
          (bid_orders ++ ask_orders))))
    × ((key : ℕ)
        → (has_address network (own_account ∷ []) key ≡ true)
          ↔ IsAmong key (map (λ a. a.address) (own_account ∷ [])))
parse_orders_for_owner-leaves_example =
    parse_orders_for_owner-leaves network test_book test_book test_tree test_tree 5 own_account []
      test_slab-IsSlabOf test_slab-IsSlabOf (omega arith) (omega arith)

get_lamport_need_for_sol_wrapping-IsLeast_example :
    (lamports : ℕ) × (get_lamport_need_for_sol_wrapping test_floats 3 200 buy (own_account ∷ [])
      ≡ ok lamports)
    × IsLeast 5 (pos 600000000000) lamports
get_lamport_need_for_sol_wrapping-IsLeast_example =
    get_lamport_need_for_sol_wrapping-IsLeast test_floats 3 200 buy (own_account ∷ [])
      (pos 600000000000) refl

base_decimals : HasDecimals test_keys test_texts network.client ⦃lib = concrete⦄ 77 90 3 2
base_decimals =
    other_mint (record { before = 1000; behind = 2000 }) (record { decimals = 2 }) [] refl
      (record { decimals = omega arith })
      (record { answer = _; answers = refl; shape = has_data _ _ _ _ refl refl refl })

quote_decimals : HasDecimals test_keys test_texts network.client ⦃lib = concrete⦄ 77 90 4 1
quote_decimals =
    other_mint (record { before = 1000; behind = 2000 }) (record { decimals = 1 }) [] refl
      (record { decimals = omega arith })
      (record { answer = _; answers = refl; shape = has_data _ _ _ _ refl refl refl })

load-from_bytes_example :
    (Load.load test_keys test_texts network.client ⦃lib = concrete⦄ 77 1 99 90
      ≡ (Market.from_bytes ⦃lib = concrete⦄ 99 2 1 market_account, 90))
    × (Load.load test_keys test_texts network.client ⦃lib = concrete⦄ 77 1 99 90
        ≡ (ok test_state, 90))
load-from_bytes_example =
    load-from_bytes test_keys test_texts network.client ⦃lib = concrete⦄ 77 90 1 99 market_padding
      test_market [] 2 1 test_market-Fits refl
      (record { answer = _; answers = refl; shape = has_data _ _ _ _ refl refl refl }) base_decimals
      quote_decimals

-- An answer with other fields about, and data that says more than its bytes and their encoding.
abbrev full_answer : Fields
full_answer = field "id" (number 7) (
    field "result"
      (object (
        field "value"
          (object (
            field "owner" (string "dex") (
              field "data" (array (cons (string (test_texts.write_base64 market_account)) nil))
                end)))
          end))
      end)

parse_bytes_data-Answers_example :
    parse_bytes_data test_keys test_texts (object full_answer) ≡ ok market_account
parse_bytes_data-Answers_example =
    parse_bytes_data-Answers test_keys test_texts full_answer (ok market_account)
      (has_data _ _ market_account nil refl refl refl)

process_get_program_accounts_resp-found_answer_example :
    process_get_program_accounts_resp test_keys test_texts ⦃lib = concrete⦄
      (found_answer test_keys test_texts (found_account ∷ []))
    ≡ ok (own_account ∷ [])
process_get_program_accounts_resp-found_answer_example =
    process_get_program_accounts_resp-found_answer test_keys test_texts ⦃lib = concrete⦄
      (found_account ∷ []) (test_open_orders-Fits, tt)

build_get_program_accounts_args-selects_example :
    (args : ProgramAccountsArgs ℕ ℕ) × (build_get_program_accounts_args test_keys test_texts
        ⦃lib = concrete⦄ 1 99 2 0
      ≡ ok args)
    × (args.program_id ≡ 99)
    × (args.data_size ≡ 3228)
    × (All
          (Matches test_texts (encode_open_orders open_orders_padding test_open_orders))
          args.memcmp_opts
        ↔ ((test_open_orders.market ≡ test_keys.key_bytes 1)
            × (test_open_orders.owner ≡ test_keys.key_bytes 2)))
build_get_program_accounts_args-selects_example =
    build_get_program_accounts_args-selects test_keys test_texts ⦃lib = concrete⦄ 1 99 2 0
      open_orders_padding test_open_orders test_open_orders-Fits
