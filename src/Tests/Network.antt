-- ===== src/Tests/Network.antt =====
-- A server that has the accounts of a market, one that has no open orders, and their packages.
use pyserum.Base.{ℕ, true, false, [], ◌∷◌, ◌++◌, ◌==◌, if◌then◌else◌, replicate}
use pyserum.Base.Bytes.{Bytes}
use pyserum.Layouts.AccountFlags.{AccountFlags}
use pyserum.Layouts.MarketEncoding.{encode_market, encode_mint}
use pyserum.Layouts.QueueEncoding.{encode_event}
use pyserum.Layouts.SlabEncoding.{encode_slab}
use pyserum.Net.Answers.{answer_with, account_value}
use pyserum.Net.Json.{Json, null, end}
use pyserum.OpenOrders.{OpenOrdersAccount, account_in}
use pyserum.OpenOrders.Answers.{FoundAccount, found_answer}
use pyserum.OrderBook.{buy, sell}
use pyserum.OrderBook.Decode.{encode_order_book}
use pyserum.Queue.Decode.{encode_queue}
use pyserum.Slab.Wire.{wire_slab}
use pyserum.Clients.Orders.{rent_answer}
use pyserum.Core.Packages.{Packages}
use pyserum.Core.Defs.{MarketCore}
use pyserum.Core.Draft.{OrderRequest}
use pyserum.Tests.Accounts.{
  test_padding, open_orders_padding, test_header, event_slots, test_open_orders,
}
use pyserum.Tests.Concrete.{concrete, test_keys, signed_floats}
use pyserum.Tests.Data.{flags_of_bids, market_padding, test_market, test_slab, test_state, some_key}
use pyserum.Tests.Server.{packages_with, test_texts}

abbrev pub flags_of_asks : AccountFlags
flags_of_asks = record flags_of_bids { bids = false; asks = true }

abbrev pub book_account : AccountFlags → Bytes
book_account flags =
    encode_order_book (replicate 5 115) flags (encode_slab (wire_slab test_keys test_slab)) []

abbrev pub market_account : Bytes
market_account = encode_market market_padding test_market ++ []

abbrev pub mint_account : ℕ → Bytes
mint_account n =
    encode_mint (record { before = 1000; behind = 2000 }) (record { decimals = n }) ++ []

abbrev pub queue_account : Bytes
queue_account = encode_queue encode_event test_padding test_header event_slots (7 ∷ [])

abbrev has : Bytes → Json
has b = answer_with null (account_value test_keys test_texts b end)

abbrev account_at : ℕ → Json
account_at k =
    if k == 1
    then has market_account
    else if k == 3
    then has (mint_account 2)
    else if k == 4
    then has (mint_account 1)
    else if k == 12
    then has queue_account
    else if k == 13
    then has (book_account flags_of_bids)
    else if k == 14
    then has (book_account flags_of_asks)
    else answer_with null null

abbrev pub found_account : FoundAccount ℕ
found_account = record {
  address = 70;
  padding = open_orders_padding;
  container = test_open_orders;
  rest = [];
  executable = false;
  lamports = 23;
  owner = 99;
}

abbrev pub own_account : OpenOrdersAccount ℕ
own_account = account_in test_keys 70 test_open_orders

abbrev pub network : Packages
network = packages_with (record {
  account = account_at;
  program_accounts = found_answer test_keys test_texts (found_account ∷ []);
  rent = rent_answer 500;
})

-- The same server, with numbers that may be negative.
abbrev pub signed_network : Packages
signed_network = record network { floats = signed_floats }

abbrev pub empty_network : Packages
empty_network = packages_with (record {
  account = account_at;
  program_accounts = found_answer test_keys test_texts [];
  rent = rent_answer 500;
})

abbrev pub test_core : MarketCore ℕ
test_core = record { state = test_state; force_use_request_queue = false }

-- A market whose base tokens are wrapped SOL.
abbrev pub sol_core : MarketCore ℕ
sol_core = record {
  state = record test_state { decoded = record test_market { base_mint = some_key 77 } };
  force_use_request_queue = false;
}

abbrev pub bid_request : OrderRequest network ⦃lib = concrete⦄
bid_request = record {
  payer = 60;
  owner = 50;
  order_type = 0;
  side = buy;
  limit_price = 3;
  max_quantity = 200;
  client_id = 9;
}

abbrev pub ask_request : OrderRequest empty_network ⦃lib = concrete⦄
ask_request = record {
  payer = 60;
  owner = 50;
  order_type = 0;
  side = sell;
  limit_price = 3;
  max_quantity = 200;
  client_id = 9;
}
