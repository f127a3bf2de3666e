-- ===== src/Tests/Data.antt =====
-- Accounts for the tests: a slab of three orders at two prices, with a free node, an order book of it,
-- a market, queues of three slots and an open orders account.
use pyserum.Base.{ℕ, ◌+◌, ◌*◌, ◌^◌, refl, true, false, pos, [], ◌∷◌, replicate, arith}
use pyserum.Base.Bytes.{Bytes}
use pyserum.Layouts.AccountFlags.{AccountFlags}
use pyserum.Layouts.Market.{MarketContainer}
use pyserum.Layouts.MarketEncoding.{MarketPadding, MarketContainerFits}
use pyserum.Market.{MarketState}
use pyserum.OrderBook.{OrderBook}
use pyserum.Slab.{SlabLeafNode, SlabInnerNode, plain, leaf, inner, Slab, none_next}
use pyserum.Slab.Tree.{Tree, tip, fork, IsSlabOf, IsCritBit}
use pyserum.Slab.Wire.{IsDecoded}
use pyserum.Tests.Concrete.{test_keys}

abbrev pub order_key : ℕ → ℕ → ℕ
order_key price n = price * 2 ^ 64 + n

abbrev pub order_leaf : ℕ → ℕ → ℕ → SlabLeafNode ℕ
order_leaf price n quantity = record {
  is_initialized = true;
  next = none_next;
  owner_slot = 1;
  fee_tier = 2;
  key = order_key price n;
  owner = 9;
  quantity = quantity;
  client_order_id = n;
}

abbrev pub fork_node : ℕ → ℕ → ℕ → SlabInnerNode
fork_node prefix_len left right = record {
  is_initialized = true;
  next = none_next;
  prefix_len = prefix_len;
  key = order_key 5 1;
  children = left ∷ right ∷ [];
}

abbrev pub test_slab : Slab ℕ
test_slab = record {
  header = record {
    bump_index = 6;
    free_list_length = 1;
    free_list_root = 5;
    root = 0;
    leaf_count = 3;
  };
  nodes =
      inner (fork_node 62 1 2)
      ∷ inner (fork_node 126 3 4)
      ∷ leaf (order_leaf 6 3 40)
      ∷ leaf (order_leaf 5 1 10)
      ∷ leaf (order_leaf 5 2 20)
      ∷ plain true (pos 0)
      ∷ [];
}

abbrev pub test_tree : Tree ℕ
test_tree =
    fork (fork_node 62 1 2)
      (fork (fork_node 126 3 4) (tip (order_leaf 5 1 10)) (tip (order_leaf 5 2 20)))
      (tip (order_leaf 6 3 40))

pub test_slab-IsSlabOf : IsSlabOf test_slab test_tree
test_slab-IsSlabOf = record {
  occupied = omega arith;
  holds = (refl, (1, 2, refl, (refl, (3, 4, refl, refl, refl)), refl));
}

pub test_tree-IsCritBit : IsCritBit test_tree
test_tree-IsCritBit = (
  omega arith,
  ((refl, refl), ((refl, refl), tt)),
  ((refl, refl), tt),
  (omega arith, ((refl, refl), tt), ((refl, refl), tt), tt, tt),
  tt,
)

pub test_slab-IsDecoded : IsDecoded test_keys test_slab
test_slab-IsDecoded = record {
  bump_index = omega arith;
  free_list_length = omega arith;
  free_list_root = omega arith;
  root = omega arith;
  leaf_count = omega arith;
  count = refl;
  nodes = (
    (refl, refl, omega arith, omega arith, refl, (omega arith, (omega arith, tt))),
    (
      (refl, refl, omega arith, omega arith, refl, (omega arith, (omega arith, tt))),
      (
        (refl, refl, omega arith, omega arith, omega arith, omega arith, omega arith),
        (
          (refl, refl, omega arith, omega arith, omega arith, omega arith, omega arith),
          (
            (refl, refl, omega arith, omega arith, omega arith, omega arith, omega arith),
            (omega arith, tt),
          ),
        ),
      ),
    ),
  );
}

abbrev pub flags_of_bids : AccountFlags
flags_of_bids = record {
  initialized = true;
  market = false;
  open_orders = false;
  request_queue = false;
  event_queue = false;
  bids = true;
  asks = false;
}

abbrev pub flags_of_market : AccountFlags
flags_of_market = record {
  initialized = true;
  market = true;
  open_orders = false;
  request_queue = false;
  event_queue = false;
  bids = false;
  asks = false;
}

abbrev pub some_key : ℕ → Bytes
some_key k = k ∷ replicate 31 0

-- The bytes "serum" as a number, and "padding".
abbrev pub serum : ℕ
serum = 470121866611

abbrev pub market_padding : MarketPadding
market_padding = record { start = serum; at_end = 29113321536119152 }

abbrev pub test_market : MarketContainer
test_market = record {
  account_flags = flags_of_market;
  own_address = some_key 1;
  vault_signer_nonce = 2;
  base_mint = some_key 3;
  quote_mint = some_key 4;
  base_vault = some_key 5;
  base_deposits_total = 6000;
  base_fees_accrued = 7;
  quote_vault = some_key 8;
  quote_deposits_total = 9000;
  quote_fees_accrued = 10;
  quote_dust_threshold = 100;
  request_queue = some_key 11;
  event_queue = some_key 12;
  bids = some_key 13;
  asks = some_key 14;
  base_lot_size = 100;
  quote_lot_size = 10;
  fee_rate_bps = 0;
  referrer_rebate_accrued = 0;
}

pub test_market-Fits : MarketContainerFits test_market
test_market-Fits = record {
  own_address = refl;
  vault_signer_nonce = omega arith;
  base_mint = refl;
  quote_mint = refl;
  base_vault = refl;
  base_deposits_total = omega arith;
  base_fees_accrued = omega arith;
  quote_vault = refl;
  quote_deposits_total = omega arith;
  quote_fees_accrued = omega arith;
  quote_dust_threshold = omega arith;
  request_queue = refl;
  event_queue = refl;
  bids = refl;
  asks = refl;
  base_lot_size = omega arith;
  quote_lot_size = omega arith;
  fee_rate_bps = omega arith;
  referrer_rebate_accrued = omega arith;
}

abbrev pub test_state : MarketState ℕ
test_state = record {
  decoded = test_market;
  program_id = 99;
  base_mint_decimals = 2;
  quote_mint_decimals = 1;
}

abbrev pub test_book : OrderBook ℕ
test_book = record { market_state = test_state; is_bids = true; slab = test_slab }
