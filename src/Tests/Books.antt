-- ===== src/Tests/Books.antt =====
-- The theorems on slabs, order books and markets at concrete accounts.
use pyserum.Base.{
  ℕ, zero, suc, ◌≢◌, out_of_fuel, ◌≡◌, true, false, List, [], ◌∷◌, ◌++◌, reverse, take, map, ok,
  err, map_result, if◌then◌else◌, invalid_market, arith,
}
use pyserum.Layouts.MarketEncoding.{encode_market}
use pyserum.Market
use pyserum.Market.{make_parsed_market}
use pyserum.Market.Decode.{is_market, from_bytes-encode_market}
use pyserum.OrderBook.{order_info, orders, get_l2, Level, price_of, from_bytes}
use pyserum.OrderBook.Levels.{get_l2-group, level_of}
use pyserum.OrderBook.Group.{IsStrict, total_at}
use pyserum.OrderBook.Orders.{listed_order, orders-listed_order}
use pyserum.OrderBook.Sides.{get_l2_levels, Better}
use pyserum.Slab.{items, get}
use pyserum.Slab.Decode
use pyserum.Slab.Get.{get-find_key, find_key}
use pyserum.Slab.Items.{items-leaves}
use pyserum.Slab.Order.{leaves-IsSorted, items-get_agree, IsSorted}
use pyserum.Slab.Tree.{leaves}
use pyserum.Slab.Termination.{get-AllFall}
use pyserum.Tests.Concrete.{concrete, test_floats}
use pyserum.Tests.Data.{
  order_key, order_leaf, test_slab, test_tree, test_slab-IsSlabOf, test_tree-IsCritBit,
  market_padding, test_market, test_market-Fits, test_state, test_book,
}

items-leaves_example : items 5 test_slab true ≡ record {
  yielded = order_leaf 6 3 40 ∷ order_leaf 5 2 20 ∷ order_leaf 5 1 10 ∷ [];
  ended = ok tt;
}
items-leaves_example = items-leaves test_slab test_tree 5 true test_slab-IsSlabOf (omega arith)

get-find_key_example :
    get 3 test_slab (order_key 5 2) ≡ ok (find_key (order_key 5 2) (leaves test_tree))
get-find_key_example =
    get-find_key test_slab test_tree 3 (order_key 5 2) test_slab-IsSlabOf test_tree-IsCritBit
      (omega arith)

leaves-IsSorted_example : IsSorted (leaves test_tree)
leaves-IsSorted_example = leaves-IsSorted test_tree test_tree-IsCritBit

items-get_agree_example :
    ((items 5 test_slab false).ended ≡ ok tt)
    × IsSorted (items 5 test_slab false).yielded
    × (items 5 test_slab true
        ≡ record { yielded = reverse (items 5 test_slab false).yielded; ended = ok tt })
    × (get 5 test_slab (order_key 6 3)
        ≡ ok (find_key (order_key 6 3) (items 5 test_slab false).yielded))
items-get_agree_example =
    items-get_agree test_slab test_tree 5 (order_key 6 3) test_slab-IsSlabOf test_tree-IsCritBit
      (omega arith)

get_l2-group_example :
    get_l2 test_floats 5 test_book 2
    ≡ map_result (order_info test_floats test_state) ((6, 40) ∷ (5, 30) ∷ [])
unfolding price_of order_info
get_l2-group_example =
    get_l2-group test_floats test_book test_tree 5 2 test_slab-IsSlabOf (omega arith)

get_l2_levels_example :
    (levels : List Level) × IsStrict (Better true) levels
    × ((price : _)
        → total_at price levels ≡ total_at price (map level_of (items 5 test_slab false).yielded))
    × ((depth : _)
        → get_l2 test_floats 5 test_book depth
          ≡ map_result (order_info test_floats test_state) (take depth levels))
get_l2_levels_example =
    get_l2_levels test_floats test_book test_tree 5 test_slab-IsSlabOf test_tree-IsCritBit
      (omega arith)

orders-listed_order_example :
    orders test_floats 5 test_book
    ≡ map_result
        (listed_order test_floats test_book)
        (order_leaf 5 1 10 ∷ order_leaf 5 2 20 ∷ order_leaf 6 3 40 ∷ [])
orders-listed_order_example =
    orders-listed_order test_floats test_book test_tree 5 test_slab-IsSlabOf (omega arith)

from_bytes-encode_market_example :
    (make_parsed_market ⦃lib = concrete⦄ (encode_market market_padding test_market ++ (7 ∷ []))
      ≡ (if is_market test_market then ok test_market else err invalid_market))
    × (Market.from_bytes ⦃lib = concrete⦄ 99 2 1
          (encode_market market_padding test_market ++ (7 ∷ []))
        ≡ (if is_market test_market then ok test_state else err invalid_market))
from_bytes-encode_market_example =
    from_bytes-encode_market ⦃lib = concrete⦄ market_padding test_market 99 2 1 (7 ∷ [])
      test_market-Fits

-- The inner nodes of the slab stand at 0 and 1.
abbrev test_rank : ℕ → ℕ
test_rank zero = 2
test_rank (suc zero) = 1
test_rank (suc (suc n)) = 0

get-AllFall_example :
    (get 3 test_slab (order_key 5 2) ≢ err out_of_fuel)
    × (get 7 test_slab (order_key 5 2) ≡ get 3 test_slab (order_key 5 2))
get-AllFall_example =
    get-AllFall test_rank test_slab (order_key 5 2) 3 4
      (
        (omega arith, (omega arith, tt)),
        ((omega arith, (omega arith, tt)), (tt, (tt, (tt, (tt, tt))))),
      )
      (omega arith)
