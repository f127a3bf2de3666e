-- ===== src/OrderBook/Orders.antt =====
-- What iterating over an order book yields.
use pyserum.Base.{
  ℕ, ◌/◌, ◌^◌, if◌then◌else◌, ◌≤◌, ◌≡◌, refl, false, Result, ok, ◌>>=◌, map_result, err,
}
use pyserum.Floats.{Floats}
use pyserum.Market.{price_lots_to_number, base_size_lots_to_number}
use pyserum.Slab.{SlabLeafNode}
use pyserum.Slab.Tree.{Tree, leaves, size, IsSlabOf}
use pyserum.Slab.Items.{items-leaves}
use pyserum.OrderBook.Defs.{OrderBook, Order, buy, sell, order_of, price_of, orders}

finish : {A : Type 0} (r : Result A) → (r >>= λ x. ok (tt {0}) >>= λ _. ok x) ≡ r
finish (ok x) = refl
finish (err e) = refl

module _ (floats : Floats) {Key : Type 0} where
  open floats use {Float}

  pub orders-leaves :
      (book : OrderBook Key) (t : Tree Key) (fuel : ℕ)
      → IsSlabOf book.slab t
      → size t ≤ fuel
      → orders floats fuel book ≡ map_result (order_of floats book) (leaves t)
  unfolding orders
  orders-leaves book t fuel h enough =
      rw (items-leaves book.slab t fuel false h enough)
        (finish (map_result (order_of floats book) (leaves t)))

  -- The order that a leaf stands for, field by field: its price in lots is in the upper 64 bits of its
  -- key, which is also the order's id.
  abbrev pub listed_order : OrderBook Key → SlabLeafNode Key → Result (Order Key Float)
  listed_order book leaf = do
    price ← price_lots_to_number floats book.market_state (leaf.key / 2 ^ 64)
    size ← base_size_lots_to_number floats book.market_state leaf.quantity
    ok (record {
      order_id = leaf.key;
      client_id = leaf.client_order_id;
      open_order_address = leaf.owner;
      open_order_slot = leaf.owner_slot;
      fee_tier = leaf.fee_tier;
      info = record {
        price = price;
        size = size;
        price_lots = leaf.key / 2 ^ 64;
        size_lots = leaf.quantity;
      };
      side = if book.is_bids then buy else sell;
    })

  -- For a book whose slab is occupied and holds a tree, with a round for each node of the tree,
  -- `orders`, run to its end, gives the orders that the tree's leaves stand for, field by field, from
  -- left to right, for bids as well as for asks, and it raises only what one of the conversions of
  -- their prices and sizes raises.
  pub orders-listed_order :
      (book : OrderBook Key) (t : Tree Key) (fuel : ℕ)
      → IsSlabOf book.slab t
      → size t ≤ fuel
      → orders floats fuel book ≡ map_result (listed_order book) (leaves t)
  unfolding order_of price_of
  orders-listed_order book t fuel h enough = orders-leaves book t fuel h enough
