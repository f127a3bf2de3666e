-- ===== src/OrderBook/Defs.antt =====
-- The class OrderBook of pyserum/market/orderbook.py, and the OrderInfo and Order of
-- pyserum/market/types.py. Iteration over the slab takes the fuel of `Slab.items`.
use pyserum.Base.{
  ℕ, ◌+◌, Bool, false, not, xor, ◌||◌, Option, none, some, List, [], ◌∷◌, reverse, length, take,
  drop, Result, ok, err, invalid_order_book, ◌>>=◌, ◌>>◌, map_result, ◌==◌, if◌then◌else◌,
}
use pyserum.Base.Bytes.{Bytes}
use pyserum.Base.Bits.{shr}
use pyserum.Construct.{Construct}
use pyserum.Floats.{Floats}
use pyserum.Solana.{PublicKeys}
use pyserum.Layouts.AccountFlags
use pyserum.Layouts.AccountFlags.{AccountFlags}
use pyserum.Market.{MarketState, price_lots_to_number, base_size_lots_to_number}
use pyserum.Slab.{Slab, SlabLeafNode, items}
use pyserum.Slab.Decode

-- The members of Side in pyserum/enums.py.
pub data Side : Type 0 where
  buy sell : Side

pub record OrderBook (Key : Type 0) : Type 0 where
  pub market_state : MarketState Key
  pub is_bids : Bool
  pub slab : Slab Key

pub record OrderInfo (Float : Type 0) : Type 0 where
  pub price : Float
  pub size : Float
  pub price_lots : ℕ
  pub size_lots : ℕ

pub record Order (Key Float : Type 0) : Type 0 where
  pub order_id : ℕ
  pub client_id : ℕ
  pub open_order_address : Key
  pub open_order_slot : ℕ
  pub fee_tier : ℕ
  pub info : OrderInfo Float
  pub side : Side

-- A level of the book: its price and its quantity, in lots.
abbrev pub Level : Type 0
Level = ℕ × ℕ

module _ {Key : Type 0} where
  -- OrderBook.__init__
  unfoldable pub make_order_book :
      MarketState Key → AccountFlags → Slab Key → Result (OrderBook Key)
  make_order_book market_state account_flags slab =
      if not account_flags.initialized || not (xor account_flags.bids account_flags.asks)
      then err invalid_order_book
      else ok (record { market_state = market_state; is_bids = account_flags.bids; slab = slab })

  -- __get_price_from_slab
  unfoldable pub price_of : SlabLeafNode Key → ℕ
  price_of node = shr node.key 64

  -- The body of the loop in `get_l2`, or `none` for its `break`. The last level of the source's list is
  -- the first one here.
  unfoldable pub add_order : ℕ → SlabLeafNode Key → List Level → Option (List Level)
  unfolding price_of
  add_order depth node [] = if 0 == depth then none else some ((price_of node, node.quantity) ∷ [])
  add_order depth node ((last, quantity) ∷ levels) =
      if last == price_of node
      then some ((last, quantity + node.quantity) ∷ levels)
      else if length ((last, quantity) ∷ levels) == depth
      then none
      else some ((price_of node, node.quantity) ∷ (last, quantity) ∷ levels)

  unfoldable pub levels_from :
      ℕ → List (SlabLeafNode Key) → Result (Unit {0}) → List Level → Result (List Level)
  unfolding add_order
  levels_from depth [] ended levels = do ended; ok levels
  levels_from depth (node ∷ nodes) ended levels = elim (add_order depth node levels) [
    | none ↦ ok levels
    | some levels' ↦ levels_from depth nodes ended levels'
  ]

module _ (floats : Floats) {Key : Type 0} where
  open floats use {Float}

  unfoldable pub order_info : MarketState Key → Level → Result (OrderInfo Float)
  order_info market_state (price_lots, size_lots) = do
    price ← price_lots_to_number floats market_state price_lots
    size ← base_size_lots_to_number floats market_state size_lots
    ok (record { price = price; size = size; price_lots = price_lots; size_lots = size_lots })

  unfoldable pub get_l2 : ℕ → OrderBook Key → ℕ → Result (List (OrderInfo Float))
  unfolding levels_from order_info
  get_l2 fuel book depth = do
    let nodes = items fuel book.slab book.is_bids
    levels ← levels_from depth nodes.yielded nodes.ended []
    map_result (order_info book.market_state) (reverse levels)

  -- What the loop in `orders` yields for a node.
  unfoldable pub order_of : OrderBook Key → SlabLeafNode Key → Result (Order Key Float)
  unfolding price_of
  order_of book node = do
    let price = price_of node
    number ← price_lots_to_number floats book.market_state price
    size ← base_size_lots_to_number floats book.market_state node.quantity
    ok (record {
      order_id = node.key;
      client_id = node.client_order_id;
      open_order_address = node.owner;
      open_order_slot = node.owner_slot;
      fee_tier = node.fee_tier;
      info = record { price = number; size = size; price_lots = price; size_lots = node.quantity };
      side = if book.is_bids then buy else sell;
    })

  -- `orders`, run to its end.
  unfoldable pub orders : ℕ → OrderBook Key → Result (List (Order Key Float))
  unfolding order_of
  orders fuel book = do
    let nodes = items fuel book.slab false
    yielded ← map_result (order_of book) nodes.yielded
    nodes.ended
    ok yielded

module _ (keys : PublicKeys) where
  open keys use {PublicKey}

  -- OrderBook.from_bytes
  unfoldable pub from_bytes :
      ⦃lib : Construct⦄ → MarketState PublicKey → Bytes → Result (OrderBook PublicKey)
  unfolding make_order_book
  from_bytes market_state buffer = do
    account_flags ← AccountFlags.from_bytes (take 8 (drop 5 buffer))
    slab ← Decode.from_bytes keys (drop 13 buffer)
    make_order_book market_state account_flags slab
