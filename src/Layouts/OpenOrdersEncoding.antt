-- ===== src/Layouts/OpenOrdersEncoding.antt =====
-- Encodings that the layouts of pyserum/_layouts/open_orders.py parse, and their sizes.
use pyserum.Base.{◌^◌, ◌<◌, ◌≡◌, ◌++◌, length, ℕ, All, All-map}
use pyserum.Base.Bytes.{Bytes, low_bytes}
use pyserum.Construct.{Construct}
use pyserum.Construct.Parses.{
  Parses, ◌⨟ₚ◌, named-Parses, uint-Parses, bytes-Parses, filler-Parses, repeat-Parses, encode_all,
}
use pyserum.Construct.Sizes.{
  HasSize, ◌⨟ₛ◌, named-HasSize, uint-HasSize, bytes-HasSize, padding-HasSize, array-HasSize,
}
use pyserum.Layouts.AccountFlags.{
  encode_flags, account_flags_layout-Parses, account_flags_layout-HasSize,
}
use pyserum.Layouts.OpenOrders.{
  OpenOrdersContainer, open_orders_of, open_orders_members, open_orders_layout,
}

-- The values that the layout OPEN_ORDERS_LAYOUT can hold.
pub record OpenOrdersContainerFits (x : OpenOrdersContainer) : Type 0 where
  pub market : length x.market ≡ 32
  pub owner : length x.owner ≡ 32
  pub base_token_free : x.base_token_free < 256 ^ 8
  pub base_token_total : x.base_token_total < 256 ^ 8
  pub quote_token_free : x.quote_token_free < 256 ^ 8
  pub quote_token_total : x.quote_token_total < 256 ^ 8
  pub free_slot_bits : length x.free_slot_bits ≡ 16
  pub is_bid_bits : length x.is_bid_bits ≡ 16
  pub orders_count : length x.orders ≡ 128
  pub orders : All (λ b. length b ≡ 16) x.orders
  pub client_ids_count : length x.client_ids ≡ 128
  pub client_ids : All (λ c. c < 256 ^ 8) x.client_ids
  pub referrer_rebate_accrued : x.referrer_rebate_accrued < 256 ^ 8

-- The bytes of the paddings, as numbers.
pub record OpenOrdersPadding : Type 0 where
  pub start : ℕ
  pub at_end : ℕ

unfoldable pub encode_open_orders : OpenOrdersPadding → OpenOrdersContainer → Bytes
encode_open_orders padding x =
    low_bytes 5 padding.start
    ++ (encode_flags x.account_flags
        ++ (x.market
            ++ (x.owner
                ++ (low_bytes 8 x.base_token_free
                    ++ (low_bytes 8 x.base_token_total
                        ++ (low_bytes 8 x.quote_token_free
                            ++ (low_bytes 8 x.quote_token_total
                                ++ (x.free_slot_bits
                                    ++ (x.is_bid_bits
                                        ++ (encode_all (λ b. b) x.orders
                                            ++ (encode_all (low_bytes 8) x.client_ids
                                                ++ (low_bytes 8 x.referrer_rebate_accrued
                                                    ++ low_bytes 7 padding.at_end))))))))))))

pub open_orders_layout-Parses :
    ⦃lib : Construct⦄ (padding : OpenOrdersPadding) (x : OpenOrdersContainer)
    → OpenOrdersContainerFits x
    → Parses open_orders_layout (encode_open_orders padding x) x
unfolding open_orders_layout encode_open_orders
open_orders_layout-Parses padding x h = named-Parses open_orders_of open_orders_members (
    filler-Parses 5 padding.start
    ⨟ₚ account_flags_layout-Parses x.account_flags
    ⨟ₚ bytes-Parses 32 x.market h.market
    ⨟ₚ bytes-Parses 32 x.owner h.owner
    ⨟ₚ uint-Parses 8 x.base_token_free h.base_token_free
    ⨟ₚ uint-Parses 8 x.base_token_total h.base_token_total
    ⨟ₚ uint-Parses 8 x.quote_token_free h.quote_token_free
    ⨟ₚ uint-Parses 8 x.quote_token_total h.quote_token_total
    ⨟ₚ bytes-Parses 16 x.free_slot_bits h.free_slot_bits
    ⨟ₚ bytes-Parses 16 x.is_bid_bits h.is_bid_bits
    ⨟ₚ repeat-Parses 128 _ (λ b. b) x.orders h.orders_count
        (All-map (bytes-Parses 16) x.orders h.orders)
    ⨟ₚ repeat-Parses 128 _ (low_bytes 8) x.client_ids h.client_ids_count
        (All-map (uint-Parses 8) x.client_ids h.client_ids)
    ⨟ₚ uint-Parses 8 x.referrer_rebate_accrued h.referrer_rebate_accrued
    ⨟ₚ filler-Parses 7 padding.at_end)

pub open_orders_layout-HasSize : ⦃lib : Construct⦄ → HasSize open_orders_layout 3228
unfolding open_orders_layout
open_orders_layout-HasSize = named-HasSize open_orders_of open_orders_members (
    padding-HasSize 5
    ⨟ₛ account_flags_layout-HasSize
    ⨟ₛ bytes-HasSize 32
    ⨟ₛ bytes-HasSize 32
    ⨟ₛ uint-HasSize 8
    ⨟ₛ uint-HasSize 8
    ⨟ₛ uint-HasSize 8
    ⨟ₛ uint-HasSize 8
    ⨟ₛ bytes-HasSize 16
    ⨟ₛ bytes-HasSize 16
    ⨟ₛ array-HasSize 128 (bytes-HasSize 16)
    ⨟ₛ array-HasSize 128 (uint-HasSize 8)
    ⨟ₛ uint-HasSize 8
    ⨟ₛ padding-HasSize 7)
