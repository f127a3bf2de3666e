-- ===== src/Layouts/OpenOrders.antt =====
-- pyserum/_layouts/open_orders.py
use pyserum.Base.{ℕ, List}
use pyserum.Base.Bytes.{Bytes}
use pyserum.Construct.{Codec, Construct, named, int64ul, bytes, padding, ◌⨟◌}
use pyserum.Layouts.AccountFlags.{AccountFlags, account_flags_layout}

-- A parsed OPEN_ORDERS_LAYOUT.
pub record OpenOrdersContainer : Type 0 where
  pub account_flags : AccountFlags
  pub market : Bytes
  pub owner : Bytes
  pub base_token_free : ℕ
  pub base_token_total : ℕ
  pub quote_token_free : ℕ
  pub quote_token_total : ℕ
  pub free_slot_bits : Bytes
  pub is_bid_bits : Bytes
  pub orders : List Bytes
  pub client_ids : List ℕ
  pub referrer_rebate_accrued : ℕ

abbrev pub open_orders_of :
    Unit {0}
      × (AccountFlags
          × (Bytes
              × (Bytes
                  × (ℕ
                      × (ℕ
                          × (ℕ
                              × (ℕ
                                  × (Bytes
                                      × (Bytes × (List Bytes × (List ℕ × (ℕ × Unit {0}))))))))))))
    → OpenOrdersContainer
open_orders_of
      (
        _,
        (
          account_flags,
          (
            market,
            (
              owner,
              (
                base_token_free,
                (
                  base_token_total,
                  (
                    quote_token_free,
                    (
                      quote_token_total,
                      (
                        free_slot_bits,
                        (is_bid_bits, (orders, (client_ids, (referrer_rebate_accrued, _)))),
                      ),
                    ),
                  ),
                ),
              ),
            ),
          ),
        ),
      ) =
    record {
      account_flags = account_flags;
      market = market;
      owner = owner;
      base_token_free = base_token_free;
      base_token_total = base_token_total;
      quote_token_free = quote_token_free;
      quote_token_total = quote_token_total;
      free_slot_bits = free_slot_bits;
      is_bid_bits = is_bid_bits;
      orders = orders;
      client_ids = client_ids;
      referrer_rebate_accrued = referrer_rebate_accrued;
    }

abbrev pub open_orders_members :
    OpenOrdersContainer
    → Unit {0}
      × (AccountFlags
          × (Bytes
              × (Bytes
                  × (ℕ
                      × (ℕ
                          × (ℕ
                              × (ℕ
                                  × (Bytes
                                      × (Bytes × (List Bytes × (List ℕ × (ℕ × Unit {0}))))))))))))
open_orders_members x = (
  tt,
  (
    x.account_flags,
    (
      x.market,
      (
        x.owner,
        (
          x.base_token_free,
          (
            x.base_token_total,
            (
              x.quote_token_free,
              (
                x.quote_token_total,
                (
                  x.free_slot_bits,
                  (x.is_bid_bits, (x.orders, (x.client_ids, (x.referrer_rebate_accrued, tt)))),
                ),
              ),
            ),
          ),
        ),
      ),
    ),
  ),
)

module _ ⦃lib : Construct⦄ where
  -- OPEN_ORDERS_LAYOUT
  unfoldable pub open_orders_layout : Codec OpenOrdersContainer
  open_orders_layout = named open_orders_of open_orders_members (
      padding 5
      ⨟ account_flags_layout
      ⨟ bytes 32
      ⨟ bytes 32
      ⨟ int64ul
      ⨟ int64ul
      ⨟ int64ul
      ⨟ int64ul
      ⨟ bytes 16
      ⨟ bytes 16
      ⨟ lib.array 128 (bytes 16)
      ⨟ lib.array 128 int64ul
      ⨟ int64ul
      ⨟ padding 7)
