-- ===== src/OrderBook/Decode.antt =====
-- Which accounts are accepted as an order book.
use pyserum.Base.{◌++◌}
use pyserum.Base.Bytes.{Bytes}
use pyserum.Construct.{Construct}
use pyserum.Layouts.AccountFlags.{AccountFlags, encode_flags}
use pyserum.Layouts.AccountFlags
use pyserum.Slab.{Slab}

-- The bytes of an order book's account: the tag, the flags, the slab and the tail.
unfoldable pub encode_order_book : Bytes → AccountFlags → Bytes → Bytes → Bytes
encode_order_book tag flags slab rest = tag ++ (encode_flags flags ++ (slab ++ rest))
