-- ===== src/OpenOrders.antt =====
-- The constructor `from_bytes` of pyserum/open_orders_account.py, which the account's synchronous and
-- asynchronous classes share, and that it returns what an account encodes.
pub mod Query
pub mod Find
pub mod Answers
use pyserum.Base.{
  ℕ, ◌≡◌, not, ◌||◌, ◌&&◌, List, ◌++◌, map, Result, ok, err, invalid_open_orders, ◌>>=◌,
  if◌then◌else◌, unless_both,
}
use pyserum.Base.Bytes
use pyserum.Base.Bytes.{Bytes}
use pyserum.Construct.{Construct}
use pyserum.Solana.{PublicKeys}
use pyserum.Layouts.OpenOrders.{OpenOrdersContainer, open_orders_layout}
use pyserum.Layouts.OpenOrdersEncoding.{
  OpenOrdersPadding, OpenOrdersContainerFits, encode_open_orders, open_orders_layout-Parses,
}

-- _OpenOrdersAccountCore
pub record OpenOrdersAccount (Key : Type 0) : Type 0 where
  pub address : Key
  pub market : Key
  pub owner : Key
  pub base_token_free : ℕ
  pub base_token_total : ℕ
  pub quote_token_free : ℕ
  pub quote_token_total : ℕ
  pub free_slot_bits : ℕ
  pub is_bid_bits : ℕ
  pub orders : List ℕ
  pub client_ids : List ℕ

module _ (keys : PublicKeys) where
  open keys use {PublicKey, public_key}

  -- The call of the constructor in `from_bytes`.
  unfoldable pub account_of : PublicKey → OpenOrdersContainer → OpenOrdersAccount PublicKey
  account_of address decoded = record {
    address = address;
    market = public_key decoded.market;
    owner = public_key decoded.owner;
    base_token_free = decoded.base_token_free;
    base_token_total = decoded.base_token_total;
    quote_token_free = decoded.quote_token_free;
    quote_token_total = decoded.quote_token_total;
    free_slot_bits = Bytes.from_bytes decoded.free_slot_bits;
    is_bid_bits = Bytes.from_bytes decoded.is_bid_bits;
    orders = map Bytes.from_bytes decoded.orders;
    client_ids = decoded.client_ids;
  }

  -- _OpenOrdersAccountCore.from_bytes
  unfoldable pub from_bytes :
      ⦃lib : Construct⦄ → PublicKey → Bytes → Result (OpenOrdersAccount PublicKey)
  unfolding account_of
  from_bytes address buffer = do
    (decoded, rest) ← open_orders_layout.parse buffer
    if not decoded.account_flags.open_orders || not decoded.account_flags.initialized
        then err invalid_open_orders
        else ok (account_of address decoded)

  -- The account at an address that the fields stand for.
  abbrev pub account_in : PublicKey → OpenOrdersContainer → OpenOrdersAccount PublicKey
  account_in address x = record {
    address = address;
    market = public_key x.market;
    owner = public_key x.owner;
    base_token_free = x.base_token_free;
    base_token_total = x.base_token_total;
    quote_token_free = x.quote_token_free;
    quote_token_total = x.quote_token_total;
    free_slot_bits = Bytes.from_bytes x.free_slot_bits;
    is_bid_bits = Bytes.from_bytes x.is_bid_bits;
    orders = map Bytes.from_bytes x.orders;
    client_ids = x.client_ids;
  }

  -- An account that encodes the fields of an open orders account, with any padding and followed by any
  -- bytes, decodes to the account at the given address with the fields' keys and numbers, each in its
  -- place, if both the flags "open_orders" and "initialized" are set; else decoding raises.
  pub from_bytes-encode_open_orders :
      ⦃lib : Construct⦄ (address : PublicKey) (padding : OpenOrdersPadding)
      (x : OpenOrdersContainer) (rest : Bytes)
      → OpenOrdersContainerFits x
      → from_bytes address (encode_open_orders padding x ++ rest) ≡ (
          if x.account_flags.open_orders && x.account_flags.initialized
          then ok (account_in address x)
          else err invalid_open_orders)
  unfolding from_bytes account_of
  from_bytes-encode_open_orders address padding x rest h =
      rw ((open_orders_layout-Parses padding x h).run rest)
        (unless_both x.account_flags.open_orders x.account_flags.initialized _ _)
