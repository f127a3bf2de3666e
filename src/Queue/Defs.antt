-- ===== src/Queue/Defs.antt =====
-- The functions of pyserum/market/_internal/queue.py, and the Request and Event of
-- pyserum/market/types.py.
use pyserum.Base.{
  ℕ, zero, suc, ℤ, pos, negsuc, ◌+◌, ◌-◌, ◌*◌, ◌/◌, ◌%◌, not, ◌||◌, Option, none, some, List, [],
  ◌∷◌, min, length, take, drop, Result, ok, err, zero_division, invalid_request_queue,
  invalid_event_queue, ◌>>=◌, map_result, ◌==◌, if◌then◌else◌,
}
use pyserum.Base.Bytes.{Bytes}
use pyserum.Base.Bytes
use pyserum.Construct.{Codec, Construct}
use pyserum.Solana.{PublicKeys}
use pyserum.Layouts.Queue.{
  ReuqestFlags, EventFlags, QueueHeaderContainer, queue_header_layout, RequestContainer,
  request_layout, EventContainer, event_layout,
}

pub record Request (Key : Type 0) : Type 0 where
  pub request_flags : ReuqestFlags
  pub open_order_slot : ℕ
  pub fee_tier : ℕ
  pub max_base_size_or_cancel_id : ℕ
  pub native_quote_quantity_locked : ℕ
  pub order_id : ℕ
  pub open_orders : Key
  pub client_order_id : ℕ

pub record Event (Key : Type 0) : Type 0 where
  pub event_flags : EventFlags
  pub open_order_slot : ℕ
  pub fee_tier : ℕ
  pub native_quantity_released : ℕ
  pub native_quantity_paid : ℕ
  pub native_fee_or_rebate : ℕ
  pub order_id : ℕ
  pub public_key : Key
  pub client_order_id : ℕ

-- range(n)
abbrev pub range_from : ℕ → ℕ → List ℕ
range_from i zero = []
range_from i (suc n) = i ∷ range_from (suc i) n

abbrev pub range : ℕ → List ℕ
range n = range_from 0 n

-- buffer[offset : offset + size]
abbrev pub slice : ℕ → ℕ → Bytes → Bytes
slice offset size buffer = take size (drop offset buffer)

-- a % b, which Python refuses at 0.
abbrev pub remainder : ℕ → ℕ → Result ℕ
remainder a b = if b == 0 then err zero_division else ok (a % b)

-- `if history:`, which holds of no count of 0, and how many items are then asked for: none where the
-- count is negative, as the range is empty.
abbrev pub wants_history : Option ℤ → Option ℕ
wants_history none = none
wants_history (some (pos zero)) = none
wants_history (some (pos (suc n))) = some (suc n)
wants_history (some (negsuc n)) = some zero

-- __from_bytes, for items of either kind: their layout, and how a parsed one becomes an item.
module _ ⦃lib : Construct⦄ {C A : Type 0} (layout : Codec C) (item_of : C → A) where
  -- __parse_queue_item
  unfoldable pub parse_queue_item : Bytes → Result A
  parse_queue_item buffer = do (parsed_item, rest) ← layout.parse buffer; ok (item_of parsed_item)

  unfoldable pub node_at : Bytes → ℕ → ℕ → ℕ → ℕ → Result A
  unfolding parse_queue_item
  node_at buffer header_size layout_size alloc_len position = do
    node_index ← remainder position alloc_len
    parse_queue_item (slice (header_size + node_index * layout_size) layout_size buffer)

  unfoldable pub from_bytes : Bytes → Option ℤ → Result (QueueHeaderContainer × List A)
  unfolding node_at
  from_bytes buffer history = do
    (header, rest) ← queue_header_layout.parse buffer
    layout_size ← layout.sizeof
    header_size ← queue_header_layout.sizeof
    let alloc_len = (length buffer - header_size) / layout_size
    let at = node_at buffer header_size layout_size alloc_len
    nodes ← elim (wants_history history) [
      | some n ↦
          map_result (λ i. at (header.head + header.count + alloc_len - 1 - i))
            (range (min n alloc_len))
      | none ↦ map_result (λ i. at (header.head + i)) (range header.count)
    ]
    ok (header, nodes)

module _ (keys : PublicKeys) where
  open keys use {PublicKey, public_key}

  unfoldable pub event_of : EventContainer → Event PublicKey
  event_of parsed_item = record {
    event_flags = parsed_item.event_flags;
    open_order_slot = parsed_item.open_order_slot;
    fee_tier = parsed_item.fee_tier;
    native_quantity_released = parsed_item.native_quantity_released;
    native_quantity_paid = parsed_item.native_quantity_paid;
    native_fee_or_rebate = parsed_item.native_fee_or_rebate;
    order_id = Bytes.from_bytes parsed_item.order_id;
    public_key = public_key parsed_item.public_key;
    client_order_id = parsed_item.client_order_id;
  }

  unfoldable pub request_of : RequestContainer → Request PublicKey
  request_of parsed_item = record {
    request_flags = parsed_item.request_flags;
    open_order_slot = parsed_item.open_order_slot;
    fee_tier = parsed_item.fee_tier;
    max_base_size_or_cancel_id = parsed_item.max_base_size_or_cancel_id;
    native_quote_quantity_locked = parsed_item.native_quote_quantity_locked;
    order_id = Bytes.from_bytes parsed_item.order_id;
    open_orders = public_key parsed_item.open_orders;
    client_order_id = parsed_item.client_order_id;
  }

  unfoldable pub decode_request_queue :
      ⦃lib : Construct⦄ → Bytes → Option ℤ → Result (List (Request PublicKey))
  unfolding from_bytes request_of
  decode_request_queue buffer history = do
    (header, nodes) ← from_bytes request_layout request_of buffer history
    if not header.account_flags.initialized || not header.account_flags.request_queue
        then err invalid_request_queue
        else ok nodes

  unfoldable pub decode_event_queue :
      ⦃lib : Construct⦄ → Bytes → Option ℤ → Result (List (Event PublicKey))
  unfolding from_bytes event_of
  decode_event_queue buffer history = do
    (header, nodes) ← from_bytes event_layout event_of buffer history
    if not header.account_flags.initialized || not header.account_flags.event_queue
        then err invalid_event_queue
        else ok nodes
