-- ===== src/Tests/Accounts.antt =====
-- The theorems on queues and open orders accounts at concrete accounts.
use pyserum.Base.{
  ℕ, zero, suc, pos, negsuc, ◌+◌, ◌≤◌, ◌<◌, ◌^◌, ◌≡◌, refl, true, false, List, [], ◌∷◌, ◌++◌, map,
  replicate, ok, none, some, length, arith, All,
}
use pyserum.Base.Bytes.{Bytes}
use pyserum.Layouts.AccountFlags.{AccountFlags}
use pyserum.Layouts.Queue.{QueueHeaderContainer, RequestContainer, EventContainer}
use pyserum.Layouts.QueueEncoding.{
  QueueHeaderPadding, RequestSlot, RequestSlotFits, EventSlot, EventSlotFits, encode_event,
  encode_request,
}
use pyserum.Layouts.OpenOrders.{OpenOrdersContainer}
use pyserum.Layouts.OpenOrdersEncoding.{
  OpenOrdersPadding, OpenOrdersContainerFits, encode_open_orders,
}
use pyserum.OpenOrders.{account_in, from_bytes, from_bytes-encode_open_orders}
use pyserum.Queue.{decode_event_queue, decode_request_queue}
use pyserum.Queue.Decode.{encode_queue}
use pyserum.Queue.Kinds.{
  event_in, request_in, RingFits, decode_event_queue-encode, decode_request_queue-encode,
}
use pyserum.Tests.Concrete.{concrete, test_keys}
use pyserum.Tests.Data.{serum, some_key}

abbrev flags_of : AccountFlags
flags_of = record {
  initialized = true;
  market = false;
  open_orders = true;
  request_queue = true;
  event_queue = true;
  bids = false;
  asks = false;
}

-- The two items of a ring of three slots start at its last slot.
abbrev pub test_header : QueueHeaderContainer
test_header = record { account_flags = flags_of; head = 2; count = 2; next_seq_num = 5 }

abbrev event_values : ℕ → EventContainer
event_values n = record {
  event_flags = record { fill = true; out = false; bid = true; maker = false };
  open_order_slot = 1;
  fee_tier = 2;
  native_quantity_released = n;
  native_quantity_paid = 20;
  native_fee_or_rebate = 3;
  order_id = replicate 16 n;
  public_key = some_key n;
  client_order_id = n;
}

abbrev request_values : ℕ → RequestContainer
request_values n = record {
  request_flags = record {
    new_order = true;
    cancel_order = false;
    bid = true;
    post_only = false;
    ioc = false;
  };
  open_order_slot = 1;
  fee_tier = 2;
  max_base_size_or_cancel_id = n;
  native_quote_quantity_locked = 20;
  order_id = replicate 16 n;
  open_orders = some_key n;
  client_order_id = n;
}

abbrev event_slot : ℕ → EventSlot
event_slot n = record {
  container = event_values n;
  spare = record { fifth = true; sixth = false; seventh = true; eighth = false };
  padding = 70 + n;
}

abbrev request_slot : ℕ → RequestSlot
request_slot n = record { container = request_values n; padding = 80 + n }

abbrev pub test_padding : QueueHeaderPadding
test_padding = record { start = serum; behind_head = 3; behind_count = 4; at_end = 5 }

abbrev pub event_slots : List EventSlot
event_slots = event_slot 1 ∷ event_slot 2 ∷ event_slot 3 ∷ []

abbrev request_slots : List RequestSlot
request_slots = request_slot 1 ∷ request_slot 2 ∷ request_slot 3 ∷ []

event_slot-Fits : (n : ℕ) → n ≤ 9 → EventSlotFits (event_slot n)
event_slot-Fits n h = record {
  open_order_slot = omega arith;
  fee_tier = omega arith;
  native_quantity_released = omega arith;
  native_quantity_paid = omega arith;
  native_fee_or_rebate = omega arith;
  order_id = refl;
  public_key = refl;
  client_order_id = omega arith;
}

request_slot-Fits : (n : ℕ) → n ≤ 9 → RequestSlotFits (request_slot n)
request_slot-Fits n h = record {
  open_order_slot = omega arith;
  fee_tier = omega arith;
  max_base_size_or_cancel_id = omega arith;
  native_quote_quantity_locked = omega arith;
  order_id = refl;
  open_orders = refl;
  client_order_id = omega arith;
}

pub event_ring : RingFits EventSlotFits 88 test_header event_slots (7 ∷ [])
event_ring = record {
  header_fits = record { head = omega arith; count = omega arith; next_seq_num = omega arith };
  slots_fit = (
    event_slot-Fits 1 (omega arith),
    (event_slot-Fits 2 (omega arith), (event_slot-Fits 3 (omega arith), tt)),
  );
  tail_short = omega arith;
  head_lt = omega arith;
  count_le = omega arith;
}

request_ring : RingFits RequestSlotFits 80 test_header request_slots (7 ∷ [])
request_ring = record {
  header_fits = record { head = omega arith; count = omega arith; next_seq_num = omega arith };
  slots_fit = (
    request_slot-Fits 1 (omega arith),
    (request_slot-Fits 2 (omega arith), (request_slot-Fits 3 (omega arith), tt)),
  );
  tail_short = omega arith;
  head_lt = omega arith;
  count_le = omega arith;
}

decode_event_queue-encode_example :
    (decode_event_queue test_keys ⦃lib = concrete⦄
        (encode_queue encode_event test_padding test_header event_slots (7 ∷ []))
        none
      ≡ ok (map (event_in test_keys) (event_slot 3 ∷ event_slot 1 ∷ [])))
    × (decode_event_queue test_keys ⦃lib = concrete⦄
          (encode_queue encode_event test_padding test_header event_slots (7 ∷ []))
          (some (pos 2))
        ≡ ok (map (event_in test_keys) (event_slot 1 ∷ event_slot 3 ∷ [])))
    × (decode_event_queue test_keys ⦃lib = concrete⦄
          (encode_queue encode_event test_padding test_header event_slots (7 ∷ []))
          (some (negsuc 1))
        ≡ ok [])
decode_event_queue-encode_example =
    decode_event_queue-encode test_keys ⦃lib = concrete⦄ test_padding test_header event_slots
      (7 ∷ []) 1 event_ring

decode_request_queue-encode_example :
    (decode_request_queue test_keys ⦃lib = concrete⦄
        (encode_queue encode_request test_padding test_header request_slots (7 ∷ []))
        none
      ≡ ok (map (request_in test_keys) (request_slot 3 ∷ request_slot 1 ∷ [])))
    × (decode_request_queue test_keys ⦃lib = concrete⦄
          (encode_queue encode_request test_padding test_header request_slots (7 ∷ []))
          (some (pos 2))
        ≡ ok (map (request_in test_keys) (request_slot 1 ∷ request_slot 3 ∷ [])))
    × (decode_request_queue test_keys ⦃lib = concrete⦄
          (encode_queue encode_request test_padding test_header request_slots (7 ∷ []))
          (some (negsuc 1))
        ≡ ok [])
decode_request_queue-encode_example =
    decode_request_queue-encode test_keys ⦃lib = concrete⦄ test_padding test_header request_slots
      (7 ∷ []) 1 request_ring

-- The paddings that the accounts of the program have: "serum" and "padding".
abbrev pub open_orders_padding : OpenOrdersPadding
open_orders_padding = record { start = serum; at_end = 29113321536119152 }

abbrev pub test_open_orders : OpenOrdersContainer
test_open_orders = record {
  account_flags = flags_of;
  market = some_key 1;
  owner = some_key 2;
  base_token_free = 10;
  base_token_total = 30;
  quote_token_free = 5;
  quote_token_total = 50;
  free_slot_bits = replicate 16 255;
  is_bid_bits = replicate 16 0;
  orders = replicate 128 (replicate 16 0);
  client_ids = replicate 128 0;
  referrer_rebate_accrued = 0;
}

All-replicate : {A : Type 0} (P : A → Type 0) (a : A) (n : ℕ) → P a → All P (replicate n a)
All-replicate P a zero h = tt
All-replicate P a (suc n) h = (h, All-replicate P a n h)

pub test_open_orders-Fits : OpenOrdersContainerFits test_open_orders
test_open_orders-Fits = record {
  market = refl;
  owner = refl;
  base_token_free = omega arith;
  base_token_total = omega arith;
  quote_token_free = omega arith;
  quote_token_total = omega arith;
  free_slot_bits = refl;
  is_bid_bits = refl;
  orders_count = refl;
  orders = All-replicate {A = Bytes} (λ b. length b ≡ 16) (replicate 16 0) 128 refl;
  client_ids_count = refl;
  client_ids = All-replicate (λ c. c < 256 ^ 8) 0 128 (omega arith);
  referrer_rebate_accrued = omega arith;
}

from_bytes-encode_open_orders_example :
    from_bytes test_keys ⦃lib = concrete⦄ 7
      (encode_open_orders open_orders_padding test_open_orders ++ [])
    ≡ ok (account_in test_keys 7 test_open_orders)
from_bytes-encode_open_orders_example =
    from_bytes-encode_open_orders test_keys ⦃lib = concrete⦄ 7 open_orders_padding test_open_orders
      [] test_open_orders-Fits
