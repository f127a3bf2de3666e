-- ===== src/Layouts/Queue.antt =====
-- pyserum/_layouts/queue.py
use pyserum.Base.{ℕ, Bool}
use pyserum.Base.Bytes.{Bytes}
use pyserum.Construct.{Codec, Construct, named, int8ul, int32ul, int64ul, bytes, padding, flag, ◌⨟◌}
use pyserum.Layouts.AccountFlags.{AccountFlags, account_flags_layout}

-- The named fields of REQUEST_FLAGS_LAYOUT, and the class of pyserum/market/types.py.
pub record ReuqestFlags : Type 0 where
  pub new_order : Bool
  pub cancel_order : Bool
  pub bid : Bool
  pub post_only : Bool
  pub ioc : Bool

abbrev pub request_flags_of : Bool × (Bool × (Bool × (Bool × (Bool × Unit {0})))) → ReuqestFlags
request_flags_of (new_order, (cancel_order, (bid, (post_only, (ioc, _))))) = record {
  new_order = new_order;
  cancel_order = cancel_order;
  bid = bid;
  post_only = post_only;
  ioc = ioc;
}

abbrev pub request_flags_members :
    ReuqestFlags → Bool × (Bool × (Bool × (Bool × (Bool × Unit {0}))))
request_flags_members x = (x.new_order, (x.cancel_order, (x.bid, (x.post_only, (x.ioc, tt)))))

-- The named fields of EVENT_FLAGS_LAYOUT, and the class of pyserum/market/types.py.
pub record EventFlags : Type 0 where
  pub fill : Bool
  pub out : Bool
  pub bid : Bool
  pub maker : Bool

abbrev pub event_flags_of : Bool × (Bool × (Bool × (Bool × Unit {0}))) → EventFlags
event_flags_of (fill, (out, (bid, (maker, _)))) = record {
  fill = fill;
  out = out;
  bid = bid;
  maker = maker;
}

abbrev pub event_flags_members : EventFlags → Bool × (Bool × (Bool × (Bool × Unit {0})))
event_flags_members x = (x.fill, (x.out, (x.bid, (x.maker, tt))))

pub record QueueHeaderContainer : Type 0 where
  pub account_flags : AccountFlags
  pub head : ℕ
  pub count : ℕ
  pub next_seq_num : ℕ

abbrev pub queue_header_of :
    Unit {0} × (AccountFlags × (ℕ × (Unit {0} × (ℕ × (Unit {0} × (ℕ × Unit {0}))))))
    → QueueHeaderContainer
queue_header_of (_, (account_flags, (head, (_, (count, (_, (next_seq_num, _))))))) = record {
  account_flags = account_flags;
  head = head;
  count = count;
  next_seq_num = next_seq_num;
}

abbrev pub queue_header_members :
    QueueHeaderContainer
    → Unit {0} × (AccountFlags × (ℕ × (Unit {0} × (ℕ × (Unit {0} × (ℕ × Unit {0}))))))
queue_header_members x =
    (tt, (x.account_flags, (x.head, (tt, (x.count, (tt, (x.next_seq_num, tt)))))))

pub record RequestContainer : Type 0 where
  pub request_flags : ReuqestFlags
  pub open_order_slot : ℕ
  pub fee_tier : ℕ
  pub max_base_size_or_cancel_id : ℕ
  pub native_quote_quantity_locked : ℕ
  pub order_id : Bytes
  pub open_orders : Bytes
  pub client_order_id : ℕ

abbrev pub request_of :
    ReuqestFlags × (ℕ × (ℕ × (Unit {0} × (ℕ × (ℕ × (Bytes × (Bytes × ℕ))))))) → RequestContainer
request_of
      (
        request_flags,
        (
          open_order_slot,
          (
            fee_tier,
            (
              _,
              (
                max_base_size_or_cancel_id,
                (native_quote_quantity_locked, (order_id, (open_orders, client_order_id))),
              ),
            ),
          ),
        ),
      ) =
    record {
      request_flags = request_flags;
      open_order_slot = open_order_slot;
      fee_tier = fee_tier;
      max_base_size_or_cancel_id = max_base_size_or_cancel_id;
      native_quote_quantity_locked = native_quote_quantity_locked;
      order_id = order_id;
      open_orders = open_orders;
      client_order_id = client_order_id;
    }

abbrev pub request_members :
    RequestContainer → ReuqestFlags × (ℕ × (ℕ × (Unit {0} × (ℕ × (ℕ × (Bytes × (Bytes × ℕ)))))))
request_members x = (
  x.request_flags,
  (
    x.open_order_slot,
    (
      x.fee_tier,
      (
        tt,
        (
          x.max_base_size_or_cancel_id,
          (x.native_quote_quantity_locked, (x.order_id, (x.open_orders, x.client_order_id))),
        ),
      ),
    ),
  ),
)

pub record EventContainer : Type 0 where
  pub event_flags : EventFlags
  pub open_order_slot : ℕ
  pub fee_tier : ℕ
  pub native_quantity_released : ℕ
  pub native_quantity_paid : ℕ
  pub native_fee_or_rebate : ℕ
  pub order_id : Bytes
  pub public_key : Bytes
  pub client_order_id : ℕ

abbrev pub event_of :
    EventFlags × (ℕ × (ℕ × (Unit {0} × (ℕ × (ℕ × (ℕ × (Bytes × (Bytes × ℕ)))))))) → EventContainer
event_of
      (
        event_flags,
        (
          open_order_slot,
          (
            fee_tier,
            (
              _,
              (
                native_quantity_released,
                (
                  native_quantity_paid,
                  (native_fee_or_rebate, (order_id, (public_key, client_order_id))),
                ),
              ),
            ),
          ),
        ),
      ) =
    record {
      event_flags = event_flags;
      open_order_slot = open_order_slot;
      fee_tier = fee_tier;
      native_quantity_released = native_quantity_released;
      native_quantity_paid = native_quantity_paid;
      native_fee_or_rebate = native_fee_or_rebate;
      order_id = order_id;
      public_key = public_key;
      client_order_id = client_order_id;
    }

abbrev pub event_members :
    EventContainer → EventFlags × (ℕ × (ℕ × (Unit {0} × (ℕ × (ℕ × (ℕ × (Bytes × (Bytes × ℕ))))))))
event_members x = (
  x.event_flags,
  (
    x.open_order_slot,
    (
      x.fee_tier,
      (
        tt,
        (
          x.native_quantity_released,
          (
            x.native_quantity_paid,
            (x.native_fee_or_rebate, (x.order_id, (x.public_key, x.client_order_id))),
          ),
        ),
      ),
    ),
  ),
)

module _ ⦃lib : Construct⦄ where
  -- REQUEST_FLAGS_LAYOUT
  unfoldable pub request_flags_layout : Codec ReuqestFlags
  request_flags_layout = named request_flags_of request_flags_members (
      lib.bits_swapped
        (lib.bit_struct (flag ⨟ flag ⨟ flag ⨟ flag ⨟ flag ⨟ lib.const 0 (lib.bits_integer 3))))

  -- EVENT_FLAGS_LAYOUT
  unfoldable pub event_flags_layout : Codec EventFlags
  event_flags_layout =
      named event_flags_of event_flags_members
        (lib.bits_swapped (lib.bit_struct (flag ⨟ flag ⨟ flag ⨟ flag ⨟ padding 4)))

  -- QUEUE_HEADER_LAYOUT
  unfoldable pub queue_header_layout : Codec QueueHeaderContainer
  queue_header_layout = named queue_header_of queue_header_members (
      padding 5
      ⨟ account_flags_layout
      ⨟ int32ul
      ⨟ padding 4
      ⨟ int32ul
      ⨟ padding 4
      ⨟ int32ul
      ⨟ padding 4)

  -- REQUEST_LAYOUT
  unfoldable pub request_layout : Codec RequestContainer
  request_layout = named request_of request_members (
      request_flags_layout
      ⨟ int8ul
      ⨟ int8ul
      ⨟ padding 5
      ⨟ int64ul
      ⨟ int64ul
      ⨟ bytes 16
      ⨟ bytes 32
      ⨟ int64ul)

  -- EVENT_LAYOUT
  unfoldable pub event_layout : Codec EventContainer
  event_layout = named event_of event_members (
      event_flags_layout
      ⨟ int8ul
      ⨟ int8ul
      ⨟ padding 5
      ⨟ int64ul
      ⨟ int64ul
      ⨟ int64ul
      ⨟ bytes 16
      ⨟ bytes 32
      ⨟ int64ul)
