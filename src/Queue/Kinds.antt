-- ===== src/Queue/Kinds.antt =====
-- What decoding the queue of events and the queue of requests gives.
use pyserum.Base.{
  ℕ, suc, pos, negsuc, [], ◌+◌, ◌%◌, ◌<◌, ◌≤◌, ◌≡◌, Option, none, some, ◌&&◌, List, map, reverse,
  length, take, arith, All, All-map, ok, err, invalid_event_queue, invalid_request_queue,
  if◌then◌else◌, unless_both,
}
use pyserum.Base.Bytes
use pyserum.Base.Bytes.{Bytes}
use pyserum.Construct.{Construct}
use pyserum.Solana.{PublicKeys}
use pyserum.Layouts.Queue.{QueueHeaderContainer, request_layout, event_layout}
use pyserum.Layouts.QueueEncoding.{
  QueueHeaderContainerFits, EventSlot, EventSlotFits, QueueHeaderPadding, RequestSlot,
  RequestSlotFits, encode_event, event_layout-Parses, event_layout-HasSize, length-encode_event,
  encode_request, request_layout-Parses, request_layout-HasSize, length-encode_request,
}
use pyserum.Queue.Defs.{
  Event, Request, event_of, request_of, decode_event_queue, decode_request_queue,
}
use pyserum.Queue.Ring.{rotation}
use pyserum.Queue.Decode.{QueueFits, encode_queue, from_bytes-encode_queue}

-- The slots that a queue's header describes: the ones that it counts, oldest first, or the newest
-- `n` of all the slots of the ring, newest first.
abbrev pub selected : {C : Type 0} → QueueHeaderContainer → List C → Option ℕ → List C
selected header slots none = take header.count (rotation header.head slots)
selected header slots (some n) =
    take n (reverse (rotation ((header.head + header.count) % length slots) slots))

-- A header whose indices are in the ring, slots that fit their layout, and a tail shorter than one.
pub record RingFits {C : Type 0} (Fits : C → Type 0) (size : ℕ) (header : QueueHeaderContainer)
    (slots : List C) (tail : Bytes) : Type 0 where
  pub header_fits : QueueHeaderContainerFits header
  pub slots_fit : All Fits slots
  pub tail_short : length tail < size
  pub head_lt : header.head < length slots
  pub count_le : header.count ≤ length slots

module _ (keys : PublicKeys) where
  open keys use {PublicKey, public_key}

  -- The event that a slot stands for, field by field.
  abbrev pub event_in : EventSlot → Event PublicKey
  event_in slot = record {
    event_flags = slot.container.event_flags;
    open_order_slot = slot.container.open_order_slot;
    fee_tier = slot.container.fee_tier;
    native_quantity_released = slot.container.native_quantity_released;
    native_quantity_paid = slot.container.native_quantity_paid;
    native_fee_or_rebate = slot.container.native_fee_or_rebate;
    order_id = Bytes.from_bytes slot.container.order_id;
    public_key = public_key slot.container.public_key;
    client_order_id = slot.container.client_order_id;
  }

  -- The request that a slot stands for, field by field.
  abbrev pub request_in : RequestSlot → Request PublicKey
  request_in slot = record {
    request_flags = slot.container.request_flags;
    open_order_slot = slot.container.open_order_slot;
    fee_tier = slot.container.fee_tier;
    max_base_size_or_cancel_id = slot.container.max_base_size_or_cancel_id;
    native_quote_quantity_locked = slot.container.native_quote_quantity_locked;
    order_id = Bytes.from_bytes slot.container.order_id;
    open_orders = public_key slot.container.open_orders;
    client_order_id = slot.container.client_order_id;
  }

  module _ ⦃lib : Construct⦄ (padding : QueueHeaderPadding) where
    event_ring :
        (header : QueueHeaderContainer) (slots : List EventSlot) (tail : Bytes)
        → RingFits EventSlotFits 88 header slots tail
        → QueueFits event_layout
            (event_of keys)
            (λ slot. slot.container)
            encode_event
            padding
            88
            event_layout-HasSize
            (omega arith)
            header
            slots
            tail
    event_ring header slots tail h = record {
      header_fits = h.header_fits;
      slots_fit =
          All-map
            (λ x f. record { parses = event_layout-Parses x f; fills = length-encode_event x f })
            slots h.slots_fit;
      tail_short = h.tail_short;
      head_lt = h.head_lt;
      count_le = h.count_le;
    }

    request_ring :
        (header : QueueHeaderContainer) (slots : List RequestSlot) (tail : Bytes)
        → RingFits RequestSlotFits 80 header slots tail
        → QueueFits request_layout
            (request_of keys)
            (λ slot. slot.container)
            encode_request
            padding
            80
            request_layout-HasSize
            (omega arith)
            header
            slots
            tail
    request_ring header slots tail h = record {
      header_fits = h.header_fits;
      slots_fit =
          All-map
            (λ x f. record {
              parses = request_layout-Parses x f;
              fills = length-encode_request x f;
            })
            slots h.slots_fit;
      tail_short = h.tail_short;
      head_lt = h.head_lt;
      count_le = h.count_le;
    }

    -- The account of an event queue, whose slots and header fit their layouts, with any bytes and bits
    -- where the layouts have padding, decodes to the events in the slots that its header counts, oldest
    -- first, or, with a history `n` above 0, to those in the newest `n` slots of the ring, newest first,
    -- or, with a negative history, to none, if the flags "initialized" and "event_queue" are set; else
    -- decoding raises "Invalid events queue".
    pub decode_event_queue-encode :
        (header : QueueHeaderContainer) (slots : List EventSlot) (tail : Bytes) (n : ℕ)
        → RingFits EventSlotFits 88 header slots tail
        → (decode_event_queue keys (encode_queue encode_event padding header slots tail) none ≡ (
            if header.account_flags.initialized && header.account_flags.event_queue
            then ok (map event_in (selected header slots none))
            else err invalid_event_queue))
          × (decode_event_queue keys
                (encode_queue encode_event padding header slots tail)
                (some (pos (suc n)))
              ≡ (if header.account_flags.initialized && header.account_flags.event_queue
                  then ok (map event_in (selected header slots (some (suc n))))
                  else err invalid_event_queue))
          × (decode_event_queue keys
                (encode_queue encode_event padding header slots tail)
                (some (negsuc n))
              ≡ (if header.account_flags.initialized && header.account_flags.event_queue
                  then ok []
                  else err invalid_event_queue))
    unfolding decode_event_queue event_of
    decode_event_queue-encode header slots tail n h =
        let (counted, newest, none_wanted) =
          from_bytes-encode_queue event_layout (event_of keys) (λ slot. slot.container) encode_event
            padding 88 event_layout-HasSize (omega arith) header slots tail
            (event_ring header slots tail h) in
        (
          rw counted
              (unless_both header.account_flags.initialized header.account_flags.event_queue _ _),
          rw (newest n)
              (unless_both header.account_flags.initialized header.account_flags.event_queue _ _),
          rw (none_wanted n)
              (unless_both header.account_flags.initialized header.account_flags.event_queue _ _),
        )

    -- The account of a request queue, whose slots and header fit their layouts, with any bytes and bits
    -- where the layouts have padding, decodes to the requests in the slots that its header counts, oldest
    -- first, or, with a history `n` above 0, to those in the newest `n` slots of the ring, newest first,
    -- or, with a negative history, to none, if the flags "initialized" and "request_queue" are set; else
    -- decoding raises "Invalid requests queue".
    pub decode_request_queue-encode :
        (header : QueueHeaderContainer) (slots : List RequestSlot) (tail : Bytes) (n : ℕ)
        → RingFits RequestSlotFits 80 header slots tail
        → (decode_request_queue keys (encode_queue encode_request padding header slots tail) none
            ≡ (if header.account_flags.initialized && header.account_flags.request_queue
                then ok (map request_in (selected header slots none))
                else err invalid_request_queue))
          × (decode_request_queue keys
                (encode_queue encode_request padding header slots tail)
                (some (pos (suc n)))
              ≡ (if header.account_flags.initialized && header.account_flags.request_queue
                  then ok (map request_in (selected header slots (some (suc n))))
                  else err invalid_request_queue))
          × (decode_request_queue keys
                (encode_queue encode_request padding header slots tail)
                (some (negsuc n))
              ≡ (if header.account_flags.initialized && header.account_flags.request_queue
                  then ok []
                  else err invalid_request_queue))
    unfolding decode_request_queue request_of
    decode_request_queue-encode header slots tail n h =
        let (counted, newest, none_wanted) =
          from_bytes-encode_queue request_layout (request_of keys) (λ slot. slot.container)
            encode_request padding 80 request_layout-HasSize (omega arith) header slots tail
            (request_ring header slots tail h) in
        (
          rw counted
              (unless_both header.account_flags.initialized header.account_flags.request_queue _ _),
          rw (newest n)
              (unless_both header.account_flags.initialized header.account_flags.request_queue _ _),
          rw (none_wanted n)
              (unless_both header.account_flags.initialized header.account_flags.request_queue _ _),
        )
