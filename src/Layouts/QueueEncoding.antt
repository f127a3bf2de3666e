-- ===== src/Layouts/QueueEncoding.antt =====
-- Encodings that the layouts of pyserum/_layouts/queue.py parse, and their sizes.
use pyserum.Base.{◌^◌, ◌<◌, ◌≡◌, refl, ℕ, Bool, false, [], ◌∷◌, ◌++◌, length}
use pyserum.Base.Bytes.{Bytes, low_bytes}
use pyserum.Construct.{Construct}
use pyserum.Construct.Parses.{
  Parses, ◌⨟ₚ◌, named-Parses, uint-Parses, bytes-Parses, filler-Parses, bits-Parses, flags-Parses,
  zero_bits-Parses,
}
use pyserum.Construct.Sizes.{
  HasSize, ◌⨟ₛ◌, named-HasSize, uint-HasSize, bytes-HasSize, padding-HasSize, flag-HasSize,
  zero_bits-HasSize, flags-HasSize, HasLength, ◌⨟ₗ◌, low_bytes-HasLength, bytes-HasLength,
}
use pyserum.Construct.Flags.{flag_byte, bit, bit-Parses, stream-flag_byte}
use pyserum.Layouts.AccountFlags.{
  encode_flags, account_flags_layout-Parses, account_flags_layout-HasSize, length-encode_flags,
}
use pyserum.Layouts.Queue.{
  QueueHeaderContainer, queue_header_of, queue_header_members, queue_header_layout,
  RequestContainer, request_of, request_members, request_layout, EventContainer, event_of,
  event_members, event_layout, ReuqestFlags, request_flags_of, request_flags_members,
  request_flags_layout, EventFlags, event_flags_of, event_flags_members, event_flags_layout,
}

unfoldable pub encode_request_flags : ReuqestFlags → Bytes
encode_request_flags x =
    flag_byte x.new_order x.cancel_order x.bid x.post_only x.ioc false false false ∷ []

length-encode_request_flags : (x : ReuqestFlags) → length (encode_request_flags x) ≡ 1
unfolding encode_request_flags
length-encode_request_flags x = refl

pub request_flags_layout-HasSize : ⦃lib : Construct⦄ → HasSize request_flags_layout 1
unfolding request_flags_layout
request_flags_layout-HasSize = named-HasSize request_flags_of request_flags_members (
    flags-HasSize 1 (
      flag-HasSize
      ⨟ₛ flag-HasSize
      ⨟ₛ flag-HasSize
      ⨟ₛ flag-HasSize
      ⨟ₛ flag-HasSize
      ⨟ₛ zero_bits-HasSize 3))

pub request_flags_layout-Parses :
    ⦃lib : Construct⦄ (x : ReuqestFlags) → Parses request_flags_layout (encode_request_flags x) x
unfolding request_flags_layout encode_request_flags
request_flags_layout-Parses x = named-Parses request_flags_of request_flags_members (
    flags-Parses _
      (HasSize.run (
        flag-HasSize
        ⨟ₛ flag-HasSize
        ⨟ₛ flag-HasSize
        ⨟ₛ flag-HasSize
        ⨟ₛ flag-HasSize
        ⨟ₛ zero_bits-HasSize 3))
      (stream-flag_byte x.new_order x.cancel_order x.bid x.post_only x.ioc false false false [])
      (bit-Parses x.new_order
        ⨟ₚ bit-Parses x.cancel_order
        ⨟ₚ bit-Parses x.bid
        ⨟ₚ bit-Parses x.post_only
        ⨟ₚ bit-Parses x.ioc
        ⨟ₚ zero_bits-Parses 3 refl))

-- The four bits that EVENT_FLAGS_LAYOUT pads its flags with.
pub record SpareBits : Type 0 where
  pub fifth : Bool
  pub sixth : Bool
  pub seventh : Bool
  pub eighth : Bool

unfoldable pub encode_event_flags : SpareBits → EventFlags → Bytes
encode_event_flags spare x =
    flag_byte x.fill x.out x.bid x.maker spare.fifth spare.sixth spare.seventh spare.eighth ∷ []

length-encode_event_flags :
    (spare : SpareBits) (x : EventFlags) → length (encode_event_flags spare x) ≡ 1
unfolding encode_event_flags
length-encode_event_flags spare x = refl

pub event_flags_layout-HasSize : ⦃lib : Construct⦄ → HasSize event_flags_layout 1
unfolding event_flags_layout
event_flags_layout-HasSize = named-HasSize event_flags_of event_flags_members (
    flags-HasSize 1
      (flag-HasSize ⨟ₛ flag-HasSize ⨟ₛ flag-HasSize ⨟ₛ flag-HasSize ⨟ₛ padding-HasSize 4))

pub event_flags_layout-Parses :
    ⦃lib : Construct⦄ (spare : SpareBits) (x : EventFlags)
    → Parses event_flags_layout (encode_event_flags spare x) x
unfolding event_flags_layout encode_event_flags
event_flags_layout-Parses spare x = named-Parses event_flags_of event_flags_members (
    flags-Parses _
      (HasSize.run
        (flag-HasSize ⨟ₛ flag-HasSize ⨟ₛ flag-HasSize ⨟ₛ flag-HasSize ⨟ₛ padding-HasSize 4))
      (stream-flag_byte x.fill x.out x.bid x.maker spare.fifth spare.sixth spare.seventh
        spare.eighth [])
      (bit-Parses x.fill
        ⨟ₚ bit-Parses x.out
        ⨟ₚ bit-Parses x.bid
        ⨟ₚ bit-Parses x.maker
        ⨟ₚ bits-Parses
            (bit spare.fifth ∷ bit spare.sixth ∷ bit spare.seventh ∷ bit spare.eighth ∷ [])))

-- The values that the layout QUEUE_HEADER_LAYOUT can hold.
pub record QueueHeaderContainerFits (x : QueueHeaderContainer) : Type 0 where
  pub head : x.head < 256 ^ 4
  pub count : x.count < 256 ^ 4
  pub next_seq_num : x.next_seq_num < 256 ^ 4

-- The bytes of a header's paddings, as numbers.
pub record QueueHeaderPadding : Type 0 where
  pub start : ℕ
  pub behind_head : ℕ
  pub behind_count : ℕ
  pub at_end : ℕ

unfoldable pub encode_queue_header : QueueHeaderPadding → QueueHeaderContainer → Bytes
encode_queue_header padding x =
    low_bytes 5 padding.start
    ++ (encode_flags x.account_flags
        ++ (low_bytes 4 x.head
            ++ (low_bytes 4 padding.behind_head
                ++ (low_bytes 4 x.count
                    ++ (low_bytes 4 padding.behind_count
                        ++ (low_bytes 4 x.next_seq_num ++ low_bytes 4 padding.at_end))))))

pub queue_header_layout-Parses :
    ⦃lib : Construct⦄ (padding : QueueHeaderPadding) (x : QueueHeaderContainer)
    → QueueHeaderContainerFits x
    → Parses queue_header_layout (encode_queue_header padding x) x
unfolding queue_header_layout encode_queue_header
queue_header_layout-Parses padding x h = named-Parses queue_header_of queue_header_members (
    filler-Parses 5 padding.start
    ⨟ₚ account_flags_layout-Parses x.account_flags
    ⨟ₚ uint-Parses 4 x.head h.head
    ⨟ₚ filler-Parses 4 padding.behind_head
    ⨟ₚ uint-Parses 4 x.count h.count
    ⨟ₚ filler-Parses 4 padding.behind_count
    ⨟ₚ uint-Parses 4 x.next_seq_num h.next_seq_num
    ⨟ₚ filler-Parses 4 padding.at_end)

pub queue_header_layout-HasSize : ⦃lib : Construct⦄ → HasSize queue_header_layout 37
unfolding queue_header_layout
queue_header_layout-HasSize = named-HasSize queue_header_of queue_header_members (
    padding-HasSize 5
    ⨟ₛ account_flags_layout-HasSize
    ⨟ₛ uint-HasSize 4
    ⨟ₛ padding-HasSize 4
    ⨟ₛ uint-HasSize 4
    ⨟ₛ padding-HasSize 4
    ⨟ₛ uint-HasSize 4
    ⨟ₛ padding-HasSize 4)

-- The values that the layout REQUEST_LAYOUT can hold.
pub record RequestContainerFits (x : RequestContainer) : Type 0 where
  pub open_order_slot : x.open_order_slot < 256 ^ 1
  pub fee_tier : x.fee_tier < 256 ^ 1
  pub max_base_size_or_cancel_id : x.max_base_size_or_cancel_id < 256 ^ 8
  pub native_quote_quantity_locked : x.native_quote_quantity_locked < 256 ^ 8
  pub order_id : length x.order_id ≡ 16
  pub open_orders : length x.open_orders ≡ 32
  pub client_order_id : x.client_order_id < 256 ^ 8

-- What a slot of the ring holds: the fields of the layout, and its padding.
pub record RequestSlot : Type 0 where
  pub container : RequestContainer
  pub padding : ℕ

abbrev pub RequestSlotFits : RequestSlot → Type 0
RequestSlotFits slot = RequestContainerFits slot.container

unfoldable pub encode_request : RequestSlot → Bytes
encode_request slot =
    let x = slot.container in
    encode_request_flags x.request_flags
    ++ (low_bytes 1 x.open_order_slot
        ++ (low_bytes 1 x.fee_tier
            ++ (low_bytes 5 slot.padding
                ++ (low_bytes 8 x.max_base_size_or_cancel_id
                    ++ (low_bytes 8 x.native_quote_quantity_locked
                        ++ (x.order_id ++ (x.open_orders ++ low_bytes 8 x.client_order_id)))))))

pub request_layout-Parses :
    ⦃lib : Construct⦄ (slot : RequestSlot)
    → RequestSlotFits slot
    → Parses request_layout (encode_request slot) slot.container
unfolding request_layout encode_request
request_layout-Parses slot h =
    let x = slot.container in
    named-Parses request_of request_members (
      request_flags_layout-Parses x.request_flags
      ⨟ₚ uint-Parses 1 x.open_order_slot h.open_order_slot
      ⨟ₚ uint-Parses 1 x.fee_tier h.fee_tier
      ⨟ₚ filler-Parses 5 slot.padding
      ⨟ₚ uint-Parses 8 x.max_base_size_or_cancel_id h.max_base_size_or_cancel_id
      ⨟ₚ uint-Parses 8 x.native_quote_quantity_locked h.native_quote_quantity_locked
      ⨟ₚ bytes-Parses 16 x.order_id h.order_id
      ⨟ₚ bytes-Parses 32 x.open_orders h.open_orders
      ⨟ₚ uint-Parses 8 x.client_order_id h.client_order_id)

pub request_layout-HasSize : ⦃lib : Construct⦄ → HasSize request_layout 80
unfolding request_layout
request_layout-HasSize = named-HasSize request_of request_members (
    request_flags_layout-HasSize
    ⨟ₛ uint-HasSize 1
    ⨟ₛ uint-HasSize 1
    ⨟ₛ padding-HasSize 5
    ⨟ₛ uint-HasSize 8
    ⨟ₛ uint-HasSize 8
    ⨟ₛ bytes-HasSize 16
    ⨟ₛ bytes-HasSize 32
    ⨟ₛ uint-HasSize 8)

-- The values that the layout EVENT_LAYOUT can hold.
pub record EventContainerFits (x : EventContainer) : Type 0 where
  pub open_order_slot : x.open_order_slot < 256 ^ 1
  pub fee_tier : x.fee_tier < 256 ^ 1
  pub native_quantity_released : x.native_quantity_released < 256 ^ 8
  pub native_quantity_paid : x.native_quantity_paid < 256 ^ 8
  pub native_fee_or_rebate : x.native_fee_or_rebate < 256 ^ 8
  pub order_id : length x.order_id ≡ 16
  pub public_key : length x.public_key ≡ 32
  pub client_order_id : x.client_order_id < 256 ^ 8

-- What a slot of the ring holds: the fields of the layout, and its padding.
pub record EventSlot : Type 0 where
  pub container : EventContainer
  pub spare : SpareBits
  pub padding : ℕ

abbrev pub EventSlotFits : EventSlot → Type 0
EventSlotFits slot = EventContainerFits slot.container

unfoldable pub encode_event : EventSlot → Bytes
encode_event slot =
    let x = slot.container in
    encode_event_flags slot.spare x.event_flags
    ++ (low_bytes 1 x.open_order_slot
        ++ (low_bytes 1 x.fee_tier
            ++ (low_bytes 5 slot.padding
                ++ (low_bytes 8 x.native_quantity_released
                    ++ (low_bytes 8 x.native_quantity_paid
                        ++ (low_bytes 8 x.native_fee_or_rebate
                            ++ (x.order_id ++ (x.public_key ++ low_bytes 8 x.client_order_id))))))))

pub event_layout-Parses :
    ⦃lib : Construct⦄ (slot : EventSlot)
    → EventSlotFits slot
    → Parses event_layout (encode_event slot) slot.container
unfolding event_layout encode_event
event_layout-Parses slot h =
    let x = slot.container in
    named-Parses event_of event_members (
      event_flags_layout-Parses slot.spare x.event_flags
      ⨟ₚ uint-Parses 1 x.open_order_slot h.open_order_slot
      ⨟ₚ uint-Parses 1 x.fee_tier h.fee_tier
      ⨟ₚ filler-Parses 5 slot.padding
      ⨟ₚ uint-Parses 8 x.native_quantity_released h.native_quantity_released
      ⨟ₚ uint-Parses 8 x.native_quantity_paid h.native_quantity_paid
      ⨟ₚ uint-Parses 8 x.native_fee_or_rebate h.native_fee_or_rebate
      ⨟ₚ bytes-Parses 16 x.order_id h.order_id
      ⨟ₚ bytes-Parses 32 x.public_key h.public_key
      ⨟ₚ uint-Parses 8 x.client_order_id h.client_order_id)

pub event_layout-HasSize : ⦃lib : Construct⦄ → HasSize event_layout 88
unfolding event_layout
event_layout-HasSize = named-HasSize event_of event_members (
    event_flags_layout-HasSize
    ⨟ₛ uint-HasSize 1
    ⨟ₛ uint-HasSize 1
    ⨟ₛ padding-HasSize 5
    ⨟ₛ uint-HasSize 8
    ⨟ₛ uint-HasSize 8
    ⨟ₛ uint-HasSize 8
    ⨟ₛ bytes-HasSize 16
    ⨟ₛ bytes-HasSize 32
    ⨟ₛ uint-HasSize 8)

pub length-encode_queue_header :
    (padding : QueueHeaderPadding) (x : QueueHeaderContainer)
    → QueueHeaderContainerFits x
    → HasLength (encode_queue_header padding x) 37
unfolding encode_queue_header
length-encode_queue_header padding x h =
    low_bytes-HasLength 5 padding.start
    ⨟ₗ bytes-HasLength 8 _ (length-encode_flags x.account_flags)
    ⨟ₗ low_bytes-HasLength 4 x.head
    ⨟ₗ low_bytes-HasLength 4 padding.behind_head
    ⨟ₗ low_bytes-HasLength 4 x.count
    ⨟ₗ low_bytes-HasLength 4 padding.behind_count
    ⨟ₗ low_bytes-HasLength 4 x.next_seq_num
    ⨟ₗ low_bytes-HasLength 4 padding.at_end

pub length-encode_request :
    (slot : RequestSlot) → RequestSlotFits slot → HasLength (encode_request slot) 80
unfolding encode_request
length-encode_request slot h =
    let x = slot.container in
    bytes-HasLength 1 _ (length-encode_request_flags x.request_flags)
    ⨟ₗ low_bytes-HasLength 1 x.open_order_slot
    ⨟ₗ low_bytes-HasLength 1 x.fee_tier
    ⨟ₗ low_bytes-HasLength 5 slot.padding
    ⨟ₗ low_bytes-HasLength 8 x.max_base_size_or_cancel_id
    ⨟ₗ low_bytes-HasLength 8 x.native_quote_quantity_locked
    ⨟ₗ bytes-HasLength 16 x.order_id h.order_id
    ⨟ₗ bytes-HasLength 32 x.open_orders h.open_orders
    ⨟ₗ low_bytes-HasLength 8 x.client_order_id

pub length-encode_event : (slot : EventSlot) → EventSlotFits slot → HasLength (encode_event slot) 88
unfolding encode_event
length-encode_event slot h =
    let x = slot.container in
    bytes-HasLength 1 _ (length-encode_event_flags slot.spare x.event_flags)
    ⨟ₗ low_bytes-HasLength 1 x.open_order_slot
    ⨟ₗ low_bytes-HasLength 1 x.fee_tier
    ⨟ₗ low_bytes-HasLength 5 slot.padding
    ⨟ₗ low_bytes-HasLength 8 x.native_quantity_released
    ⨟ₗ low_bytes-HasLength 8 x.native_quantity_paid
    ⨟ₗ low_bytes-HasLength 8 x.native_fee_or_rebate
    ⨟ₗ bytes-HasLength 16 x.order_id h.order_id
    ⨟ₗ bytes-HasLength 32 x.public_key h.public_key
    ⨟ₗ low_bytes-HasLength 8 x.client_order_id
