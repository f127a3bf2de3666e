-- ===== src/Queue/Decode.antt =====
-- What decoding a queue's account gives.
use pyserum.Base.{
  All-map, subst, ℕ, suc, pos, negsuc, ◌+◌, ◌-◌, ◌*◌, ◌/◌, ◌%◌, ◌≤◌, ◌<◌, ◌≡◌, refl, ap, ◌∙◌, none,
  some, List, [], ◌++◌, map, reverse, min, length, take, get_elem?, arith, All, length-append,
  append-nil, ok, map_result, ==_false,
}
use native.Mathlib.Nat.{mul-add-div_right, mod-lt, div-eq_of_lt}
use pyserum.Base.Bytes.{Bytes}
use pyserum.Construct.{Codec, Construct}
use pyserum.Construct.Parses.{Parses, encode_all}
use pyserum.Construct.Sizes.{HasSize, HasLength}
use pyserum.Layouts.Queue.{QueueHeaderContainer, queue_header_layout}
use pyserum.Layouts.QueueEncoding.{
  QueueHeaderPadding, QueueHeaderContainerFits, encode_queue_header, queue_header_layout-Parses,
  queue_header_layout-HasSize, length-encode_queue_header,
}
use pyserum.Queue.Defs.{range, parse_queue_item, node_at, from_bytes}
use pyserum.Queue.Ring.{
  rotation, get_elem?-lt, get_elem?-take, get_elem?-rotation, get_elem?-backwards, length-rotation,
  length-reverse, length-take, map_result-range,
}
use pyserum.Queue.Slots.{
  drop-add, drop_prefix, All-get_elem?, length-take-min, slot_at, length-encode_all,
}

-- The account of a queue: its header, its slots and a tail.
unfoldable pub encode_queue :
    {S : Type 0} → (S → Bytes) → QueueHeaderPadding → QueueHeaderContainer → List S → Bytes → Bytes
encode_queue encode padding header slots tail =
    encode_queue_header padding header ++ (encode_all encode slots ++ tail)

-- Items whose layout has a size.
module _ ⦃lib : Construct⦄ {S C A : Type 0} (layout : Codec C) (item_of : C → A) (container : S → C)
    (encode : S → Bytes) (padding : QueueHeaderPadding) (size : ℕ) (sized : HasSize layout size)
    (positive : 0 < size) where
  -- What the layout makes of the encoding of a slot.
  pub record SlotFits (x : S) : Type 0 where
    pub parses : Parses layout (encode x) (container x)
    pub fills : HasLength (encode x) size

  parse_queue_item-encode :
      (x : S) → SlotFits x → parse_queue_item layout item_of (encode x) ≡ ok (item_of (container x))
  unfolding parse_queue_item
  parse_queue_item-encode x h = rw (rw append-nil at (h.parses.run [])) refl

  node_at-encode :
      (header : QueueHeaderContainer) (slots : List S) (tail : Bytes) (position : ℕ) (x : S)
      → QueueHeaderContainerFits header
      → All SlotFits slots
      → get_elem? slots (position % length slots) ≡ some x
      → node_at layout item_of
          (encode_queue encode padding header slots tail)
          37
          size
          (length slots)
          position
        ≡ ok (item_of (container x))
  unfolding node_at encode_queue
  node_at-encode header slots tail position x hh hs e =
      let inside : position % length slots < length slots = get_elem?-lt slots _ x e in
      rw
        (
          ==_false (length slots) 0 (omega (arith, inside)),
          drop-add 37 (position % length slots * size)
              (encode_queue_header padding header ++ (encode_all encode slots ++ tail)),
          drop_prefix 37 (encode_queue_header padding header) (encode_all encode slots ++ tail)
              (length-encode_queue_header padding header hh).run,
          slot_at encode size slots tail (position % length slots) x
              (All-map (λ y f. f.fills) slots hs) e,
        )
        (parse_queue_item-encode x (All-get_elem? SlotFits slots _ x hs e))

  alloc_len-encode :
      (header : QueueHeaderContainer) (slots : List S) (tail : Bytes)
      → QueueHeaderContainerFits header
      → All SlotFits slots
      → length tail < size
      → (length (encode_queue encode padding header slots tail) - 37) / size ≡ length slots
  unfolding encode_queue
  alloc_len-encode header slots tail hh hs short =
      let body : length (encode_queue encode padding header slots tail) - 37
          ≡ length slots * size + length tail =
        omega (
          arith,
          length-append (encode_queue_header padding header) (encode_all encode slots ++ tail),
          length-append (encode_all encode slots) tail,
          (length-encode_queue_header padding header hh).run,
          length-encode_all encode size slots (All-map (λ y f. f.fills) slots hs),
        ) in
      rw (body, mul-add-div_right positive, div-eq_of_lt short) (omega arith)

  -- The values of a header and slots whose encodings the layouts parse, with the indices in range.
  pub record QueueFits (header : QueueHeaderContainer) (slots : List S) (tail : Bytes)
      : Type 0 where
    pub header_fits : QueueHeaderContainerFits header
    pub slots_fit : All SlotFits slots
    pub tail_short : length tail < size
    pub head_lt : header.head < length slots
    pub count_le : header.count ≤ length slots

  -- Reading the positions of a range, where the element at each is known.
  read_range :
      (header : QueueHeaderContainer) (slots : List S) (tail : Bytes) (position : ℕ → ℕ)
      (xs : List S) (n : ℕ)
      → QueueFits header slots tail
      → length xs ≡ n
      → ((i : ℕ) (x : S)
          → get_elem? xs i ≡ some x
          → get_elem? slots (position i % length slots) ≡ some x)
      → map_result
          (λ i.
            node_at layout item_of
              (encode_queue encode padding header slots tail)
              37
              size
              (length slots)
              (position i))
          (range n)
        ≡ ok (map (λ s. item_of (container s)) xs)
  read_range header slots tail position xs n h e at_position =
      let read = λ (i : ℕ).
        node_at layout item_of (encode_queue encode padding header slots tail) 37 size
          (length slots) (position i) in
      subst (λ k. map_result read (range k) ≡ ok (map (λ s. item_of (container s)) xs)) e
        (map_result-range read (λ s. item_of (container s)) xs 0
          (λ i x found.
            let index : 0 + i ≡ i = omega arith in
            ap read index
            ∙ node_at-encode header slots tail (position i) x h.header_fits h.slots_fit
                (at_position i x found)))

  contents-ok :
      (header : QueueHeaderContainer) (slots : List S) (tail : Bytes)
      → QueueFits header slots tail
      → map_result
          (λ i.
            node_at layout item_of
              (encode_queue encode padding header slots tail)
              37
              size
              (length slots)
              (header.head + i))
          (range header.count)
        ≡ ok (map (λ s. item_of (container s)) (take header.count (rotation header.head slots)))
  contents-ok header slots tail h =
      read_range header slots tail (λ i. header.head + i)
        (take header.count (rotation header.head slots)) header.count h
        (length-take header.count (rotation header.head slots)
          (omega (arith, length-rotation header.head slots, h.head_lt, h.count_le)))
        (λ i x found.
          get_elem?-rotation header.head slots i x h.head_lt
            (get_elem?-take header.count (rotation header.head slots) i x found))

  history-ok :
      (header : QueueHeaderContainer) (slots : List S) (tail : Bytes) (n : ℕ)
      → QueueFits header slots tail
      → map_result
          (λ i.
            node_at layout item_of
              (encode_queue encode padding header slots tail)
              37
              size
              (length slots)
              (header.head + header.count + length slots - 1 - i))
          (range (min n (length slots)))
        ≡ ok (
            map
              (λ s. item_of (container s))
              (take n (reverse (rotation ((header.head + header.count) % length slots) slots))))
  history-ok header slots tail n h =
      let end : ℕ = (header.head + header.count) % length slots in
      let some_slot : 0 < length slots = omega (arith, h.head_lt) in
      let before : end < length slots = mod-lt (header.head + header.count) some_slot in
      read_range header slots tail (λ i. header.head + header.count + length slots - 1 - i)
        (take n (reverse (rotation end slots))) (min n (length slots)) h
        (length-take-min n (reverse (rotation end slots))
          ∙ ap (λ (k : ℕ). min n k)
              (length-reverse (rotation end slots)
                ∙ length-rotation end slots (omega (arith, before))))
        (λ i x found.
          get_elem?-backwards (header.head + header.count) slots i x some_slot
            (get_elem?-take n (reverse (rotation end slots)) i x found))

  header_parsed :
      (header : QueueHeaderContainer) (slots : List S) (tail : Bytes)
      → QueueHeaderContainerFits header
      → queue_header_layout.parse (encode_queue encode padding header slots tail)
        ≡ ok (header, encode_all encode slots ++ tail)
  unfolding encode_queue
  header_parsed header slots tail h =
      (queue_header_layout-Parses padding header h).run (encode_all encode slots ++ tail)

  -- Without a history the items are the ones that the header counts, oldest first; with one they are
  -- the newest slots of the whole ring, newest first, and with a negative one there are none.
  pub from_bytes-encode_queue :
      (header : QueueHeaderContainer) (slots : List S) (tail : Bytes)
      → QueueFits header slots tail
      → (from_bytes layout item_of (encode_queue encode padding header slots tail) none
          ≡ ok (
            header,
            map (λ s. item_of (container s)) (take header.count (rotation header.head slots)),
          ))
        × ((n : ℕ)
            → from_bytes layout item_of
                (encode_queue encode padding header slots tail)
                (some (pos (suc n)))
              ≡ ok (
                header,
                map
                    (λ s. item_of (container s))
                    (take
                      (suc n)
                      (reverse (rotation ((header.head + header.count) % length slots) slots))),
              ))
        × ((n : ℕ)
            → from_bytes layout item_of
                (encode_queue encode padding header slots tail)
                (some (negsuc n))
              ≡ ok (header, []))
  unfolding from_bytes
  from_bytes-encode_queue header slots tail h =
      let parsed = header_parsed header slots tail h.header_fits in
      let alloc_len = alloc_len-encode header slots tail h.header_fits h.slots_fit h.tail_short in
      (
        rw
            (
              parsed,
              sized.run,
              queue_header_layout-HasSize.run,
              alloc_len,
              contents-ok header slots tail h,
            )
            refl,
        λ n.
            rw
              (
                parsed,
                sized.run,
                queue_header_layout-HasSize.run,
                alloc_len,
                history-ok header slots tail (suc n) h,
              )
              refl,
        λ n.
            rw
              (
                parsed,
                sized.run,
                queue_header_layout-HasSize.run,
                alloc_len,
                history-ok header slots tail 0 h,
              )
              refl,
      )
