-- ===== src/Core/Fills.antt =====
-- The fills that _parse_fills of pyserum/market/core.py reads from an event queue.
use pyserum.Base.{
  ℕ, suc, Error, ◌*◌, ◌^◌, ltb, ◌==◌, not, [], ◌∷◌, ◌∙◌, ap, negsuc, ◌≡◌, refl, Bool, true, false,
  ◌&&◌, some, List, map, ℤ, pos, Result, ok, err, ◌>>=◌, map_result, if◌then◌else◌,
  invalid_event_queue, arith,
}
use pyserum.Base.Bytes.{Bytes}
use pyserum.Base.Signed.{◌+ℤ◌, ◌-ℤ◌, times, negate, pos_part, neg_part}
use pyserum.Construct.{Construct}
use pyserum.Layouts.Queue.{QueueHeaderContainer}
use pyserum.Layouts.QueueEncoding.{QueueHeaderPadding, EventSlot, EventSlotFits, encode_event}
use pyserum.Market.{base_spl_token_multiplier, quote_spl_token_multiplier}
use pyserum.OrderBook.{buy, sell}
use pyserum.Queue.{Event}
use pyserum.Queue.Decode.{encode_queue}
use pyserum.Queue.Kinds.{event_in, selected, RingFits, decode_event_queue-encode}
use pyserum.Core.Packages.{Packages}
use pyserum.Core.Defs.{
  MarketCore, FilledOrder, filter, price_before_fees, parse_fill_event, is_fill, parse_fills,
}

-- What the trader got or gave before the fee that `cost` says: a bid's released quantity leaves the
-- cost out, an ask's has it taken off.
abbrev without_cost : Bool → ℕ → ℤ → ℤ
without_cost bid released cost = if bid then pos released +ℤ cost else pos released -ℤ cost

abbrev signed_cost : Bool → ℕ → ℤ
signed_cost maker fee = if maker then pos fee else negate (pos fee)

no_pos_part : (fee : ℕ) → pos_part (negate (pos fee)) ≡ 0
unfolding negate
no_pos_part fee = ground arith

all_neg_part : (fee : ℕ) → neg_part (negate (pos fee)) ≡ fee
unfolding negate
all_neg_part fee = ground arith

price_before_fees-without_cost :
    (bid maker : Bool) (released fee : ℕ)
    → price_before_fees bid maker released fee ≡ without_cost bid released (signed_cost maker fee)
unfolding price_before_fees ◌+ℤ◌ ◌-ℤ◌
price_before_fees-without_cost true true released fee = refl
price_before_fees-without_cost true false released fee = rw (no_pos_part fee, all_neg_part fee) refl
price_before_fees-without_cost false true released fee = refl
price_before_fees-without_cost false false released fee =
    rw (no_pos_part fee, all_neg_part fee) refl

above_zero : (n : ℕ) → ltb 0 n ≡ not (n == 0)
above_zero n = ground arith

map_result-same :
    {A B : Type 0} {f g : A → Result B}
    → ((a : A) → f a ≡ g a)
    → (xs : List A) → map_result f xs ≡ map_result g xs
map_result-same h [] = refl
map_result-same h (x ∷ xs) = rw (h x, map_result-same h xs) refl

filter-same :
    {A : Type 0} {f g : A → Bool}
    → ((a : A) → f a ≡ g a)
    → (xs : List A) → filter f xs ≡ filter g xs
filter-same h [] = refl
filter-same h (x ∷ xs) = rw (h x, filter-same h xs) refl

if_bind :
    {A B : Type 0} (b : Bool) (a : A) (e : Error) (next : A → Result B)
    → ((if b then ok a else err e) >>= next) ≡ (if b then next a else err e)
if_bind true a e next = refl
if_bind false a e next = refl

module _ (packages : Packages) where
  open packages use {keys, floats}
  open keys use {PublicKey}
  open floats use {Float, true_div, signed_div}

  -- The fill that an event stands for. Its price is that of the released quantity with the cost that
  -- the fill itself reports put back: added for a bid and taken off for an ask.
  abbrev pub fill_in : MarketCore PublicKey → Event PublicKey → Result (FilledOrder Float)
  fill_in core event =
      let cost = signed_cost event.event_flags.maker event.native_fee_or_rebate in
      signed_div
        (times (without_cost event.event_flags.bid event.native_quantity_released cost)
          (10 ^ core.state.base_mint_decimals))
        (10 ^ core.state.quote_mint_decimals * event.native_quantity_paid)
      >>= λ price.
          true_div event.native_quantity_paid (10 ^ core.state.base_mint_decimals) >>= λ size.
          ok (record {
            order_id = event.order_id;
            side = if event.event_flags.bid then buy else sell;
            price = price;
            size = size;
            fee_cost = cost;
          })

  -- The events that are fills and paid something.
  abbrev pub was_paid : Event PublicKey → Bool
  was_paid event = event.event_flags.fill && not (event.native_quantity_paid == 0)

  parse_fill_event-fill_in :
      (core : MarketCore PublicKey) (event : Event PublicKey)
      → parse_fill_event packages core event ≡ fill_in core event
  unfolding parse_fill_event base_spl_token_multiplier quote_spl_token_multiplier
  parse_fill_event-fill_in core event =
      rw
        (price_before_fees-without_cost event.event_flags.bid event.event_flags.maker
          event.native_quantity_released event.native_fee_or_rebate)
        refl

  is_fill-was_paid : (event : Event PublicKey) → is_fill packages event ≡ was_paid event
  unfolding is_fill
  is_fill-was_paid event =
      ap (λ paid. event.event_flags.fill && paid) (above_zero event.native_quantity_paid)

  fills-fill_in :
      (core : MarketCore PublicKey) (events : List (Event PublicKey))
      → map_result (parse_fill_event packages core) (filter (is_fill packages) events)
        ≡ map_result (fill_in core) (filter was_paid events)
  fills-fill_in core events =
      map_result-same (parse_fill_event-fill_in core) _
      ∙ ap (λ es. map_result (fill_in core) es) (filter-same is_fill-was_paid events)

  -- The account of an event queue, whose slots and header fit their layouts, with any padding, and a
  -- limit that is not 0: if its flags "initialized" and "event_queue" are set, `_parse_fills` reads the
  -- newest slots of the ring, at most as many as the limit, or none if it is negative, newest first,
  -- leaves out the events that are not fills or paid nothing, and gives the fills that the others stand
  -- for, in this order; else it raises "Invalid events queue".
  pub parse_fills-encode :
      ⦃lib : Construct⦄ (core : MarketCore PublicKey) (padding : QueueHeaderPadding)
      (header : QueueHeaderContainer) (slots : List EventSlot) (tail : Bytes) (n : ℕ)
      → RingFits EventSlotFits 88 header slots tail
      → (parse_fills packages core
            (encode_queue encode_event padding header slots tail)
            (pos (suc n))
          ≡ (if header.account_flags.initialized && header.account_flags.event_queue
              then map_result
                  (fill_in core)
                  (filter was_paid (map (event_in keys) (selected header slots (some (suc n)))))
              else err invalid_event_queue))
        × (parse_fills packages core
              (encode_queue encode_event padding header slots tail)
              (negsuc n)
            ≡ (if header.account_flags.initialized && header.account_flags.event_queue
                then ok []
                else err invalid_event_queue))
  unfolding parse_fills
  parse_fills-encode core padding header slots tail n h =
      let (counted, newest, none_wanted) =
        decode_event_queue-encode keys padding header slots tail n h in
      let flagged = header.account_flags.initialized && header.account_flags.event_queue in
      (
        rw newest (
            if_bind flagged _ _ _
            ∙ ap (λ r. if flagged then r else err invalid_event_queue)
                (fills-fill_in core (map (event_in keys) (selected header slots (some (suc n)))))),
        rw none_wanted (if_bind flagged _ _ _),
      )
