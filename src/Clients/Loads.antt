-- ===== src/Clients/Loads.antt =====
-- What the client of pyserum/market/market.py loads from a server that has the market's accounts.
use pyserum.Base.{
  ℕ, suc, pos, negsuc, [], ◌≡◌, ap, ◌∙◌, ◌&&◌, xor, none, some, List, map, length, All, Result, ok,
  err, map_result, invalid_order_book, invalid_event_queue, if◌then◌else◌,
}
use pyserum.Base.Bytes.{Bytes}
use pyserum.Construct.{Construct}
use pyserum.Layouts.AccountFlags.{AccountFlags}
use pyserum.Layouts.Queue.{QueueHeaderContainer}
use pyserum.Layouts.QueueEncoding.{QueueHeaderPadding, EventSlot, EventSlotFits, encode_event}
use pyserum.Layouts.SlabEncoding.{encode_slab}
use pyserum.Layouts.OpenOrdersEncoding.{OpenOrdersContainerFits}
use pyserum.Market.{public_key_of, asks, bids, event_queue}
use pyserum.Net.Action.{lift, ◌>>=◌ as ◌then◌}
use pyserum.Net.Answers.{Serves, load_bytes_data-Serves}
use pyserum.Net.Client.{ProgramAccountsArgs}
use pyserum.Net.Fetch.{load_bytes_data}
use pyserum.Net.Json.{Json}
use pyserum.Net.Steps.{returns, returned}
use pyserum.OpenOrders.Query.{build_get_program_accounts_args, process_get_program_accounts_resp}
use pyserum.OpenOrders.Find.{find_for_market_and_owner}
use pyserum.OpenOrders.Answers.{
  FoundAccount, found_answer, accepted, process_get_program_accounts_resp-found_answer,
}
use pyserum.OrderBook.{OrderBook}
use pyserum.OrderBook.Decode.{encode_order_book}
use pyserum.Queue.{decode_event_queue}
use pyserum.Queue.Decode.{encode_queue}
use pyserum.Queue.Kinds.{event_in, selected, RingFits, decode_event_queue-encode}
use pyserum.Slab.{Slab}
use pyserum.Slab.Wire.{wire_slab, IsDecoded}
use pyserum.Core.Packages.{Packages}
use pyserum.Core.Defs.{MarketCore, filter, parse_fills}
use pyserum.Core.Fills.{fill_in, was_paid, parse_fills-encode}
use pyserum.Clients.Defs.{find_open_orders_accounts_for_owner, load_event_queue, load_fills}

module _ (packages : Packages) ⦃lib : Construct⦄ where
  open packages use {keys, texts, floats, client}
  open keys use {PublicKey}
  open floats use {Float}
  open client use {World, recent, get_program_accounts}

  -- The server has the account of an order book of a slab, with some flags.
  pub record ServesBook (w : World) (address : PublicKey) (flags : AccountFlags)
      (slab : Slab PublicKey) : Type 0 where
    pub tag : Bytes
    pub rest : Bytes
    pub tag_size : length tag ≡ 5
    pub decoded : IsDecoded keys slab
    pub served :
        Serves keys texts client w address
          (encode_order_book tag flags (encode_slab (wire_slab keys slab)) rest)

  -- What a book's account is read as: its own flags say whether it is a book of bids.
  abbrev pub book_of :
      MarketCore PublicKey → AccountFlags → Slab PublicKey → Result (OrderBook PublicKey)
  book_of core flags slab =
      if flags.initialized && xor flags.bids flags.asks
      then ok (record { market_state = core.state; is_bids = flags.bids; slab = slab })
      else err invalid_order_book

  -- To the request for an owner's accounts in the market the server answers with some accounts.
  pub record Finds (core : MarketCore PublicKey) (owner : PublicKey) (w : World)
      (found : List (FoundAccount PublicKey)) : Type 0 where
    pub args : ProgramAccountsArgs PublicKey client.Commitment
    pub asked :
        build_get_program_accounts_args keys texts
          (public_key_of keys core.state)
          core.state.program_id
          owner
          recent
        ≡ ok args
    pub answers : get_program_accounts args w ≡ (ok (found_answer keys texts found), w)
    pub fit : All (λ a. OpenOrdersContainerFits a.container) found

  pub find-Finds :
      (core : MarketCore PublicKey) (owner : PublicKey) (w : World)
      (found : List (FoundAccount PublicKey))
      → Finds core owner w found
      → find_open_orders_accounts_for_owner packages core owner w
        ≡ (map_result (accepted keys texts) found, w)
  unfolding find_open_orders_accounts_for_owner find_for_market_and_owner
  find-Finds core owner w found h =
      let read_answer =
        λ (resp : Json). lift {W = World} (process_get_program_accounts_resp keys texts resp) in
      returned
        (build_get_program_accounts_args keys texts (public_key_of keys core.state)
          core.state.program_id owner recent)
        (λ args. ◌then◌ (get_program_accounts args) read_answer) w h.args h.asked
      ∙ returns (get_program_accounts h.args) read_answer w w _ h.answers
      ∙ ap (λ r. (r, w)) (process_get_program_accounts_resp-found_answer keys texts found h.fit)

  -- If the server has the account of an event queue, whose slots and header fit their layouts, with any
  -- padding, then `load_event_queue` returns the events in the slots that its header counts, oldest
  -- first, and `load_fills`, with a limit above 0, the fills that paid something among the newest slots
  -- of the ring, at most as many as the limit, newest first, or, with a negative limit, none; all raise
  -- if not both the flags "initialized" and "event_queue" are set.
  pub load_event_queue-load_fills :
      (core : MarketCore PublicKey) (w : World) (padding : QueueHeaderPadding)
      (header : QueueHeaderContainer) (slots : List EventSlot) (tail : Bytes) (n : ℕ)
      → RingFits EventSlotFits 88 header slots tail
      → Serves keys texts client w
          (event_queue keys core.state)
          (encode_queue encode_event padding header slots tail)
      → (load_event_queue packages core w ≡ (
        (if header.account_flags.initialized && header.account_flags.event_queue
            then ok (map (event_in keys) (selected header slots none))
            else err invalid_event_queue),
        w,
      ))
        × (load_fills packages core (pos (suc n)) w ≡ (
          (if header.account_flags.initialized && header.account_flags.event_queue
              then map_result (fill_in packages core) (
                  filter
                    (was_paid packages)
                    (map (event_in keys) (selected header slots (some (suc n)))))
              else err invalid_event_queue),
          w,
        ))
        × (load_fills packages core (negsuc n) w ≡ (
          (if header.account_flags.initialized && header.account_flags.event_queue
              then ok []
              else err invalid_event_queue),
          w,
        ))
  unfolding load_event_queue load_fills
  load_event_queue-load_fills core w padding header slots tail n fits served =
      let load = load_bytes_data keys texts client (event_queue keys core.state) in
      let loaded =
        load_bytes_data-Serves keys texts client w (event_queue keys core.state) _ served in
      let fills = parse_fills-encode packages core padding header slots tail n fits in
      (
        returns load (λ b. lift {W = World} (decode_event_queue keys b none)) w w _ loaded
            ∙ ap (λ r. (r, w)) (decode_event_queue-encode keys padding header slots tail n fits).0,
        returns load (λ b. lift {W = World} (parse_fills packages core b (pos (suc n)))) w w _
              loaded
            ∙ ap (λ r. (r, w)) fills.0,
        returns load (λ b. lift {W = World} (parse_fills packages core b (negsuc n))) w w _ loaded
            ∙ ap (λ r. (r, w)) fills.1,
      )
