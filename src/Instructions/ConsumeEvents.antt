-- ===== src/Instructions/ConsumeEvents.antt =====
-- Building and decoding the instruction of pyserum/instructions.py that consumes events. Its accounts
-- are any number of open orders accounts, then the market and the event queue.
use pyserum.Base.{
  ℕ, suc, ◌-◌, ◌^◌, ◌<◌, ◌≡◌, refl, ap, true, false, some, List, [], ◌∷◌, ◌++◌, map, length, take,
  get_elem?, or_raise, length-append, take-append, Result, ok, ◌>>=◌, attribute_error, arith,
}
use pyserum.Construct.{Construct}
use pyserum.Construct.RoundTrips.{uint-RoundTrips}
use pyserum.Solana.{PublicKeys, Programs, AccountMeta, TransactionInstruction, meta}
use pyserum.Instructions.Layout.{
  args_layout, consume_events_args, as_consume_events, consume_events_layout,
}
use pyserum.Instructions.Build.{consume_events_type, instruct}
use pyserum.Instructions.Decode.{parse_and_validate_instruction, key_at}
use pyserum.Instructions.Data.{choice-RoundTrips, instruct-parses}

pub record ConsumeEventsParams (Key : Type 0) : Type 0 where
  pub market : Key
  pub event_queue : Key
  pub open_orders_accounts : List Key
  pub limit : ℕ
  pub program_id : Key

abbrev writable : {Key : Type 0} → Key → AccountMeta Key
writable pubkey = meta pubkey false true

abbrev pubkey_of : {Key : Type 0} → AccountMeta Key → Key
pubkey_of account = account.pubkey

pubkeys-writable : {Key : Type 0} (ks : List Key) → map pubkey_of (map writable ks) ≡ ks
pubkeys-writable [] = refl
pubkeys-writable (x ∷ ks) = ap (λ (l : List _). x ∷ l) (pubkeys-writable ks)

map-append_two :
    {A B : Type 0} (f : A → B) (xs : List A) (y z : A)
    → map f (xs ++ y ∷ z ∷ []) ≡ map f xs ++ f y ∷ f z ∷ []
map-append_two f [] y z = refl
map-append_two f (x ∷ xs) y z = ap (λ (l : List _). f x ∷ l) (map-append_two f xs y z)

get_elem?-append_first :
    {A : Type 0} (xs : List A) (y z : A) → get_elem? (xs ++ y ∷ z ∷ []) (length xs) ≡ some y
get_elem?-append_first [] y z = refl
get_elem?-append_first (x ∷ xs) y z = get_elem?-append_first xs y z

get_elem?-append_second :
    {A : Type 0} (xs : List A) (y z : A) → get_elem? (xs ++ y ∷ z ∷ []) (suc (length xs)) ≡ some z
get_elem?-append_second [] y z = refl
get_elem?-append_second (x ∷ xs) y z = get_elem?-append_second xs y z

module _ (keys : PublicKeys) (programs : Programs keys) ⦃lib : Construct⦄ where
  open keys use {PublicKey}

  unfoldable pub consume_events :
      ConsumeEventsParams PublicKey → Result (TransactionInstruction PublicKey)
  unfolding instruct
  consume_events params =
      instruct keys programs consume_events_type (consume_events_args params.limit)
        params.program_id
        (map writable (params.open_orders_accounts ++ params.market ∷ params.event_queue ∷ []))

  -- The slice [:-2] and the indices -2 and -1 count from the end of at least two keys.
  unfoldable pub decode_consume_events :
      TransactionInstruction PublicKey → Result (ConsumeEventsParams PublicKey)
  unfolding parse_and_validate_instruction
  decode_consume_events instruction = do
    args ← parse_and_validate_instruction keys programs instruction consume_events_type
    let n = length instruction.keys
    market ← key_at keys programs instruction (n - 2)
    event_queue ← key_at keys programs instruction (n - 1)
    limit ← or_raise (as_consume_events args) attribute_error
    ok (record {
      market = market;
      event_queue = event_queue;
      open_orders_accounts = map pubkey_of (take (n - 2) instruction.keys);
      limit = limit;
      program_id = programs.default_dex_program;
    })

  -- From parameters whose limit fits its field `consume_events` builds an instruction, and decoding
  -- it gives the parameters back, with all the open orders accounts in their order, but for the
  -- program, which is the default one.
  pub decode_consume_events-consume_events :
      (params : ConsumeEventsParams PublicKey)
      → params.limit < 256 ^ 2
      → (consume_events params >>= decode_consume_events)
        ≡ ok (record {
          market = params.market;
          event_queue = params.event_queue;
          open_orders_accounts = params.open_orders_accounts;
          limit = params.limit;
          program_id = programs.default_dex_program;
        })
  unfolding consume_events decode_consume_events args_layout consume_events_layout
  decode_consume_events-consume_events params h =
      let front = map writable params.open_orders_accounts in
      let accounts = front ++ writable params.market ∷ writable params.event_queue ∷ [] in
      let two : length accounts ≡ suc (suc (length front)) =
        omega (
          arith,
          length-append front (writable params.market ∷ writable params.event_queue ∷ []),
        ) in
      let (data', built, parsed) =
        instruct-parses keys programs consume_events_type _ params.program_id accounts
          (choice-RoundTrips consume_events_args as_consume_events refl
            (uint-RoundTrips 2 params.limit h))
          (omega (arith, two)) in
      let minus_two : length accounts - 2 ≡ length front = omega (arith, two) in
      let minus_one : length accounts - 1 ≡ suc (length front) = omega (arith, two) in
      rw
        (
          map-append_two writable params.open_orders_accounts params.market params.event_queue,
          built,
          parsed,
          minus_two,
          minus_one,
          get_elem?-append_first front (writable params.market) (writable params.event_queue),
          get_elem?-append_second front (writable params.market) (writable params.event_queue),
          take-append front (writable params.market ∷ writable params.event_queue ∷ []),
          pubkeys-writable params.open_orders_accounts,
        )
        refl
