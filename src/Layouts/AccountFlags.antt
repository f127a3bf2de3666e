-- ===== src/Layouts/AccountFlags.antt =====
-- pyserum/_layouts/account_flags.py, and the AccountFlags of pyserum/market/types.py.
use pyserum.Base.{length, append-nil, ◌≡◌, refl, Bool, false, [], ◌∷◌, ◌>>=◌, replicate, Result, ok}
use pyserum.Base.Bytes.{Bytes}
use pyserum.Construct.{Codec, Construct, named, flag, ◌⨟◌}
use pyserum.Construct.Flags.{flag_byte, bit-Parses, stream-flag_byte}
use pyserum.Construct.Sizes.{
  HasSize, ◌⨟ₛ◌, named-HasSize, flag-HasSize, zero_bits-HasSize, flags-HasSize,
}
use pyserum.Construct.Parses.{Parses, ◌⨟ₚ◌, named-Parses, flags-Parses, zero_bits-Parses}

-- The named fields that the layout parses.
pub record AccountFlags : Type 0 where
  pub initialized : Bool
  pub market : Bool
  pub open_orders : Bool
  pub request_queue : Bool
  pub event_queue : Bool
  pub bids : Bool
  pub asks : Bool

abbrev Members : Type 0
Members = Bool × (Bool × (Bool × (Bool × (Bool × (Bool × (Bool × Unit {0}))))))

abbrev of_members : Members → AccountFlags
of_members (a, (b, (c, (d, (e, (f, (g, _))))))) = record {
  initialized = a;
  market = b;
  open_orders = c;
  request_queue = d;
  event_queue = e;
  bids = f;
  asks = g;
}

abbrev members : AccountFlags → Members
members x = (
  x.initialized,
  (x.market, (x.open_orders, (x.request_queue, (x.event_queue, (x.bids, (x.asks, tt)))))),
)

module _ ⦃lib : Construct⦄ where
  -- The members of the BitStruct, the last one the padding.
  abbrev account_flags_members : Codec Members
  account_flags_members =
      flag ⨟ flag ⨟ flag ⨟ flag ⨟ flag ⨟ flag ⨟ flag ⨟ lib.const 0 (lib.bits_integer 57)

  -- ACCOUNT_FLAGS_LAYOUT
  unfoldable pub account_flags_layout : Codec AccountFlags
  account_flags_layout = named of_members members (
      lib.bits_swapped (
        lib.bit_struct
          (flag ⨟ flag ⨟ flag ⨟ flag ⨟ flag ⨟ flag ⨟ flag ⨟ lib.const 0 (lib.bits_integer 57))))

  -- AccountFlags.from_bytes
  unfoldable pub from_bytes : Bytes → Result AccountFlags
  from_bytes buffer = do (con, rest) ← account_flags_layout.parse buffer; ok con

-- The lowest byte holds the flags, the first one lowest; the other seven are zero.
unfoldable pub encode_flags : AccountFlags → Bytes
encode_flags x =
    flag_byte x.initialized x.market x.open_orders x.request_queue x.event_queue x.bids x.asks false
    ∷ replicate 7 0

pub length-encode_flags : (x : AccountFlags) → length (encode_flags x) ≡ 8
unfolding encode_flags
length-encode_flags x = refl

module _ ⦃lib : Construct⦄ where
  members-HasSize : HasSize account_flags_members 64
  members-HasSize =
      flag-HasSize
      ⨟ₛ flag-HasSize
      ⨟ₛ flag-HasSize
      ⨟ₛ flag-HasSize
      ⨟ₛ flag-HasSize
      ⨟ₛ flag-HasSize
      ⨟ₛ flag-HasSize
      ⨟ₛ zero_bits-HasSize 57

  pub account_flags_layout-HasSize : HasSize account_flags_layout 8
  unfolding account_flags_layout
  account_flags_layout-HasSize = named-HasSize of_members members (flags-HasSize 8 members-HasSize)

  pub account_flags_layout-Parses :
      (x : AccountFlags) → Parses account_flags_layout (encode_flags x) x
  unfolding account_flags_layout encode_flags
  account_flags_layout-Parses x = named-Parses of_members members (
      flags-Parses _ members-HasSize.run
        (stream-flag_byte x.initialized x.market x.open_orders x.request_queue x.event_queue x.bids
          x.asks false (replicate 7 0))
        (bit-Parses x.initialized
          ⨟ₚ bit-Parses x.market
          ⨟ₚ bit-Parses x.open_orders
          ⨟ₚ bit-Parses x.request_queue
          ⨟ₚ bit-Parses x.event_queue
          ⨟ₚ bit-Parses x.bids
          ⨟ₚ bit-Parses x.asks
          ⨟ₚ zero_bits-Parses 57 refl))

  pub from_bytes-encode_flags : (x : AccountFlags) → from_bytes (encode_flags x) ≡ ok x
  unfolding from_bytes
  from_bytes-encode_flags x = rw (rw append-nil at ((account_flags_layout-Parses x).run [])) refl
