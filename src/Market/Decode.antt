-- ===== src/Market/Decode.antt =====
-- Which accounts are accepted as a market.
use pyserum.Base.{ℕ, ◌≡◌, ◌++◌, ◌&&◌, ok, err, invalid_market, if◌then◌else◌, unless_both, Bool}
use pyserum.Base.Bytes.{Bytes}
use pyserum.Construct.{Construct}
use pyserum.Layouts.Market.{MarketContainer}
use pyserum.Layouts.MarketEncoding.{
  MarketPadding, MarketContainerFits, encode_market, market_layout-Parses,
}
use pyserum.Market.State.{make_parsed_market, from_bytes}

-- The flags by which an account says that it is a market in use.
abbrev pub is_market : MarketContainer → Bool
is_market m = m.account_flags.initialized && m.account_flags.market

-- From an account that encodes the fields of a market, with any padding and followed by any bytes, the state that both
-- ways of loading decode has those fields, and the program and decimals that were given, if both the
-- flags "initialized" and "market" are set; else both raise "Invalid market".
pub from_bytes-encode_market :
    ⦃lib : Construct⦄ {Key : Type 0} (padding : MarketPadding) (m : MarketContainer)
    (program_id : Key) (base_mint_decimals quote_mint_decimals : ℕ) (rest : Bytes)
    → MarketContainerFits m
    → (make_parsed_market (encode_market padding m ++ rest)
        ≡ (if is_market m then ok m else err invalid_market))
      × (from_bytes program_id base_mint_decimals quote_mint_decimals
            (encode_market padding m ++ rest)
          ≡ (if is_market m
              then ok (record {
                decoded = m;
                program_id = program_id;
                base_mint_decimals = base_mint_decimals;
                quote_mint_decimals = quote_mint_decimals;
              })
              else err invalid_market))
unfolding make_parsed_market from_bytes
from_bytes-encode_market padding m program_id base_mint_decimals quote_mint_decimals rest h =
    rw ((market_layout-Parses padding m h).run rest) (
      unless_both m.account_flags.initialized m.account_flags.market _ _,
      unless_both m.account_flags.initialized m.account_flags.market _ _,
    )
