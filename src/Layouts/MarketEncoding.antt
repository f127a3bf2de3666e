-- ===== src/Layouts/MarketEncoding.antt =====
-- Encodings that the layouts of pyserum/_layouts/market.py parse, and their sizes.
use pyserum.Base.{◌^◌, ◌<◌, ◌≡◌, ◌++◌, length, ℕ}
use pyserum.Base.Bytes.{Bytes, low_bytes}
use pyserum.Construct.{Construct}
use pyserum.Construct.Parses.{Parses, ◌⨟ₚ◌, named-Parses, uint-Parses, bytes-Parses, filler-Parses}
use pyserum.Construct.Sizes.{
  HasSize, ◌⨟ₛ◌, named-HasSize, uint-HasSize, bytes-HasSize, padding-HasSize,
}
use pyserum.Layouts.AccountFlags.{
  encode_flags, account_flags_layout-Parses, account_flags_layout-HasSize,
}
use pyserum.Layouts.Market.{
  MarketContainer, market_of, market_members, market_layout, MintContainer, mint_of, mint_members,
  mint_layout,
}

-- The values that the layout MARKET_LAYOUT can hold.
pub record MarketContainerFits (x : MarketContainer) : Type 0 where
  pub own_address : length x.own_address ≡ 32
  pub vault_signer_nonce : x.vault_signer_nonce < 256 ^ 8
  pub base_mint : length x.base_mint ≡ 32
  pub quote_mint : length x.quote_mint ≡ 32
  pub base_vault : length x.base_vault ≡ 32
  pub base_deposits_total : x.base_deposits_total < 256 ^ 8
  pub base_fees_accrued : x.base_fees_accrued < 256 ^ 8
  pub quote_vault : length x.quote_vault ≡ 32
  pub quote_deposits_total : x.quote_deposits_total < 256 ^ 8
  pub quote_fees_accrued : x.quote_fees_accrued < 256 ^ 8
  pub quote_dust_threshold : x.quote_dust_threshold < 256 ^ 8
  pub request_queue : length x.request_queue ≡ 32
  pub event_queue : length x.event_queue ≡ 32
  pub bids : length x.bids ≡ 32
  pub asks : length x.asks ≡ 32
  pub base_lot_size : x.base_lot_size < 256 ^ 8
  pub quote_lot_size : x.quote_lot_size < 256 ^ 8
  pub fee_rate_bps : x.fee_rate_bps < 256 ^ 8
  pub referrer_rebate_accrued : x.referrer_rebate_accrued < 256 ^ 8

-- The bytes of the paddings of a market's account, as numbers.
pub record MarketPadding : Type 0 where
  pub start : ℕ
  pub at_end : ℕ

unfoldable pub encode_market : MarketPadding → MarketContainer → Bytes
encode_market padding x =
    low_bytes 5 padding.start
    ++ (encode_flags x.account_flags
        ++ (x.own_address
            ++ (low_bytes 8 x.vault_signer_nonce
                ++ (x.base_mint
                    ++ (x.quote_mint
                        ++ (x.base_vault
                            ++ (low_bytes 8 x.base_deposits_total
                                ++ (low_bytes 8 x.base_fees_accrued
                                    ++ (x.quote_vault
                                        ++ (low_bytes 8 x.quote_deposits_total
                                            ++ (low_bytes 8 x.quote_fees_accrued
                                                ++ (low_bytes 8 x.quote_dust_threshold
                                                    ++ (x.request_queue
                                                        ++ (x.event_queue
                                                            ++ (x.bids
                                                            ++ (x.asks
                                                            ++ (low_bytes 8 x.base_lot_size
                                                            ++ (low_bytes 8 x.quote_lot_size
                                                            ++ (low_bytes 8 x.fee_rate_bps
                                                            ++ (low_bytes 8
                                                            x.referrer_rebate_accrued
                                                            ++ low_bytes 7
                                                            padding.at_end))))))))))))))))))))

pub market_layout-Parses :
    ⦃lib : Construct⦄ (padding : MarketPadding) (x : MarketContainer)
    → MarketContainerFits x
    → Parses market_layout (encode_market padding x) x
unfolding market_layout encode_market
market_layout-Parses padding x h = named-Parses market_of market_members (
    filler-Parses 5 padding.start
    ⨟ₚ account_flags_layout-Parses x.account_flags
    ⨟ₚ bytes-Parses 32 x.own_address h.own_address
    ⨟ₚ uint-Parses 8 x.vault_signer_nonce h.vault_signer_nonce
    ⨟ₚ bytes-Parses 32 x.base_mint h.base_mint
    ⨟ₚ bytes-Parses 32 x.quote_mint h.quote_mint
    ⨟ₚ bytes-Parses 32 x.base_vault h.base_vault
    ⨟ₚ uint-Parses 8 x.base_deposits_total h.base_deposits_total
    ⨟ₚ uint-Parses 8 x.base_fees_accrued h.base_fees_accrued
    ⨟ₚ bytes-Parses 32 x.quote_vault h.quote_vault
    ⨟ₚ uint-Parses 8 x.quote_deposits_total h.quote_deposits_total
    ⨟ₚ uint-Parses 8 x.quote_fees_accrued h.quote_fees_accrued
    ⨟ₚ uint-Parses 8 x.quote_dust_threshold h.quote_dust_threshold
    ⨟ₚ bytes-Parses 32 x.request_queue h.request_queue
    ⨟ₚ bytes-Parses 32 x.event_queue h.event_queue
    ⨟ₚ bytes-Parses 32 x.bids h.bids
    ⨟ₚ bytes-Parses 32 x.asks h.asks
    ⨟ₚ uint-Parses 8 x.base_lot_size h.base_lot_size
    ⨟ₚ uint-Parses 8 x.quote_lot_size h.quote_lot_size
    ⨟ₚ uint-Parses 8 x.fee_rate_bps h.fee_rate_bps
    ⨟ₚ uint-Parses 8 x.referrer_rebate_accrued h.referrer_rebate_accrued
    ⨟ₚ filler-Parses 7 padding.at_end)

pub market_layout-HasSize : ⦃lib : Construct⦄ → HasSize market_layout 388
unfolding market_layout
market_layout-HasSize = named-HasSize market_of market_members (
    padding-HasSize 5
    ⨟ₛ account_flags_layout-HasSize
    ⨟ₛ bytes-HasSize 32
    ⨟ₛ uint-HasSize 8
    ⨟ₛ bytes-HasSize 32
    ⨟ₛ bytes-HasSize 32
    ⨟ₛ bytes-HasSize 32
    ⨟ₛ uint-HasSize 8
    ⨟ₛ uint-HasSize 8
    ⨟ₛ bytes-HasSize 32
    ⨟ₛ uint-HasSize 8
    ⨟ₛ uint-HasSize 8
    ⨟ₛ uint-HasSize 8
    ⨟ₛ bytes-HasSize 32
    ⨟ₛ bytes-HasSize 32
    ⨟ₛ bytes-HasSize 32
    ⨟ₛ bytes-HasSize 32
    ⨟ₛ uint-HasSize 8
    ⨟ₛ uint-HasSize 8
    ⨟ₛ uint-HasSize 8
    ⨟ₛ uint-HasSize 8
    ⨟ₛ padding-HasSize 7)

-- The values that the layout MINT_LAYOUT can hold.
pub record MintContainerFits (x : MintContainer) : Type 0 where
  pub decimals : x.decimals < 256 ^ 1

-- What stands before and behind the decimals of a mint, as numbers.
pub record MintPadding : Type 0 where
  pub before : ℕ
  pub behind : ℕ

unfoldable pub encode_mint : MintPadding → MintContainer → Bytes
encode_mint padding x =
    low_bytes 44 padding.before ++ (low_bytes 1 x.decimals ++ low_bytes 37 padding.behind)

pub mint_layout-Parses :
    ⦃lib : Construct⦄ (padding : MintPadding) (x : MintContainer)
    → MintContainerFits x
    → Parses mint_layout (encode_mint padding x) x
unfolding mint_layout encode_mint
mint_layout-Parses padding x h = named-Parses mint_of mint_members (
    filler-Parses 44 padding.before
    ⨟ₚ uint-Parses 1 x.decimals h.decimals
    ⨟ₚ filler-Parses 37 padding.behind)

pub mint_layout-HasSize : ⦃lib : Construct⦄ → HasSize mint_layout 82
unfolding mint_layout
mint_layout-HasSize =
    named-HasSize mint_of mint_members (padding-HasSize 44 ⨟ₛ uint-HasSize 1 ⨟ₛ padding-HasSize 37)
