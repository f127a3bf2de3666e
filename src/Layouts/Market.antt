-- ===== src/Layouts/Market.antt =====
-- pyserum/_layouts/market.py
use pyserum.Base.{ℕ}
use pyserum.Base.Bytes.{Bytes}
use pyserum.Construct.{Codec, Construct, named, int8ul, int64ul, bytes, padding, ◌⨟◌}
use pyserum.Layouts.AccountFlags.{AccountFlags, account_flags_layout}

-- A parsed MARKET_LAYOUT.
pub record MarketContainer : Type 0 where
  pub account_flags : AccountFlags
  pub own_address : Bytes
  pub vault_signer_nonce : ℕ
  pub base_mint : Bytes
  pub quote_mint : Bytes
  pub base_vault : Bytes
  pub base_deposits_total : ℕ
  pub base_fees_accrued : ℕ
  pub quote_vault : Bytes
  pub quote_deposits_total : ℕ
  pub quote_fees_accrued : ℕ
  pub quote_dust_threshold : ℕ
  pub request_queue : Bytes
  pub event_queue : Bytes
  pub bids : Bytes
  pub asks : Bytes
  pub base_lot_size : ℕ
  pub quote_lot_size : ℕ
  pub fee_rate_bps : ℕ
  pub referrer_rebate_accrued : ℕ

abbrev pub market_of :
    Unit {0}
      × (AccountFlags
          × (Bytes
              × (ℕ
                  × (Bytes
                      × (Bytes
                          × (Bytes
                              × (ℕ
                                  × (ℕ
                                      × (Bytes
                                          × (ℕ
                                              × (ℕ
                                                  × (ℕ
                                                      × (Bytes
                                                          × (Bytes
                                                            × (Bytes
                                                            × (Bytes
                                                            × (ℕ
                                                            × (ℕ
                                                            × (ℕ × (ℕ × Unit {0}))))))))))))))))))))
    → MarketContainer
market_of
      (
        _,
        (
          account_flags,
          (
            own_address,
            (
              vault_signer_nonce,
              (
                base_mint,
                (
                  quote_mint,
                  (
                    base_vault,
                    (
                      base_deposits_total,
                      (
                        base_fees_accrued,
                        (
                          quote_vault,
                          (
                            quote_deposits_total,
                            (
                              quote_fees_accrued,
                              (
                                quote_dust_threshold,
                                (
                                  request_queue,
                                  (
                                    event_queue,
                                    (
                                      bids,
                                      (
                                        asks,
                                        (
                                          base_lot_size,
                                          (
                                            quote_lot_size,
                                            (fee_rate_bps, (referrer_rebate_accrued, _)),
                                          ),
                                        ),
                                      ),
                                    ),
                                  ),
                                ),
                              ),
                            ),
                          ),
                        ),
                      ),
                    ),
                  ),
                ),
              ),
            ),
          ),
        ),
      ) =
    record {
      account_flags = account_flags;
      own_address = own_address;
      vault_signer_nonce = vault_signer_nonce;
      base_mint = base_mint;
      quote_mint = quote_mint;
      base_vault = base_vault;
      base_deposits_total = base_deposits_total;
      base_fees_accrued = base_fees_accrued;
      quote_vault = quote_vault;
      quote_deposits_total = quote_deposits_total;
      quote_fees_accrued = quote_fees_accrued;
      quote_dust_threshold = quote_dust_threshold;
      request_queue = request_queue;
      event_queue = event_queue;
      bids = bids;
      asks = asks;
      base_lot_size = base_lot_size;
      quote_lot_size = quote_lot_size;
      fee_rate_bps = fee_rate_bps;
      referrer_rebate_accrued = referrer_rebate_accrued;
    }

abbrev pub market_members :
    MarketContainer
    → Unit {0}
      × (AccountFlags
          × (Bytes
              × (ℕ
                  × (Bytes
                      × (Bytes
                          × (Bytes
                              × (ℕ
                                  × (ℕ
                                      × (Bytes
                                          × (ℕ
                                              × (ℕ
                                                  × (ℕ
                                                      × (Bytes
                                                          × (Bytes
                                                            × (Bytes
                                                            × (Bytes
                                                            × (ℕ
                                                            × (ℕ
                                                            × (ℕ × (ℕ × Unit {0}))))))))))))))))))))
market_members x = (
  tt,
  (
    x.account_flags,
    (
      x.own_address,
      (
        x.vault_signer_nonce,
        (
          x.base_mint,
          (
            x.quote_mint,
            (
              x.base_vault,
              (
                x.base_deposits_total,
                (
                  x.base_fees_accrued,
                  (
                    x.quote_vault,
                    (
                      x.quote_deposits_total,
                      (
                        x.quote_fees_accrued,
                        (
                          x.quote_dust_threshold,
                          (
                            x.request_queue,
                            (
                              x.event_queue,
                              (
                                x.bids,
                                (
                                  x.asks,
                                  (
                                    x.base_lot_size,
                                    (
                                      x.quote_lot_size,
                                      (x.fee_rate_bps, (x.referrer_rebate_accrued, tt)),
                                    ),
                                  ),
                                ),
                              ),
                            ),
                          ),
                        ),
                      ),
                    ),
                  ),
                ),
              ),
            ),
          ),
        ),
      ),
    ),
  ),
)

-- A parsed MINT_LAYOUT.
pub record MintContainer : Type 0 where
  pub decimals : ℕ

abbrev pub mint_of : Unit {0} × (ℕ × Unit {0}) → MintContainer
mint_of (_, (decimals, _)) = record { decimals = decimals }

abbrev pub mint_members : MintContainer → Unit {0} × (ℕ × Unit {0})
mint_members x = (tt, (x.decimals, tt))

module _ ⦃lib : Construct⦄ where
  -- MARKET_LAYOUT
  unfoldable pub market_layout : Codec MarketContainer
  market_layout = named market_of market_members (
      padding 5
      ⨟ account_flags_layout
      ⨟ bytes 32
      ⨟ int64ul
      ⨟ bytes 32
      ⨟ bytes 32
      ⨟ bytes 32
      ⨟ int64ul
      ⨟ int64ul
      ⨟ bytes 32
      ⨟ int64ul
      ⨟ int64ul
      ⨟ int64ul
      ⨟ bytes 32
      ⨟ bytes 32
      ⨟ bytes 32
      ⨟ bytes 32
      ⨟ int64ul
      ⨟ int64ul
      ⨟ int64ul
      ⨟ int64ul
      ⨟ padding 7)

  -- MINT_LAYOUT
  unfoldable pub mint_layout : Codec MintContainer
  mint_layout = named mint_of mint_members (padding 44 ⨟ int8ul ⨟ padding 37)
