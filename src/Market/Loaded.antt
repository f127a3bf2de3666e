-- ===== src/Market/Loaded.antt =====
-- What loading a market's state from a server gives.
use pyserum.Base.{ℕ, ◌≡◌, refl, ap, ◌∙◌, true, false, ◌++◌, ok, sym}
use pyserum.Base.Bytes.{Bytes}
use pyserum.Construct.{Construct}
use pyserum.Solana.{PublicKeys}
use pyserum.Layouts.Market.{MarketContainer, MintContainer}
use pyserum.Layouts.MarketEncoding.{
  MarketPadding, MintPadding, MarketContainerFits, encode_market, MintContainerFits, encode_mint,
  mint_layout-Parses,
}
use pyserum.Net.Action.{lift, ◌>>=◌}
use pyserum.Net.Answers.{Serves, load_bytes_data-Serves}
use pyserum.Net.Client.{Texts, Client}
use pyserum.Net.Fetch.{load_bytes_data, get_mint_decimals}
use pyserum.Net.Steps.{returns, returned}
use pyserum.Net.Utils.{parse_mint_decimals}
use pyserum.Market.State.{make_parsed_market, from_bytes}
use pyserum.Market.Decode.{is_market, from_bytes-encode_market}
use pyserum.Market.Load.{load}

pub parse_mint_decimals-encode_mint :
    ⦃lib : Construct⦄ (padding : MintPadding) (mint : MintContainer) (rest : Bytes)
    → MintContainerFits mint
    → parse_mint_decimals (encode_mint padding mint ++ rest) ≡ ok mint.decimals
unfolding parse_mint_decimals
parse_mint_decimals-encode_mint padding mint rest h =
    rw ((mint_layout-Parses padding mint h).run rest) refl

module _ (keys : PublicKeys) (texts : Texts keys) (client : Client keys) ⦃lib : Construct⦄
    (wrapped_sol_mint : keys.PublicKey) where
  open keys use {PublicKey, public_key, same_key}
  open client use {World}

  -- A mint's decimals: 9 for wrapped SOL, else what the mint's account on the server says.
  pub data HasDecimals (w : World) (mint : PublicKey) : ℕ → Type 0 where
    wrapped_sol : same_key mint wrapped_sol_mint ≡ true → HasDecimals w mint 9
    other_mint :
        (padding : MintPadding) (container : MintContainer) (rest : Bytes)
        → same_key mint wrapped_sol_mint ≡ false
        → MintContainerFits container
        → Serves keys texts client w mint (encode_mint padding container ++ rest)
        → HasDecimals w mint container.decimals

  get_mint_decimals-HasDecimals :
      (w : World) (mint : PublicKey) (decimals : ℕ)
      → HasDecimals w mint decimals
      → get_mint_decimals keys texts client wrapped_sol_mint mint w ≡ (ok decimals, w)
  unfolding get_mint_decimals
  get_mint_decimals-HasDecimals w mint _ (wrapped_sol same) = rw same refl
  get_mint_decimals-HasDecimals w mint _ (other_mint padding container rest other fits served) =
      rw other (
        returns (load_bytes_data keys texts client mint) (λ b. lift (parse_mint_decimals b)) w w _
          (load_bytes_data-Serves keys texts client w mint _ served)
        ∙ ap (λ r. (r, w)) (parse_mint_decimals-encode_mint padding container rest fits))

  -- If the server has the account of a market in use, with any padding, and those of its two mints, with
  -- any bytes before and behind the decimals, where a mint is not wrapped SOL, then loading
  -- returns the state that `from_bytes` decodes from the account with those decimals, whose fields are
  -- the account's.
  pub load-from_bytes :
      (w : World) (market_address program_id : PublicKey) (padding : MarketPadding)
      (m : MarketContainer) (rest : Bytes) (base_decimals quote_decimals : ℕ)
      → MarketContainerFits m
      → is_market m ≡ true
      → Serves keys texts client w market_address (encode_market padding m ++ rest)
      → HasDecimals w (public_key m.base_mint) base_decimals
      → HasDecimals w (public_key m.quote_mint) quote_decimals
      → (load keys texts client wrapped_sol_mint market_address program_id w ≡ (
        from_bytes program_id base_decimals quote_decimals (encode_market padding m ++ rest),
        w,
      ))
        × (load keys texts client wrapped_sol_mint market_address program_id w ≡ (
          ok (record {
            decoded = m;
            program_id = program_id;
            base_mint_decimals = base_decimals;
            quote_mint_decimals = quote_decimals;
          }),
          w,
        ))
  unfolding load
  load-from_bytes w address program_id padding m rest base quote fits market served of_base
        of_quote =
      let (parsed, decoded) = from_bytes-encode_market padding m program_id base quote rest fits in
      let decimals =
        λ (mint : PublicKey). get_mint_decimals keys texts client wrapped_sol_mint mint in
      let finish = λ (base_decimals quote_decimals : ℕ). lift {W = World} (
        ok (record {
          decoded = m;
          program_id = program_id;
          base_mint_decimals = base_decimals;
          quote_mint_decimals = quote_decimals;
        })) in
      let rest_of = λ (parsed_market : MarketContainer).
        decimals (public_key parsed_market.base_mint) >>= λ base_decimals.
        decimals (public_key parsed_market.quote_mint) >>= λ quote_decimals. lift {W = World} (
          ok (record {
            decoded = parsed_market;
            program_id = program_id;
            base_mint_decimals = base_decimals;
            quote_mint_decimals = quote_decimals;
          })) in
      let loaded =
        returns (load_bytes_data keys texts client address)
          (λ b. lift (make_parsed_market b) >>= rest_of) w w _
          (load_bytes_data-Serves keys texts client w address _ served)
        ∙ returned (make_parsed_market (encode_market padding m ++ rest)) rest_of w m
            (parsed ∙ rw market refl)
        ∙ returns (decimals (public_key m.base_mint))
            (λ b. decimals (public_key m.quote_mint) >>= finish b) w w base
            (get_mint_decimals-HasDecimals w (public_key m.base_mint) base of_base)
        ∙ returns (decimals (public_key m.quote_mint)) (finish base) w w quote
            (get_mint_decimals-HasDecimals w (public_key m.quote_mint) quote of_quote) in
      (loaded ∙ ap (λ r. (r, w)) (sym (decoded ∙ rw market refl)), loaded)
