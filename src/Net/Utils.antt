-- ===== src/Net/Utils.antt =====
-- The functions of pyserum/utils.py that parse what a server answered.
use pyserum.Base.{
  ℕ, Bool, false, Result, ok, err, cannot_load_data, attribute_error, ◌>>=◌, if◌then◌else◌,
}
use pyserum.Base.Bytes.{Bytes}
use pyserum.Construct.{Construct}
use pyserum.Solana.{PublicKeys}
use pyserum.Layouts.Market.{mint_layout}
use pyserum.Net.Json.{Json, string, contains, get, first}
use pyserum.Net.Client.{Texts}

-- The `in` tests of parse_bytes_data, each of which is made only where the ones before it hold.
unfoldable pub has_bytes : Json → Result Bool
has_bytes res = do
  has_result ← contains "result" res
  let rest = do
    result ← get "result" res
    has_value ← contains "value" result
    let last = do value ← get "value" result; contains "data" value
    if has_value then last else ok false
  if has_result then rest else ok false

module _ (keys : PublicKeys) (texts : Texts keys) where
  -- text.encode("ascii"), decoded
  unfoldable pub decode_text : Json → Result Bytes
  decode_text (string s) = texts.read_base64 s
  decode_text _ = err attribute_error

  unfoldable pub parse_bytes_data : Json → Result Bytes
  unfolding has_bytes decode_text
  parse_bytes_data res = do
    loaded ← has_bytes res
    let data_bytes = do
      result ← get "result" res
      value ← get "value" result
      field ← get "data" value
      encoded ← first field
      decode_text encoded
    if loaded then data_bytes else err cannot_load_data

unfoldable pub parse_mint_decimals : ⦃lib : Construct⦄ → Bytes → Result ℕ
parse_mint_decimals bytes_data = do (mint, rest) ← mint_layout.parse bytes_data; ok mint.decimals
