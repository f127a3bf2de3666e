-- ===== src/Net/Answers.antt =====
-- The answers of a server about one account, and what pyserum/utils.py reads from them.
use Prim.Native.String.{String}
use text.Mathlib.Text.{◌==◌ as ◌is◌}
use pyserum.Base.{
  Bool, true, false, ◌||◌, Option, none, some, or_raise, key_error, Result, if◌then◌else◌, ◌≡◌,
  refl, ap, ◌∙◌, [], ◌∷◌, ok, err, type_error, cannot_load_data,
}
use pyserum.Base.Bytes.{Bytes}
use pyserum.Solana.{PublicKeys}
use pyserum.Net.Action.{lift}
use pyserum.Net.Json.{
  Json, null, string, array, object, Fields, Items, cons, end, field, list_of, has_field,
  find_field, contains, get, first,
}
use pyserum.Net.Client.{Texts, Client}
use pyserum.Net.Fetch.{load_bytes_data}
use pyserum.Net.Steps.{returns}
use pyserum.Net.Utils.{has_bytes, decode_text, parse_bytes_data}

-- The answer of get_account_info with some value, in some context, and the value of an account of
-- some bytes, with any other fields.
abbrev pub answer_with : Json → Json → Json
answer_with context value = object (
    field "jsonrpc" (string "2.0")
      (field "result" (object (field "context" context (field "value" value end))) end))

-- The value of the first field of a name; the names of a dictionary differ from each other.
abbrev pub field_of : String → Fields → Option Json
field_of key end = none
field_of key (field k v rest) = if k is key then some v else field_of key rest

abbrev is_given : Option Json → Bool
is_given none = false
is_given (some v) = true

has_field-field_of : (key : String) (fs : Fields) → has_field key fs ≡ is_given (field_of key fs)
unfolding has_field
has_field-field_of key end = refl
has_field-field_of key (field k v rest) =
    elim (k is key)
      as (λ same.
        (same || has_field key rest) ≡ is_given (if same then some v else field_of key rest)) [
          | true ↦ refl
          | false ↦ has_field-field_of key rest
        ]

find_field-field_of :
    (key : String) (fs : Fields) → find_field key fs ≡ or_raise (field_of key fs) key_error
unfolding find_field
find_field-field_of key end = refl
find_field-field_of key (field k v rest) =
    elim (k is key)
      as (λ same.
        (if same then ok v else find_field key rest)
        ≡ or_raise (if same then some v else field_of key rest) key_error) [
          | true ↦ refl
          | false ↦ find_field-field_of key rest
        ]

module _ (keys : PublicKeys) (texts : Texts keys) where
  open keys use {PublicKey}

  -- The data of an account, as the encoding "base64" gives it.
  abbrev pub encoded_data : Bytes → Json
  encoded_data b = array (list_of (string (texts.write_base64 b) ∷ string "base64" ∷ []))

  abbrev pub account_value : Bytes → Fields → Json
  account_value b others = object (field "data" (encoded_data b) others)

  -- What a server's answer, an object, says about one account: the bytes of the account, or that the
  -- data cannot be loaded, if one of the fields that lead to them is missing, or, if the value is
  -- null, as it is where there is no account, a TypeError.
  pub data Answers (fs : Fields) : Result Bytes → Type 0 where
    no_result : field_of "result" fs ≡ none → Answers fs (err cannot_load_data)
    no_value :
        (result : Fields)
        → field_of "result" fs ≡ some (object result)
        → field_of "value" result ≡ none
        → Answers fs (err cannot_load_data)
    no_data :
        (result value : Fields)
        → field_of "result" fs ≡ some (object result)
        → field_of "value" result ≡ some (object value)
        → field_of "data" value ≡ none
        → Answers fs (err cannot_load_data)
    no_account :
        (result : Fields)
        → field_of "result" fs ≡ some (object result)
        → field_of "value" result ≡ some null
        → Answers fs (err type_error)
    has_data :
        (result value : Fields) (b : Bytes) (more : Items)
        → field_of "result" fs ≡ some (object result)
        → field_of "value" result ≡ some (object value)
        → field_of "data" value ≡ some (array (cons (string (texts.write_base64 b)) more))
        → Answers fs (ok b)

  -- From an answer of a server, an object with any fields, `parse_bytes_data` gives the account's
  -- bytes if the answer has a result, the result a value, and the value data whose first item is a
  -- text of the bytes in base64, where the result and the value are objects with any fields. If the
  -- answer has no result, or its result, an object, no value, or the value, an object, no data, it
  -- raises that the data cannot be loaded. But if the value is null, as it is where there is no
  -- account, it raises a TypeError.
  pub parse_bytes_data-Answers :
      (fs : Fields) (r : Result Bytes) → Answers fs r → parse_bytes_data keys texts (object fs) ≡ r
  unfolding parse_bytes_data has_bytes decode_text contains get first
  parse_bytes_data-Answers fs _ (no_result r) = rw (has_field-field_of "result" fs, r) refl
  parse_bytes_data-Answers fs _ (no_value result r v) =
      rw
        (
          has_field-field_of "result" fs,
          find_field-field_of "result" fs,
          r,
          has_field-field_of "value" result,
          v,
        )
        refl
  parse_bytes_data-Answers fs _ (no_data result value r v d) =
      rw
        (
          has_field-field_of "result" fs,
          find_field-field_of "result" fs,
          r,
          has_field-field_of "value" result,
          find_field-field_of "value" result,
          v,
          has_field-field_of "data" value,
          d,
        )
        refl
  parse_bytes_data-Answers fs _ (no_account result r v) =
      rw
        (
          has_field-field_of "result" fs,
          find_field-field_of "result" fs,
          r,
          has_field-field_of "value" result,
          find_field-field_of "value" result,
          v,
        )
        refl
  parse_bytes_data-Answers fs _ (has_data result value b more r v d) =
      rw
        (
          has_field-field_of "result" fs,
          find_field-field_of "result" fs,
          r,
          has_field-field_of "value" result,
          find_field-field_of "value" result,
          v,
          has_field-field_of "data" value,
          find_field-field_of "data" value,
          d,
        )
        (texts.read_base64-write_base64 b)

  module _ (client : Client keys) where
    open client use {World, get_account_info}

    -- The server has an account of some bytes, and asking for it changes nothing.
    pub record Serves (w : World) (address : PublicKey) (b : Bytes) : Type 0 where
      pub answer : Fields
      pub answers : get_account_info address w ≡ (ok (object answer), w)
      pub shape : Answers answer (ok b)

    pub load_bytes_data-Serves :
        (w : World) (address : PublicKey) (b : Bytes)
        → Serves w address b
        → load_bytes_data keys texts client address w ≡ (ok b, w)
    unfolding load_bytes_data
    load_bytes_data-Serves w address b h =
        returns (get_account_info address) (λ res. lift (parse_bytes_data keys texts res)) w w _
          h.answers
        ∙ ap (λ r. (r, w)) (parse_bytes_data-Answers h.answer (ok b) h.shape)
