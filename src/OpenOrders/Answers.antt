-- ===== src/OpenOrders/Answers.antt =====
-- What the answer of a server to the request for open orders accounts is read as, and which accounts
-- the request of pyserum/open_orders_account.py asks for.
use pyserum.Base.{
  ℕ, ◌+◌, ◌≡◌, refl, ap, ◌↔◌, ◌&&◌, List, [], ◌∷◌, ◌++◌, map, length, take, drop, All, append_assoc,
  take-append, drop-append, length-append, arith, Result, ok, err, map_result, invalid_open_orders,
  if◌then◌else◌, Bool,
}
use pyserum.Base.Bytes.{Bytes, low_bytes, length-low_bytes}
use pyserum.Construct.{Construct}
use pyserum.Solana.{PublicKeys}
use pyserum.Layouts.AccountFlags.{encode_flags, length-encode_flags}
use pyserum.Layouts.OpenOrders.{OpenOrdersContainer}
use pyserum.Layouts.OpenOrdersEncoding.{
  OpenOrdersPadding, OpenOrdersContainerFits, encode_open_orders, open_orders_layout-HasSize,
}
use pyserum.Net.Json.{
  Json, bool, number, string, array, object, end, field, list_of, items_of, get, first, truth,
  elements,
}
use pyserum.Net.Answers.{encoded_data}
use pyserum.Net.Client.{Texts, MemcmpOpts, ProgramAccountsArgs}
use pyserum.Net.Utils.{decode_text}
use pyserum.OpenOrders.{OpenOrdersAccount, account_in, from_bytes, from_bytes-encode_open_orders}
use pyserum.OpenOrders.Query.{
  ProgramAccount, read_number, read_program_account, process_get_program_accounts_resp,
  build_get_program_accounts_args,
}

-- An account that a server found: its address, and what the answer says of it.
pub record FoundAccount (Key : Type 0) : Type 0 where
  pub address : Key
  pub padding : OpenOrdersPadding
  pub container : OpenOrdersContainer
  pub rest : Bytes
  pub executable : Bool
  pub lamports : ℕ
  pub owner : Key

items_of-list_of : (xs : List Json) → items_of (list_of xs) ≡ xs
items_of-list_of [] = refl
items_of-list_of (x ∷ xs) = ap (λ ys. x ∷ ys) (items_of-list_of xs)

slice_at :
    (before b behind : Bytes) (i n : ℕ)
    → length before ≡ i
    → length b ≡ n
    → take n (drop i (before ++ (b ++ behind))) ≡ b
slice_at before b behind i n at size =
    rw (← at, ← size, drop-append before (b ++ behind)) (take-append b behind)

slice_behind :
    (first second b behind : Bytes) (i : ℕ)
    → length first + length second ≡ i
    → length b ≡ 32
    → take 32 (drop i (first ++ (second ++ (b ++ behind)))) ≡ b
slice_behind first second b behind i at size =
    rw (← append_assoc first second (b ++ behind)) (
      slice_at (first ++ second) b behind i 32 (omega (arith, at, length-append first second)) size)

-- The bytes of an account that a filter compares are the ones that it asks for.
abbrev pub Matches : {keys : PublicKeys} → Texts keys → Bytes → MemcmpOpts → Type 0
Matches texts b opts =
    let asked = texts.key_bytes_of_text opts.bytes in
    take (length asked) (drop opts.offset b) ≡ asked

module _ (keys : PublicKeys) (texts : Texts keys) where
  open keys use {PublicKey, key_bytes, length-key_bytes}
  open texts use {
    text_of_key, read_key-string, read_base64-write_base64, key_bytes_of_text-text_of_key,
  }

  abbrev found_entry : FoundAccount PublicKey → Json
  found_entry a = object (
      field "account"
        (object (
          field "data"
            (encoded_data keys texts (encode_open_orders a.padding a.container ++ a.rest))
            (field "executable" (bool a.executable) (
              field "lamports" (number a.lamports)
                (field "owner" (string (text_of_key a.owner)) end)))))
        (field "pubkey" (string (text_of_key a.address)) end))

  -- The answer of get_program_accounts that lists some accounts.
  abbrev pub found_answer : List (FoundAccount PublicKey) → Json
  found_answer found = object (
      field "jsonrpc" (string "2.0") (field "result" (array (list_of (map found_entry found))) end))

  abbrev program_account : FoundAccount PublicKey → ProgramAccount PublicKey
  program_account a = record {
    public_key = a.address;
    data_bytes = encode_open_orders a.padding a.container ++ a.rest;
    is_executablable = a.executable;
    lamports = a.lamports;
    owner = a.owner;
  }

  read_program_account-found_entry :
      (a : FoundAccount PublicKey)
      → read_program_account keys texts (found_entry a) ≡ ok (program_account a)
  unfolding read_program_account read_number decode_text get first truth
  read_program_account-found_entry a =
      rw
        (
          read_key-string a.address,
          read_key-string a.owner,
          read_base64-write_base64 (encode_open_orders a.padding a.container ++ a.rest),
        )
        refl

  read_all_found :
      (found : List (FoundAccount PublicKey))
      → map_result (read_program_account keys texts) (map found_entry found)
        ≡ ok (map program_account found)
  read_all_found [] = refl
  read_all_found (a ∷ found) = rw (read_program_account-found_entry a, read_all_found found) refl

  slice-Matches :
      (b part : Bytes) (i : ℕ) (key : PublicKey)
      → take 32 (drop i b) ≡ part
      → Matches texts b (record { offset = i; bytes = text_of_key key }) ↔ (part ≡ key_bytes key)
  slice-Matches b part i key h =
      rw (key_bytes_of_text-text_of_key key, length-key_bytes key, h) ((λ e. e), λ e. e)

  market_slice :
      (padding : OpenOrdersPadding) (x : OpenOrdersContainer)
      → OpenOrdersContainerFits x
      → take 32 (drop 13 (encode_open_orders padding x)) ≡ x.market
  unfolding encode_open_orders
  market_slice padding x h =
      slice_behind (low_bytes 5 padding.start) (encode_flags x.account_flags) x.market _ 13
        (omega (arith, length-low_bytes 5 padding.start, length-encode_flags x.account_flags))
        h.market

  owner_slice :
      (padding : OpenOrdersPadding) (x : OpenOrdersContainer)
      → OpenOrdersContainerFits x
      → take 32 (drop 45 (encode_open_orders padding x)) ≡ x.owner
  unfolding encode_open_orders
  owner_slice padding x h =
      let flags = encode_flags x.account_flags in
      rw (← append_assoc flags x.market _) (
        slice_behind (low_bytes 5 padding.start) (flags ++ x.market) x.owner _ 45
          (omega (
            arith,
            length-low_bytes 5 padding.start,
            length-append flags x.market,
            length-encode_flags x.account_flags,
            h.market,
          ))
          h.owner)

  filters_select :
      (market owner : PublicKey) (padding : OpenOrdersPadding) (x : OpenOrdersContainer)
      → OpenOrdersContainerFits x
      → All (Matches texts (encode_open_orders padding x)) (
          record { offset = 5 + 8; bytes = text_of_key market }
          ∷ record { offset = 5 + 8 + 32; bytes = text_of_key owner }
          ∷ [])
        ↔ ((x.market ≡ key_bytes market) × (x.owner ≡ key_bytes owner))
  filters_select market owner padding x fits =
      let of_market =
        slice-Matches (encode_open_orders padding x) x.market 13 market
          (market_slice padding x fits) in
      let of_owner =
        slice-Matches (encode_open_orders padding x) x.owner 45 owner
          (owner_slice padding x fits) in
      (
        (λ (m, (o, _)). (of_market.0 m, of_owner.0 o)),
        (λ (m, o). (of_market.1 m, (of_owner.1 o, tt))),
      )

  module _ ⦃lib : Construct⦄ where
    -- An account that is found is accepted by its flags.
    abbrev pub accepted : FoundAccount PublicKey → Result (OpenOrdersAccount PublicKey)
    accepted a =
        if a.container.account_flags.open_orders && a.container.account_flags.initialized
        then ok (account_in keys a.address a.container)
        else err invalid_open_orders

    decode_all_found :
        (found : List (FoundAccount PublicKey))
        → All (λ a. OpenOrdersContainerFits a.container) found
        → map_result
            (λ (account : ProgramAccount PublicKey).
              from_bytes keys account.public_key account.data_bytes)
            (map program_account found)
          ≡ map_result accepted found
    decode_all_found [] h = refl
    decode_all_found (a ∷ found) (fits, h) =
        rw
          (
            from_bytes-encode_open_orders keys a.address a.padding a.container a.rest fits,
            decode_all_found found h,
          )
          refl

    -- From an answer that lists accounts which encode the fields of open orders accounts, each followed
    -- by any bytes, `_process_get_program_accounts_resp` returns the accounts with these fields and the
    -- addresses of the answer, in its order, or raises if one of the accounts lacks one of the flags
    -- "open_orders" and "initialized".
    pub process_get_program_accounts_resp-found_answer :
        (found : List (FoundAccount PublicKey))
        → All (λ a. OpenOrdersContainerFits a.container) found
        → process_get_program_accounts_resp keys texts (found_answer found)
          ≡ map_result accepted found
    unfolding process_get_program_accounts_resp get elements
    process_get_program_accounts_resp-found_answer found h =
        rw (items_of-list_of (map found_entry found), read_all_found found)
          (decode_all_found found h)

    -- The request asks the given program for the accounts of exactly 3228 bytes, the size of the
    -- layout, and its two filters let an account that encodes the fields of open orders pass exactly if
    -- its market and owner are the given ones.
    pub build_get_program_accounts_args-selects :
        {Commitment : Type 0} (market program_id owner : PublicKey) (commitment : Commitment)
        (padding : OpenOrdersPadding) (x : OpenOrdersContainer)
        → OpenOrdersContainerFits x
        → (args : ProgramAccountsArgs PublicKey Commitment) × (build_get_program_accounts_args keys
              texts market program_id owner commitment
            ≡ ok args)
          × (args.program_id ≡ program_id)
          × (args.data_size ≡ 3228)
          × (All (Matches texts (encode_open_orders padding x)) args.memcmp_opts
              ↔ ((x.market ≡ key_bytes market) × (x.owner ≡ key_bytes owner)))
    unfolding build_get_program_accounts_args
    build_get_program_accounts_args-selects market program_id owner commitment padding x fits = (
      record {
        program_id = program_id;
        commitment = commitment;
        encoding = "base64";
        data_size = 3228;
        memcmp_opts =
            record { offset = 5 + 8; bytes = text_of_key market }
            ∷ record { offset = 5 + 8 + 32; bytes = text_of_key owner }
            ∷ [];
      },
      rw (open_orders_layout-HasSize.run) refl,
      refl,
      refl,
      filters_select market owner padding x fits,
    )
