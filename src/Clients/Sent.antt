-- ===== src/Clients/Sent.antt =====
-- Placing an order, from the server's answer to the transaction that is sent.
use pyserum.Base.{ℕ, ◌≡◌, refl, ◌∙◌, false, List, [], ◌∷◌, none, ok, map_result, subst}
use pyserum.Construct.{Construct}
use pyserum.Solana.{TransactionInstruction}
use pyserum.Instructions.Decode.{decode_new_order_v3}
use pyserum.Net.Ensures.{Ensures}
use pyserum.Net.Steps.{went_on_to}
use pyserum.OpenOrders.{OpenOrdersAccount}
use pyserum.OpenOrders.Answers.{FoundAccount, accepted}
use pyserum.Core.Packages.{Packages}
use pyserum.Core.Defs.{MarketCore}
use pyserum.Core.Draft.{OrderRequest, place_instruction, order_should_wrap_sol}
use pyserum.Core.Placed.{OrderFits, placed_order, decode_new_order_v3-make_place_order_instruction}
use pyserum.Core.Signed.{place_instruction-SignedBy}
use pyserum.Core.Signers.{SignedBy}
use pyserum.Clients.Defs.{place_order}
use pyserum.Clients.Loads.{Finds, find-Finds}
use pyserum.Clients.Orders.{place_order-existing}

module _ (packages : Packages) ⦃lib : Construct⦄ where
  open packages use {keys, texts, programs, floats, client}
  open keys use {PublicKey, same_key}
  open client use {World, TxOpts, owner_key, send_transaction}

  -- If the server answers the request for the owner's accounts with some that are flagged as open
  -- orders in use, the payer is another account than the owner's, the order does not pay in SOL, the
  -- request queue is not forced, and the order's price and size in lots fit their fields, then
  -- `place_order` sends a transaction of one instruction, signed by the owner, who alone has to sign
  -- it. The instruction decodes to the market's accounts, the first of the owner's accounts, and the
  -- order in lots, but for the program.
  pub place_order-Finds :
      (core : MarketCore PublicKey) (request : OrderRequest packages) (opts : TxOpts) (w : World)
      (found : List (FoundAccount PublicKey)) (account : OpenOrdersAccount PublicKey)
      (accounts : List (OpenOrdersAccount PublicKey)) (price_lots size_lots : ℕ)
      → Finds packages core (owner_key request.owner) w found
      → map_result (accepted keys texts) found ≡ ok (account ∷ accounts)
      → same_key request.payer (owner_key request.owner) ≡ false
      → order_should_wrap_sol packages core request.side ≡ false
      → core.force_use_request_queue ≡ false
      → OrderFits packages core request.limit_price request.max_quantity request.order_type
          request.client_id price_lots size_lots
      → (place : TransactionInstruction PublicKey) × (place_order packages core request opts w
          ≡ send_transaction (place ∷ []) (request.owner ∷ []) opts w)
        × SignedBy (owner_key request.owner) place
        × (decode_new_order_v3 keys programs place
            ≡ ok (
                placed_order packages core request.payer
                  (owner_key request.owner)
                  request.order_type
                  request.side
                  price_lots
                  size_lots
                  request.client_id
                  account.address))
  unfolding place_instruction
  place_order-Finds core request opts w found account accounts price_lots size_lots finds
        all_accepted other plain unforced fits =
      let owner = owner_key request.owner in
      let made = place_instruction packages core request request.payer account.address in
      let decoded =
        decode_new_order_v3-make_place_order_instruction packages core request.payer owner
          request.order_type request.side request.limit_price request.max_quantity request.client_id
          account.address none price_lots size_lots unforced fits in
      let (place, placed, decodes) =
        went_on_to made (decode_new_order_v3 keys programs) _ decoded in
      (
        place,
        place_order-existing packages core request opts w w account accounts place
            (find-Finds packages core owner w found finds ∙ rw all_accepted refl) other plain
            placed,
        subst (Ensures (SignedBy owner)) placed
            (place_instruction-SignedBy packages core request request.payer account.address),
        decodes,
      )
