-- ===== src/Core/Owned.antt =====
-- Which orders _parse_orders_for_owner of pyserum/market/core.py returns.
use text.Mathlib.Text.{◌==◌ as ◌is◌}
use text.Mathlib.TextEquality.{eq_iff}
use pyserum.Base.{
  true≢false, ℕ, ◌≤◌, ◌≡◌, refl, ap, ◌∙◌, sym, ◌↔◌, ◌⊎◌, inl, inr, Bool, true, false, ◌||◌, List,
  [], ◌∷◌, ◌++◌, map, Result, ok, err, ◌>>=◌, map_result,
}
use pyserum.Net.Json.{string}
use pyserum.OpenOrders.{OpenOrdersAccount}
use pyserum.OrderBook.{OrderBook, Order, order_of}
use pyserum.OrderBook.Orders.{orders-leaves}
use pyserum.Slab.Tree.{Tree, leaves, size, IsSlabOf}
use pyserum.Core.Packages.{Packages}
use pyserum.Core.Defs.{filter, has_address, parse_orders_for_owner}
use pyserum.Core.Signed.{IsAmong}

ok_value : {A : Type 0} → A → Result A → A
ok_value a (ok b) = b
ok_value a (err e) = a

ok-injective : {A : Type 0} (a b : A) → Result.ok a ≡ Result.ok b → a ≡ b
unfolding ok_value
ok-injective a b h = ap (λ r. ok_value a r) h

or_true : (a b : Bool) → ((a || b) ≡ true) ↔ ((a ≡ true) ⊎ (b ≡ true))
or_true true b = ((λ h. inl refl), λ h. refl)
or_true false b = ((λ h. inr h), λ h. elim h [ inl e ↦ elim (true≢false (sym e)) [ ] | inr e ↦ e ])

module _ (packages : Packages) where
  open packages use {keys, floats, texts}
  open keys use {PublicKey}
  open floats use {Float}
  open texts use {text_of_key, read_key, read_key-string}

  text_of_key-injective : (j k : PublicKey) → text_of_key j ≡ text_of_key k → j ≡ k
  text_of_key-injective j k h =
      ok-injective j k
        (sym (read_key-string j) ∙ ap (λ s. read_key (string s)) h ∙ read_key-string k)

  -- The comparison of texts finds just the accounts' addresses.
  has_address-IsAmong :
      (accounts : List (OpenOrdersAccount PublicKey)) (key : PublicKey)
      → (has_address packages accounts key ≡ true) ↔ IsAmong key (map (λ a. a.address) accounts)
  unfolding has_address
  has_address-IsAmong [] key = ((λ h. elim (true≢false (sym h)) [ ]), λ h. elim h [ ])
  has_address-IsAmong (account ∷ accounts) key =
      let same = text_of_key account.address is text_of_key key in
      let rest = has_address packages accounts key in
      let texts_equal = eq_iff (text_of_key account.address) (text_of_key key) in
      let ih = has_address-IsAmong accounts key in
      (
        (λ h. elim ((or_true same rest).0 h) [
          | inl e ↦ inl (sym (text_of_key-injective account.address key (texts_equal.0 e)))
          | inr r ↦ inr (ih.0 r)
        ]),
        (λ h. (or_true same rest).1 (elim h [
          | inl e ↦ inl (texts_equal.1 (ap text_of_key (sym e)))
          | inr r ↦ inr (ih.1 r)
        ])),
      )

  -- For two books whose slabs hold trees, with a round for each node of either tree, and at least one
  -- account, `_parse_orders_for_owner` returns, of the orders of the leaves of the bids and then of
  -- those of the asks, in this order, the ones of which the test holds, and the test holds of just the
  -- addresses of the accounts. It raises only what making one of the orders raises.
  pub parse_orders_for_owner-leaves :
      (bids asks : OrderBook PublicKey) (tree_of_bids tree_of_asks : Tree PublicKey) (fuel : ℕ)
      (account : OpenOrdersAccount PublicKey) (accounts : List (OpenOrdersAccount PublicKey))
      → IsSlabOf bids.slab tree_of_bids
      → IsSlabOf asks.slab tree_of_asks
      → size tree_of_bids ≤ fuel
      → size tree_of_asks ≤ fuel
      → (parse_orders_for_owner packages fuel bids asks (account ∷ accounts) ≡ (
          map_result (order_of floats bids) (leaves tree_of_bids) >>= λ bid_orders.
          map_result (order_of floats asks) (leaves tree_of_asks) >>= λ ask_orders. ok (
            filter
              (λ (o : Order PublicKey Float).
                has_address packages (account ∷ accounts) o.open_order_address)
              (bid_orders ++ ask_orders))))
        × ((key : PublicKey)
            → (has_address packages (account ∷ accounts) key ≡ true)
              ↔ IsAmong key (map (λ a. a.address) (account ∷ accounts)))
  unfolding parse_orders_for_owner
  parse_orders_for_owner-leaves bids asks tree_of_bids tree_of_asks fuel account accounts of_bids
        of_asks enough_bids enough_asks =
      (
        rw
            (
              orders-leaves floats bids tree_of_bids fuel of_bids enough_bids,
              orders-leaves floats asks tree_of_asks fuel of_asks enough_asks,
            )
            refl,
        has_address-IsAmong (account ∷ accounts),
      )
