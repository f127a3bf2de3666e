-- ===== src/OrderBook/Sides.antt =====
-- The levels of each side of the book.
use pyserum.Base.{
  ℕ, ◌≤◌, ◌<◌, ◌≡◌, ◌⊎◌, inl, inr, refl, sym, ◌∙◌, Bool, true, false, List, [], ◌∷◌, ◌++◌, map,
  reverse, take, arith, All, All-map, All-append, map_result, Nat-cases,
}
use mathlib.Core.List.{reverse-append, reverse-cons, map-append}
use pyserum.Base.Bits.{shr}
use pyserum.Floats.{Floats}
use pyserum.Slab.{SlabLeafNode, items}
use pyserum.Slab.Tree.{Tree, leaves, size, IsSlabOf, IsCritBit}
use pyserum.Slab.Items.{in_order, items-leaves}
use pyserum.Slab.Order.{IsSorted, leaves-IsSorted}
use pyserum.OrderBook.Defs.{Level, OrderBook, price_of, order_info, get_l2}
use pyserum.OrderBook.Group.{
  group, total_at, total_at-group, total_at-reverse, IsStrict, IsWeak, group-IsStrict,
}
use pyserum.OrderBook.Levels.{level_of, get_l2-group}

-- The order of prices on a side: descending for bids, ascending for asks.
abbrev pub Better : Bool → ℕ → ℕ → Type 0
Better true p q = q < p
Better false p q = p < q

Better-trans : (bids : Bool) (a b c : ℕ) → Better bids a b → Better bids b c → Better bids a c
Better-trans true a b c h k = omega arith
Better-trans false a b c h k = omega arith

map-reverse : {A B : Type 0} (f : A → B) (xs : List A) → map f (reverse xs) ≡ reverse (map f xs)
map-reverse f [] = refl
map-reverse f (x ∷ xs) = simp (reverse-cons, map-append, map-reverse f xs)

module _ {Key : Type 0} where
  price_of-le :
      (l m : SlabLeafNode Key)
      → l.key < m.key
      → (price_of l ≡ price_of m) ⊎ (price_of l < price_of m)
  unfolding price_of
  price_of-le l m h =
      let below : shr l.key 64 ≤ shr m.key 64 = omega arith in
      elim (Nat-cases (shr l.key 64) (shr m.key 64)) [
        | inl same ↦ inl same
        | inr other ↦ inr (omega arith)
      ]

  levels-All :
      (P : ℕ → Type 0) (ls : List (SlabLeafNode Key))
      → All (λ l. P (price_of l)) ls
      → All (λ (y : Level). P y.0) (map level_of ls)
  levels-All P [] h = tt
  levels-All P (l ∷ ls) h = (h.0, levels-All P ls h.1)

  ascending : (ls : List (SlabLeafNode Key)) → IsSorted ls → IsWeak ◌<◌ (map level_of ls)
  ascending [] h = tt
  ascending (l ∷ ls) h = (
    levels-All (λ p. (price_of l ≡ p) ⊎ (price_of l < p)) ls
        (All-map (λ m. price_of-le l m) ls h.0),
    ascending ls h.1,
  )

IsWeak-append :
    (R : ℕ → ℕ → Type 0) (xs : List Level) (y : Level)
    → IsWeak R xs
    → All (λ x. (x.0 ≡ y.0) ⊎ R x.0 y.0) xs
    → IsWeak R (xs ++ y ∷ [])
IsWeak-append R [] y h k = (tt, tt)
IsWeak-append R (x ∷ xs) y h k =
    (All-append _ xs (y ∷ []) h.0 (k.0, tt), IsWeak-append R xs y h.1 k.1)

All-reverse : (P : Level → Type 0) (xs : List Level) → All P xs → All P (reverse xs)
All-reverse P [] h = tt
All-reverse P (x ∷ xs) h =
    rw (reverse-append (x ∷ []) xs)
      (All-append P (reverse xs) (x ∷ []) (All-reverse P xs h.1) (h.0, tt))

IsWeak-reverse : (xs : List Level) → IsWeak ◌<◌ xs → IsWeak (λ p q. q < p) (reverse xs)
IsWeak-reverse [] h = tt
IsWeak-reverse (x ∷ xs) h = rw (reverse-append (x ∷ []) xs) (
    IsWeak-append (λ p q. q < p) (reverse xs) x (IsWeak-reverse xs h.1)
      (All-reverse _ xs (All-map turn xs h.0)))
  where
    turn : (y : Level) → (x.0 ≡ y.0) ⊎ (x.0 < y.0) → (y.0 ≡ x.0) ⊎ (x.0 < y.0)
    turn y (inl e) = inl (sym e)
    turn y (inr r) = inr r

side-IsWeak :
    {Key : Type 0} (bids : Bool) (ls : List (SlabLeafNode Key))
    → IsSorted ls
    → IsWeak (Better bids) (map level_of (in_order bids ls))
side-IsWeak true ls h =
    rw (map-reverse level_of ls) (IsWeak-reverse (map level_of ls) (ascending ls h))
side-IsWeak false ls h = ascending ls h

total_at-in_order :
    {Key : Type 0} (price : ℕ) (bids : Bool) (ls : List (SlabLeafNode Key))
    → total_at price (map level_of (in_order bids ls)) ≡ total_at price (map level_of ls)
total_at-in_order price true ls =
    rw (map-reverse level_of ls) (total_at-reverse price (map level_of ls))
total_at-in_order price false ls = refl

module _ (floats : Floats) {Key : Type 0} where
  -- A book whose slab is occupied and holds a critical-bit tree has a list of levels with strictly
  -- descending prices for bids, and strictly ascending ones for asks, in which the quantity at each
  -- price is the sum of the quantities of the orders at that price that iterating over the slab
  -- yields; and `get_l2`, with a round for each node of the tree, returns the infos of its first
  -- `depth` levels.
  pub get_l2_levels :
      (book : OrderBook Key) (t : Tree Key) (fuel : ℕ)
      → IsSlabOf book.slab t
      → IsCritBit t
      → size t ≤ fuel
      → (levels : List Level) × IsStrict (Better book.is_bids) levels
        × ((price : ℕ)
            → total_at price levels
              ≡ total_at price (map level_of (items fuel book.slab false).yielded))
        × ((depth : ℕ)
            → get_l2 floats fuel book depth
              ≡ map_result (order_info floats book.market_state) (take depth levels))
  get_l2_levels book t fuel h v enough = (
    group (map level_of (in_order book.is_bids (leaves t))),
    group-IsStrict (Better book.is_bids) (Better-trans book.is_bids) _
        (side-IsWeak book.is_bids (leaves t) (leaves-IsSorted t v)),
    λ price.
        rw (items-leaves book.slab t fuel false h enough)
          (total_at-group price _ ∙ total_at-in_order price book.is_bids (leaves t)),
    λ depth. get_l2-group floats book t fuel depth h enough,
  )
