-- ===== src/OrderBook/Levels.antt =====
-- What `get_l2` returns.
use pyserum.Base.{
  Result, ℕ, zero, suc, ◌+◌, ◌≤◌, ◌≡◌, ◌≢◌, inl, inr, refl, ◌∙◌, none, some, List, [], ◌∷◌, ◌++◌,
  map, reverse, append_assoc, append-nil, length, take, take-nil, arith, ok, map_result, ==_false,
  ==_true, Nat-cases,
}
use mathlib.Core.List.{reverse-append, reverse-reverse}
use pyserum.Floats.{Floats}
use pyserum.Slab.{SlabLeafNode}
use pyserum.Slab.Tree.{Tree, leaves, size, IsSlabOf}
use pyserum.Slab.Items.{in_order, items-leaves}
use pyserum.OrderBook.Defs.{Level, OrderBook, price_of, add_order, levels_from, order_info, get_l2}
use pyserum.OrderBook.Group.{merge, group, merge-merge, merge-skip}

levels_from-end :
    (Key : Type 0) (depth : ℕ) (levels : List Level)
    → levels_from {Key = Key} depth [] (ok tt) levels ≡ ok levels
unfolding levels_from
levels_from-end Key depth levels = refl

module _ {Key : Type 0} where
  abbrev pub level_of : SlabLeafNode Key → Level
  level_of node = (price_of node, node.quantity)

  add_order-same :
      (depth p q : ℕ) (node : SlabLeafNode Key) (prev : List Level)
      → p ≡ price_of node
      → add_order depth node ((p, q) ∷ prev) ≡ some ((p, q + node.quantity) ∷ prev)
  unfolding add_order
  add_order-same depth p q node prev e = rw (==_true p (price_of node) e) refl

  add_order-full :
      (depth p q : ℕ) (node : SlabLeafNode Key) (prev : List Level)
      → p ≢ price_of node
      → suc (length prev) ≡ depth
      → add_order depth node ((p, q) ∷ prev) ≡ none
  unfolding add_order
  add_order-full depth p q node prev ne e =
      rw (==_false p (price_of node) ne, ==_true (suc (length prev)) depth e) refl

  add_order-new :
      (depth p q : ℕ) (node : SlabLeafNode Key) (prev : List Level)
      → p ≢ price_of node
      → suc (length prev) ≢ depth
      → add_order depth node ((p, q) ∷ prev) ≡ some (level_of node ∷ (p, q) ∷ prev)
  unfolding add_order
  add_order-new depth p q node prev ne e =
      rw (==_false p (price_of node) ne, ==_false (suc (length prev)) depth e) refl

  levels_from-step :
      (depth : ℕ) (node : SlabLeafNode Key) (nodes : List (SlabLeafNode Key))
      (levels levels' : List Level)
      → add_order depth node levels ≡ some levels'
      → levels_from depth (node ∷ nodes) (ok tt) levels ≡ levels_from depth nodes (ok tt) levels'
  unfolding levels_from
  levels_from-step depth node nodes levels levels' e = rw (e, levels_from) refl

  levels_from-break :
      (depth : ℕ) (node : SlabLeafNode Key) (nodes : List (SlabLeafNode Key)) (levels : List Level)
      → add_order depth node levels ≡ none
      → levels_from depth (node ∷ nodes) (ok tt) levels ≡ ok levels
  unfolding levels_from
  levels_from-break depth node nodes levels e = rw (e, levels_from) refl

  -- From a last level `(p, q)` on, with room for `m` more levels: the levels of the nodes to come,
  -- before those that are there.
  abbrev levels_behind : ℕ → ℕ → ℕ → List Level → List (SlabLeafNode Key) → Result (List Level)
  levels_behind m p q prev nodes =
      ok (reverse (take (suc m) (merge p q (group (map level_of nodes)))) ++ prev)

  levels_behind-same :
      (m p q : ℕ) (prev : List Level) (node : SlabLeafNode Key) (nodes : List (SlabLeafNode Key))
      → p ≡ price_of node
      → levels_behind m p (q + node.quantity) prev nodes ≡ levels_behind m p q prev (node ∷ nodes)
  levels_behind-same m p q prev node nodes same =
      rw (← same, merge-merge p q node.quantity (group (map level_of nodes))) refl

  levels_behind-full :
      (p q : ℕ) (prev : List Level) (node : SlabLeafNode Key) (nodes : List (SlabLeafNode Key))
      → p ≢ price_of node
      → ok ((p, q) ∷ prev) ≡ levels_behind 0 p q prev (node ∷ nodes)
  levels_behind-full p q prev node nodes other =
      rw (merge-skip p q (price_of node) node.quantity (group (map level_of nodes)) other) refl

  levels_behind-new :
      (m p q : ℕ) (prev : List Level) (node : SlabLeafNode Key) (nodes : List (SlabLeafNode Key))
      → p ≢ price_of node
      → levels_behind m (price_of node) node.quantity ((p, q) ∷ prev) nodes
        ≡ levels_behind (suc m) p q prev (node ∷ nodes)
  levels_behind-new m p q prev node nodes other =
      let behind =
        take (suc m) (merge (price_of node) node.quantity (group (map level_of nodes))) in
      rw
        (
          merge-skip p q (price_of node) node.quantity (group (map level_of nodes)) other,
          reverse-append ((p, q) ∷ []) behind,
          append_assoc,
        )
        refl

  -- The loop merges what has the price of the last level, and stops before a level too many.
  levels_from-last :
      (m depth p q : ℕ) (prev : List Level) (nodes : List (SlabLeafNode Key))
      → depth ≡ suc (length prev + m)
      → levels_from depth nodes (ok tt) ((p, q) ∷ prev) ≡ levels_behind m p q prev nodes
  levels_from-last m depth p q prev [] e =
      levels_from-end Key depth ((p, q) ∷ prev) ∙ (rw (take-nil {A = Level} m) refl)
  levels_from-last zero depth p q prev (node ∷ nodes) e = elim (Nat-cases p (price_of node)) [
    | inl same ↦
        levels_from-step depth node nodes _ _ (add_order-same depth p q node prev same)
        ∙ levels_from-last zero depth p (q + node.quantity) prev nodes e
        ∙ levels_behind-same zero p q prev node nodes same
    | inr other ↦
        levels_from-break depth node nodes _
          (add_order-full depth p q node prev other (omega arith))
        ∙ levels_behind-full p q prev node nodes other
  ]
  levels_from-last (suc m) depth p q prev (node ∷ nodes) e = elim (Nat-cases p (price_of node)) [
    | inl same ↦
        levels_from-step depth node nodes _ _ (add_order-same depth p q node prev same)
        ∙ levels_from-last (suc m) depth p (q + node.quantity) prev nodes e
        ∙ levels_behind-same (suc m) p q prev node nodes same
    | inr other ↦
        levels_from-step depth node nodes _ _
          (add_order-new depth p q node prev other (omega arith))
        ∙ levels_from-last m depth (price_of node) node.quantity ((p, q) ∷ prev) nodes (omega arith)
        ∙ levels_behind-new m p q prev node nodes other
  ]

  levels_from-first :
      (depth : ℕ) (node : SlabLeafNode Key) (nodes : List (SlabLeafNode Key))
      → levels_from (suc depth) (node ∷ nodes) (ok tt) []
        ≡ levels_from (suc depth) nodes (ok tt) (level_of node ∷ [])
  levels_from-first depth node nodes =
      levels_from-step (suc depth) node nodes [] (level_of node ∷ [])
        (unfold add_order in rw (==_false 0 (suc depth) (omega arith)) refl)

  levels_from-none : (nodes : List (SlabLeafNode Key)) → levels_from 0 nodes (ok tt) [] ≡ ok []
  unfolding levels_from
  levels_from-none [] = refl
  levels_from-none (node ∷ nodes) = refl

  -- The loop as a whole: the nodes grouped by price, cut at the depth.
  pub levels_from-group :
      (depth : ℕ) (nodes : List (SlabLeafNode Key))
      → levels_from depth nodes (ok tt) [] ≡ ok (reverse (take depth (group (map level_of nodes))))
  levels_from-group zero nodes = levels_from-none nodes
  levels_from-group (suc depth) [] = levels_from-end Key (suc depth) []
  levels_from-group (suc depth) (node ∷ nodes) =
      levels_from-first depth node nodes
      ∙ levels_from-last depth (suc depth) (price_of node) node.quantity [] nodes (omega arith)
      ∙ (rw append-nil refl)

module _ (floats : Floats) {Key : Type 0} where
  -- For a book whose slab is occupied and holds a tree, with a round for each node of the tree, `get_l2`
  -- returns the infos of the first `depth` levels of the orders, in descending order of the leaves for
  -- bids and in ascending order for asks, where neighbours at one price make one level with the sum of
  -- their quantities.
  pub get_l2-group :
      (book : OrderBook Key) (t : Tree Key) (fuel depth : ℕ)
      → IsSlabOf book.slab t
      → size t ≤ fuel
      → get_l2 floats fuel book depth
        ≡ map_result
            (order_info floats book.market_state)
            (take depth (group (map level_of (in_order book.is_bids (leaves t)))))
  unfolding get_l2
  get_l2-group book t fuel depth h enough =
      rw
        (
          items-leaves book.slab t fuel book.is_bids h enough,
          levels_from-group depth (in_order book.is_bids (leaves t)),
          reverse-reverse,
        )
        refl
