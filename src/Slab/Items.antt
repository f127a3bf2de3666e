-- ===== src/Slab/Items.antt =====
-- What iterating over a slab yields.
use pyserum.Base.{
  ℕ, zero, suc, ◌+◌, ◌-◌, ◌≤◌, ◌≡◌, refl, sym, ap, ◌∙◌, Bool, true, false, some, List, [], ◌∷◌,
  ◌++◌, reverse, append-nil, append_assoc, arith, ok, Iteration, ==_false, if◌then◌else◌, get_elem?,
}
use mathlib.Core.List.{reverse-append}
use pyserum.Slab.Defs.{
  SlabLeafNode, SlabInnerNode, SlabNode, leaf, inner, yield_item, Slab, items_from, items,
}
use pyserum.Slab.Tree.{Tree, tip, fork, leaves, size, Holds, IsSlabOf}

module _ {Key : Type 0} where
  abbrev prepend :
      List (SlabLeafNode Key) → Iteration (SlabLeafNode Key) → Iteration (SlabLeafNode Key)
  prepend xs rest = record { yielded = xs ++ rest.yielded; ended = rest.ended }

  -- The leaves in the order of a traversal.
  abbrev traversal : Bool → Tree Key → List (SlabLeafNode Key)
  traversal descending (tip l) = l ∷ []
  traversal descending (fork n left right) =
      if descending
      then traversal descending right ++ traversal descending left
      else traversal descending left ++ traversal descending right

  traversal-false : (t : Tree Key) → traversal false t ≡ leaves t
  traversal-false (tip l) = refl
  traversal-false (fork n left right) = rw (traversal-false left, traversal-false right) refl

  traversal-true : (t : Tree Key) → traversal true t ≡ reverse (leaves t)
  traversal-true (tip l) = refl
  traversal-true (fork n left right) =
      rw (traversal-true left, traversal-true right)
        (sym (reverse-append (leaves left) (leaves right)))

  -- A round of the loop at a leaf, and at an inner node.
  items_from-leaf :
      (nodes : List (SlabNode Key)) (descending : Bool) (index fuel : ℕ) (stack : List ℕ)
      (l : SlabLeafNode Key)
      → get_elem? nodes index ≡ some (leaf l)
      → items_from (suc fuel) nodes descending (index ∷ stack)
        ≡ yield_item l (items_from fuel nodes descending stack)
  unfolding items_from
  items_from-leaf nodes descending index fuel stack l h = rw (h, items_from) refl

  items_from-inner :
      (nodes : List (SlabNode Key)) (descending : Bool) (index fuel i j : ℕ) (stack : List ℕ)
      (n : SlabInnerNode)
      → get_elem? nodes index ≡ some (inner n)
      → n.children ≡ i ∷ j ∷ []
      → items_from (suc fuel) nodes descending (index ∷ stack)
        ≡ items_from fuel nodes descending (if descending then j ∷ i ∷ stack else i ∷ j ∷ stack)
  unfolding items_from
  items_from-inner nodes descending index fuel i j stack n h e = rw (h, items_from) (rw e refl)

  -- From a tree's root on top of the stack the loop yields the tree's leaves, at one round for
  -- each node, and goes on with what lies below.
  items_from-tree :
      (t : Tree Key) (nodes : List (SlabNode Key)) (descending : Bool) (index total fuel : ℕ)
      (stack : List ℕ)
      → total ≡ size t + fuel
      → Holds nodes index t
      → items_from total nodes descending (index ∷ stack)
        ≡ prepend (traversal descending t) (items_from fuel nodes descending stack)
  items_from-tree (tip l) nodes descending index zero fuel stack m h = absurd (omega arith)
  items_from-tree (tip l) nodes descending index (suc total) fuel stack m h =
      let spent : fuel ≡ total = omega arith in
      rw spent (items_from-leaf nodes descending index total stack l h)
  items_from-tree (fork n left right) nodes descending index zero fuel stack m h =
      absurd (omega arith)
  items_from-tree (fork n left right) nodes false index (suc total) fuel stack m h =
      let (i, j, children, at_left, at_right) = h.1 in
      rw
        (
          items_from-inner nodes false index total i j stack n h.0 children,
          items_from-tree left nodes false i total (size right + fuel) (j ∷ stack) (omega arith)
              at_left,
          items_from-tree right nodes false j (size right + fuel) fuel stack refl at_right,
          append_assoc,
        )
        refl
  items_from-tree (fork n left right) nodes true index (suc total) fuel stack m h =
      let (i, j, children, at_left, at_right) = h.1 in
      rw
        (
          items_from-inner nodes true index total i j stack n h.0 children,
          items_from-tree right nodes true j total (size left + fuel) (i ∷ stack) (omega arith)
              at_right,
          items_from-tree left nodes true i (size left + fuel) fuel stack refl at_left,
          append_assoc,
        )
        refl

  items_from-end :
      (nodes : List (SlabNode Key)) (descending : Bool) (fuel : ℕ)
      → items_from fuel nodes descending [] ≡ record { yielded = []; ended = ok tt }
  unfolding items_from
  items_from-end nodes descending zero = refl
  items_from-end nodes descending (suc fuel) = refl

  -- The leaves in the order of the keys, or in the opposite order.
  abbrev pub in_order : Bool → List (SlabLeafNode Key) → List (SlabLeafNode Key)
  in_order descending ls = if descending then reverse ls else ls

  traversal-in_order :
      (descending : Bool) (t : Tree Key) → traversal descending t ≡ in_order descending (leaves t)
  traversal-in_order true t = traversal-true t
  traversal-in_order false t = traversal-false t

  -- On an occupied slab that holds a tree, `items`, with a round for each node of the tree, ends
  -- without raising, and it yields the tree's leaves, from left to right, or from right to left if
  -- descending.
  pub items-leaves :
      (s : Slab Key) (t : Tree Key) (fuel : ℕ) (descending : Bool)
      → IsSlabOf s t
      → size t ≤ fuel
      → items fuel s descending ≡ record { yielded = in_order descending (leaves t); ended = ok tt }
  unfolding items
  items-leaves s t fuel descending h enough =
      rw
        (
          ==_false s.header.leaf_count 0 (omega (arith, h.occupied)),
          items_from-tree t s.nodes descending s.header.root fuel (fuel - size t) [] (omega arith)
              h.holds,
        )
        (ap (prepend (traversal descending t)) (items_from-end s.nodes descending (fuel - size t))
          ∙ (rw (append-nil, traversal-in_order descending t) refl))
