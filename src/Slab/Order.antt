-- ===== src/Slab/Order.antt =====
-- The order of a slab's leaves.
use pyserum.Base.{
  ℕ, suc, ◌-◌, ◌≤◌, ◌<◌, ◌≡◌, refl, true, false, List, [], ◌∷◌, ◌++◌, reverse, arith, ok, All,
  All-map, All-append,
}
use pyserum.Base.Bits.{shr-eq-double, lt_of_shr-lt}
use pyserum.Slab.Defs.{SlabLeafNode, SlabInnerNode, Slab, get, items}
use pyserum.Slab.Tree.{Tree, tip, fork, leaves, size, IsUnder, IsCritBit, IsSlabOf}
use pyserum.Slab.Items.{items-leaves}
use pyserum.Slab.Get.{height, find_key, get-find_key}

module _ {Key : Type 0} where
  -- The keys strictly ascend.
  abbrev pub IsSorted : List (SlabLeafNode Key) → Type 0
  IsSorted [] = Unit
  IsSorted (l ∷ ls) = All (λ m. l.key < m.key) ls × IsSorted ls

-- Of two keys under an inner node the one with the bit 0 is the smaller.
under-lt :
    {Key : Type 0} (n : SlabInnerNode) (l m : SlabLeafNode Key)
    → n.prefix_len < 128
    → IsUnder n 0 l
    → IsUnder n 1 m
    → l.key < m.key
under-lt n l m short (l_prefix, l_bit) (m_prefix, m_bit) =
    let level : 128 - n.prefix_len ≡ suc (128 - suc n.prefix_len) = omega arith in
    lt_of_shr-lt l.key m.key (128 - suc n.prefix_len) (
      omega (
        arith,
        shr-eq-double l.key (128 - suc n.prefix_len),
        shr-eq-double m.key (128 - suc n.prefix_len),
        rw level at l_prefix,
        rw level at m_prefix,
      ))

module _ {Key : Type 0} where
  IsSorted-append :
      (xs ys : List (SlabLeafNode Key))
      → IsSorted xs
      → IsSorted ys
      → All (λ l. All (λ m. l.key < m.key) ys) xs
      → IsSorted (xs ++ ys)
  IsSorted-append [] ys hx hy below = hy
  IsSorted-append (x ∷ xs) ys hx hy below =
      (All-append (λ m. x.key < m.key) xs ys hx.0 below.0, IsSorted-append xs ys hx.1 hy below.1)

  -- The leaves of a critical-bit tree, from left to right, have strictly ascending keys.
  pub leaves-IsSorted : (t : Tree Key) → IsCritBit t → IsSorted (leaves t)
  leaves-IsSorted (tip l) v = (tt, tt)
  leaves-IsSorted (fork n left right) (short, under_left, under_right, v_left, v_right) =
      IsSorted-append (leaves left) (leaves right) (leaves-IsSorted left v_left)
        (leaves-IsSorted right v_right)
        (All-map
          (λ l l_under.
            All-map (λ m m_under. under-lt n l m short l_under m_under) (leaves right) under_right)
          (leaves left) under_left)

  height-le-size : (t : Tree Key) → height t ≤ size t
  height-le-size (tip l) = omega arith
  height-le-size (fork n left right) = omega (arith, height-le-size left, height-le-size right)

  -- On an occupied slab that holds a critical-bit tree, ascending iteration, with a round for each
  -- node of the tree, ends without raising and yields leaves with strictly ascending keys; descending
  -- iteration yields the same leaves in the opposite order; and `get`, with as many rounds, returns
  -- what a search of the ascending iteration for the key finds.
  pub items-get_agree :
      (s : Slab Key) (t : Tree Key) (fuel k : ℕ)
      → IsSlabOf s t
      → IsCritBit t
      → size t ≤ fuel
      → ((items fuel s false).ended ≡ ok tt)
        × IsSorted (items fuel s false).yielded
        × (items fuel s true
            ≡ record { yielded = reverse (items fuel s false).yielded; ended = ok tt })
        × (get fuel s k ≡ ok (find_key k (items fuel s false).yielded))
  items-get_agree s t fuel k h v enough =
      rw (items-leaves s t fuel true h enough, items-leaves s t fuel false h enough)
        (
          refl,
          leaves-IsSorted t v,
          refl,
          get-find_key s t fuel k h v (omega (arith, height-le-size t)),
        )
