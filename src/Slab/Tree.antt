-- ===== src/Slab/Tree.antt =====
-- What a slab's array of nodes stands for: a binary tree of its leaves.
use pyserum.Base.{ℕ, suc, ◌+◌, ◌-◌, ◌%◌, ◌<◌, ◌≡◌, some, List, [], ◌∷◌, ◌++◌, get_elem?, All}
use pyserum.Base.Bits.{shr}
use pyserum.Slab.Defs.{SlabLeafNode, SlabInnerNode, SlabNode, leaf, inner, Slab}

pub data Tree (Key : Type 0) : Type 0 where
  tip : SlabLeafNode Key → Tree Key
  fork : SlabInnerNode → Tree Key → Tree Key → Tree Key

module _ {Key : Type 0} where
  abbrev pub leaves : Tree Key → List (SlabLeafNode Key)
  leaves (tip l) = l ∷ []
  leaves (fork n left right) = leaves left ++ leaves right

  -- The number of nodes, and the number of nodes on the longest path.
  abbrev pub size : Tree Key → ℕ
  size (tip l) = 1
  size (fork n left right) = suc (size left + size right)

  -- The array holds the tree, with its root at the index.
  abbrev pub Holds : List (SlabNode Key) → ℕ → Tree Key → Type 0
  Holds nodes index (tip l) = get_elem? nodes index ≡ some (leaf l)
  Holds nodes index (fork n left right) =
      (get_elem? nodes index ≡ some (inner n))
      × ((i : ℕ) × (j : ℕ) × (n.children ≡ i ∷ j ∷ []) × Holds nodes i left × Holds nodes j right)

  -- A leaf agrees with an inner node on the node's prefix, and has the given bit behind it.
  abbrev pub IsUnder : SlabInnerNode → ℕ → SlabLeafNode Key → Type 0
  IsUnder n bit l =
      (shr l.key (128 - n.prefix_len) ≡ shr n.key (128 - n.prefix_len))
      × (shr l.key (128 - suc n.prefix_len) % 2 ≡ bit)

  -- A critical-bit tree: each inner node splits its leaves by the bit behind its prefix.
  abbrev pub IsCritBit : Tree Key → Type 0
  IsCritBit (tip l) = Unit
  IsCritBit (fork n left right) =
      (n.prefix_len < 128)
      × All (IsUnder n 0) (leaves left)
      × All (IsUnder n 1) (leaves right)
      × IsCritBit left
      × IsCritBit right

-- A slab with at least one leaf that holds the tree at its root.
pub record IsSlabOf {Key : Type 0} (s : Slab Key) (t : Tree Key) : Type 0 where
  pub occupied : 0 < s.header.leaf_count
  pub holds : Holds s.nodes s.header.root t
