-- ===== src/Layouts/SlabEncoding.antt =====
-- Encodings that the layouts of pyserum/_layouts/slab.py parse.
use pyserum.Base.{
  ℕ, ◌^◌, ◌<◌, ◌≡◌, refl, Option, [], ◌++◌, length, replicate, All, All-map, arith, ==_false,
}
use pyserum.Base.Bytes.{Bytes, low_bytes}
use pyserum.Construct.{Codec, Construct}
use pyserum.Construct.Parses.{
  Parses, ◌⨟ₚ◌, named-Parses, uint-Parses, bytes-Parses, padding-Parses, pass-Parses, field-Parses,
  repeat-Parses, encode_all,
}
use pyserum.Construct.Sizes.{
  HasSize, ◌⨟ₛ◌, named-HasSize, uint-HasSize, bytes-HasSize, padding-HasSize, array-HasSize,
}
use pyserum.Layouts.Slab.{
  SlabHeaderContainer, slab_header_of, slab_header_members, slab_header_layout, InnerNodeContainer,
  inner_node_of, inner_node_members, inner_node_layout, LeafNodeContainer, leaf_node_of,
  leaf_node_members, leaf_node_layout, FreeNodeContainer, free_node_of, free_node_members,
  free_node_layout, choice, NodeContainer, uninitialized, inner_node, leaf_node, free_node,
  last_free_node, unrecognized, SlabNodeContainer, slab_node_of, slab_node_members, SlabContainer,
  slab_of, slab_members, slab_node_layout, slab_layout, node_layout, uninitialized_layout,
  last_free_node_layout, uninitialized_tag, inner_node_tag, leaf_node_tag, free_node_tag,
  last_free_node_tag,
}

-- The values that the layout SLAB_HEADER_LAYOUT can hold.
pub record SlabHeaderContainerFits (x : SlabHeaderContainer) : Type 0 where
  pub bump_index : x.bump_index < 256 ^ 4
  pub free_list_length : x.free_list_length < 256 ^ 4
  pub free_list_head : x.free_list_head < 256 ^ 4
  pub root : x.root < 256 ^ 4
  pub leaf_count : x.leaf_count < 256 ^ 4

unfoldable pub encode_slab_header : SlabHeaderContainer → Bytes
encode_slab_header x =
    low_bytes 4 x.bump_index
    ++ (replicate 4 0
        ++ (low_bytes 4 x.free_list_length
            ++ (replicate 4 0
                ++ (low_bytes 4 x.free_list_head
                    ++ (low_bytes 4 x.root ++ (low_bytes 4 x.leaf_count ++ replicate 4 0))))))

pub slab_header_layout-Parses :
    ⦃lib : Construct⦄ (x : SlabHeaderContainer)
    → SlabHeaderContainerFits x
    → Parses slab_header_layout (encode_slab_header x) x
unfolding slab_header_layout encode_slab_header
slab_header_layout-Parses x h = named-Parses slab_header_of slab_header_members (
    uint-Parses 4 x.bump_index h.bump_index
    ⨟ₚ padding-Parses 4
    ⨟ₚ uint-Parses 4 x.free_list_length h.free_list_length
    ⨟ₚ padding-Parses 4
    ⨟ₚ uint-Parses 4 x.free_list_head h.free_list_head
    ⨟ₚ uint-Parses 4 x.root h.root
    ⨟ₚ uint-Parses 4 x.leaf_count h.leaf_count
    ⨟ₚ padding-Parses 4)

pub slab_header_layout-HasSize : ⦃lib : Construct⦄ → HasSize slab_header_layout 32
unfolding slab_header_layout
slab_header_layout-HasSize = named-HasSize slab_header_of slab_header_members (
    uint-HasSize 4
    ⨟ₛ padding-HasSize 4
    ⨟ₛ uint-HasSize 4
    ⨟ₛ padding-HasSize 4
    ⨟ₛ uint-HasSize 4
    ⨟ₛ uint-HasSize 4
    ⨟ₛ uint-HasSize 4
    ⨟ₛ padding-HasSize 4)

-- The values that the layout INNER_NODE can hold.
pub record InnerNodeContainerFits (x : InnerNodeContainer) : Type 0 where
  pub prefix_len : x.prefix_len < 256 ^ 4
  pub key : length x.key ≡ 16
  pub children_count : length x.children ≡ 2
  pub children : All (λ c. c < 256 ^ 4) x.children

unfoldable pub encode_inner_node : InnerNodeContainer → Bytes
encode_inner_node x =
    low_bytes 4 x.prefix_len ++ (x.key ++ (encode_all (low_bytes 4) x.children ++ replicate 40 0))

pub inner_node_layout-Parses :
    ⦃lib : Construct⦄ (x : InnerNodeContainer)
    → InnerNodeContainerFits x
    → Parses inner_node_layout (encode_inner_node x) x
unfolding inner_node_layout encode_inner_node
inner_node_layout-Parses x h = named-Parses inner_node_of inner_node_members (
    uint-Parses 4 x.prefix_len h.prefix_len
    ⨟ₚ bytes-Parses 16 x.key h.key
    ⨟ₚ repeat-Parses 2 _ (low_bytes 4) x.children h.children_count
        (All-map (uint-Parses 4) x.children h.children)
    ⨟ₚ padding-Parses 40)

pub inner_node_layout-HasSize : ⦃lib : Construct⦄ → HasSize inner_node_layout 68
unfolding inner_node_layout
inner_node_layout-HasSize =
    named-HasSize inner_node_of inner_node_members
      (uint-HasSize 4 ⨟ₛ bytes-HasSize 16 ⨟ₛ array-HasSize 2 (uint-HasSize 4) ⨟ₛ padding-HasSize 40)

-- The values that the layout LEAF_NODE can hold.
pub record LeafNodeContainerFits (x : LeafNodeContainer) : Type 0 where
  pub owner_slot : x.owner_slot < 256 ^ 1
  pub fee_tier : x.fee_tier < 256 ^ 1
  pub key : length x.key ≡ 16
  pub owner : length x.owner ≡ 32
  pub quantity : x.quantity < 256 ^ 8
  pub client_order_id : x.client_order_id < 256 ^ 8

unfoldable pub encode_leaf_node : LeafNodeContainer → Bytes
encode_leaf_node x =
    low_bytes 1 x.owner_slot
    ++ (low_bytes 1 x.fee_tier
        ++ (replicate 2 0
            ++ (x.key ++ (x.owner ++ (low_bytes 8 x.quantity ++ low_bytes 8 x.client_order_id)))))

pub leaf_node_layout-Parses :
    ⦃lib : Construct⦄ (x : LeafNodeContainer)
    → LeafNodeContainerFits x
    → Parses leaf_node_layout (encode_leaf_node x) x
unfolding leaf_node_layout encode_leaf_node
leaf_node_layout-Parses x h = named-Parses leaf_node_of leaf_node_members (
    uint-Parses 1 x.owner_slot h.owner_slot
    ⨟ₚ uint-Parses 1 x.fee_tier h.fee_tier
    ⨟ₚ padding-Parses 2
    ⨟ₚ bytes-Parses 16 x.key h.key
    ⨟ₚ bytes-Parses 32 x.owner h.owner
    ⨟ₚ uint-Parses 8 x.quantity h.quantity
    ⨟ₚ uint-Parses 8 x.client_order_id h.client_order_id)

pub leaf_node_layout-HasSize : ⦃lib : Construct⦄ → HasSize leaf_node_layout 68
unfolding leaf_node_layout
leaf_node_layout-HasSize = named-HasSize leaf_node_of leaf_node_members (
    uint-HasSize 1
    ⨟ₛ uint-HasSize 1
    ⨟ₛ padding-HasSize 2
    ⨟ₛ bytes-HasSize 16
    ⨟ₛ bytes-HasSize 32
    ⨟ₛ uint-HasSize 8
    ⨟ₛ uint-HasSize 8)

-- The values that the layout FREE_NODE can hold.
pub record FreeNodeContainerFits (x : FreeNodeContainer) : Type 0 where
  pub next : x.next < 256 ^ 4

unfoldable pub encode_free_node : FreeNodeContainer → Bytes
encode_free_node x = low_bytes 4 x.next ++ replicate 64 0

pub free_node_layout-Parses :
    ⦃lib : Construct⦄ (x : FreeNodeContainer)
    → FreeNodeContainerFits x
    → Parses free_node_layout (encode_free_node x) x
unfolding free_node_layout encode_free_node
free_node_layout-Parses x h =
    named-Parses free_node_of free_node_members (uint-Parses 4 x.next h.next ⨟ₚ padding-Parses 64)

pub free_node_layout-HasSize : ⦃lib : Construct⦄ → HasSize free_node_layout 68
unfolding free_node_layout
free_node_layout-HasSize =
    named-HasSize free_node_of free_node_members (uint-HasSize 4 ⨟ₛ padding-HasSize 64)

-- The tag of a node goes with the value behind it.
abbrev pub NodeFits : ℕ → NodeContainer → Type 0
NodeFits tag uninitialized = tag ≡ uninitialized_tag
NodeFits tag (inner_node n) = (tag ≡ inner_node_tag) × InnerNodeContainerFits n
NodeFits tag (leaf_node n) = (tag ≡ leaf_node_tag) × LeafNodeContainerFits n
NodeFits tag (free_node n) = (tag ≡ free_node_tag) × FreeNodeContainerFits n
NodeFits tag last_free_node = tag ≡ last_free_node_tag
NodeFits tag unrecognized = (last_free_node_tag < tag) × (tag < 256 ^ 4)

unfoldable pub encode_node : NodeContainer → Bytes
unfolding encode_inner_node encode_leaf_node encode_free_node
encode_node uninitialized = replicate 68 0
encode_node (inner_node n) = encode_inner_node n
encode_node (leaf_node n) = encode_leaf_node n
encode_node (free_node n) = encode_free_node n
encode_node last_free_node = replicate 68 0
encode_node unrecognized = []

unfoldable pub encode_slab_node : SlabNodeContainer → Bytes
unfolding encode_node
encode_slab_node x = low_bytes 4 x.tag ++ encode_node x.node

tag-lt : (tag : ℕ) (node : NodeContainer) → NodeFits tag node → tag < 256 ^ 4
tag-lt tag uninitialized h = omega arith
tag-lt tag (inner_node n) (e, h) = omega arith
tag-lt tag (leaf_node n) (e, h) = omega arith
tag-lt tag (free_node n) (e, h) = omega arith
tag-lt tag last_free_node h = omega arith
tag-lt tag unrecognized (above, h) = h

pub choice-Parses :
    {A B : Type 0} (to : A → B) (from : B → Option A) {c : Codec A} {b : Bytes} {a : A}
    → Parses c b a
    → Parses (choice to from c) b (to a)
choice-Parses to from h = record { run = λ rest. rw (h.run rest) refl }

module _ ⦃lib : Construct⦄ where
  node_layout-Parses :
      (tag : ℕ) (node : NodeContainer)
      → NodeFits tag node
      → Parses (node_layout tag) (encode_node node) node
  unfolding node_layout encode_node uninitialized_layout last_free_node_layout
  node_layout-Parses tag uninitialized h = rw h (choice-Parses _ _ (padding-Parses 68))
  node_layout-Parses tag (inner_node n) (e, h) =
      rw e (choice-Parses _ _ (inner_node_layout-Parses n h))
  node_layout-Parses tag (leaf_node n) (e, h) =
      rw e (choice-Parses _ _ (leaf_node_layout-Parses n h))
  node_layout-Parses tag (free_node n) (e, h) =
      rw e (choice-Parses _ _ (free_node_layout-Parses n h))
  node_layout-Parses tag last_free_node h = rw h (choice-Parses _ _ (padding-Parses 68))
  node_layout-Parses tag unrecognized (above, h) =
      rw
        (
          ==_false tag uninitialized_tag (omega arith),
          ==_false tag inner_node_tag (omega arith),
          ==_false tag leaf_node_tag (omega arith),
          ==_false tag free_node_tag (omega arith),
          ==_false tag last_free_node_tag (omega arith),
        )
        (choice-Parses _ _ pass-Parses)

  slab_node_layout-Parses :
      (x : SlabNodeContainer)
      → NodeFits x.tag x.node
      → Parses slab_node_layout (encode_slab_node x) x
  unfolding slab_node_layout encode_slab_node
  slab_node_layout-Parses x h = named-Parses slab_node_of slab_node_members (
      field-Parses node_layout (uint-Parses 4 x.tag (tag-lt x.tag x.node h))
        (node_layout-Parses x.tag x.node h))

-- The values that SLAB_LAYOUT can hold: the header counts the nodes.
pub record SlabContainerFits (x : SlabContainer) : Type 0 where
  pub header : SlabHeaderContainerFits x.header
  pub count : length x.nodes ≡ x.header.bump_index
  pub nodes : All (λ n. NodeFits n.tag n.node) x.nodes

unfoldable pub encode_slab : SlabContainer → Bytes
unfolding encode_slab_header encode_slab_node
encode_slab x = encode_slab_header x.header ++ encode_all encode_slab_node x.nodes

pub slab_layout-Parses :
    ⦃lib : Construct⦄ (x : SlabContainer)
    → SlabContainerFits x
    → Parses slab_layout (encode_slab x) x
unfolding slab_layout encode_slab
slab_layout-Parses ⦃lib⦄ x h = named-Parses slab_of slab_members (
    field-Parses (λ header. lib.array header.bump_index slab_node_layout)
      (slab_header_layout-Parses x.header h.header)
      (repeat-Parses x.header.bump_index slab_node_layout encode_slab_node x.nodes h.count
        (All-map slab_node_layout-Parses x.nodes h.nodes)))
