-- ===== src/Layouts/Slab.antt =====
-- pyserum/_layouts/slab.py: the header and the nodes of a slab.
use pyserum.Base.{ℕ, Option, none, some, List, ok, err, ◌>>=◌, key_error, ◌==◌, if◌then◌else◌}
use pyserum.Base.Bytes.{Bytes}
use pyserum.Construct.{Codec, Construct, named, int8ul, int32ul, int64ul, bytes, padding, ◌⨟◌}

pub record SlabHeaderContainer : Type 0 where
  pub bump_index : ℕ
  pub free_list_length : ℕ
  pub free_list_head : ℕ
  pub root : ℕ
  pub leaf_count : ℕ

abbrev pub slab_header_of :
    ℕ × (Unit {0} × (ℕ × (Unit {0} × (ℕ × (ℕ × (ℕ × Unit {0})))))) → SlabHeaderContainer
slab_header_of
      (bump_index, (_, (free_list_length, (_, (free_list_head, (root, (leaf_count, _))))))) =
    record {
      bump_index = bump_index;
      free_list_length = free_list_length;
      free_list_head = free_list_head;
      root = root;
      leaf_count = leaf_count;
    }

abbrev pub slab_header_members :
    SlabHeaderContainer → ℕ × (Unit {0} × (ℕ × (Unit {0} × (ℕ × (ℕ × (ℕ × Unit {0}))))))
slab_header_members x = (
  x.bump_index,
  (tt, (x.free_list_length, (tt, (x.free_list_head, (x.root, (x.leaf_count, tt)))))),
)

pub record InnerNodeContainer : Type 0 where
  pub prefix_len : ℕ
  pub key : Bytes
  pub children : List ℕ

abbrev pub inner_node_of : ℕ × (Bytes × (List ℕ × Unit {0})) → InnerNodeContainer
inner_node_of (prefix_len, (key, (children, _))) = record {
  prefix_len = prefix_len;
  key = key;
  children = children;
}

abbrev pub inner_node_members : InnerNodeContainer → ℕ × (Bytes × (List ℕ × Unit {0}))
inner_node_members x = (x.prefix_len, (x.key, (x.children, tt)))

pub record LeafNodeContainer : Type 0 where
  pub owner_slot : ℕ
  pub fee_tier : ℕ
  pub key : Bytes
  pub owner : Bytes
  pub quantity : ℕ
  pub client_order_id : ℕ

abbrev pub leaf_node_of : ℕ × (ℕ × (Unit {0} × (Bytes × (Bytes × (ℕ × ℕ))))) → LeafNodeContainer
leaf_node_of (owner_slot, (fee_tier, (_, (key, (owner, (quantity, client_order_id)))))) = record {
  owner_slot = owner_slot;
  fee_tier = fee_tier;
  key = key;
  owner = owner;
  quantity = quantity;
  client_order_id = client_order_id;
}

abbrev pub leaf_node_members :
    LeafNodeContainer → ℕ × (ℕ × (Unit {0} × (Bytes × (Bytes × (ℕ × ℕ)))))
leaf_node_members x =
    (x.owner_slot, (x.fee_tier, (tt, (x.key, (x.owner, (x.quantity, x.client_order_id))))))

pub record FreeNodeContainer : Type 0 where
  pub next : ℕ

abbrev pub free_node_of : ℕ × Unit {0} → FreeNodeContainer
free_node_of (next, _) = record { next = next }

abbrev pub free_node_members : FreeNodeContainer → ℕ × Unit {0}
free_node_members x = (x.next, tt)

-- What the Switch on the tag parses; `unrecognized` stands for None, the value of its default.
pub data NodeContainer : Type 0 where
  uninitialized : NodeContainer
  inner_node : InnerNodeContainer → NodeContainer
  leaf_node : LeafNodeContainer → NodeContainer
  free_node : FreeNodeContainer → NodeContainer
  last_free_node : NodeContainer
  unrecognized : NodeContainer

-- One of the values of a Switch: the other ones cannot be built by its layout.
abbrev pub choice : {A B : Type 0} → (A → B) → (B → Option A) → Codec A → Codec B
choice to from c = record {
  parse = (λ bs. c.parse bs >>= λ (a, rest). ok (to a, rest));
  build = (λ b. elim (from b) [ none ↦ err key_error | some a ↦ c.build a ]);
  sizeof = c.sizeof;
}

abbrev as_uninitialized : NodeContainer → Option (Unit {0})
as_uninitialized uninitialized = some tt
as_uninitialized _ = none

abbrev as_inner_node : NodeContainer → Option InnerNodeContainer
as_inner_node (inner_node n) = some n
as_inner_node _ = none

abbrev as_leaf_node : NodeContainer → Option LeafNodeContainer
as_leaf_node (leaf_node n) = some n
as_leaf_node _ = none

abbrev as_free_node : NodeContainer → Option FreeNodeContainer
as_free_node (free_node n) = some n
as_free_node _ = none

abbrev as_last_free_node : NodeContainer → Option (Unit {0})
as_last_free_node last_free_node = some tt
as_last_free_node _ = none

abbrev as_unrecognized : NodeContainer → Option (Unit {0})
as_unrecognized unrecognized = some tt
as_unrecognized _ = none

-- A parsed SLAB_NODE_LAYOUT, SLAB_LAYOUT and ORDER_BOOK_LAYOUT.
pub record SlabNodeContainer : Type 0 where
  pub tag : ℕ
  pub node : NodeContainer

abbrev pub slab_node_of : ℕ × NodeContainer → SlabNodeContainer
slab_node_of (tag, node) = record { tag = tag; node = node }

abbrev pub slab_node_members : SlabNodeContainer → ℕ × NodeContainer
slab_node_members x = (x.tag, x.node)

pub record SlabContainer : Type 0 where
  pub header : SlabHeaderContainer
  pub nodes : List SlabNodeContainer

abbrev pub slab_of : SlabHeaderContainer × List SlabNodeContainer → SlabContainer
slab_of (header, nodes) = record { header = header; nodes = nodes }

abbrev pub slab_members : SlabContainer → SlabHeaderContainer × List SlabNodeContainer
slab_members x = (x.header, x.nodes)

-- The members of NodeType, by the tags that stand for them.
abbrev pub uninitialized_tag : ℕ
uninitialized_tag = 0

abbrev pub inner_node_tag : ℕ
inner_node_tag = 1

abbrev pub leaf_node_tag : ℕ
leaf_node_tag = 2

abbrev pub free_node_tag : ℕ
free_node_tag = 3

abbrev pub last_free_node_tag : ℕ
last_free_node_tag = 4

module _ ⦃lib : Construct⦄ where
  -- SLAB_HEADER_LAYOUT
  unfoldable pub slab_header_layout : Codec SlabHeaderContainer
  slab_header_layout =
      named slab_header_of slab_header_members
        (int32ul ⨟ padding 4 ⨟ int32ul ⨟ padding 4 ⨟ int32ul ⨟ int32ul ⨟ int32ul ⨟ padding 4)

  -- INNER_NODE
  unfoldable pub inner_node_layout : Codec InnerNodeContainer
  inner_node_layout =
      named inner_node_of inner_node_members (int32ul ⨟ bytes 16 ⨟ lib.array 2 int32ul ⨟ padding 40)

  -- LEAF_NODE
  unfoldable pub leaf_node_layout : Codec LeafNodeContainer
  leaf_node_layout =
      named leaf_node_of leaf_node_members
        (int8ul ⨟ int8ul ⨟ padding 2 ⨟ bytes 16 ⨟ bytes 32 ⨟ int64ul ⨟ int64ul)

  -- FREE_NODE
  unfoldable pub free_node_layout : Codec FreeNodeContainer
  free_node_layout = named free_node_of free_node_members (int32ul ⨟ padding 64)

  -- UNINTIALIZED and LAST_FREE_NODE
  unfoldable pub uninitialized_layout : Codec (Unit {0})
  uninitialized_layout = padding 68

  unfoldable pub last_free_node_layout : Codec (Unit {0})
  last_free_node_layout = padding 68

  -- The Switch of SLAB_NODE_LAYOUT; its default is Pass, which reads nothing.
  unfoldable pub node_layout : ℕ → Codec NodeContainer
  node_layout tag =
      if tag == uninitialized_tag
      then choice (λ _. uninitialized) as_uninitialized uninitialized_layout
      else if tag == inner_node_tag
      then choice inner_node as_inner_node inner_node_layout
      else if tag == leaf_node_tag
      then choice leaf_node as_leaf_node leaf_node_layout
      else if tag == free_node_tag
      then choice free_node as_free_node free_node_layout
      else if tag == last_free_node_tag
      then choice (λ _. last_free_node) as_last_free_node last_free_node_layout
      else choice (λ _. unrecognized) as_unrecognized lib.pass

  -- SLAB_NODE_LAYOUT
  unfoldable pub slab_node_layout : Codec SlabNodeContainer
  unfolding node_layout
  slab_node_layout = named slab_node_of slab_node_members (lib.field int32ul node_layout)

  -- SLAB_LAYOUT
  unfoldable pub slab_layout : Codec SlabContainer
  slab_layout =
      named slab_of slab_members
        (lib.field slab_header_layout (λ header. lib.array header.bump_index slab_node_layout))
