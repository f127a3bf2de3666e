-- ===== src/Slab/Wire.antt =====
-- The wire form of a slab, and that decoding it gives the slab back.
use pyserum.Base.{◌^◌, ◌<◌, ◌≡◌, true, false, map, pos, negsuc, length, All}
use pyserum.Base.Bytes.{Bytes, low_bytes}
use pyserum.Construct.{Construct}
use pyserum.Solana.{PublicKeys}
use pyserum.Layouts.Slab.{
  inner_node, leaf_node, free_node, uninitialized, last_free_node, SlabNodeContainer, SlabContainer,
  uninitialized_tag, inner_node_tag, leaf_node_tag, free_node_tag, last_free_node_tag,
}
use pyserum.Slab.Defs.{SlabNode, plain, leaf, inner, Slab, none_next}

module _ (keys : PublicKeys) where
  open keys use {PublicKey, public_key, key_bytes, length-key_bytes, public_key-key_bytes}

  -- The program's slab on the wire: what the fields of each node are encoded by.
  container_of : SlabNode PublicKey → SlabNodeContainer
  container_of (plain false next) = record { tag = uninitialized_tag; node = uninitialized }
  container_of (plain true (pos next)) = record {
    tag = free_node_tag;
    node = free_node (record { next = next });
  }
  container_of (plain true (negsuc n)) = record { tag = last_free_node_tag; node = last_free_node }
  container_of (leaf l) = record {
    tag = leaf_node_tag;
    node = leaf_node (record {
      owner_slot = l.owner_slot;
      fee_tier = l.fee_tier;
      key = low_bytes 16 l.key;
      owner = key_bytes l.owner;
      quantity = l.quantity;
      client_order_id = l.client_order_id;
    });
  }
  container_of (inner n) = record {
    tag = inner_node_tag;
    node =
        inner_node
          (record { prefix_len = n.prefix_len; key = low_bytes 16 n.key; children = n.children });
  }

  unfoldable pub wire_slab : Slab PublicKey → SlabContainer
  unfolding container_of
  wire_slab s = record {
    header = record {
      bump_index = s.header.bump_index;
      free_list_length = s.header.free_list_length;
      free_list_head = s.header.free_list_root;
      root = s.header.root;
      leaf_count = s.header.leaf_count;
    };
    nodes = map container_of s.nodes;
  }

  -- A node as the decoder makes it, with numbers that fit their fields on the wire.
  abbrev pub NodeIsDecoded : SlabNode PublicKey → Type 0
  NodeIsDecoded (plain false next) = next ≡ none_next
  NodeIsDecoded (plain true (pos next)) = next < 256 ^ 4
  NodeIsDecoded (plain true (negsuc n)) = n ≡ 0
  NodeIsDecoded (leaf l) =
      (l.is_initialized ≡ true)
      × (l.next ≡ none_next)
      × (l.owner_slot < 256 ^ 1)
      × (l.fee_tier < 256 ^ 1)
      × (l.key < 256 ^ 16)
      × (l.quantity < 256 ^ 8)
      × (l.client_order_id < 256 ^ 8)
  NodeIsDecoded (inner n) =
      (n.is_initialized ≡ true)
      × (n.next ≡ none_next)
      × (n.prefix_len < 256 ^ 4)
      × (n.key < 256 ^ 16)
      × (length n.children ≡ 2)
      × All (λ c. c < 256 ^ 4) n.children

  pub record IsDecoded (s : Slab PublicKey) : Type 0 where
    pub bump_index : s.header.bump_index < 256 ^ 4
    pub free_list_length : s.header.free_list_length < 256 ^ 4
    pub free_list_root : s.header.free_list_root < 256 ^ 4
    pub root : s.header.root < 256 ^ 4
    pub leaf_count : s.header.leaf_count < 256 ^ 4
    pub count : length s.nodes ≡ s.header.bump_index
    pub nodes : All NodeIsDecoded s.nodes
