-- ===== src/Slab/Decode.antt =====
-- `Slab.from_bytes` and `Slab.__build`: from the bytes of an account to a slab.
use pyserum.Base.{
  true, false, List, pos, negsuc, Result, ok, err, attribute_error, ◌>>=◌, map_result, ◌==◌,
  if◌then◌else◌,
}
use pyserum.Base.Bytes.{Bytes, low_bytes}
use pyserum.Base.Bytes
use pyserum.Construct.{Construct}
use pyserum.Solana.{PublicKeys}
use pyserum.Layouts.Slab.{
  inner_node, leaf_node, free_node, SlabNodeContainer, slab_layout, uninitialized_tag,
  inner_node_tag, leaf_node_tag, free_node_tag, last_free_node_tag,
}
use pyserum.Slab.Defs.{SlabNode, plain, leaf, inner, Slab, none_next}

module _ (keys : PublicKeys) where
  open keys use {PublicKey, public_key, key_bytes}

  -- The body of the loop in `__build`: reading a field that the parsed node lacks raises, and so does
  -- the message of the last branch, which reads `node.tag` of a node that is None.
  unfoldable pub build_node : SlabNodeContainer → Result (SlabNode PublicKey)
  build_node construct_node =
      if construct_node.tag == uninitialized_tag
      then ok (plain false (negsuc 0))
      else if construct_node.tag == leaf_node_tag
      then elim construct_node.node [
        | leaf_node node ↦ ok (
            leaf (record {
              is_initialized = true;
              next = none_next;
              owner_slot = node.owner_slot;
              fee_tier = node.fee_tier;
              key = Bytes.from_bytes node.key;
              owner = public_key node.owner;
              quantity = node.quantity;
              client_order_id = node.client_order_id;
            }))
        | _ ↦ err attribute_error
      ]
      else if construct_node.tag == inner_node_tag
      then elim construct_node.node [
        | inner_node node ↦ ok (
            inner (record {
              is_initialized = true;
              next = none_next;
              prefix_len = node.prefix_len;
              key = Bytes.from_bytes node.key;
              children = node.children;
            }))
        | _ ↦ err attribute_error
      ]
      else if construct_node.tag == free_node_tag
      then elim construct_node.node [
        | free_node node ↦ ok (plain true (pos node.next))
        | _ ↦ err attribute_error
      ]
      else if construct_node.tag == last_free_node_tag
      then ok (plain true none_next)
      else err attribute_error

  -- Slab.__build
  unfoldable pub build : List SlabNodeContainer → Result (List (SlabNode PublicKey))
  unfolding build_node
  build nodes = map_result build_node nodes

  -- Slab.from_bytes
  unfoldable pub from_bytes : ⦃lib : Construct⦄ → Bytes → Result (Slab PublicKey)
  unfolding build
  from_bytes buffer = do
    (parsed_slab, rest) ← slab_layout.parse buffer
    let header = parsed_slab.header
    nodes ← build parsed_slab.nodes
    ok (record {
      header = record {
        bump_index = header.bump_index;
        free_list_length = header.free_list_length;
        free_list_root = header.free_list_head;
        root = header.root;
        leaf_count = header.leaf_count;
      };
      nodes = nodes;
    })
