-- ===== src/Slab/Defs.antt =====
-- The classes of pyserum/market/_internal/slab.py, `Slab.get` and `Slab.items`. `Key` is the
-- solana package's PublicKey. A `while` loop takes fuel, a bound on its rounds.
use pyserum.Base.{
  ℕ, zero, suc, ◌-◌, ◌%◌, Bool, Option, none, some, List, [], ◌∷◌, bit_xor, ℤ, negsuc, Error,
  index_error, value_error, node_type_not_recognized, neither_leaf_nor_inner, out_of_fuel, Result,
  ok, err, ◌>>=◌, or_raise, Iteration, leb, ◌==◌, if◌then◌else◌, get_elem?,
}
use pyserum.Base.Bits.{shr}

pub record SlabHeader : Type 0 where
  pub bump_index : ℕ
  pub free_list_length : ℕ
  pub free_list_root : ℕ
  pub root : ℕ
  pub leaf_count : ℕ

-- NONE_NEXT = -1
abbrev pub none_next : ℤ
none_next = negsuc 0

-- The fields `is_initialized` and `next` of the base class come first.
pub record SlabLeafNode (Key : Type 0) : Type 0 where
  pub is_initialized : Bool
  pub next : ℤ
  pub owner_slot : ℕ
  pub fee_tier : ℕ
  pub key : ℕ
  pub owner : Key
  pub quantity : ℕ
  pub client_order_id : ℕ

pub record SlabInnerNode : Type 0 where
  pub is_initialized : Bool
  pub next : ℤ
  pub prefix_len : ℕ
  pub key : ℕ
  pub children : List ℕ

-- The base class itself stands for nodes that are uninitialized or free.
pub data SlabNode (Key : Type 0) : Type 0 where
  plain : Bool → ℤ → SlabNode Key
  leaf : SlabLeafNode Key → SlabNode Key
  inner : SlabInnerNode → SlabNode Key

pub record Slab (Key : Type 0) : Type 0 where
  pub header : SlabHeader
  pub nodes : List (SlabNode Key)

-- `x >> (a - b)`: Python refuses a negative count.
unfoldable pub shift_right : ℕ → ℕ → ℕ → Result ℕ
shift_right x a b = if leb b a then ok (shr x (a - b)) else err value_error

-- The tests on an inner node in `get`: `none` to give up, or the index of the next node.
unfoldable pub choose_child : SlabInnerNode → ℕ → Result (Option ℕ)
unfolding shift_right
choose_child node search_key = do
  differing ← shift_right (bit_xor node.key search_key) 128 node.prefix_len
  let chosen = do
    bits ← shift_right search_key 128 (suc node.prefix_len)
    child ← or_raise (get_elem? node.children (bits % 2)) index_error
    ok (some child)
  if differing == 0 then chosen else ok none

-- The children in the order in which `items` pushes them, so that the last is popped first.
unfoldable pub push_children : Bool → List ℕ → List ℕ → Result (List ℕ)
push_children descending children stack = do
  left ← or_raise (get_elem? children 0) index_error
  right ← or_raise (get_elem? children 1) index_error
  ok (if descending then right ∷ left ∷ stack else left ∷ right ∷ stack)

module _ {Key : Type 0} where
  -- `while True` in `get`, from the node at `index`.
  unfoldable pub get_from : ℕ → List (SlabNode Key) → ℕ → ℕ → Result (Option (SlabLeafNode Key))
  unfolding choose_child
  get_from zero nodes search_key index = err out_of_fuel
  get_from (suc fuel) nodes search_key index = elim (get_elem? nodes index) [
    | none ↦ err index_error
    | some (leaf node) ↦ ok (if node.key == search_key then some node else none)
    | some (inner node) ↦ elim (choose_child node search_key) [
      | err e ↦ err e
      | ok none ↦ ok none
      | ok (some child) ↦ get_from fuel nodes search_key child
    ]
    | some (plain _ _) ↦ err node_type_not_recognized
  ]

  unfoldable pub get : ℕ → Slab Key → ℕ → Result (Option (SlabLeafNode Key))
  unfolding get_from
  get fuel s search_key =
      if s.header.leaf_count == 0 then ok none else get_from fuel s.nodes search_key s.header.root

  -- `yield node`, before what the rest of the generator does.
  abbrev pub yield_item :
      SlabLeafNode Key → Iteration (SlabLeafNode Key) → Iteration (SlabLeafNode Key)
  yield_item node rest = record { yielded = node ∷ rest.yielded; ended = rest.ended }

  abbrev pub raise_item : Error → Iteration (SlabLeafNode Key)
  raise_item e = record { yielded = []; ended = err e }

  -- `while stack` in `items`; the top of the stack is the head of the list.
  unfoldable pub items_from : ℕ → List (SlabNode Key) → Bool → List ℕ → Iteration (SlabLeafNode Key)
  unfolding push_children
  items_from fuel nodes descending [] = record { yielded = []; ended = ok tt }
  items_from zero nodes descending (index ∷ stack) = raise_item out_of_fuel
  items_from (suc fuel) nodes descending (index ∷ stack) = elim (get_elem? nodes index) [
    | none ↦ raise_item index_error
    | some (leaf node) ↦ yield_item node (items_from fuel nodes descending stack)
    | some (inner node) ↦ elim (push_children descending node.children stack) [
      | err e ↦ raise_item e
      | ok stack' ↦ items_from fuel nodes descending stack'
    ]
    | some (plain _ _) ↦ raise_item neither_leaf_nor_inner
  ]

  unfoldable pub items : ℕ → Slab Key → Bool → Iteration (SlabLeafNode Key)
  unfolding items_from
  items fuel s descending =
      if s.header.leaf_count == 0
      then record { yielded = []; ended = ok tt }
      else items_from fuel s.nodes descending (s.header.root ∷ [])
