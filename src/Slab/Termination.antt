-- ===== src/Slab/Termination.antt =====
-- That the search in a slab ends, if its nodes have no cycle, whatever else the slab holds.
use pyserum.Base.{
  ℕ, zero, suc, ◌+◌, ◌<◌, ◌%◌, ◌≡◌, ◌≢◌, refl, ap, sym, subst, Bool, true, false, true≢false,
  Option, none, some, List, [], ◌∷◌, All, Error, out_of_fuel, value_error, index_error,
  node_type_not_recognized, Result, ok, err, ◌>>=◌, or_raise, get_elem?, if◌then◌else◌, ◌==◌, leb,
  Bool-cases, inl, inr, arith, bit_xor,
}
use pyserum.Slab.Defs.{
  SlabNode, SlabInnerNode, SlabLeafNode, Slab, leaf, inner, plain, shift_right, choose_child,
  get_from, get,
}
use pyserum.Slab.Fuel.{follow, visit, get_from_more}

add_zero : (m : ℕ) → m + 0 ≡ m
add_zero m = omega arith

zero_over : (n : ℕ) → 0 + n ≡ n
zero_over n = omega arith

suc_over : (m n : ℕ) → m + suc n ≡ suc m + n
suc_over m n = omega arith

-- The children of an inner node rank below the node at the index.
abbrev pub Falls : {Key : Type 0} → (ℕ → ℕ) → ℕ → SlabNode Key → Type 0
Falls rank index (inner node) = All (λ child. rank child < rank index) node.children
Falls rank index (leaf node) = Unit
Falls rank index (plain _ _) = Unit

-- The nodes from some index on have children of a lower rank, whatever else they hold.
abbrev pub AllFall : {Key : Type 0} → (ℕ → ℕ) → ℕ → List (SlabNode Key) → Type 0
AllFall rank index [] = Unit
AllFall rank index (node ∷ nodes) = Falls rank index node × AllFall rank (suc index) nodes

abbrev FallsIf : {Key : Type 0} → (ℕ → ℕ) → ℕ → Option (SlabNode Key) → Type 0
FallsIf rank index none = Unit
FallsIf rank index (some node) = Falls rank index node

module _ {Key : Type 0} (rank : ℕ → ℕ) where
  AllFall-get_elem? :
      (base index : ℕ) (nodes : List (SlabNode Key))
      → AllFall rank base nodes
      → FallsIf rank (base + index) (get_elem? nodes index)
  AllFall-get_elem? base index [] h = tt
  AllFall-get_elem? base zero (node ∷ nodes) (falls, h) = rw (add_zero base) falls
  AllFall-get_elem? base (suc index) (node ∷ nodes) (falls, h) =
      rw (suc_over base index) (AllFall-get_elem? (suc base) index nodes h)

is_fuel : Error → Bool
is_fuel out_of_fuel = true
is_fuel _ = false

value_error_ne : value_error ≢ out_of_fuel
unfolding is_fuel
value_error_ne h = true≢false (sym (ap is_fuel h))

node_type_ne : node_type_not_recognized ≢ out_of_fuel
unfolding is_fuel
node_type_ne h = true≢false (sym (ap is_fuel h))

no_less : (n : ℕ) → n < 0 → ⊥
no_less n h = omega (arith, h)

index_error_ne : index_error ≢ out_of_fuel
unfolding is_fuel
index_error_ne h = true≢false (sym (ap is_fuel h))

-- A result that is not that of a loop without fuel.
abbrev Ends : {A : Type 0} → Result A → Type 0
Ends (ok a) = Unit
Ends (err e) = e ≢ out_of_fuel

raised : {A : Type 0} → Result A → Error
raised (ok b) = value_error
raised (err e) = e

ok_ne : {A : Type 0} (a : A) → ok a ≢ err out_of_fuel
unfolding raised
ok_ne a h = value_error_ne (ap raised h)

abbrev failed : {A : Type 0} → Error → Result A
failed e = err e

err_ne : {A : Type 0} (e : Error) → e ≢ out_of_fuel → failed {A = A} e ≢ err out_of_fuel
unfolding raised
err_ne e other h = other (ap raised h)

-- The choice of a child of a lower rank, or of none, or an exception.
abbrev Lower : (ℕ → ℕ) → ℕ → Result (Option ℕ) → Type 0
Lower rank bound (err e) = e ≢ out_of_fuel
Lower rank bound (ok none) = Unit
Lower rank bound (ok (some child)) = rank child < bound

abbrev LowerIf : (ℕ → ℕ) → ℕ → Option ℕ → Type 0
LowerIf rank bound none = Unit
LowerIf rank bound (some child) = rank child < bound

module _ (rank : ℕ → ℕ) (bound : ℕ) where
  Lower-bind :
      (r : Result ℕ) (next : ℕ → Result (Option ℕ))
      → Ends r
      → ((a : ℕ) → Lower rank bound (next a))
      → Lower rank bound (r >>= next)
  Lower-bind (ok a) next h lower = lower a
  Lower-bind (err e) next h lower = h

  Lower-or_raise :
      (o : Option ℕ)
      → LowerIf rank bound o
      → Lower rank bound (or_raise o index_error >>= λ child. ok (some child))
  Lower-or_raise none h = index_error_ne
  Lower-or_raise (some child) h = h

  Lower-if :
      (b : Bool) (r : Result (Option ℕ))
      → Lower rank bound r
      → Lower rank bound (if b then r else ok none)
  Lower-if true r h = h
  Lower-if false r h = tt

  LowerIf-get_elem? :
      (children : List ℕ) (i : ℕ)
      → All (λ child. rank child < bound) children
      → LowerIf rank bound (get_elem? children i)
  LowerIf-get_elem? [] i h = tt
  LowerIf-get_elem? (child ∷ children) zero (lower, h) = lower
  LowerIf-get_elem? (child ∷ children) (suc i) (lower, h) = LowerIf-get_elem? children i h

  shift_right-Ends : (x a b : ℕ) → Ends (shift_right x a b)
  unfolding shift_right
  shift_right-Ends x a b = elim (Bool-cases (leb b a)) [
    | inl fits ↦ rw fits tt
    | inr negative ↦ rw negative value_error_ne
  ]

  choose_child-Lower :
      (node : SlabInnerNode) (search_key : ℕ)
      → All (λ child. rank child < bound) node.children
      → Lower rank bound (choose_child node search_key)
  unfolding choose_child
  choose_child-Lower node search_key h =
      Lower-bind (shift_right (bit_xor node.key search_key) 128 node.prefix_len) _
        (shift_right-Ends _ 128 node.prefix_len)
        λ differing. Lower-if (differing == 0) _ (
          Lower-bind (shift_right search_key 128 (suc node.prefix_len)) _
            (shift_right-Ends search_key 128 (suc node.prefix_len))
            λ bits.
              Lower-or_raise (get_elem? node.children (bits % 2))
                (LowerIf-get_elem? node.children (bits % 2) h))

module _ {Key : Type 0} (rank : ℕ → ℕ) where
  follow_ends :
      (bound : ℕ) (next : ℕ → Result (Option (SlabLeafNode Key))) (r : Result (Option ℕ))
      → Lower rank bound r
      → ((child : ℕ) → rank child < bound → next child ≢ err out_of_fuel)
      → follow next r ≢ err out_of_fuel
  follow_ends bound next (err e) lower h = err_ne e lower
  follow_ends bound next (ok none) lower h = ok_ne none
  follow_ends bound next (ok (some child)) lower h = h child lower

  visit_ends :
      (search_key index : ℕ) (next : ℕ → Result (Option (SlabLeafNode Key)))
      (o : Option (SlabNode Key))
      → FallsIf rank index o
      → ((child : ℕ) → rank child < rank index → next child ≢ err out_of_fuel)
      → visit search_key next o ≢ err out_of_fuel
  visit_ends search_key index next none falls h = err_ne index_error index_error_ne
  visit_ends search_key index next (some (leaf node)) falls h = ok_ne _
  visit_ends search_key index next (some (inner node)) falls h =
      follow_ends (rank index) next (choose_child node search_key)
        (choose_child-Lower rank (rank index) node search_key falls) h
  visit_ends search_key index next (some (plain _ _)) falls h =
      err_ne node_type_not_recognized node_type_ne

  get_from_ends :
      (fuel : ℕ) (nodes : List (SlabNode Key)) (search_key index : ℕ)
      → AllFall rank 0 nodes
      → rank index < fuel
      → get_from fuel nodes search_key index ≢ err out_of_fuel
  unfolding get_from
  get_from_ends zero nodes search_key index falls enough = elim (no_less (rank index) enough) [ ]
  get_from_ends (suc fuel) nodes search_key index falls enough =
      visit_ends search_key index (get_from fuel nodes search_key) (get_elem? nodes index)
        (subst (λ i. FallsIf rank i (get_elem? nodes index)) (zero_over index)
          (AllFall-get_elem? rank 0 index nodes falls))
        λ child lower.
          get_from_ends fuel nodes search_key child falls (omega (arith, lower, enough))

  -- For any slab in which the children of each inner node rank below it, so that there is no cycle, and
  -- whatever its keys and tags are: `get`, with more rounds than the rank of the root, ends, and more
  -- rounds change nothing.
  pub get-AllFall :
      (s : Slab Key) (search_key fuel more : ℕ)
      → AllFall rank 0 s.nodes
      → rank s.header.root < fuel
      → (get fuel s search_key ≢ err out_of_fuel)
        × (get (more + fuel) s search_key ≡ get fuel s search_key)
  unfolding get
  get-AllFall s search_key fuel more falls enough =
      let ends = get_from_ends fuel s.nodes search_key s.header.root falls enough in
      elim (Bool-cases (s.header.leaf_count == 0)) [
        | inl empty ↦ rw empty (ok_ne none, refl)
        | inr full ↦ rw full (ends, get_from_more fuel more s.nodes search_key s.header.root ends)
      ]
