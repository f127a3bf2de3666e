-- ===== src/Slab/Fuel.antt =====
-- The rounds of the loops over any slab, whether it holds a tree or not.
use pyserum.Base.{
  ℕ, zero, suc, ◌+◌, ◌≡◌, ◌≢◌, refl, Bool, Option, none, some, List, [], ◌∷◌, Result, ok, err,
  out_of_fuel, get_elem?, Iteration, arith, ap, index_error, node_type_not_recognized,
  neither_leaf_nor_inner, ◌==◌, if◌then◌else◌,
}
use pyserum.Slab.Defs.{
  SlabNode, leaf, inner, plain, choose_child, push_children, get_from, items_from, yield_item,
  raise_item, SlabLeafNode,
}

pub add_suc : (m n : ℕ) → m + suc n ≡ suc (m + n)
add_suc m n = omega arith

module _ {Key : Type 0} where
  abbrev pub follow :
      (ℕ → Result (Option (SlabLeafNode Key)))
      → Result (Option ℕ)
      → Result (Option (SlabLeafNode Key))
  follow next r = elim r [ err e ↦ err e | ok none ↦ ok none | ok (some child) ↦ next child ]

  follow_more :
      (f g : ℕ → Result (Option (SlabLeafNode Key))) (r : Result (Option ℕ))
      → ((i : ℕ) → f i ≢ err out_of_fuel → g i ≡ f i)
      → follow f r ≢ err out_of_fuel
      → follow g r ≡ follow f r
  follow_more f g (err e) h ended = refl
  follow_more f g (ok none) h ended = refl
  follow_more f g (ok (some child)) h ended = h child ended

  abbrev pub visit :
      ℕ
      → (ℕ → Result (Option (SlabLeafNode Key)))
      → Option (SlabNode Key)
      → Result (Option (SlabLeafNode Key))
  visit search_key next o = elim o [
    | none ↦ err index_error
    | some (leaf node) ↦ ok (if node.key == search_key then some node else none)
    | some (inner node) ↦ follow next (choose_child node search_key)
    | some (plain _ _) ↦ err node_type_not_recognized
  ]

  visit_more :
      (search_key : ℕ) (f g : ℕ → Result (Option (SlabLeafNode Key))) (o : Option (SlabNode Key))
      → ((i : ℕ) → f i ≢ err out_of_fuel → g i ≡ f i)
      → visit search_key f o ≢ err out_of_fuel
      → visit search_key g o ≡ visit search_key f o
  visit_more search_key f g none h ended = refl
  visit_more search_key f g (some (leaf node)) h ended = refl
  visit_more search_key f g (some (inner node)) h ended =
      follow_more f g (choose_child node search_key) h ended
  visit_more search_key f g (some (plain _ _)) h ended = refl

  pub get_from_more :
      (fuel more : ℕ) (nodes : List (SlabNode Key)) (search_key index : ℕ)
      → get_from fuel nodes search_key index ≢ err out_of_fuel
      → get_from (more + fuel) nodes search_key index ≡ get_from fuel nodes search_key index
  unfolding get_from
  get_from_more zero more nodes search_key index ended = elim (ended refl) [ ]
  get_from_more (suc fuel) more nodes search_key index ended = rw (add_suc more fuel) (
      visit_more search_key (get_from fuel nodes search_key)
        (get_from (more + fuel) nodes search_key) (get_elem? nodes index)
        (get_from_more fuel more nodes search_key) ended)

  abbrev walk :
      (List ℕ → Iteration (SlabLeafNode Key)) → Result (List ℕ) → Iteration (SlabLeafNode Key)
  walk next r = elim r [ err e ↦ raise_item e | ok stack ↦ next stack ]

  walk_more :
      (f g : List ℕ → Iteration (SlabLeafNode Key)) (r : Result (List ℕ))
      → ((stack : List ℕ) → (f stack).ended ≢ err out_of_fuel → g stack ≡ f stack)
      → (walk f r).ended ≢ err out_of_fuel
      → walk g r ≡ walk f r
  walk_more f g (err e) h ended = refl
  walk_more f g (ok stack) h ended = h stack ended

  abbrev pop :
      Bool
      → List ℕ
      → (List ℕ → Iteration (SlabLeafNode Key))
      → Option (SlabNode Key)
      → Iteration (SlabLeafNode Key)
  pop descending stack next o = elim o [
    | none ↦ raise_item index_error
    | some (leaf node) ↦ yield_item node (next stack)
    | some (inner node) ↦ walk next (push_children descending node.children stack)
    | some (plain _ _) ↦ raise_item neither_leaf_nor_inner
  ]

  pop_more :
      (descending : Bool) (stack : List ℕ) (f g : List ℕ → Iteration (SlabLeafNode Key))
      (o : Option (SlabNode Key))
      → ((stack : List ℕ) → (f stack).ended ≢ err out_of_fuel → g stack ≡ f stack)
      → (pop descending stack f o).ended ≢ err out_of_fuel
      → pop descending stack g o ≡ pop descending stack f o
  pop_more descending stack f g none h ended = refl
  pop_more descending stack f g (some (leaf node)) h ended = ap (yield_item node) (h stack ended)
  pop_more descending stack f g (some (inner node)) h ended =
      walk_more f g (push_children descending node.children stack) h ended
  pop_more descending stack f g (some (plain _ _)) h ended = refl

  items_from_empty :
      (fuel : ℕ) (nodes : List (SlabNode Key)) (descending : Bool)
      → items_from fuel nodes descending [] ≡ record { yielded = []; ended = ok tt }
  unfolding items_from
  items_from_empty zero nodes descending = refl
  items_from_empty (suc fuel) nodes descending = refl

  items_from_more :
      (fuel more : ℕ) (nodes : List (SlabNode Key)) (descending : Bool) (stack : List ℕ)
      → (items_from fuel nodes descending stack).ended ≢ err out_of_fuel
      → items_from (more + fuel) nodes descending stack ≡ items_from fuel nodes descending stack
  unfolding items_from
  items_from_more zero zero nodes descending [] ended = refl
  items_from_more zero (suc more) nodes descending [] ended = refl
  items_from_more zero more nodes descending (index ∷ stack) ended = elim (ended refl) [ ]
  items_from_more (suc fuel) more nodes descending [] ended =
      items_from_empty (more + suc fuel) nodes descending
  items_from_more (suc fuel) more nodes descending (index ∷ stack) ended = rw (add_suc more fuel) (
      pop_more descending stack (items_from fuel nodes descending)
        (items_from (more + fuel) nodes descending) (get_elem? nodes index)
        (items_from_more fuel more nodes descending) ended)
