-- ===== src/Slab/Get.antt =====
-- What looking a key up in a slab finds.
use pyserum.Base.{
  ℕ, zero, suc, ◌-◌, ◌%◌, ◌≤◌, ◌<◌, ◌≡◌, ◌≢◌, refl, sym, ap, ◌∙◌, inl, inr, Option, none, some,
  List, [], ◌∷◌, ◌++◌, arith, ok, ==_false, ◌==◌, if◌then◌else◌, Nat-cases, leb-true, bit_xor,
  get_elem?, All, All-map,
}
use Prim.Native.Nat.{max}
use pyserum.Base.Bits.{shr, shr-bit_xor, bit_xor_self, eq_of_bit_xor}
use pyserum.Slab.Defs.{
  SlabLeafNode, SlabInnerNode, SlabNode, leaf, inner, Slab, choose_child, get_from, get,
}
use pyserum.Slab.Tree.{Tree, tip, fork, leaves, Holds, IsSlabOf, IsUnder, IsCritBit}

module _ {Key : Type 0} where
  -- The number of nodes on the longest path from the root.
  abbrev pub height : Tree Key → ℕ
  height (tip l) = 1
  height (fork n left right) = suc (max (height left) (height right))

  -- A search through a list from its front.
  abbrev pub find_key : ℕ → List (SlabLeafNode Key) → Option (SlabLeafNode Key)
  find_key k [] = none
  find_key k (l ∷ ls) = if l.key == k then some l else find_key k ls

  abbrev HasOtherKey : ℕ → SlabLeafNode Key → Type 0
  HasOtherKey k l = l.key ≢ k

  find_key-append_left :
      (k : ℕ) (xs ys : List (SlabLeafNode Key))
      → All (HasOtherKey k) xs
      → find_key k (xs ++ ys) ≡ find_key k ys
  find_key-append_left k [] ys h = refl
  find_key-append_left k (x ∷ xs) ys h =
      rw (==_false x.key k h.0) (find_key-append_left k xs ys h.1)

  find_key-others :
      (k : ℕ) (xs : List (SlabLeafNode Key)) → All (HasOtherKey k) xs → find_key k xs ≡ none
  find_key-others k [] h = refl
  find_key-others k (x ∷ xs) h = rw (==_false x.key k h.0) (find_key-others k xs h.1)

  find_key-append_right :
      (k : ℕ) (xs ys : List (SlabLeafNode Key))
      → All (HasOtherKey k) ys
      → find_key k (xs ++ ys) ≡ find_key k xs
  find_key-append_right k [] ys h = find_key-others k ys h
  find_key-append_right k (x ∷ xs) ys h =
      ap (λ (rest : Option (SlabLeafNode Key)). if x.key == k then some x else rest)
        (find_key-append_right k xs ys h)

-- The search gives up at an inner node whose prefix the key does not share.
choose_child-differs :
    (n : SlabInnerNode) (k : ℕ)
    → n.prefix_len < 128
    → shr k (128 - n.prefix_len) ≢ shr n.key (128 - n.prefix_len)
    → choose_child n k ≡ ok none
unfolding choose_child
choose_child-differs n k h differs =
    let nonzero : shr (bit_xor n.key k) (128 - n.prefix_len) ≢ 0 = λ zeros.
      differs (sym (eq_of_bit_xor _ _ (sym (shr-bit_xor (128 - n.prefix_len) n.key k) ∙ zeros))) in
    rw
      (
        leb-true n.prefix_len 128 (omega arith),
        ==_false (shr (bit_xor n.key k) (128 - n.prefix_len)) 0 nonzero,
      )
      refl

get_elem?-bit : (x i j : ℕ) → get_elem? (i ∷ j ∷ []) (x % 2) ≡ some (if x % 2 == 0 then i else j)
get_elem?-bit x i j = elim (Nat-cases (x % 2) 0) [
  | inl even ↦ rw even refl
  | inr odd ↦ let one : x % 2 ≡ 1 = omega arith in rw one refl
]

-- It goes on to the child that the next bit of the key names.
choose_child-agrees :
    (n : SlabInnerNode) (k i j : ℕ)
    → n.prefix_len < 128
    → shr k (128 - n.prefix_len) ≡ shr n.key (128 - n.prefix_len)
    → n.children ≡ i ∷ j ∷ []
    → choose_child n k ≡ ok (some (if shr k (128 - suc n.prefix_len) % 2 == 0 then i else j))
unfolding choose_child
choose_child-agrees n k i j h agrees e =
    let zeros : shr (bit_xor n.key k) (128 - n.prefix_len) ≡ 0 =
      rw (shr-bit_xor (128 - n.prefix_len) n.key k, agrees)
        (bit_xor_self (shr n.key (128 - n.prefix_len))) in
    rw
      (
        leb-true n.prefix_len 128 (omega arith),
        leb-true (suc n.prefix_len) 128 h,
        zeros,
        e,
        get_elem?-bit (shr k (128 - suc n.prefix_len)) i j,
      )
      refl

module _ {Key : Type 0} where
  -- Leaves that cannot hold the key: they disagree with it on the prefix, or on the next bit.
  others_by_prefix :
      (n : SlabInnerNode) (bit k : ℕ) (ls : List (SlabLeafNode Key))
      → shr k (128 - n.prefix_len) ≢ shr n.key (128 - n.prefix_len)
      → All (IsUnder n bit) ls
      → All (HasOtherKey k) ls
  others_by_prefix n bit k ls differs =
      All-map (λ l under e. differs (sym (ap (λ (x : ℕ). shr x (128 - n.prefix_len)) e) ∙ under.0))
        ls

  others_by_bit :
      (n : SlabInnerNode) (bit k : ℕ) (ls : List (SlabLeafNode Key))
      → shr k (128 - suc n.prefix_len) % 2 ≢ bit
      → All (IsUnder n bit) ls
      → All (HasOtherKey k) ls
  others_by_bit n bit k ls differs =
      All-map
        (λ l under e.
          differs (sym (ap (λ (x : ℕ). shr x (128 - suc n.prefix_len) % 2) e) ∙ under.1))
        ls

  get_from-leaf :
      (nodes : List (SlabNode Key)) (k index fuel : ℕ) (l : SlabLeafNode Key)
      → get_elem? nodes index ≡ some (leaf l)
      → get_from (suc fuel) nodes k index ≡ ok (if l.key == k then some l else none)
  unfolding get_from
  get_from-leaf nodes k index fuel l h = rw (h, get_from) refl

  get_from-stop :
      (nodes : List (SlabNode Key)) (k index fuel : ℕ) (n : SlabInnerNode)
      → get_elem? nodes index ≡ some (inner n)
      → choose_child n k ≡ ok none
      → get_from (suc fuel) nodes k index ≡ ok none
  unfolding get_from
  get_from-stop nodes k index fuel n h e = rw (h, get_from) (rw e refl)

  get_from-child :
      (nodes : List (SlabNode Key)) (k index fuel child : ℕ) (n : SlabInnerNode)
      → get_elem? nodes index ≡ some (inner n)
      → choose_child n k ≡ ok (some child)
      → get_from (suc fuel) nodes k index ≡ get_from fuel nodes k child
  unfolding get_from
  get_from-child nodes k index fuel child n h e = rw (h, get_from) (rw e refl)

  height_pos : (t : Tree Key) → 0 < height t
  height_pos (tip l) = omega arith
  height_pos (fork n left right) = omega arith

  -- At an inner node whose prefix the key shares, the search goes on in the half that can hold it.
  get_from-fork :
      (nodes : List (SlabNode Key)) (k index fuel i j : ℕ) (n : SlabInnerNode)
      (ls rs : List (SlabLeafNode Key))
      → get_elem? nodes index ≡ some (inner n)
      → n.children ≡ i ∷ j ∷ []
      → n.prefix_len < 128
      → shr k (128 - n.prefix_len) ≡ shr n.key (128 - n.prefix_len)
      → All (IsUnder n 0) ls
      → All (IsUnder n 1) rs
      → get_from fuel nodes k i ≡ ok (find_key k ls)
      → get_from fuel nodes k j ≡ ok (find_key k rs)
      → get_from (suc fuel) nodes k index ≡ ok (find_key k (ls ++ rs))
  get_from-fork nodes k index fuel i j n ls rs here children short agrees under_left under_right
        at_left at_right =
      elim (Nat-cases (shr k (128 - suc n.prefix_len) % 2) 0) [
        | inl even ↦
            rw
              (
                get_from-child nodes k index fuel i n here
                    (choose_child-agrees n k i j short agrees children ∙ (rw even refl)),
                at_left,
                find_key-append_right k ls rs
                    (others_by_bit n 1 k rs (rw even (omega arith)) under_right),
              )
              refl
        | inr odd ↦
            rw
              (
                get_from-child nodes k index fuel j n here (
                    choose_child-agrees n k i j short agrees children
                    ∙ (rw (==_false (shr k (128 - suc n.prefix_len) % 2) 0 odd) refl)),
                at_right,
                find_key-append_left k ls rs (others_by_bit n 0 k ls odd under_left),
              )
              refl
      ]

  -- The search from a tree's root finds what a search through the tree's leaves finds.
  get_from-find :
      (t : Tree Key) (nodes : List (SlabNode Key)) (k index fuel : ℕ)
      → Holds nodes index t
      → IsCritBit t
      → height t ≤ fuel
      → get_from fuel nodes k index ≡ ok (find_key k (leaves t))
  get_from-find (tip l) nodes k index zero h v enough = absurd (omega arith)
  get_from-find (fork n left right) nodes k index zero h v enough = absurd (omega arith)
  get_from-find (tip l) nodes k index (suc fuel) h v enough = get_from-leaf nodes k index fuel l h
  get_from-find (fork n left right) nodes k index (suc fuel) h v enough =
      elim (Nat-cases (shr k (128 - n.prefix_len)) (shr n.key (128 - n.prefix_len))) [
        | inr differs ↦
            rw
              (
                get_from-stop nodes k index fuel n h.0 (choose_child-differs n k v.0 differs),
                find_key-append_left k (leaves left) (leaves right)
                    (others_by_prefix n 0 k (leaves left) differs v.1),
                find_key-others k (leaves right)
                    (others_by_prefix n 1 k (leaves right) differs v.2),
              )
              refl
        | inl agrees ↦
            let (i, j, children, at_left, at_right) = h.1 in
            get_from-fork nodes k index fuel i j n (leaves left) (leaves right) h.0 children v.0
              agrees v.1 v.2 (get_from-find left nodes k i fuel at_left v.3 (omega arith))
              (get_from-find right nodes k j fuel at_right v.4 (omega arith))
      ]

  -- On an occupied slab that holds a critical-bit tree, `get`, with a round for each level of the
  -- tree, does not raise, and it returns the first leaf with the key in the order of the leaves,
  -- and None if no leaf has it.
  pub get-find_key :
      (s : Slab Key) (t : Tree Key) (fuel k : ℕ)
      → IsSlabOf s t
      → IsCritBit t
      → height t ≤ fuel
      → get fuel s k ≡ ok (find_key k (leaves t))
  unfolding get
  get-find_key s t fuel k h v enough =
      rw (==_false s.header.leaf_count 0 (omega (arith, h.occupied)))
        (get_from-find t s.nodes k s.header.root fuel h.holds v enough)
