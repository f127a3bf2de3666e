-- ===== src/Queue/Ring.antt =====
-- A list read as a ring, and a buffer read as equal slots.
use pyserum.Base.{
  ℕ, zero, suc, ◌+◌, ◌-◌, ◌%◌, ◌≤◌, ◌<◌, ◌≡◌, ◌⊎◌, inl, inr, refl, sym, ap, ◌∙◌, some, List, [],
  ◌∷◌, ◌++◌, map, reverse, length, take, drop, get_elem?, arith, length-append, Result, ok,
  map_result,
}
use mathlib.Core.List.{reverse-cons}
use native.Mathlib.Nat.{mod-eq_of_lt, mod-lt, mod-add-mod}
use pyserum.Queue.Defs.{range_from}

module _ {ℓ} {A : Type ℓ} where
  -- The elements from the head on, round to the ones before it.
  abbrev pub rotation : ℕ → List A → List A
  rotation head xs = drop head xs ++ take head xs

  pub get_elem?-lt : (xs : List A) (i : ℕ) (x : A) → get_elem? xs i ≡ some x → i < length xs
  get_elem?-lt [] i x h = absurd (cc)
  get_elem?-lt (y ∷ xs) zero x h = omega arith
  get_elem?-lt (y ∷ xs) (suc i) x h = omega (arith, get_elem?-lt xs i x h)

  index_eq : (xs : List A) {i j : ℕ} → i ≡ j → get_elem? xs i ≡ get_elem? xs j
  index_eq xs e = ap (λ (k : ℕ). get_elem? xs k) e

  pub get_elem?-take :
      (n : ℕ) (xs : List A) (i : ℕ) (x : A)
      → get_elem? (take n xs) i ≡ some x
      → get_elem? xs i ≡ some x
  get_elem?-take zero xs i x h = cc
  get_elem?-take (suc n) [] i x h = h
  get_elem?-take (suc n) (y ∷ xs) zero x h = h
  get_elem?-take (suc n) (y ∷ xs) (suc i) x h = get_elem?-take n xs i x h

  get_elem?-drop : (n : ℕ) (xs : List A) (i : ℕ) → get_elem? (drop n xs) i ≡ get_elem? xs (n + i)
  get_elem?-drop zero xs i = index_eq xs (omega arith)
  get_elem?-drop (suc n) [] i = refl
  get_elem?-drop (suc n) (y ∷ xs) i =
      get_elem?-drop n xs i ∙ index_eq (y ∷ xs) {i = suc (n + i)} (omega arith)

  get_elem?-append :
      (xs ys : List A) (i : ℕ) (x : A)
      → get_elem? (xs ++ ys) i ≡ some x
      → (get_elem? xs i ≡ some x) ⊎ ((length xs ≤ i) × (get_elem? ys (i - length xs) ≡ some x))
  get_elem?-append [] ys i x h = inr (omega arith, index_eq ys (omega arith) ∙ h)
  get_elem?-append (y ∷ xs) ys zero x h = inl h
  get_elem?-append (y ∷ xs) ys (suc i) x h = elim (get_elem?-append xs ys i x h) [
    | inl left ↦ inl left
    | inr right ↦ inr (omega (arith, right.0), index_eq ys (omega arith) ∙ right.1)
  ]

  pub length-drop : (n : ℕ) (xs : List A) → length (drop n xs) ≡ length xs - n
  length-drop zero xs = omega arith
  length-drop (suc n) [] = omega arith
  length-drop (suc n) (x ∷ xs) = omega (arith, length-drop n xs)

  pub length-take : (n : ℕ) (xs : List A) → n ≤ length xs → length (take n xs) ≡ n
  length-take zero xs h = refl
  length-take (suc n) [] h = absurd (omega arith)
  length-take (suc n) (x ∷ xs) h = omega (arith, length-take n xs)

  -- An element of the rotation stands at its position from the head on, round the ring.
  pub get_elem?-rotation :
      (head : ℕ) (xs : List A) (i : ℕ) (x : A)
      → head < length xs
      → get_elem? (rotation head xs) i ≡ some x
      → get_elem? xs ((head + i) % length xs) ≡ some x
  get_elem?-rotation head xs i x h e = elim (get_elem?-append (drop head xs) (take head xs) i x e) [
    | inl left ↦
        let found : get_elem? xs (head + i) ≡ some x = sym (get_elem?-drop head xs i) ∙ left in
        index_eq xs (mod-eq_of_lt (get_elem?-lt xs (head + i) x found)) ∙ found
    | inr right ↦
        let found = get_elem?-take head xs (i - length (drop head xs)) x right.1 in
        let short = get_elem?-lt (take head xs) (i - length (drop head xs)) x right.1 in
        let index : (head + i) % length xs ≡ i - length (drop head xs) =
          grind (arith, right.0, short, length-drop head xs, length-take head xs (omega arith)) in
        index_eq xs index ∙ found
  ]

module _ {ℓ} {A : Type ℓ} where
  pub length-rotation :
      (head : ℕ) (xs : List A) → head ≤ length xs → length (rotation head xs) ≡ length xs
  length-rotation head xs h = omega (
    arith,
    length-append (drop head xs) (take head xs),
    length-drop head xs,
    length-take head xs h,
  )

  pub length-reverse : (xs : List A) → length (reverse xs) ≡ length xs
  length-reverse [] = refl
  length-reverse (x ∷ xs) =
      rw (reverse-cons x xs) (omega (arith, length-append (reverse xs) (x ∷ []), length-reverse xs))

  get_elem?-reverse :
      (xs : List A) (i : ℕ) (x : A)
      → get_elem? (reverse xs) i ≡ some x
      → get_elem? xs (length xs - 1 - i) ≡ some x
  get_elem?-reverse [] i x h = cc
  get_elem?-reverse (y ∷ xs) i x h =
      elim (get_elem?-append (reverse xs) (y ∷ []) i x (rw (reverse-cons y xs) at h)) [
        | inl left ↦
            let before = get_elem?-lt (reverse xs) i x left in
            index_eq (y ∷ xs) {j = suc (length xs - 1 - i)}
              (omega (arith, before, length-reverse xs))
            ∙ get_elem?-reverse xs i x left
        | inr right ↦
            let last = get_elem?-lt (y ∷ []) (i - length (reverse xs)) x right.1 in
            index_eq (y ∷ xs) {j = 0} (omega (arith, length-reverse xs, right.0))
            ∙ sym (index_eq (y ∷ []) {j = 0} (omega arith))
            ∙ right.1
      ]

  -- The newest elements first: going back from the end at `position`, round the ring.
  pub get_elem?-backwards :
      (position : ℕ) (xs : List A) (i : ℕ) (x : A)
      → 0 < length xs
      → get_elem? (reverse (rotation (position % length xs) xs)) i ≡ some x
      → get_elem? xs ((position + length xs - 1 - i) % length xs) ≡ some x
  get_elem?-backwards position xs i x some_slot h =
      let n : ℕ = length xs in
      let e : ℕ = position % n in
      let before : e < n = mod-lt position some_slot in
      let size : length (rotation e xs) ≡ n = length-rotation e xs (omega arith) in
      let inside = get_elem?-lt (reverse (rotation e xs)) i x h in
      let found =
        get_elem?-rotation e xs (length (rotation e xs) - 1 - i) x before
          (get_elem?-reverse (rotation e xs) i x h) in
      let index : (position + n - 1 - i) % n ≡ (e + (length (rotation e xs) - 1 - i)) % n =
        let k : ℕ = n - 1 - i in
        let sum : position + n - 1 - i ≡ position + k =
          omega (arith, inside, length-reverse (rotation e xs), size) in
        let back : k ≡ length (rotation e xs) - 1 - i = omega (arith, size) in
        ap (λ (t : ℕ). t % n) sum
        ∙ sym (mod-add-mod position n k)
        ∙ ap (λ (t : ℕ). (e + t) % n) back in
      index_eq xs index ∙ found

-- A comprehension over a range that reads a list element by element.
pub map_result-range {ℓ κ} :
    {A : Type ℓ} {B : Type κ} (f : ℕ → Result B) (g : A → B) (xs : List A) (first : ℕ)
    → ((i : ℕ) (x : A) → get_elem? xs i ≡ some x → f (first + i) ≡ ok (g x))
    → map_result f (range_from first (length xs)) ≡ ok (map g xs)
map_result-range f g [] first h = refl
map_result-range f g (x ∷ xs) first h =
    let at_first : f first ≡ ok (g x) = ap f (omega arith) ∙ h 0 x refl in
    let others : map_result f (range_from (suc first) (length xs)) ≡ ok (map g xs) =
      map_result-range f g xs (suc first) (λ i y e. ap f (omega arith) ∙ h (suc i) y e) in
    rw (at_first, others) refl
