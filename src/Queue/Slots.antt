-- ===== src/Queue/Slots.antt =====
-- A buffer read as slots of one size.
use pyserum.Base.{
  subst, ℕ, zero, suc, ◌+◌, ◌*◌, ◌≡◌, refl, sym, ap, ◌∙◌, some, List, [], ◌∷◌, ◌++◌, min, length,
  take, drop, get_elem?, arith, All, length-append, append_assoc, take-append, drop-append,
}
use pyserum.Base.Bytes.{Bytes}
use pyserum.Construct.Parses.{encode_all}
use pyserum.Construct.Sizes.{HasLength}

pub drop-nil : (n : ℕ) → drop {A = ℕ} n [] ≡ []
drop-nil zero = refl
drop-nil (suc n) = refl

pub drop-add : (m n : ℕ) (xs : Bytes) → drop (m + n) xs ≡ drop n (drop m xs)
drop-add zero n xs = ap (λ (k : ℕ). drop k xs) (omega arith)
drop-add (suc m) n [] = drop-nil (suc m + n) ∙ sym (drop-nil n)
drop-add (suc m) n (x ∷ xs) =
    let e : suc m + n ≡ suc (m + n) = omega arith in
    ap (λ (k : ℕ). drop k (x ∷ xs)) e ∙ drop-add m n xs

pub drop_prefix : (n : ℕ) (xs ys : Bytes) → length xs ≡ n → drop n (xs ++ ys) ≡ ys
drop_prefix n xs ys h = rw (← h) (drop-append xs ys)

pub take_prefix : (n : ℕ) (xs ys : Bytes) → length xs ≡ n → take n (xs ++ ys) ≡ xs
take_prefix n xs ys h = rw (← h) (take-append xs ys)

pub All-get_elem? :
    {A : Type 0} (P : A → Type 0) (xs : List A) (i : ℕ) (x : A)
    → All P xs
    → get_elem? xs i ≡ some x
    → P x
All-get_elem? P [] i x h e = absurd (cc)
All-get_elem? P (y ∷ xs) zero x h e = let same : y ≡ x = cc in subst P same h.0
All-get_elem? P (y ∷ xs) (suc i) x h e = All-get_elem? P xs i x h.1 e

pub length-take-min : {A : Type 0} (n : ℕ) (xs : List A) → length (take n xs) ≡ min n (length xs)
length-take-min zero xs = omega arith
length-take-min (suc n) [] = omega arith
length-take-min (suc n) (x ∷ xs) = omega (arith, length-take-min n xs)

-- Slots of one size, behind one another.
module _ {C : Type 0} (encode : C → Bytes) (size : ℕ) where
  pub slot_at :
      (slots : List C) (tail : Bytes) (j : ℕ) (x : C)
      → All (λ y. HasLength (encode y) size) slots
      → get_elem? slots j ≡ some x
      → take size (drop (j * size) (encode_all encode slots ++ tail)) ≡ encode x
  slot_at [] tail j x h e = cc
  slot_at (y ∷ slots) tail zero x h e =
      let none_dropped : zero * size ≡ 0 = omega arith in
      rw
        (
          none_dropped,
          append_assoc,
          take_prefix size (encode y) (encode_all encode slots ++ tail) h.0.run,
        )
        (let same : y ≡ x = cc in ap encode same)
  slot_at (y ∷ slots) tail (suc j) x h e =
      let skip : suc j * size ≡ size + j * size = omega arith in
      rw
        (
          skip,
          drop-add size (j * size) ((encode y ++ encode_all encode slots) ++ tail),
          append_assoc,
          drop_prefix size (encode y) (encode_all encode slots ++ tail) h.0.run,
        )
        (slot_at slots tail j x h.1 e)

  pub length-encode_all :
      (slots : List C)
      → All (λ y. HasLength (encode y) size) slots
      → length (encode_all encode slots) ≡ length slots * size
  length-encode_all [] h = omega arith
  length-encode_all (y ∷ slots) h = omega (
    arith,
    length-append (encode y) (encode_all encode slots),
    h.0.run,
    length-encode_all slots h.1,
  )
