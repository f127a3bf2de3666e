-- ===== src/Construct/Bytes.antt =====
-- The stream of bits that a BitsSwapped(BitStruct(...)) sees of a byte: its bits, lowest first.
use pyserum.Base.{
  ℕ, zero, suc, ◌/◌, ◌%◌, ◌<◌, ◌≡◌, refl, Bool, true, false, ◌&&◌, List, [], ◌∷◌, ◌++◌, arith, map,
  ◌==◌, ap, ◌∙◌,
}
use pyserum.Base.Bytes.{Bytes}
use pyserum.Construct.Interface.{bits_of, swap_bits, digits_of}

abbrev pub low_digits : ℕ → List ℕ
low_digits b =
    b % 2
    ∷ b / 2 % 2
    ∷ b / 4 % 2
    ∷ b / 8 % 2
    ∷ b / 16 % 2
    ∷ b / 32 % 2
    ∷ b / 64 % 2
    ∷ b / 128 % 2
    ∷ []

same : List ℕ → List ℕ → Bool
same [] [] = true
same (x ∷ xs) (y ∷ ys) = x == y && same xs ys
same _ _ = false

same_sound : (xs ys : List ℕ) → same xs ys ≡ true → xs ≡ ys
unfolding same
same_sound [] [] h = refl
same_sound [] (y ∷ ys) h = cc
same_sound (x ∷ xs) [] h = cc
same_sound (x ∷ xs) (y ∷ ys) h = ground (arith, same_sound xs ys)

-- The bits of a swapped byte are its bits, lowest first, tested at the bytes below a bound.
swaps : ℕ → Bool
swaps b = same (digits_of 8 (swap_bits b) []) (low_digits b)

swaps_below : ℕ → Bool
swaps_below zero = true
swaps_below (suc last) = swaps_below last && swaps last

swaps_of_below : (bound b : ℕ) → b < bound → swaps_below bound ≡ true → swaps b ≡ true
unfolding swaps_below
swaps_of_below zero b small all = absurd (omega (arith, small))
swaps_of_below (suc last) b small all = ground (arith, swaps_of_below last b)

every_byte_swaps : swaps_below 256 ≡ true
unfolding swaps_below swaps same
every_byte_swaps = refl

swapped_digits : (b : ℕ) → b < 256 → digits_of 8 (swap_bits b) [] ≡ low_digits b
unfolding swaps
swapped_digits b h = same_sound _ (low_digits b) (swaps_of_below 256 b h every_byte_swaps)

digits_of-append : (k b : ℕ) (xs ys : List ℕ) → digits_of k b (xs ++ ys) ≡ digits_of k b xs ++ ys
digits_of-append zero b xs ys = refl
digits_of-append (suc k) b xs ys = digits_of-append k (b / 2) (b % 2 ∷ xs) ys

pub bits_of-swapped :
    (b : ℕ) (bs : Bytes)
    → b < 256
    → bits_of (map swap_bits (b ∷ bs)) ≡ low_digits b ++ bits_of (map swap_bits bs)
bits_of-swapped b bs h =
    digits_of-append 8 (swap_bits b) [] (bits_of (map swap_bits bs))
    ∙ ap (λ (ds : List ℕ). ds ++ bits_of (map swap_bits bs)) (swapped_digits b h)
