-- ===== src/Construct/Flags.antt =====
-- Flags packed in a byte, the first one lowest.
use pyserum.Base.{
  ℕ, ◌+◌, ◌*◌, ◌/◌, ◌%◌, ◌≤◌, ◌<◌, ◌≡◌, refl, ap, ◌∙◌, Bool, true, false, List, [], ◌∷◌, ◌++◌, map,
  arith,
}
use pyserum.Base.Bytes.{Bytes}
use pyserum.Construct.Interface.{Construct, bits_of, swap_bits}
use pyserum.Construct.Names.{flag}
use pyserum.Construct.Parses.{Parses, flag-Parses}
use pyserum.Construct.Bytes.{low_digits, bits_of-swapped}

abbrev pub bit : Bool → ℕ
bit true = 1
bit false = 0

unfoldable pub flag_byte : Bool → Bool → Bool → Bool → Bool → Bool → Bool → Bool → ℕ
flag_byte a b c d e f g h =
    bit a + 2 * bit b + 4 * bit c + 8 * bit d + 16 * bit e + 32 * bit f + 64 * bit g + 128 * bit h

bit-le-one : (b : Bool) → bit b ≤ 1
bit-le-one true = omega arith
bit-le-one false = omega arith

pub bit-Parses : ⦃lib : Construct⦄ → (x : Bool) → Parses flag (bit x ∷ []) x
bit-Parses true = flag-Parses 1 true refl
bit-Parses false = flag-Parses 0 false refl

abbrev IsBit : ℕ → Type 0
IsBit x = x ≤ 1

abbrev total : (a b c d e f g h : ℕ) → ℕ
total a b c d e f g h = a + 2 * b + 4 * c + 8 * d + 16 * e + 32 * f + 64 * g + 128 * h

low_digits-bits :
    (a b c d e f g h : ℕ)
    → IsBit a
    → IsBit b
    → IsBit c
    → IsBit d
    → IsBit e
    → IsBit f
    → IsBit g
    → IsBit h
    → low_digits (total a b c d e f g h) ≡ a ∷ b ∷ c ∷ d ∷ e ∷ f ∷ g ∷ h ∷ []
low_digits-bits a b c d e f g h ha hb hc hd he hf hg hh =
    let s : ℕ = total a b c d e f g h in
    let d0 : s % 2 ≡ a = omega arith in
    let d1 : s / 2 % 2 ≡ b = omega arith in
    let d2 : s / 4 % 2 ≡ c = omega arith in
    let d3 : s / 8 % 2 ≡ d = omega arith in
    let d4 : s / 16 % 2 ≡ e = omega arith in
    let d5 : s / 32 % 2 ≡ f = omega arith in
    let d6 : s / 64 % 2 ≡ g = omega arith in
    let d7 : s / 128 % 2 ≡ h = omega arith in
    λ i. d0 i ∷ d1 i ∷ d2 i ∷ d3 i ∷ d4 i ∷ d5 i ∷ d6 i ∷ d7 i ∷ []

-- The stream of bits that the members see.
pub stream-flag_byte :
    (a b c d e f g h : Bool) (bs : Bytes)
    → bits_of (map swap_bits (flag_byte a b c d e f g h ∷ bs))
      ≡ bit a ∷ bit b ∷ bit c ∷ bit d ∷ bit e ∷ bit f ∷ bit g ∷ bit h ∷ bits_of (map swap_bits bs)
unfolding flag_byte
stream-flag_byte a b c d e f g h bs =
    let small : total (bit a) (bit b) (bit c) (bit d) (bit e) (bit f) (bit g) (bit h) < 256 =
      omega (arith, bit-le-one) in
    bits_of-swapped (total (bit a) (bit b) (bit c) (bit d) (bit e) (bit f) (bit g) (bit h)) bs small
    ∙ ap (λ (ds : List ℕ). ds ++ bits_of (map swap_bits bs))
        (low_digits-bits (bit a) (bit b) (bit c) (bit d) (bit e) (bit f) (bit g) (bit h)
          (bit-le-one a) (bit-le-one b) (bit-le-one c) (bit-le-one d) (bit-le-one e) (bit-le-one f)
          (bit-le-one g) (bit-le-one h))
