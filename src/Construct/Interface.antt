-- ===== src/Construct/Interface.antt =====
-- The construct package as a parameter of the layouts. A construct object parses a value off the
-- front of a stream and builds a value into bytes; what it cannot do raises a ConstructError.
use pyserum.Base.{
  ℕ, zero, suc, ◌+◌, ◌*◌, ◌/◌, ◌%◌, ◌^◌, ◌≡◌, Bool, false, List, [], ◌∷◌, ◌++◌, length, take, drop,
  replicate, map, reverse, not, Result, ok, err, construct_error, ◌>>=◌, ltb, leb, ◌==◌,
  if◌then◌else◌,
}
use pyserum.Base.Bytes.{Bytes, from_bytes, low_bytes}

pub record Codec (A : Type 0) : Type 0 where
  pub parse : Bytes → Result (A × Bytes)
  pub build : A → Result Bytes
  pub sizeof : Result ℕ

-- Reading `n` bytes off a stream; a stream that is too short is a StreamError.
abbrev pub read : ℕ → Bytes → Result (Bytes × Bytes)
read n bs = if leb n (length bs) then ok (take n bs, drop n bs) else err construct_error

-- The container with named fields for the values that a Struct's members parse, and back.
abbrev pub named : {A B : Type 0} → (A → B) → (B → A) → Codec A → Codec B
named to from c = record {
  parse = (λ bs. c.parse bs >>= λ (a, rest). ok (to a, rest));
  build = λ b. c.build (from b);
  sizeof = c.sizeof;
}

abbrev pub parse_all : {A : Type 0} → ℕ → Codec A → Bytes → Result (List A × Bytes)
parse_all zero c bs = ok ([], bs)
parse_all (suc n) c bs = do
  (a, rest) ← c.parse bs
  (as', rest') ← parse_all n c rest
  ok (a ∷ as', rest')

-- The bits of a byte, the highest first, and a byte from its bits in the opposite order.
abbrev pub digits_of : ℕ → ℕ → List ℕ → List ℕ
digits_of zero b acc = acc
digits_of (suc k) b acc = digits_of k (b / 2) (b % 2 ∷ acc)

abbrev pub bits_of : Bytes → List ℕ
bits_of [] = []
bits_of (b ∷ bs) = digits_of 8 b (bits_of bs)

abbrev pub number_of : ℕ → List ℕ → ℕ
number_of acc [] = acc
number_of acc (d ∷ ds) = number_of (2 * acc + d) ds

abbrev pub swap_bits : ℕ → ℕ
swap_bits b = number_of 0 (reverse (digits_of 8 b []))

abbrev pub nonzero : Bytes → Bool
nonzero [] = false
nonzero (b ∷ bs) = not (b == 0)

-- `uint k` is Int8ul, Int16ul, Int32ul and Int64ul at 1, 2, 4 and 8. `field c d` is a member of a
-- Struct followed by the members that look at its value, and `pair c d` one that the following ones
-- do not look at: only such members have a size without a value.
pub record Construct : Type 1 where
  pub uint : ℕ → Codec ℕ
  pub bytes : ℕ → Codec Bytes
  pub padding : ℕ → Codec (Unit {0})
  pub pass : Codec (Unit {0})
  pub const : ℕ → Codec ℕ → Codec (Unit {0})
  pub field : {A B : Type 0} → Codec A → (A → Codec B) → Codec (A × B)
  pub pair : {A B : Type 0} → Codec A → Codec B → Codec (A × B)
  pub array : {A : Type 0} → ℕ → Codec A → Codec (List A)
  pub flag : Codec Bool
  pub bits_integer : ℕ → Codec ℕ
  pub bit_struct : {A : Type 0} → Codec A → Codec A
  pub bits_swapped : {A : Type 0} → Codec A → Codec A
  -- Integers, byte strings and padding.
  pub uint_parse :
      (k : ℕ) (bs : Bytes)
      → (uint k).parse bs ≡ (read k bs >>= λ (b, rest). ok (from_bytes b, rest))
  pub uint_build :
      (k n : ℕ)
      → (uint k).build n ≡ (if ltb n (256 ^ k) then ok (low_bytes k n) else err construct_error)
  pub uint_sizeof : (k : ℕ) → (uint k).sizeof ≡ ok k
  pub bytes_parse : (k : ℕ) (bs : Bytes) → (bytes k).parse bs ≡ read k bs
  pub bytes_build :
      (k : ℕ) (b : Bytes)
      → (bytes k).build b ≡ (if length b == k then ok b else err construct_error)
  pub bytes_sizeof : (k : ℕ) → (bytes k).sizeof ≡ ok k
  pub padding_parse :
      (k : ℕ) (bs : Bytes) → (padding k).parse bs ≡ (read k bs >>= λ (b, rest). ok (tt, rest))
  pub padding_build : (k : ℕ) → (padding k).build tt ≡ ok (replicate k 0)
  pub padding_sizeof : (k : ℕ) → (padding k).sizeof ≡ ok k
  pub pass_parse : (bs : Bytes) → pass.parse bs ≡ ok (tt, bs)
  pub pass_build : pass.build tt ≡ ok []
  pub const_parse :
      (v : ℕ) (c : Codec ℕ) (bs : Bytes)
      → (const v c).parse bs
        ≡ (c.parse bs >>= λ (x, rest). if x == v then ok (tt, rest) else err construct_error)
  pub const_build : (v : ℕ) (c : Codec ℕ) → (const v c).build tt ≡ c.build v
  pub const_sizeof : (v : ℕ) (c : Codec ℕ) → (const v c).sizeof ≡ c.sizeof
  -- Structs and arrays.
  pub field_parse :
      {A B : Type 0} (c : Codec A) (d : A → Codec B) (bs : Bytes)
      → (field c d).parse bs
        ≡ (c.parse bs >>= λ (a, r). (d a).parse r >>= λ (b, rest). ok ((a, b), rest))
  pub field_build :
      {A B : Type 0} (c : Codec A) (d : A → Codec B) (a : A) (b : B)
      → (field c d).build (a, b) ≡ (c.build a >>= λ x. (d a).build b >>= λ y. ok (x ++ y))
  pub pair_parse :
      {A B : Type 0} (c : Codec A) (d : Codec B) (bs : Bytes)
      → (pair c d).parse bs ≡ (field c (λ _. d)).parse bs
  pub pair_build :
      {A B : Type 0} (c : Codec A) (d : Codec B) (x : A × B)
      → (pair c d).build x ≡ (field c (λ _. d)).build x
  pub pair_sizeof :
      {A B : Type 0} (c : Codec A) (d : Codec B)
      → (pair c d).sizeof ≡ (c.sizeof >>= λ m. d.sizeof >>= λ n. ok (m + n))
  pub array_parse :
      {A : Type 0} (k : ℕ) (c : Codec A) (bs : Bytes) → (array k c).parse bs ≡ parse_all k c bs
  pub array_sizeof :
      {A : Type 0} (k : ℕ) (c : Codec A) → (array k c).sizeof ≡ (c.sizeof >>= λ n. ok (k * n))
  -- Streams of bits: a bit is a byte 0 or 1.
  pub flag_parse : (bs : Bytes) → flag.parse bs ≡ (read 1 bs >>= λ (b, rest). ok (nonzero b, rest))
  pub flag_sizeof : flag.sizeof ≡ ok 1
  pub bits_integer_parse :
      (k : ℕ) (bs : Bytes)
      → (bits_integer k).parse bs ≡ (read k bs >>= λ (b, rest). ok (number_of 0 b, rest))
  pub bits_integer_sizeof : (k : ℕ) → (bits_integer k).sizeof ≡ ok k
  pub bit_struct_parse :
      {A : Type 0} (c : Codec A) (k : ℕ) (bs : Bytes)
      → c.sizeof ≡ ok (k * 8)
      → (bit_struct c).parse bs
        ≡ (read k bs >>= λ (b, rest). c.parse (bits_of b) >>= λ (a, left). ok (a, rest))
  pub bit_struct_sizeof :
      {A : Type 0} (c : Codec A) (k : ℕ) → c.sizeof ≡ ok (k * 8) → (bit_struct c).sizeof ≡ ok k
  pub bits_swapped_parse :
      {A : Type 0} (c : Codec A) (k : ℕ) (bs : Bytes)
      → c.sizeof ≡ ok k
      → (bits_swapped c).parse bs
        ≡ (read k bs >>= λ (b, rest). c.parse (map swap_bits b) >>= λ (a, left). ok (a, rest))
  pub bits_swapped_sizeof : {A : Type 0} (c : Codec A) → (bits_swapped c).sizeof ≡ c.sizeof
