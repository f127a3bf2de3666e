-- ===== src/Tests/Concrete.antt =====
-- Concrete functions for the packages that the development takes as parameters: small ones that
-- satisfy the laws, for the tests.
use pyserum.Base.{
  ℕ, suc, ◌+◌, ◌*◌, ◌/◌, ◌^◌, ◌≡◌, ◌↔◌, refl, Bool, true, List, [], ◌∷◌, ◌++◌, length, map,
  replicate, ℤ, pos, Result, ok, err, construct_error, ◌>>=◌, ltb, ◌==◌, if◌then◌else◌, arith, leb,
  ◌≤◌, ◌<◌, ◌≢◌, ==_refl, negsuc, value_error, zero_division,
}
use pyserum.Base.Bytes.{Bytes, from_bytes, low_bytes}
use pyserum.Base.Signed.{times, negate}
use pyserum.Construct.{Codec, Construct, read, parse_all, bits_of, number_of, swap_bits, nonzero}
use pyserum.Floats.{Floats}
use pyserum.Solana.{PublicKeys, Programs}

abbrev build_all : {A : Type 0} → Codec A → List A → Result Bytes
build_all c [] = ok []
build_all c (x ∷ xs) = do b ← c.build x; bs ← build_all c xs; ok (b ++ bs)

abbrev uint_codec : ℕ → Codec ℕ
uint_codec k = record {
  parse = (λ bs. read k bs >>= λ (b, rest). ok (from_bytes b, rest));
  build = (λ n. if ltb n (256 ^ k) then ok (low_bytes k n) else err construct_error);
  sizeof = ok k;
}

abbrev bytes_codec : ℕ → Codec Bytes
bytes_codec k = record {
  parse = read k;
  build = (λ b. if length b == k then ok b else err construct_error);
  sizeof = ok k;
}

abbrev padding_codec : ℕ → Codec (Unit {0})
padding_codec k = record {
  parse = (λ bs. read k bs >>= λ (b, rest). ok (tt, rest));
  build = (λ _. ok (replicate k 0));
  sizeof = ok k;
}

abbrev pass_codec : Codec (Unit {0})
pass_codec = record { parse = (λ bs. ok (tt, bs)); build = (λ _. ok []); sizeof = ok 0 }

abbrev const_codec : ℕ → Codec ℕ → Codec (Unit {0})
const_codec v c = record {
  parse = (λ bs. c.parse bs >>= λ (x, rest). if x == v then ok (tt, rest) else err construct_error);
  build = (λ _. c.build v);
  sizeof = c.sizeof;
}

abbrev field_codec : {A B : Type 0} → Codec A → (A → Codec B) → Result ℕ → Codec (A × B)
field_codec c d size = record {
  parse = (λ bs. c.parse bs >>= λ (a, r). (d a).parse r >>= λ (b, rest). ok ((a, b), rest));
  build = (λ (a, b). c.build a >>= λ x. (d a).build b >>= λ y. ok (x ++ y));
  sizeof = size;
}

abbrev array_codec : {A : Type 0} → ℕ → Codec A → Codec (List A)
array_codec k c = record {
  parse = parse_all k c;
  build = (λ xs. if length xs == k then build_all c xs else err construct_error);
  sizeof = c.sizeof >>= λ n. ok (k * n);
}

abbrev flag_codec : Codec Bool
flag_codec = record {
  parse = (λ bs. read 1 bs >>= λ (b, rest). ok (nonzero b, rest));
  build = (λ b. ok ((if b then 1 else 0) ∷ []));
  sizeof = ok 1;
}

abbrev bits_integer_codec : ℕ → Codec ℕ
bits_integer_codec k = record {
  parse = (λ bs. read k bs >>= λ (b, rest). ok (number_of 0 b, rest));
  build = (λ _. err construct_error);
  sizeof = ok k;
}

abbrev bit_struct_codec : {A : Type 0} → Codec A → Codec A
bit_struct_codec c = record {
  parse = (λ bs. c.sizeof >>= λ n.
      read (n / 8) bs >>= λ (b, rest). c.parse (bits_of b) >>= λ (a, left). ok (a, rest));
  build = (λ _. err construct_error);
  sizeof = c.sizeof >>= λ n. ok (n / 8);
}

abbrev bits_swapped_codec : {A : Type 0} → Codec A → Codec A
bits_swapped_codec c = record {
  parse = (λ bs. c.sizeof >>= λ n.
      read n bs >>= λ (b, rest). c.parse (map swap_bits b) >>= λ (a, left). ok (a, rest));
  build = (λ _. err construct_error);
  sizeof = c.sizeof;
}

pub eight : (k : ℕ) → k * 8 / 8 ≡ k
eight k = omega arith

abbrev pub concrete : Construct
concrete = record {
  uint = uint_codec;
  bytes = bytes_codec;
  padding = padding_codec;
  pass = pass_codec;
  const = const_codec;
  field = (λ c d. field_codec c d (err construct_error));
  pair = (λ c d. field_codec c (λ _. d) (c.sizeof >>= λ m. d.sizeof >>= λ n. ok (m + n)));
  array = array_codec;
  flag = flag_codec;
  bits_integer = bits_integer_codec;
  bit_struct = bit_struct_codec;
  bits_swapped = bits_swapped_codec;
  uint_parse = (λ k bs. refl);
  uint_build = (λ k n. refl);
  uint_sizeof = (λ k. refl);
  bytes_parse = (λ k bs. refl);
  bytes_build = (λ k b. refl);
  bytes_sizeof = (λ k. refl);
  padding_parse = (λ k bs. refl);
  padding_build = (λ k. refl);
  padding_sizeof = (λ k. refl);
  pass_parse = (λ bs. refl);
  pass_build = refl;
  const_parse = (λ v c bs. refl);
  const_build = (λ v c. refl);
  const_sizeof = (λ v c. refl);
  field_parse = (λ c d bs. refl);
  field_build = (λ c d a b. refl);
  pair_parse = (λ c d bs. refl);
  pair_build = (λ c d x. refl);
  pair_sizeof = (λ c d. refl);
  array_parse = (λ k c bs. refl);
  array_sizeof = (λ k c. refl);
  flag_parse = (λ bs. refl);
  flag_sizeof = refl;
  bits_integer_parse = (λ k bs. refl);
  bits_integer_sizeof = (λ k. refl);
  bit_struct_parse = (λ c k bs h. rw (h, eight k) refl);
  bit_struct_sizeof = (λ c k h. rw (h, eight k) refl);
  bits_swapped_parse = (λ c k bs h. rw h refl);
  bits_swapped_sizeof = (λ c. refl);
}

-- A key is its first byte, and a float its whole part.
abbrev first_byte : Bytes → ℕ
first_byte [] = 0
first_byte (b ∷ bs) = b

pub same_iff : (j k : ℕ) → ((j == k) ≡ true) ↔ (j ≡ k)
same_iff j k = ((λ h. ground arith), λ h. rw h (==_refl k))

abbrev pub test_keys : PublicKeys
test_keys = record {
  PublicKey = ℕ;
  public_key = first_byte;
  key_bytes = (λ k. k ∷ replicate 31 0);
  same_key = (λ j k. j == k);
  length-key_bytes = (λ k. refl);
  public_key-key_bytes = (λ k. refl);
  same_key_iff = same_iff;
}

abbrev divide : ℕ → ℕ → Result ℕ
divide n m = if m == 0 then err zero_division else ok (n / m)

abbrev signed : ℤ → ℕ → Result ℕ
signed (pos n) m = divide n m
signed (negsuc n) m = err value_error

abbrev pub test_floats : Floats
test_floats = record {
  Float = ℕ;
  of_int = (λ n. ok n);
  true_div = divide;
  mul_int = (λ x n. ok (x * n));
  div_int = divide;
  signed_div = signed;
  mul = (λ x y. ok (x * y));
  one_and_a_hundredth = 1;
  round = (λ x. ok (pos x));
  floor = (λ x. ok (pos x));
  truncate = (λ x. ok (pos x));
}

-- Floats that are whole, but may be negative. A quotient is rounded down.
abbrev divide_down : ℤ → ℕ → Result ℤ
divide_down (pos n) m = if m == 0 then err zero_division else ok (pos (n / m))
divide_down (negsuc n) m = if m == 0 then err zero_division else ok (negsuc (n / m))

abbrev product : ℤ → ℤ → ℤ
product x (pos n) = times x n
product x (negsuc n) = negate (times x (suc n))

abbrev pub signed_floats : Floats
signed_floats = record {
  Float = ℤ;
  of_int = (λ n. ok (pos n));
  true_div = (λ n m. divide_down (pos n) m);
  mul_int = (λ x n. ok (times x n));
  div_int = divide_down;
  signed_div = divide_down;
  mul = (λ x y. ok (product x y));
  one_and_a_hundredth = pos 1;
  round = (λ x. ok x);
  floor = (λ x. ok x);
  truncate = (λ x. ok x);
}

abbrev validate_keys : ℕ → ℕ → Result (Unit {0})
validate_keys n expected = if leb expected n then ok tt else err value_error

abbrev validate_type : ℕ → ℕ → Result (Unit {0})
validate_type n expected = if n == expected then ok tt else err value_error

pub enough : (n expected : ℕ) → expected ≤ n → validate_keys n expected ≡ ok tt
enough n expected h = ground arith

pub too_few : (n expected : ℕ) → n < expected → validate_keys n expected ≡ err value_error
too_few n expected h = ground arith

pub right : (n : ℕ) → validate_type n n ≡ ok tt
right n = ground arith

pub wrong : (n expected : ℕ) → n ≢ expected → validate_type n expected ≡ err value_error
wrong n expected h = ground arith

abbrev pub test_programs : Programs test_keys
test_programs = record {
  default_dex_program = 200;
  token_program = 201;
  rent = 202;
  validate_instruction_keys = validate_keys;
  validate_instruction_type = validate_type;
  enough_keys = enough;
  too_few_keys = too_few;
  right_type = right;
  wrong_type = wrong;
}
