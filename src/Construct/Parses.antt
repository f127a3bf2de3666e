-- ===== src/Construct/Parses.antt =====
-- What a layout parses off an encoding that something else follows, member by member.
use pyserum.Base.{
  ℕ, ◌^◌, ◌<◌, ◌≡◌, refl, ◌∙◌, Bool, List, [], ◌∷◌, ◌++◌, ◌*◌, replicate, map, length-replicate,
  length-map, append-nil, append_assoc, length, All, arith, ok, take-append, drop-append,
  length-append, leb-true, ltb-true, ==_true, ==_refl, subst,
}
use pyserum.Base.Bytes.{Bytes, low_bytes, length-low_bytes, from_bytes-low_bytes}
use pyserum.Construct.Names.{◌⨟◌}
use pyserum.Construct.Interface.{
  Codec, Construct, read, named, parse_all, bits_of, swap_bits, number_of, nonzero,
}

-- The encoding parses to the value, whatever follows it.
pub record Parses {A : Type 0} (c : Codec A) (b : Bytes) (a : A) : Type 0 where
  pub run : (rest : Bytes) → c.parse (b ++ rest) ≡ ok (a, rest)

-- The value builds to the encoding.
pub record Builds {A : Type 0} (c : Codec A) (b : Bytes) (a : A) : Type 0 where
  pub run : c.build a ≡ ok b

pub read-append : (k : ℕ) (b rest : Bytes) → length b ≡ k → read k (b ++ rest) ≡ ok (b, rest)
read-append k b rest h =
    rw
      (
        ← h,
        leb-true (length b) (length (b ++ rest)) (omega (arith, length-append b rest)),
        take-append b rest,
        drop-append b rest,
      )
      refl

pub named-Builds :
    {A B : Type 0} (to : A → B) (from : B → A) {c : Codec A} {b : Bytes} {x : B}
    → Builds c b (from x)
    → Builds (named to from c) b x
named-Builds to from h = record { run = h.run }

pub named-Parses :
    {A B : Type 0} (to : A → B) (from : B → A) {c : Codec A} {b : Bytes} {a : A}
    → Parses c b a
    → Parses (named to from c) b (to a)
named-Parses to from h = record { run = λ rest. rw (h.run rest) refl }

-- The encodings of a list's elements, one behind the other.
abbrev pub encode_all : {A : Type 0} → (A → Bytes) → List A → Bytes
encode_all f [] = []
encode_all f (x ∷ xs) = f x ++ encode_all f xs

parse_all-Parses :
    {A : Type 0} (c : Codec A) (f : A → Bytes) (xs : List A) (rest : Bytes)
    → All (λ a. Parses c (f a) a) xs
    → parse_all (length xs) c (encode_all f xs ++ rest) ≡ ok (xs, rest)
parse_all-Parses c f [] rest h = refl
parse_all-Parses c f (x ∷ xs) rest h =
    rw (append_assoc, h.0.run (encode_all f xs ++ rest), parse_all-Parses c f xs rest h.1) refl

module _ ⦃lib : Construct⦄ where
  pub uint-Parses : (k n : ℕ) → n < 256 ^ k → Parses (lib.uint k) (low_bytes k n) n
  uint-Parses k n h = record {
    run = λ rest.
        rw
          (
            lib.uint_parse k (low_bytes k n ++ rest),
            read-append k (low_bytes k n) rest (length-low_bytes k n),
            from_bytes-low_bytes k n h,
          )
          refl;
  }

  pub bytes-Parses : (k : ℕ) (b : Bytes) → length b ≡ k → Parses (lib.bytes k) b b
  bytes-Parses k b h = record {
    run = λ rest. lib.bytes_parse k (b ++ rest) ∙ read-append k b rest h;
  }

  -- A padding may hold any bytes, here those of a number.
  pub filler-Parses : (k n : ℕ) → Parses (lib.padding k) (low_bytes k n) tt
  filler-Parses k n = record {
    run = λ rest.
        rw
          (
            lib.padding_parse k (low_bytes k n ++ rest),
            read-append k (low_bytes k n) rest (length-low_bytes k n),
          )
          refl;
  }

  -- And any bits, where the stream is one of bits.
  pub bits-Parses : (b : Bytes) → Parses (lib.padding (length b)) b tt
  bits-Parses b = record {
    run = λ rest.
        rw (lib.padding_parse (length b) (b ++ rest), read-append (length b) b rest refl) refl;
  }

  pub padding-Parses : (k : ℕ) → Parses (lib.padding k) (replicate k 0) tt
  padding-Parses k = record {
    run = λ rest.
        rw
          (
            lib.padding_parse k (replicate k 0 ++ rest),
            read-append k (replicate k 0) rest (length-replicate k 0),
          )
          refl;
  }

  pub pass-Parses : Parses lib.pass [] tt
  pass-Parses = record { run = lib.pass_parse }

  pub const-Parses : (v : ℕ) {c : Codec ℕ} {b : Bytes} → Parses c b v → Parses (lib.const v c) b tt
  const-Parses v {c} {b} h = record {
    run = λ rest. rw (lib.const_parse v c (b ++ rest), h.run rest, ==_refl v) refl;
  }

  pub field-Parses :
      {A B : Type 0} {c : Codec A} (d : A → Codec B) {x y : Bytes} {a : A} {b : B}
      → Parses c x a
      → Parses (d a) y b
      → Parses (lib.field c d) (x ++ y) (a, b)
  field-Parses {c} d {x} {y} hx hy = record {
    run = λ rest.
        rw (lib.field_parse c d ((x ++ y) ++ rest), append_assoc, hx.run (y ++ rest), hy.run rest)
          refl;
  }

  pub uint-Builds : (k n : ℕ) → n < 256 ^ k → Builds (lib.uint k) (low_bytes k n) n
  uint-Builds k n h = record { run = rw (lib.uint_build k n, ltb-true n (256 ^ k) h) refl }

  pub bytes-Builds : (k : ℕ) (b : Bytes) → length b ≡ k → Builds (lib.bytes k) b b
  bytes-Builds k b h = record { run = rw (lib.bytes_build k b, ==_true (length b) k h) refl }

  pub padding-Builds : (k : ℕ) → Builds (lib.padding k) (replicate k 0) tt
  padding-Builds k = record { run = lib.padding_build k }

  pub pass-Builds : Builds lib.pass [] tt
  pass-Builds = record { run = lib.pass_build }

  pub const-Builds : (v : ℕ) {c : Codec ℕ} {b : Bytes} → Builds c b v → Builds (lib.const v c) b tt
  const-Builds v {c} h = record { run = lib.const_build v c ∙ h.run }

  pub field-Builds :
      {A B : Type 0} {c : Codec A} (d : A → Codec B) {x y : Bytes} {a : A} {b : B}
      → Builds c x a
      → Builds (d a) y b
      → Builds (lib.field c d) (x ++ y) (a, b)
  field-Builds {c} d {a} {b} hx hy = record {
    run = rw (lib.field_build c d a b, hx.run, hy.run) refl;
  }

  -- Member by member, as the layouts are written.
  infixr 40 ◌⨟ₚ◌
  pub ◌⨟ₚ◌ :
      {A B : Type 0} {c : Codec A} {d : Codec B} {x y : Bytes} {a : A} {b : B}
      → Parses c x a
      → Parses d y b
      → Parses (c ⨟ d) (x ++ y) (a, b)
  ◌⨟ₚ◌ {c} {d} {x} {y} hx hy = record {
    run = λ rest. lib.pair_parse c d ((x ++ y) ++ rest) ∙ (field-Parses (λ _. d) hx hy).run rest;
  }

  infixr 40 ◌⨟ᵦ◌
  pub ◌⨟ᵦ◌ :
      {A B : Type 0} {c : Codec A} {d : Codec B} {x y : Bytes} {a : A} {b : B}
      → Builds c x a
      → Builds d y b
      → Builds (c ⨟ d) (x ++ y) (a, b)
  ◌⨟ᵦ◌ {c} {d} {a} {b} hx hy = record {
    run = lib.pair_build c d (a, b) ∙ (field-Builds (λ _. d) hx hy).run;
  }

  pub array-Parses :
      {A : Type 0} (c : Codec A) (f : A → Bytes) (xs : List A)
      → All (λ a. Parses c (f a) a) xs
      → Parses (lib.array (length xs) c) (encode_all f xs) xs
  array-Parses c f xs h = record {
    run = λ rest.
        lib.array_parse (length xs) c (encode_all f xs ++ rest) ∙ parse_all-Parses c f xs rest h;
  }

  pub repeat-Parses :
      {A : Type 0} (k : ℕ) (c : Codec A) (f : A → Bytes) (xs : List A)
      → length xs ≡ k
      → All (λ a. Parses c (f a) a) xs
      → Parses (lib.array k c) (encode_all f xs) xs
  repeat-Parses k c f xs e h =
      subst (λ n. Parses (lib.array n c) (encode_all f xs) xs) e (array-Parses c f xs h)

  -- A layout that takes its whole stream of bits, on the bits of the bytes, each turned round.
  pub flags-Parses :
      {A : Type 0} {c : Codec A} (b : Bytes) {bits : Bytes} {a : A}
      → c.sizeof ≡ ok (length b * 8)
      → bits_of (map swap_bits b) ≡ bits
      → Parses c bits a
      → Parses (lib.bits_swapped (lib.bit_struct c)) b a
  flags-Parses {c} b {bits} {a} size stream h = record {
    run = λ rest.
        rw
          (
            lib.bits_swapped_parse (lib.bit_struct c) (length b) (b ++ rest)
                (lib.bit_struct_sizeof c (length b) size),
            read-append (length b) b rest refl,
          )
          (rw (rw append-nil at (swapped [])) refl);
  }
    where
      whole : c.parse bits ≡ ok (a, [])
      whole = rw append-nil at (h.run [])

      swapped : (left : Bytes) → (lib.bit_struct c).parse (map swap_bits b ++ left) ≡ ok (a, left)
      swapped left =
          rw
            (
              lib.bit_struct_parse c (length b) (map swap_bits b ++ left) size,
              read-append (length b) (map swap_bits b) left (length-map b swap_bits),
              stream,
              whole,
            )
            refl

  pub flag-Parses : (b : ℕ) (x : Bool) → nonzero (b ∷ []) ≡ x → Parses lib.flag (b ∷ []) x
  flag-Parses b x h = record {
    run = λ rest. rw (lib.flag_parse (b ∷ rest), read-append 1 (b ∷ []) rest refl, h) refl;
  }

  -- A Const of zero bits.
  pub zero_bits-Parses :
      (k : ℕ)
      → number_of 0 (replicate k 0) ≡ 0
      → Parses (lib.const 0 (lib.bits_integer k)) (replicate k 0) tt
  zero_bits-Parses k h = const-Parses 0 (record { run = zeros })
    where
      zeros : (rest : Bytes) → (lib.bits_integer k).parse (replicate k 0 ++ rest) ≡ ok (0, rest)
      zeros rest =
          rw
            (
              lib.bits_integer_parse k (replicate k 0 ++ rest),
              read-append k (replicate k 0) rest (length-replicate k 0),
              h,
            )
            refl
