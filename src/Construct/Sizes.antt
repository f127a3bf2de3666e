-- ===== src/Construct/Sizes.antt =====
-- The sizes of layouts, member by member.
use pyserum.Base.{
  ℕ, ◌+◌, ◌*◌, ◌≡◌, refl, ◌∙◌, ok, ◌++◌, length, replicate, arith, length-append, length-replicate,
}
use pyserum.Base.Bytes.{Bytes, low_bytes, length-low_bytes}
use pyserum.Construct.Interface.{Codec, Construct, named}
use pyserum.Construct.Names.{◌⨟◌}

pub record HasSize {A : Type 0} (c : Codec A) (n : ℕ) : Type 0 where
  pub run : c.sizeof ≡ ok n

pub named-HasSize :
    {A B : Type 0} (to : A → B) (from : B → A) {c : Codec A} {n : ℕ}
    → HasSize c n
    → HasSize (named to from c) n
named-HasSize to from h = record { run = h.run }

module _ ⦃lib : Construct⦄ where
  pub uint-HasSize : (k : ℕ) → HasSize (lib.uint k) k
  uint-HasSize k = record { run = lib.uint_sizeof k }

  pub bytes-HasSize : (k : ℕ) → HasSize (lib.bytes k) k
  bytes-HasSize k = record { run = lib.bytes_sizeof k }

  pub padding-HasSize : (k : ℕ) → HasSize (lib.padding k) k
  padding-HasSize k = record { run = lib.padding_sizeof k }

  pub flag-HasSize : HasSize lib.flag 1
  flag-HasSize = record { run = lib.flag_sizeof }

  pub zero_bits-HasSize : (k : ℕ) → HasSize (lib.const 0 (lib.bits_integer k)) k
  zero_bits-HasSize k = record {
    run = lib.const_sizeof 0 (lib.bits_integer k) ∙ lib.bits_integer_sizeof k;
  }

  pub array-HasSize :
      {A : Type 0} (k : ℕ) {c : Codec A} {n : ℕ} → HasSize c n → HasSize (lib.array k c) (k * n)
  array-HasSize k {c} h = record { run = rw (lib.array_sizeof k c, h.run) refl }

  pub flags-HasSize :
      {A : Type 0} {c : Codec A} (k : ℕ)
      → HasSize c (k * 8)
      → HasSize (lib.bits_swapped (lib.bit_struct c)) k
  flags-HasSize {c} k h = record {
    run = lib.bits_swapped_sizeof (lib.bit_struct c) ∙ lib.bit_struct_sizeof c k h.run;
  }

  infixr 40 ◌⨟ₛ◌
  pub ◌⨟ₛ◌ :
      {A B : Type 0} {c : Codec A} {d : Codec B} {m n : ℕ}
      → HasSize c m
      → HasSize d n
      → HasSize (c ⨟ d) (m + n)
  ◌⨟ₛ◌ {c} {d} hc hd = record { run = rw (lib.pair_sizeof c d, hc.run, hd.run) refl }

-- The lengths of encodings, part by part.
pub record HasLength (b : Bytes) (n : ℕ) : Type 0 where
  pub run : length b ≡ n

infixr 40 ◌⨟ₗ◌
pub ◌⨟ₗ◌ : {x y : Bytes} {m n : ℕ} → HasLength x m → HasLength y n → HasLength (x ++ y) (m + n)
◌⨟ₗ◌ {x} {y} hx hy = record { run = omega (arith, length-append x y, hx.run, hy.run) }

pub low_bytes-HasLength : (k n : ℕ) → HasLength (low_bytes k n) k
low_bytes-HasLength k n = record { run = length-low_bytes k n }

pub bytes-HasLength : (k : ℕ) (b : Bytes) → length b ≡ k → HasLength b k
bytes-HasLength k b h = record { run = h }

pub padding-HasLength : (k : ℕ) → HasLength (replicate k 0) k
padding-HasLength k = record { run = length-replicate k 0 }
