-- ===== src/Construct/RoundTrips.antt =====
-- Values that a layout both builds and parses back, member by member.
use pyserum.Base.{ℕ, ◌^◌, ◌<◌, ◌≡◌, [], ◌++◌, length}
use pyserum.Base.Bytes.{Bytes, low_bytes}
use pyserum.Construct.Interface.{Codec, Construct}
use pyserum.Construct.Names.{◌⨟◌}
use pyserum.Construct.Parses.{
  Parses, Builds, ◌⨟ₚ◌, ◌⨟ᵦ◌, uint-Parses, uint-Builds, bytes-Parses, bytes-Builds, pass-Parses,
  pass-Builds,
}

-- An encoding to which the value builds and which parses to the value, whatever follows it.
pub record RoundTrips {A : Type 0} (c : Codec A) (a : A) : Type 0 where
  pub encoding : Bytes
  pub builds : Builds c encoding a
  pub parses : Parses c encoding a

module _ ⦃lib : Construct⦄ where
  pub uint-RoundTrips : (k n : ℕ) → n < 256 ^ k → RoundTrips (lib.uint k) n
  uint-RoundTrips k n h = record {
    encoding = low_bytes k n;
    builds = uint-Builds k n h;
    parses = uint-Parses k n h;
  }

  pub bytes-RoundTrips : (k : ℕ) (b : Bytes) → length b ≡ k → RoundTrips (lib.bytes k) b
  bytes-RoundTrips k b h = record {
    encoding = b;
    builds = bytes-Builds k b h;
    parses = bytes-Parses k b h;
  }

  pub pass-RoundTrips : RoundTrips lib.pass tt
  pass-RoundTrips = record { encoding = []; builds = pass-Builds; parses = pass-Parses }

  infixr 40 ◌⨟ᵣ◌
  pub ◌⨟ᵣ◌ :
      {A B : Type 0} {c : Codec A} {d : Codec B} {a : A} {b : B}
      → RoundTrips c a
      → RoundTrips d b
      → RoundTrips (c ⨟ d) (a, b)
  hc ⨟ᵣ hd = record {
    encoding = hc.encoding ++ hd.encoding;
    builds = hc.builds ⨟ᵦ hd.builds;
    parses = hc.parses ⨟ₚ hd.parses;
  }
