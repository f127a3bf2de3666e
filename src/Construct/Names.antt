-- ===== src/Construct/Names.antt =====
-- The names by which the layouts call the construct package.
use pyserum.Base.{ℕ, Bool}
use pyserum.Base.Bytes.{Bytes}
use pyserum.Construct.Interface.{Codec, Construct}

module _ ⦃lib : Construct⦄ where
  abbrev pub int8ul : Codec ℕ
  int8ul = lib.uint 1

  abbrev pub int16ul : Codec ℕ
  int16ul = lib.uint 2

  abbrev pub int32ul : Codec ℕ
  int32ul = lib.uint 4

  abbrev pub int64ul : Codec ℕ
  int64ul = lib.uint 8

  abbrev pub bytes : ℕ → Codec Bytes
  bytes = lib.bytes

  abbrev pub padding : ℕ → Codec (Unit {0})
  padding = lib.padding

  abbrev pub flag : Codec Bool
  flag = lib.flag

  -- One member of a Struct before the next, which does not look at its value.
  infixr 40 ◌⨟◌
  abbrev pub ◌⨟◌ : {A B : Type 0} → Codec A → Codec B → Codec (A × B)
  c ⨟ d = lib.pair c d
