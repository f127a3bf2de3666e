-- ===== src/Base/Bytes.antt =====
-- Python's `int.from_bytes` and `int.to_bytes` in little-endian order; a `bytes` is a list of numbers.
use Prim.Native.Nat.{ℕ, zero, suc, ◌+◌, ◌*◌, ◌/◌, ◌%◌, ◌^◌, ◌<◌}
use mathlib.Core.Path.{◌≡◌, refl, ap}
use mathlib.Core.List.{List, [], ◌∷◌}
use native.Mathlib.Nat.{pow-suc}
use native.Mathlib.Omega.{arith}
use pyserum.Base.Lists.{length}
use pyserum.Base.Results.{Result, ok, err, overflow_error}
use pyserum.Base.Tests.{ltb, if◌then◌else◌}

abbrev pub Bytes : Type 0
Bytes = List ℕ

-- int.from_bytes(b, "little")
unfoldable pub from_bytes : Bytes → ℕ
from_bytes [] = 0
from_bytes (b ∷ bs) = b + 256 * from_bytes bs

-- The `k` low bytes of a number.
unfoldable pub low_bytes : ℕ → ℕ → Bytes
low_bytes zero n = []
low_bytes (suc k) n = n % 256 ∷ low_bytes k (n / 256)

-- n.to_bytes(k, byteorder="little")
unfoldable pub to_bytes : ℕ → ℕ → Result Bytes
unfolding low_bytes
to_bytes n k = if ltb n (256 ^ k) then ok (low_bytes k n) else err overflow_error

pub length-low_bytes : (k n : ℕ) → length (low_bytes k n) ≡ k
unfolding low_bytes
length-low_bytes zero n = refl
length-low_bytes (suc k) n = ap suc (length-low_bytes k (n / 256))

pub from_bytes-low_bytes : (k n : ℕ) → n < 256 ^ k → from_bytes (low_bytes k n) ≡ n
unfolding from_bytes low_bytes
from_bytes-low_bytes zero n h = omega arith
from_bytes-low_bytes (suc k) n h =
    let shorter : n / 256 < 256 ^ k = omega (arith, pow-suc 256 k) in
    omega (arith, from_bytes-low_bytes k (n / 256) shorter)
