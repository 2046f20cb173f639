-- ===== src/Prelude/Hex.antt =====
-- The package encoding/hex: two digits for a byte, in lower case; either case is read.
use Prim.Native.Nat.{ℕ, ◌+◌, ◌-◌, ◌*◌, ◌/◌, ◌%◌, ◌<◌}
use mathlib.Core.Path.{◌≡◌, refl}
use mathlib.Core.Bool.{false, ◌&&◌}
use mathlib.Core.List.{[], ◌∷◌}
use mathlib.Core.Option.{Option, none, some}
use native.Mathlib.Omega.{arith}
use schain.Prelude.Tests.{◌==◌, ltb, leb, if◌then◌else◌}
use schain.Prelude.Lists.{All}
use schain.Prelude.Text.{Bytes, contains}

unfoldable pub hex_digit : ℕ → ℕ
hex_digit n = if ltb n 10 then b'0' + n else 87 + n

unfoldable pub hex_value : ℕ → Option ℕ
hex_value c =
    if leb b'0' c && leb c b'9'
    then some (c - b'0')
    else if leb b'a' c && leb c b'f'
    then some (c - 87)
    else if leb b'A' c && leb c b'F'
    then some (c - 55)
    else none

-- hex.EncodeToString
unfoldable pub hex_encode : Bytes → Bytes
unfolding hex_digit
hex_encode [] = []
hex_encode (b ∷ s) = hex_digit (b / 16) ∷ hex_digit (b % 16) ∷ hex_encode s

abbrev pair_value : Option ℕ → Option ℕ → Option Bytes → Option Bytes
pair_value (some a) (some b) (some s) = some ((a * 16 + b) ∷ s)
pair_value a b s = none

-- hex.DecodeString, which refuses an odd length and any byte that is not a digit.
unfoldable pub hex_decode : Bytes → Option Bytes
unfolding hex_value
hex_decode [] = some []
hex_decode (a ∷ []) = none
hex_decode (a ∷ b ∷ s) = pair_value (hex_value a) (hex_value b) (hex_decode s)

abbrev pub IsByte : ℕ → Type 0
IsByte b = b < 256

hex_value-hex_digit : (n : ℕ) → n < 16 → hex_value (hex_digit n) ≡ some n
unfolding hex_value hex_digit
hex_value-hex_digit n h = ground arith

hex_pair : (b : ℕ) → b < 256 → b / 16 * 16 + b % 16 ≡ b
hex_pair b h = omega arith

pub hex_decode-hex_encode : (s : Bytes) → All IsByte s → hex_decode (hex_encode s) ≡ some s
unfolding hex_decode hex_encode
hex_decode-hex_encode [] h = refl
hex_decode-hex_encode (b ∷ s) (hb, hs) = rw (hex_value-hex_digit (b / 16) (omega arith)) (
    rw (hex_value-hex_digit (b % 16) (omega arith))
      (rw (hex_decode-hex_encode s hs) (rw (hex_pair b hb) refl)))

hex_digit-plain : (n : ℕ) → n < 16 → (hex_digit n == b':') ≡ false
unfolding hex_digit
hex_digit-plain n h = ground arith

-- No colon stands in a hexadecimal text.
pub hex_encode-contains : (s : Bytes) → All IsByte s → contains (hex_encode s) b':' ≡ false
unfolding contains hex_encode
hex_encode-contains [] h = refl
hex_encode-contains (b ∷ s) (hb, hs) = ground (
  arith,
  hex_digit-plain (b / 16) (omega arith),
  hex_digit-plain (b % 16) (omega arith),
  hex_encode-contains s hs,
)
