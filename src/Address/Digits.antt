-- ===== src/Address/Digits.antt =====
-- Addresses as texts of 64 hexadecimal digits.
use dhf.Base.{◌≡◌, some, true, IsBytes, length, ◌==◌, arith}
use dhf.Address.{SemanticAddress, to_hex, from_hex}
use dhf.Address.Hex.{bytes_hex}
use dhf.Address.Hex.RoundTrip.{length-bytes_hex, parse_pairs-bytes_hex}

-- `fromHex` reads back what `toHex` writes, for every address of 32 bytes.
from_hex-to_hex :
    (a : SemanticAddress) → IsBytes a.bytes → length a.bytes ≡ 32 → from_hex (to_hex a) ≡ some a
unfolding from_hex to_hex
from_hex-to_hex a v size =
    let digits : (length (bytes_hex a.bytes) == 64) ≡ true =
      ground (arith, length-bytes_hex a.bytes v) in
    let whole : (length a.bytes == 32) ≡ true = ground arith in
    rw (digits, parse_pairs-bytes_hex a.bytes v, whole)

-- So two addresses with one text are equal.
pub to_hex_inj :
    (a b : SemanticAddress)
    → IsBytes a.bytes
    → IsBytes b.bytes
    → length a.bytes ≡ 32
    → length b.bytes ≡ 32
    → to_hex a ≡ to_hex b
    → a ≡ b
to_hex_inj a b va vb la lb e = cc (from_hex-to_hex a va la, from_hex-to_hex b vb lb)
