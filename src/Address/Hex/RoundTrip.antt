-- ===== src/Address/Hex/RoundTrip.antt =====
-- Reading back the digits of bytes.
use dhf.Base.{
  ℕ, ◌*◌, ◌<◌, ◌≡◌, refl, ◌∙◌, ap₂, ◌&&◌, [], ◌∷◌, ◌++◌, Bytes, IsBytes, Text, length,
  length-append, ◌==◌, arith,
}
use dhf.Address.Hex.{byte_hex, bytes_hex, parse_byte, parse_pairs, passes-at, byte_table}

byte_hex_facts : (b : ℕ) → b < 256 → (parse_byte (byte_hex b) ≡ b) × (length (byte_hex b) ≡ 2)
byte_hex_facts b h =
    let row =
      passes-at (λ x. parse_byte (byte_hex x) == x && length (byte_hex x) == 2) h byte_table in
    ground arith

pub length-bytes_hex : (b : Bytes) → IsBytes b → length (bytes_hex b) ≡ 2 * length b
unfolding bytes_hex
length-bytes_hex [] v = refl
length-bytes_hex (b ∷ bs) v =
    let (_, two) = byte_hex_facts b v.0 in
    omega (arith, length-append (byte_hex b) (bytes_hex bs), length-bytes_hex bs v.1)

parse_pairs-append :
    (t rest : Text) → length t ≡ 2 → parse_pairs (t ++ rest) ≡ parse_byte t ∷ parse_pairs rest
unfolding parse_pairs
parse_pairs-append [] rest h = absurd (omega arith)
parse_pairs-append (x ∷ []) rest h = absurd (omega arith)
parse_pairs-append (x ∷ y ∷ []) rest h = refl
parse_pairs-append (x ∷ y ∷ z ∷ t) rest h = absurd (omega arith)

pub parse_pairs-bytes_hex : (b : Bytes) → IsBytes b → parse_pairs (bytes_hex b) ≡ b
unfolding bytes_hex
parse_pairs-bytes_hex [] v = unfold parse_pairs in refl
parse_pairs-bytes_hex (b ∷ bs) v =
    let (same, two) = byte_hex_facts b v.0 in
    parse_pairs-append (byte_hex b) (bytes_hex bs) two ∙ ap₂ ◌∷◌ same (parse_pairs-bytes_hex bs v.1)
