-- ===== src/Address/Hex.antt =====
-- Hexadecimal digits as packages/semantic-address writes and reads them: `b.toString(16)` with
-- `padStart(2, '0')`, and `parseInt(…, 16)` of two characters at a time, stored in a `Uint8Array`.
pub mod RoundTrip
use dhf.Base.{
  ℕ, zero, suc, ◌+◌, ◌-◌, ◌*◌, ◌/◌, ◌%◌, ◌<◌, ◌≡◌, refl, Option, none, some, Bool, true, false,
  ◌&&◌, ◌||◌, [], ◌∷◌, ◌++◌, Bytes, Text, length, replicate, leb, ltb, ◌==◌, if◌then◌else◌, arith,
}

hex_digit : ℕ → ℕ
hex_digit d = if ltb d 10 then d + b'0' else d - 10 + b'a'

-- A byte in base 16, without leading zeros.
byte_string16 : ℕ → Text
unfolding hex_digit
byte_string16 b =
    if ltb b 16 then hex_digit b ∷ [] else hex_digit (b / 16) ∷ hex_digit (b % 16) ∷ []

pad_start2 : Text → Text
pad_start2 t = replicate (2 - length t) b'0' ++ t

unfoldable pub byte_hex : ℕ → Text
unfolding byte_string16 pad_start2
byte_hex b = pad_start2 (byte_string16 b)

unfoldable pub bytes_hex : Bytes → Text
unfolding byte_hex
bytes_hex [] = []
bytes_hex (b ∷ bs) = byte_hex b ++ bytes_hex bs

-- The white space of the language: what `trim` removes, `\s` matches and `parseInt` skips.
unfoldable pub is_space : ℕ → Bool
is_space c =
    leb 9 c && leb c 13
    || c == 0x20
    || c == 0xa0
    || c == 0x1680
    || leb 0x2000 c && leb c 0x200a
    || c == 0x2028
    || c == 0x2029
    || c == 0x202f
    || c == 0x205f
    || c == 0x3000
    || c == 0xfeff

digit_value : ℕ → Option ℕ
digit_value c =
    if leb b'0' c && leb c b'9'
    then some (c - b'0')
    else if leb b'a' c && leb c b'f'
    then some (c - b'a' + 10)
    else if leb b'A' c && leb c b'F'
    then some (c - b'A' + 10)
    else none

skip_space : Text → Text
unfolding is_space
skip_space [] = []
skip_space (c ∷ cs) = if is_space c then skip_space cs else c ∷ cs

-- The digits read so far, and the value of the longest run of digits that goes on from there.
digits_value : Option ℕ → Text → Option ℕ
unfolding digit_value
digits_value acc [] = acc
digits_value acc (c ∷ cs) = elim (digit_value c) [
  | none ↦ acc
  | some d ↦ digits_value (some (elim acc [ none ↦ d | some v ↦ v * 16 + d ])) cs
]

strip_0x : Text → Text
strip_0x [] = []
strip_0x (z ∷ []) = z ∷ []
strip_0x (z ∷ x ∷ rest) = if z == b'0' && (x == b'x' || x == b'X') then rest else z ∷ x ∷ rest

-- A byte of a `Uint8Array`, from a number with its sign; not-a-number is stored as 0.
to_uint8 : Bool → Option ℕ → ℕ
to_uint8 negative none = 0
to_uint8 true (some v) = (256 - v % 256) % 256
to_uint8 false (some v) = v % 256

parse_signed : Text → ℕ
unfolding digits_value strip_0x to_uint8
parse_signed [] = 0
parse_signed (c ∷ cs) =
    if c == b'-'
    then to_uint8 true (digits_value none (strip_0x cs))
    else if c == b'+'
    then to_uint8 false (digits_value none (strip_0x cs))
    else to_uint8 false (digits_value none (strip_0x (c ∷ cs)))

-- parseInt(t, 16), as a byte
unfoldable pub parse_byte : Text → ℕ
unfolding skip_space parse_signed
parse_byte t = parse_signed (skip_space t)

-- `parseInt(hex.slice(i * 2, i * 2 + 2), 16)` for each `i`, over a text of even length.
unfoldable pub parse_pairs : Text → Bytes
unfolding parse_byte
parse_pairs [] = []
parse_pairs (a ∷ []) = []
parse_pairs (a ∷ b ∷ rest) = parse_byte (a ∷ b ∷ []) ∷ parse_pairs rest

-- Whether a test holds at each of the first numbers, the latest first.
unfoldable pub passes : (ℕ → Bool) → ℕ → Bool
passes test zero = true
passes test (suc top) = let others = passes test top in if test top then others else false

pub passes-at : (test : ℕ → Bool) {top k : ℕ} → k < top → passes test top ≡ true → test k ≡ true
unfolding passes
passes-at test {top = zero} below ok = absurd (omega arith)
passes-at test {top = suc top} {k} below ok = ground (arith, passes-at test {top = top} {k = k})

pub byte_table : passes (λ b. parse_byte (byte_hex b) == b && length (byte_hex b) == 2) 256 ≡ true
unfolding passes parse_byte byte_hex
byte_table = refl
