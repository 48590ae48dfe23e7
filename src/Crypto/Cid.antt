-- ===== src/Crypto/Cid.antt =====
-- Content identifiers of packages/crypto/src/index.ts: `cid` writes them and `parseCid` reads them by
-- the expression `^ecca:\/\/([0-9a-f]{64})(?:@(\d+))?$`.
pub mod RoundTrip
pub mod Examples
use dhf.Base.{
  ℕ, ◌≡◌, ◌*◌, Option, none, some, Bool, true, false, ◌&&◌, ◌||◌, not, [], ◌∷◌, ◌++◌, Text, IsBytes,
  Bytes, All, length, take, drop, is_empty, leb, ◌==◌, if◌then◌else◌, ◌>>=◌, codes,
}
use dhf.Base.Decimal.{to_decimal, from_decimal, is_digit}
use dhf.Crypto.{Content, sha256hex}
use dhf.Crypto.Primitives.{Noble}

pub record CidComponents : Type 0 where
  pub hash : Text
  pub epoch : ℕ

abbrev pub scheme : Text
scheme = codes "ecca://"

unfoldable pub cid : Noble → Content → ℕ → Text
unfolding sha256hex
cid n content epoch = scheme ++ (sha256hex n content ++ (codes "@" ++ to_decimal epoch))

-- `[0-9a-f]`
unfoldable pub is_hex_digit : ℕ → Bool
is_hex_digit c = is_digit c || leb b'a' c && leb c b'f'

-- Whether every character is of a class.
unfoldable pub each : (ℕ → Bool) → Text → Bool
each test [] = true
each test (c ∷ cs) = let rest = each test cs in if test c then rest else false

-- The text behind a literal that it begins with.
unfoldable pub behind : Text → Text → Option Text
behind [] t = some t
behind (p ∷ ps) [] = none
behind (p ∷ ps) (c ∷ cs) = let rest = behind ps cs in if p == c then rest else none

-- `(?:@(\d+))?$`, with the epoch 0 where there is none
unfoldable pub parse_epoch : Text → Option ℕ
unfolding each
parse_epoch [] = some 0
parse_epoch (c ∷ ds) =
    if c == b'@' && not (is_empty ds) && each is_digit ds then some (from_decimal 0 ds) else none

-- what follows the scheme
unfoldable pub parse_rest : Text → Option CidComponents
unfolding each parse_epoch is_hex_digit
parse_rest rest =
    let hash = take 64 rest in
    if leb 64 (length rest) && each is_hex_digit hash
    then (parse_epoch (drop 64 rest) >>= λ epoch. some (record { hash = hash; epoch = epoch }))
    else none

unfoldable pub parse_cid : Text → Option CidComponents
unfolding behind parse_rest
parse_cid t = behind scheme t >>= parse_rest

-- `bytesToHex` writes two lower-case digits for each byte.
pub record HexLaws (n : Noble) : Type 0 where
  pub length-bytes_to_hex : (b : Bytes) → IsBytes b → length (n.bytes_to_hex b) ≡ 2 * length b
  pub bytes_to_hex-digits :
      (b : Bytes) → IsBytes b → All (λ c. is_hex_digit c ≡ true) (n.bytes_to_hex b)
