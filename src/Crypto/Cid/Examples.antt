-- ===== src/Crypto/Cid/Examples.antt =====
-- Tests of identifiers, with hexadecimal digits in place of those of `Sample`.
use dhf.Base.{
  ◌≡◌, refl, ap, some, none, true, [], ◌∷◌, ◌++◌, Text, Bytes, IsBytes, All, codes, arith,
}
use dhf.Crypto.{text, sha256hex}
use dhf.Crypto.Primitives.{Noble, HashLaws}
use dhf.Crypto.Sample.{sample, sample-HashLaws}
use dhf.Crypto.Cid.{cid, parse_cid, parse_epoch, each, is_hex_digit, HexLaws}
use dhf.Crypto.Cid.RoundTrip.{parse_cid-cid}
use dhf.Address.Hex.{byte_hex, bytes_hex, parse_pairs, passes, passes-at}
use dhf.Address.Hex.RoundTrip.{length-bytes_hex, parse_pairs-bytes_hex}
use dhf.Base.Decimal.{is_digit}

abbrev pub hex_sample : Noble
hex_sample = record sample { bytes_to_hex = bytes_hex; hex_to_bytes = λ t. some (parse_pairs t) }

pub hex_sample-HashLaws : HashLaws hex_sample
hex_sample-HashLaws = record {
  digest-IsBytes = sample-HashLaws.digest-IsBytes;
  length-digest = sample-HashLaws.length-digest;
  hex_to_bytes-bytes_to_hex = λ b v. ap some (parse_pairs-bytes_hex b v);
}

digit_table : passes (λ b. each is_hex_digit (byte_hex b)) 256 ≡ true
unfolding passes each is_hex_digit is_digit byte_hex
digit_table = refl

All-each :
    (t rest : Text)
    → each is_hex_digit t ≡ true
    → All (λ c. is_hex_digit c ≡ true) rest
    → All (λ c. is_hex_digit c ≡ true) (t ++ rest)
unfolding each
All-each [] rest h r = r
All-each (c ∷ t) rest h r = (ground (arith, h), All-each t rest (ground (arith, h)) r)

bytes_hex-digits : (b : Bytes) → IsBytes b → All (λ c. is_hex_digit c ≡ true) (bytes_hex b)
unfolding bytes_hex
bytes_hex-digits [] v = tt
bytes_hex-digits (b ∷ bs) v =
    All-each (byte_hex b) (bytes_hex bs)
      (passes-at (λ x. each is_hex_digit (byte_hex x)) v.0 digit_table) (bytes_hex-digits bs v.1)

pub hex_sample-HexLaws : HexLaws hex_sample
hex_sample-HexLaws = record {
  length-bytes_to_hex = length-bytes_hex;
  bytes_to_hex-digits = bytes_hex-digits;
}

no_epoch : parse_epoch (codes "@") ≡ none
unfolding parse_epoch
no_epoch = refl

parse_cid-cid_example :
    parse_cid (cid hex_sample (text (codes "rain")) 42)
    ≡ some (record { hash = sha256hex hex_sample (text (codes "rain")); epoch = 42 })
parse_cid-cid_example =
    parse_cid-cid hex_sample hex_sample-HashLaws hex_sample-HexLaws (text (codes "rain")) 42
