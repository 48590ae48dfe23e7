-- ===== src/Crypto/Sample.antt =====
-- Concrete operations that meet the laws of `Primitives`, for tests: a checksum in place of the
-- digest, the bytes themselves in place of their hexadecimal digits, a unary form of texts, a key in front of
-- the text that it seals, and the private key in front of the message as signature.
use dhf.Base.{
  ℕ, zero, suc, ◌+◌, ◌*◌, ◌%◌, ◌<◌, ◌≡◌, refl, ap, ◌∙◌, Option, none, some, arith, Bytes, IsBytes,
  Text, [], ◌∷◌, ◌++◌, length-replicate, replicate, text_eq, text_eq_refl, if◌then◌else◌,
}
use dhf.Crypto.Primitives.{Noble, HashLaws, CipherLaws, SignatureLaws}

abbrev checksum : ℕ → Bytes → ℕ
checksum acc [] = acc % 256
checksum acc (b ∷ bs) = checksum ((acc * 31 + b) % 251) bs

-- A text in unary, each code unit ended by a zero.
abbrev ones : ℕ → Bytes → Bytes
ones zero rest = 0 ∷ rest
ones (suc k) rest = 1 ∷ ones k rest

abbrev to_unary : Text → Bytes
to_unary [] = []
to_unary (c ∷ cs) = ones c (to_unary cs)

abbrev from_unary : ℕ → Bytes → Text
from_unary acc [] = []
from_unary acc (zero ∷ b) = acc ∷ from_unary 0 b
from_unary acc (suc k ∷ b) = from_unary (suc acc) b

from_unary-ones :
    (acc k j : ℕ) (b : Bytes) → acc + k ≡ j → from_unary acc (ones k b) ≡ j ∷ from_unary 0 b
from_unary-ones acc zero j b e = let e' : acc ≡ j = omega arith in rw e'
from_unary-ones acc (suc k) j b e = from_unary-ones (suc acc) k j b (omega arith)

from_unary-to_unary : (t : Text) → from_unary 0 (to_unary t) ≡ t
from_unary-to_unary [] = refl
from_unary-to_unary (c ∷ cs) =
    from_unary-ones 0 c c (to_unary cs) (omega arith) ∙ ap (◌∷◌ c) (from_unary-to_unary cs)

ones-IsBytes : (k : ℕ) (b : Bytes) → IsBytes b → IsBytes (ones k b)
ones-IsBytes zero b v = (omega arith, v)
ones-IsBytes (suc k) b v = (omega arith, ones-IsBytes k b v)

to_unary-IsBytes : (t : Text) → IsBytes (to_unary t)
to_unary-IsBytes [] = tt
to_unary-IsBytes (c ∷ cs) = ones-IsBytes c (to_unary cs) (to_unary-IsBytes cs)

abbrev clip : Bytes → Bytes
clip [] = []
clip (b ∷ bs) = (b % 256) ∷ clip bs

-- The rest of the text behind the key, if it begins with the key.
abbrev strip : Bytes → Bytes → Option Bytes
strip [] c = some c
strip (k ∷ ks) [] = none
strip (k ∷ ks) (b ∷ c) = if text_eq (k ∷ []) (b ∷ []) then strip ks c else none

clip-IsBytes : (b : Bytes) → IsBytes (clip b)
clip-IsBytes [] = tt
clip-IsBytes (b ∷ bs) = (omega arith, clip-IsBytes bs)

replicate-IsBytes : (k x : ℕ) → x < 256 → IsBytes (replicate k x)
replicate-IsBytes zero x h = tt
replicate-IsBytes (suc k) x h = (h, replicate-IsBytes k x h)

checksum-lt : (acc : ℕ) (b : Bytes) → checksum acc b < 256
checksum-lt acc [] = omega arith
checksum-lt acc (b ∷ bs) = checksum-lt ((acc * 31 + b) % 251) bs

append-IsBytes : (a b : Bytes) → IsBytes a → IsBytes b → IsBytes (a ++ b)
append-IsBytes [] b va vb = vb
append-IsBytes (x ∷ a) b va vb = (va.0, append-IsBytes a b va.1 vb)

strip-append : (k c : Bytes) → strip k (k ++ c) ≡ some c
strip-append [] c = refl
strip-append (x ∷ k) c = rw (text_eq_refl (x ∷ [])) (strip-append k c)

abbrev pub sample : Noble
sample = record {
  sha256 = λ b. replicate 32 (checksum 7 b);
  utf8_to_bytes = to_unary;
  bytes_to_utf8 = from_unary 0;
  bytes_to_hex = λ b. b;
  hex_to_bytes = λ t. some t;
  hkdf_sha512 = λ ikm salt info k. replicate k (checksum 11 (ikm ++ salt ++ info));
  gcm_encrypt = λ key iv p. key ++ p;
  gcm_decrypt = λ key iv c. strip key c;
  get_public_key = λ priv. clip priv;
  ed25519_sign = λ m priv. clip priv;
  ed25519_verify = λ sig m pub_key. some (text_eq sig pub_key);
}

pub sample-HashLaws : HashLaws sample
sample-HashLaws = record {
  digest-IsBytes = λ b. replicate-IsBytes 32 (checksum 7 b) (checksum-lt 7 b);
  length-digest = λ b. length-replicate 32 (checksum 7 b);
  hex_to_bytes-bytes_to_hex = λ b v. refl;
}

pub sample-CipherLaws : CipherLaws sample
sample-CipherLaws = record {
  utf8-IsBytes = to_unary-IsBytes;
  bytes_to_utf8-utf8_to_bytes = λ t plain. from_unary-to_unary t;
  key-IsBytes = λ ikm salt info. replicate-IsBytes 32 _ (checksum-lt 11 (ikm ++ salt ++ info));
  length-key = λ ikm salt info. length-replicate 32 (checksum 11 (ikm ++ salt ++ info));
  sealed-IsBytes = λ key iv p lk li vk vi vp. append-IsBytes key p vk vp;
  opens = λ key iv p lk li vk vi vp. strip-append key p;
}

pub sample-SignatureLaws : SignatureLaws sample
sample-SignatureLaws = record {
  signature-IsBytes = λ m priv. clip-IsBytes priv;
  public-IsBytes = clip-IsBytes;
  verifies = λ m priv. ap some (text_eq_refl (clip priv));
}
