-- ===== src/Crypto/Primitives.antt =====
-- The operations of @noble/hashes, @noble/ciphers and @noble/curves that packages/crypto calls.
-- `none` is an exception. Randomness is an argument of the operations that draw it.
use dhf.Base.{
  ℕ, ◌==◌, ◌≡◌, ◌&&◌, not, Option, some, Bool, true, false, [], ◌∷◌, Text, Bytes, IsBytes, leb, ltb,
  length, if◌then◌else◌,
}

pub record Noble : Type 0 where
  pub sha256 : Bytes → Bytes
  pub utf8_to_bytes : Text → Bytes
  pub bytes_to_utf8 : Bytes → Text
  pub bytes_to_hex : Bytes → Text
  pub hex_to_bytes : Text → Option Bytes
  -- the input key, the salt, the info and the length
  pub hkdf_sha512 : Bytes → Bytes → Text → ℕ → Bytes
  -- the key, the nonce and the text
  pub gcm_encrypt : Bytes → Bytes → Bytes → Bytes
  pub gcm_decrypt : Bytes → Bytes → Bytes → Option Bytes
  pub get_public_key : Bytes → Bytes
  -- the message and the private key
  pub ed25519_sign : Bytes → Bytes → Bytes
  -- the signature, the message and the public key
  pub ed25519_verify : Bytes → Bytes → Bytes → Option Bool

-- A digest is 32 bytes, and `hexToBytes` undoes `bytesToHex`.
pub record HashLaws (n : Noble) : Type 0 where
  pub digest-IsBytes : (b : Bytes) → IsBytes (n.sha256 b)
  pub length-digest : (b : Bytes) → length (n.sha256 b) ≡ 32
  pub hex_to_bytes-bytes_to_hex :
      (b : Bytes) → IsBytes b → n.hex_to_bytes (n.bytes_to_hex b) ≡ some b

-- Whether code units are well-formed UTF-16: each high surrogate, and no other unit, stands before a
-- low one. The first argument is whether the unit before was a high surrogate.
unfoldable pub well_formed : Bool → Text → Bool
well_formed high [] = not high
well_formed high (c ∷ rest) =
    (if high then leb 56320 c && ltb c 57344 else not (leb 56320 c && ltb c 57344))
    && ltb c 65536
    && well_formed (leb 55296 c && ltb c 56320) rest

-- The texts that UTF-8 carries: well formed, and not behind a byte order mark, which a decoder drops.
unfoldable pub decodable : Text → Bool
unfolding well_formed
decodable [] = true
decodable (c ∷ rest) = not (c == 65279) && well_formed false (c ∷ rest)

-- Authenticated encryption under a key of 32 bytes with a nonce of 12: what was sealed opens under the
-- key and the nonce that sealed it. A derived key has the 32 bytes that are asked for.
pub record CipherLaws (n : Noble) : Type 0 where
  pub utf8-IsBytes : (t : Text) → IsBytes (n.utf8_to_bytes t)
  pub bytes_to_utf8-utf8_to_bytes :
      (t : Text) → decodable t ≡ true → n.bytes_to_utf8 (n.utf8_to_bytes t) ≡ t
  pub key-IsBytes : (ikm salt : Bytes) (info : Text) → IsBytes (n.hkdf_sha512 ikm salt info 32)
  pub length-key : (ikm salt : Bytes) (info : Text) → length (n.hkdf_sha512 ikm salt info 32) ≡ 32
  pub sealed-IsBytes :
      (key iv p : Bytes)
      → length key ≡ 32
      → length iv ≡ 12
      → IsBytes key
      → IsBytes iv
      → IsBytes p
      → IsBytes (n.gcm_encrypt key iv p)
  pub opens :
      (key iv p : Bytes)
      → length key ≡ 32
      → length iv ≡ 12
      → IsBytes key
      → IsBytes iv
      → IsBytes p
      → n.gcm_decrypt key iv (n.gcm_encrypt key iv p) ≡ some p

-- A signature verifies under the public half of the key that made it.
pub record SignatureLaws (n : Noble) : Type 0 where
  pub signature-IsBytes : (m priv : Bytes) → IsBytes (n.ed25519_sign m priv)
  pub public-IsBytes : (priv : Bytes) → IsBytes (n.get_public_key priv)
  pub verifies :
      (m priv : Bytes)
      → n.ed25519_verify (n.ed25519_sign m priv) m (n.get_public_key priv) ≡ some true
