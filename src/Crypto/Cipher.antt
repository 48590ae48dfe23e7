-- ===== src/Crypto/Cipher.antt =====
-- Epoch keys, authenticated encryption and signatures of packages/crypto/src/index.ts. The number 12
-- of random bytes and `randomPrivateKey` are arguments. `none` is a thrown error.
pub mod RoundTrip
mod Examples
use dhf.Base.{
  ℕ, Option, none, some, Bool, true, false, ◌∷◌, [], ◌++◌, Bytes, Text, ◌==◌, if◌then◌else◌, ◌>>=◌,
  codes, or_else,
}
use dhf.Base.Decimal.{to_decimal}
use dhf.Crypto.Primitives.{Noble}
use dhf.Crypto.Merkle.{Leaf, leaf_bytes}

pub record EncPayload : Type 0 where
  pub iv : Text
  pub ct : Text
  pub v : ℕ

pub record IdentityKeypair : Type 0 where
  pub pub_hex : Text
  pub priv_hex : Text

module _ (n : Noble) where
  open n use {
    utf8_to_bytes, bytes_to_utf8, bytes_to_hex, hex_to_bytes, hkdf_sha512, gcm_encrypt, gcm_decrypt,
    get_public_key, ed25519_sign, ed25519_verify,
  }

  -- The master secret is the environment's, or a fixed one.
  unfoldable pub epoch_key : Text → ℕ → Option Text → Bytes
  epoch_key stack_id epoch master_secret =
      hkdf_sha512 (utf8_to_bytes (or_else master_secret (codes "ECCA_GENESIS")))
        (utf8_to_bytes stack_id) (codes "ecca-epoch:" ++ to_decimal epoch) 32

  unfoldable pub encrypt : Leaf → Bytes → Bytes → EncPayload
  encrypt plaintext key iv = record {
    iv = bytes_to_hex iv;
    ct = bytes_to_hex (gcm_encrypt key iv (leaf_bytes n plaintext));
    v = 1;
  }

  unfoldable pub decrypt : EncPayload → Bytes → Option Text
  decrypt payload key =
      if payload.v == 1
      then (hex_to_bytes payload.iv >>= λ iv.
          hex_to_bytes payload.ct >>= λ ct. gcm_decrypt key iv ct >>= λ pt. some (bytes_to_utf8 pt))
      else none

  unfoldable pub identity_keypair : Bytes → IdentityKeypair
  identity_keypair priv = record {
    pub_hex = bytes_to_hex (get_public_key priv);
    priv_hex = bytes_to_hex priv;
  }

  unfoldable pub sign : Text → Leaf → Option Text
  sign priv_hex message = hex_to_bytes priv_hex >>= λ priv.
      some (bytes_to_hex (ed25519_sign (leaf_bytes n message) priv))

  -- Every exception inside is the answer `false`.
  unfoldable pub verify : Text → Leaf → Text → Bool
  verify pub_hex message sig_hex =
      or_else
        (hex_to_bytes sig_hex >>= λ sig.
          hex_to_bytes pub_hex >>= λ pub_key. ed25519_verify sig (leaf_bytes n message) pub_key)
        false
