-- ===== src/Crypto/Cipher/RoundTrip.antt =====
-- Decryption undoes encryption under the same key; a signature verifies.
use dhf.Base.{ℕ, ◌==◌, ◌≡◌, ◌≢◌, refl, none, some, true, false, Bytes, IsBytes, Text, length, arith}
use dhf.Crypto.Primitives.{Noble, HashLaws, CipherLaws, SignatureLaws, decodable}
use dhf.Crypto.Merkle.{Leaf, text, leaf_bytes}
use dhf.Crypto.Cipher.{encrypt, decrypt, identity_keypair, sign, verify}

module _ (n : Noble) (hashes : HashLaws n) (ciphers : CipherLaws n) where
  pub decrypt-encrypt_same :
      (t : Text) (key iv : Bytes)
      → decodable t ≡ true
      → length key ≡ 32
      → length iv ≡ 12
      → IsBytes key
      → IsBytes iv
      → decrypt n (encrypt n (text t) key iv) key ≡ some t
  unfolding decrypt encrypt leaf_bytes
  decrypt-encrypt_same t key iv plain lk li vk vi =
      let vt = ciphers.utf8-IsBytes t in
      let sealed = ciphers.sealed-IsBytes key iv (n.utf8_to_bytes t) lk li vk vi vt in
      rw
        (
          hashes.hex_to_bytes-bytes_to_hex iv vi,
          hashes.hex_to_bytes-bytes_to_hex _ sealed,
          ciphers.opens key iv (n.utf8_to_bytes t) lk li vk vi vt,
          ciphers.bytes_to_utf8-utf8_to_bytes t plain,
        )
        refl

  -- A text of well-formed UTF-16 that does not begin with a byte order mark, once it was encrypted under
  -- a key of 32 bytes with 12 random bytes, decrypts under that key to itself; a payload that has another
  -- version than the one that `encrypt` writes does not decrypt under any key.
  pub decrypt-encrypt :
      (t : Text) (key other iv : Bytes) (version : ℕ)
      → decodable t ≡ true
      → length key ≡ 32
      → length iv ≡ 12
      → IsBytes key
      → IsBytes iv
      → version ≢ 1
      → (decrypt n (encrypt n (text t) key iv) key ≡ some t)
        × (decrypt n (record (encrypt n (text t) key iv) { v = version }) other ≡ none)
  unfolding decrypt
  decrypt-encrypt t key other iv version plain lk li vk vi old =
      let not_one : (version == 1) ≡ false = ground arith in
      (decrypt-encrypt_same t key iv plain lk li vk vi, rw not_one refl)

module _ (n : Noble) (hashes : HashLaws n) (signatures : SignatureLaws n) where
  -- What the private half of a generated pair signs, the public half verifies.
  verify-sign :
      (priv : Bytes) (message : Leaf)
      → IsBytes priv
      → (sig : Text) × (sign n (identity_keypair n priv).priv_hex message ≡ some sig)
        × (verify n (identity_keypair n priv).pub_hex message sig ≡ true)
  unfolding sign verify identity_keypair
  verify-sign priv message v =
      let m = leaf_bytes n message in
      let back = hashes.hex_to_bytes-bytes_to_hex in
      (
        n.bytes_to_hex (n.ed25519_sign m priv),
        rw (back priv v),
        rw (
          back (n.ed25519_sign m priv) (signatures.signature-IsBytes m priv),
          back (n.get_public_key priv) (signatures.public-IsBytes priv),
          signatures.verifies m priv,
        ),
      )
