-- ===== src/Crypto.antt =====
-- packages/crypto/src/index.ts. The algorithms of @noble are not in the repository: they are the
-- operations of `Noble`, and what the code relies on of them is in `HashLaws`.
pub mod Primitives
pub mod Sample
pub mod Cipher
pub mod Cid
pub mod Merkle
pub mod Mmr
use dhf.Base.{Text, Bytes, ◌∷◌, ◌++◌, codes}
use Primitives.{Noble}

-- What `sha256hex` and `cid` take. An object stands here as the text that JSON.stringify makes of it.
pub data Content : Type 0 where
  text : Text → Content
  bytes : Bytes → Content
  object : Text → Content

module _ (n : Noble) where
  open n use {sha256 as noble_sha256, utf8_to_bytes, bytes_to_hex}

  unfoldable pub content_bytes : Content → Bytes
  content_bytes (text t) = utf8_to_bytes t
  content_bytes (bytes b) = b
  content_bytes (object t) = utf8_to_bytes t

  unfoldable pub sha256 : Content → Bytes
  unfolding content_bytes
  sha256 c = noble_sha256 (content_bytes c)

  unfoldable pub sha256hex : Content → Text
  unfolding sha256
  sha256hex c = bytes_to_hex (sha256 c)

  pub record ShardRoots : Type 0 where
    pub evm : Text
    pub btc : Text
    pub ipfs : Text
    pub sleeves : Text

  unfoldable pub coherence_root : ShardRoots → Text
  unfolding sha256hex
  coherence_root parts = sha256hex (
      text (
        parts.evm
        ++ codes "|"
        ++ parts.btc
        ++ codes "|"
        ++ parts.ipfs
        ++ codes "|"
        ++ parts.sleeves))
