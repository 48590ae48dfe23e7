-- ===== src/Crypto/Merkle.antt =====
-- The Merkle tree of packages/crypto/src/index.ts: `hashLeaf`, `hashNode`, `merkleRoot`,
-- `merkleProof` and `verifyMerkleProof`. An index is a natural number; `none` is a thrown error.
-- Each `while (layer.length > 1)` takes the number of items as fuel, since a round at least halves
-- the layer, rounding up.
pub mod Levels
pub mod Proofs
pub mod Inputs
pub mod Binding
pub mod Duplicates
mod Examples
use dhf.Base.{
  ℕ, zero, suc, ◌+◌, ◌-◌, ◌/◌, ◌%◌, Option, none, some, List, [], ◌∷◌, ◌++◌, map, Bool, Text, Bytes,
  text_eq, length, get_elem?, ltb, leb, ◌==◌, if◌then◌else◌, ◌>>=◌,
}
use dhf.Crypto.Primitives.{Noble}

-- A leaf is a `Uint8Array` or a string.
pub data Leaf : Type 0 where
  bytes : Bytes → Leaf
  text : Text → Leaf

pub record MerkleProof : Type 0 where
  pub siblings : List Text
  pub index : ℕ

-- layer[0]
abbrev pub first : List Bytes → Bytes
first [] = []
first (x ∷ xs) = x

-- `a ?? b`, where each may be undefined
abbrev or_elem : Option Bytes → Option Bytes → Option Bytes
or_elem none b = b
or_elem (some x) b = some x

-- The other child of the parent of item `i`: the item itself, where the layer ends with it.
pub sibling : List Bytes → ℕ → Option Bytes
sibling layer i =
    if i % 2 == 0
    then or_elem (get_elem? layer (i + 1)) (get_elem? layer i)
    else get_elem? layer (i - 1)

module _ (n : Noble) where
  open n use {sha256, utf8_to_bytes, bytes_to_hex, hex_to_bytes}

  unfoldable pub leaf_bytes : Leaf → Bytes
  leaf_bytes (bytes b) = b
  leaf_bytes (text t) = utf8_to_bytes t

  unfoldable pub hash_leaf : Bytes → Bytes
  hash_leaf b = sha256 (0 ∷ b)

  unfoldable pub hash_node : Bytes → Bytes → Bytes
  hash_node left right = sha256 (1 ∷ left ++ right)

  unfoldable pub leaf_layer : List Leaf → List Bytes
  leaf_layer leaves = map (λ l. hash_leaf (leaf_bytes l)) leaves

  unfoldable pub next_layer : List Bytes → List Bytes
  next_layer [] = []
  next_layer (a ∷ []) = hash_node a a ∷ []
  next_layer (a ∷ b ∷ rest) = hash_node a b ∷ next_layer rest

  -- The layers up to the one with a single item.
  unfoldable pub climb : ℕ → List Bytes → List Bytes
  climb zero layer = layer
  climb (suc fuel) layer =
      let rest = climb fuel (next_layer layer) in if ltb 1 (length layer) then rest else layer

  unfoldable pub merkle_root : List Leaf → Text
  unfolding leaf_layer climb next_layer hash_leaf hash_node leaf_bytes
  merkle_root leaves =
      if length leaves == 0
      then bytes_to_hex (sha256 [])
      else bytes_to_hex (first (climb (length leaves) (leaf_layer leaves)))

  unfoldable pub proof_siblings : ℕ → List Bytes → ℕ → Option (List Text)
  unfolding sibling
  proof_siblings zero layer i = some []
  proof_siblings (suc fuel) layer i =
      let rest = proof_siblings fuel (next_layer layer) (i / 2) in
      if ltb 1 (length layer)
      then (sibling layer i >>= λ sib. rest >>= λ more. some (bytes_to_hex sib ∷ more))
      else some []

  unfoldable pub merkle_proof : List Leaf → ℕ → Option MerkleProof
  unfolding leaf_layer proof_siblings next_layer hash_leaf hash_node leaf_bytes
  merkle_proof leaves index =
      if leb (length leaves) index
      then none
      else (proof_siblings (length leaves) (leaf_layer leaves) index >>= λ siblings.
          some (record { siblings = siblings; index = index }))

  -- The parent of item `i`, from the item and its sibling.
  unfoldable pub parent : ℕ → Bytes → Bytes → Bytes
  parent i h sib = if i % 2 == 0 then hash_node h sib else hash_node sib h

  unfoldable pub fold_proof : List Text → ℕ → Bytes → Option Bytes
  unfolding parent
  fold_proof [] i h = some h
  fold_proof (sib_hex ∷ rest) i h =
      hex_to_bytes sib_hex >>= λ sib. fold_proof rest (i / 2) (parent i h sib)

  unfoldable pub verify_merkle_proof : Leaf → MerkleProof → Text → Option Bool
  unfolding fold_proof parent hash_leaf hash_node leaf_bytes
  verify_merkle_proof leaf proof root =
      fold_proof proof.siblings proof.index (hash_leaf (leaf_bytes leaf)) >>= λ h.
      some (text_eq (bytes_to_hex h) root)
