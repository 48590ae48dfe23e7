-- ===== src/Crypto/Merkle/Examples.antt =====
-- Tests of the Merkle tree, on a tree of three leaves.
use dhf.Base.{ℕ, ◌≡◌, ◌⊎◌, refl, text_eq, some, none, List, [], ◌∷◌, arith, codes, length, true}
use dhf.Crypto.Sample.{sample, sample-HashLaws}
use dhf.Crypto.Merkle.{
  Leaf, MerkleProof, bytes, text, leaf_bytes, hash_leaf, hash_node, merkle_root, merkle_proof,
  verify_merkle_proof,
}
use dhf.Crypto.Merkle.Proofs.{rounds, verify-merkle_proof}
use dhf.Crypto.Merkle.Inputs.{Collision, verify_inputs, root_inputs}
use dhf.Crypto.Merkle.Binding.{verify_merkle_proof-binds}
use dhf.Crypto.Merkle.Duplicates.{merkle_root-repeat}

abbrev three : List Leaf
three = text (codes "alpha") ∷ bytes (1 ∷ 2 ∷ []) ∷ text (codes "gamma") ∷ []

out_of_range : merkle_proof sample three 3 ≡ none
unfolding merkle_proof
out_of_range = refl

verify-merkle_proof_example :
    (proof : MerkleProof) × (merkle_proof sample three 2 ≡ some proof)
    × (verify_merkle_proof sample (text (codes "gamma")) proof (merkle_root sample three)
        ≡ some true)
    × (length proof.siblings ≡ rounds 3 3)
verify-merkle_proof_example =
    verify-merkle_proof sample sample-HashLaws three 2 (text (codes "gamma")) refl

merkle_root-repeat_example :
    merkle_root sample (bytes (1 ∷ []) ∷ bytes (2 ∷ []) ∷ bytes (3 ∷ []) ∷ bytes (3 ∷ []) ∷ [])
    ≡ merkle_root sample (bytes (1 ∷ []) ∷ bytes (2 ∷ []) ∷ bytes (3 ∷ []) ∷ [])
merkle_root-repeat_example =
    merkle_root-repeat sample (bytes (1 ∷ []) ∷ bytes (2 ∷ []) ∷ []) (bytes (3 ∷ [])) refl
      (omega arith)

abbrev proof_of_second : MerkleProof
proof_of_second = record {
  siblings =
      hash_leaf sample (sample.utf8_to_bytes (codes "alpha"))
      ∷ hash_node sample (hash_leaf sample (sample.utf8_to_bytes (codes "gamma")))
          (hash_leaf sample (sample.utf8_to_bytes (codes "gamma")))
      ∷ [];
  index = 1;
}

verify_merkle_proof-binds_example :
    (◌≡◌ {A = List ℕ} (1 ∷ 2 ∷ []) (1 ∷ 2 ∷ []))
    ⊎ Collision sample
        (verify_inputs sample (bytes (1 ∷ 2 ∷ [])) proof_of_second)
        (root_inputs sample three)
unfolding verify_merkle_proof merkle_root rounds leaf_bytes text_eq
verify_merkle_proof-binds_example =
    verify_merkle_proof-binds sample sample-HashLaws three (bytes (1 ∷ 2 ∷ [])) (bytes (1 ∷ 2 ∷ []))
      proof_of_second refl refl refl
