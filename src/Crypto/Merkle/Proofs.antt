-- ===== src/Crypto/Merkle/Proofs.antt =====
-- The proof that `merkleProof` builds is accepted by `verifyMerkleProof` against `merkleRoot`.
use dhf.Base.{
  ℕ, zero, suc, ◌+◌, ◌/◌, ◌≤◌, ◌≡◌, refl, ap, ◌∙◌, some, List, [], ◌∷◌, arith, Bytes, IsBytes, Text,
  All, length, length-map, get_elem?, get_elem?-map, get_elem?-lt, ltb, leb, ◌==◌, true, false,
  Bool-cases, inl, inr, text_eq_refl, if◌then◌else◌,
}
use dhf.Crypto.Primitives.{Noble, HashLaws}
use dhf.Crypto.Merkle.{
  Leaf, MerkleProof, first, leaf_bytes, hash_leaf, hash_node, leaf_layer, next_layer, climb,
  merkle_root, proof_siblings, merkle_proof, parent, fold_proof, verify_merkle_proof,
}
use dhf.Crypto.Merkle.Levels.{length-next_layer, sibling-parent}

-- The number of rounds of the loops over a layer of `k` items.
unfoldable pub rounds : ℕ → ℕ → ℕ
rounds zero k = 0
rounds (suc fuel) k = let rest = rounds fuel ((k + 1) / 2) in if ltb 1 k then suc rest else 0

pub get_elem?-single :
    (l : List Bytes) (i : ℕ) {h : Bytes} → length l ≤ 1 → get_elem? l i ≡ some h → h ≡ first l
get_elem?-single [] i p e = cc
get_elem?-single (x ∷ []) zero p e = cc
get_elem?-single (x ∷ []) (suc i) p e = cc
get_elem?-single (x ∷ y ∷ l) i p e = absurd (omega arith)

module _ (n : Noble) (laws : HashLaws n) where
  pub next_layer-IsBytes : (l : List Bytes) → All IsBytes (next_layer n l)
  unfolding next_layer hash_node
  next_layer-IsBytes [] = tt
  next_layer-IsBytes (a ∷ []) = (laws.digest-IsBytes _, tt)
  next_layer-IsBytes (a ∷ b ∷ rest) = (laws.digest-IsBytes _, next_layer-IsBytes rest)

  pub leaf_layer-IsBytes : (leaves : List Leaf) → All IsBytes (leaf_layer n leaves)
  unfolding leaf_layer hash_leaf
  leaf_layer-IsBytes [] = tt
  leaf_layer-IsBytes (l ∷ rest) = (laws.digest-IsBytes _, leaf_layer-IsBytes rest)

  -- Folding the siblings of item `i` leads to the single item of the last level.
  siblings_complete :
      (fuel : ℕ) (l : List Bytes) (i : ℕ) (h : Bytes)
      → All IsBytes l
      → get_elem? l i ≡ some h
      → length l ≤ suc fuel
      → (sibs : List Text) × (proof_siblings n fuel l i ≡ some sibs)
        × (fold_proof n sibs i h ≡ some (first (climb n fuel l)))
        × (length sibs ≡ rounds fuel (length l))
  unfolding proof_siblings fold_proof climb rounds
  siblings_complete zero l i h v e p = ([], refl, rw (get_elem?-single l i p e), refl)
  siblings_complete (suc fuel) l i h v e p = elim (Bool-cases (ltb 1 (length l))) [
    | inl more ↦
        let (s, found, is_bytes, above) = sibling-parent n l i h v e in
        let (sibs, built, folded, count) =
          siblings_complete fuel (next_layer n l) (i / 2) (parent n i h s) (next_layer-IsBytes l)
            above (ground (arith, length-next_layer n l)) in
        let decoded = laws.hex_to_bytes-bytes_to_hex s is_bytes in
        (
          n.bytes_to_hex s ∷ sibs,
          rw (more, found, built),
          rw (decoded, more) folded,
          rw (more, count, length-next_layer n l),
        )
    | inr done ↦ ([], rw done, rw done (ap some (get_elem?-single l i (ground arith) e)), rw done)
  ]

  -- For every leaf of a tree, `merkleProof` returns a proof, with one sibling for each level, and
  -- `verifyMerkleProof` accepts it for that leaf against the tree's `merkleRoot`.
  pub verify-merkle_proof :
      (leaves : List Leaf) (index : ℕ) (leaf : Leaf)
      → get_elem? leaves index ≡ some leaf
      → (proof : MerkleProof) × (merkle_proof n leaves index ≡ some proof)
        × (verify_merkle_proof n leaf proof (merkle_root n leaves) ≡ some true)
        × (length proof.siblings ≡ rounds (length leaves) (length leaves))
  unfolding merkle_proof verify_merkle_proof merkle_root
  verify-merkle_proof leaves index leaf e =
      let above : get_elem? (leaf_layer n leaves) index ≡ some (hash_leaf n (leaf_bytes n leaf)) =
        get_elem?-map (λ l. hash_leaf n (leaf_bytes n l)) leaves index e in
      let size : length (leaf_layer n leaves) ≡ length leaves =
        length-map (λ l. hash_leaf n (leaf_bytes n l)) leaves in
      let (sibs, built, folded, count) =
        siblings_complete (length leaves) (leaf_layer n leaves) index
          (hash_leaf n (leaf_bytes n leaf)) (leaf_layer-IsBytes leaves) above (omega arith) in
      let inside = get_elem?-lt leaves index e in
      let in_range : leb (length leaves) index ≡ false = ground arith in
      let not_empty : (length leaves == 0) ≡ false = ground arith in
      (
        record { siblings = sibs; index = index },
        rw (in_range, built),
        rw (folded, not_empty) (ap some (text_eq_refl _)),
        count ∙ ap (rounds (length leaves)) size,
      )
