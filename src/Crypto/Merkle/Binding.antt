-- ===== src/Crypto/Merkle/Binding.antt =====
-- A root binds the leaf at each position: whoever has an accepted proof for another leaf has a
-- collision of the hash.
use dhf.Base.{
  ℕ, zero, suc, ◌/◌, ◌%◌, ◌≤◌, ◌≡◌, ◌⊎◌, ap, sym, some_inj, ◌∙◌, refl, some, List, map, [], ◌∷◌,
  ◌++◌, arith, Bytes, IsBytes, Text, All, length, length-map, get_elem?, get_elem?-map,
  get_elem?-lt, subst, ltb, ◌==◌, true, false, Bool-cases, Option-cases, inl, inr, text_eq_iff,
}
use dhf.Crypto.Primitives.{Noble, HashLaws}
use dhf.Crypto.Merkle.{
  Leaf, MerkleProof, sibling, first, leaf_bytes, hash_leaf, hash_node, leaf_layer, next_layer,
  climb, merkle_root, parent, fold_proof, verify_merkle_proof,
}
use dhf.Crypto.Merkle.Levels.{length-next_layer, sibling-parent}
use dhf.Crypto.Merkle.Inputs.{
  In-append_left, get_elem?-In, append_inj, parent_input, layer_inputs, layer_inputs-In, Collision,
  proof_inputs, tree_inputs, verify_inputs, root_inputs, digest_inj, parent_digest,
  parent_input_inj, further,
}
use dhf.Crypto.Merkle.Proofs.{rounds, get_elem?-single, next_layer-IsBytes, leaf_layer-IsBytes}

module _ (n : Noble) (laws : HashLaws n) where
  length-parent : (i : ℕ) (h s : Bytes) → length (parent n i h s) ≡ 32
  unfolding parent hash_node
  length-parent i h s =
      ground (arith, laws.length-digest (1 ∷ h ++ s), laws.length-digest (1 ∷ s ++ h))

  -- One level: what is bound above is bound here.
  level_binds :
      (fuel : ℕ) (l : List Bytes) (i : ℕ) (x h sib t : Bytes) (sibs : List Text)
      → length h ≡ length x
      → get_elem? l i ≡ some x
      → sibling l i ≡ some t
      → (parent n i h sib ≡ parent n i x t)
        ⊎ Collision n
            (proof_inputs n sibs (i / 2) (parent n i h sib))
            (tree_inputs n fuel (next_layer n l))
      → (h ≡ x)
        ⊎ Collision n
            (parent_input i h sib ∷ proof_inputs n sibs (i / 2) (parent n i h sib))
            (layer_inputs l ++ tree_inputs n fuel (next_layer n l))
  level_binds fuel l i x h sib t sibs same e found (inr c) =
      inr (further n _ (layer_inputs l) _ (parent_input i h sib) c)
  level_binds fuel l i x h sib t sibs same e found (inl q) =
      elim (digest_inj n (parent_input i h sib ∷ proof_inputs n sibs (i / 2) (parent n i h sib))
        (layer_inputs l ++ tree_inputs n fuel (next_layer n l)) (parent_input i h sib)
        (parent_input i x t) (inl refl)
        (In-append_left (parent_input i x t) (layer_inputs l) _ (layer_inputs-In l i x t e found))
        (sym (parent_digest n i h sib) ∙ q ∙ parent_digest n i x t)) [
          | inl p ↦ inl (parent_input_inj n i h sib x t same p)
          | inr c ↦ inr c
        ]

  fold_proof_binds :
      (fuel : ℕ) (l : List Bytes) (i : ℕ) (x h : Bytes) (sibs : List Text)
      → All IsBytes l
      → get_elem? l i ≡ some x
      → length x ≡ 32
      → length h ≡ 32
      → length l ≤ suc fuel
      → length sibs ≡ rounds fuel (length l)
      → fold_proof n sibs i h ≡ some (first (climb n fuel l))
      → (h ≡ x) ⊎ Collision n (proof_inputs n sibs i h) (tree_inputs n fuel l)
  unfolding fold_proof climb rounds tree_inputs
  fold_proof_binds zero l i x h [] v e lx lh p count folded = inl (cc (get_elem?-single l i p e))
  fold_proof_binds zero l i x h (s ∷ sibs) v e lx lh p count folded = absurd (omega arith)
  fold_proof_binds (suc fuel) l i x h [] v e lx lh p count folded =
      elim (Bool-cases (ltb 1 (length l))) [
        | inl more ↦ absurd (omega (arith, rw more at count))
        | inr done ↦ inl (cc (get_elem?-single l i (ground arith) e, rw done at folded))
      ]
  fold_proof_binds (suc fuel) l i x h (s ∷ sibs) v e lx lh p count folded =
      elim (Bool-cases (ltb 1 (length l))) [
        | inl more ↦ elim (Option-cases (n.hex_to_bytes s)) [
          | inl bad ↦ cc (rw bad at folded)
          | inr (sib, good) ↦
              let (t, found, is_bytes, above) = sibling-parent n l i x v e in
              let up =
                fold_proof_binds fuel (next_layer n l) (i / 2) (parent n i x t) (parent n i h sib)
                  sibs (next_layer-IsBytes n laws l) above (length-parent i x t)
                  (length-parent i h sib) (ground (arith, length-next_layer n l))
                  (ground (arith, rw more at count, length-next_layer n l))
                  (rw (good, more) at folded) in
              rw (proof_inputs, good, more)
                (level_binds fuel l i x h sib t sibs (lh ∙ sym lx) e found up)
        ]
        | inr done ↦ absurd (omega (arith, rw done at count))
      ]

  hash_leaf-IsBytes : (b : Bytes) → IsBytes (hash_leaf n b)
  unfolding hash_leaf
  hash_leaf-IsBytes b = laws.digest-IsBytes _

  length-hash_leaf : (b : Bytes) → length (hash_leaf n b) ≡ 32
  unfolding hash_leaf
  length-hash_leaf b = laws.length-digest _

  hex_inj : (a b : Bytes) → IsBytes a → IsBytes b → n.bytes_to_hex a ≡ n.bytes_to_hex b → a ≡ b
  hex_inj a b va vb e =
      cc (laws.hex_to_bytes-bytes_to_hex a va, laws.hex_to_bytes-bytes_to_hex b vb)

  parent-IsBytes : (i : ℕ) (h s : Bytes) → IsBytes (parent n i h s)
  unfolding parent hash_node
  parent-IsBytes i h s = elim (Bool-cases (i % 2 == 0)) [
    | inl even ↦ rw even (laws.digest-IsBytes _)
    | inr odd ↦ rw odd (laws.digest-IsBytes _)
  ]

  fold_proof-IsBytes :
      (sibs : List Text) (i : ℕ) (h : Bytes) {top : Bytes}
      → IsBytes h
      → fold_proof n sibs i h ≡ some top
      → IsBytes top
  unfolding fold_proof
  fold_proof-IsBytes [] i h v e = subst IsBytes (some_inj e) v
  fold_proof-IsBytes (s ∷ sibs) i h v e = elim (Option-cases (n.hex_to_bytes s)) [
    | inl bad ↦ cc (rw bad at e)
    | inr (sib, good) ↦
        fold_proof-IsBytes sibs (i / 2) (parent n i h sib) (parent-IsBytes i h sib) (rw good at e)
  ]

  first-IsBytes : (l : List Bytes) → All IsBytes l → IsBytes (first l)
  first-IsBytes [] v = tt
  first-IsBytes (x ∷ l) v = v.0

  first-climb-IsBytes :
      (fuel : ℕ) (l : List Bytes) → All IsBytes l → IsBytes (first (climb n fuel l))
  unfolding climb
  first-climb-IsBytes zero l v = first-IsBytes l v
  first-climb-IsBytes (suc fuel) l v = elim (Bool-cases (ltb 1 (length l))) [
    | inl more ↦ rw more (first-climb-IsBytes fuel (next_layer n l) (next_layer-IsBytes n laws l))
    | inr done ↦ rw done (first-IsBytes l v)
  ]

  -- What the leaf's digest says of the leaf.
  leaf_binds :
      (leaves : List Leaf) (leaf there : Leaf) (proof : MerkleProof)
      → get_elem? leaves proof.index ≡ some there
      → (hash_leaf n (leaf_bytes n leaf) ≡ hash_leaf n (leaf_bytes n there))
        ⊎ Collision n
            (proof_inputs n proof.siblings proof.index (hash_leaf n (leaf_bytes n leaf)))
            (tree_inputs n (length leaves) (leaf_layer n leaves))
      → (leaf_bytes n leaf ≡ leaf_bytes n there)
        ⊎ Collision n (verify_inputs n leaf proof) (root_inputs n leaves)
  unfolding hash_leaf
  leaf_binds leaves leaf there proof e (inr c) =
      inr (further n _ (map (λ l. 0 ∷ leaf_bytes n l) leaves) _ (0 ∷ leaf_bytes n leaf) c)
  leaf_binds leaves leaf there proof e (inl q) =
      elim (digest_inj n (verify_inputs n leaf proof) (root_inputs n leaves) (0 ∷ leaf_bytes n leaf)
        (0 ∷ leaf_bytes n there) (inl refl)
        (In-append_left _ (map (λ l. 0 ∷ leaf_bytes n l) leaves) _ (
          get_elem?-In _ proof.index
            (get_elem?-map (λ l. 0 ∷ leaf_bytes n l) leaves proof.index e)))
        q) [ inl p ↦ inl (append_inj (0 ∷ []) (0 ∷ []) _ _ refl p).1 | inr c ↦ inr c ]

  -- If `verifyMerkleProof` accepts a leaf at a position of a tree, against the root of the tree and
  -- with one sibling for each level, then the leaf's bytes are those of the tree's leaf at that
  -- position, or one of the inputs that were hashed to verify the proof, and another one that is hashed
  -- to build the tree's root, have one digest.
  pub verify_merkle_proof-binds :
      (leaves : List Leaf) (leaf there : Leaf) (proof : MerkleProof)
      → get_elem? leaves proof.index ≡ some there
      → length proof.siblings ≡ rounds (length leaves) (length leaves)
      → verify_merkle_proof n leaf proof (merkle_root n leaves) ≡ some true
      → (leaf_bytes n leaf ≡ leaf_bytes n there)
        ⊎ Collision n (verify_inputs n leaf proof) (root_inputs n leaves)
  unfolding verify_merkle_proof merkle_root
  verify_merkle_proof-binds leaves leaf there proof e count accepted =
      let below = hash_leaf n (leaf_bytes n leaf) in
      let layer = leaf_layer n leaves in
      let size : length layer ≡ length leaves =
        length-map (λ l. hash_leaf n (leaf_bytes n l)) leaves in
      let above : get_elem? layer proof.index ≡ some (hash_leaf n (leaf_bytes n there)) =
        get_elem?-map (λ l. hash_leaf n (leaf_bytes n l)) leaves proof.index e in
      let not_empty : (length leaves == 0) ≡ false =
        ground (arith, get_elem?-lt leaves proof.index e) in
      elim (Option-cases (fold_proof n proof.siblings proof.index below)) [
        | inl bad ↦ cc (rw bad at accepted)
        | inr (top, folded) ↦
            let same_hex = (text_eq_iff _ _).0 (some_inj (rw (folded, not_empty) at accepted)) in
            let same : top ≡ first (climb n (length leaves) layer) =
              hex_inj _ _
                (fold_proof-IsBytes proof.siblings proof.index below (hash_leaf-IsBytes _) folded)
                (first-climb-IsBytes (length leaves) layer (leaf_layer-IsBytes n laws leaves))
                same_hex in
            leaf_binds leaves leaf there proof e (
              fold_proof_binds (length leaves) layer proof.index _ below proof.siblings
                (leaf_layer-IsBytes n laws leaves) above (length-hash_leaf _) (length-hash_leaf _)
                (omega arith) (count ∙ ap (rounds (length leaves)) (sym size))
                (folded ∙ ap some same))
      ]
