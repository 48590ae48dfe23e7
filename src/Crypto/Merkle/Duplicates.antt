-- ===== src/Crypto/Merkle/Duplicates.antt =====
-- The last item of an odd level is its own sibling, so a repeated last leaf does not show in the
-- root.
use mathlib.Core.List.{map-append}
use dhf.Base.{
  ℕ, suc, ◌+◌, ◌%◌, ◌<◌, ◌≤◌, ◌≡◌, refl, ap, List, [], ◌∷◌, ◌++◌, arith, Bytes, length,
  length-append, length-map, ltb, ◌==◌, false, true, map,
}
use dhf.Crypto.Primitives.{Noble}
use dhf.Crypto.Merkle.{Leaf, first, leaf_bytes, hash_leaf, next_layer, climb, merkle_root}
use dhf.Crypto.Merkle.Levels.{length-next_layer, climb_fuel}

module _ (n : Noble) where
  next_layer-repeat :
      (l : List Bytes) (x : Bytes)
      → length l % 2 ≡ 0
      → next_layer n (l ++ x ∷ x ∷ []) ≡ next_layer n (l ++ x ∷ [])
  unfolding next_layer
  next_layer-repeat [] x even = refl
  next_layer-repeat (a ∷ []) x even = absurd (omega arith)
  next_layer-repeat (a ∷ b ∷ l) x even = rw (next_layer-repeat l x (omega arith))

  climb-suc :
      (fuel : ℕ) (l : List Bytes)
      → 1 < length l
      → climb n (suc fuel) l ≡ climb n fuel (next_layer n l)
  unfolding climb
  climb-suc fuel l h = let more : ltb 1 (length l) ≡ true = ground arith in rw more

  climb-repeat :
      (l : List Bytes) (x : Bytes) (f g : ℕ)
      → length l % 2 ≡ 0
      → 0 < length l
      → length l + 1 ≤ suc f
      → length l + 2 ≤ suc g
      → climb n (suc g) (l ++ x ∷ x ∷ []) ≡ climb n (suc f) (l ++ x ∷ [])
  climb-repeat l x f g even some p q =
      let one = length-append l (x ∷ []) in
      let two = length-append l (x ∷ x ∷ []) in
      let above = length-next_layer n (l ++ x ∷ []) in
      rw
        (
          climb-suc g (l ++ x ∷ x ∷ []) (omega arith),
          climb-suc f (l ++ x ∷ []) (omega arith),
          next_layer-repeat l x even,
        )
        (climb_fuel n g f (next_layer n (l ++ x ∷ [])) (omega arith) (omega arith) (omega arith))

  merkle_root_lem :
      (leaves : List Leaf)
      → 0 < length leaves
      → merkle_root n leaves
        ≡ n.bytes_to_hex
            (first (climb n (length leaves) (map (λ l. hash_leaf n (leaf_bytes n l)) leaves)))
  unfolding merkle_root
  merkle_root_lem leaves h = let e : (length leaves == 0) ≡ false = ground arith in rw e

  -- Appending a copy of the last leaf to an odd number of leaves, three or more, does not change
  -- `merkleRoot`.
  pub merkle_root-repeat :
      (leaves : List Leaf) (last : Leaf)
      → length leaves % 2 ≡ 0
      → 0 < length leaves
      → merkle_root n (leaves ++ last ∷ last ∷ []) ≡ merkle_root n (leaves ++ last ∷ [])
  merkle_root-repeat leaves last even some =
      let hash : Leaf → Bytes = λ l. hash_leaf n (leaf_bytes n l) in
      let one : length (leaves ++ last ∷ []) ≡ suc (length leaves) =
        omega (arith, length-append leaves (last ∷ [])) in
      let two : length (leaves ++ last ∷ last ∷ []) ≡ suc (suc (length leaves)) =
        omega (arith, length-append leaves (last ∷ last ∷ [])) in
      let size = length-map hash leaves in
      rw
        (
          merkle_root_lem (leaves ++ last ∷ []) (omega arith),
          merkle_root_lem (leaves ++ last ∷ last ∷ []) (omega arith),
          one,
          two,
          map-append hash leaves (last ∷ []),
          map-append hash leaves (last ∷ last ∷ []),
        )
        (ap (λ l. n.bytes_to_hex (first l))
          (climb-repeat (map hash leaves) (hash last) (length leaves) (suc (length leaves))
            (rw size even) (omega arith) (omega arith) (omega arith)))
