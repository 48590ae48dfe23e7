-- ===== src/Crypto/Merkle/Levels.antt =====
-- One level of the tree, and the loop over the levels.
use dhf.Base.{
  ℕ, zero, suc, ◌+◌, ◌-◌, ◌/◌, ◌%◌, ◌≤◌, ◌<◌, ◌≡◌, refl, ◌∙◌, some, List, [], ◌∷◌, arith, Bytes,
  IsBytes, All, length, get_elem?, ltb, Bool-cases, inl, inr,
}
use dhf.Crypto.Primitives.{Noble}
use dhf.Crypto.Merkle.{sibling, next_layer, climb, parent}

pub sibling_deeper :
    (a b : Bytes) (rest : List Bytes) (i : ℕ)
    → sibling (a ∷ b ∷ rest) (suc (suc i)) ≡ sibling rest i
unfolding sibling
sibling_deeper a b rest zero = refl
sibling_deeper a b rest (suc i) =
    let up : suc (suc (suc i)) + 1 ≡ suc (suc (suc i + 1)) = omega arith in
    let down : suc (suc (suc i)) - 1 ≡ suc (suc (suc i - 1)) = omega arith in
    let parity : suc (suc (suc i)) % 2 ≡ suc i % 2 = omega arith in rw (up, down, parity)

module _ (n : Noble) where
  -- A level above a level of `k` items has half as many, rounded up.
  pub length-next_layer : (l : List Bytes) → length (next_layer n l) ≡ (length l + 1) / 2
  unfolding next_layer
  length-next_layer [] = omega arith
  length-next_layer (a ∷ []) = omega arith
  length-next_layer (a ∷ b ∷ rest) = omega (arith, length-next_layer rest)

  -- The loop ends with one item.
  pub length-climb :
      (fuel : ℕ) (l : List Bytes) → 0 < length l → length l ≤ suc fuel → length (climb n fuel l) ≡ 1
  unfolding climb
  length-climb zero l p h = omega arith
  length-climb (suc fuel) l p h = elim (Bool-cases (ltb 1 (length l))) [
    | inl more ↦ rw more (
        length-climb fuel (next_layer n l) (ground (arith, length-next_layer l))
          (ground (arith, length-next_layer l)))
    | inr done ↦ rw done (ground arith)
  ]

  -- Any fuel that suffices gives the same last level.
  pub climb_fuel :
      (f g : ℕ) (l : List Bytes)
      → 0 < length l
      → length l ≤ suc f
      → length l ≤ suc g
      → climb n f l ≡ climb n g l
  unfolding climb
  climb_fuel zero zero l p h k = refl
  climb_fuel zero (suc g) l p h k = ground arith
  climb_fuel (suc f) zero l p h k = ground arith
  climb_fuel (suc f) (suc g) l p h k = elim (Bool-cases (ltb 1 (length l))) [
    | inl more ↦ rw more (
        climb_fuel f g (next_layer n l) (ground (arith, length-next_layer l))
          (ground (arith, length-next_layer l)) (ground (arith, length-next_layer l)))
    | inr done ↦ rw done
  ]

  -- The item above item `i` is the hash of it and its sibling.
  pub sibling-parent :
      (l : List Bytes) (i : ℕ) (h : Bytes)
      → All IsBytes l
      → get_elem? l i ≡ some h
      → (s : Bytes) × (sibling l i ≡ some s)
        × IsBytes s
        × (get_elem? (next_layer n l) (i / 2) ≡ some (parent n i h s))
  unfolding sibling next_layer parent
  sibling-parent [] i h v e = cc
  sibling-parent (a ∷ []) zero h v e = (a, ground arith, v.0, ground arith)
  sibling-parent (a ∷ []) (suc i) h v e = cc
  sibling-parent (a ∷ b ∷ rest) zero h v e = (b, ground arith, v.1.0, ground arith)
  sibling-parent (a ∷ b ∷ rest) (suc zero) h v e = (a, ground arith, v.0, ground arith)
  sibling-parent (a ∷ b ∷ rest) (suc (suc i)) h v e =
      let (s, p, q, r) = sibling-parent rest i h v.1.1 e in
      let half : suc (suc i) / 2 ≡ suc (i / 2) = omega arith in
      let parity : suc (suc i) % 2 ≡ i % 2 = omega arith in
      (s, sibling_deeper a b rest i ∙ p, q, rw (half, parity) r)
