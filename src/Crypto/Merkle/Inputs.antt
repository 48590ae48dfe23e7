-- ===== src/Crypto/Merkle/Inputs.antt =====
-- What is hashed when a proof is verified and when a root is built, and collisions between the two.
use dhf.Base.{
  ℕ, zero, suc, ◌/◌, ◌%◌, ◌≡◌, ◌≢◌, ◌⊎◌, ap, sym, subst, ◌∙◌, refl, none, some, List, map, [], ◌∷◌,
  ◌++◌, arith, Bytes, In, Text, length, length-append, get_elem?, ltb, ◌==◌, Bool-cases, inl, inr,
  text_eq, text_eq_iff, if◌then◌else◌,
}
use dhf.Crypto.Primitives.{Noble}
use dhf.Crypto.Merkle.{
  Leaf, MerkleProof, sibling, leaf_bytes, hash_leaf, hash_node, leaf_layer, next_layer, parent,
}
use dhf.Crypto.Merkle.Levels.{sibling_deeper}

-- The item stands in front or behind.
pub In-append_left : (x : Bytes) (xs ys : List Bytes) → In x xs → In x (xs ++ ys)
In-append_left x [] ys h = elim h [ ]
In-append_left x (y ∷ xs) ys (inl e) = inl e
In-append_left x (y ∷ xs) ys (inr h) = inr (In-append_left x xs ys h)

pub In-append_right : (x : Bytes) (xs ys : List Bytes) → In x ys → In x (xs ++ ys)
In-append_right x [] ys h = h
In-append_right x (y ∷ xs) ys h = inr (In-append_right x xs ys h)

pub get_elem?-In : (l : List Bytes) (i : ℕ) {x : Bytes} → get_elem? l i ≡ some x → In x l
get_elem?-In [] i e = cc
get_elem?-In (y ∷ l) zero e = inl (cc)
get_elem?-In (y ∷ l) (suc i) e = inr (get_elem?-In l i e)

-- what is hashed for the parent of item `i`
abbrev pub parent_input : ℕ → Bytes → Bytes → Bytes
parent_input i h sib = if i % 2 == 0 then 1 ∷ h ++ sib else 1 ∷ sib ++ h

-- what is hashed for the layer above
abbrev pub layer_inputs : List Bytes → List Bytes
layer_inputs [] = []
layer_inputs (a ∷ []) = (1 ∷ a ++ a) ∷ []
layer_inputs (a ∷ b ∷ rest) = (1 ∷ a ++ b) ∷ layer_inputs rest

parent_input_deeper : (i : ℕ) (x t : Bytes) → parent_input (suc (suc i)) x t ≡ parent_input i x t
parent_input_deeper i x t = ground arith

pub layer_inputs-In :
    (l : List Bytes) (i : ℕ) (x t : Bytes)
    → get_elem? l i ≡ some x
    → sibling l i ≡ some t
    → In (parent_input i x t) (layer_inputs l)
unfolding sibling
layer_inputs-In [] i x t e f = cc
layer_inputs-In (a ∷ []) zero x t e f = inl (ground arith)
layer_inputs-In (a ∷ []) (suc i) x t e f = cc
layer_inputs-In (a ∷ b ∷ rest) zero x t e f = inl (ground arith)
layer_inputs-In (a ∷ b ∷ rest) (suc zero) x t e f = inl (ground arith)
layer_inputs-In (a ∷ b ∷ rest) (suc (suc i)) x t e f = inr (
    subst (λ y. In y (layer_inputs rest)) (sym (parent_input_deeper i x t))
      (layer_inputs-In rest i x t e (sym (sibling_deeper a b rest i) ∙ f)))

-- Two inputs of SHA-256 with one digest, one from each list.
pub record Collision (n : Noble) (ours theirs : List Bytes) : Type 0 where
  pub left : Bytes
  pub right : Bytes
  pub left-In : In left ours
  pub right-In : In right theirs
  pub differ : left ≢ right
  pub agree : n.sha256 left ≡ n.sha256 right

-- Concatenations agree only part by part, where the first parts are equally long.
pub append_inj : (a b c d : Bytes) → length a ≡ length b → a ++ c ≡ b ++ d → (a ≡ b) × (c ≡ d)
append_inj [] [] c d h e = (refl, e)
append_inj [] (y ∷ b) c d h e = absurd (omega arith)
append_inj (x ∷ a) [] c d h e = absurd (omega arith)
append_inj (x ∷ a) (y ∷ b) c d h e = let (p, q) = append_inj a b c d (omega arith) (cc) in (cc, q)

pub append_inj_right : (a b c d : Bytes) → length c ≡ length d → a ++ c ≡ b ++ d → c ≡ d
append_inj_right a b c d h e =
    (append_inj a b c d (omega (arith, length-append a c, length-append b d, ap length e)) e).1

module _ (n : Noble) where
  -- The inputs that are hashed when the siblings of a proof are folded.
  abbrev pub proof_inputs : List Text → ℕ → Bytes → List Bytes
  proof_inputs [] i h = []
  proof_inputs (sib_hex ∷ rest) i h = elim (n.hex_to_bytes sib_hex) [
    | none ↦ []
    | some sib ↦ parent_input i h sib ∷ proof_inputs rest (i / 2) (parent n i h sib)
  ]

  -- The inputs that are hashed for the layers above a layer.
  unfoldable pub tree_inputs : ℕ → List Bytes → List Bytes
  tree_inputs zero l = []
  tree_inputs (suc fuel) l =
      let rest = tree_inputs fuel (next_layer n l) in
      if ltb 1 (length l) then layer_inputs l ++ rest else []

  -- All inputs that are hashed when a proof is verified, and when a root is built.
  abbrev pub verify_inputs : Leaf → MerkleProof → List Bytes
  verify_inputs leaf proof =
      (0 ∷ leaf_bytes n leaf)
      ∷ proof_inputs proof.siblings proof.index (hash_leaf n (leaf_bytes n leaf))

  abbrev pub root_inputs : List Leaf → List Bytes
  root_inputs leaves =
      map (λ l. 0 ∷ leaf_bytes n l) leaves ++ tree_inputs (length leaves) (leaf_layer n leaves)

  -- Equal digests come from equal inputs, or are a collision.
  pub digest_inj :
      (ours theirs : List Bytes) (x y : Bytes)
      → In x ours
      → In y theirs
      → n.sha256 x ≡ n.sha256 y
      → (x ≡ y) ⊎ Collision n ours theirs
  digest_inj ours theirs x y ix iy e = elim (Bool-cases (text_eq x y)) [
    | inl same ↦ inl ((text_eq_iff x y).0 same)
    | inr other ↦ inr (record {
      left = x;
      right = y;
      left-In = ix;
      right-In = iy;
      differ = λ p. cc ((text_eq_iff x y).1 p);
      agree = e;
    })
  ]

  pub parent_digest : (i : ℕ) (h s : Bytes) → parent n i h s ≡ n.sha256 (parent_input i h s)
  unfolding parent hash_node
  parent_digest i h s = elim (Bool-cases (i % 2 == 0)) [
    | inl even ↦ rw even refl
    | inr odd ↦ rw odd refl
  ]

  pub parent_input_inj :
      (i : ℕ) (h s x t : Bytes)
      → length h ≡ length x
      → parent_input i h s ≡ parent_input i x t
      → h ≡ x
  parent_input_inj i h s x t same e = elim (Bool-cases (i % 2 == 0)) [
    | inl even ↦ let p : 1 ∷ h ++ s ≡ 1 ∷ x ++ t = rw even at e in (append_inj h x s t same (cc)).0
    | inr odd ↦ let p : 1 ∷ s ++ h ≡ 1 ∷ t ++ x = rw odd at e in append_inj_right s t h x same (cc)
  ]

  -- A collision further up, in what is hashed from here on.
  pub further :
      (ours here theirs : List Bytes) (x : Bytes)
      → Collision n ours theirs
      → Collision n (x ∷ ours) (here ++ theirs)
  further ours here theirs x c = record {
    left = c.left;
    right = c.right;
    left-In = inr c.left-In;
    right-In = In-append_right c.right here theirs c.right-In;
    differ = c.differ;
    agree = c.agree;
  }
