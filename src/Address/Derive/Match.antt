-- ===== src/Address/Derive/Match.antt =====
-- Queries by a partial description find the addresses of the descriptions that it begins.
use dhf.Base.{
  ℕ, zero, suc, ◌+◌, ◌%◌, ◌≤◌, ◌≡◌, refl, ◌∙◌, ◌⊎◌, some, true, false, inl, inr, List, [], ◌∷◌,
  ◌++◌, map, append_assoc, Bytes, length, take, get_elem?, is_empty, ltb, ◌==◌, Bool-cases, arith,
}
use dhf.Crypto.Primitives.{Noble, HashLaws}
use dhf.Crypto.Merkle.{Leaf, leaf_bytes}
use dhf.Address.{SemanticAddress, PartialAddress, depth, matches_bytes, starts_with}
use dhf.Address.Grammar.{Facet, SemanticGrammar, facet_order, facet_values, parts, normalize}
use dhf.Address.Derive.{
  concat, facet_hash, derive, leading, segment_bytes, derive_partial, prefix_match,
}
use dhf.Address.Derive.Layout.{segment_of, highest, derive_layout, length-concat, segments_sized}

-- Every facet of the first description is missing or empty, or has the values that it has in the
-- second.
abbrev pub Begins : SemanticGrammar → SemanticGrammar → Type 0
Begins query g =
    (f : Facet)
    → (is_empty (facet_values query f) ≡ true) ⊎ (facet_values query f ≡ facet_values g f)

matches_bytes-append : (p q b : Bytes) → matches_bytes (p ++ q) (p ++ b) ≡ matches_bytes q b
unfolding matches_bytes
matches_bytes-append [] q b = refl
matches_bytes-append (x ∷ p) q b =
    let e : (x == x) ≡ true = ground arith in rw e (matches_bytes-append p q b)

module _ (n : Noble) where
  leading_matches :
      (query g : SemanticGrammar) (fs : List Facet) (rest : Bytes)
      → Begins query g
      → matches_bytes
          (concat (segment_bytes n (leading n query fs)))
          (concat (map (segment_of n g) fs) ++ rest)
        ≡ true
  unfolding leading concat
  leading_matches query g [] rest begins = unfold matches_bytes in refl
  leading_matches query g (f ∷ fs) rest begins =
      elim (Bool-cases (is_empty (facet_values query f))) [
        | inl gap ↦ rw gap (unfold matches_bytes in refl)
        | inr filled ↦ elim (begins f) [
          | inl gap ↦ cc
          | inr same ↦
              let there : segment_of n g f ≡ facet_hash n f (facet_values query f) =
                unfold segment_of in rw (← same, filled) refl in
              rw (filled, there, append_assoc)
                (matches_bytes-append (facet_hash n f (facet_values query f)) _ _
                  ∙ leading_matches query g fs rest begins)
        ]
      ]

  length-leading-le :
      (g : SemanticGrammar) (fs : List Facet) → length (leading n g fs) ≤ length (parts g fs)
  unfolding leading parts
  length-leading-le g [] = omega arith
  length-leading-le g (f ∷ fs) = ground (arith, length-leading-le g fs)

  highest_bounds :
      (g : SemanticGrammar) (i : ℕ) (fs : List Facet) (d : ℕ)
      → d ≤ i
      → (d + length (parts g fs) ≤ highest n g i fs d) × (highest n g i fs d ≤ i + length fs)
  unfolding parts highest
  highest_bounds g i [] d h = (omega arith, omega arith)
  highest_bounds g i (f ∷ fs) d h =
      ground (arith, highest_bounds g (i + 1) fs d, highest_bounds g (i + 1) fs (i + 1))

matches_bytes-length : (p b : Bytes) → matches_bytes p b ≡ true → length p ≤ length b
unfolding matches_bytes
matches_bytes-length [] b h = omega arith
matches_bytes-length (x ∷ p) [] h = cc
matches_bytes-length (x ∷ p) (y ∷ b) h = ground (arith, matches_bytes-length p b)

prefix_match_of :
    (a : SemanticAddress) (q : PartialAddress)
    → matches_bytes q.bytes a.bytes ≡ true
    → prefix_match a q ≡ true
unfolding prefix_match
prefix_match_of a q m = elim (Bool-cases (q.depth == 0)) [ inl e ↦ rw e | inr e ↦ rw e m ]

starts_with_of :
    (a : SemanticAddress) (q : PartialAddress)
    → matches_bytes q.bytes a.bytes ≡ true
    → starts_with a q ≡ true
unfolding starts_with
starts_with_of a q m =
    let fits = matches_bytes-length q.bytes a.bytes m in
    let e : ltb (length a.bytes) (length q.bytes) ≡ false = ground arith in rw e m

get_elem?-append :
    (xs ys : Bytes) (k : ℕ) (y : ℕ) → length xs ≡ k → get_elem? (xs ++ y ∷ ys) k ≡ some y
get_elem?-append [] ys zero y h = refl
get_elem?-append [] ys (suc k) y h = absurd (omega arith)
get_elem?-append (x ∷ xs) ys zero y h = absurd (omega arith)
get_elem?-append (x ∷ xs) ys (suc k) y h = get_elem?-append xs ys k y (omega arith)

module _ (n : Noble) (laws : HashLaws n) where
  -- The address that `derive` gives to a description, with any content, matches the query of
  -- every description that begins it, by `prefixMatch` and by `startsWith`.
  pub derive-prefix_match :
      (query g : SemanticGrammar) (content : Leaf)
      → Begins query g
      → (a : SemanticAddress) × (derive n g content ≡ some a)
        × (prefix_match a (derive_partial n query) ≡ true)
        × (starts_with a (derive_partial n query) ≡ true)
  unfolding derive_partial
  derive-prefix_match query g content begins =
      let d = highest n g 0 facet_order 0 % 16 in
      let rest : Bytes = d ∷ take 11 (n.sha256 (leaf_bytes n content)) in
      let a : SemanticAddress = record {
        bytes = concat (map (segment_of n g) facet_order) ++ rest;
      } in
      let m : matches_bytes (derive_partial n query).bytes a.bytes ≡ true =
        leading_matches n query g facet_order rest begins in
      (
        a,
        derive_layout n laws g content,
        prefix_match_of a (derive_partial n query) m,
        starts_with_of a (derive_partial n query) m,
      )

  -- The depth that a derived address carries is at most five; the number of facets that have values,
  -- which `normalize` returns, is at most that depth; and the depth of the query by the same
  -- description is at most that number.
  derive-depth :
      (g : SemanticGrammar) (content : Leaf)
      → (a : SemanticAddress) × (derive n g content ≡ some a)
        × ((derive_partial n g).depth ≤ (normalize g).1)
        × ((normalize g).1 ≤ depth a)
        × (depth a ≤ 5)
  unfolding derive_partial normalize depth
  derive-depth g content =
      let (low, high) = highest_bounds n g 0 facet_order 0 (omega arith) in
      let c = concat (map (segment_of n g) facet_order) in
      let twenty : length c ≡ 20 =
        length-concat n laws (map (segment_of n g) facet_order)
          (segments_sized n laws g facet_order) in
      let at20 =
        get_elem?-append c (take 11 (n.sha256 (leaf_bytes n content))) 20
          (highest n g 0 facet_order 0 % 16) twenty in
      (
        _,
        derive_layout n laws g content,
        length-leading-le n g facet_order,
        rw at20 (omega arith),
        rw at20 (omega arith),
      )
