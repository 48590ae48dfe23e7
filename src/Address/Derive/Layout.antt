-- ===== src/Address/Derive/Layout.antt =====
-- The bytes of a derived address: a segment of four for each facet, the depth, the fingerprint.
use native.Mathlib.Nat.{zero-add}
use dhf.Base.{
  ℕ, zero, suc, ◌+◌, ◌-◌, ◌*◌, ◌%◌, ◌≤◌, ◌≡◌, refl, ap, ap₂, sym, ◌∙◌, some, true, false, inl, inr,
  List, [], ◌∷◌, ◌++◌, map, append_assoc, append-nil, Bytes, length, length-append, length-take,
  take, drop, replicate, is_empty, ◌==◌, Bool-cases, if◌then◌else◌, arith, All,
}
use dhf.Crypto.Primitives.{Noble, HashLaws}
use dhf.Crypto.Merkle.{Leaf, leaf_bytes}
use dhf.Address.{new_address}
use dhf.Address.Grammar.{Facet, SemanticGrammar, facet_order, facet_string, facet_values}
use dhf.Address.Derive.{set_at, concat, facet_hash, fill_step, fill, derive}

module _ {ℓ} {A : Type ℓ} where
  take-append : (xs ys : List A) → take (length xs) (xs ++ ys) ≡ xs
  take-append [] ys = refl
  take-append (x ∷ xs) ys = ap (◌∷◌ x) (take-append xs ys)

  drop-append : (xs ys : List A) (k : ℕ) → drop (length xs + k) (xs ++ ys) ≡ drop k ys
  drop-append [] ys k = rw (zero-add k)
  drop-append (x ∷ xs) ys k =
      let e : suc (length xs) + k ≡ suc (length xs + k) = omega arith in rw e (drop-append xs ys k)

  drop-replicate : (k m : ℕ) (x : A) → drop k (replicate m x) ≡ replicate (m - k) x
  drop-replicate zero m x = let e : m - 0 ≡ m = omega arith in rw e
  drop-replicate (suc k) zero x = let e : 0 - suc k ≡ 0 = omega arith in rw e
  drop-replicate (suc k) (suc m) x =
      let e : suc m - suc k ≡ m - k = omega arith in rw e (drop-replicate k m x)

zeros_split :
    (k m room : ℕ) → k + m ≡ room → replicate {A = ℕ} room 0 ≡ replicate k 0 ++ replicate m 0
zeros_split zero m room e = let e' : m ≡ room = omega arith in rw e'
zeros_split (suc k) m zero e = absurd (omega arith)
zeros_split (suc k) m (suc room) e = ap (◌∷◌ 0) (zeros_split k m room (omega arith))

-- A write behind a prefix, into zeros.
set_at-zeros :
    (p source : Bytes) (offset room : ℕ)
    → offset ≡ length p
    → set_at (p ++ replicate room 0) offset source
      ≡ p ++ source ++ replicate (room - length source) 0
unfolding set_at
set_at-zeros p source offset room e = rw (
  e,
  take-append p (replicate room 0),
  drop-append p (replicate room 0) (length source),
  drop-replicate {A = ℕ} (length source) room 0,
)

new_address_lem : (b : Bytes) → length b ≡ 32 → new_address b ≡ some (record { bytes = b })
unfolding new_address
new_address_lem b h = let e : (length b == 32) ≡ true = ground arith in rw e

-- The two writes after the segments.
tail_writes :
    (c fingerprint : Bytes) (d : ℕ)
    → length c ≡ 20
    → length fingerprint ≡ 11
    → set_at (set_at (c ++ replicate 12 0) 20 (d ∷ [])) 21 fingerprint ≡ c ++ d ∷ fingerprint
tail_writes c fingerprint d at size =
    ap (λ b. set_at b 21 fingerprint) (set_at-zeros c (d ∷ []) 20 12 (sym at))
    ∙ set_at-zeros (c ++ d ∷ []) fingerprint 21 11 (omega (arith, length-append c (d ∷ [])))
    ∙ ap (λ k. c ++ d ∷ [] ++ fingerprint ++ replicate k 0) (ap (λ k. 11 - k) size)
    ∙ append-nil _
    ∙ append_assoc c (d ∷ []) fingerprint

module _ (n : Noble) where
  -- The segment of a facet; zeros where it has no value.
  unfoldable pub segment_of : SemanticGrammar → Facet → Bytes
  segment_of g f =
      if is_empty (facet_values g f) then replicate 4 0 else facet_hash n f (facet_values g f)

  -- The index after the last facet that has a value, counting from `i`; `d` where there is none.
  unfoldable pub highest : SemanticGrammar → ℕ → List Facet → ℕ → ℕ
  highest g i [] d = d
  highest g i (f ∷ fs) d = highest g (i + 1) fs (if is_empty (facet_values g f) then d else i + 1)

  fill_step_gap :
      (g : SemanticGrammar) (i : ℕ) (f : Facet) (s : Bytes × ℕ)
      → is_empty (facet_values g f) ≡ true
      → (fill_step n g i f s ≡ s) × (segment_of g f ≡ replicate 4 0)
  unfolding fill_step segment_of
  fill_step_gap g i f s gap = (rw gap, rw gap)

  fill_step_filled :
      (g : SemanticGrammar) (i : ℕ) (f : Facet) (s : Bytes × ℕ)
      → is_empty (facet_values g f) ≡ false
      → (fill_step n g i f s ≡ (set_at s.0 (i * 4) (segment_of g f), i + 1))
  unfolding fill_step segment_of
  fill_step_filled g i f s filled = rw filled

  pub fill-depth :
      (g : SemanticGrammar) (i : ℕ) (fs : List Facet) (s : Bytes × ℕ)
      → (fill n g i fs s).1 ≡ highest g i fs s.1
  unfolding fill highest
  fill-depth g i [] s = refl
  fill-depth g i (f ∷ fs) s = elim (Bool-cases (is_empty (facet_values g f))) [
    | inl gap ↦ rw gap (
        ap (λ t. (fill n g (i + 1) fs t).1) (fill_step_gap g i f s gap).0
        ∙ fill-depth g (i + 1) fs s)
    | inr filled ↦ rw filled (
        ap (λ t. (fill n g (i + 1) fs t).1) (fill_step_filled g i f s filled)
        ∙ fill-depth g (i + 1) fs (set_at s.0 (i * 4) (segment_of g f), i + 1))
  ]

module _ (n : Noble) (laws : HashLaws n) where
  pub length-segment_of : (g : SemanticGrammar) (f : Facet) → length (segment_of n g f) ≡ 4
  unfolding segment_of facet_hash
  length-segment_of g f = elim (Bool-cases (is_empty (facet_values g f))) [
    | inl gap ↦ rw gap
    | inr filled ↦ rw filled (
        length-take 4 _
          (omega (arith, laws.length-digest (n.utf8_to_bytes (facet_string f (facet_values g f))))))
  ]

  -- One round writes the segment of its facet behind what is there.
  fill_step_lem :
      (g : SemanticGrammar) (i : ℕ) (f : Facet) (p : Bytes) (room d : ℕ)
      → i * 4 ≡ length p
      → 4 ≤ room
      → (fill_step n g i f (p ++ replicate room 0, d)).0
        ≡ (p ++ segment_of n g f) ++ replicate (room - 4) 0
  fill_step_lem g i f p room d at fits = elim (Bool-cases (is_empty (facet_values g f))) [
    | inl gap ↦
        let (same, zeros) = fill_step_gap n g i f (p ++ replicate room 0, d) gap in
        rw (same, zeros)
          (ap (λ z. p ++ z) (zeros_split 4 (room - 4) room (omega arith))
            ∙ sym (append_assoc p (replicate 4 0) (replicate (room - 4) 0)))
    | inr filled ↦ rw (fill_step_filled n g i f (p ++ replicate room 0, d) filled) (
        set_at-zeros p (segment_of n g f) (i * 4) room at
        ∙ ap (λ k. p ++ segment_of n g f ++ replicate (room - k) 0) (length-segment_of g f))
  ]

  fill_lem :
      (g : SemanticGrammar) (i : ℕ) (fs : List Facet) (p : Bytes) (room d : ℕ)
      → i * 4 ≡ length p
      → length fs * 4 ≤ room
      → (fill n g i fs (p ++ replicate room 0, d)).0
        ≡ p ++ concat (map (segment_of n g) fs) ++ replicate (room - length fs * 4) 0
  unfolding fill concat
  fill_lem g i [] p room d at fits = let e : room - 0 ≡ room = omega arith in rw (e, append-nil)
  fill_lem g i (f ∷ fs) p room d at fits =
      let next = fill_step n g i f (p ++ replicate room 0, d) in
      let wrote = fill_step_lem g i f p room d at (omega arith) in
      let rest =
        fill_lem g (i + 1) fs (p ++ segment_of n g f) (room - 4) next.1
          (omega (arith, length-append p (segment_of n g f), length-segment_of g f))
          (omega arith) in
      let size : room - 4 - length fs * 4 ≡ room - suc (length fs) * 4 = omega arith in
      ap (λ b. (fill n g (i + 1) fs (b, next.1)).0) wrote
      ∙ rest
      ∙ ap₂ (λ (a : Bytes) k. a ++ replicate k 0)
          (append_assoc p (segment_of n g f) (concat (map (segment_of n g) fs))) size

  pub length-concat :
      (ss : List Bytes) → All (λ s. length s ≡ 4) ss → length (concat ss) ≡ length ss * 4
  unfolding concat
  length-concat [] v = refl
  length-concat (s ∷ ss) v = omega (arith, length-append s (concat ss), length-concat ss v.1, v.0)

  pub segments_sized :
      (g : SemanticGrammar) (fs : List Facet) → All (λ s. length s ≡ 4) (map (segment_of n g) fs)
  segments_sized g [] = tt
  segments_sized g (f ∷ fs) = (length-segment_of g f, segments_sized g fs)

  -- `derive` does not throw, and its 32 bytes are: four for each of the five facets, in order, the
  -- first four of the hash of `facet=value` where the facet has a value and zeros where it has none;
  -- one for the depth, the index after the last facet with a value; eleven of the content's hash.
  pub derive_layout :
      (g : SemanticGrammar) (content : Leaf)
      → derive n g content
        ≡ some (record {
          bytes =
              concat (map (segment_of n g) facet_order)
              ++ (highest n g 0 facet_order 0 % 16) ∷ take 11 (n.sha256 (leaf_bytes n content));
        })
  unfolding derive
  derive_layout g content =
      let c = concat (map (segment_of n g) facet_order) in
      let fingerprint : Bytes = take 11 (n.sha256 (leaf_bytes n content)) in
      let filled = fill n g 0 facet_order (replicate 32 0, 0) in
      let written : filled.0 ≡ c ++ replicate 12 0 =
        fill_lem g 0 facet_order [] 32 0 refl (omega arith) in
      let twenty : length c ≡ 20 =
        length-concat (map (segment_of n g) facet_order) (segments_sized g facet_order) in
      let eleven : length fingerprint ≡ 11 =
        length-take 11 (n.sha256 (leaf_bytes n content))
          (omega (arith, laws.length-digest (leaf_bytes n content))) in
      let d = highest n g 0 facet_order 0 % 16 in
      ap₂ (λ (b : Bytes) k. new_address (set_at (set_at b 20 ((k % 16) ∷ [])) 21 fingerprint))
        written (fill-depth n g 0 facet_order (replicate 32 0, 0))
      ∙ ap new_address (tail_writes c fingerprint d twenty eleven)
      ∙ new_address_lem (c ++ d ∷ fingerprint) (omega (arith, length-append c (d ∷ fingerprint)))
