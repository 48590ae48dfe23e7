-- ===== src/Crypto/Mmr/Peaks.antt =====
-- How many peaks there are after each append.
use dhf.Base.{
  ℕ, zero, suc, ◌+◌, ◌-◌, ◌/◌, ◌%◌, ◌^◌, ◌≤◌, ◌<◌, ◌≡◌, refl, sym, ◌∙◌, subst, ◌⊎◌, true, false,
  Text, some, List, [], ◌∷◌, arith, Bytes, length, ◌==◌, Option-cases, inl, inr, some_inj, ap,
}
use native.Mathlib.Nat.{mod-eq_of_lt, div-eq_of_lt, div-div-eq-div-mul, pow-le-pow_right, pow-suc}
use native.Mathlib.Decide.{dec_lt, ℕ_discrete}
use native.Mathlib.Numerals.{add-one}
use dhf.Crypto.Primitives.{Noble}
use dhf.Crypto.Merkle.{Leaf, hash_leaf, hash_node}
use dhf.Crypto.Mmr.{Mmr, empty, bit, merge, append, append_all, root_bytes}

-- The number of bits of `k` that are set.
unfoldable pub ones_below : ℕ → ℕ → ℕ
ones_below zero k = 0
ones_below (suc fuel) k = k % 2 + ones_below fuel (k / 2)

unfoldable pub ones : ℕ → ℕ
unfolding ones_below
ones k = ones_below k k

ones_below-zero : (f : ℕ) → ones_below f 0 ≡ 0
unfolding ones_below
ones_below-zero zero = refl
ones_below-zero (suc f) = omega (arith, ones_below-zero f)

ones_below_fuel : (f g k : ℕ) → k ≤ f → k ≤ g → ones_below f k ≡ ones_below g k
unfolding ones_below
ones_below_fuel zero g zero p q = omega (arith, ones_below-zero g)
ones_below_fuel zero g (suc k) p q = elim p [ ]
ones_below_fuel (suc f) zero zero p q = omega (arith, ones_below-zero f)
ones_below_fuel (suc f) zero (suc k) p q = elim q [ ]
ones_below_fuel (suc f) (suc g) k p q =
    omega (arith, ones_below_fuel f g (k / 2) (omega arith) (omega arith))

pub ones_lem : (k : ℕ) → ones k ≡ k % 2 + ones (k / 2)
unfolding ones
ones_lem zero = refl
ones_lem (suc k) =
    omega (arith, ones_below_fuel k (suc k / 2) (suc k / 2) (omega arith) (omega arith))

-- A shift by one more place halves.
shift-suc : (size h : ℕ) → size / 2 ^ (h + 1) ≡ size / 2 ^ h / 2
shift-suc size h = rw (add-one h, pow-suc 2 h) (sym (div-div-eq-div-mul size (2 ^ h) 2))

shift_small : (size h : ℕ) → size < 2 ^ 32 → 0 < size / 2 ^ h → h < 32
shift_small size h small up = elim (dec_lt h 32) [
  | yes p ↦ p
  | no p ↦
      let big : 2 ^ 32 ≤ 2 ^ h = pow-le-pow_right {n = 2} (omega arith) {i = 32} (omega arith) in
      let gone : size / 2 ^ h ≡ 0 = div-eq_of_lt (omega (arith, big)) in
      absurd (omega (arith, gone))
]

-- Below 32 bits the test of `shouldMerge` reads the parity of the shifted size.
bit_lem : (size h : ℕ) → size < 2 ^ 32 → 0 < size / 2 ^ h → bit size h ≡ size / 2 ^ h % 2
bit_lem size h small up =
    let low : size % 2 ^ 32 ≡ size = mod-eq_of_lt small in
    let near : h % 32 ≡ h = mod-eq_of_lt (shift_small size h small up) in rw (low, near)

-- Counting up by one: an odd number has one bit more than the number before it, and an even number
-- the bits of its half.
parity_cases :
    (v : ℕ)
    → 0 < v
    → ((v % 2 ≡ 1) × (ones v ≡ 1 + ones (v - 1)))
      ⊎ ((v % 2 ≡ 0) × (ones (v - 1) ≡ 1 + ones (v / 2 - 1)) × (ones v ≡ ones (v / 2)))
parity_cases v h =
    let now = ones_lem v in
    let before = ones_lem (v - 1) in
    elim (ℕ_discrete (v % 2) 0) [
      | yes even ↦
          let down : (v - 1) / 2 ≡ v / 2 - 1 = omega arith in
          inr (even, omega (arith, ap ones down), omega arith)
      | no odd ↦
          let down : (v - 1) / 2 ≡ v / 2 = omega arith in
          inl (omega arith, omega (arith, ap ones down))
    ]

module _ (n : Noble) where
  -- With a peak for each bit of the size before, and one more, the loop leaves a peak for each bit
  -- of the size after, and one more.
  length-merge :
      (size height : ℕ) (peaks : List Bytes) (leaf : Bytes)
      → size < 2 ^ 32
      → 0 < size / 2 ^ height
      → length peaks ≡ 1 + ones (size / 2 ^ height - 1)
      → length (merge n size height peaks leaf) ≡ 1 + ones (size / 2 ^ height)
  unfolding merge
  length-merge size height [] leaf small up count = absurd (omega arith)
  length-merge size height (left ∷ []) leaf small up count =
      elim (parity_cases (size / 2 ^ height) up) [
        | inl (odd, more) ↦ omega arith
        | inr (even, fewer, same) ↦ absurd (omega arith)
      ]
  length-merge size height (left ∷ next ∷ rest) leaf small up count =
      let parity = bit_lem size height small up in
      elim (parity_cases (size / 2 ^ height) up) [
        | inl (odd, more) ↦
            let stop : (bit size height == 0) ≡ false = ground arith in rw stop (omega arith)
        | inr (even, fewer, same) ↦
            let half = shift-suc size height in
            let go : (bit size height == 0) ≡ true = ground arith in
            rw (go, same, ← half)
              (length-merge size (height + 1) (next ∷ rest) (hash_node n left leaf) small
                (omega arith) (rw half (omega arith)))
      ]

  -- The number of peaks, from the second append on.
  abbrev pub Counted : Mmr → Type 0
  Counted m = length m.peaks ≡ 1 + ones m.size

  append-Counted :
      (m : Mmr) (r : Leaf) {m' : Mmr} {t : Text}
      → Counted m
      → m.size + 1 < 2 ^ 32
      → append n m r ≡ some (m', t)
      → Counted m' × (m'.size ≡ m.size + 1)
  unfolding append
  append-Counted m r c small e = elim (Option-cases (root_bytes n r)) [
    | inl bad ↦ cc (rw bad at e)
    | inr (b, good) ↦
        let one : (m.size + 1) / 2 ^ 0 - 1 ≡ m.size = omega arith in
        let all : (m.size + 1) / 2 ^ 0 ≡ m.size + 1 = omega arith in
        let counted =
          length-merge (m.size + 1) 0 m.peaks (hash_leaf n b) small (omega arith) (rw one c) in
        subst (λ s. Counted s × (s.size ≡ m.size + 1))
          (ap (λ (p : Mmr × Text). p.0) (some_inj (rw good at e)))
          (counted ∙ ap (λ k. 1 + ones k) all, refl)
  ]

  append_all-Counted :
      (m : Mmr) (rs : List Leaf) {m' : Mmr}
      → Counted m
      → m.size + length rs < 2 ^ 32
      → append_all n m rs ≡ some m'
      → Counted m' × (m'.size ≡ m.size + length rs)
  unfolding append_all
  append_all-Counted m [] c small e =
      subst (λ s. Counted s × (s.size ≡ m.size + 0)) (some_inj e) (c, omega arith)
  append_all-Counted m (r ∷ rs) {m'} c small e = elim (Option-cases (append n m r)) [
    | inl bad ↦ cc (rw bad at e)
    | inr ((next, t), good) ↦
        let (c', up) = append-Counted m r c (omega arith) good in
        let (c'', up') = append_all-Counted next rs c' (omega arith) (rw good at e) in
        (c'', omega arith)
  ]

  -- Two appends leave two peaks.
  second-Counted :
      (a b : Leaf) {m : Mmr} → append_all n empty (a ∷ b ∷ []) ≡ some m → Counted m × (m.size ≡ 2)
  unfolding append_all append merge ones
  second-Counted a b e = elim (Option-cases (root_bytes n a)) [
    | inl bad ↦ cc (rw bad at e)
    | inr (x, good) ↦ elim (Option-cases (root_bytes n b)) [
      | inl bad ↦ cc (rw (good, bad) at e)
      | inr (y, good') ↦
          subst (λ s. Counted s × (s.size ≡ 2)) (some_inj (rw (good, good') at e)) (refl, refl)
    ]
  ]

  -- After appends of two or more roots, fewer than 2 ^ 32, that all decode, the size is their number,
  -- and there is one peak more than the number has bits set.
  pub length-peaks :
      (a b : Leaf) (rs : List Leaf) {m : Mmr}
      → 2 + length rs < 2 ^ 32
      → append_all n empty (a ∷ b ∷ rs) ≡ some m
      → (m.size ≡ 2 + length rs) × (length m.peaks ≡ 1 + ones m.size)
  unfolding append_all
  length-peaks a b rs small e = elim (Option-cases (append n empty a)) [
    | inl bad ↦ cc (rw bad at e)
    | inr ((m₁, t₁), first) ↦ elim (Option-cases (append n m₁ b)) [
      | inl bad ↦ cc (rw (first, bad) at e)
      | inr ((m₂, t₂), second) ↦
          let both : append_all n empty (a ∷ b ∷ []) ≡ some m₂ = rw (first, second) refl in
          let (c, two) = second-Counted a b both in
          let (c', all) = append_all-Counted m₂ rs c (omega arith) (rw (first, second) at e) in
          (omega arith, c')
    ]
  ]
