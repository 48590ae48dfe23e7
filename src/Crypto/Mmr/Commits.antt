-- ===== src/Crypto/Mmr/Commits.antt =====
-- What the root of the range commits to: a binary tree over the appended roots, in order.
use mathlib.Core.List.{append_assoc, append-nil}
use dhf.Base.{
  ℕ, ◌+◌, ◌≡◌, refl, ap, ap₂, map, sym, subst, ◌∙◌, some, List, [], ◌∷◌, ◌++◌, Bytes, Bool-cases,
  Option-cases, inl, inr, some_inj, ◌==◌, Text,
}
use dhf.Crypto.Primitives.{Noble}
use dhf.Crypto.Merkle.{Leaf, hash_leaf, hash_node}
use dhf.Crypto.Mmr.{Mmr, empty, bit, merge, bag, bag_peaks, root, append, append_all, root_bytes}

-- Hash trees, with the data at the leaves.
pub data Tree : Type 0 where
  leaf : Bytes → Tree
  node : Tree → Tree → Tree

unfoldable pub leaves : Tree → List Bytes
leaves (leaf b) = b ∷ []
leaves (node l r) = leaves l ++ leaves r

module _ (n : Noble) where
  unfoldable pub hash_tree : Tree → Bytes
  hash_tree (leaf b) = hash_leaf n b
  hash_tree (node l r) = hash_node n (hash_tree l) (hash_tree r)

  -- A stack of peaks is the hashes of a stack of trees, over the given data.
  pub data Peaks : List Bytes → List Bytes → Type 0 where
    bare : Peaks [] []
    peak :
        {ps before now : List Bytes} {p : Bytes} (t : Tree)
        → Peaks ps before
        → hash_tree t ≡ p
        → before ++ leaves t ≡ now
        → Peaks (p ∷ ps) now

  merge-Peaks :
      (size height : ℕ) {ps before : List Bytes} (t : Tree) {p : Bytes}
      → Peaks ps before
      → hash_tree t ≡ p
      → Peaks (merge n size height ps p) (before ++ leaves t)
  unfolding merge hash_tree leaves
  merge-Peaks size height t bare e = peak t bare e refl
  merge-Peaks size height t (peak t₁ bare e₁ q₁) e = peak t (peak t₁ bare e₁ q₁) e refl
  merge-Peaks size height t {p} (peak {p = p₁} t₁ (peak {ps = ps} {p = p₂} t₂ rest e₂ q₂) e₁ q₁) e =
      elim (Bool-cases (bit size height == 0)) [
        | inl go ↦ rw go (
            subst (Peaks (merge n size (height + 1) (p₂ ∷ ps) (hash_node n p₁ p)))
              (sym (append_assoc _ (leaves t₁) (leaves t)) ∙ ap (λ d. d ++ leaves t) q₁)
              (merge-Peaks size (height + 1) (node t₁ t) (peak t₂ rest e₂ q₂)
                (ap₂ (hash_node n) e₁ e)))
        | inr stop ↦ rw stop (peak t (peak t₁ (peak t₂ rest e₂ q₂) e₁ q₁) e refl)
      ]

  bag-Peaks :
      {ps before : List Bytes} (t : Tree) {acc : Bytes}
      → Peaks ps before
      → hash_tree t ≡ acc
      → (all : Tree) × (hash_tree all ≡ bag n acc ps) × (leaves all ≡ before ++ leaves t)
  unfolding bag hash_tree leaves
  bag-Peaks t bare e = (t, e, refl)
  bag-Peaks t (peak t₁ rest e₁ q₁) e =
      let (all, h, l) = bag-Peaks (node t₁ t) rest (ap₂ (hash_node n) e₁ e) in
      (all, h, l ∙ sym (append_assoc _ (leaves t₁) (leaves t)) ∙ ap (λ d. d ++ leaves t) q₁)

  append-Peaks :
      (m : Mmr) (r : Leaf) {before : List Bytes} {m' : Mmr} {t : Text}
      → Peaks m.peaks before
      → append n m r ≡ some (m', t)
      → (b : Bytes) × (root_bytes n r ≡ some b) × Peaks m'.peaks (before ++ b ∷ [])
  unfolding append hash_tree leaves
  append-Peaks m r {before} h e = elim (Option-cases (root_bytes n r)) [
    | inl bad ↦ cc (rw bad at e)
    | inr (b, good) ↦
        let made = some_inj (rw good at e) in
        (
          b,
          good,
          subst (λ (p : Mmr × Text). Peaks p.0.peaks (before ++ b ∷ [])) made
              (merge-Peaks (m.size + 1) 0 (leaf b) h refl),
        )
  ]

  append_all-Peaks :
      (m : Mmr) (rs : List Leaf) {before : List Bytes} {m' : Mmr}
      → Peaks m.peaks before
      → append_all n m rs ≡ some m'
      → (new : List Bytes) × (map some new ≡ map (root_bytes n) rs) × Peaks m'.peaks (before ++ new)
  unfolding append_all
  append_all-Peaks m [] {before} h e =
      ([], refl, subst (λ s. Peaks s.peaks (before ++ [])) (some_inj e) (rw append-nil h))
  append_all-Peaks m (r ∷ rs) h e = elim (Option-cases (append n m r)) [
    | inl bad ↦ cc (rw bad at e)
    | inr ((next, t), good) ↦
        let (b, decoded, h') = append-Peaks m r h good in
        let (new, same, h'') = append_all-Peaks next rs h' (rw good at e) in
        (b ∷ new, ap₂ ◌∷◌ (sym decoded) same, rw append_assoc at h'')
  ]

  bag_peaks-Tree :
      {ps all : List Bytes} (r : Leaf) (rs : List Leaf)
      → Peaks ps all
      → map some all ≡ map (root_bytes n) (r ∷ rs)
      → (t : Tree) × (bag_peaks n ps ≡ n.bytes_to_hex (hash_tree t))
        × (map some (leaves t) ≡ map (root_bytes n) (r ∷ rs))
  unfolding bag_peaks
  bag_peaks-Tree r rs bare same = cc same
  bag_peaks-Tree r rs (peak t rest e q) same =
      let (all, h, l) = bag-Peaks t rest e in
      (all, ap n.bytes_to_hex (sym h), ap (map some) (l ∙ q) ∙ same)

  -- After any appends that all decode, at least one, the root is the hash of a binary tree
  -- whose leaves are the appended roots, all of them, in order.
  pub root-commits :
      (r : Leaf) (rs : List Leaf) {m : Mmr}
      → append_all n empty (r ∷ rs) ≡ some m
      → (t : Tree) × (root n m ≡ n.bytes_to_hex (hash_tree t))
        × (map some (leaves t) ≡ map (root_bytes n) (r ∷ rs))
  unfolding root
  root-commits r rs e =
      let (all, same, h) = append_all-Peaks empty (r ∷ rs) bare e in bag_peaks-Tree r rs h same
