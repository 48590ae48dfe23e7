-- ===== src/Crypto/Mmr.antt =====
-- `SynapticFieldMMR` of packages/crypto/src/index.ts. The stack of peaks is a list whose head is the
-- last peak, where the source pushes and pops.
pub mod Commits
pub mod Peaks
mod Examples
use dhf.Base.{
  ℕ, ◌+◌, ◌/◌, ◌%◌, ◌^◌, Option, some, List, [], ◌∷◌, map, Text, Bytes, length, ◌==◌, if◌then◌else◌,
  ◌>>=◌,
}
use mathlib.Core.List.{reverse}
use dhf.Crypto.Primitives.{Noble}
use dhf.Crypto.Merkle.{Leaf, bytes, text, hash_leaf, hash_node}

pub record Mmr : Type 0 where
  pub peaks : List Bytes
  pub size : ℕ

pub record Snapshot : Type 0 where
  pub size : ℕ
  pub peaks : List Text
  pub root : Text

abbrev pub empty : Mmr
empty = record { peaks = []; size = 0 }

-- `(size >> height) & 1`: shifts read the low 32 bits of the number and the low 5 of the distance.
abbrev pub bit : ℕ → ℕ → ℕ
bit size height = size % 2 ^ 32 / 2 ^ (height % 32) % 2

module _ (n : Noble) where
  open n use {sha256, bytes_to_hex, hex_to_bytes}

  -- `while (this.shouldMerge(height))`, with the push of the leaf after it.
  unfoldable pub merge : ℕ → ℕ → List Bytes → Bytes → List Bytes
  merge size height [] leaf = leaf ∷ []
  merge size height (left ∷ []) leaf = leaf ∷ left ∷ []
  merge size height (left ∷ next ∷ rest) leaf =
      let merged = merge size (height + 1) (next ∷ rest) (hash_node n left leaf) in
      if bit size height == 0 then merged else leaf ∷ left ∷ next ∷ rest

  -- The peaks below the last one, folded onto it.
  unfoldable pub bag : Bytes → List Bytes → Bytes
  bag acc [] = acc
  bag acc (peak ∷ rest) = bag (hash_node n peak acc) rest

  bag_peaks : List Bytes → Text
  unfolding bag
  bag_peaks [] = bytes_to_hex (sha256 [])
  bag_peaks (last ∷ rest) = bytes_to_hex (bag last rest)

  unfoldable pub root : Mmr → Text
  unfolding bag_peaks
  root m = bag_peaks m.peaks

  pub count : Mmr → ℕ
  count m = m.size

  -- A coherence root is bytes, or hexadecimal digits; `none` is a throw.
  unfoldable pub root_bytes : Leaf → Option Bytes
  root_bytes (bytes b) = some b
  root_bytes (text t) = hex_to_bytes t

  unfoldable pub append : Mmr → Leaf → Option (Mmr × Text)
  unfolding root_bytes merge root
  append m coherence_root = root_bytes coherence_root >>= λ b.
      let m' : Mmr = record {
        peaks = merge (m.size + 1) 0 m.peaks (hash_leaf n b);
        size = m.size + 1;
      } in
      some (m', root m')

  pub snapshot : Mmr → Snapshot
  snapshot m = record { size = m.size; peaks = map bytes_to_hex (reverse m.peaks); root = root m }

  -- A run of appends.
  unfoldable pub append_all : Mmr → List Leaf → Option Mmr
  unfolding append
  append_all m [] = some m
  append_all m (r ∷ rs) = append m r >>= λ step. append_all step.0 rs
