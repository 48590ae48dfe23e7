-- ===== src/Address/Derive.antt =====
-- packages/semantic-address/src/derive.ts. `sha256` of @noble/hashes is the operation of `Noble`,
-- and `TextEncoder.encode` is its `utf8_to_bytes`.
pub mod Layout
pub mod Match
pub mod Distance
use Prim.Native.Nat.{bit_xor}
use dhf.Base.{
  ℕ, zero, suc, ◌+◌, ◌-◌, ◌*◌, ◌/◌, ◌%◌, Option, none, some, Bool, true, List, [], ◌∷◌, ◌++◌, map,
  Bytes, Text, length, get_elem?, take, drop, replicate, is_empty, ltb, ◌==◌, or_else,
  if◌then◌else◌,
}
use dhf.Crypto.Primitives.{Noble}
use dhf.Crypto.Merkle.{Leaf, leaf_bytes}
use dhf.Address.{SemanticAddress, PartialAddress, new_address, matches_bytes}
use dhf.Address.Hex.{bytes_hex}
use dhf.Address.Grammar.{
  Facet, SemanticGrammar, facet_order, facet_name, facet_values, facet_string,
}

-- `typed.set(source, offset)`, in range.
unfoldable pub set_at : Bytes → ℕ → Bytes → Bytes
set_at typed offset source = take offset typed ++ source ++ drop (offset + length source) typed

unfoldable pub concat : List Bytes → Bytes
concat [] = []
concat (s ∷ ss) = s ++ concat ss

module _ (n : Noble) where
  open n use {sha256, utf8_to_bytes}

  -- The first four bytes of the hash of `facet=value`.
  unfoldable pub facet_hash : Facet → List Text → Bytes
  facet_hash f values = take 4 (sha256 (utf8_to_bytes (facet_string f values)))

  -- The body of the loop over FACET_ORDER, at index `i`; the state is the array and the depth.
  unfoldable pub fill_step : SemanticGrammar → ℕ → Facet → Bytes × ℕ → Bytes × ℕ
  fill_step g i f s =
      if is_empty (facet_values g f)
      then s
      else (set_at s.0 (i * 4) (facet_hash f (facet_values g f)), i + 1)

  unfoldable pub fill : SemanticGrammar → ℕ → List Facet → Bytes × ℕ → Bytes × ℕ
  fill g i [] s = s
  fill g i (f ∷ fs) s = fill g (i + 1) fs (fill_step g i f s)

  -- A content is a text or bytes; the result is `none` where the constructor throws.
  unfoldable pub derive : SemanticGrammar → Leaf → Option SemanticAddress
  derive g content =
      let filled = fill g 0 facet_order (replicate 32 0, 0) in
      let tagged = set_at filled.0 20 ((filled.1 % 16) ∷ []) in
      new_address (set_at tagged 21 (take 11 (sha256 (leaf_bytes n content))))

  -- The segments of the facets before the first gap.
  unfoldable pub leading : SemanticGrammar → List Facet → List (Facet × Bytes)
  leading g [] = []
  leading g (f ∷ fs) =
      let rest = leading g fs in
      if is_empty (facet_values g f) then [] else (f, facet_hash f (facet_values g f)) ∷ rest

  abbrev segment_bytes : List (Facet × Bytes) → List Bytes
  segment_bytes = map (λ (s : Facet × Bytes). s.1)

  unfoldable pub derive_partial : SemanticGrammar → PartialAddress
  derive_partial g =
      let segments = leading g facet_order in
      let b = concat (segment_bytes segments) in
      record {
        bytes = b;
        depth = length segments;
        facets = map (λ (s : Facet × Bytes). facet_name s.0) segments;
        hex = bytes_hex b;
      }

unfoldable pub prefix_match : SemanticAddress → PartialAddress → Bool
unfolding matches_bytes
prefix_match a partial = if partial.depth == 0 then true else matches_bytes partial.bytes a.bytes

-- `while (n) { count += n & 1; n >>>= 1; }`, where `n` itself is fuel enough.
popcount_loop : ℕ → ℕ → ℕ → ℕ
popcount_loop zero k count = count
popcount_loop (suc fuel) k count =
    let rest = popcount_loop fuel (k / 2) (count + k % 2) in if k == 0 then count else rest

unfoldable pub popcount : ℕ → ℕ
unfolding popcount_loop
popcount k = popcount_loop k k 0

-- The loop of `prefixDistance` over the first `count` bytes.
unfoldable pub distance_loop : ℕ → Bytes → Bytes → ℕ → ℕ
unfolding popcount
distance_loop zero a b dist = dist
distance_loop (suc count) [] b dist = dist
distance_loop (suc count) (x ∷ a) [] dist = dist
distance_loop (suc count) (x ∷ a) (y ∷ b) dist =
    distance_loop count a b (dist + popcount (bit_xor x y))

unfoldable pub prefix_distance : SemanticAddress → SemanticAddress → ℕ → ℕ
unfolding distance_loop
prefix_distance a b depth =
    distance_loop (if ltb (depth * 4) 20 then depth * 4 else 20) a.bytes b.bytes 0
