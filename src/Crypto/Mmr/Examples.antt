-- ===== src/Crypto/Mmr/Examples.antt =====
-- Tests of the Merkle mountain range, on runs of a few appends.
use dhf.Base.{ℕ, ◌+◌, ◌≡◌, refl, some, [], ◌∷◌, Bytes, arith, map, length}
use dhf.Crypto.Sample.{sample}
use dhf.Crypto.Merkle.{Leaf, bytes, hash_leaf, hash_node}
use dhf.Crypto.Mmr.{Mmr, empty, root, append_all, root_bytes, merge}
use dhf.Crypto.Mmr.Commits.{Tree, leaves, hash_tree, root-commits}
use dhf.Crypto.Mmr.Peaks.{ones, length-peaks}

abbrev item : ℕ → Leaf
item k = bytes (k ∷ [])

abbrev hashed : ℕ → Bytes
hashed k = hash_leaf sample (k ∷ [])

-- The state after the roots 1, 2, 3 and 4.
abbrev after_four : Mmr
after_four = record {
  peaks = hash_node sample (hashed 2) (hash_node sample (hashed 3) (hashed 4)) ∷ hashed 1 ∷ [];
  size = 4;
}

four_appends : append_all sample empty (item 1 ∷ item 2 ∷ item 3 ∷ item 4 ∷ []) ≡ some after_four
unfolding append_all merge
four_appends = refl

length-peaks_example :
    (after_four.size ≡ 2 + length (item 3 ∷ item 4 ∷ []))
    × (length after_four.peaks ≡ 1 + ones after_four.size)
length-peaks_example =
    length-peaks sample (item 1) (item 2) (item 3 ∷ item 4 ∷ []) (omega arith) four_appends

root-commits_example :
    (t : Tree) × (root sample after_four ≡ sample.bytes_to_hex (hash_tree sample t))
    × (map some (leaves t) ≡ map (root_bytes sample) (item 1 ∷ item 2 ∷ item 3 ∷ item 4 ∷ []))
root-commits_example = root-commits sample (item 1) (item 2 ∷ item 3 ∷ item 4 ∷ []) four_appends
