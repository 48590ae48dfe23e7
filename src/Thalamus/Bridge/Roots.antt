-- ===== src/Thalamus/Bridge/Roots.antt =====
-- The roots of a tick are words of 32 bytes, and so are those that the bridge commits.
use dhf.Base.{
  ℕ, zero, suc, ◌+◌, ◌≡◌, refl, sym, ◌==◌, Option, none, some, Bool, true, false, List, [], ◌∷◌,
  ◌++◌, map, Text, Bytes, codes, All, or_else, length, is_empty, ltb, arith, inl, inr, Bool-cases,
  Option-cases, some_inj,
}
use dhf.Crypto.Primitives.{Noble, HashLaws}
use dhf.Crypto.Cid.{HexLaws, is_hex_digit, each, behind}
use dhf.Crypto.Cid.RoundTrip.{each-All, hash_facts}
use dhf.Crypto.Merkle.{
  text, first, hash_leaf, hash_node, leaf_layer, next_layer, climb, merkle_root,
}
use dhf.Base.Decimal.{is_digit}
use dhf.Events.Patterns.{is_root}
use dhf.Thalamus.{
  EpochRow, Router, Submitted, Arrival, zero_root, buffer_root, tick_row, tick, receive_all, clear,
}
use dhf.Chain.Medulla.{SynapticProof}
use dhf.Crypto.{text as content, coherence_root}
use dhf.Thalamus.Bridge.{CommitArgs, pad, pad_start, commit_args}

-- 64 hexadecimal digits
abbrev IsWord : Text → Type 0
IsWord t = (length t ≡ 64) × (each is_hex_digit t ≡ true)

has_no_prefix : (t : Text) → each is_hex_digit t ≡ true → behind (codes "0x") t ≡ none
unfolding behind each is_hex_digit is_digit
has_no_prefix [] h = refl
has_no_prefix (c ∷ []) h = ground arith
has_no_prefix (c ∷ d ∷ rest) h = ground (arith, h)

-- A word is padded with its prefix alone, and it then matches the schema of roots.
pad-IsWord : (t : Text) → IsWord t → pad t ≡ codes "0x" ++ t
unfolding pad pad_start
pad-IsWord t (size, hex) = rw (has_no_prefix t hex, size) refl

prefixed-is_root : (t : Text) → IsWord t → is_root (codes "0x" ++ t) ≡ true
unfolding is_root behind
prefixed-is_root t (size, hex) = rw (size, hex) refl

pad-is_root : (t : Text) → IsWord t → is_root (pad t) ≡ true
pad-is_root t w = rw (pad-IsWord t w) (prefixed-is_root t w)

zero_root-IsWord : IsWord zero_root
unfolding each is_hex_digit is_digit
zero_root-IsWord = (refl, refl)

module _ (n : Noble) (hashes : HashLaws n) (hexes : HexLaws n) where
  IsDigest : Bytes → Type 0
  IsDigest b = (x : Bytes) × (b ≡ n.sha256 x)

  digest-IsWord : (b : Bytes) → IsDigest b → IsWord (n.bytes_to_hex b)
  unfolding IsDigest
  digest-IsWord b (x, e) =
      let valid = hashes.digest-IsBytes x in
      rw e (
        omega (arith, hexes.length-bytes_to_hex _ valid, hashes.length-digest x),
        each-All is_hex_digit _ (hexes.bytes_to_hex-digits _ valid),
      )

  next_layer-IsDigest : (l : List Bytes) → All IsDigest (next_layer n l)
  unfolding next_layer hash_node IsDigest
  next_layer-IsDigest [] = tt
  next_layer-IsDigest (a ∷ []) = ((_, refl), tt)
  next_layer-IsDigest (a ∷ b ∷ rest) = ((_, refl), next_layer-IsDigest rest)

  next_layer_is_not_empty : (a : Bytes) (l : List Bytes) → is_empty (next_layer n (a ∷ l)) ≡ false
  unfolding next_layer
  next_layer_is_not_empty a [] = refl
  next_layer_is_not_empty a (b ∷ rest) = refl

  climb-IsDigest :
      (fuel : ℕ) (l : List Bytes)
      → is_empty l ≡ false
      → All IsDigest l
      → IsDigest (first (climb n fuel l))
  unfolding climb
  climb-IsDigest fuel [] e v = absurd (ground (arith, e))
  climb-IsDigest zero (a ∷ l) e v = v.0
  climb-IsDigest (suc fuel) (a ∷ l) e v = elim (Bool-cases (ltb 1 (length (a ∷ l)))) [
    | inl more ↦ rw more (
        climb-IsDigest fuel (next_layer n (a ∷ l)) (next_layer_is_not_empty a l)
          (next_layer-IsDigest (a ∷ l)))
    | inr one ↦ rw one v.0
  ]

  leaf_layer-IsDigest : (leaves : List Text) → All IsDigest (leaf_layer n (map text leaves))
  unfolding leaf_layer hash_leaf IsDigest
  leaf_layer-IsDigest [] = tt
  leaf_layer-IsDigest (t ∷ rest) = ((_, refl), leaf_layer-IsDigest rest)

  leaf_layer_is_not_empty :
      (t : Text) (rest : List Text) → is_empty (leaf_layer n (map text (t ∷ rest))) ≡ false
  unfolding leaf_layer
  leaf_layer_is_not_empty t rest = refl

  buffer_root-IsWord : (buffer : List Text) → IsWord (buffer_root n buffer)
  unfolding buffer_root merkle_root
  buffer_root-IsWord [] = zero_root-IsWord
  buffer_root-IsWord (t ∷ rest) =
      let leaves = map text (t ∷ rest) in
      let some_leaf : (length leaves == 0) ≡ false = ground arith in
      rw some_leaf (
        digest-IsWord _ (
          climb-IsDigest (length leaves) (leaf_layer n leaves) (leaf_layer_is_not_empty t rest)
            (leaf_layer-IsDigest (t ∷ rest))))

  cross_root-IsWord : (r : Router) → IsWord (tick_row n r).cross_root
  unfolding tick_row coherence_root
  cross_root-IsWord r = hash_facts n hashes hexes (
      content (
        buffer_root n r.evm_hashes
        ++ codes "|"
        ++ zero_root
        ++ codes "|"
        ++ buffer_root n r.ipfs_hashes
        ++ codes "|"
        ++ buffer_root n r.sleeve_hashes))

  anchored-epoch :
      (submit : EpochRow → Option Submitted) (db_up up : Bool) (arrivals : List Arrival)
      (r : Router) (anchor : Submitted)
      → submit (tick_row n r) ≡ some anchor
      → (tick n submit db_up up arrivals r).current_epoch
        ≡ or_else anchor.epoch (r.current_epoch + 1)
  unfolding tick clear
  anchored-epoch submit db_up true arrivals r anchor e = rw (tick, e) refl
  anchored-epoch submit db_up false arrivals r anchor e = rw (tick, e) refl

  -- Where a tick anchors a row and the contract's address is set, the four roots that are committed are
  -- words of 32 bytes, the epoch is the one that the tick moves to, and if the bus takes the transition
  -- it carries that epoch and the committed root without its prefix, whatever arrived meanwhile.
  pub commit_args-tick :
      (submit : EpochRow → Option Submitted) (proof : Option SynapticProof) (db_up : Bool)
      (arrivals : List Arrival) (r : Router) (args : CommitArgs)
      → commit_args n true submit proof r ≡ some args
      → (is_root args.cross_root ≡ true)
        × (is_root args.evm_root ≡ true)
        × (is_root args.ipfs_root ≡ true)
        × (is_root args.sleeves_root ≡ true)
        × ((up : Bool) → (tick n submit db_up up arrivals r).current_epoch ≡ args.epoch)
        × (root : Text) × (args.cross_root ≡ codes "0x" ++ root)
        × ((tick n submit db_up true arrivals r).transitions
            ≡ (receive_all n arrivals r).transitions ++ (args.epoch, root) ∷ [])
  unfolding commit_args tick clear tick_row
  commit_args-tick submit proof db_up arrivals r args h =
      elim (Option-cases (submit (tick_row n r))) [
        | inl e ↦ absurd (ground (arith, rw (commit_args, e) at h))
        | inr (anchor, e) ↦
            let cross = cross_root-IsWord r in
            rw (sym (some_inj (rw (commit_args, e) at h))) (
              pad-is_root _ cross,
              pad-is_root _ (buffer_root-IsWord r.evm_hashes),
              pad-is_root _ (buffer_root-IsWord r.ipfs_hashes),
              pad-is_root _ (buffer_root-IsWord r.sleeve_hashes),
              λ up. anchored-epoch submit db_up up arrivals r anchor e,
              (tick_row n r).cross_root,
              pad-IsWord _ cross,
              rw (tick, e) refl,
            )
      ]
