-- ===== src/Compositor.antt =====
-- services/dhf-compositor/src/server.ts: the reconstruction of memories. A memory token is in halves
-- and a fraction in millionths.
pub mod Epochs
use dhf.Base.{ℕ, Option, none, some, List, [], ◌∷◌, Text, Bytes, codes, or_else}
use dhf.Crypto.Primitives.{Noble}
use dhf.Crypto.Cipher.{decrypt, epoch_key}
use dhf.Chain.Hippocampus.{Node, HippoNode, recall}
use dhf.Registry.{Stack, Sleeve, Db, Reply, ok, error, thrown, whole, find_stack, find_sleeve}
use dhf.Siyana.Sleeves.{head_links}

-- A fragment with its text, or without one where decryption throws.
pub record Decoded : Type 0 where
  pub cid : Text
  pub epoch : ℕ
  pub text : Option Text

pub record Reconstruction : Type 0 where
  pub fragments : List Decoded
  pub broken : List Text
  pub fidelity : ℕ

-- The memory token of the sleeve that the request names, or the depth.
unfoldable pub memory_token : Option Text → ℕ → List Sleeve → ℕ
unfolding find_sleeve
memory_token none depth sleeves = whole depth
memory_token (some []) depth sleeves = whole depth
memory_token (some (c ∷ cs)) depth sleeves = elim (find_sleeve (c ∷ cs) sleeves) [
  | none ↦ whole depth
  | some s ↦ or_else s.tokens.memory (whole depth)
]

module _ (n : Noble) where
  -- The loop over the fragments, with one key for all of them.
  unfoldable pub decode_all : Bytes → List HippoNode → List Decoded
  unfolding decrypt
  decode_all key [] = []
  decode_all key (frag ∷ rest) =
      record { cid = frag.cid; epoch = frag.epoch; text = decrypt n frag.ciphertext key }
      ∷ decode_all key rest

  -- POST /v1/reconstruct
  unfoldable pub reconstruct :
      Node → Option Text → Text → Option Text → ℕ → Db → Reply Reconstruction
  unfolding find_stack head_links recall decode_all memory_token epoch_key
  reconstruct node master stack_id sleeve_id depth db = elim (find_stack stack_id db.stacks) [
    | none ↦ error 404 (codes "stack not found")
    | some stack ↦ elim (head_links stack.episodic_head) [
      | [] ↦ ok (record { fragments = []; broken = []; fidelity = 1000000 })
      | head ∷ others ↦
          elim (recall node (record {
            root_cid = head;
            stack_id = stack.id;
            epoch = stack.epoch;
            depth = depth;
            memory_token = memory_token sleeve_id depth db.sleeves;
          })) [
            | none ↦ thrown
            | some r ↦ ok (record {
              fragments = decode_all (epoch_key n stack.id stack.epoch master) r.fragments;
              broken = r.broken;
              fidelity = r.fidelity;
            })
          ]
    ]
  ]
