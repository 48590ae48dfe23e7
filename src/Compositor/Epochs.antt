-- ===== src/Compositor/Epochs.antt =====
-- Which fragments a reconstruction can read.
use dhf.Base.{
  ℕ, ◌≡◌, refl, Option, some, Bool, true, List, [], ◌∷◌, map, Text, Bytes, IsBytes, All, length,
}
use dhf.Crypto.Primitives.{Noble, HashLaws, CipherLaws, decodable}
use dhf.Crypto.Merkle.{text}
use dhf.Crypto.Cipher.{encrypt, epoch_key}
use dhf.Crypto.Cipher.RoundTrip.{decrypt-encrypt_same}
use dhf.Chain.Hippocampus.{Node, HippoNode, recall}
use dhf.Registry.{Stack, Db, ok, find_stack}
use dhf.Siyana.Sleeves.{head_links}
use dhf.Compositor.{decode_all, memory_token, reconstruct}

-- A memory as it was written: its name, the text, the epoch it was written in, the random bytes,
-- and what the node says of it.
pub record Written : Type 0 where
  pub cid : Text
  pub content : Text
  pub epoch : ℕ
  pub iv : Bytes
  pub links : List Text
  pub kind : Text
  pub pinned : Bool

-- A memory of an epoch that can be read again.
pub record IsOf (epoch : ℕ) (m : Written) : Type 0 where
  pub same_epoch : m.epoch ≡ epoch
  pub plain : decodable m.content ≡ true
  pub length-iv : length m.iv ≡ 12
  pub iv-IsBytes : IsBytes m.iv

-- The node that a memory was stored as.
abbrev pub node_of : Noble → Text → Option Text → Written → HippoNode
node_of n stack_id master m = record {
  cid = m.cid;
  ciphertext = encrypt n (text m.content) (epoch_key n stack_id m.epoch master) m.iv;
  links = m.links;
  epoch = m.epoch;
  kind = m.kind;
  pinned = m.pinned;
  stack_id = stack_id;
}

module _ (n : Noble) (hashes : HashLaws n) (ciphers : CipherLaws n) (master : Option Text) where
  decode_all-written :
      (stack_id : Text) (epoch : ℕ) (memories : List Written)
      → All (IsOf epoch) memories
      → decode_all n (epoch_key n stack_id epoch master) (map (node_of n stack_id master) memories)
        ≡ map (λ m. record { cid = m.cid; epoch = m.epoch; text = some m.content }) memories
  unfolding decode_all epoch_key
  decode_all-written stack_id epoch [] v = refl
  decode_all-written stack_id epoch (m ∷ rest) (v, vs) =
      rw
        (
          v.same_epoch,
          decrypt-encrypt_same n hashes ciphers m.content _ m.iv v.plain (ciphers.length-key _ _ _)
              v.length-iv (ciphers.key-IsBytes _ _ _) v.iv-IsBytes,
          decode_all-written stack_id epoch rest vs,
        )
        refl

  -- Where the memory node recalls, from the head of a stack, memories that were all written in the
  -- stack's present epoch, with well-formed texts and 12 random bytes each, a reconstruction answers
  -- with each of them, in order, under its cid, with its epoch and its text, and with the broken links
  -- and the fidelity that the node gives.
  pub reconstruct-written :
      (node : Node) (sleeve_id : Option Text) (depth : ℕ) (db : Db) (stack_id : Text)
      (stack : Stack) (head : Text) (memories : List Written) (broken : List Text) (fidelity : ℕ)
      → find_stack stack_id db.stacks ≡ some stack
      → head_links stack.episodic_head ≡ head ∷ []
      → recall node (record {
        root_cid = head;
        stack_id = stack.id;
        epoch = stack.epoch;
        depth = depth;
        memory_token = memory_token sleeve_id depth db.sleeves;
      })
        ≡ some (record {
          fragments = map (node_of n stack.id master) memories;
          broken = broken;
          fidelity = fidelity;
        })
      → All (IsOf stack.epoch) memories
      → reconstruct n node master stack_id sleeve_id depth db
        ≡ ok (record {
          fragments =
              map (λ m. record { cid = m.cid; epoch = m.epoch; text = some m.content }) memories;
          broken = broken;
          fidelity = fidelity;
        })
  unfolding reconstruct
  reconstruct-written node sleeve_id depth db stack_id stack head memories broken fidelity known
        linked recalled v =
      rw (reconstruct, known, linked, recalled, decode_all-written stack.id stack.epoch memories v)
        refl
