-- ===== src/Siyana/Stacks.antt =====
-- The stacks' operations of services/siyana-api/src/server.ts: create, remember, recall. A token
-- amount is in halves and a fraction in millionths.

pub mod Chains
use dhf.Base.{
  ℕ, ◌≡◌, ◌≤◌, ◌+◌, ◌-◌, ◌||◌, Option, none, some, Bool, true, false, List, [], ◌∷◌, ◌++◌, Text,
  Bytes, text_eq, is_empty, if◌then◌else◌, codes, ltb, leb, length, take, or_else,
}
use dhf.Base.Decimal.{to_decimal}
use dhf.Crypto.{text, sha256hex}
use dhf.Crypto.Merkle.{text as leaf_text}
use dhf.Crypto.Primitives.{Noble}
use dhf.Crypto.Cipher.{IdentityKeypair, encrypt, epoch_key}
use dhf.Chain.Hippocampus.{Node, NodeKind, HippoNode, HippoPutInput, put, recall as hippo_recall}
use dhf.Registry.{
  Stack, World, Event, Reply, ok, error, thrown, find_stack, update_stack, publish_or_drop,
}
use dhf.Siyana.{not_found, default_memory}
use dhf.Siyana.Sleeves.{head_links}

-- What `recall` answers.
pub record Recollection : Type 0 where
  pub fragments : List HippoNode
  pub broken : List Text
  pub fidelity : ℕ

module _ (n : Noble) where
  -- POST /v1/stacks; the key pair is what `genIdentityKeypair` draws. The identifier and the token's
  -- number are unique columns.
  unfoldable pub create_stack :
      Text → Text → IdentityKeypair → ℕ → Bool → World → Reply (Stack × Text) × World
  unfolding sha256hex publish_or_drop find_stack
  create_stack name kind kp now up w =
      let token_id_hint = length w.stacks + 1 in
      let s : Stack = record {
        id =
            codes "stack:"
            ++ kind
            ++ codes ":"
            ++ to_decimal token_id_hint
            ++ codes ":"
            ++ take 12 (sha256hex n (text (name ++ to_decimal now)));
        token_id = token_id_hint;
        name = name;
        kind = kind;
        pub_key = kp.pub_hex;
        epoch = 0;
        cpv = record {
          compute_coeff = 1000000;
          memory_coeff = 1000000;
          sync_coeff = 1000000;
          routing_coeff = 1000000;
          residue_coeff = 1000000;
        };
        binding = record { decay_rate = 50000; floor = 250000 };
        episodic_head = none;
      } in
      if is_empty name || ltb 64 (length name)
      then (thrown, w)
      else elim (find_stack s.id w.stacks) [
        | some old ↦ (thrown, w)
        | none ↦ (
          ok (s, kp.priv_hex),
          publish_or_drop up (Event.stack_created s.id s.name s.kind s.token_id kp.pub_hex now)
              (record w { db = record w.db { stacks = w.stacks ++ s ∷ [] } }),
        )
      ]

module _ (node : Node) where
  module _ (n : Noble) (master : Option Text) where
    -- the body of `hippo.put`
    unfoldable pub memory_input : Stack → Text → Bool → Bytes → HippoPutInput
    unfolding head_links epoch_key encrypt
    memory_input stack content pin iv = record {
      stack_id = stack.id;
      epoch = stack.epoch;
      ciphertext = encrypt n (leaf_text content) (epoch_key n stack.id stack.epoch master) iv;
      links = head_links stack.episodic_head;
      kind = NodeKind.episodic;
      pinned = some pin;
    }

    -- POST /v1/stacks/:id/remember
    unfoldable pub remember : Text → Text → Bool → Bytes → World → Reply Text × World
    unfolding find_stack update_stack put memory_input
    remember k content pin iv w =
        if is_empty content then (thrown, w) else elim (find_stack k w.stacks) [
          | none ↦ (not_found, w)
          | some stack ↦ elim (put node (memory_input stack content pin iv)) [
            | none ↦ (thrown, w)
            | some cid ↦
                elim (update_stack stack.id (λ row. record row { episodic_head = some cid }) w.db) [
                  | none ↦ (thrown, w)
                  | some db' ↦ (ok cid, record w { db = db' })
                ]
          ]
        ]

  -- GET /v1/stacks/:id/recall; the depth and the memory token are numbers of the query.
  unfoldable pub recall : Text → Option ℕ → Option ℕ → Bool → World → Reply Recollection × World
  unfolding find_stack hippo_recall publish_or_drop
  recall k depth memory_token up w = elim (find_stack k w.stacks) [
    | none ↦ (not_found, w)
    | some stack ↦ elim (head_links stack.episodic_head) [
      | [] ↦ (ok (record { fragments = []; broken = []; fidelity = 1000000 }), w)
      | head ∷ others ↦
          let asked = or_else depth 6 in
          elim (hippo_recall node (record {
            root_cid = head;
            stack_id = stack.id;
            epoch = stack.epoch;
            depth = (if leb asked 32 then asked else 32);
            memory_token = or_else memory_token default_memory;
          })) [
            | none ↦ (thrown, w)
            | some r ↦ (
              ok (record { fragments = r.fragments; broken = r.broken; fidelity = r.fidelity }),
              publish_or_drop up
                  (Event.memory_recall stack.id head (length r.fragments) (length r.broken)) w,
            )
          ]
    ]
  ]
