-- ===== src/Siyana/Sleeves.antt =====
-- The sleeves' operations of services/siyana-api/src/server.ts: spawn, decommission, perceive, sync.
-- A token amount is in halves.
pub mod Perceive
use dhf.Base.{
  ℕ, ◌+◌, ◌-◌, Option, none, some, Bool, true, List, [], ◌∷◌, ◌++◌, Text, Bytes, text_eq,
  if◌then◌else◌, codes, ltb, length, take, drop, false, ◌>>=◌,
}
use dhf.Base.Decimal.{to_decimal}
use dhf.Crypto.{text, sha256hex}
use dhf.Crypto.Merkle.{text as leaf_text}
use dhf.Crypto.Primitives.{Noble}
use dhf.Crypto.Cipher.{encrypt, epoch_key}
use dhf.Chain.Hippocampus.{Node, put, NodeKind}
use dhf.Registry.{
  EmbodimentType, Tokens, Stack, Sleeve, Db, World, Event, Reply, ok, error, thrown, amount,
  find_stack, find_sleeve, update_sleeve, update_stack, publish_or_drop, whole,
}
use dhf.Siyana.{embodiment_name, not_found}

unfoldable pub count_sleeves : Text → List Sleeve → ℕ
count_sleeves k [] = 0
count_sleeves k (s ∷ rest) =
    let more = count_sleeves k rest in if text_eq s.stack_id k then 1 + more else more

-- `stack.episodicHead ? [stack.episodicHead] : []`
unfoldable pub head_links : Option Text → List Text
head_links none = []
head_links (some []) = []
head_links (some (c ∷ cs)) = (c ∷ cs) ∷ []

-- DELETE /v1/sleeves/:id
unfoldable pub decommission : Text → Bool → World → Reply Bool × World
unfolding update_sleeve find_sleeve publish_or_drop
decommission k up w = elim (update_sleeve k (λ row. record row { alive = false }) w.db) [
  | none ↦ (not_found, w)
  | some db' ↦ elim (find_sleeve k db'.sleeves) [
    | none ↦ (not_found, w)
    | some s ↦ (
      ok true,
      publish_or_drop up (Event.sleeve_decommissioned s.id s.stack_id) (record w { db = db' }),
    )
  ]
]

-- POST /v1/sleeves/:id/sync
unfoldable pub sync : Text → ℕ → World → Reply ℕ × World
unfolding find_sleeve find_stack update_sleeve
sync k now w = elim (find_sleeve k w.sleeves) [
  | none ↦ (not_found, w)
  | some s ↦ elim (find_stack s.stack_id w.stacks) [
    | none ↦ (error 404 (codes "stack gone"), w)
    | some stack ↦
        if ltb (amount s.tokens.sync) (whole 1)
        then (error 402 (codes "sync_token_exhausted"), w)
        else elim (update_sleeve s.id
            (λ row. record row {
              drift = 0;
              sync_epoch = stack.epoch;
              last_sync = now;
              tokens = record s.tokens { sync = some (amount s.tokens.sync - whole 1) };
            })
            w.db) [ none ↦ (thrown, w) | some db' ↦ (ok stack.epoch, record w { db = db' }) ]
  ]
]

-- What `perceive` has in hand after it has read the registry and stored the thought.
pub record Perceived : Type 0 where
  pub sleeve : Sleeve
  pub stack : Stack
  pub cid : Text
  pub thought : Text

module _ (n : Noble) where
  -- POST /v1/sleeves
  unfoldable pub spawn :
      Text → EmbodimentType → Option Text → ℕ → Bool → World → Reply Sleeve × World
  unfolding find_stack count_sleeves embodiment_name publish_or_drop sha256hex
  spawn stack_id kind hostname now up w = elim (find_stack stack_id w.stacks) [
    | none ↦ (error 404 (codes "stack not found"), w)
    | some stack ↦
        let s : Sleeve = record {
          id =
              codes "sleeve:"
              ++ embodiment_name kind
              ++ codes ":"
              ++ to_decimal (count_sleeves stack.id w.sleeves + 1)
              ++ codes ":"
              ++ take 8 (sha256hex n (text (stack.id ++ to_decimal now)));
          stack_id = stack.id;
          embodiment_type = kind;
          alive = true;
          drift = 0;
          sync_epoch = stack.epoch;
          last_sync = now;
          tokens = record {
            compute = some (whole 250);
            memory = some (whole 250);
            sync = some (whole 250);
            routing = some (whole 250);
            residue = some 0;
          };
          hostname = hostname;
        } in
        elim (find_sleeve s.id w.sleeves) [
          | some old ↦ (thrown, w)
          | none ↦ (
            ok s,
            publish_or_drop up (Event.sleeve_spawned s.id s.stack_id kind now)
                (record w { db = record w.db { sleeves = w.sleeves ++ s ∷ [] } }),
          )
        ]
  ]

  module _ (node : Node) (master : Option Text) where
    -- POST /v1/sleeves/:id/perceive, up to the stored node
    unfoldable pub perceive_start : Text → Text → Bytes → World → Reply Perceived
    unfolding find_sleeve find_stack embodiment_name head_links put epoch_key encrypt
    perceive_start k input iv w = elim (find_sleeve k w.sleeves) [
      | none ↦ not_found
      | some s ↦ elim (find_stack s.stack_id w.stacks) [
        | none ↦ error 404 (codes "stack gone")
        | some stack ↦
            let thought =
              codes "["
              ++ embodiment_name s.embodiment_type
              ++ codes "@"
              ++ drop (length s.id - 6) s.id
              ++ codes "] "
              ++ input in
            let stored = put node (record {
              stack_id = stack.id;
              epoch = stack.epoch;
              ciphertext =
                  encrypt n (leaf_text thought) (epoch_key n stack.id stack.epoch master) iv;
              links = head_links stack.episodic_head;
              kind = NodeKind.episodic;
              pinned = none;
            }) in
            if ltb (amount s.tokens.compute) (whole 1)
            then error 402 (codes "compute_token_exhausted")
            else elim stored [
              | none ↦ thrown
              | some cid ↦ ok (record { sleeve = s; stack = stack; cid = cid; thought = thought })
            ]
      ]
    ]

  -- The transaction, the event and the answer. The transaction writes both rows or none.
  unfoldable pub perceive_commit : Perceived → Bool → Bool → World → Reply (Text × Text) × World
  unfolding update_stack update_sleeve publish_or_drop
  perceive_commit p committed up w =
      let written =
        update_stack p.stack.id (λ row. record row { episodic_head = some p.cid }) w.db >>= λ db'.
        update_sleeve p.sleeve.id
          (λ row. record row {
            drift = row.drift + 1;
            tokens = record p.sleeve.tokens { compute = some (amount p.sleeve.tokens.compute - 1) };
          })
          db' in
      if committed
      then elim written [
        | none ↦ (thrown, w)
        | some db' ↦ (
          ok (p.cid, p.thought),
          publish_or_drop up (Event.sleeve_perceive p.sleeve.id p.stack.id p.cid)
              (record w { db = db' }),
        )
      ]
      else (thrown, w)

  module _ (node : Node) (master : Option Text) where
    -- POST /v1/sleeves/:id/perceive
    unfoldable pub perceive :
        Text → Text → Bytes → Bool → Bool → World → Reply (Text × Text) × World
    unfolding perceive_start perceive_commit
    perceive k input iv committed up w = elim (perceive_start node master k input iv w) [
      | ok p ↦ perceive_commit p committed up w
      | error status why ↦ (error status why, w)
      | thrown ↦ (thrown, w)
    ]
