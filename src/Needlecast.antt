-- ===== src/Needlecast.antt =====
-- services/needlecast-router-svc/src/server.ts: the transfer between two sleeves of a stack, as steps
-- with an undo list. Which of the calls that leave the service succeed is the argument `Calls`; a
-- database call that throws changes nothing. What the pins of the shards do to the memory node is not
-- seen: their errors are caught. A token amount is in halves.
pub mod Rows
pub mod Transfers
pub mod Failures
use dhf.Base.{
  ℕ, ◌-◌, Option, none, some, Bool, true, false, List, [], ◌∷◌, ◌++◌, map, Text, text_eq,
  if◌then◌else◌, codes, ltb, length, not,
}
use dhf.Crypto.{text, sha256hex}
use dhf.Crypto.Primitives.{Noble}
use dhf.Chain.Hippocampus.{Node, HippoNode, recall}
use dhf.Registry.{
  Stack, Sleeve, World, Event, Reply, ok, error, amount, whole, find_stack, find_sleeve,
  update_sleeve,
}
use dhf.Siyana.Sleeves.{head_links}

-- whether the call of the step succeeds, in the order of the steps
pub record Calls : Type 0 where
  pub freeze : Bool
  pub publish : Bool
  pub reconstruct : Bool
  pub settle : Bool
  pub unfreeze : Bool
  pub undo : Bool

pub record Transfer : Type 0 where
  pub route : Text
  pub shards : ℕ

abbrev pub routing_cost : ℕ
routing_cost = whole 5

-- A write that the database takes, or throws at.
unfoldable pub write : Bool → Text → (Sleeve → Sleeve) → World → Option World
unfolding update_sleeve
write up k f w =
    if up
    then elim (update_sleeve k f w.db) [ none ↦ none | some db' ↦ some (record w { db = db' }) ]
    else none

abbrev pub set_alive : Bool → Sleeve → Sleeve
set_alive b row = record row { alive = b }

abbrev pub reset : Stack → Sleeve → Sleeve → Sleeve
reset stack target row = record row {
  drift = 0;
  sync_epoch = stack.epoch;
  tokens = record target.tokens { routing = some (amount target.tokens.routing - 0) };
}

abbrev pub pay : Sleeve → Sleeve → Sleeve
pay source row = record row {
  tokens = record source.tokens { routing = some (amount source.tokens.routing - routing_cost) };
}

abbrev pub failed : Reply Transfer
failed = error 500 (codes "needlecast_failed")

-- The undo list holds the one entry of the first step.
unfoldable pub roll_back : Bool → Sleeve → World → World
unfolding write
roll_back up source w = elim (write up source.id (set_alive true) w) [ none ↦ w | some w' ↦ w' ]

unfoldable pub cids : List HippoNode → List Text
cids [] = []
cids (f ∷ rest) = f.cid ∷ cids rest

module _ (n : Noble) (node : Node) where
  -- the shards of step 2
  unfoldable pub shards_of : Stack → Option (List Text)
  unfolding recall cids head_links
  shards_of stack = elim (head_links stack.episodic_head) [
    | [] ↦ some []
    | head ∷ others ↦
        elim (recall node (record {
          root_cid = head;
          stack_id = stack.id;
          epoch = stack.epoch;
          depth = 8;
          memory_token = whole 1000;
        })) [ none ↦ none | some r ↦ some (cids r.fragments) ]
  ]

  -- The steps inside the `try`. Each continues with the registry of the step before.
  unfoldable pub saga : Calls → Sleeve → Sleeve → Stack → World → Reply Transfer × World
  unfolding write roll_back shards_of sha256hex
  saga calls source target stack w =
      let route = sha256hex n (text (source.id ++ target.id ++ stack.id)) in
      elim (write calls.freeze source.id (set_alive false) w) [
        | none ↦ (failed, w)
        | some w1 ↦ elim (shards_of stack) [
          | none ↦ (failed, roll_back calls.undo source w1)
          | some shards ↦
              let event = Event.needlecast_route source.id target.id stack.id shards in
              let w2 : World = record w1 { events = w1.events ++ event ∷ [] } in
              if not calls.publish
              then (failed, roll_back calls.undo source w1)
              else elim (write calls.reconstruct target.id (reset stack target) w2) [
                | none ↦ (failed, roll_back calls.undo source w2)
                | some w3 ↦ elim (write calls.settle source.id (pay source) w3) [
                  | none ↦ (failed, roll_back calls.undo source w3)
                  | some w4 ↦ elim (write calls.unfreeze source.id (set_alive true) w4) [
                    | none ↦ (failed, roll_back calls.undo source w4)
                    | some w5 ↦ (ok (record { route = route; shards = length shards }), w5)
                  ]
                ]
              ]
        ]
      ]

  -- POST /needlecast
  unfoldable pub needlecast : Calls → Text → Text → World → Reply Transfer × World
  unfolding find_sleeve find_stack saga
  needlecast calls from to w = elim (find_sleeve from w.sleeves) [
    | none ↦ (error 404 (codes "sleeve not found"), w)
    | some source ↦ elim (find_sleeve to w.sleeves) [
      | none ↦ (error 404 (codes "sleeve not found"), w)
      | some target ↦
          if not (text_eq source.stack_id target.stack_id)
          then (error 409 (codes "stack_mismatch"), w)
          else elim (find_stack source.stack_id w.stacks) [
            | none ↦ (error 404 (codes "stack not found"), w)
            | some stack ↦
                if ltb (amount source.tokens.routing) routing_cost
                then (error 402 (codes "routing_token_exhausted"), w)
                else saga calls source target stack w
          ]
    ]
  ]
