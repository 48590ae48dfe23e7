-- ===== src/Workers/Nodes.antt =====
-- workers/runner/src/server.ts: the workers that call the nodes: the epoch anchor, the memory
-- reconciler, the pinning service. What a pin answers is dropped, so a turn gives the pins it asks for.
use dhf.Base.{
  ℕ, ◌+◌, ◌==◌, ◌≤◌, Option, none, some, Bool, true, false, List, [], ◌∷◌, ◌++◌, Text, is_empty,
  if◌then◌else◌, or_else, take, length, length-append, arith,
}
use dhf.Chain.Hippocampus.{Node, recall}
use dhf.Chain.Medulla.{Pow, get_latest_anchor}
use dhf.Registry.{Stack}

-- a row of `anchor`
pub record Anchor : Type 0 where
  pub epoch : ℕ
  pub height : ℕ
  pub block_hash : Text
  pub cross_root : Text
  pub evm_root : Text
  pub ipfs_root : Text
  pub sleeves_root : Text
  pub synaptic_field_root : Text

-- The subscription of `epochAnchor`; `written` is that the database takes the row.
unfoldable pub on_epoch_anchor : Pow → Bool → ℕ → List Anchor → List Anchor
unfolding get_latest_anchor
on_epoch_anchor pow written epoch anchors = elim (get_latest_anchor pow) [
  | none ↦ anchors
  | some a ↦
      if written
      then anchors
        ++ record {
          epoch = epoch;
          height = a.height;
          block_hash = a.block_hash;
          cross_root = a.cross_root;
          evm_root = a.evm_root;
          ipfs_root = a.ipfs_root;
          sleeves_root = a.sleeves_root;
          synaptic_field_root = a.synaptic_field_root;
        }
          ∷ []
      else anchors
]

-- `cid.includes('#')`
unfoldable pub has_hash : Text → Bool
has_hash [] = false
has_hash (c ∷ cs) = let rest = has_hash cs in if c == b'#' then true else rest

unfoldable pub to_pin : List Text → List Text
unfolding has_hash
to_pin [] = []
to_pin (cid ∷ rest) = let more = to_pin rest in if has_hash cid then more else cid ∷ more

-- the stacks with a head
unfoldable pub headed : List Stack → List (Stack × Text)
headed [] = []
headed (s ∷ rest) =
    let more = headed rest in elim s.episodic_head [ none ↦ more | some head ↦ (s, head) ∷ more ]

-- what `recall` says is broken below a head; an error is nothing broken
unfoldable pub broken_of : Node → Stack → Text → List Text
unfolding recall
broken_of node s head =
    if is_empty head
    then []
    else elim (recall node (record {
      root_cid = head;
      stack_id = s.id;
      epoch = s.epoch;
      depth = 4;
      memory_token = 200;
    })) [ none ↦ [] | some r ↦ r.broken ]

-- the loop: the pins that are asked for, and the count of what is called healed
unfoldable pub reconcile_all : Node → List (Stack × Text) → List Text × ℕ
unfolding broken_of to_pin
reconcile_all node [] = ([], 0)
reconcile_all node ((s, head) ∷ rest) =
    let broken = broken_of node s head in
    let (pins, healed) = reconcile_all node rest in (to_pin broken ++ pins, length broken + healed)

-- the subscription of `memoryReconciler`
unfoldable pub reconcile : Node → List Stack → List Text × ℕ
unfolding headed reconcile_all
reconcile node stacks = reconcile_all node (take 100 (headed stacks))

-- the subscription of `pinningService`
unfoldable pub on_route : Option (List Text) → List Text
on_route shards = or_else shards []

to_pin-length : (cids : List Text) → length (to_pin cids) ≤ length cids
unfolding to_pin
to_pin-length [] = omega arith
to_pin-length (cid ∷ rest) = ground (arith, to_pin-length rest)

-- The pins that are asked for are at most as many as what is counted as healed.
reconcile_all-counts :
    (node : Node) (stacks : List (Stack × Text))
    → length (reconcile_all node stacks).0 ≤ (reconcile_all node stacks).1
unfolding reconcile_all
reconcile_all-counts node [] = omega arith
reconcile_all-counts node ((s, head) ∷ rest) = omega (
  arith,
  to_pin-length (broken_of node s head),
  length-append (to_pin (broken_of node s head)) (reconcile_all node rest).0,
  reconcile_all-counts node rest,
)
