-- ===== src/Events.antt =====
-- packages/proto/src/events.ts: the schemas of the events on the bus. A record is what a schema infers,
-- and its test is what the schema checks beyond the types. `V` is the type of the values that the schemas leave open.
pub mod Identifiers
pub mod Patterns
pub mod Published
use dhf.Base.{
  ℕ, ◌+◌, ◌*◌, ◌%◌, ◌==◌, ◌&&◌, ◌||◌, ◌>>=◌, not, Option, none, some, Bool, true, false, List, [],
  ◌∷◌, Text, codes, leb, ltb, length, take, drop, is_empty, if◌then◌else◌,
}
use dhf.Base.Decimal.{is_digit}
use dhf.Crypto.Cid.{is_hex_digit, each, behind, scheme}
use dhf.Registry.{EmbodimentType}
use dhf.Workers.{ResidueKind}
use dhf.Events.Patterns.{
  is_lower, past, some_of, past_id, is_id, is_stack_id, is_sleeve_id, is_epoch_suffix,
  is_hash_suffix, is_cid, is_root, Number, natural, is_int, is_nonnegative, is_fraction, optional,
}

pub record StackCreated : Type 0 where
  pub stack_id : Text
  pub name : Text
  pub kind : Text
  pub token_id : Number
  pub pubkey : Text
  pub ts : Number

pub record SleeveSpawned : Type 0 where
  pub sleeve_id : Text
  pub stack_id : Text
  pub embodiment_type : EmbodimentType
  pub ts : Number

pub record SleeveDecommissioned : Type 0 where
  pub sleeve_id : Text
  pub stack_id : Text
  pub ts : Number

pub record PerceiveEvent : Type 0 where
  pub sleeve_id : Text
  pub stack_id : Text
  pub cid : Text
  pub compute_cost : Number
  pub ts : Number

pub record RecallEvent : Type 0 where
  pub stack_id : Text
  pub sleeve_id : Option Text
  pub root_cid : Text
  pub fidelity : Number
  pub fragments : Number
  pub broken : Number
  pub ts : Number

pub record NeedlecastEvent : Type 0 where
  pub stack_id : Text
  pub from_sleeve : Text
  pub to_sleeve : Text
  pub merkle_root : Text
  pub epoch : Number
  pub fidelity : Number
  pub ts : Number

pub record DriftEvent : Type 0 where
  pub sleeve_id : Text
  pub stack_id : Text
  pub drift : Number
  pub threshold : Number
  pub ts : Number

pub record DesyncEvent : Type 0 where
  pub stack_id : Option Text
  pub sleeves : List (Text × Number)
  pub ts : Number

pub record ResidueDetected (V : Type 0) : Type 0 where
  pub residue_id : Text
  pub kind : ResidueKind
  pub stack_id : Option Text
  pub evidence : List (Text × V)
  pub bounty_estimate : Number
  pub ts : Number

pub record ResidueResolved : Type 0 where
  pub residue_id : Text
  pub resolver_stack : Text
  pub proof_tx_hash : Text
  pub payout : Number
  pub ts : Number

pub record EpochTransition : Type 0 where
  pub epoch : Number
  pub block_hash : Text
  pub cross_root : Text
  pub evm_root : Text
  pub ipfs_root : Text
  pub sleeves_root : Text
  pub difficulty : Number
  pub ts : Number

pub record Chains : Type 0 where
  pub evm : Text
  pub btc : Text
  pub ipfs : Text
  pub sleeves : Text

pub record CoordinationTick : Type 0 where
  pub cross_root : Text
  pub chains : Chains
  pub ts : Number

-- EccaEvent
pub data EccaEvent (V : Type 0) : Type 0 where
  stack_created : StackCreated → EccaEvent V
  sleeve_spawned : SleeveSpawned → EccaEvent V
  sleeve_decommissioned : SleeveDecommissioned → EccaEvent V
  sleeve_perceive : PerceiveEvent → EccaEvent V
  memory_recall : RecallEvent → EccaEvent V
  needlecast : NeedlecastEvent → EccaEvent V
  sleeve_drift : DriftEvent → EccaEvent V
  cross_chain_desync : DesyncEvent → EccaEvent V
  residue_detected : ResidueDetected V → EccaEvent V
  residue_resolved : ResidueResolved → EccaEvent V
  epoch_transition : EpochTransition → EccaEvent V
  coordination_tick : CoordinationTick → EccaEvent V

-- the literal of the field `type`
unfoldable pub type_of : {V : Type 0} → EccaEvent V → Text
type_of (stack_created e) = codes "stack.created"
type_of (sleeve_spawned e) = codes "sleeve.spawned"
type_of (sleeve_decommissioned e) = codes "sleeve.decommissioned"
type_of (sleeve_perceive e) = codes "sleeve.perceive"
type_of (memory_recall e) = codes "memory.recall"
type_of (needlecast e) = codes "needlecast"
type_of (sleeve_drift e) = codes "sleeve.drift"
type_of (cross_chain_desync e) = codes "cross-chain.desync"
type_of (residue_detected e) = codes "residue.detected"
type_of (residue_resolved e) = codes "residue.resolved"
type_of (epoch_transition e) = codes "epoch.transition"
type_of (coordination_tick e) = codes "coordination.tick"

unfoldable pub all_drifts : List (Text × Number) → Bool
unfolding is_sleeve_id
all_drifts [] = true
all_drifts ((k, drift) ∷ rest) = is_sleeve_id k && all_drifts rest

-- What the union accepts.
unfoldable pub accepts : {V : Type 0} → EccaEvent V → Bool
unfolding is_stack_id is_sleeve_id is_cid is_root is_int is_nonnegative is_fraction optional
    all_drifts
accepts (stack_created e) = is_stack_id e.stack_id && is_int e.token_id
accepts (sleeve_spawned e) = is_sleeve_id e.sleeve_id && is_stack_id e.stack_id
accepts (sleeve_decommissioned e) = is_sleeve_id e.sleeve_id && is_stack_id e.stack_id
accepts (sleeve_perceive e) = is_sleeve_id e.sleeve_id && is_stack_id e.stack_id && is_cid e.cid
accepts (memory_recall e) =
    is_stack_id e.stack_id
    && optional is_sleeve_id e.sleeve_id
    && is_cid e.root_cid
    && is_fraction e.fidelity
    && is_int e.fragments
    && is_int e.broken
accepts (needlecast e) =
    is_stack_id e.stack_id
    && is_sleeve_id e.from_sleeve
    && is_sleeve_id e.to_sleeve
    && is_root e.merkle_root
    && is_int e.epoch
    && is_nonnegative e.epoch
accepts (sleeve_drift e) = is_sleeve_id e.sleeve_id && is_stack_id e.stack_id
accepts (cross_chain_desync e) = optional is_stack_id e.stack_id && all_drifts e.sleeves
accepts (residue_detected e) = optional is_stack_id e.stack_id
accepts (residue_resolved e) = is_stack_id e.resolver_stack
accepts (epoch_transition e) = is_int e.epoch && is_nonnegative e.epoch
accepts (coordination_tick e) = true
