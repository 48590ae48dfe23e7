-- ===== src/Workers.antt =====
-- workers/runner/src/server.ts: the drift detector, the residue collector and the bandwidth
-- meter. The bus takes every event and the database every row, except that a residue
-- whose identifier is there is not written again. Token amounts are in halves.
pub mod Drifts
pub mod Nodes
use dhf.Base.{
  ℕ, ◌+◌, ◌*◌, Option, none, some, Bool, true, false, List, [], ◌∷◌, ◌++◌, Text, text_eq,
  if◌then◌else◌, codes, ltb,
}
use dhf.Base.Decimal.{to_decimal}
use dhf.Crypto.{text, sha256hex}
use dhf.Crypto.Primitives.{Noble}
use dhf.Registry.{Sleeve, Event, whole}

-- the turn of `driftDetector` on the rows of its query
unfoldable pub drift_events : ℕ → ℕ → List Sleeve → List Event
drift_events max now [] = []
drift_events max now (s ∷ rest) =
    let more = drift_events max now rest in
    let desynced =
      if ltb (max * 2) s.drift then Event.sleeve_desync s.id s.stack_id s.drift now ∷ [] else [] in
    if s.alive
    then (if ltb max s.drift
        then Event.sleeve_drift s.id s.stack_id s.drift ∷ (desynced ++ more)
        else more)
    else more

pub data ResidueKind : Type 0 where
  stale_ordering speculative_divergence historical_non_canonical reorg_orphan shard_loss :
      ResidueKind

pub record Residue : Type 0 where
  pub id : Text
  pub kind : ResidueKind
  pub stack_id : Text
  pub sleeve_id : Text
  pub payout_est : ℕ

-- `residue.create`, whose error on a taken identifier is caught
unfoldable pub add_residue : Residue → List Residue → List Residue
add_residue r [] = r ∷ []
add_residue r (old ∷ rest) =
    let more = add_residue r rest in if text_eq old.id r.id then old ∷ rest else old ∷ more

module _ (n : Noble) where
  -- the subscription of `residueCollector` to a desync: the sleeve, the stack and the time
  unfoldable pub on_desync : Text → Text → ℕ → List Residue × List Event → List Residue × List Event
  unfolding add_residue sha256hex
  on_desync sleeve_id stack_id ts (residues, events) =
      let id = sha256hex n (text (codes "desync:" ++ sleeve_id ++ codes ":" ++ to_decimal ts)) in
      (
        add_residue
            (record {
              id = id;
              kind = ResidueKind.speculative_divergence;
              stack_id = stack_id;
              sleeve_id = sleeve_id;
              payout_est = 5;
            })
            residues,
        events ++ Event.residue_detected id stack_id ∷ [],
      )

  -- its subscription to a transition of the epoch
  unfoldable pub on_epoch_stale : ℕ → List Sleeve → List Residue → List Residue
  unfolding add_residue sha256hex
  on_epoch_stale epoch [] residues = residues
  on_epoch_stale epoch (s ∷ rest) residues =
      let added =
        add_residue
          (record {
            id = sha256hex n (text (codes "stale:" ++ s.id ++ codes ":" ++ to_decimal epoch));
            kind = ResidueKind.stale_ordering;
            stack_id = s.stack_id;
            sleeve_id = s.id;
            payout_est = 2;
          })
          residues in
      let kept = on_epoch_stale epoch rest residues in
      let more = on_epoch_stale epoch rest added in
      if s.alive then (if ltb (s.sync_epoch + 4) epoch then more else kept) else kept

-- what `bandwidthMeter` counts for a stack
pub record Consumed : Type 0 where
  pub compute : ℕ
  pub memory : ℕ
  pub routing : ℕ
  pub sync : ℕ

abbrev pub Meter : Type 0
Meter = List (Text × Consumed)

abbrev pub nothing : Consumed
nothing = record { compute = 0; memory = 0; routing = 0; sync = 0 }

unfoldable pub bump : Text → (Consumed → Consumed) → Meter → Meter
bump k add [] = (k, add nothing) ∷ []
bump k add ((j, c) ∷ rest) =
    let more = bump k add rest in if text_eq j k then (j, add c) ∷ rest else (j, c) ∷ more

unfoldable pub used : Text → Meter → Consumed
used k [] = nothing
used k ((j, c) ∷ rest) = if text_eq j k then c else used k rest

-- The three subscriptions: a perception costs half a compute token, a recall one memory token for
-- each fragment, a route five routing tokens.
unfoldable pub measure : Event → Meter → Meter
unfolding bump
measure (Event.sleeve_perceive sleeve stack cid) m =
    bump stack (λ c. record c { compute = c.compute + 1 }) m
measure (Event.memory_recall stack root fragments broken) m =
    bump stack (λ c. record c { memory = c.memory + whole fragments }) m
measure (Event.needlecast_route source target stack shards) m =
    bump stack (λ c. record c { routing = c.routing + whole 5 }) m
measure _ m = m

unfoldable pub measure_all : List Event → Meter → Meter
unfolding measure
measure_all [] m = m
measure_all (e ∷ rest) m = measure_all rest (measure e m)

-- The flush: one audit entry for each stack, and an empty meter.
unfoldable pub flush : ℕ → Meter → List (ℕ × Text × Consumed) × Meter
flush epoch [] = ([], [])
flush epoch ((k, c) ∷ rest) =
    let (entries, empty) = flush epoch rest in ((epoch, k, c) ∷ entries, empty)
