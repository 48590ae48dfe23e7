-- ===== src/Workers/Drifts.antt =====
-- The events of drift, and the measures of consumption.
use dhf.Base.{
  ℕ, ◌≡◌, ◌+◌, ◌*◌, refl, List, [], ◌∷◌, Text, text_eq, text_eq_iff, if◌then◌else◌, arith,
}
use dhf.Registry.{Sleeve, Event, whole}
use dhf.Siyana.{desync}
use dhf.Workers.{drift_events, Consumed, Meter, bump, used, measure, measure_all}

-- the sleeves that the events of drift name, in order
unfoldable drifting : List Event → List (Text × Text × ℕ)
drifting [] = []
drifting (Event.sleeve_drift k stack drift ∷ rest) = (k, stack, drift) ∷ drifting rest
drifting (_ ∷ rest) = drifting rest

-- The detector names, by its events of drift, exactly the sleeves that the gateway lists as
-- desynchronised for the same bound, with their drifts and in the same order.
drift_events-desync :
    (max now : ℕ) (l : List Sleeve) → drifting (drift_events max now l) ≡ desync max l
unfolding drift_events desync drifting
drift_events-desync max now [] = refl
drift_events-desync max now (s ∷ rest) = ground (arith, drift_events-desync max now rest)

-- the perceptions, the fragments recalled and the routes of a stack among the events
unfoldable pub perceptions : Text → List Event → ℕ
perceptions k [] = 0
perceptions k (Event.sleeve_perceive sleeve stack cid ∷ rest) =
    let more = perceptions k rest in if text_eq stack k then 1 + more else more
perceptions k (_ ∷ rest) = perceptions k rest

unfoldable pub routes : Text → List Event → ℕ
routes k [] = 0
routes k (Event.needlecast_route source target stack shards ∷ rest) =
    let more = routes k rest in if text_eq stack k then 1 + more else more
routes k (_ ∷ rest) = routes k rest

used-bump :
    (k j : Text) (add : Consumed → Consumed) (m : Meter)
    → used k (bump j add m) ≡ (if text_eq j k then add (used k m) else used k m)
unfolding used bump
used-bump k j add [] = refl
used-bump k j add ((i, c) ∷ rest) =
    ground (arith, text_eq_iff i j, text_eq_iff i k, text_eq_iff j k, used-bump k j add rest)

-- The meter counts half a compute token for each perception of a stack and five routing tokens for
-- each of its routes, whatever the other events between them and the other stacks.
measure_all-counts :
    (k : Text) (events : List Event) (m : Meter)
    → ((used k (measure_all events m)).compute ≡ (used k m).compute + perceptions k events)
      × ((used k (measure_all events m)).routing ≡ (used k m).routing + 10 * routes k events)
unfolding measure_all measure perceptions routes
measure_all-counts k [] m = (omega arith, omega arith)
measure_all-counts k (Event.sleeve_perceive a b c ∷ rest) m = ground (
  arith,
  used-bump k b (λ c. record c { compute = c.compute + 1 }) m,
  measure_all-counts k rest (bump b (λ c. record c { compute = c.compute + 1 }) m),
)
measure_all-counts k (Event.memory_recall a b c d ∷ rest) m = ground (
  arith,
  used-bump k a (λ x. record x { memory = x.memory + whole c }) m,
  measure_all-counts k rest (bump a (λ x. record x { memory = x.memory + whole c }) m),
)
measure_all-counts k (Event.needlecast_route a b c d ∷ rest) m = ground (
  arith,
  used-bump k c (λ c. record c { routing = c.routing + whole 5 }) m,
  measure_all-counts k rest (bump c (λ c. record c { routing = c.routing + whole 5 }) m),
)
measure_all-counts k (Event.stack_created a b c d e f ∷ rest) m = measure_all-counts k rest m
measure_all-counts k (Event.sleeve_spawned a b c d ∷ rest) m = measure_all-counts k rest m
measure_all-counts k (Event.sleeve_decommissioned a b ∷ rest) m = measure_all-counts k rest m
measure_all-counts k (Event.sleeve_drift a b c ∷ rest) m = measure_all-counts k rest m
measure_all-counts k (Event.sleeve_desync a b c d ∷ rest) m = measure_all-counts k rest m
measure_all-counts k (Event.epoch_transition a b ∷ rest) m = measure_all-counts k rest m
measure_all-counts k (Event.residue_detected a b ∷ rest) m = measure_all-counts k rest m
