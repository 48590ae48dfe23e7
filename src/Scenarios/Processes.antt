-- ===== src/Scenarios/Processes.antt =====
-- A process of a sleeve on the gateway, and a consumer whose handler fails at first.
use dhf.Base.{
  ℕ, zero, suc, ◌-◌, ◌≡◌, ◌≤◌, ◌<◌, refl, Option, some, none, true, false, Bool, List, [], ◌∷◌,
  ◌++◌, Text, text_eq, codes, take, replicate, arith,
}
use dhf.Base.Decimal.{to_decimal}
use dhf.Http.{Answer}
use dhf.Crypto.{text, sha256hex}
use dhf.Crypto.Sample.{sample}
use dhf.Registry.{EmbodimentType, Stack, Sleeve, World, find_sleeve, find_stack, publish_or_drop}
use dhf.Siyana.{embodiment_name}
use dhf.Siyana.Sleeves.{spawn, count_sleeves}
use dhf.Siyana.Reads.{list_stacks, with_sleeves}
use dhf.Embodied.{Settings, Identity, ensure_stack, boot, live}
use dhf.Embodied.Gateways.{Surroundings, siyana}
use dhf.Embodied.Lives.{live-decommissions}
use dhf.Bus.{Settled, acked, naked, consume}
use dhf.Treasury.{Emitted, on_epoch_transition}
use dhf.Bus.Consumes.{handled, consume-acked}
use dhf.Scenarios.{ada, node}

abbrev quiet : World
quiet = record { db = record { stacks = ada ∷ []; sleeves = [] }; events = [] }

abbrev around : Surroundings
around = record {
  now = 7;
  keys = record { priv_hex = codes "a"; pub_hex = codes "b" };
  iv = 7 ∷ [];
  up = true;
  committed = true;
}

abbrev settings : Settings
settings = record { kind = EmbodimentType.memory; stack_id = none; hostname = codes "h" }

abbrev me : Identity
me = record {
  sleeve_id = codes "sleeve:memory:1:" ++ take 8 (sha256hex sample (text (ada.id ++ to_decimal 7)));
  kind = EmbodimentType.memory;
  stack_id = ada.id;
  hostname = codes "h";
}

boots : (boot (siyana sample node none around) settings quiet).0 ≡ some me
unfolding boot siyana ensure_stack list_stacks with_sleeves spawn find_stack find_sleeve
    count_sleeves embodiment_name text_eq publish_or_drop to_decimal
boots = refl

abbrev inputs : List (Bool × Option (Answer (Option Text)) × Text)
inputs = (true, none, codes "one") ∷ (false, none, codes "two") ∷ []

live-decommissions_example :
    (s : Sleeve) × (find_sleeve me.sleeve_id
        (live (siyana sample node none around) settings inputs true quiet).sleeves
      ≡ some s)
    × (s.alive ≡ false)
live-decommissions_example =
    live-decommissions sample node none around settings inputs quiet true me boots

-- The treasury behind a database that does not answer the first reads of the stacks.
abbrev Outage : Type 0
Outage = ℕ × (List Emitted × List Stack)

emits : Text → Outage → Bool × Outage
unfolding on_epoch_transition
emits e (zero, state) =
    let (fine, state') =
      on_epoch_transition (λ x. 1000000 - x) 100 4 (some (λ k. (true, true))) state in
    (fine, (zero, state'))
emits e (suc k, state) =
    let (fine, state') = on_epoch_transition (λ x. 1000000 - x) 100 4 none state in
    (fine, (k, state'))

emits-fails : (t : Outage) → (emits (codes "e") t).0 ≡ false → (emits (codes "e") t).1.0 < t.0
unfolding emits
emits-fails (zero, (log, stacks)) h = cc
emits-fails (suc k, (log, stacks)) h = omega arith

abbrev down_twice : Outage
down_twice = (2, ([], ada ∷ []))

consume-acked_example :
    (tries : ℕ) × (rest : List Settled) × (tries ≤ 2)
    × ((emits
          (codes "e")
          (handled some emits (λ t. t.0) (codes "e") (codes "e") tries down_twice)).0
        ≡ true)
    × ((consume some emits (replicate 4 (codes "e")) down_twice).0
        ≡ replicate tries naked ++ acked ∷ rest)
consume-acked_example =
    consume-acked some emits (λ t. t.0) (codes "e") (codes "e") down_twice 4 refl emits-fails
      (omega arith)
