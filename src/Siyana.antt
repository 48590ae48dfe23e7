-- ===== src/Siyana.antt =====
-- services/siyana-api/src/server.ts: the gateway's operations on stacks and sleeves. A handler takes
-- the registry and the events, the body, what the clock and the random source give, and whether the
-- bus takes the event; the database answers every call, except that the transaction of `perceive`
-- may fail. `thrown` is an exception in the handler.
pub mod Sleeves
pub mod Stacks
pub mod Reads
use dhf.Base.{
  ℕ, ◌+◌, ◌-◌, Option, none, some, Bool, true, false, List, [], ◌∷◌, ◌++◌, Text, Bytes, text_eq,
  is_empty, if◌then◌else◌, codes, ltb, length, take, or_else, map,
}
use dhf.Base.Decimal.{to_decimal}
use dhf.Registry.{
  EmbodimentType, Tokens, Stack, Sleeve, Db, World, Event, Reply, ok, error, thrown, amount,
  alive_of, find_stack, find_sleeve,
}

-- The names of the kinds of sleeve.
unfoldable pub embodiment_name : EmbodimentType → Text
embodiment_name EmbodimentType.human = codes "human"
embodiment_name EmbodimentType.ai = codes "ai"
embodiment_name EmbodimentType.mining = codes "mining"
embodiment_name EmbodimentType.memory = codes "memory"

-- DEFAULT_BALANCE of packages/proto/src/tokens.ts, in halves
abbrev pub default_memory : ℕ
default_memory = 2000

-- 404 for a missing row
abbrev pub not_found {ℓ} : {A : Type ℓ} → Reply A
not_found = error 404 (codes "not found")

unfoldable pub get_stack : Text → Db → Reply Stack
unfolding find_stack
get_stack k db = elim (find_stack k db.stacks) [ none ↦ not_found | some s ↦ ok s ]

-- GET /v1/coordination/desync
unfoldable pub desync : ℕ → List Sleeve → List (Text × Text × ℕ)
desync max [] = []
desync max (s ∷ rest) =
    let more = desync max rest in
    if s.alive then (if ltb max s.drift then (s.id, s.stack_id, s.drift) ∷ more else more) else more

abbrev pub no_tokens : Tokens
no_tokens = record {
  compute = some 0;
  memory = some 0;
  sync = some 0;
  routing = some 0;
  residue = some 0;
}

abbrev add_amount : Option ℕ → Option ℕ → Option ℕ
add_amount total t = some (amount total + amount t)

unfoldable pub add_tokens : Tokens → Tokens → Tokens
add_tokens totals t = record {
  compute = add_amount totals.compute t.compute;
  memory = add_amount totals.memory t.memory;
  sync = add_amount totals.sync t.sync;
  routing = add_amount totals.routing t.routing;
  residue = add_amount totals.residue t.residue;
}

unfoldable pub sum_tokens : Tokens → List Sleeve → Tokens
unfolding add_tokens
sum_tokens totals [] = totals
sum_tokens totals (s ∷ rest) = sum_tokens (add_tokens totals s.tokens) rest

-- GET /v1/tokens/balances/:stackId
unfoldable pub balances : Text → Db → Reply (Text × Tokens)
unfolding find_stack sum_tokens alive_of
balances k db = elim (find_stack k db.stacks) [
  | none ↦ not_found
  | some s ↦ ok (s.id, sum_tokens no_tokens (alive_of s.id db.sleeves))
]
