-- ===== src/Faucet.antt =====
-- services/bandwidth-faucet/src/server.ts: the grant of tokens, at most one for a stack in a period.
-- A token amount is in halves; the state is the time of each stack's last grant, beside the registry.
pub mod Grants
use dhf.Base.{
  ℕ, ◌+◌, ◌-◌, Option, none, some, Bool, true, false, List, [], ◌∷◌, Text, text_eq, if◌then◌else◌,
  codes, ltb, length, or_else,
}
use dhf.Registry.{
  Tokens, Sleeve, Db, Reply, ok, error, thrown, amount, whole, alive_of, update_sleeve,
}

abbrev pub Last : Type 0
Last = List (Text × ℕ)

unfoldable pub last_get : Text → Last → Option ℕ
last_get k [] = none
last_get k ((j, t) ∷ rest) = if text_eq j k then some t else last_get k rest

unfoldable pub last_set : Text → ℕ → Last → Last
last_set k now [] = (k, now) ∷ []
last_set k now ((j, t) ∷ rest) =
    let more = last_set k now rest in if text_eq j k then (j, now) ∷ rest else (j, t) ∷ more

-- GRANT
abbrev pub grant : Tokens
grant = record {
  compute = some (whole 100);
  memory = some (whole 100);
  sync = some (whole 50);
  routing = some (whole 50);
  residue = none;
}

unfoldable pub granted : Tokens → Tokens
granted t = record {
  compute = some (amount t.compute + amount grant.compute);
  memory = some (amount t.memory + amount grant.memory);
  sync = some (amount t.sync + amount grant.sync);
  routing = some (amount t.routing + amount grant.routing);
  residue = some (amount t.residue);
}

-- The loop over the sleeves that were read before it began.
unfoldable pub grant_all : List Sleeve → Db → Option Db
unfolding update_sleeve granted
grant_all [] db = some db
grant_all (s ∷ rest) db =
    elim (update_sleeve s.id (λ row. record row { tokens = granted s.tokens }) db) [
      | none ↦ none
      | some db' ↦ grant_all rest db'
    ]

pub record Drip : Type 0 where
  pub granted_tokens : Tokens
  pub sleeve_count : ℕ

-- The error of a rate limit carries the milliseconds to wait.
pub data DripReply : Type 0 where
  dripped : Drip → DripReply
  rate_limited : ℕ → DripReply
  no_alive_sleeves : DripReply
  drip_thrown : DripReply

-- POST /v1/faucet/drip
unfoldable pub drip : ℕ → Text → ℕ → Last × Db → DripReply × (Last × Db)
unfolding last_get last_set grant_all alive_of
drip rate_ms stack_id now (last, db) =
    let before = or_else (last_get stack_id last) 0 in
    let sleeves = alive_of stack_id db.sleeves in
    if ltb now (before + rate_ms)
    then (rate_limited ((before + rate_ms) - now), (last, db))
    else elim sleeves [
      | [] ↦ (no_alive_sleeves, (last, db))
      | s ∷ more ↦ elim (grant_all (s ∷ more) db) [
        | none ↦ (drip_thrown, (last, db))
        | some db' ↦ (
          dripped (record { granted_tokens = grant; sleeve_count = length (s ∷ more) }),
          (last_set stack_id now last, db'),
        )
      ]
    ]
