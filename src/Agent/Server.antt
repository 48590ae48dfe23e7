-- ===== src/Agent/Server.antt =====
-- services/agent-runtime/src/server.ts: the agents that were created, the runs, and the memory
-- endpoints. The store of memories is one for all agents: its cache is in the state. A request that its
-- schema refuses is an exception, and so is one that a handler throws at.

pub mod Runs
pub mod Reach
use dhf.Base.{
  ℕ, ◌+◌, ◌==◌, ◌&&◌, ◌||◌, Option, none, some, Bool, true, false, not, List, [], ◌∷◌, ◌++◌, Text,
  text_eq, is_empty, if◌then◌else◌, codes, or_else, length, ltb, leb,
}
use dhf.Crypto.Primitives.{Noble}
use dhf.Crypto.Cid.{is_hex_digit, each}
use dhf.Address.Grammar.{SemanticGrammar}
use dhf.Address.Book.{Entries}
use dhf.Registry.{Reply, ok, error, thrown}
use dhf.Memory.{MemoryEntry, MemoryQuery, StoreConfig, Dag, store, recall, get, cache_size}
use dhf.Agent.{Message, ToolCall}
use dhf.Agent.Inference.{InferenceConfig, Provider}
use dhf.Agent.Tools.{Status, Run, ToolReply, returned}
use dhf.Agent.Loop.{
  AgentConfig, AgentResult, Inferred, Ended, output, threw, fresh, build_result, run,
}

-- The bodies, as far as they are checked; a number that is left out has its default.
pub record CreateAgent : Type 0 where
  pub id : Text
  pub name : Text
  pub system_prompt : Text
  pub max_steps : Option ℕ
  pub token_budget : Option ℕ

pub record RecallBody : Type 0 where
  pub grammar : Option SemanticGrammar
  pub text : Option Text
  pub limit : Option ℕ

-- An agent: its configuration, and the status of its last run.
pub record Hosted : Type 0 where
  pub config : AgentConfig
  pub instance_status : Option Status

-- `ecca.agent.completed`
pub record Completed : Type 0 where
  pub agent_id : Text
  pub task : Text
  pub status : Status
  pub steps : ℕ

-- The agents in their `Map`, the cache of the memory store, and what went to the bus, newest first.
pub record Runtime : Type 0 where
  pub agents : List (Text × Hosted)
  pub cache : Entries MemoryEntry
  pub published : List Completed

pub record Created : Type 0 where
  pub id : Text
  pub name : Text
  pub model : Text
  pub provider : Provider

pub record AgentInfo : Type 0 where
  pub id : Text
  pub name : Text
  pub max_steps : ℕ
  pub token_budget : ℕ
  pub status : Status

pub record Info : Type 0 where
  pub model : Text
  pub provider : Provider
  pub agents : ℕ
  pub memory_cache_size : ℕ

-- `Map.get` and `Map.set`, where a new key comes last
unfoldable pub agents_get : Text → List (Text × Hosted) → Option Hosted
agents_get id [] = none
agents_get id ((j, a) ∷ rest) = if text_eq j id then some a else agents_get id rest

unfoldable pub agents_set : Text → Hosted → List (Text × Hosted) → List (Text × Hosted)
agents_set id a [] = (id, a) ∷ []
agents_set id a ((j, b) ∷ rest) =
    let more = agents_set id a rest in if text_eq j id then (j, a) ∷ rest else (j, b) ∷ more

-- `z.number().int().positive().default(d)`
unfoldable pub positive : ℕ → Option ℕ → Option ℕ
positive d none = some d
positive d (some k) = if k == 0 then none else some k

-- the handler of the tools from outside that the server gives every agent
unfoldable pub unknown_tool : ToolCall → ToolReply
unknown_tool call = returned (codes "Unknown tool: " ++ call.name)

-- `/^[0-9a-f]{64}$/i`
unfoldable pub is_address : Text → Bool
unfolding each is_hex_digit
is_address t = length t == 64 && each (λ c. is_hex_digit c || leb b'A' c && leb c b'F') t

-- POST /agents
unfoldable pub create_agent : InferenceConfig → CreateAgent → Runtime → Reply Created × Runtime
unfolding positive agents_set
create_agent inference body s =
    if is_empty body.id || is_empty body.name || is_empty body.system_prompt
    then (thrown, s)
    else elim (positive 20 body.max_steps) [
      | none ↦ (thrown, s)
      | some most ↦ elim (positive 100000 body.token_budget) [
        | none ↦ (thrown, s)
        | some budget ↦ (
          ok (record {
            id = body.id;
            name = body.name;
            model = inference.model;
            provider = inference.provider;
          }),
          record s {
            agents =
                agents_set body.id
                  (record {
                    config = record {
                      id = body.id;
                      name = body.name;
                      system_prompt = body.system_prompt;
                      max_steps = most;
                      token_budget = budget;
                    };
                    instance_status = none;
                  })
                  s.agents;
          },
        )
      ]
    ]

-- GET /agents/:id
unfoldable pub get_agent : Text → Runtime → Reply AgentInfo
unfolding agents_get
get_agent id s = elim (agents_get id s.agents) [
  | none ↦ error 404 (codes "Agent not found")
  | some a ↦ ok (record {
    id = a.config.id;
    name = a.config.name;
    max_steps = a.config.max_steps;
    token_budget = a.config.token_budget;
    status = or_else a.instance_status Status.idle;
  })
]

-- GET /info
unfoldable pub info : InferenceConfig → Runtime → Info
unfolding cache_size
info inference s = record {
  model = inference.model;
  provider = inference.provider;
  agents = length s.agents;
  memory_cache_size = cache_size s.cache;
}

-- the state that a run of an agent leaves
abbrev pub left : Text → Hosted → Run → Runtime → Runtime
left id a r s = record s {
  agents = agents_set id (record a { instance_status = some r.status }) s.agents;
  cache = r.cache;
}

-- `bus.publishLight` of the end of a run, where there is a bus
unfoldable pub publish_completed : Bool → Text → Text → Run → Runtime → Runtime
publish_completed bus id task r s = record s {
  published =
      if bus
      then record { agent_id = id; task = task; status = r.status; steps = r.step } ∷ s.published
      else s.published;
}

module _ (n : Noble) (config : StoreConfig) (dag : Dag) where
  -- POST /memory/store
  unfoldable pub store_memory : SemanticGrammar → Text → ℕ → Runtime → Reply MemoryEntry × Runtime
  unfolding store
  store_memory grammar content now s =
      if is_empty content
      then (thrown, s)
      else elim (store n config dag grammar content none now s.cache) [
        | none ↦ (thrown, s)
        | some p ↦ (ok p.0, record s { cache = p.1 })
      ]

  -- POST /memory/recall
  unfoldable pub recall_memory : RecallBody → ℕ → Runtime → Reply (List MemoryEntry × ℕ) × Runtime
  unfolding positive recall
  recall_memory body now s = elim (positive 20 body.limit) [
    | none ↦ (thrown, s)
    | some most ↦
        (let (found, cache') =
            recall n config dag
              (record {
                grammar = body.grammar;
                text = body.text;
                limit = some most;
                min_depth = none;
              })
              now s.cache in
          let s' : Runtime = record s { cache = cache' } in
          elim found [ none ↦ (thrown, s') | some entries ↦ (ok (entries, length entries), s') ])
  ]

  -- GET /memory/:address
  unfoldable pub get_memory : Text → ℕ → Runtime → Reply MemoryEntry × Runtime
  unfolding is_address get
  get_memory address now s =
      if not (is_address address)
      then (error 400 (codes "Invalid address — must be 64 hex chars"), s)
      else let (found, cache') = get n config dag address now s.cache in
        let s' : Runtime = record s { cache = cache' } in
        elim found [
          | none ↦ (thrown, s')
          | some none ↦ (error 404 (codes "Memory not found"), s')
          | some (some entry) ↦ (ok entry, s')
        ]

module _ (n : Noble) (config : StoreConfig) (dag : Dag) (clock : ℕ → ℕ) where
  -- POST /agents/:id/run. The bus is there or not. `none`: the run does not end.
  unfoldable pub run_agent :
      Bool
      → (ℕ → List Message → Inferred)
      → Text
      → Text
      → Runtime
      → Option (Reply AgentResult × Runtime)
  unfolding agents_get unknown_tool fresh run build_result agents_set publish_completed
  run_agent bus infer id task s = elim (agents_get id s.agents) [
    | none ↦ some (error 404 (codes "Agent not found"), s)
    | some a ↦
        if is_empty task
        then some (thrown, s)
        else elim (run n config dag unknown_tool clock a.config infer task
            (fresh a.config s.cache)) [
              | none ↦ none
              | some (threw, r) ↦ some (thrown, left id a r s)
              | some (output t, r) ↦
                  some (ok (build_result t r), publish_completed bus id task r (left id a r s))
            ]
  ]
