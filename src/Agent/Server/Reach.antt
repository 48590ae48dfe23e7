-- ===== src/Agent/Server/Reach.antt =====
-- The states that the server can come to, and what holds of the agents in them.
use dhf.Base.{
  ℕ, ◌≡◌, ◌<◌, ◌+◌, inl, inr, refl, Option, some, Bool, ◌||◌, List, [], Text, text_eq_iff, is_empty,
  arith, Bool-cases, Option-cases,
}
use dhf.Crypto.Primitives.{Noble}
use dhf.Address.Grammar.{SemanticGrammar}
use dhf.Memory.{StoreConfig, Dag}
use dhf.Agent.{Message}
use dhf.Agent.Inference.{InferenceConfig}
use dhf.Registry.{Reply, ok}
use dhf.Agent.Loop.{AgentResult, Inferred, fresh, build_result}
use dhf.Agent.Loop.Budget.{Frugal, run-tokens}
use dhf.Agent.Server.{
  CreateAgent, RecallBody, Hosted, Runtime, agents_get, agents_set, positive, unknown_tool,
  create_agent, left, publish_completed, run_agent, store_memory, recall_memory, get_memory,
}
use dhf.Agent.Server.Runs.{agents_get-agents_set, run-fresh, Ended-cases}

-- An agent that stands under its own id, and has a step and a token to spend.
abbrev pub IsServed : Text → Hosted → Type 0
IsServed id a = (a.config.id ≡ id) × (0 < a.config.max_steps) × (0 < a.config.token_budget)

abbrev pub AreServed : List (Text × Hosted) → Type 0
AreServed agents = (id : Text) (a : Hosted) → agents_get id agents ≡ some a → IsServed id a

-- Before the first request.
abbrev pub booted : Runtime
booted = record { agents = []; cache = []; published = [] }

booted-AreServed : AreServed booted.agents
unfolding agents_get
booted-AreServed id a h = absurd (ground (arith, h))

positive-lt : (d k : ℕ) (o : Option ℕ) → 0 < d → positive d o ≡ some k → 0 < k
unfolding positive
positive-lt d k o low h = ground (arith, low, h)

agents_set-AreServed :
    (id : Text) (a : Hosted) (agents : List (Text × Hosted))
    → IsServed id a
    → AreServed agents
    → AreServed (agents_set id a agents)
agents_set-AreServed id a agents ours w j b h =
    ground (arith, text_eq_iff id j, ours, w j b, agents_get-agents_set id j a agents, h)

create_agent-AreServed :
    (inference : InferenceConfig) (body : CreateAgent) (s : Runtime)
    → AreServed s.agents
    → AreServed (create_agent inference body s).1.agents
unfolding create_agent
create_agent-AreServed inference body s w =
    elim (Bool-cases (is_empty body.id || is_empty body.name || is_empty body.system_prompt)) [
      | inl e ↦ rw (create_agent, e) w
      | inr e ↦ elim (Option-cases (positive 20 body.max_steps)) [
        | inl f ↦ rw (create_agent, e, f) w
        | inr (most, f) ↦ elim (Option-cases (positive 100000 body.token_budget)) [
          | inl g ↦ rw (create_agent, e, f, g) w
          | inr (budget, g) ↦
              rw (create_agent, e, f, g)
                (agents_set-AreServed body.id _ s.agents
                  (
                    refl,
                    positive-lt 20 most body.max_steps (omega arith) f,
                    positive-lt 100000 budget body.token_budget (omega arith) g,
                  )
                  w)
        ]
      ]
    ]

unchanged :
    (agents agents' : List (Text × Hosted))
    → agents' ≡ agents
    → AreServed agents
    → AreServed agents'
unchanged agents agents' same w id a h = w id a (rw same at h)

module _ (n : Noble) (config : StoreConfig) (dag : Dag) where
  run_agent-AreServed :
      (clock : ℕ → ℕ) (bus : Bool) (infer : ℕ → List Message → Inferred) (id task : Text)
      (s : Runtime) (reply : Reply AgentResult) (s' : Runtime)
      → run_agent n config dag clock bus infer id task s ≡ some (reply, s')
      → AreServed s.agents
      → AreServed s'.agents
  unfolding run_agent publish_completed
  run_agent-AreServed clock bus infer id task s reply s' h w =
      elim (Option-cases (agents_get id s.agents)) [
        | inl e ↦ unchanged s.agents s'.agents (ground (arith, rw (run_agent, e) at h)) w
        | inr (a, e) ↦ elim (Bool-cases (is_empty task)) [
          | inl f ↦ unchanged s.agents s'.agents (ground (arith, rw (run_agent, e, f) at h)) w
          | inr f ↦
              (let (end, r, ended, bound, ends) = run-fresh n config dag clock bus infer a task s in
                let same : s'.agents ≡ (left id a r s).agents = elim (Ended-cases end) [
                  | inl (t, g) ↦ ground (arith, rw (run_agent, e, f, ended, g) at h)
                  | inr g ↦ ground (arith, rw (run_agent, e, f, ended, g) at h)
                ] in
                unchanged (left id a r s).agents s'.agents same
                  (agents_set-AreServed id _ s.agents (w id a e) w))
        ]
      ]

  store_memory-agents :
      (grammar : SemanticGrammar) (content : Text) (now : ℕ) (s : Runtime)
      → (store_memory n config dag grammar content now s).1.agents ≡ s.agents
  unfolding store_memory
  store_memory-agents grammar content now s = ground arith

  recall_memory-agents :
      (body : RecallBody) (now : ℕ) (s : Runtime)
      → (recall_memory n config dag body now s).1.agents ≡ s.agents
  unfolding recall_memory
  recall_memory-agents body now s = ground arith

  get_memory-agents :
      (address : Text) (now : ℕ) (s : Runtime)
      → (get_memory n config dag address now s).1.agents ≡ s.agents
  unfolding get_memory
  get_memory-agents address now s = ground arith

  -- What the requests since the start can have made of the server; every model, clock and bus.
  pub data Reaches : Runtime → Type 0 where
    started : Reaches booted
    created :
        (inference : InferenceConfig) (body : CreateAgent) (s : Runtime)
        → Reaches s
        → Reaches (create_agent inference body s).1
    ran :
        (clock : ℕ → ℕ) (bus : Bool) (infer : ℕ → List Message → Inferred) (id task : Text)
        (s : Runtime) (reply : Reply AgentResult) (s' : Runtime)
        → run_agent n config dag clock bus infer id task s ≡ some (reply, s')
        → Reaches s
        → Reaches s'
    stored :
        (grammar : SemanticGrammar) (content : Text) (now : ℕ) (s : Runtime)
        → Reaches s
        → Reaches (store_memory n config dag grammar content now s).1
    recalled :
        (body : RecallBody) (now : ℕ) (s : Runtime)
        → Reaches s
        → Reaches (recall_memory n config dag body now s).1
    got :
        (address : Text) (now : ℕ) (s : Runtime)
        → Reaches s
        → Reaches (get_memory n config dag address now s).1

  -- In every state that the server can come to, each agent stands under its own id, and has a step and
  -- a token to spend.
  Reaches-AreServed : (s : Runtime) → Reaches s → AreServed s.agents
  Reaches-AreServed _ started = booted-AreServed
  Reaches-AreServed _ (created inference body s before) =
      create_agent-AreServed inference body s (Reaches-AreServed s before)
  Reaches-AreServed _ (ran clock bus infer id task s reply s' h before) =
      run_agent-AreServed clock bus infer id task s reply s' h (Reaches-AreServed s before)
  Reaches-AreServed _ (stored grammar content now s before) =
      unchanged s.agents _ (store_memory-agents grammar content now s) (Reaches-AreServed s before)
  Reaches-AreServed _ (recalled body now s before) =
      unchanged s.agents _ (recall_memory-agents body now s) (Reaches-AreServed s before)
  Reaches-AreServed _ (got address now s before) =
      unchanged s.agents _ (get_memory-agents address now s) (Reaches-AreServed s before)

  -- In every state that the server can come to, a run whose answers use at most `k` tokens each
  -- reports fewer tokens than the agent's budget raised by `k`.
  pub run_agent-tokens :
      (clock : ℕ → ℕ) (bus : Bool) (infer : ℕ → List Message → Inferred) (k : ℕ) (id task : Text)
      (s : Runtime) (a : Hosted) (result : AgentResult) (s' : Runtime)
      → Reaches s
      → Frugal infer k
      → agents_get id s.agents ≡ some a
      → run_agent n config dag clock bus infer id task s ≡ some (ok result, s')
      → result.tokens_used < a.config.token_budget + k
  unfolding run_agent build_result fresh
  run_agent-tokens clock bus infer k id task s a result s' reached frugal known h =
      elim (Bool-cases (is_empty task)) [
        | inl f ↦ absurd (ground (arith, rw (run_agent, known, f) at h))
        | inr f ↦
            (let (mine, step, token) = Reaches-AreServed s reached id a known in
              let (end, r, ended, bound, ends) = run-fresh n config dag clock bus infer a task s in
              let spent : r.total_tokens < a.config.token_budget + k =
                run-tokens n config dag unknown_tool clock a.config infer k frugal task
                  (fresh a.config s.cache) end r (omega (arith, token)) ended in
              elim (Ended-cases end) [
                | inl (t, g) ↦ ground (arith, spent, rw (run_agent, known, f, ended, g) at h)
                | inr g ↦ absurd (ground (arith, rw (run_agent, known, f, ended, g) at h))
              ])
      ]
