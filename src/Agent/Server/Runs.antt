-- ===== src/Agent/Server/Runs.antt =====
-- Every request for a run is answered, and what the server shows of the agents.
use dhf.Base.{
  ℕ, ◌≡◌, ◌≤◌, ◌⊎◌, inl, inr, refl, ap, ◌∙◌, some, Bool, false, List, [], ◌∷◌, Text, text_eq,
  text_eq_iff, text_eq_refl, is_empty, arith, if◌then◌else◌,
}
use dhf.Crypto.Primitives.{Noble}
use dhf.Memory.{StoreConfig, Dag}
use dhf.Agent.{Message}
use dhf.Registry.{Reply, ok, error, thrown}
use dhf.Agent.Tools.{Status, Run}
use dhf.Agent.Loop.{
  AgentConfig, AgentResult, Inferred, Ended, output, threw, fresh, build_result, run,
}
use dhf.Agent.Loop.Ends.{IsFinal, EndsIn, run-EndsIn}
use dhf.Agent.Server.{
  Hosted, Runtime, AgentInfo, agents_get, agents_set, unknown_tool, get_agent, left,
  publish_completed, run_agent,
}

pub agents_get-agents_set :
    (k j : Text) (a : Hosted) (agents : List (Text × Hosted))
    → agents_get j (agents_set k a agents) ≡ (if text_eq k j then some a else agents_get j agents)
unfolding agents_get agents_set
agents_get-agents_set k j a [] = refl
agents_get-agents_set k j a ((i, old) ∷ rest) =
    ground
      (arith, text_eq_iff k j, text_eq_iff i k, text_eq_iff i j, agents_get-agents_set k j a rest)

-- What is shown of an agent in a status.
abbrev pub shown : AgentConfig → Status → AgentInfo
shown c status = record {
  id = c.id;
  name = c.name;
  max_steps = c.max_steps;
  token_budget = c.token_budget;
  status = status;
}

-- The answer to a run: a result within the steps, in a final status, which is the one shown; or an
-- exception, and then the agent is shown as running.
abbrev pub Answers : Text → AgentConfig → Reply AgentResult → Runtime → Type 0
Answers id c (ok result) s =
    (result.steps ≤ c.max_steps)
    × IsFinal result.final_status
    × (get_agent id s ≡ ok (shown c result.final_status))
Answers id c (error status why) s = ⊥
Answers id c thrown s = get_agent id s ≡ ok (shown c Status.running)

get_agent-left :
    (id : Text) (a : Hosted) (r : Run) (s : Runtime)
    → get_agent id (left id a r s) ≡ ok (shown a.config r.status)
unfolding get_agent
get_agent-left id a r s =
    rw
      (
        get_agent,
        agents_get-agents_set id id (record a { instance_status = some r.status }) s.agents,
        text_eq_refl id,
      )
      refl

pub Ended-cases : (e : Ended) → ((t : Text) × (e ≡ output t)) ⊎ (e ≡ threw)
Ended-cases (output t) = inl (t, refl)
Ended-cases threw = inr refl

module _ (n : Noble) (config : StoreConfig) (dag : Dag) (clock : ℕ → ℕ) (bus : Bool)
    (infer : ℕ → List Message → Inferred) where
  pub run-fresh :
      (a : Hosted) (task : Text) (s : Runtime)
      → (e : Ended) × (r : Run) × (run n config dag unknown_tool clock a.config infer task
            (fresh a.config s.cache)
          ≡ some (e, r))
        × (r.step ≤ a.config.max_steps)
        × EndsIn Status.running e r.status
  unfolding fresh
  run-fresh a task s =
      run-EndsIn n config dag unknown_tool clock a.config infer task (fresh a.config s.cache)
        (omega arith)

  -- A request to run an agent that is known on a task that is not empty is answered, whatever the
  -- model, the node and the tools do: with a result, whose steps are within the agent's, in a status
  -- that is final and that the agent is shown in when the run has ended; or, at an exception, with none,
  -- and then the agent is shown as running though the run has ended.
  pub run_agent-Answers :
      (id task : Text) (s : Runtime) (a : Hosted)
      → agents_get id s.agents ≡ some a
      → is_empty task ≡ false
      → (reply : Reply AgentResult) × (s' : Runtime) × (run_agent n config dag clock bus infer id
            task s
          ≡ some (reply, s'))
        × Answers id a.config reply s'
  unfolding run_agent build_result publish_completed get_agent
  run_agent-Answers id task s a known asked =
      let (e, r, ended, bound, ends) = run-fresh a task s in
      elim (Ended-cases e) [
        | inl (t, f) ↦ (
          ok (build_result t r),
          publish_completed bus id task r (left id a r s),
          rw (run_agent, known, asked, ended, f) refl,
          (bound, rw f at ends, get_agent-left id a r s),
        )
        | inr f ↦ (
          thrown,
          left id a r s,
          rw (run_agent, known, asked, ended, f) refl,
          get_agent-left id a r s ∙ ap (λ x. ok (shown a.config x)) (rw f at ends),
        )
      ]
