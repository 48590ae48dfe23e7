-- ===== src/Scenarios/Agents.antt =====
-- An agent that remembers, and then answers.
use dhf.Base.{
  ℕ, ◌≡◌, ◌≤◌, ◌<◌, ◌+◌, refl, some, none, true, false, List, [], ◌∷◌, ◌++◌, Text, codes, text_eq,
  arith, length, or_else, is_empty, if◌then◌else◌, ltb,
}
use dhf.Crypto.Sample.{sample}
use dhf.Memory.{StoreConfig, Dag, recall, recall_grammar, recall_remote, populate}
use dhf.Agent.{Role, Message, ToolCall, InferenceResult}
use dhf.Agent.Inference.{
  AnthropicData, tool_use, InferenceConfig, Provider, anthropic_result, block_calls, block_texts,
}
use dhf.Agent.Tools.{Status, Run, handle_tool_call, handle_recall, recall_lines}
use dhf.Agent.Loop.{
  AgentConfig, AgentResult, Inferred, answered, Ended, threw, done, next, fresh, run, say, say_tool,
  handle_all, react, seeds, loop, turn, may_go_on, context_block, build_result,
}
use dhf.Agent.Loop.Ends.{EndsIn, run-EndsIn}
use dhf.Agent.Loop.Budget.{Frugal}
use dhf.Agent.Loop.Reacts.{replies, react-replies}
use dhf.Agent.Server.{
  CreateAgent, Hosted, Runtime, unknown_tool, create_agent, agents_get, agents_set, positive,
  publish_completed, run_agent,
}
use dhf.Agent.Server.Runs.{Answers, run_agent-Answers}
use dhf.Agent.Server.Reach.{started, created, booted, run_agent-tokens}
use dhf.Registry.{Reply}

abbrev config : StoreConfig
config = record { default_limit = 20; local_cache = true }

abbrev dag : Dag
dag = record {
  dag_put = λ hex depth entry. true;
  dag_query = λ partial limit. some [];
  dag_get = λ hex. none;
}

abbrev clock : ℕ → ℕ
clock step = 100 + step

abbrev ada : AgentConfig
ada = record {
  id = codes "ada";
  name = codes "Ada";
  system_prompt = codes "Be brief.";
  max_steps = 3;
  token_budget = 50;
}

abbrev remembering : ToolCall
remembering = record { id = codes "c1"; name = codes "clock"; arguments = [] }

abbrev first_answer : InferenceResult
first_answer = record {
  content = [];
  tool_calls = remembering ∷ [];
  prompt_tokens = 20;
  completion_tokens = 10;
  finish_reason = codes "tool_calls";
}

abbrev last_answer : InferenceResult
last_answer = record {
  content = codes "Done.";
  tool_calls = [];
  prompt_tokens = 30;
  completion_tokens = 10;
  finish_reason = codes "stop";
}

abbrev model : ℕ → List Message → Inferred
model step messages = if ltb step 2 then answered first_answer else answered last_answer

start_low : (fresh ada []).step ≤ 3
unfolding fresh
start_low = omega arith

run-EndsIn_example :
    (e : Ended) × (r : Run) × (run sample config dag unknown_tool clock ada model
        (codes "go")
        (fresh ada [])
      ≡ some (e, r))
    × (r.step ≤ 3)
    × EndsIn Status.running e r.status
run-EndsIn_example =
    run-EndsIn sample config dag unknown_tool clock ada model (codes "go") (fresh ada []) start_low

abbrev after_first : Run
after_first =
    say_tool remembering (codes "Unknown tool: clock") (say Role.assistant [] (fresh ada []))

react-first_answer :
    react sample config dag unknown_tool clock ada model first_answer (fresh ada [])
    ≡ next after_first
unfolding react handle_all handle_tool_call unknown_tool say say_tool fresh text_eq
react-first_answer = refl

react-replies_example :
    (texts : List Text) × (length texts ≡ 1)
    × (after_first.messages
        ≡ (say Role.assistant [] (fresh ada [])).messages ++ replies (remembering ∷ []) texts)
react-replies_example =
    react-replies sample config dag unknown_tool clock ada model first_answer (fresh ada [])
      after_first refl react-first_answer

abbrev cut_off : InferenceResult
cut_off = record {
  content = [];
  tool_calls = [];
  prompt_tokens = 30;
  completion_tokens = 10;
  finish_reason = codes "length";
}

react-cut_off :
    react sample config dag unknown_tool clock ada model cut_off (fresh ada [])
    ≡ next (say Role.assistant [] (fresh ada []))
unfolding react say text_eq
react-cut_off = refl

-- A node that does not answer, and no cache.
abbrev dead : Dag
dead = record {
  dag_put = λ hex depth entry. false;
  dag_query = λ partial limit. none;
  dag_get = λ hex. none;
}

abbrev uncached : StoreConfig
uncached = record { default_limit = 20; local_cache = false }

abbrev recalling : AnthropicData
recalling = record {
  content = some (tool_use (codes "c2") (codes "recall") none ∷ []);
  stop_reason = some (codes "tool_use");
  input_tokens = some 5;
  output_tokens = some 5;
}

react-recalling :
    react sample uncached dead unknown_tool clock ada model
      (anthropic_result recalling)
      (fresh ada [])
    ≡ done threw (say Role.assistant [] (fresh ada []))
unfolding react handle_all handle_tool_call say text_eq anthropic_result block_calls block_texts
    handle_recall recall_lines recall recall_grammar recall_remote fresh
react-recalling = refl

used : is_empty (block_calls (or_else recalling.content [])) ≡ false
unfolding block_calls
used = refl

abbrev hosted : Hosted
hosted = record { config = ada; instance_status = none }

abbrev runtime : Runtime
runtime = record { agents = (codes "ada", hosted) ∷ []; cache = []; published = [] }

known : agents_get (codes "ada") runtime.agents ≡ some hosted
unfolding agents_get text_eq
known = refl

run_agent-Answers_example :
    (reply : Reply AgentResult) × (s : Runtime) × (run_agent sample config dag clock true model
        (codes "ada")
        (codes "go")
        runtime
      ≡ some (reply, s))
    × Answers (codes "ada") ada reply s
run_agent-Answers_example =
    run_agent-Answers sample config dag clock true model (codes "ada") (codes "go") runtime hosted
      known refl

abbrev body : CreateAgent
body = record {
  id = codes "ada";
  name = codes "Ada";
  system_prompt = codes "Be brief.";
  max_steps = some 3;
  token_budget = some 50;
}

abbrev inference : InferenceConfig
inference = record {
  provider = Provider.custom;
  base_url = codes "http://localhost:11434/v1";
  api_key = [];
  model = codes "small";
  max_tokens = 4096;
  temperature = 70;
}

abbrev brief : ℕ → List Message → Inferred
brief step messages = answered last_answer

brief-Frugal : Frugal brief 40
brief-Frugal step messages result h = ground (arith, h)

abbrev hosting : Runtime
hosting = (create_agent inference body booted).1

hosting_ada : agents_get (codes "ada") hosting.agents ≡ some hosted
unfolding create_agent agents_get agents_set positive text_eq
hosting_ada = refl

abbrev reported : AgentResult
reported = record {
  output_text = codes "Done.";
  stored = 0;
  recalled = 0;
  steps = 1;
  tokens_used = 40;
  final_status = Status.completed;
}

abbrev afterwards : Runtime
afterwards = record {
  agents = (codes "ada", record { config = ada; instance_status = some Status.completed }) ∷ [];
  cache = [];
  published =
      record { agent_id = codes "ada"; task = codes "go"; status = Status.completed; steps = 1 }
      ∷ [];
}

ran_briefly :
    run_agent sample uncached dag clock true brief (codes "ada") (codes "go") hosting
    ≡ some (Reply.ok reported, afterwards)
unfolding run_agent create_agent agents_get agents_set positive text_eq run seeds loop turn react
    say may_go_on context_block recall recall_grammar recall_remote fresh build_result
    publish_completed populate
ran_briefly = refl

run_agent-tokens_example : 40 < 50 + 40
run_agent-tokens_example =
    run_agent-tokens sample uncached dag clock true brief 40 (codes "ada") (codes "go") hosting
      hosted reported afterwards (created inference body booted started) brief-Frugal hosting_ada
      ran_briefly
