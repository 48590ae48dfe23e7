-- ===== src/Agent/Loop.antt =====
-- `Agent.run` of services/agent-runtime/src/agent.ts. The model is an argument: its answer to the
-- messages at a step. So are the clock, by the step, and the handler of the tools from outside.
pub mod Ends
pub mod Budget
pub mod Reacts
use dhf.Base.{
  ℕ, zero, suc, ◌+◌, ◌-◌, Option, none, some, Bool, true, false, not, ◌&&◌, ◌||◌, List, [], ◌∷◌,
  ◌++◌, map, Text, text_eq, is_empty, if◌then◌else◌, codes, or_else, length, ltb, leb,
}
use dhf.Crypto.Primitives.{Noble}
use dhf.Address.Grammar.Describe.Keywords.{parse_description}
use dhf.Address.Book.{Entries}
use dhf.Memory.{MemoryEntry, StoreConfig, Dag, recall}
use dhf.Agent.{Role, Message, ToolCall, InferenceResult}
use dhf.Agent.Tools.{Status, Run, ToolReply, memory_lines, handle_tool_call}

-- The tools and their handler are arguments where they are used.
pub record AgentConfig : Type 0 where
  pub id : Text
  pub name : Text
  pub system_prompt : Text
  pub max_steps : ℕ
  pub token_budget : ℕ

-- `inference.complete`: a result, or the text of the error.
pub data Inferred : Type 0 where
  answered : InferenceResult → Inferred
  refused : Text → Inferred

-- How `run` ends: with an output, or with an exception.
pub data Ended : Type 0 where
  output : Text → Ended
  threw : Ended

pub data Turn : Type 0 where
  done : Ended → Run → Turn
  next : Run → Turn

pub record AgentResult : Type 0 where
  pub output_text : Text
  pub stored : ℕ
  pub recalled : ℕ
  pub steps : ℕ
  pub tokens_used : ℕ
  pub final_status : Status

unfoldable pub build_result : Text → Run → AgentResult
build_result t r = record {
  output_text = t;
  stored = r.memories_stored;
  recalled = r.memories_recalled;
  steps = r.step;
  tokens_used = r.total_tokens;
  final_status = r.status;
}

unfoldable pub say : Role → Text → Run → Run
say role t r = record r {
  messages =
      r.messages ++ record { role = role; content = t; name = none; tool_call_id = none } ∷ [];
}

unfoldable pub say_tool : ToolCall → Text → Run → Run
say_tool call t r = record r {
  messages =
      r.messages
      ++ record {
        role = Role.tool;
        content = t;
        name = some call.name;
        tool_call_id = some call.id;
      }
        ∷ [];
}

-- `messages.filter(m => m.role === 'assistant').pop()`
unfoldable pub last_assistant : Option Text → List Message → Option Text
last_assistant before [] = before
last_assistant before (m ∷ rest) =
    last_assistant (elim m.role [ Role.assistant ↦ some m.content | _ ↦ before ]) rest

-- The agent before its first task.
unfoldable pub fresh : AgentConfig → Entries MemoryEntry → Run
fresh config cache = record {
  messages =
      record {
        role = Role.system;
        content = config.system_prompt;
        name = none;
        tool_call_id = none;
      }
      ∷ [];
  total_tokens = 0;
  step = 0;
  status = Status.idle;
  memories_stored = 0;
  memories_recalled = 0;
  cache = cache;
}

-- the condition of the `while`
unfoldable pub may_go_on : AgentConfig → Run → Bool
may_go_on config r = ltb r.step config.max_steps && ltb r.total_tokens config.token_budget

-- What follows the loop.
unfoldable pub exhausted : AgentConfig → Run → Ended × Run
unfolding last_assistant
exhausted config r = (
  Ended.output (or_else (last_assistant none r.messages) (codes "(no output — budget exhausted)")),
  record r {
    status =
        if leb config.token_budget r.total_tokens
        then Status.budget_exhausted
        else Status.completed;
  },
)

-- the messages of the memories for a task
unfoldable pub context_block : List MemoryEntry → Text
unfolding memory_lines
context_block entries =
    if is_empty entries
    then []
    else (10 ∷ 10 ∷ codes "<relevant_memories>" ++ 10 ∷ [])
      ++ memory_lines entries
      ++ (10 ∷ codes "</relevant_memories>")

module _ (n : Noble) (store : StoreConfig) (dag : Dag) (handler : ToolCall → ToolReply)
    (clock : ℕ → ℕ) where
  -- The calls of an answer, in order; an exception leaves the others undone.
  unfoldable pub handle_all : List ToolCall → Run → Bool × Run
  unfolding handle_tool_call say_tool
  handle_all [] r = (true, r)
  handle_all (call ∷ rest) r =
      let (reply, r') = handle_tool_call n store dag handler (clock r.step) call r in
      elim reply [ none ↦ (false, r') | some t ↦ handle_all rest (say_tool call t r') ]

  -- the memories for a task, and the cache that is left
  unfoldable pub seeds : Text → Run → Option (List MemoryEntry) × Entries MemoryEntry
  unfolding recall parse_description
  seeds task r =
      recall n store dag
        (record {
          grammar = some (parse_description task);
          text = none;
          limit = some 5;
          min_depth = none;
        })
        (clock 0) r.cache

  module _ (config : AgentConfig) (infer : ℕ → List Message → Inferred) where
    -- what the loop's body makes of an answer
    unfoldable pub react : InferenceResult → Run → Turn
    unfolding say handle_all
    react result r =
        if text_eq result.finish_reason (codes "stop")
          || is_empty result.tool_calls && not (is_empty result.content)
        then done (Ended.output result.content)
            (record (say Role.assistant result.content r) { status = Status.completed })
        else if not (is_empty result.tool_calls)
        then (let (went, r') = handle_all result.tool_calls (say Role.assistant result.content r) in
            if went then next r' else done Ended.threw r')
        else if text_eq result.finish_reason (codes "length")
        then next (say Role.assistant result.content r)
        else next r

    -- one turn of the loop
    unfoldable pub turn : Run → Turn
    unfolding react
    turn r0 =
        let r : Run = record r0 { step = r0.step + 1 } in
        elim (infer r.step r.messages) [
          | refused why ↦ done (Ended.output why) (record r { status = Status.error })
          | answered result ↦ react result (record r {
            total_tokens = r.total_tokens + (result.prompt_tokens + result.completion_tokens);
          })
        ]

    -- The loop, on fuel; `none` is that the fuel ran out.
    unfoldable pub loop : ℕ → Run → Option (Ended × Run)
    unfolding turn may_go_on exhausted
    loop zero r = none
    loop (suc fuel) r =
        if may_go_on config r
        then elim (turn r) [ done e r' ↦ some (e, r') | next r' ↦ loop fuel r' ]
        else some (exhausted config r)

    -- `run`, with one turn of fuel for each step and one for the end
    unfoldable pub run : Text → Run → Option (Ended × Run)
    unfolding seeds loop context_block say
    run task r0 =
        let (found, cache') = seeds task r0 in
        let r : Run = record r0 { status = Status.running; cache = cache' } in
        elim found [
          | none ↦ some (Ended.threw, r)
          | some entries ↦ loop (config.max_steps + 1) (
              say Role.user (task ++ context_block entries)
                (record r { memories_recalled = r.memories_recalled + length entries }))
        ]
