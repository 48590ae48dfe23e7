-- ===== src/Agent/Loop/Ends.antt =====
-- The loop ends, within its bounds.
use dhf.Base.{
  ℕ, zero, suc, ◌≡◌, ◌≤◌, ◌<◌, ◌+◌, ◌⊎◌, inl, inr, refl, ◌∙◌, some, true, not, ◌&&◌, ◌||◌, List, [],
  ◌∷◌, ◌++◌, length, Text, text_eq, is_empty, codes, leb, arith, Bool-cases, Option-cases,
}
use dhf.Crypto.Primitives.{Noble}
use dhf.Memory.{StoreConfig, Dag, MemoryQuery, MemoryEntry}
use dhf.Agent.{Role, Message, Arguments, ToolCall, InferenceResult}
use dhf.Agent.Tools.{
  Status, Run, ToolReply, handle_remember, recall_lines, handle_recall, handle_reflect,
  handle_tool_call,
}
use dhf.Agent.Loop.{
  AgentConfig, Inferred, answered, refused, Ended, output, threw, Turn, done, next, say, say_tool,
  context_block, may_go_on, exhausted, seeds, handle_all, react, turn, loop, run,
}

-- Two agents at one point of the loop: the step, the tokens and the status are the same.
abbrev pub SamePoint : Run → Run → Type 0
SamePoint r s = (s.step ≡ r.step) × (s.total_tokens ≡ r.total_tokens) × (s.status ≡ r.status)

-- A status that an agent stops in when it has an output.
pub data IsFinal : Status → Type 0 where
  on_completed : IsFinal Status.completed
  on_error : IsFinal Status.error
  on_budget_exhausted : IsFinal Status.budget_exhausted

-- What the status is in the end: final where there is an output, and as it was at an exception.
abbrev pub EndsIn : Status → Ended → Status → Type 0
EndsIn before (output t) after = IsFinal after
EndsIn before threw after = after ≡ before

EndsIn-from : (s s' t : Status) (e : Ended) → s' ≡ s → EndsIn s' e t → EndsIn s e t
EndsIn-from s s' t (output o) same ends = ends
EndsIn-from s s' t threw same ends = ends ∙ same

-- What the reaction to an answer leaves as it was.
abbrev pub Follows : Run → Turn → Type 0
Follows r (done e r') =
    (r'.step ≡ r.step) × (r'.total_tokens ≡ r.total_tokens) × EndsIn r.status e r'.status
Follows r (next r') =
    (r'.step ≡ r.step) × (r'.total_tokens ≡ r.total_tokens) × (r'.status ≡ r.status)

-- A turn is a step, whatever comes of it.
abbrev Advances : Run → Turn → Type 0
Advances r (done e r') = (r'.step ≡ r.step + 1) × EndsIn r.status e r'.status
Advances r (next r') = (r'.step ≡ r.step + 1) × (r'.status ≡ r.status)

Follows-Advances :
    (r r' : Run) (t : Turn)
    → r'.step ≡ r.step + 1
    → r'.status ≡ r.status
    → Follows r' t
    → Advances r t
Follows-Advances r r' (done (output t) s) stepped same (e, f, g) = (e ∙ stepped, g)
Follows-Advances r r' (done threw s) stepped same (e, f, g) = (e ∙ stepped, g ∙ same)
Follows-Advances r r' (next s) stepped same (e, f, g) = (e ∙ stepped, g ∙ same)

pub Inferred-cases :
    (i : Inferred) → ((r : InferenceResult) × (i ≡ answered r)) ⊎ ((t : Text) × (i ≡ refused t))
Inferred-cases (answered r) = inl (r, refl)
Inferred-cases (refused t) = inr (t, refl)

pub Turn-cases :
    (t : Turn) → ((e : Ended) × (r : Run) × (t ≡ done e r)) ⊎ ((r : Run) × (t ≡ next r))
Turn-cases (done e r) = inl (e, r, refl)
Turn-cases (next r) = inr (r, refl)

may_go_on-steps :
    (config : AgentConfig) (r : Run) → may_go_on config r ≡ true → r.step < config.max_steps
unfolding may_go_on
may_go_on-steps config r h = ground (arith, h)

exhausted-IsFinal :
    (config : AgentConfig) (r : Run)
    → EndsIn r.status (exhausted config r).0 (exhausted config r).1.status
unfolding exhausted
exhausted-IsFinal config r = elim (Bool-cases (leb config.token_budget r.total_tokens)) [
  | inl e ↦ rw e on_budget_exhausted
  | inr e ↦ rw e on_completed
]

module _ (n : Noble) (store : StoreConfig) (dag : Dag) where
  recall_lines-SamePoint :
      (now : ℕ) (asked : MemoryQuery) (nothing : Text) (r : Run)
      → SamePoint r (recall_lines n store dag now asked nothing r).1
  unfolding recall_lines
  recall_lines-SamePoint now asked nothing r = ground arith

  handle_remember-SamePoint :
      (now : ℕ) (args : Arguments) (r : Run)
      → SamePoint r (handle_remember n store dag now args r).1
  unfolding handle_remember
  handle_remember-SamePoint now args r = ground arith

  handle_tool_call-SamePoint :
      (handler : ToolCall → ToolReply) (now : ℕ) (call : ToolCall) (r : Run)
      → SamePoint r (handle_tool_call n store dag handler now call r).1
  unfolding handle_tool_call handle_recall handle_reflect
  handle_tool_call-SamePoint handler now call r =
      ground (arith, handle_remember-SamePoint now call.arguments r, recall_lines-SamePoint now)

  module _ (handler : ToolCall → ToolReply) (clock : ℕ → ℕ) where
    handle_all-SamePoint :
        (calls : List ToolCall) (r : Run)
        → SamePoint r (handle_all n store dag handler clock calls r).1
    unfolding handle_all say_tool
    handle_all-SamePoint [] r = (refl, refl, refl)
    handle_all-SamePoint (call ∷ rest) r =
        let same : SamePoint r (handle_tool_call n store dag handler (clock r.step) call r).1 =
          handle_tool_call-SamePoint handler (clock r.step) call r in
        elim (Option-cases (handle_tool_call n store dag handler (clock r.step) call r).0) [
          | inl e ↦ rw (handle_all, e) same
          | inr (t, e) ↦
              (let r' : Run =
                  say_tool call t (handle_tool_call n store dag handler (clock r.step) call r).1 in
                let further : SamePoint r' (handle_all n store dag handler clock rest r').1 =
                  handle_all-SamePoint rest r' in
                rw (handle_all, e) (further.0 ∙ same.0, further.1 ∙ same.1, further.2 ∙ same.2))
        ]

    module _ (config : AgentConfig) (infer : ℕ → List Message → Inferred) where
      pub after-react :
          (result : InferenceResult) (r : Run)
          → Follows r (react n store dag handler clock config infer result r)
      unfolding react say
      after-react result r =
          elim (Bool-cases (
            text_eq result.finish_reason (codes "stop")
            || is_empty result.tool_calls && not (is_empty result.content))) [
              | inl e ↦ rw (react, e) (refl, refl, on_completed)
              | inr e ↦ elim (Bool-cases (not (is_empty result.tool_calls))) [
                | inl f ↦
                    (let r' : Run = say Role.assistant result.content r in
                      let same : SamePoint r'
                          (handle_all n store dag handler clock result.tool_calls r').1 =
                        handle_all-SamePoint result.tool_calls r' in
                      elim (Bool-cases
                        (handle_all n store dag handler clock result.tool_calls r').0) [
                          | inl g ↦ rw (react, e, f, g) same
                          | inr g ↦ rw (react, e, f, g) same
                        ])
                | inr f ↦ elim (Bool-cases (text_eq result.finish_reason (codes "length"))) [
                  | inl g ↦ rw (react, e, f, g) (refl, refl, refl)
                  | inr g ↦ rw (react, e, f, g) (refl, refl, refl)
                ]
              ]
            ]

      turn-Advances : (r : Run) → Advances r (turn n store dag handler clock config infer r)
      unfolding turn
      turn-Advances r = elim (Inferred-cases (infer (r.step + 1) r.messages)) [
        | inl (result, e) ↦
            (let r' : Run = record r {
              step = r.step + 1;
              total_tokens = r.total_tokens + (result.prompt_tokens + result.completion_tokens);
            } in
              rw (turn, e) (Follows-Advances r r' _ refl refl (after-react result r')))
        | inr (why, e) ↦ rw (turn, e) (refl, on_error)
      ]

      loop-EndsIn :
          (fuel : ℕ) (r : Run)
          → config.max_steps < fuel + r.step
          → r.step ≤ config.max_steps
          → (e : Ended) × (r' : Run) × (loop n store dag handler clock config infer fuel r
              ≡ some (e, r'))
            × (r'.step ≤ config.max_steps)
            × EndsIn r.status e r'.status
      unfolding loop
      loop-EndsIn zero r h low = absurd (omega arith)
      loop-EndsIn (suc fuel) r h low = elim (Bool-cases (may_go_on config r)) [
        | inr f ↦ (
          (exhausted config r).0,
          (exhausted config r).1,
          rw (loop, f) refl,
          low,
          exhausted-IsFinal config r,
        )
        | inl f ↦ elim (Turn-cases (turn n store dag handler clock config infer r)) [
          | inl (e, r', g) ↦
              (let (stepped, ends) = rw g at (turn-Advances r) in
                (
                  e,
                  r',
                  rw (loop, f, g) refl,
                  ground (arith, stepped, may_go_on-steps config r f),
                  ends,
                ))
          | inr (r', g) ↦
              (let (stepped, same) = rw g at (turn-Advances r) in
                let (e, r'', ended, bound, ends) =
                  loop-EndsIn fuel r' (ground (arith, stepped, h))
                    (ground (arith, stepped, may_go_on-steps config r f)) in
                (e, r'', rw (loop, f, g) ended, bound, EndsIn-from _ _ _ e same ends))
        ]
      ]

      -- The run as the loop takes it up.
      abbrev pub started : Text → List MemoryEntry → Run → Run
      started task entries r = say Role.user (task ++ context_block entries) (record r {
        status = Status.running;
        cache = (seeds n store dag handler clock task r).1;
        memories_recalled = r.memories_recalled + length entries;
      })

      -- Every run of an agent whose steps are not beyond the most ends, whatever the model answers and
      -- the tools do, with the fuel that `run` gives: with an output, and then the status is
      -- completed, error or budget exhausted; or with an exception, and then it is still running. The
      -- steps are at most `maxSteps`.
      pub run-EndsIn :
          (task : Text) (r : Run)
          → r.step ≤ config.max_steps
          → (e : Ended) × (r' : Run) × (run n store dag handler clock config infer task r
              ≡ some (e, r'))
            × (r'.step ≤ config.max_steps)
            × EndsIn Status.running e r'.status
      unfolding run say
      run-EndsIn task r low = elim (Option-cases (seeds n store dag handler clock task r).0) [
        | inl f ↦ (
          threw,
          record r { status = Status.running; cache = (seeds n store dag handler clock task r).1 },
          rw (run, f) refl,
          low,
          refl,
        )
        | inr (entries, f) ↦
            (let (e, r', ended, bound, ends) =
                loop-EndsIn (config.max_steps + 1) (started task entries r) (omega arith) low in
              (e, r', rw (run, f) ended, bound, ends))
      ]
