-- ===== src/Agent/Loop/Reacts.antt =====
-- What the loop makes of an answer: the calls are all answered, in order, or it was the last.
use dhf.Base.{
  ℕ, ◌≡◌, inl, inr, refl, sym, ◌∙◌, some, true, false, List, [], ◌∷◌, ◌++◌, append_assoc,
  append-nil, length, Text, or_else, codes, text_eq, is_empty, arith, Bool-cases, Option-cases,
}
use dhf.Crypto.Primitives.{Noble}
use dhf.Memory.{StoreConfig, Dag, MemoryQuery}
use dhf.Agent.{Role, Message, ToolCall, InferenceResult}
use dhf.Agent.Inference.{AnthropicData, block_calls, anthropic_result}
use dhf.Agent.Tools.{
  Run, ToolReply, handle_remember, recall_lines, handle_recall, handle_reflect, handle_tool_call,
}
use dhf.Agent.Loop.{AgentConfig, Inferred, Ended, done, next, say, say_tool, handle_all, react}

-- The tool messages that answer calls with texts.
abbrev pub replies : List ToolCall → List Text → List Message
replies (call ∷ calls) (t ∷ texts) =
    record { role = Role.tool; content = t; name = some call.name; tool_call_id = some call.id }
    ∷ replies calls texts
replies _ _ = []

is_empty-nil : (t : Text) → is_empty t ≡ true → t ≡ []
is_empty-nil [] h = refl
is_empty-nil (c ∷ t) h = absurd (ground (arith, h))

grown :
    (s r : List Message) (m : Message) (more : List Message)
    → s ≡ r
    → (s ++ m ∷ []) ++ more ≡ r ++ m ∷ more
grown s r m more same = rw (same, append_assoc) refl

module _ (n : Noble) (store : StoreConfig) (dag : Dag) where
  recall_lines-messages :
      (now : ℕ) (asked : MemoryQuery) (nothing : Text) (r : Run)
      → (recall_lines n store dag now asked nothing r).1.messages ≡ r.messages
  unfolding recall_lines
  recall_lines-messages now asked nothing r = ground arith

  handle_tool_call-messages :
      (handler : ToolCall → ToolReply) (now : ℕ) (call : ToolCall) (r : Run)
      → (handle_tool_call n store dag handler now call r).1.messages ≡ r.messages
  unfolding handle_tool_call handle_remember handle_recall handle_reflect
  handle_tool_call-messages handler now call r = ground (arith, recall_lines-messages now)

  module _ (handler : ToolCall → ToolReply) (clock : ℕ → ℕ) where
    handle_all-messages :
        (calls : List ToolCall) (r : Run)
        → (handle_all n store dag handler clock calls r).0 ≡ true
        → (texts : List Text) × (length texts ≡ length calls)
          × ((handle_all n store dag handler clock calls r).1.messages
              ≡ r.messages ++ replies calls texts)
    unfolding handle_all say_tool
    handle_all-messages [] r h = ([], refl, sym (append-nil r.messages))
    handle_all-messages (call ∷ rest) r h =
        elim (Option-cases (handle_tool_call n store dag handler (clock r.step) call r).0) [
          | inl e ↦ absurd (ground (arith, rw (handle_all, e) at h))
          | inr (t, e) ↦
              (let s : Run = (handle_tool_call n store dag handler (clock r.step) call r).1 in
                let (texts, same, spoken) =
                  handle_all-messages rest (say_tool call t s) (rw (handle_all, e) at h) in
                (
                  t ∷ texts,
                  omega (arith, same),
                  rw (handle_all, e)
                      (spoken
                        ∙ grown _ _ _ _ (handle_tool_call-messages handler (clock r.step) call r)),
                ))
        ]

    module _ (config : AgentConfig) (infer : ℕ → List Message → Inferred) where
      -- Where an answer with tool calls lets the run go on, the conversation has grown by the answer and
      -- then by one tool message for each call, in the order of the calls, with the call's name and id.
      pub react-replies :
          (result : InferenceResult) (r r' : Run)
          → is_empty result.tool_calls ≡ false
          → react n store dag handler clock config infer result r ≡ next r'
          → (texts : List Text) × (length texts ≡ length result.tool_calls)
            × (r'.messages
                ≡ (say Role.assistant result.content r).messages ++ replies result.tool_calls texts)
      unfolding react
      react-replies result r r' some_call h =
          elim (Bool-cases (text_eq result.finish_reason (codes "stop"))) [
            | inl e ↦ absurd (ground (arith, rw (react, e) at h))
            | inr e ↦
                elim (Bool-cases
                  (handle_all n store dag handler clock result.tool_calls
                    (say Role.assistant result.content r)).0) [
                      | inl g ↦
                          (let (texts, same, spoken) =
                              handle_all-messages result.tool_calls
                                (say Role.assistant result.content r) g in
                            (texts, same, ground (arith, rw (react, e, some_call, g) at h, spoken)))
                      | inr g ↦ absurd (ground (arith, rw (react, e, some_call, g) at h))
                    ]
          ]

      -- An answer without tool calls that lets the run go on has no content, whatever its finish reason:
      -- one that was cut off with a content is the final output.
      react-content :
          (result : InferenceResult) (r r' : Run)
          → is_empty result.tool_calls ≡ true
          → react n store dag handler clock config infer result r ≡ next r'
          → result.content ≡ []
      unfolding react
      react-content result r r' no_call h =
          elim (Bool-cases (text_eq result.finish_reason (codes "stop"))) [
            | inl e ↦ absurd (ground (arith, rw (react, e) at h))
            | inr e ↦ elim (Bool-cases (is_empty result.content)) [
              | inl f ↦ is_empty-nil result.content f
              | inr f ↦ absurd (ground (arith, rw (react, e, no_call, f) at h))
            ]
          ]

      -- An answer of Anthropic with a use of a tool never ends the run with an output: its calls are
      -- handled, and where the run ends it is an exception of theirs.
      react-anthropic_result :
          (answer : AnthropicData) (r r' : Run) (e : Ended)
          → is_empty (block_calls (or_else answer.content [])) ≡ false
          → react n store dag handler clock config infer (anthropic_result answer) r ≡ done e r'
          → e ≡ Ended.threw
      unfolding react anthropic_result text_eq
      react-anthropic_result answer r r' e used h =
          elim (Bool-cases
            (handle_all n store dag handler clock (block_calls (or_else answer.content []))
              (say Role.assistant (anthropic_result answer).content r)).0) [
                | inl g ↦ absurd (ground (arith, rw (react, anthropic_result, used, g) at h))
                | inr g ↦ ground (arith, rw (react, anthropic_result, used, g) at h)
              ]
