-- ===== src/Agent/Loop/Budget.antt =====
-- What the loop spends of its token budget.
use dhf.Base.{
  ℕ, zero, suc, ◌≡◌, ◌≤◌, ◌<◌, ◌+◌, inl, inr, refl, some, true, List, Text, arith, Bool-cases,
  Option-cases,
}
use dhf.Crypto.Primitives.{Noble}
use dhf.Memory.{StoreConfig, Dag}
use dhf.Agent.{Message, ToolCall, InferenceResult}
use dhf.Agent.Tools.{Run, ToolReply}
use dhf.Agent.Loop.{
  AgentConfig, Inferred, answered, Ended, Turn, done, next, may_go_on, exhausted, turn, loop, run,
  seeds,
}
use dhf.Agent.Loop.Ends.{Follows, Inferred-cases, Turn-cases, after-react, started}

-- Every answer of the model uses at most `k` tokens.
abbrev pub Frugal : (ℕ → List Message → Inferred) → ℕ → Type 0
Frugal infer k =
    (step : ℕ) (messages : List Message) (result : InferenceResult)
    → infer step messages ≡ answered result
    → result.prompt_tokens + result.completion_tokens ≤ k

-- A turn spends at most `k`.
abbrev Spends : ℕ → Run → Turn → Type 0
Spends k r (done e r') = r'.total_tokens ≤ r.total_tokens + k
Spends k r (next r') = r'.total_tokens ≤ r.total_tokens + k

Follows-Spends :
    (k : ℕ) (r r' : Run) (t : Turn)
    → r'.total_tokens ≤ r.total_tokens + k
    → Follows r' t
    → Spends k r t
Follows-Spends k r r' (done (Ended.output o) s) h (e, f, g) = ground (arith, h, f)
Follows-Spends k r r' (done Ended.threw s) h (e, f, g) = ground (arith, h, f)
Follows-Spends k r r' (next s) h (e, f, g) = ground (arith, h, f)

may_go_on-tokens :
    (config : AgentConfig) (r : Run)
    → may_go_on config r ≡ true
    → r.total_tokens < config.token_budget
unfolding may_go_on
may_go_on-tokens config r h = ground (arith, h)

exhausted-tokens :
    (config : AgentConfig) (r : Run) → (exhausted config r).1.total_tokens ≡ r.total_tokens
unfolding exhausted
exhausted-tokens config r = refl

module _ (n : Noble) (store : StoreConfig) (dag : Dag) (handler : ToolCall → ToolReply)
    (clock : ℕ → ℕ) (config : AgentConfig) (infer : ℕ → List Message → Inferred) (k : ℕ)
    (frugal : Frugal infer k) where
  turn-Spends : (r : Run) → Spends k r (turn n store dag handler clock config infer r)
  unfolding turn
  turn-Spends r = elim (Inferred-cases (infer (r.step + 1) r.messages)) [
    | inl (result, e) ↦
        (let r' : Run = record r {
          step = r.step + 1;
          total_tokens = r.total_tokens + (result.prompt_tokens + result.completion_tokens);
        } in
          rw (turn, e)
            (Follows-Spends k r r' _ (ground (arith, frugal (r.step + 1) r.messages result e))
              (after-react n store dag handler clock config infer result r')))
    | inr (why, e) ↦ rw (turn, e) (omega arith)
  ]

  loop-tokens :
      (fuel : ℕ) (r : Run) (e : Ended) (r' : Run)
      → r.total_tokens < config.token_budget + k
      → loop n store dag handler clock config infer fuel r ≡ some (e, r')
      → r'.total_tokens < config.token_budget + k
  unfolding loop
  loop-tokens zero r e r' low h = absurd (ground (arith, h))
  loop-tokens (suc fuel) r e r' low h = elim (Bool-cases (may_go_on config r)) [
    | inr f ↦ ground (arith, low, exhausted-tokens config r, rw (loop, f) at h)
    | inl f ↦ elim (Turn-cases (turn n store dag handler clock config infer r)) [
      | inl (e', s, g) ↦
          ground (arith, may_go_on-tokens config r f, rw g at (turn-Spends r), rw (loop, f, g) at h)
      | inr (s, g) ↦
          loop-tokens fuel s e r'
            (ground (arith, may_go_on-tokens config r f, rw g at (turn-Spends r)))
            (rw (loop, f, g) at h)
    ]
  ]

  -- Where each answer uses at most `k` tokens, an agent that starts below its token budget (raised by
  -- `k`) ends below the budget raised by `k`: it goes beyond the budget by less than one answer.
  pub run-tokens :
      (task : Text) (r : Run) (e : Ended) (r' : Run)
      → r.total_tokens < config.token_budget + k
      → run n store dag handler clock config infer task r ≡ some (e, r')
      → r'.total_tokens < config.token_budget + k
  unfolding run
  run-tokens task r e r' low h = elim (Option-cases (seeds n store dag handler clock task r).0) [
    | inl f ↦ ground (arith, low, rw (run, f) at h)
    | inr (entries, f) ↦
        loop-tokens (config.max_steps + 1)
          (started n store dag handler clock config infer task entries r) e r' low
          (rw (run, f) at h)
  ]
