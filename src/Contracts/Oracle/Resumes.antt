-- ===== src/Contracts/Oracle/Resumes.antt =====
-- An agent is resumed at most once.
use dhf.Base.{
  ℕ, ◌==◌, ◌≡◌, ◌⊎◌, sym, refl, ◌&&◌, not, none, some, Bool, true, false, List, leb, ltb, length,
  arith, bind-some, some_inj, inl, inr, Bool-cases, if◌then◌else◌,
}
use dhf.Contracts.{require, require-some, checked_add}
use dhf.Contracts.Oracle.{
  Oracle, written, is_guardian, set_guardians, emergency_pause, observe_swap, recounted,
  observe_residue, set_swap, set_auto_pause_config, approve_resume, execute_resume,
}

same_branches {ℓ} : {A : Type ℓ} (b : Bool) (x : A) → (if b then x else x) ≡ x
same_branches true x = refl
same_branches false x = refl

module _ (action : ℕ → ℕ) where
  -- One call that goes through, by anyone.
  pub data Call : Oracle → Oracle → Type 0 where
    guardians_set :
        (sender : ℕ) (guardians : List ℕ) (threshold : ℕ) (o p : Oracle)
        → set_guardians sender guardians threshold o ≡ some p
        → Call o p
    paused_at_once :
        (sender agent : ℕ) (o p : Oracle) → emergency_pause sender agent o ≡ some p → Call o p
    approved :
        (sender agent : ℕ) (o p : Oracle) → approve_resume action sender agent o ≡ some p → Call o p
    resumed : (agent : ℕ) (o p : Oracle) → execute_resume action agent o ≡ some p → Call o p
    swap_observed :
        (sender agent out epoch : ℕ) (o p : Oracle)
        → observe_swap sender agent out epoch o ≡ some p
        → Call o p
    residue_observed :
        (sender agent epoch : ℕ) (o p : Oracle)
        → observe_residue sender agent epoch o ≡ some p
        → Call o p
    swap_set : (sender address : ℕ) (o p : Oracle) → set_swap sender address o ≡ some p → Call o p
    config_set :
        (sender rate burst window : ℕ) (o p : Oracle)
        → set_auto_pause_config sender rate burst window o ≡ some p
        → Call o p

  -- Any number of calls.
  pub data Calls : Oracle → Oracle → Type 0 where
    no_call : (o : Oracle) → Calls o o
    then_call : (o p q : Oracle) → Calls o p → Call p q → Calls o q

  -- The resumption of another agent, for one whose action was executed.
  unresumed :
      (agent other : ℕ) (o : Oracle)
      → o.executed (action agent) ≡ true
      → not (o.executed (action other)) ≡ true
      → o.agent_paused agent ≡ true
      → written other false o.agent_paused agent ≡ true
  unfolding written
  unresumed agent other o e fresh paused = elim (Bool-cases (agent == other)) [
    | inl same ↦
        absurd
          (let eq : agent ≡ other = ground (arith, same) in ground (arith, e, rw (sym eq) at fresh))
    | inr apart ↦ rw apart paused
  ]

  -- What a call keeps: that an action was executed, and that an agent whose action was is paused.
  Call-keeps :
      (agent : ℕ) (o p : Oracle)
      → Call o p
      → o.executed (action agent) ≡ true
      → (p.executed (action agent) ≡ true)
        × (o.agent_paused agent ≡ true → p.agent_paused agent ≡ true)
  unfolding set_guardians emergency_pause approve_resume execute_resume observe_swap observe_residue
      set_swap set_auto_pause_config written
  Call-keeps agent _ _ (guardians_set sender guardians threshold o p h) e =
      let (a, h1) = require-some (sender == o.owner) _ h in
      let (b, h2) = require-some (leb threshold (length guardians) && ltb 0 threshold) _ h1 in
      rw (sym (some_inj h2)) (e, λ paused. paused)
  Call-keeps agent _ _ (paused_at_once sender other o p h) e =
      let (a, h1) = require-some (is_guardian sender o.guardians) _ h in
      rw (sym (some_inj h1)) (e, λ paused. ground (arith, paused))
  Call-keeps agent _ _ (approved sender other o p h) e =
      let (a, h1) = require-some (is_guardian sender o.guardians) _ h in
      let (b, h2) = require-some (not (o.approvals (action other) sender)) _ h1 in
      let (count, f, h3) = bind-some (checked_add (o.approval_count (action other)) 1) _ h2 in
      rw (sym (some_inj h3)) (e, λ paused. paused)
  Call-keeps agent _ _ (resumed other o p h) e =
      let (a, h1) = require-some (leb o.threshold (o.approval_count (action other))) _ h in
      let (fresh, h2) = require-some (not (o.executed (action other))) _ h1 in
      rw (sym (some_inj h2)) (ground (arith, e), λ paused. unresumed agent other o e fresh paused)
  Call-keeps agent _ _ (swap_observed sender other out epoch o p h) e =
      let (a, h1) = require-some (sender == o.owner) _ h in
      rw (sym (some_inj h1)) (e, λ paused. ground (arith, paused))
  Call-keeps agent _ _ (residue_observed sender other epoch o p h) e =
      let (a, h1) = require-some (sender == o.owner) _ h in
      let (count, f, h2) = bind-some (recounted o other epoch) _ h1 in
      rw (sym (some_inj h2)) (e, λ paused. ground (arith, paused))
  Call-keeps agent _ _ (swap_set sender address o p h) e =
      let (a, h1) = require-some (sender == o.owner) _ h in
      rw (sym (some_inj h1)) (e, λ paused. paused)
  Call-keeps agent _ _ (config_set sender rate burst window o p h) e =
      let (a, h1) = require-some (sender == o.owner) _ h in
      rw (sym (some_inj h1)) (e, λ paused. paused)

  Calls-keep :
      (agent : ℕ) (o p : Oracle)
      → Calls o p
      → o.executed (action agent) ≡ true
      → (p.executed (action agent) ≡ true)
        × (o.agent_paused agent ≡ true → p.agent_paused agent ≡ true)
  Calls-keep agent _ _ (no_call o) e = (e, λ paused. paused)
  Calls-keep agent _ _ (then_call o p q before call) e =
      let (done, kept) = Calls-keep agent o p before e in
      let (done', kept') = Call-keeps agent p q call done in (done', λ paused. kept' (kept paused))

  execute_resume-executed :
      (agent : ℕ) (o p : Oracle)
      → execute_resume action agent o ≡ some p
      → p.executed (action agent) ≡ true
  unfolding execute_resume written
  execute_resume-executed agent o p h =
      let (a, h1) = require-some (leb o.threshold (o.approval_count (action agent))) _ h in
      let (fresh, h2) = require-some (not (o.executed (action agent))) _ h1 in
      rw (sym (some_inj h2)) (ground arith)

  execute_resume-again :
      (agent : ℕ) (o : Oracle)
      → o.executed (action agent) ≡ true
      → execute_resume action agent o ≡ none
  unfolding execute_resume require
  execute_resume-again agent o e =
      rw (execute_resume, e)
        (same_branches (leb o.threshold (o.approval_count (action agent))) none)

  -- After an agent was resumed, and whatever calls followed, whoever sent them: a second resumption of it
  -- reverts, and either the agent is not paused then, or it stays paused whatever calls follow.
  pub execute_resume-execute_resume :
      (agent : ℕ) (o p q r : Oracle)
      → execute_resume action agent o ≡ some p
      → Calls p q
      → Calls q r
      → (execute_resume action agent q ≡ none)
        × ((q.agent_paused agent ≡ false) ⊎ (r.agent_paused agent ≡ true))
  execute_resume-execute_resume agent o p q r h between later =
      let (done, _) = Calls-keep agent p q between (execute_resume-executed agent o p h) in
      let (_, kept) = Calls-keep agent q r later done in
      (
        execute_resume-again agent q done,
        elim (Bool-cases (q.agent_paused agent)) [
          | inl paused ↦ inr (kept paused)
          | inr free ↦ inl free
        ],
      )
