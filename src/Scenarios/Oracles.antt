-- ===== src/Scenarios/Oracles.antt =====
-- The agent 5 is resumed once by the guardian 7, and paused again.
use dhf.Base.{ℕ, ◌≡◌, ◌⊎◌, refl, none, some, true, false, [], ◌∷◌}
use dhf.Contracts.{require}
use dhf.Contracts.Oracle.{
  Oracle, fresh_oracle, written, is_guardian, emergency_pause, execute_resume, set_swap,
}
use dhf.Contracts.Oracle.Resumes.{execute_resume-execute_resume}
use dhf.Contracts.Oracle.Resumes as Resumes

abbrev name_of : ℕ → ℕ
name_of agent = agent

abbrev approved_oracle : Oracle
approved_oracle = record (fresh_oracle 1 103 (7 ∷ []) 1) {
  approvals = written 5 (written 7 true (λ guardian. false)) (λ id guardian. false);
  approval_count = written 5 1 (λ id. 0);
}

abbrev resumed_oracle : Oracle
resumed_oracle = record approved_oracle {
  executed = written 5 true (λ id. false);
  agent_paused = written 5 false (λ agent. false);
}

abbrev paused_oracle : Oracle
paused_oracle = record resumed_oracle {
  agent_paused = written 5 true (written 5 false (λ agent. false));
}

abbrev moved_oracle : Oracle
moved_oracle = record paused_oracle { swap_address = 104 }

resumes : execute_resume name_of 5 approved_oracle ≡ some resumed_oracle
unfolding execute_resume require written fresh_oracle
resumes = refl

pauses : Resumes.Calls name_of resumed_oracle paused_oracle
unfolding emergency_pause require is_guardian written fresh_oracle
pauses =
    Resumes.then_call resumed_oracle resumed_oracle paused_oracle (Resumes.no_call resumed_oracle)
      (Resumes.paused_at_once 7 5 resumed_oracle paused_oracle refl)

moves : Resumes.Calls name_of paused_oracle moved_oracle
unfolding set_swap require fresh_oracle
moves =
    Resumes.then_call paused_oracle paused_oracle moved_oracle (Resumes.no_call paused_oracle)
      (Resumes.swap_set 1 104 paused_oracle moved_oracle refl)

execute_resume-execute_resume_example :
    (execute_resume name_of 5 paused_oracle ≡ none)
    × ((paused_oracle.agent_paused 5 ≡ false) ⊎ (moved_oracle.agent_paused 5 ≡ true))
execute_resume-execute_resume_example =
    execute_resume-execute_resume name_of 5 approved_oracle resumed_oracle paused_oracle
      moved_oracle resumes pauses moves
