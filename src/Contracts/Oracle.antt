-- ===== src/Contracts/Oracle.antt =====
-- contracts/src/RouteOracle.sol: agents are paused by a guardian or by what a relayer observes, and
-- resumed by the approvals of enough guardians. `action` is the hash that names the resumption of an
-- agent.
pub mod Resumes
use dhf.Base.{
  ℕ, ◌+◌, ◌*◌, ◌^◌, ◌==◌, ◌&&◌, ◌||◌, ◌>>=◌, not, Option, none, some, Bool, true, false, List, [],
  ◌∷◌, leb, ltb, length, if◌then◌else◌,
}
use dhf.Contracts.{require, checked_add}
use dhf.Contracts.Exchange.{Swap, set_paused}

pub record Oracle : Type 0 where
  pub owner : ℕ
  pub swap_address : ℕ
  pub guardians : List ℕ
  pub threshold : ℕ
  pub approvals : ℕ → ℕ → Bool
  pub approval_count : ℕ → ℕ
  pub executed : ℕ → Bool
  pub agent_paused : ℕ → Bool
  pub residue_count : ℕ → ℕ
  pub last_residue_epoch : ℕ → ℕ
  pub last_swap_epoch : ℕ → ℕ
  pub auto_pause_residue_rate : ℕ
  pub auto_pause_swap_burst : ℕ
  pub observation_window : ℕ

unfoldable pub fresh_oracle : ℕ → ℕ → List ℕ → ℕ → Oracle
fresh_oracle sender swap_address guardians threshold = record {
  owner = sender;
  swap_address = swap_address;
  guardians = guardians;
  threshold = threshold;
  approvals = λ id guardian. false;
  approval_count = λ id. 0;
  executed = λ id. false;
  agent_paused = λ agent. false;
  residue_count = λ agent. 0;
  last_residue_epoch = λ agent. 0;
  last_swap_epoch = λ agent. 0;
  auto_pause_residue_rate = 5;
  auto_pause_swap_burst = 100 * 10 ^ 18;
  observation_window = 10;
}

-- the constructor, by its sender
unfoldable pub oracle_deployed : ℕ → ℕ → List ℕ → ℕ → Option Oracle
unfolding require fresh_oracle
oracle_deployed sender swap_address guardians threshold =
    require (leb threshold (length guardians) && ltb 0 threshold)
      (some (fresh_oracle sender swap_address guardians threshold))

-- A write to a mapping.
unfoldable pub written {ℓ} : {A : Type ℓ} → ℕ → A → (ℕ → A) → (ℕ → A)
written k v m = λ x. if x == k then v else m x

-- `_isGuardian`
unfoldable pub is_guardian : ℕ → List ℕ → Bool
is_guardian who [] = false
is_guardian who (g ∷ rest) = let more = is_guardian who rest in if g == who then true else more

unfoldable pub set_guardians : ℕ → List ℕ → ℕ → Oracle → Option Oracle
unfolding require
set_guardians sender guardians threshold o = require (sender == o.owner) (
    require (leb threshold (length guardians) && ltb 0 threshold)
      (some (record o { guardians = guardians; threshold = threshold })))

unfoldable pub emergency_pause : ℕ → ℕ → Oracle → Option Oracle
unfolding require is_guardian written
emergency_pause sender agent o =
    require (is_guardian sender o.guardians)
      (some (record o { agent_paused = written agent true o.agent_paused }))

-- `haltSwap`, by the oracle at the address `this`
unfoldable pub halt_swap : ℕ → ℕ → Oracle → Swap → Option Swap
unfolding require is_guardian set_paused
halt_swap this sender o s = require (is_guardian sender o.guardians) (set_paused this true s)

unfoldable pub observe_swap : ℕ → ℕ → ℕ → ℕ → Oracle → Option Oracle
unfolding require written
observe_swap sender agent routing_out current_epoch o = require (sender == o.owner) (
    some (record o {
      last_swap_epoch = written agent current_epoch o.last_swap_epoch;
      agent_paused =
          if leb o.auto_pause_swap_burst routing_out
          then written agent true o.agent_paused
          else o.agent_paused;
    }))

-- The residues of an agent in the window, with the one that is observed.
unfoldable pub recounted : Oracle → ℕ → ℕ → Option ℕ
unfolding checked_add
recounted o agent current_epoch =
    checked_add (o.last_residue_epoch agent) o.observation_window >>= λ last.
    checked_add (if ltb last current_epoch then 0 else o.residue_count agent) 1

unfoldable pub observe_residue : ℕ → ℕ → ℕ → Oracle → Option Oracle
unfolding require written recounted
observe_residue sender agent current_epoch o = require (sender == o.owner) (
    recounted o agent current_epoch >>= λ count. some (record o {
      last_residue_epoch = written agent current_epoch o.last_residue_epoch;
      residue_count = written agent count o.residue_count;
      agent_paused =
          if leb o.auto_pause_residue_rate count
          then written agent true o.agent_paused
          else o.agent_paused;
    }))

unfoldable pub set_swap : ℕ → ℕ → Oracle → Option Oracle
unfolding require
set_swap sender address o = require (sender == o.owner) (some (record o { swap_address = address }))

unfoldable pub set_auto_pause_config : ℕ → ℕ → ℕ → ℕ → Oracle → Option Oracle
unfolding require
set_auto_pause_config sender residue_rate swap_burst window o = require (sender == o.owner) (
    some (record o {
      auto_pause_residue_rate = residue_rate;
      auto_pause_swap_burst = swap_burst;
      observation_window = window;
    }))

module _ (action : ℕ → ℕ) where
  unfoldable pub approve_resume : ℕ → ℕ → Oracle → Option Oracle
  unfolding require is_guardian written checked_add
  approve_resume sender agent o =
      let id = action agent in
      require (is_guardian sender o.guardians) (
        require (not (o.approvals id sender)) (
          checked_add (o.approval_count id) 1 >>= λ count. some (record o {
            approvals = written id (written sender true (o.approvals id)) o.approvals;
            approval_count = written id count o.approval_count;
          })))

  unfoldable pub execute_resume : ℕ → Oracle → Option Oracle
  unfolding require written
  execute_resume agent o =
      let id = action agent in
      require (leb o.threshold (o.approval_count id)) (
        require (not (o.executed id)) (
          some (record o {
            executed = written id true o.executed;
            agent_paused = written agent false o.agent_paused;
          })))
