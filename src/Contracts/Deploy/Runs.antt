-- ===== src/Contracts/Deploy/Runs.antt =====
-- What each step of the script leaves in the log.
use dhf.Base.{ℕ, ◌<◌, ◌*◌, ◌^◌, ◌==◌, ◌≡◌, Option, true, false, [], ◌∷◌, if◌then◌else◌, arith}
use dhf.Contracts.Oracle.{oracle_deployed, fresh_oracle}
use dhf.Contracts.Exchange.{swap_deployed, set_route_oracle}
use dhf.Contracts.Evm.{Treasury, Contract, treasury, token, stack_identity, swap}
use dhf.Contracts.Token.{deployed, set_minter}
use dhf.Contracts.Deploy.{
  Evm, hand_over, deploy_tokens, deploy_registries, deploy_exchange, construct, set_router,
}
use dhf.Contracts.Evm.{
  tripartite_game, epoch_anchor, residue_registry, sleeve_registry, needlecast_router, route_oracle,
}
use dhf.Contracts.Anchor.{anchor_deployed}
use dhf.Contracts.Deploy.Log.{
  Covers, Log, at_log, token_in, identity_in, swap_in, edit, deploy-at_log, write-minter,
  write-router, write-oracle,
}

pub eq_refl : (i : ℕ) → (i == i) ≡ true
eq_refl i = ground arith

module _ (create : ℕ → ℕ) (distinct : (i j : ℕ) → create i ≡ create j → i ≡ j)
    (nonzero : (n : ℕ) → (create n == 0) ≡ false) (account : ℕ) where
  abbrev pub new : Contract
  new = token (deployed account)

  abbrev pub minted_by : ℕ → Contract
  minted_by m = token (record (deployed account) { minter = m })

  abbrev pub tokens_treasury : Treasury
  tokens_treasury = record {
    owner = account;
    compute = create 1;
    memory_t = create 2;
    sync_t = create 3;
    routing = create 4;
    residue_t = create 5;
    last_claim_epoch = [];
    emission_per_epoch = 100 * 10 ^ 18;
  }

  abbrev pub tokens_log : Log
  tokens_log =
      (5, minted_by (create 6))
      ∷ (4, minted_by (create 6))
      ∷ (3, minted_by (create 6))
      ∷ (2, minted_by (create 6))
      ∷ (1, minted_by (create 6))
      ∷ (6, treasury tokens_treasury)
      ∷ (5, new)
      ∷ (4, new)
      ∷ (3, new)
      ∷ (2, new)
      ∷ (1, new)
      ∷ (0, stack_identity (record { owner = account; authorized_routers = λ r. false }))
      ∷ []

  pub run-tokens :
      {B : Type 0} (asked charged : ℕ → ℕ) (b : ℕ → ℕ)
      (can : (k : ℕ) → k < 23 → Covers account asked charged b k)
      (next : ℕ → (ℕ → ℕ → ℕ → ℕ → ℕ → ℕ → Evm → Option B))
      → deploy_tokens create account asked charged next (at_log create account charged 0 b [])
        ≡ next
            (create 0)
            (create 1)
            (create 2)
            (create 3)
            (create 4)
            (create 5)
            (create 6)
            (at_log create account charged 12 b tokens_log)
  unfolding deploy_tokens hand_over construct edit token_in set_minter
  run-tokens asked charged b can next = simp (
    deploy-at_log create account asked charged b 0 (can 0 (omega arith)),
    deploy-at_log create account asked charged b 1 (can 1 (omega arith)),
    deploy-at_log create account asked charged b 2 (can 2 (omega arith)),
    deploy-at_log create account asked charged b 3 (can 3 (omega arith)),
    deploy-at_log create account asked charged b 4 (can 4 (omega arith)),
    deploy-at_log create account asked charged b 5 (can 5 (omega arith)),
    deploy-at_log create account asked charged b 6 (can 6 (omega arith)),
    write-minter create distinct account asked charged b 7 (can 7 (omega arith)),
    write-minter create distinct account asked charged b 8 (can 8 (omega arith)),
    write-minter create distinct account asked charged b 9 (can 9 (omega arith)),
    write-minter create distinct account asked charged b 10 (can 10 (omega arith)),
    write-minter create distinct account asked charged b 11 (can 11 (omega arith)),
    eq_refl,
  )

  abbrev pub registries_log : Log
  registries_log =
      (18, tripartite_game (create 1) (create 2) (create 4) (create 0))
      ∷ (17, epoch_anchor (anchor_deployed account))
      ∷ (5, minted_by (create 15))
      ∷ (15, residue_registry (create 5) (create 0))
      ∷ (14, sleeve_registry (create 0))
      ∷ (
        0,
        stack_identity (record {
          owner = account;
          authorized_routers = λ x. if x == create 12 then true else false;
        }),
      )
      ∷ (12, needlecast_router (create 0))
      ∷ tokens_log

  pub run-registries :
      {B : Type 0} (asked charged : ℕ → ℕ) (b : ℕ → ℕ)
      (can : (k : ℕ) → k < 23 → Covers account asked charged b k)
      (next : ℕ → ℕ → ℕ → ℕ → ℕ → Evm → Option B)
      → deploy_registries create account asked charged next
          (create 0)
          (create 1)
          (create 2)
          (create 3)
          (create 4)
          (create 5)
          (create 6)
          (at_log create account charged 12 b tokens_log)
        ≡ next
            (create 12)
            (create 14)
            (create 15)
            (create 17)
            (create 18)
            (at_log create account charged 19 b registries_log)
  unfolding deploy_registries construct edit token_in identity_in set_minter set_router
  run-registries asked charged b can next = simp (
    deploy-at_log create account asked charged b 12 (can 12 (omega arith)),
    write-router create distinct account asked charged b 13 (can 13 (omega arith)),
    deploy-at_log create account asked charged b 14 (can 14 (omega arith)),
    deploy-at_log create account asked charged b 15 (can 15 (omega arith)),
    write-minter create distinct account asked charged b 16 (can 16 (omega arith)),
    deploy-at_log create account asked charged b 17 (can 17 (omega arith)),
    deploy-at_log create account asked charged b 18 (can 18 (omega arith)),
    eq_refl,
    nonzero,
  )

  abbrev pub exchange_log : Log
  exchange_log =
      (19, swap (record (swap_deployed account (create 5) (create 4)) { route_oracle = create 21 }))
      ∷ (21, route_oracle (fresh_oracle account (create 19) (account ∷ []) 1))
      ∷ (4, minted_by (create 19))
      ∷ (19, swap (swap_deployed account (create 5) (create 4)))
      ∷ registries_log

  pub run-exchange :
      {B : Type 0} (asked charged : ℕ → ℕ) (b : ℕ → ℕ)
      (can : (k : ℕ) → k < 23 → Covers account asked charged b k) (next : ℕ → ℕ → Evm → Option B)
      → deploy_exchange create account asked charged
          (create 4)
          (create 5)
          next
          (at_log create account charged 19 b registries_log)
        ≡ next (create 19) (create 21) (at_log create account charged 23 b exchange_log)
  unfolding deploy_exchange construct oracle_deployed edit token_in swap_in set_minter
      set_route_oracle
  run-exchange asked charged b can next = simp (
    deploy-at_log create account asked charged b 19 (can 19 (omega arith)),
    write-minter create distinct account asked charged b 20 (can 20 (omega arith)),
    deploy-at_log create account asked charged b 21 (can 21 (omega arith)),
    write-oracle create distinct account asked charged b 22 (can 22 (omega arith)),
    eq_refl,
  )
