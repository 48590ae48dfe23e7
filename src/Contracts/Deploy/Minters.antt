-- ===== src/Contracts/Deploy/Minters.antt =====
-- Who may mint the tokens when the script has deployed the contracts.
use dhf.Base.{ℕ, ◌+◌, ◌≤◌, ◌<◌, ◌==◌, ◌≡◌, refl, ◌>>=◌, none, some, false, List}
use dhf.Contracts.{require}
use dhf.Contracts.Anchor.{Anchor, EpochAnchor, anchor_deployed, commit_anchor}
use dhf.Contracts.Evm.{minter_at, treasury, epoch_anchor}
use dhf.Contracts.Deploy.{Evm, Out, fund, deploy_main}
use dhf.Contracts.Evm.{Treasury, token_of, issue, claim_epoch_rewards}
use dhf.Contracts.Evm.Refusals.{issue-refused, claim_epoch_rewards-refused}
use dhf.Contracts.Deploy.Log.{
  Covers, covers_lem, spent, after, same, find, decode-find, at_log, decode, token_in,
  minter_at-log,
}
use dhf.Contracts.Deploy.Runs.{
  tokens_treasury, exchange_log, run-tokens, run-registries, run-exchange,
}

-- The addresses that the script writes down: those of its transactions 0 to 6, 12, 14, 15, 17 to 19
-- and 21.
unfoldable pub addresses : (ℕ → ℕ) → ℕ → Out
addresses create account = record {
  deployer = account;
  identity = create 0;
  compute_token = create 1;
  memory_token = create 2;
  sync_token = create 3;
  routing_token = create 4;
  residue_token = create 5;
  quellist_treasury = create 6;
  router = create 12;
  sleeve_reg = create 14;
  residue_reg = create 15;
  anchor = create 17;
  game = create 18;
  res_to_routing = create 19;
  oracle = create 21;
}

-- A chain on which the deployer has sent nothing.
unfoldable pub undeployed : (ℕ → ℕ) → Evm
undeployed b = record { nonce = 0; balances = b; code = λ x. none }

module _ (create : ℕ → ℕ) (distinct : (i j : ℕ) → create i ≡ create j → i ≡ j)
    (nonzero : (n : ℕ) → (create n == 0) ≡ false) (account : ℕ) where
  abbrev deployed_code : (ℕ → ℕ) → (ℕ → ℕ) → Evm
  deployed_code charged b =
      at_log create account charged 23 b (exchange_log create distinct nonzero account)

  deploy_main-run :
      (asked charged : ℕ → ℕ) (dev_fee : ℕ) (accounts : List ℕ) (before funded : ℕ → ℕ)
      → fund dev_fee account accounts (undeployed before) ≡ some (undeployed funded)
      → ((k : ℕ) → k < 23 → spent charged k + asked k ≤ funded account)
      → deploy_main create account asked charged dev_fee accounts (undeployed before)
        ≡ some (addresses create account, deployed_code charged funded)
  unfolding deploy_main addresses undeployed at_log after decode
  deploy_main-run asked charged dev_fee accounts before funded h afford =
      let can : (k : ℕ) → k < 23 → Covers account asked charged funded k =
        λ k small. covers_lem account asked charged funded k (afford k small) in
      rw h (
        simp (
          run-tokens create distinct nonzero account asked charged funded can,
          run-registries create distinct nonzero account asked charged funded can,
          run-exchange create distinct nonzero account asked charged funded can,
        ))

  -- If a deployer that has sent nothing is funded, or was, and its balance then covers what each of the
  -- 23 transactions asks for beside the cost of those before it, the script ends without an exception
  -- and writes down the addresses of its transactions, provided no two of these create one address and
  -- none creates address 0. Then the minter of the compute, memory and sync tokens is the treasury,
  -- that of the routing token the swap, and that of the residue token the residue registry.
  pub deploy_main-minters :
      (asked charged : ℕ → ℕ) (dev_fee : ℕ) (accounts : List ℕ) (before funded : ℕ → ℕ)
      → fund dev_fee account accounts (undeployed before) ≡ some (undeployed funded)
      → ((k : ℕ) → k < 23 → spent charged k + asked k ≤ funded account)
      → (e : Evm) × (deploy_main create account asked charged dev_fee accounts (undeployed before)
          ≡ some (addresses create account, e))
        × (minter_at e.code (addresses create account).compute_token
            ≡ some (addresses create account).quellist_treasury)
        × (minter_at e.code (addresses create account).memory_token
            ≡ some (addresses create account).quellist_treasury)
        × (minter_at e.code (addresses create account).sync_token
            ≡ some (addresses create account).quellist_treasury)
        × (minter_at e.code (addresses create account).routing_token
            ≡ some (addresses create account).res_to_routing)
        × (minter_at e.code (addresses create account).residue_token
            ≡ some (addresses create account).residue_reg)
  unfolding deploy_main addresses token_in undeployed at_log decode
  deploy_main-minters asked charged dev_fee accounts before funded h afford = (
    deployed_code charged funded,
    deploy_main-run asked charged dev_fee accounts before funded h afford,
    minter_at-log create distinct account charged 1 23 funded
        (exchange_log create distinct nonzero account),
    minter_at-log create distinct account charged 2 23 funded
        (exchange_log create distinct nonzero account),
    minter_at-log create distinct account charged 3 23 funded
        (exchange_log create distinct nonzero account),
    minter_at-log create distinct account charged 4 23 funded
        (exchange_log create distinct nonzero account),
    minter_at-log create distinct account charged 5 23 funded
        (exchange_log create distinct nonzero account),
  )

  -- If a deployer that has sent nothing is funded, or was, its balance then covers what each of the 23
  -- transactions asks for beside the cost of those before it, and its transactions create different
  -- addresses, none of them 0: the treasury that the script leaves issues no routing and no residue
  -- token, and pays no rewards of an epoch, and the contract of the anchors takes no anchor: each of
  -- these calls reverts, whoever sends it and whatever the stack, the amount, the epoch and the anchor.
  pub deploy_main-refused :
      (asked charged : ℕ → ℕ) (dev_fee : ℕ) (accounts : List ℕ) (before funded : ℕ → ℕ)
      → fund dev_fee account accounts (undeployed before) ≡ some (undeployed funded)
      → ((k : ℕ) → k < 23 → spent charged k + asked k ≤ funded account)
      → (e : Evm) × (t : Treasury) × (c : EpochAnchor) × (deploy_main create account asked charged
            dev_fee accounts
            (undeployed before)
          ≡ some (addresses create account, e))
        × (e.code (addresses create account).quellist_treasury ≡ some (treasury t))
        × (e.code (addresses create account).anchor ≡ some (epoch_anchor c))
        × ((sender stack amount : ℕ)
            → issue (addresses create account).quellist_treasury sender stack 3 amount t e.code
              ≡ none)
        × ((sender stack amount : ℕ)
            → issue (addresses create account).quellist_treasury sender stack 4 amount t e.code
              ≡ none)
        × ((sender stack epoch : ℕ)
            → claim_epoch_rewards
                (addresses create account).quellist_treasury
                sender
                stack
                epoch
                t
                e.code
              ≡ none)
        × ((sender : ℕ) (a : Anchor) (epoch : ℕ) → commit_anchor sender epoch a c ≡ none)
  unfolding addresses at_log find token_of token_in commit_anchor anchor_deployed require
  deploy_main-refused asked charged dev_fee accounts before funded h afford =
      let minter : (i : ℕ)
          → minter_at (deployed_code charged funded).code (create i) ≡ (
              token_in create (exchange_log create distinct nonzero account) i >>= λ t.
              some t.minter) =
        λ i.
          minter_at-log create distinct account charged i 23 funded
            (exchange_log create distinct nonzero account) in
      (
        deployed_code charged funded,
        tokens_treasury create distinct nonzero account,
        anchor_deployed account,
        deploy_main-run asked charged dev_fee accounts before funded h afford,
        decode-find create distinct (exchange_log create distinct nonzero account) 6,
        decode-find create distinct (exchange_log create distinct nonzero account) 17,
        λ sender stack amount.
            issue-refused (create 6) sender stack 3 amount (create 4) (create 19)
              (tokens_treasury create distinct nonzero account) (deployed_code charged funded).code
              refl (minter 4) (same create distinct 6 19),
        λ sender stack amount.
            issue-refused (create 6) sender stack 4 amount (create 5) (create 15)
              (tokens_treasury create distinct nonzero account) (deployed_code charged funded).code
              refl (minter 5) (same create distinct 6 15),
        λ sender stack epoch.
            claim_epoch_rewards-refused (create 6) sender stack epoch (create 19)
              (tokens_treasury create distinct nonzero account) (deployed_code charged funded).code
              (minter 4) (same create distinct 6 19),
        λ sender a epoch. refl,
      )
