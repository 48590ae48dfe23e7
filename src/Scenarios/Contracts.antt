-- ===== src/Scenarios/Contracts.antt =====
-- The contracts on concrete calls.
use dhf.Base.{
  ℕ, zero, suc, ◌+◌, ◌-◌, ◌*◌, ◌≤◌, ◌<◌, ◌==◌, ◌≡◌, refl, Option, none, some, true, false, List, [],
  ◌∷◌, arith, if◌then◌else◌,
}
use dhf.Contracts.{lookup, sum, store, checked_add, checked_sub, require}
use dhf.Contracts.Anchor.{Anchor, EpochAnchor, anchor_deployed, set_bridger, commit_anchor}
use dhf.Contracts.Anchor.Heights.{Rises, Reaches-Rises}
use dhf.Contracts.Deploy.{Evm, fund, funding, deploy_main}
use dhf.Contracts.Deploy.Log.{spent}
use dhf.Contracts.Deploy.Minters.{addresses, undeployed, deploy_main-minters, deploy_main-refused}
use dhf.Contracts.Evm.{Treasury, treasury, epoch_anchor, minter_at, issue, claim_epoch_rewards}
use dhf.Contracts.Token.{Token, deployed, mint, spend, transfer_stack}
use dhf.Contracts.Token.Supply.{Reaches-Conserves}
use dhf.Contracts.Token.Supply as Supply
use dhf.Contracts.Anchor.Heights as Heights

-- 1 deployed the token and minted 50 for the stack 3, whose owner 9 gave 20 to the stack 4 and spent 5.
abbrev owner_of : ℕ → Option ℕ
owner_of stack = if stack == 3 then some 9 else none

abbrev token_with : ℕ → List (ℕ × ℕ) → Token
token_with total balances = record (deployed 1) { total_supply = total; balances = balances }

abbrev token_minted : Token
token_minted = token_with 50 ((3, 50) ∷ [])

abbrev token_given : Token
token_given = token_with 50 ((3, 30) ∷ (4, 20) ∷ [])

abbrev token_spent : Token
token_spent = token_with 45 ((3, 25) ∷ (4, 20) ∷ [])

token_spent-Reaches : Supply.Reaches token_spent
unfolding deployed mint transfer_stack spend lookup store checked_add checked_sub require
token_spent-Reaches = Supply.spent owner_of 9 3 5 token_given token_spent refl (
    Supply.transferred owner_of 9 3 4 20 token_minted token_given refl
      (Supply.minted 1 3 50 (deployed 1) token_minted refl (Supply.started 1)))

Reaches-Conserves_example : token_spent.total_supply ≡ sum token_spent.balances
Reaches-Conserves_example = Reaches-Conserves token_spent token_spent-Reaches

-- The addresses of a deployer whose n-th transaction creates n + 1, funded by the account 500.
abbrev create_next : ℕ → ℕ
create_next n = n + 1

create_next-distinct : (i j : ℕ) → create_next i ≡ create_next j → i ≡ j
create_next-distinct i j h = omega (arith, h)

create_next-nonzero : (n : ℕ) → (create_next n == 0) ≡ false
create_next-nonzero n = ground arith

abbrev dev_balances : ℕ → ℕ
dev_balances x = if x == 500 then funding + 21000 else 0

abbrev funded_balances : ℕ → ℕ
funded_balances x =
    if x == 400
    then dev_balances x + funding
    else if x == 500
    then dev_balances x - (funding + 21000)
    else dev_balances x

-- Each transaction asks for five million units and costs three.
abbrev asks : ℕ → ℕ
asks k = 5000000

abbrev costs : ℕ → ℕ
costs k = 3000000

spent-costs : (k : ℕ) → spent costs k ≡ k * 3000000
spent-costs zero = refl
spent-costs (suc k) = omega (arith, spent-costs k)

afforded : (k : ℕ) → k < 23 → spent costs k + asks k ≤ funded_balances 400
afforded k h = omega (arith, spent-costs k)

deployer_funded :
    fund 21000 400 (500 ∷ []) (undeployed dev_balances) ≡ some (undeployed funded_balances)
unfolding fund undeployed
deployer_funded = refl

deploy_main-minters_example :
    (e : Evm) × (deploy_main create_next 400 asks costs 21000 (500 ∷ []) (undeployed dev_balances)
      ≡ some (addresses create_next 400, e))
    × (minter_at e.code (addresses create_next 400).compute_token
        ≡ some (addresses create_next 400).quellist_treasury)
    × (minter_at e.code (addresses create_next 400).memory_token
        ≡ some (addresses create_next 400).quellist_treasury)
    × (minter_at e.code (addresses create_next 400).sync_token
        ≡ some (addresses create_next 400).quellist_treasury)
    × (minter_at e.code (addresses create_next 400).routing_token
        ≡ some (addresses create_next 400).res_to_routing)
    × (minter_at e.code (addresses create_next 400).residue_token
        ≡ some (addresses create_next 400).residue_reg)
deploy_main-minters_example =
    deploy_main-minters create_next create_next-distinct create_next-nonzero 400 asks costs 21000
      (500 ∷ []) dev_balances funded_balances deployer_funded afforded

deploy_main-refused_example :
    (e : Evm) × (t : Treasury) × (c : EpochAnchor) × (deploy_main create_next 400 asks costs 21000
        (500 ∷ [])
        (undeployed dev_balances)
      ≡ some (addresses create_next 400, e))
    × (e.code (addresses create_next 400).quellist_treasury ≡ some (treasury t))
    × (e.code (addresses create_next 400).anchor ≡ some (epoch_anchor c))
    × ((sender stack amount : ℕ)
        → issue (addresses create_next 400).quellist_treasury sender stack 3 amount t e.code ≡ none)
    × ((sender stack amount : ℕ)
        → issue (addresses create_next 400).quellist_treasury sender stack 4 amount t e.code ≡ none)
    × ((sender stack epoch : ℕ)
        → claim_epoch_rewards
            (addresses create_next 400).quellist_treasury
            sender
            stack
            epoch
            t
            e.code
          ≡ none)
    × ((sender : ℕ) (a : Anchor) (epoch : ℕ) → commit_anchor sender epoch a c ≡ none)
deploy_main-refused_example =
    deploy_main-refused create_next create_next-distinct create_next-nonzero 400 asks costs 21000
      (500 ∷ []) dev_balances funded_balances deployer_funded afforded

-- 7 bridges for the owner 1, and commits the epochs 1 and 2 at the heights 10 and 12.
abbrev anchor_at : ℕ → ℕ → Anchor
anchor_at root height = record {
  cross_root = 1;
  evm_root = 2;
  ipfs_root = 3;
  sleeves_root = 4;
  synaptic_field_root = root;
  medulla_height = height;
  ts = 100;
}

abbrev anchors : EpochAnchor
anchors = record (anchor_deployed 1) {
  by_epoch = λ x.
      if x == 2
      then anchor_at 6 12
      else if x == 1
      then anchor_at 5 10
      else (anchor_deployed 1).by_epoch x;
  head = 2;
  last_medulla_height = 12;
  bridgers = λ x. if x == 7 then true else (anchor_deployed 1).bridgers x;
}

abbrev bridged : EpochAnchor
bridged = record (anchor_deployed 1) {
  bridgers = λ x. if x == 7 then true else (anchor_deployed 1).bridgers x;
}

abbrev anchored_once : EpochAnchor
anchored_once = record bridged {
  by_epoch = λ x. if x == 1 then anchor_at 5 10 else (anchor_deployed 1).by_epoch x;
  head = 1;
  last_medulla_height = 10;
}

anchors-Reaches : Heights.Reaches anchors
unfolding anchor_deployed set_bridger commit_anchor require
anchors-Reaches = Heights.committed 7 2 (anchor_at 6 12) anchored_once anchors (omega arith) refl (
    Heights.committed 7 1 (anchor_at 5 10) bridged anchored_once (omega arith) refl
      (Heights.bridger_set 1 7 true (anchor_deployed 1) bridged refl (Heights.started 1)))

Reaches-Rises_example : Rises anchors
Reaches-Rises_example = Reaches-Rises anchors anchors-Reaches
