-- ===== src/Contracts/Deploy.antt =====
-- contracts/scripts/deploy.ts: the script that deploys the contracts and wires them. The address of
-- the contract that the deployer creates in its n-th transaction is `create n`; `none` is that the
-- script throws. The n-th transaction is sent if the deployer's balance covers `asked n`, its gas limit
-- at its price, and then costs `charged n`; the funding costs the first account `dev_fee` beside.
pub mod Log
pub mod Minters
pub mod Runs
use dhf.Base.{
  ℕ, ◌+◌, ◌-◌, ◌*◌, ◌^◌, ◌==◌, ◌&&◌, ◌>>=◌, not, Option, none, some, Bool, true, false, List, [],
  ◌∷◌, leb, ltb, length, if◌then◌else◌,
}
use dhf.Contracts.{require}
use dhf.Contracts.Anchor.{anchor_deployed}
use dhf.Contracts.Oracle.{oracle_deployed}
use dhf.Contracts.Exchange.{Swap, swap_deployed, set_route_oracle}
use dhf.Contracts.Evm.{
  Code, Contract, Identity, Treasury, stack_identity, token, treasury, needlecast_router,
  sleeve_registry, residue_registry, epoch_anchor, tripartite_game, swap, route_oracle, put,
  token_at,
}
use dhf.Contracts.Token.{deployed, set_minter}

pub record Evm : Type 0 where
  -- the transactions that the deployer has sent
  pub nonce : ℕ
  pub balances : ℕ → ℕ
  pub code : Code

-- A contract with the arguments of its constructor.
pub data Artifact : Type 0 where
  stack_identity_of : Artifact
  bandwidth_token_of : ℕ → Artifact
  treasury_of : ℕ → ℕ → ℕ → ℕ → ℕ → Artifact
  needlecast_router_of : ℕ → Artifact
  sleeve_registry_of : ℕ → Artifact
  residue_registry_of : ℕ → ℕ → Artifact
  epoch_anchor_of : Artifact
  tripartite_game_of : ℕ → ℕ → ℕ → ℕ → Artifact
  swap_of : ℕ → ℕ → Artifact
  route_oracle_of : ℕ → List ℕ → ℕ → Artifact

-- What the constructors leave, with `msg.sender` first.
unfoldable pub construct : ℕ → Artifact → Option Contract
unfolding deployed anchor_deployed require swap_deployed oracle_deployed
construct sender stack_identity_of =
    some (stack_identity (record { owner = sender; authorized_routers = λ r. false }))
construct sender (bandwidth_token_of sid) = some (token (deployed sender))
construct sender (treasury_of c m s r res) = some (
    treasury (record {
      owner = sender;
      compute = c;
      memory_t = m;
      sync_t = s;
      routing = r;
      residue_t = res;
      last_claim_epoch = [];
      emission_per_epoch = 100 * 10 ^ 18;
    }))
construct sender (needlecast_router_of sid) = some (needlecast_router sid)
construct sender (sleeve_registry_of sid) = some (sleeve_registry sid)
construct sender (residue_registry_of rt sid) = some (residue_registry rt sid)
construct sender epoch_anchor_of = some (epoch_anchor (anchor_deployed sender))
construct sender (tripartite_game_of c m r sid) =
    require (not (c == 0) && not (m == 0) && not (r == 0) && not (sid == 0))
      (some (tripartite_game c m r sid))
construct sender (swap_of res r) = some (swap (swap_deployed sender res r))
construct sender (route_oracle_of s guardians threshold) =
    oracle_deployed sender s guardians threshold >>= λ o. some (route_oracle o)

-- `stackIdentity.setRouter`
unfoldable pub set_router : ℕ → ℕ → Bool → Identity → Option Identity
unfolding require
set_router sender r ok c =
    require (sender == c.owner)
      (some (record c { authorized_routers = λ x. if x == r then ok else c.authorized_routers x }))

-- The writes that the script sends.
pub data Write : Type 0 where
  minter_of : ℕ → ℕ → Write
  router_of : ℕ → ℕ → Bool → Write
  route_oracle_to : ℕ → ℕ → Write

unfoldable pub identity_at : Code → ℕ → Option Identity
identity_at code a = elim (code a) [ some (stack_identity i) ↦ some i | _ ↦ none ]

unfoldable pub swap_at : Code → ℕ → Option Swap
swap_at code a = elim (code a) [ some (swap s) ↦ some s | _ ↦ none ]

unfoldable pub write_code : ℕ → Write → Code → Option Code
unfolding token_at set_minter set_router set_route_oracle put identity_at swap_at
write_code sender (minter_of t m) code =
    token_at code t >>= λ found. set_minter sender m found >>= λ c. some (put t (token c) code)
write_code sender (router_of i r ok) code = identity_at code i >>= λ found.
    set_router sender r ok found >>= λ c. some (put i (stack_identity c) code)
write_code sender (route_oracle_to s o) code =
    swap_at code s >>= λ found. set_route_oracle sender o found >>= λ c. some (put s (swap c) code)

-- `10000n * 10n ** 18n`
abbrev pub funding : ℕ
funding = 10000 * 10 ^ 18

-- A deployer without a balance is funded by the first account of the node.
unfoldable pub fund : ℕ → ℕ → List ℕ → Evm → Option Evm
fund dev_fee account accounts e =
    if e.balances account == 0
    then elim accounts [
      | [] ↦ none
      | dev ∷ _ ↦
          if leb (funding + dev_fee) (e.balances dev)
          then some (record e {
            balances = λ x.
                if x == account
                then e.balances x + funding
                else if x == dev
                then e.balances x - (funding + dev_fee)
                else e.balances x;
          })
          else none
    ]
    else some e

-- what deployments/cortex.json says, less the chain's number
pub record Out : Type 0 where
  pub deployer : ℕ
  pub identity : ℕ
  pub compute_token : ℕ
  pub memory_token : ℕ
  pub sync_token : ℕ
  pub routing_token : ℕ
  pub residue_token : ℕ
  pub quellist_treasury : ℕ
  pub router : ℕ
  pub sleeve_reg : ℕ
  pub residue_reg : ℕ
  pub anchor : ℕ
  pub game : ℕ
  pub res_to_routing : ℕ
  pub oracle : ℕ

module _ (create : ℕ → ℕ) (account : ℕ) (asked charged : ℕ → ℕ) where
  -- A transaction that the deployer's balance covers, and its cost.
  unfoldable pub send : Evm → Option Evm
  send e =
      if leb (asked e.nonce) (e.balances account)
      then some (record e {
        nonce = e.nonce + 1;
        balances = λ x. e.balances x - (if x == account then charged e.nonce else 0);
      })
      else none

  -- `deploy`, and what the script does with the address
  unfoldable pub deploy {ℓ} : {B : Type ℓ} → Artifact → (ℕ → Evm → Option B) → Evm → Option B
  unfolding construct put send
  deploy a next e = send e >>= λ sent. construct account a >>= λ c.
      next (create e.nonce) (record sent { code = put (create e.nonce) c e.code })

  -- a write, which the script waits for
  unfoldable pub write : Write → Evm → Option Evm
  unfolding write_code send
  write w e =
      send e >>= λ sent. write_code account w e.code >>= λ code. some (record sent { code = code })

  -- The loop that hands the tokens to the treasury.
  unfoldable pub hand_over : ℕ → List ℕ → Evm → Option Evm
  hand_over to [] e = some e
  hand_over to (t ∷ rest) e = write (minter_of t to) e >>= λ e'. hand_over to rest e'

  -- steps 1 to 3
  unfoldable pub deploy_tokens {ℓ} :
      {B : Type ℓ} → (ℕ → (ℕ → ℕ → ℕ → ℕ → ℕ → ℕ → Evm → Option B)) → Evm → Option B
  unfolding hand_over
  deploy_tokens next = deploy stack_identity_of (λ i. deploy (bandwidth_token_of i) (λ c.
      deploy (bandwidth_token_of i) (λ m. deploy (bandwidth_token_of i) (λ s.
        deploy (bandwidth_token_of i) (λ r. deploy (bandwidth_token_of i) (λ res.
          deploy (treasury_of c m s r res) (λ t e.
            hand_over t (c ∷ m ∷ s ∷ r ∷ res ∷ []) e >>= λ e'. next i c m s r res t e')))))))

  -- steps 4 and 5
  unfoldable pub deploy_registries {ℓ} :
      {B : Type ℓ}
      → (ℕ → ℕ → ℕ → ℕ → ℕ → Evm → Option B)
      → (ℕ → ℕ → ℕ → ℕ → ℕ → ℕ → ℕ → Evm → Option B)
  deploy_registries next i c m s r res t = deploy (needlecast_router_of i) (λ router e.
      write (router_of i router true) e
      >>= deploy (sleeve_registry_of i) (λ sleeves.
        deploy (residue_registry_of res i) (λ registry e.
          write (minter_of res registry) e
          >>= deploy epoch_anchor_of (λ anchor.
            deploy (tripartite_game_of c m r i)
              (λ game. next router sleeves registry anchor game)))))

  -- step 6
  unfoldable pub deploy_exchange {ℓ} :
      {B : Type ℓ} → ℕ → ℕ → (ℕ → ℕ → Evm → Option B) → Evm → Option B
  deploy_exchange r res next = deploy (swap_of res r) (λ exchange e.
      write (minter_of r exchange) e
      >>= deploy (route_oracle_of exchange (account ∷ []) 1)
          (λ oracle e. write (route_oracle_to exchange oracle) e >>= next exchange oracle))

  -- `main`, with the accounts of the node
  unfoldable pub deploy_main : ℕ → List ℕ → Evm → Option (Out × Evm)
  unfolding fund deploy_tokens deploy_registries deploy_exchange
  deploy_main dev_fee accounts e =
      fund dev_fee account accounts e
      >>= deploy_tokens (λ i c m s r res t.
        deploy_registries
          (λ router sleeves registry anchor game. deploy_exchange r res (λ exchange oracle e. some (
            record {
              deployer = account;
              identity = i;
              compute_token = c;
              memory_token = m;
              sync_token = s;
              routing_token = r;
              residue_token = res;
              quellist_treasury = t;
              router = router;
              sleeve_reg = sleeves;
              residue_reg = registry;
              anchor = anchor;
              game = game;
              res_to_routing = exchange;
              oracle = oracle;
            },
            e,
          )))
          i c m s r res t)
