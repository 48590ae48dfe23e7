-- ===== src/Contracts/Evm.antt =====
-- The chain that the contracts live on, and contracts/src/QuellistTreasury.sol, whose calls reach the
-- tokens at the addresses it was given. Of a contract that is not modelled the chain holds what its
-- constructor was given.
pub mod Refusals
pub mod Swaps
use dhf.Base.{ℕ, ◌-◌, ◌*◌, ◌==◌, Option, none, some, Bool, List, ◌>>=◌, ltb, if◌then◌else◌}
use dhf.Contracts.{Mapping, limit, require, lookup, store}
use dhf.Contracts.Anchor.{EpochAnchor}
use dhf.Contracts.Oracle.{Oracle}
use dhf.Contracts.Exchange.{Swap, checked_mul}
use dhf.Contracts.Token.{Token, mint}

pub record Treasury : Type 0 where
  pub owner : ℕ
  pub compute : ℕ
  pub memory_t : ℕ
  pub sync_t : ℕ
  pub routing : ℕ
  pub residue_t : ℕ
  pub last_claim_epoch : Mapping
  pub emission_per_epoch : ℕ

-- StackIdentity, as far as it is about the routers
pub record Identity : Type 0 where
  pub owner : ℕ
  pub authorized_routers : ℕ → Bool

pub data Contract : Type 0 where
  stack_identity : Identity → Contract
  token : Token → Contract
  treasury : Treasury → Contract
  -- the address of StackIdentity
  needlecast_router : ℕ → Contract
  sleeve_registry : ℕ → Contract
  -- the residue token and StackIdentity
  residue_registry : ℕ → ℕ → Contract
  epoch_anchor : EpochAnchor → Contract
  -- the three tokens and StackIdentity
  tripartite_game : ℕ → ℕ → ℕ → ℕ → Contract
  swap : Swap → Contract
  route_oracle : Oracle → Contract

-- The contract at an address, if there is one.
abbrev pub Code : Type 0
Code = ℕ → Option Contract

unfoldable pub put : ℕ → Contract → Code → Code
put a c code = λ x. if x == a then some c else code x

unfoldable pub token_at : Code → ℕ → Option Token
token_at code a = elim (code a) [ some (token t) ↦ some t | _ ↦ none ]

-- The address that may mint a token.
unfoldable pub minter_at : Code → ℕ → Option ℕ
unfolding token_at
minter_at code t = token_at code t >>= λ found. some found.minter

-- `IBandwidthMintable(t).mint(tokenId, amount, reason)`, called by the contract at `sender`
unfoldable pub mint_at : ℕ → ℕ → ℕ → ℕ → Code → Option Code
unfolding token_at mint put
mint_at sender t stack amount code = token_at code t >>= λ found.
    mint sender stack amount found >>= λ minted. some (put t (token minted) code)

-- `_tokenOf`
unfoldable pub token_of : Treasury → ℕ → Option ℕ
token_of t kind =
    if kind == 0
    then some t.compute
    else if kind == 1
    then some t.memory_t
    else if kind == 2
    then some t.sync_t
    else if kind == 3
    then some t.routing
    else if kind == 4
    then some t.residue_t
    else none

unfoldable pub set_emission : ℕ → ℕ → Treasury → Option Treasury
unfolding require
set_emission sender e t = require (sender == t.owner) (some (record t { emission_per_epoch = e }))

-- The treasury `t` is at the address `this`.
unfoldable pub issue : ℕ → ℕ → ℕ → ℕ → ℕ → Treasury → Code → Option Code
unfolding require token_of mint_at
issue this sender stack kind amount t code =
    require (sender == t.owner) (token_of t kind >>= λ a. mint_at this a stack amount code)

unfoldable pub claim_epoch_rewards : ℕ → ℕ → ℕ → ℕ → Treasury → Code → Option Code
unfolding require lookup store mint_at put checked_mul
claim_epoch_rewards this sender stack current_epoch t code =
    let last = lookup stack t.last_claim_epoch in
    let claimed = record t { last_claim_epoch = store stack current_epoch t.last_claim_epoch } in
    require (sender == t.owner) (
      require (ltb last current_epoch) (
        checked_mul t.emission_per_epoch (current_epoch - last) >>= λ amount.
        mint_at this t.compute stack amount code >>= λ c1.
        mint_at this t.memory_t stack amount c1 >>= λ c2.
        mint_at this t.sync_t stack amount c2 >>= λ c3.
        mint_at this t.routing stack amount c3 >>= λ c4. some (put this (treasury claimed) c4)))
