-- ===== src/Contracts/Token.antt =====
-- contracts/src/BandwidthToken.sol: a token whose balances belong to stacks. Who owns a stack is the
-- argument `owner_of`: what StackIdentity answers.
pub mod Supply
use dhf.Base.{
  ℕ, ◌+◌, ◌-◌, ◌==◌, ◌&&◌, ◌||◌, Option, none, some, Bool, true, false, List, [], ◌>>=◌, leb,
  if◌then◌else◌,
}
use dhf.Contracts.{Mapping, require, lookup, store, checked_add, checked_sub}

pub record Token : Type 0 where
  pub owner : ℕ
  pub minter : ℕ
  pub total_supply : ℕ
  pub balances : Mapping
  pub authorized : ℕ → ℕ → Bool

-- the constructor, by its sender
unfoldable pub deployed : ℕ → Token
deployed sender = record {
  owner = sender;
  minter = sender;
  total_supply = 0;
  balances = [];
  authorized = λ stack sleeve. false;
}

-- `_isStackOwner`
unfoldable pub is_stack_owner : (ℕ → Option ℕ) → ℕ → ℕ → Bool
is_stack_owner owner_of stack who = elim (owner_of stack) [ none ↦ false | some a ↦ a == who ]

unfoldable pub set_minter : ℕ → ℕ → Token → Option Token
unfolding require
set_minter sender m t = require (sender == t.owner) (some (record t { minter = m }))

unfoldable pub authorize_sleeve : (ℕ → Option ℕ) → ℕ → ℕ → ℕ → Bool → Token → Option Token
unfolding require is_stack_owner
authorize_sleeve owner_of sender stack sleeve ok t =
    require (is_stack_owner owner_of stack sender) (
      some (record t {
        authorized = λ k s. if k == stack && s == sleeve then ok else t.authorized k s;
      }))

unfoldable pub mint : ℕ → ℕ → ℕ → Token → Option Token
unfolding require lookup store checked_add
mint sender stack amount t = require (sender == t.minter) (
    checked_add (lookup stack t.balances) amount >>= λ balance.
    checked_add t.total_supply amount >>= λ supply.
    some (record t { balances = store stack balance t.balances; total_supply = supply }))

unfoldable pub spend : (ℕ → Option ℕ) → ℕ → ℕ → ℕ → Token → Option Token
unfolding require is_stack_owner lookup store checked_sub
spend owner_of sender stack amount t =
    require (t.authorized stack sender || is_stack_owner owner_of stack sender) (
      checked_sub (lookup stack t.balances) amount >>= λ balance.
      checked_sub t.total_supply amount >>= λ supply.
      some (record t { balances = store stack balance t.balances; total_supply = supply }))

unfoldable pub transfer_stack : (ℕ → Option ℕ) → ℕ → ℕ → ℕ → ℕ → Token → Option Token
unfolding require is_stack_owner lookup store checked_add checked_sub
transfer_stack owner_of sender source target amount t =
    require (is_stack_owner owner_of source sender) (
      checked_sub (lookup source t.balances) amount >>= λ left.
      (let taken = store source left t.balances in
        checked_add (lookup target taken) amount >>= λ more.
        some (record t { balances = store target more taken })))
