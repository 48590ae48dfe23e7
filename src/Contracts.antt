-- ===== src/Contracts.antt =====
-- contracts/src: the contracts of the EVM chain, and contracts/scripts/deploy.ts, which deploys them.
-- A call takes its sender and the contract's state, and `none` is that it reverts. An address is a
-- number, and so is a word of 32 bytes. The owner of a contract is the one that deployed it: the
-- transfers of ownership belong to a library.
pub mod Anchor
pub mod Deploy
pub mod Evm
pub mod Exchange
pub mod Oracle
pub mod Token
use dhf.Base.{
  ℕ, ◌+◌, ◌-◌, ◌^◌, ◌==◌, ◌≡◌, ◌≤◌, refl, Option, none, some, Bool, true, false, List, [], ◌∷◌, ltb,
  leb, if◌then◌else◌, arith,
}

-- the numbers of a `uint256` are below this
abbrev pub limit : ℕ
limit = 2 ^ 256

-- `require(test); rest`
unfoldable pub require {ℓ} : {A : Type ℓ} → Bool → Option A → Option A
require test rest = if test then rest else none

-- A call that goes on had its test hold.
pub require-some {ℓ} :
    {A : Type ℓ} (test : Bool) (rest : Option A) {a : A}
    → require test rest ≡ some a
    → (test ≡ true) × (rest ≡ some a)
unfolding require
require-some true rest h = (refl, h)
require-some false rest h = absurd (ground (arith, h))

-- `a + b` and `a - b`, which revert beyond the numbers that there are
unfoldable pub checked_add : ℕ → ℕ → Option ℕ
checked_add a b = if ltb (a + b) limit then some (a + b) else none

unfoldable pub checked_sub : ℕ → ℕ → Option ℕ
checked_sub a b = if leb b a then some (a - b) else none

-- A mapping to numbers: a key that was never written has 0.
abbrev pub Mapping : Type 0
Mapping = List (ℕ × ℕ)

unfoldable pub lookup : ℕ → Mapping → ℕ
lookup k [] = 0
lookup k ((j, v) ∷ rest) = if j == k then v else lookup k rest

unfoldable pub store : ℕ → ℕ → Mapping → Mapping
store k v [] = (k, v) ∷ []
store k v ((j, old) ∷ rest) =
    let more = store k v rest in if j == k then (j, v) ∷ rest else (j, old) ∷ more

unfoldable pub sum : Mapping → ℕ
sum [] = 0
sum ((j, v) ∷ rest) = v + sum rest

-- A write changes the sum by what it changes at its key.
pub sum-store : (k v : ℕ) (m : Mapping) → sum (store k v m) + lookup k m ≡ sum m + v
unfolding sum store lookup
sum-store k v [] = omega arith
sum-store k v ((j, old) ∷ rest) = ground (arith, sum-store k v rest)

pub lookup-sum : (k : ℕ) (m : Mapping) → lookup k m ≤ sum m
unfolding lookup sum
lookup-sum k [] = omega arith
lookup-sum k ((j, v) ∷ rest) = ground (arith, lookup-sum k rest)

pub lookup-store :
    (k j v : ℕ) (m : Mapping) → lookup j (store k v m) ≡ (if k == j then v else lookup j m)
unfolding lookup store
lookup-store k j v [] = refl
lookup-store k j v ((i, old) ∷ rest) = ground (arith, lookup-store k j v rest)

pub checked_add-some : (a b : ℕ) {c : ℕ} → checked_add a b ≡ some c → c ≡ a + b
unfolding checked_add
checked_add-some a b {c} h = ground (arith, h)

pub checked_sub-some : (a b : ℕ) {c : ℕ} → checked_sub a b ≡ some c → c + b ≡ a
unfolding checked_sub
checked_sub-some a b {c} h = ground (arith, h)
