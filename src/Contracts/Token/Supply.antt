-- ===== src/Contracts/Token/Supply.antt =====
-- The supply of a token is the sum of its balances, whatever is called.
use dhf.Base.{ℕ, ◌+◌, ◌≡◌, refl, Option, some, Bool, arith, bind-some, ◌==◌, ◌||◌}
use dhf.Contracts.{
  Mapping, lookup, store, sum, checked_add, checked_sub, sum-store, require-some, checked_add-some,
  checked_sub-some,
}
use dhf.Contracts.Token.{
  Token, is_stack_owner, deployed, set_minter, authorize_sleeve, mint, spend, transfer_stack,
}

-- A token that was deployed and then called, in any order and by anyone; the calls that revert leave
-- no trace.
pub data Reaches : Token → Type 0 where
  started : (sender : ℕ) → Reaches (deployed sender)
  minter_set : (sender m : ℕ) (t u : Token) → set_minter sender m t ≡ some u → Reaches t → Reaches u
  sleeve_authorized :
      (owner_of : ℕ → Option ℕ) (sender stack sleeve : ℕ) (ok : Bool) (t u : Token)
      → authorize_sleeve owner_of sender stack sleeve ok t ≡ some u
      → Reaches t
      → Reaches u
  minted :
      (sender stack amount : ℕ) (t u : Token)
      → mint sender stack amount t ≡ some u
      → Reaches t
      → Reaches u
  spent :
      (owner_of : ℕ → Option ℕ) (sender stack amount : ℕ) (t u : Token)
      → spend owner_of sender stack amount t ≡ some u
      → Reaches t
      → Reaches u
  transferred :
      (owner_of : ℕ → Option ℕ) (sender source target amount : ℕ) (t u : Token)
      → transfer_stack owner_of sender source target amount t ≡ some u
      → Reaches t
      → Reaches u

abbrev pub Conserves : Token → Type 0
Conserves t = t.total_supply ≡ sum t.balances

set_minter-Conserves :
    (sender m : ℕ) (t u : Token) → set_minter sender m t ≡ some u → Conserves t → Conserves u
unfolding set_minter
set_minter-Conserves sender m t u h w =
    let (allowed, e) = require-some (sender == t.owner) _ h in ground (arith, e, w)

authorize_sleeve-Conserves :
    (owner_of : ℕ → Option ℕ) (sender stack sleeve : ℕ) (ok : Bool) (t u : Token)
    → authorize_sleeve owner_of sender stack sleeve ok t ≡ some u
    → Conserves t
    → Conserves u
unfolding authorize_sleeve
authorize_sleeve-Conserves owner_of sender stack sleeve ok t u h w =
    let (allowed, e) = require-some (is_stack_owner owner_of stack sender) _ h in
    ground (arith, e, w)

-- Raising or lowering a balance with the supply.
store-raises :
    (stack amount balance supply total : ℕ) (m : Mapping)
    → balance ≡ lookup stack m + amount
    → supply ≡ total + amount
    → total ≡ sum m
    → supply ≡ sum (store stack balance m)
store-raises stack amount balance supply total m e f w =
    omega (arith, sum-store stack balance m, e, f, w)

store-lowers :
    (stack amount balance supply total : ℕ) (m : Mapping)
    → balance + amount ≡ lookup stack m
    → supply + amount ≡ total
    → total ≡ sum m
    → supply ≡ sum (store stack balance m)
store-lowers stack amount balance supply total m e f w =
    omega (arith, sum-store stack balance m, e, f, w)

mint-Conserves :
    (sender stack amount : ℕ) (t u : Token)
    → mint sender stack amount t ≡ some u
    → Conserves t
    → Conserves u
unfolding mint
mint-Conserves sender stack amount t u h w =
    let (allowed, h0) = require-some (sender == t.minter) _ h in
    let (balance, f, h1) = bind-some (checked_add (lookup stack t.balances) amount) _ h0 in
    let (supply, g, h2) = bind-some (checked_add t.total_supply amount) _ h1 in
    ground (
      arith,
      h2,
      store-raises stack amount balance supply t.total_supply t.balances
          (checked_add-some _ amount {c = balance} f) (checked_add-some _ amount {c = supply} g) w,
    )

spend-Conserves :
    (owner_of : ℕ → Option ℕ) (sender stack amount : ℕ) (t u : Token)
    → spend owner_of sender stack amount t ≡ some u
    → Conserves t
    → Conserves u
unfolding spend
spend-Conserves owner_of sender stack amount t u h w =
    let (allowed, h0) =
      require-some (t.authorized stack sender || is_stack_owner owner_of stack sender) _ h in
    let (balance, f, h1) = bind-some (checked_sub (lookup stack t.balances) amount) _ h0 in
    let (supply, g, h2) = bind-some (checked_sub t.total_supply amount) _ h1 in
    ground (
      arith,
      h2,
      store-lowers stack amount balance supply t.total_supply t.balances
          (checked_sub-some _ amount {c = balance} f) (checked_sub-some _ amount {c = supply} g) w,
    )

transfer_stack-Conserves :
    (owner_of : ℕ → Option ℕ) (sender source target amount : ℕ) (t u : Token)
    → transfer_stack owner_of sender source target amount t ≡ some u
    → Conserves t
    → Conserves u
unfolding transfer_stack
transfer_stack-Conserves owner_of sender source target amount t u h w =
    let (allowed, h0) = require-some (is_stack_owner owner_of source sender) _ h in
    let (left, f, h1) = bind-some (checked_sub (lookup source t.balances) amount) _ h0 in
    let taken : Mapping = store source left t.balances in
    let (more, g, h2) = bind-some (checked_add (lookup target taken) amount) _ h1 in
    ground (
      arith,
      h2,
      w,
      sum-store source left t.balances,
      checked_sub-some _ amount {c = left} f,
      sum-store target more taken,
      checked_add-some _ amount {c = more} g,
    )

-- After any calls, by anyone and in any order, the total supply of a token is the sum of the balances
-- of the stacks.
pub Reaches-Conserves : (t : Token) → Reaches t → Conserves t
unfolding deployed sum
Reaches-Conserves _ (started sender) = refl
Reaches-Conserves _ (minter_set sender m t u h before) =
    set_minter-Conserves sender m t u h (Reaches-Conserves t before)
Reaches-Conserves _ (sleeve_authorized owner_of sender stack sleeve ok t u h before) =
    authorize_sleeve-Conserves owner_of sender stack sleeve ok t u h (Reaches-Conserves t before)
Reaches-Conserves _ (minted sender stack amount t u h before) =
    mint-Conserves sender stack amount t u h (Reaches-Conserves t before)
Reaches-Conserves _ (spent owner_of sender stack amount t u h before) =
    spend-Conserves owner_of sender stack amount t u h (Reaches-Conserves t before)
Reaches-Conserves _ (transferred owner_of sender source target amount t u h before) =
    transfer_stack-Conserves owner_of sender source target amount t u h (Reaches-Conserves t before)
