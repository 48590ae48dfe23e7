-- ===== src/Contracts/Evm/Refusals.antt =====
-- The treasury mints nothing on a token whose minter is another address.
use dhf.Base.{
  ℕ, ◌==◌, ◌≡◌, ◌-◌, ◌∙◌, sym, refl, ◌>>=◌, Option, none, some, Bool, true, false, arith, inl, inr,
  Bool-cases, some_inj, bind-some, ltb,
}
use dhf.Contracts.{require, require-some, lookup, checked_add}
use dhf.Contracts.Evm.{
  Code, token, Treasury, minter_at, token_at, mint_at, put, issue, token_of, claim_epoch_rewards,
  checked_mul,
}
use dhf.Contracts.Token.{Token, mint}

require-none {ℓ} : {A : Type ℓ} (test : Bool) (o : Option A) → o ≡ none → require test o ≡ none
unfolding require
require-none true o h = h
require-none false o h = refl

bind-none {ℓ ℓ'} :
    {A : Type ℓ} {B : Type ℓ'} (o : Option A) (f : A → Option B)
    → ((a : A) → o ≡ some a → f a ≡ none)
    → (o >>= f) ≡ none
bind-none none f h = refl
bind-none (some a) f h = h a refl

-- What a mint leaves of the token: its minter.
mint-minter :
    (sender stack amount : ℕ) (t u : Token)
    → mint sender stack amount t ≡ some u
    → u.minter ≡ t.minter
unfolding mint
mint-minter sender stack amount t u h =
    let (allowed, h0) = require-some (sender == t.minter) _ h in
    let (balance, f, h1) = bind-some (checked_add (lookup stack t.balances) amount) _ h0 in
    let (supply, g, h2) = bind-some (checked_add t.total_supply amount) _ h1 in ground (arith, h2)

mint-refused :
    (sender stack amount : ℕ) (t : Token)
    → (sender == t.minter) ≡ false
    → mint sender stack amount t ≡ none
unfolding mint require
mint-refused sender stack amount t h = rw h refl

token_at-minter :
    (code : Code) (t m : ℕ)
    → minter_at code t ≡ some m
    → (found : Token) → token_at code t ≡ some found
    → found.minter ≡ m
unfolding minter_at
token_at-minter code t m h found e = ground (arith, h, e)

mint_at-refused :
    (this t stack amount m : ℕ) (code : Code)
    → minter_at code t ≡ some m
    → (this == m) ≡ false
    → mint_at this t stack amount code ≡ none
unfolding mint_at
mint_at-refused this t stack amount m code h other = bind-none (token_at code t) _ (λ found e.
    rw (mint-refused this stack amount found (rw (token_at-minter code t m h found e) other)) refl)

found-minter :
    (code : Code) (t : ℕ) (found : Token)
    → token_at code t ≡ some found
    → minter_at code t ≡ some found.minter
unfolding minter_at
found-minter code t found e = rw e refl

-- A mint changes the minter of no token.
put-token-minter :
    (code : Code) (t x m : ℕ) (u : Token)
    → minter_at code t ≡ some m
    → u.minter ≡ m
    → minter_at (put t (token u) code) x ≡ minter_at code x
unfolding put minter_at token_at
put-token-minter code t x m u h e = elim (Bool-cases (x == t)) [
  | inl f ↦ let same : x ≡ t = ground (arith, f) in rw (minter_at, token_at, f, e) (rw same (sym h))
  | inr f ↦ rw (minter_at, token_at, f) refl
]

mint_at-minter :
    (this t stack amount : ℕ) (code after : Code)
    → mint_at this t stack amount code ≡ some after
    → (x : ℕ) → minter_at after x ≡ minter_at code x
unfolding mint_at
mint_at-minter this t stack amount code after h x =
    let (found, e, h0) = bind-some (token_at code t) _ h in
    let (u, f, h1) = bind-some (mint this stack amount found) _ h0 in
    rw (sym (some_inj h1)) (
      put-token-minter code t x found.minter u (found-minter code t found e)
        (mint-minter this stack amount found u f))

-- `issue` on a kind whose token has another minter than the treasury.
pub issue-refused :
    (this sender stack kind amount a m : ℕ) (t : Treasury) (code : Code)
    → token_of t kind ≡ some a
    → minter_at code a ≡ some m
    → (this == m) ≡ false
    → issue this sender stack kind amount t code ≡ none
unfolding issue
issue-refused this sender stack kind amount a m t code e h other =
    require-none (sender == t.owner) _ (rw e (mint_at-refused this a stack amount m code h other))

-- `claimEpochRewards`, when the routing token has another minter.
pub claim_epoch_rewards-refused :
    (this sender stack epoch m : ℕ) (t : Treasury) (code : Code)
    → minter_at code t.routing ≡ some m
    → (this == m) ≡ false
    → claim_epoch_rewards this sender stack epoch t code ≡ none
unfolding claim_epoch_rewards
claim_epoch_rewards-refused this sender stack epoch m t code h other =
    let last = lookup stack t.last_claim_epoch in
    require-none (sender == t.owner) _ (
      require-none (ltb last epoch) _ (
        bind-none (checked_mul t.emission_per_epoch (epoch - last)) _ (λ amount e.
          bind-none (mint_at this t.compute stack amount code) _ (λ c1 e1.
            bind-none (mint_at this t.memory_t stack amount c1) _ (λ c2 e2.
              bind-none (mint_at this t.sync_t stack amount c2) _ (λ c3 e3.
                rw
                  (mint_at-refused this t.routing stack amount m c3
                    (mint_at-minter this t.sync_t stack amount c2 c3 e3 t.routing
                      ∙ mint_at-minter this t.memory_t stack amount c1 c2 e2 t.routing
                      ∙ mint_at-minter this t.compute stack amount code c1 e1 t.routing
                      ∙ h)
                    other)
                  refl))))))
