-- ===== src/Contracts/Deploy/Log.antt =====
-- The code of the chain as a log of what the deployer's transactions left at their addresses.
use dhf.Base.{
  ℕ, zero, suc, ◌+◌, ◌-◌, ◌≤◌, ◌==◌, ◌≡◌, refl, true, leb, ◌>>=◌, Option, none, some, Bool, List,
  [], ◌∷◌, if◌then◌else◌, arith, Option-cases, inl, inr,
}
use native.Mathlib.Numerals.{add-one}
use dhf.Contracts.Exchange.{Swap, set_route_oracle}
use dhf.Contracts.Evm.{
  minter_at, Code, Contract, Identity, token_at, put, token, stack_identity, swap,
}
use dhf.Contracts.Token.{Token, set_minter}
use dhf.Contracts.Deploy.{
  Evm, Artifact, minter_of, router_of, route_oracle_to, send, deploy, write, write_code, construct,
  set_router, identity_at, swap_at,
}

abbrev pub Log : Type 0
Log = List (ℕ × Contract)

unfoldable pub find : Log → ℕ → Option Contract
find [] i = none
find ((j, c) ∷ rest) i = let more = find rest i in if i == j then some c else more

-- What the first `n` transactions cost.
abbrev pub spent : (ℕ → ℕ) → ℕ → ℕ
spent charged zero = 0
spent charged (suc n) = spent charged n + charged n

-- The balances after `n` transactions.
unfoldable pub after : ℕ → (ℕ → ℕ) → ℕ → (ℕ → ℕ) → ℕ → ℕ
after account charged zero b x = b x
after account charged (suc n) b x =
    after account charged n b x - (if x == account then charged n else 0)

pub after-account :
    (account : ℕ) (charged : ℕ → ℕ) (n : ℕ) (b : ℕ → ℕ)
    → after account charged n b account ≡ b account - spent charged n
unfolding after
after-account account charged zero b = omega arith
after-account account charged (suc n) b = ground (arith, after-account account charged n b)

-- What the node asks for is there.
abbrev pub Covers : ℕ → (ℕ → ℕ) → (ℕ → ℕ) → (ℕ → ℕ) → ℕ → Type 0
Covers account asked charged b n = leb (asked n) (after account charged n b account) ≡ true

pub covers_lem :
    (account : ℕ) (asked charged : ℕ → ℕ) (b : ℕ → ℕ) (n : ℕ)
    → spent charged n + asked n ≤ b account
    → Covers account asked charged b n
covers_lem account asked charged b n h = ground (arith, after-account account charged n b)

module _ (create : ℕ → ℕ) where
  unfoldable pub decode : Log → Code
  unfolding put
  decode [] = λ x. none
  decode ((i, c) ∷ rest) = put (create i) c (decode rest)

  -- The chain after `n` transactions.
  unfoldable pub at_log : ℕ → (ℕ → ℕ) → ℕ → (ℕ → ℕ) → Log → Evm
  unfolding decode after
  at_log account charged n b log = record {
    nonce = n;
    balances = after account charged n b;
    code = decode log;
  }

  unfoldable pub token_in : Log → ℕ → Option Token
  unfolding find
  token_in log i = elim (find log i) [ some (token t) ↦ some t | _ ↦ none ]

  unfoldable pub identity_in : Log → ℕ → Option Identity
  unfolding find
  identity_in log i = elim (find log i) [ some (stack_identity x) ↦ some x | _ ↦ none ]

  unfoldable pub swap_in : Log → ℕ → Option Swap
  unfolding find
  swap_in log i = elim (find log i) [ some (swap s) ↦ some s | _ ↦ none ]

  -- A write to the contract that the transaction `i` created.
  unfoldable pub edit {ℓ} :
      {A : Type ℓ}
      → Option A
      → (A → Option A)
      → (A → Contract)
      → ℕ
      → ℕ
      → (ℕ → ℕ)
      → ℕ
      → (ℕ → ℕ)
      → Log
      → Option Evm
  unfolding at_log
  edit found f wrap i account charged n b log =
      found >>= λ x. f x >>= λ c. some (at_log account charged (n + 1) b ((i, wrap c) ∷ log))

  module _ (account : ℕ) (asked charged : ℕ → ℕ) (b : ℕ → ℕ) (n : ℕ)
      (can : Covers account asked charged b n) where
    put-edit {ℓ} :
        {A : Type ℓ} (found : Option A) (f : A → Option A) (wrap : A → Contract) (i : ℕ) (log : Log)
        → (send create account asked charged (at_log account charged n b log) >>= λ sent.
            (found >>= λ x. f x >>= λ c. some (put (create i) (wrap c) (decode log))) >>= λ code.
            some (record sent { code = code }))
          ≡ edit found f wrap i account charged n b log
    unfolding edit at_log decode send
    put-edit none f wrap i log = rw can refl
    put-edit (some x) f wrap i log = elim (Option-cases (f x)) [
      | inl e ↦ rw (can, e) refl
      | inr (c, e) ↦ rw (can, e, add-one n) refl
    ]

    pub deploy-at_log :
        {B : Type 0} (a : Artifact) (next : ℕ → Evm → Option B) (log : Log)
        → deploy create account asked charged a next (at_log account charged n b log) ≡ (
            construct account a >>= λ c.
            next (create n) (at_log account charged (n + 1) b ((n, c) ∷ log)))
    unfolding deploy at_log decode send
    deploy-at_log a next log = rw (can, add-one n) refl

  module _ (distinct : (i j : ℕ) → create i ≡ create j → i ≡ j) where
    pub same : (i j : ℕ) → (create i == create j) ≡ (i == j)
    same i j = ground (arith, distinct i j)

    pub decode-find : (log : Log) (i : ℕ) → decode log (create i) ≡ find log i
    unfolding decode find put
    decode-find [] i = refl
    decode-find ((j, c) ∷ rest) i = rw (same i j, decode-find rest i) refl

    module _ (account : ℕ) (asked charged : ℕ → ℕ) (b : ℕ → ℕ) (n : ℕ)
        (can : Covers account asked charged b n) where
      pub write-minter :
          (i m : ℕ) (log : Log)
          → write create account asked charged
              (minter_of (create i) m)
              (at_log account charged n b log)
            ≡ edit (token_in log i) (set_minter account m) token i account charged n b log
      unfolding write write_code at_log token_in
      write-minter i m log =
          rw (token_at, decode-find log i)
            (put-edit account asked charged b n can (token_in log i) (set_minter account m) token i
              log)

      pub write-router :
          (i r : ℕ) (ok : Bool) (log : Log)
          → write create account asked charged
              (router_of (create i) r ok)
              (at_log account charged n b log)
            ≡ edit
                (identity_in log i)
                (set_router account r ok)
                stack_identity
                i
                account
                charged
                n
                b
                log
      unfolding write write_code at_log identity_in
      write-router i r ok log =
          rw (identity_at, decode-find log i)
            (put-edit account asked charged b n can (identity_in log i) (set_router account r ok)
              stack_identity i log)

      pub write-oracle :
          (i o : ℕ) (log : Log)
          → write create account asked charged
              (route_oracle_to (create i) o)
              (at_log account charged n b log)
            ≡ edit (swap_in log i) (set_route_oracle account o) swap i account charged n b log
      unfolding write write_code at_log swap_in
      write-oracle i o log =
          rw (swap_at, decode-find log i)
            (put-edit account asked charged b n can (swap_in log i) (set_route_oracle account o)
              swap i log)

    pub minter_at-log :
        (account : ℕ) (charged : ℕ → ℕ) (i n : ℕ) (b : ℕ → ℕ) (log : Log)
        → minter_at (at_log account charged n b log).code (create i)
          ≡ (token_in log i >>= λ t. some t.minter)
    unfolding minter_at at_log token_in
    minter_at-log account charged i n b log = rw (token_at, decode-find log i) refl
