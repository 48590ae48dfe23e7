-- ===== src/Contracts/Evm/Swaps/Settles.antt =====
-- What an exchange leaves.
use dhf.Base.{
  ℕ, ◌+◌, ◌==◌, ◌≡◌, ◌≤◌, ◌∙◌, sym, refl, ◌||◌, not, Option, some, true, false, leb, ltb, arith,
  bind-some, some_inj,
}
use dhf.Contracts.{
  require-some, lookup, checked_add, checked_sub, checked_add-some, checked_sub-some,
}
use dhf.Contracts.Exchange.{Swap, quote, track}
use dhf.Contracts.Token.{Token, is_stack_owner, mint, spend}
use dhf.Contracts.Evm.{Code, Contract, token, swap, put, token_at, mint_at}
use dhf.Contracts.Evm.Swaps.{spend_at, exchange}

put_self : (a : ℕ) (c : Contract) (code : Code) → put a c code a ≡ some c
unfolding put
put_self a c code = let same : (a == a) ≡ true = ground arith in rw same refl

put_other : (a x : ℕ) (c : Contract) (code : Code) → (x == a) ≡ false → put a c code x ≡ code x
unfolding put
put_other a x c code h = rw h refl

token_at_self : (a : ℕ) (t : Token) (code : Code) → token_at (put a (token t) code) a ≡ some t
unfolding token_at
token_at_self a t code = rw (token_at, put_self a (token t) code) refl

token_at_other :
    (a x : ℕ) (c : Contract) (code : Code)
    → (x == a) ≡ false
    → token_at (put a c code) x ≡ token_at code x
unfolding token_at
token_at_other a x c code h = rw (token_at, put_other a x c code h) refl

-- A mint puts back a token whose supply is the greater by the amount.
mint_at-supply :
    (this t stack amount : ℕ) (code after : Code)
    → mint_at this t stack amount code ≡ some after
    → (found minted : Token) × (token_at code t ≡ some found)
      × (after ≡ put t (token minted) code)
      × (minted.total_supply ≡ found.total_supply + amount)
unfolding mint_at mint
mint_at-supply this t stack amount code after h =
    let (found, e, h0) = bind-some (token_at code t) _ h in
    let (u, f, h1) = bind-some (mint this stack amount found) _ h0 in
    let (allowed, k0) = require-some (this == found.minter) _ f in
    let (balance, g, k1) = bind-some (checked_add (lookup stack found.balances) amount) _ k0 in
    let (supply, l, k2) = bind-some (checked_add found.total_supply amount) _ k1 in
    (found, u, e, sym (some_inj h1), ground (arith, k2, checked_add-some _ amount {c = supply} l))

-- A spending puts back a token whose supply is the less by the amount.
spend_at-supply :
    (owner_of : ℕ → Option ℕ) (this t stack amount : ℕ) (code after : Code)
    → spend_at owner_of this t stack amount code ≡ some after
    → (found spent : Token) × (token_at code t ≡ some found)
      × (after ≡ put t (token spent) code)
      × (spent.total_supply + amount ≡ found.total_supply)
unfolding spend_at spend
spend_at-supply owner_of this t stack amount code after h =
    let (found, e, h0) = bind-some (token_at code t) _ h in
    let (u, f, h1) = bind-some (spend owner_of this stack amount found) _ h0 in
    let (allowed, k0) =
      require-some (found.authorized stack this || is_stack_owner owner_of stack this) _ f in
    let (balance, g, k1) = bind-some (checked_sub (lookup stack found.balances) amount) _ k0 in
    let (supply, l, k2) = bind-some (checked_sub found.total_supply amount) _ k1 in
    (
      found,
      u,
      e,
      sym (some_inj h1),
      ground (arith, k2, checked_sub-some found.total_supply amount {c = supply} l),
    )

-- What three writes at different addresses leave.
reads-after :
    (a b this : ℕ) (x y : Token) (z : Contract) (code c1 c2 after : Code)
    → (a == b) ≡ false
    → (a == this) ≡ false
    → (b == this) ≡ false
    → c1 ≡ put a (token x) code
    → c2 ≡ put b (token y) c1
    → after ≡ put this z c2
    → (token_at c1 b ≡ token_at code b)
      × (token_at after a ≡ some x)
      × (token_at after b ≡ some y)
      × (after this ≡ some z)
reads-after a b this x y z code c1 c2 after apart apart1 apart2 e1 e2 e3 =
    let turned : (b == a) ≡ false = ground (arith, apart) in
    (
      rw (e1, token_at_other a b (token x) code turned) refl,
      rw (e3, token_at_other this a z c2 apart1, e2, token_at_other b a (token y) c1 apart, e1)
          (token_at_self a x code),
      rw (e3, token_at_other this b z c2 apart2, e2) (token_at_self b y c1),
      rw e3 (put_self this z c2),
    )

-- The consumption is within the limits.
track-within :
    (agent epoch out : ℕ) (s s' : Swap)
    → track agent epoch out s ≡ some s'
    → (s'.consumed_agent agent epoch ≡ s.consumed_agent agent epoch + out)
      × (s'.consumed_agent agent epoch ≤ s.per_epoch_cap_per_agent)
      × (s'.consumed_global epoch ≡ s.consumed_global epoch + out)
      × (s'.consumed_global epoch ≤ s.global_per_epoch_cap)
unfolding track
track-within agent epoch out s s' h =
    let (mine, e, h0) = bind-some (checked_add (s.consumed_agent agent epoch) out) _ h in
    let (within, h1) = require-some (leb mine s.per_epoch_cap_per_agent) _ h0 in
    let (total, f, h2) = bind-some (checked_add (s.consumed_global epoch) out) _ h1 in
    let (within', h3) = require-some (leb total s.global_per_epoch_cap) _ h2 in
    let a = checked_add-some (s.consumed_agent agent epoch) out {c = mine} e in
    let b = checked_add-some (s.consumed_global epoch) out {c = total} f in
    rw (sym (some_inj h3))
      (ground (arith, a), ground (arith, within), ground (arith, b), ground (arith, within'))

-- An exchange that goes through, between two different tokens and by a contract that is neither: the
-- swap is not paused; the amount is burnt from the supply of the residue token and the quote is minted
-- on that of the routing token; and the swap that is left at its address has counted the quote for the
-- agent and for all, both within their limits.
pub exchange-settles :
    (owner_of : ℕ → Option ℕ) (this : ℕ) (s : Swap) (agent amount at epoch : ℕ) (code after : Code)
    → (s.residue_token == s.routing_token) ≡ false
    → (s.residue_token == this) ≡ false
    → (s.routing_token == this) ≡ false
    → exchange owner_of this s agent amount at epoch code ≡ some after
    → (out : ℕ) × (s' : Swap) × (burnt spent minted grown : Token) × (s.paused ≡ false)
      × (quote s amount at epoch ≡ some out)
      × (token_at code s.residue_token ≡ some burnt)
      × (token_at after s.residue_token ≡ some spent)
      × (spent.total_supply + amount ≡ burnt.total_supply)
      × (token_at code s.routing_token ≡ some minted)
      × (token_at after s.routing_token ≡ some grown)
      × (grown.total_supply ≡ minted.total_supply + out)
      × (after this ≡ some (swap s'))
      × (s'.consumed_agent agent epoch ≡ s.consumed_agent agent epoch + out)
      × (s'.consumed_agent agent epoch ≤ s.per_epoch_cap_per_agent)
      × (s'.consumed_global epoch ≡ s.consumed_global epoch + out)
      × (s'.consumed_global epoch ≤ s.global_per_epoch_cap)
unfolding exchange
exchange-settles owner_of this s agent amount at epoch code after apart apart1 apart2 h =
    let (open_now, h0) = require-some (not s.paused) _ h in
    let (positive, h1) = require-some (ltb 0 amount) _ h0 in
    let (out, is_quote, h2) = bind-some (quote s amount at epoch) _ h1 in
    let (worth, h3) = require-some (ltb 0 out) _ h2 in
    let (s', tracked, h4) = bind-some (track agent epoch out s) _ h3 in
    let (c1, e1, h5) = bind-some (spend_at owner_of this s.residue_token agent amount code) _ h4 in
    let (c2, e2, h6) = bind-some (mint_at this s.routing_token agent out c1) _ h5 in
    let (burnt, spent, b1, b2, b3) =
      spend_at-supply owner_of this s.residue_token agent amount code c1 e1 in
    let (minted, grown, m1, m2, m3) = mint_at-supply this s.routing_token agent out c1 c2 e2 in
    let (t1, t2, t3, t4) = track-within agent epoch out s s' tracked in
    let (r1, r2, r3, r4) =
      reads-after s.residue_token s.routing_token this spent grown (swap s') code c1 c2 after apart
        apart1 apart2 b2 m2 (sym (some_inj h6)) in
    (
      out,
      s',
      burnt,
      spent,
      minted,
      grown,
      ground (arith, open_now),
      is_quote,
      b1,
      r2,
      b3,
      sym r1 ∙ m1,
      r3,
      m3,
      r4,
      t1,
      t2,
      t3,
      t4,
    )
