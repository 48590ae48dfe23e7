-- ===== src/Contracts/Evm/Swaps.antt =====
-- The exchange of contracts/src/ResidueToRoutingSwap.sol on the chain: it burns residue and mints
-- routing bandwidth. Who owns a stack is the argument `owner_of`.
pub mod Settles
use dhf.Base.{ℕ, ◌>>=◌, not, Option, none, some, Bool, leb, ltb, if◌then◌else◌}
use dhf.Contracts.{require}
use dhf.Contracts.Exchange.{Swap, quote, track}
use dhf.Contracts.Token.{spend}
use dhf.Contracts.Evm.{Code, token, swap, put, token_at, mint_at}

-- `residueToken.spend`, called by the contract at `sender`
unfoldable pub spend_at : (ℕ → Option ℕ) → ℕ → ℕ → ℕ → ℕ → Code → Option Code
unfolding token_at spend put
spend_at owner_of sender t stack amount code = token_at code t >>= λ found.
    spend owner_of sender stack amount found >>= λ spent. some (put t (token spent) code)

-- `swap`, by the contract `s` at the address `this`
unfoldable pub exchange : (ℕ → Option ℕ) → ℕ → Swap → ℕ → ℕ → ℕ → ℕ → Code → Option Code
unfolding require quote track spend_at mint_at put
exchange owner_of this s agent residue_amount epoch_at_resolution current_epoch code =
    require (not s.paused) (
      require (ltb 0 residue_amount) (
        quote s residue_amount epoch_at_resolution current_epoch >>= λ out. require (ltb 0 out) (
          track agent current_epoch out s >>= λ s'.
          spend_at owner_of this s.residue_token agent residue_amount code >>= λ c1.
          mint_at this s.routing_token agent out c1 >>= λ c2. some (put this (swap s') c2))))
