-- ===== src/Scenarios/Exchanges.antt =====
-- An exchange on a chain with the two tokens at 101 and 102 and the swap at 103.
use dhf.Base.{
  ℕ, ◌+◌, ◌*◌, ◌==◌, ◌&&◌, ◌≡◌, ◌≤◌, ◌<◌, refl, none, some, true, false, [], ◌∷◌, arith,
  if◌then◌else◌,
}
use dhf.Contracts.{require, lookup, store, checked_add, checked_sub}
use dhf.Contracts.Evm.{Code, token, swap, put, token_at, mint_at}
use dhf.Contracts.Evm.Swaps.{exchange, spend_at}
use dhf.Contracts.Evm.Swaps.Settles.{exchange-settles}
use dhf.Contracts.Exchange.{
  Swap, swap_deployed, quote, decayed, checked_mul, larger, rounds_of, track,
}
use dhf.Contracts.Exchange.Quotes.{quote-bounds}
use dhf.Contracts.Token.{Token, deployed, mint, spend}

abbrev swap_before : Swap
swap_before = swap_deployed 1 101 102

-- Two epochs later the rate of a half has decayed twice by a twentieth.
quoted : quote swap_before 1000000 1 3 ≡ some 451250
unfolding swap_deployed quote require decayed checked_mul checked_sub larger rounds_of
quoted = refl

quote-bounds_example :
    (451250 * 1000000 ≤ 1000000 * swap_before.base_rate)
    × (1000000 * swap_before.floor_rate < (451250 + 1) * 1000000)
unfolding swap_deployed
quote-bounds_example = quote-bounds swap_before 1000000 1 3 451250 (omega arith) quoted

abbrev residue_token : ℕ → Token
residue_token held = record (deployed 1) {
  total_supply = held;
  balances = (3, held) ∷ [];
  authorized = λ stack sleeve. true;
}

abbrev routing_token : ℕ → Token
routing_token held = record (deployed 1) {
  minter = 103;
  total_supply = held;
  balances = (3, held) ∷ [];
}

abbrev swap_after : Swap
swap_after = record swap_before {
  consumed_agent = λ a e. if a == 3 && e == 3 then 451250 else swap_before.consumed_agent a e;
  consumed_global = λ e. if e == 3 then 451250 else swap_before.consumed_global e;
}

abbrev code_before : Code
code_before x =
    if x == 101
    then some (token (residue_token 2000000))
    else if x == 102
    then some (token (routing_token 7))
    else if x == 103
    then some (swap swap_before)
    else none

abbrev code_after : Code
code_after =
    put 103 (swap swap_after)
      (put 102 (token (routing_token 451257)) (put 101 (token (residue_token 1000000)) code_before))

exchanged : exchange (λ stack. none) 103 swap_before 3 1000000 1 3 code_before ≡ some code_after
unfolding exchange quote require decayed checked_mul checked_sub checked_add larger rounds_of track
    spend_at mint_at put token_at mint spend lookup store deployed swap_deployed
exchanged = refl

exchange-settles_example :
    (out : ℕ) × (s' : Swap) × (burnt spent minted grown : Token) × (swap_before.paused ≡ false)
    × (quote swap_before 1000000 1 3 ≡ some out)
    × (token_at code_before swap_before.residue_token ≡ some burnt)
    × (token_at code_after swap_before.residue_token ≡ some spent)
    × (spent.total_supply + 1000000 ≡ burnt.total_supply)
    × (token_at code_before swap_before.routing_token ≡ some minted)
    × (token_at code_after swap_before.routing_token ≡ some grown)
    × (grown.total_supply ≡ minted.total_supply + out)
    × (code_after 103 ≡ some (swap s'))
    × (s'.consumed_agent 3 3 ≡ swap_before.consumed_agent 3 3 + out)
    × (s'.consumed_agent 3 3 ≤ swap_before.per_epoch_cap_per_agent)
    × (s'.consumed_global 3 ≡ swap_before.consumed_global 3 + out)
    × (s'.consumed_global 3 ≤ swap_before.global_per_epoch_cap)
unfolding swap_deployed
exchange-settles_example =
    exchange-settles (λ stack. none) 103 swap_before 3 1000000 1 3 code_before code_after refl refl
      refl exchanged
