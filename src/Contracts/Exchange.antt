-- ===== src/Contracts/Exchange.antt =====
-- contracts/src/ResidueToRoutingSwap.sol: the rate of the exchange, its limits and its settings. A rate
-- is in millionths. The burning and the minting on the two tokens are in Contracts/Evm/Swaps.
pub mod Quotes
use dhf.Base.{
  ℕ, zero, suc, ◌+◌, ◌-◌, ◌*◌, ◌/◌, ◌^◌, ◌==◌, ◌&&◌, ◌||◌, ◌>>=◌, not, Option, none, some, Bool,
  true, false, leb, ltb, if◌then◌else◌,
}
use dhf.Contracts.{limit, require, checked_add, checked_sub}

pub record Swap : Type 0 where
  pub owner : ℕ
  pub residue_token : ℕ
  pub routing_token : ℕ
  pub base_rate : ℕ
  pub decay_rate : ℕ
  pub floor_rate : ℕ
  pub per_epoch_cap_per_agent : ℕ
  pub global_per_epoch_cap : ℕ
  pub consumed_agent : ℕ → ℕ → ℕ
  pub consumed_global : ℕ → ℕ
  pub route_oracle : ℕ
  pub paused : Bool

-- the constructor, by its sender
unfoldable pub swap_deployed : ℕ → ℕ → ℕ → Swap
swap_deployed sender residue_token routing_token = record {
  owner = sender;
  residue_token = residue_token;
  routing_token = routing_token;
  base_rate = 500000;
  decay_rate = 50000;
  floor_rate = 100000;
  per_epoch_cap_per_agent = 50 * 10 ^ 18;
  global_per_epoch_cap = 5000 * 10 ^ 18;
  consumed_agent = λ agent epoch. 0;
  consumed_global = λ epoch. 0;
  route_oracle = 0;
  paused = false;
}

-- `a * b`, which reverts beyond the numbers that there are
unfoldable pub checked_mul : ℕ → ℕ → Option ℕ
checked_mul a b = if ltb (a * b) limit then some (a * b) else none

-- The loop of the decay: the rate after a number of rounds.
unfoldable pub decayed : ℕ → ℕ → ℕ → Option ℕ
unfolding checked_sub checked_mul
decayed decay zero rate = some rate
decayed decay (suc rounds) rate = checked_sub 1000000 decay >>= λ kept.
    checked_mul rate kept >>= λ product. decayed decay rounds (product / 1000000)

unfoldable pub larger : ℕ → ℕ → ℕ
larger floor rate = if ltb rate floor then floor else rate

-- The epochs that count, 200 at most.
unfoldable pub rounds_of : ℕ → ℕ
rounds_of elapsed = if ltb elapsed 200 then elapsed else 200

unfoldable pub quote : Swap → ℕ → ℕ → ℕ → Option ℕ
unfolding require decayed larger rounds_of checked_mul
quote s residue_amount epoch_at_resolution current_epoch =
    require (leb epoch_at_resolution current_epoch) (
      decayed s.decay_rate (rounds_of (current_epoch - epoch_at_resolution)) s.base_rate >>= λ rate.
      checked_mul residue_amount (larger s.floor_rate rate) >>= λ product. some (product / 1000000))

unfoldable pub set_route_oracle : ℕ → ℕ → Swap → Option Swap
unfolding require
set_route_oracle sender o c = require (sender == c.owner) (some (record c { route_oracle = o }))

unfoldable pub set_paused : ℕ → Bool → Swap → Option Swap
unfolding require
set_paused sender p c =
    require (sender == c.owner || (sender == c.route_oracle)) (some (record c { paused = p }))

unfoldable pub set_rate : ℕ → ℕ → ℕ → ℕ → Swap → Option Swap
unfolding require
set_rate sender base decay floor c = require (sender == c.owner) (
    require (ltb 0 base && leb floor base)
      (some (record c { base_rate = base; decay_rate = decay; floor_rate = floor })))

unfoldable pub set_caps : ℕ → ℕ → ℕ → Swap → Option Swap
unfolding require
set_caps sender per_agent global c =
    require (sender == c.owner)
      (some (record c { per_epoch_cap_per_agent = per_agent; global_per_epoch_cap = global }))

-- The consumption of an agent and of all in an epoch, after an exchange of `out`.
unfoldable pub track : ℕ → ℕ → ℕ → Swap → Option Swap
unfolding require checked_add
track agent epoch out c = checked_add (c.consumed_agent agent epoch) out >>= λ mine.
    require (leb mine c.per_epoch_cap_per_agent) (
      checked_add (c.consumed_global epoch) out >>= λ total.
      require (leb total c.global_per_epoch_cap) (
        some (record c {
          consumed_agent = λ a e. if a == agent && e == epoch then mine else c.consumed_agent a e;
          consumed_global = λ e. if e == epoch then total else c.consumed_global e;
        })))
