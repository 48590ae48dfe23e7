-- ===== src/Contracts/Exchange/Quotes.antt =====
-- The bounds of a quote.
use dhf.Base.{
  ℕ, zero, suc, ◌+◌, ◌-◌, ◌*◌, ◌/◌, ◌≡◌, ◌≤◌, ◌<◌, sym, some, leb, arith, bind-some, some_inj,
}
use native.Mathlib.Nat.{mul-le-mul_left}
use dhf.Contracts.{require-some, checked_sub, checked_sub-some}
use dhf.Contracts.Exchange.{Swap, checked_mul, decayed, larger, rounds_of, quote}

pub checked_mul-some : (a b : ℕ) {c : ℕ} → checked_mul a b ≡ some c → c ≡ a * b
unfolding checked_mul
checked_mul-some a b {c} h = ground (arith, h)

-- A round of the decay does not raise the rate.
shrinks : (rate kept : ℕ) → kept ≤ 1000000 → (rate * kept) / 1000000 ≤ rate
shrinks rate kept h = omega (arith, mul-le-mul_left rate h)

decayed-le : (decay rounds rate : ℕ) {out : ℕ} → decayed decay rounds rate ≡ some out → out ≤ rate
unfolding decayed
decayed-le decay zero rate {out} h = omega (arith, some_inj h)
decayed-le decay (suc rounds) rate {out} h =
    let (kept, e, h1) = bind-some (checked_sub 1000000 decay) _ h in
    let (product, f, h2) = bind-some (checked_mul rate kept) _ h1 in
    let small : product / 1000000 ≤ rate =
      rw (checked_mul-some rate kept f)
        (shrinks rate kept (omega (arith, checked_sub-some 1000000 decay {c = kept} e))) in
    omega (arith, decayed-le decay rounds (product / 1000000) {out = out} h2, small)

-- More rounds leave no more of the rate.
decayed-later :
    (decay k j rate : ℕ) {a b : ℕ}
    → k ≤ j
    → decayed decay k rate ≡ some a
    → decayed decay j rate ≡ some b
    → b ≤ a
unfolding decayed
decayed-later decay zero j rate {a} {b} le h h' =
    omega (arith, some_inj h, decayed-le decay j rate {out = b} h')
decayed-later decay (suc k) zero rate le h h' = absurd (omega (arith, le))
decayed-later decay (suc k) (suc j) rate {a} {b} le h h' =
    let (kept, e, h1) = bind-some (checked_sub 1000000 decay) _ h in
    let (product, f, h2) = bind-some (checked_mul rate kept) _ h1 in
    decayed-later decay k j (product / 1000000) {a = a} {b = b} (omega (arith, le)) h2
      (rw (e, f) at h')

-- What a quote is made of.
quote_parts :
    (s : Swap) (amount at current out : ℕ)
    → quote s amount at current ≡ some out
    → (rate : ℕ) × (at ≤ current)
      × (decayed s.decay_rate (rounds_of (current - at)) s.base_rate ≡ some rate)
      × (out ≡ (amount * larger s.floor_rate rate) / 1000000)
unfolding quote
quote_parts s amount at current out h =
    let (later, h1) = require-some (leb at current) _ h in
    let (rate, e, h2) =
      bind-some (decayed s.decay_rate (rounds_of (current - at)) s.base_rate) _ h1 in
    let (product, f, h3) = bind-some (checked_mul amount (larger s.floor_rate rate)) _ h2 in
    (
      rate,
      ground (arith, later),
      e,
      rw (sym (checked_mul-some amount (larger s.floor_rate rate) f)) (sym (some_inj h3)),
    )

larger-le :
    (floor rate base : ℕ)
    → floor ≤ base
    → rate ≤ base
    → (larger floor rate ≤ base) × (floor ≤ larger floor rate)
unfolding larger
larger-le floor rate base h k = (ground (arith, h, k), ground arith)

larger_mono : (floor a b : ℕ) → a ≤ b → larger floor a ≤ larger floor b
unfolding larger
larger_mono floor a b h = ground (arith, h)

rounds_of_mono : (a b : ℕ) → a ≤ b → rounds_of a ≤ rounds_of b
unfolding rounds_of
rounds_of_mono a b h = ground (arith, h)

-- Where the floor is at most the base, which every change of the rate requires, a quote is at most the
-- amount at the base rate, and more than the amount at the floor less one unit.
pub quote-bounds :
    (s : Swap) (amount at current out : ℕ)
    → s.floor_rate ≤ s.base_rate
    → quote s amount at current ≡ some out
    → (out * 1000000 ≤ amount * s.base_rate) × (amount * s.floor_rate < (out + 1) * 1000000)
quote-bounds s amount at current out fine h =
    let (rate, later, e, is_out) = quote_parts s amount at current out h in
    let (low, high) =
      larger-le s.floor_rate rate s.base_rate fine
        (decayed-le s.decay_rate _ s.base_rate {out = rate} e) in
    (
      omega (arith, is_out, mul-le-mul_left amount low),
      omega (arith, is_out, mul-le-mul_left amount high),
    )

-- Of two quotes for one amount of one residue, the one of the later epoch is not the greater.
quote-later :
    (s : Swap) (amount at current later out out' : ℕ)
    → current ≤ later
    → quote s amount at current ≡ some out
    → quote s amount at later ≡ some out'
    → out' ≤ out
quote-later s amount at current later out out' le h h' =
    let (rate, after, e, is_out) = quote_parts s amount at current out h in
    let (rate', after', e', is_out') = quote_parts s amount at later out' h' in
    let less =
      decayed-later s.decay_rate _ _ s.base_rate {a = rate} {b = rate'}
        (rounds_of_mono (current - at) (later - at) (omega (arith, le))) e e' in
    omega
      (arith, is_out, is_out', mul-le-mul_left amount (larger_mono s.floor_rate rate' rate less))
