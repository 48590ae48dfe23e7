-- ===== src/Thalamus/Ticks.antt =====
-- What a tick does with the events that it holds and with those that arrive while it waits.
use dhf.Base.{◌≡◌, refl, Option, Bool, true, List, [], ◌∷◌, arith, Option-cases, inl, inr}
use dhf.Crypto.Primitives.{Noble}
use dhf.Thalamus.{
  Arrival, memory, sleeve, evm, EpochRow, Router, Submitted, receive, receive_all, tick_row, tick,
  clear,
}

receive_all-cleared :
    (n : Noble) (arrivals : List Arrival) (r : Router)
    → (clear (receive_all n arrivals r) ≡ clear r)
      × ((receive_all n arrivals r).current_epoch ≡ r.current_epoch)
      × ((receive_all n arrivals r).epochs ≡ r.epochs)
      × ((receive_all n arrivals r).transitions ≡ r.transitions)
unfolding receive_all receive clear
receive_all-cleared n [] r = (refl, refl, refl, refl)
receive_all-cleared n (memory cid ∷ rest) r = receive_all-cleared n rest (receive n (memory cid) r)
receive_all-cleared n (sleeve t ∷ rest) r = receive_all-cleared n rest (receive n (sleeve t) r)
receive_all-cleared n (evm tx ∷ rest) r = receive_all-cleared n rest (receive n (evm tx) r)

-- When the bus takes the transition, the state after a tick is the same whatever arrives while the
-- tick waits for the chain, and whether the database takes the row or not: those events are in no root, of this tick or a later one.
pub tick-forgets :
    (n : Noble) (submit : EpochRow → Option Submitted) (db_up : Bool) (arrivals : List Arrival)
    (r : Router)
    → tick n submit db_up true arrivals r ≡ tick n submit db_up true [] r
unfolding tick clear
tick-forgets n submit db_up arrivals r =
    let (e1, e2, e3, e4) = receive_all-cleared n arrivals r in
    elim (Option-cases (submit (tick_row n r))) [
      | inl down ↦ ground (arith, down, e1, e2, e3, e4)
      | inr (anchor, up) ↦ ground (arith, up, e1, e2, e3, e4)
    ]
