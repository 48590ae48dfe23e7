-- ===== src/Bus.antt =====
-- packages/bus/src/index.ts: the stream's creation, the subjects, the loop of a durable consumer, and
-- the one bus of a process. The broker is an argument: what it delivers is a list of messages in the
-- order of delivery, in which a message that was not acknowledged may come again.
pub mod Consumes
use dhf.Base.{
  ℕ, ◌==◌, Option, none, some, Bool, true, false, List, [], ◌∷◌, ◌++◌, Text, if◌then◌else◌, codes,
}

-- `t.startsWith(p)` and `t.includes(p)`
unfoldable pub starts : Text → Text → Bool
starts [] t = true
starts (p ∷ ps) [] = false
starts (p ∷ ps) (c ∷ cs) = let rest = starts ps cs in if p == c then rest else false

unfoldable pub includes : Text → Text → Bool
unfolding starts
includes p [] = starts p []
includes p (c ∷ cs) = let rest = includes p cs in if starts p (c ∷ cs) then true else rest

-- Whether `connect` goes on after `streams.add`, which gives nothing or the message of an error.
unfoldable pub goes_on : Option Text → Bool
unfolding includes
goes_on none = true
goes_on (some message) = includes (codes "stream name already in use") message

-- What a bus is: made, and connected or not.
pub data Link : Type 0 where
  connected unconnected : Link

-- `connect`: whether NATS is reached, and what the stream's creation gives. The connection is there
-- before the stream's error is thrown.
unfoldable pub connect : Bool → Option Text → Bool × Link
unfolding goes_on
connect reached added =
    if reached then (goes_on added, Link.connected) else (false, Link.unconnected)

-- `getBus` on the process's variable: the bus, or an exception, and the variable.
unfoldable pub get_bus : Bool → Option Text → Option Link → Option Link × Option Link
unfolding connect
get_bus reached added (some l) = (some l, some l)
get_bus reached added none =
    let (fine, l) = connect reached added in (if fine then some l else none, some l)

-- The subject of an event, by its type.
unfoldable pub subject : Text → Text
subject type = codes "ecca." ++ type

-- `publish` on a bus: without a connection it throws.
unfoldable pub publish {ℓ} :
    {E : Type ℓ} → Link → Text → E → List (Text × E) → Bool × List (Text × E)
unfolding subject
publish Link.connected type e stream = (true, stream ++ (subject type, e) ∷ [])
publish Link.unconnected type e stream = (false, stream)

-- What a delivery is answered with.
pub data Settled : Type 0 where
  acked naked : Settled

module _ {ℓ} {E S : Type ℓ} (decode : Text → Option E) (handler : E → S → Bool × S) where
  -- the body of the loop of `subscribe`: what throws, in the decoding or in the handler, is not
  -- acknowledged
  unfoldable pub settle : Text → S → Settled × S
  settle m s = elim (decode m) [
    | none ↦ (Settled.naked, s)
    | some e ↦ (let (fine, s') = handler e s in (if fine then Settled.acked else Settled.naked, s'))
  ]

  unfoldable pub consume : List Text → S → List Settled × S
  unfolding settle
  consume [] s = ([], s)
  consume (m ∷ rest) s =
      let (answer, s1) = settle m s in let (answers, s2) = consume rest s1 in (answer ∷ answers, s2)
